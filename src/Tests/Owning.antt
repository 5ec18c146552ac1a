-- ===== src/Tests/Owning.antt =====
-- The owner of a worktree with one file.
use mathlib.Core.Option
use xgraph.Prelude.{
  ℕ, ◌<◌, true, Option, none, some, List, [], ◌∷◌, ◌++◌, contains, length, ◌≡◌, refl, arith,
  list_beq,
}
use xgraph.Text.{Text, text, text_key}
use xgraph.Map.{All, get, find}
use xgraph.Cozo.Facts.{ExtractedFile, Node, Ref, Position, SourceSpan, FileUpdate}
use xgraph.Cozo.Store.{Store, empty_store}
use xgraph.Cozo.Store.Batch.{file_row}
use xgraph.Cozo.Writer.{shutdown}
use xgraph.Cozo.Writer.Rounds.{effects_of}
use xgraph.Cozo.Writer.Perform.{run_writer}
use xgraph.Indexes.State.{nodes_in_file}
use xgraph.Imports.Python.{RelPath}
use xgraph.Scanner.{rust, type_script, detect_language, ends_with}
use xgraph.Imports.Alias.{returns}
use xgraph.Cozo.NodeIds.{active_node_id}
use xgraph.Owner.Rewrite.{with_qname, rewrite_js_ref}
use xgraph.Owner.Rewrite.Local.{local_call_found}
use xgraph.Owner.Rewrite.Names.{is_js_simple_identifier, all_name_chars, is_ascii_alphabetic}
use xgraph.Owner.Paths.{file_name, js_path_key}
use xgraph.Owner.Symbols.{PreparedFile, js_ts, lookup, build_symbol_table, language_family}
use xgraph.Owner.Edges.{resolve_edges}
use xgraph.Owner.Edges.Families.{WithinFamily, resolve_edges-WithinFamily}
use xgraph.Owner.Changes.{
  World, FileMetadata, WorktreeOwner, process_change, process_delete, relative_to, to_string_lossy,
  active_file_hash,
}
use xgraph.Owner.Changes.History.{
  latest_of, held_ids, Reaches, started, changed, deleted, started_with,
}
use xgraph.Owner.Changes.Agreement.{indexes_and_store_agree}
use xgraph.Owner.Changes.Single.{
  Untouched, Changed, prepared_of, Replaced, process_change_lem, process_change-skipped,
}
use xgraph.Owner.Status.{new}
use xgraph.Tests.Writing.{open_writer, willing, obeying}

abbrev start : Position
start = record { byte = 0; row = 0; column = 0 }

abbrev everywhere : SourceSpan
everywhere = record { start = start; end = start }

abbrev helper : Node
helper = record {
  id = 0;
  kind = text "function";
  name = text "helper";
  qname = text "helper";
  span = everywhere;
  parent = none;
}

abbrev call : Ref
call = record {
  id = 0;
  kind = text "rust_call";
  name = text "helper";
  qname = some (text "helper");
  alias = none;
  span = everywhere;
  container = some 0;
}

abbrev file : ExtractedFile
file = record { path = text "a.rs"; nodes = helper ∷ []; refs = call ∷ []; diagnostics = [] }

abbrev prepared : PreparedFile
prepared = record {
  relative = text "a.rs" ∷ [];
  content_hash = 1 ∷ [];
  language = rust;
  mtime = 5;
  size = 6;
  extracted = file;
  source_bytes = none;
}

resolve_edges-WithinFamily_example :
    All
      (WithinFamily (1 ∷ []) (text "a.rs") (prepared ∷ []) (language_family rust) file.refs)
      (resolve_edges (1 ∷ []) file (build_symbol_table (prepared ∷ [])) (language_family rust))
resolve_edges-WithinFamily_example = resolve_edges-WithinFamily (prepared ∷ []) prepared

abbrev path : RelPath
path = text "w" ∷ text "a.rs" ∷ []

-- a worktree whose file has this text
abbrev having : Text → World
having bytes = record {
  worktree_root = text "w" ∷ [];
  exists = λ p. true;
  metadata = λ p. some (record { modified = 5; len = 6 });
  read = λ p. some bytes;
  from_utf8_lossy = λ s. s;
  hash_bytes = λ s. s;
  extract_file = λ p s. some file;
  ts_resolver = record { base_url = []; aliases = [] };
  py_resolver = record { packages = [] };
  go_resolver = record { module_path = none };
  laravel_edges = λ bytes p. none;
  resolve_blade = λ input. [];
  resolve_react = λ extracted. [];
}

abbrev fresh : WorktreeOwner
fresh = started_with new

abbrev once : WorktreeOwner
once = (process_change (having (text "v1")) empty_store fresh path).owner

abbrev twice : WorktreeOwner
twice = (process_delete (having (text "v1")) once path).owner

twice-Reaches : Reaches obeying (λ s. s) twice
twice-Reaches =
    deleted (having (text "v1")) refl path
      (changed (having (text "v1")) empty_store path (started new))

abbrev rounds : List ℕ
rounds = 0 ∷ 0 ∷ 0 ∷ 0 ∷ []

-- what an example opens
unfoldable open_owner : ℕ → ℕ
unfolding process_change process_delete open_writer
open_owner n = n

few : length twice.sent < length rounds
unfolding open_owner
few = omega arith

clean : (run_writer willing obeying rounds (twice.sent ++ shutdown ∷ []) empty_store).errors ≡ []
unfolding open_owner
clean = refl

indexes_and_store_agree_example :
    (held : Option FileUpdate) × (held
      ≡ latest_of obeying (text "a.rs") none (effects_of twice.sent))
    × (get
          (run_writer willing obeying rounds
            (twice.sent ++ shutdown ∷ [])
            empty_store).store.active_file
          (text "a.rs")
        ≡ Option.map file_row held)
    × (nodes_in_file twice.indexes (text "a.rs") ≡ held_ids held)
indexes_and_store_agree_example =
    indexes_and_store_agree willing obeying (λ s. s) rounds twice (text "a.rs") twice-Reaches
      (λ q. refl) (λ c. refl) few clean

abbrev stat : FileMetadata
stat = record { modified = 5; len = 6 }

known : detect_language (file_name path) ≡ some rust
unfolding detect_language file_name ends_with list_beq
known = refl

not_stored : Changed (having (text "v1")) empty_store path (text "v1")
unfolding active_file_hash get find
not_stored h e = ground (arith, e)

process_change_lem_example :
    Replaced
      (having (text "v1"))
      fresh
      path
      stat
      (prepared_of (having (text "v1")) path stat rust (text "v1") file)
      (process_change (having (text "v1")) empty_store fresh path)
process_change_lem_example =
    process_change_lem (having (text "v1")) empty_store fresh path stat rust (text "v1") file refl
      refl refl known refl not_stored refl

-- the first text is in the store, the second waits for the writer, the first is back on disk
abbrev stored : Store
stored = (run_writer willing obeying rounds (once.sent ++ shutdown ∷ []) empty_store).store

abbrev edited : WorktreeOwner
edited = (process_change (having (text "v2")) stored once path).owner

stored_hash :
    active_file_hash stored
      (to_string_lossy (having (text "v1")) (relative_to (having (text "v1")).worktree_root path))
    ≡ some ((having (text "v1")).hash_bytes (text "v1"))
unfolding open_owner
stored_hash = refl

process_change-skipped_example :
    Untouched edited (process_change (having (text "v1")) stored edited path).owner
process_change-skipped_example =
    process_change-skipped (having (text "v1")) stored edited path (text "v1") refl stored_hash

abbrev script : PreparedFile
script = record prepared { relative = text "src" ∷ text "main.ts" ∷ []; language = type_script }

abbrev script_call : Ref
script_call = record call { kind = text "call"; qname = none }

simple : is_js_simple_identifier (text "helper") ≡ true
unfolding is_js_simple_identifier all_name_chars is_ascii_alphabetic
simple = refl

local_call_found_example :
    (q : Text) × (rewrite_js_ref (λ m. returns none) (js_path_key script.relative) script_call
      ≡ some (with_qname script_call q))
    × (contains
          (lookup (build_symbol_table (prepared ∷ script ∷ [])) js_ts q)
          (active_node_id (1 ∷ []) 0)
        ≡ true)
unfolding language_family
local_call_found_example =
    local_call_found (λ m. returns none) (prepared ∷ []) [] script [] [] helper script_call refl
      refl refl refl refl simple
