-- ===== src/Owner/Changes.antt =====
-- owner.rs: the owner's state and its operations on one path. The files on disk, the hash function,
-- `String::from_utf8_lossy`, the extractors, the import resolvers and the framework resolvers stand in a
-- `World`; the `Store` that the hash-skip cache reads is an argument, since the writer commits when it
-- likes. `generation` does not come near `u64::MAX`.
pub mod Passes
pub mod History
pub mod Agreement
pub mod Single
use xgraph.Prelude.{
  ℕ, zero, suc, ◌+◌, Bool, true, false, not, Option, none, some, List, [], ◌∷◌, is_empty, ◌++◌, map,
  if◌then◌else◌, length, ◌==◌, nat_key, list_key,
}
use xgraph.Text.{Text, text, text_key}
use xgraph.Map.{get}
use xgraph.Cozo.Facts.{ContentHash, ExtractedFile, EdgeFact, FileUpdate, from_extracted}
use xgraph.Cozo.Store.{Store, ActiveFile}
use xgraph.Cozo.Writer.{WriterMessage, update}
use xgraph.Indexes.State.{HotIndexes}
use xgraph.Indexes.Update.{apply_file_update, remove_path}
use xgraph.Ignore.{strip_prefix}
use xgraph.Imports.Alias.{TsAliasResolver}
use xgraph.Imports.Python.{RelPath, PythonImportResolver}
use xgraph.Owner.Rewrite.{GoModuleResolver}
use xgraph.Scanner.{
  DetectedLanguage, php, blade, java_script, type_script, tsx, python, go, rust, detect_language,
}
use xgraph.Owner.Paths.{join_with, file_name}
use xgraph.Owner.Symbols.{PreparedFile, SymbolTable, default, language_family}
use xgraph.Owner.Edges.{resolve_edges}
use xgraph.Owner.Framework.{
  FrameworkEdge, framework_facts, BladeExtractInput, blade_input_from_extracted,
}
use xgraph.Owner.Status.{DaemonStatus, mark_pending, unmark_pending}

pub record FileMetadata : Type 0 where
  pub modified : ℕ
  pub len : ℕ

pub record World : Type 0 where
  pub worktree_root : RelPath
  pub exists : RelPath → Bool
  pub metadata : RelPath → Option FileMetadata
  pub read : RelPath → Option Text
  pub from_utf8_lossy : Text → Text
  pub hash_bytes : Text → ContentHash
  pub extract_file : RelPath → Text → Option ExtractedFile
  pub ts_resolver : TsAliasResolver
  pub py_resolver : PythonImportResolver
  pub go_resolver : GoModuleResolver
  pub laravel_edges : Text → RelPath → Option (List FrameworkEdge)
  pub resolve_blade : BladeExtractInput → List FrameworkEdge
  pub resolve_react : ExtractedFile → List FrameworkEdge

-- a panic in a pass unwinds through it as an error would
pub data OwnerError : Type 0 where
  io : RelPath → OwnerError
  panicked : OwnerError
  queue_closed : OwnerError
  apply : Text → OwnerError

pub data Outcome (A : Type 0) : Type 0 where
  ok : A → Outcome A
  err : OwnerError → Outcome A

-- `sent` is what the channel of the writer was given; a closed channel takes nothing.
pub record WorktreeOwner : Type 0 where
  pub indexes : HotIndexes
  pub status : DaemonStatus
  pub generation : ℕ
  pub sent : List WriterMessage
  pub is_open : Bool

pub record Step (A : Type 0) : Type 0 where
  pub outcome : Outcome A
  pub owner : WorktreeOwner

abbrev pub map_outcome : {A B : Type 0} → (A → B) → Outcome A → Outcome B
map_outcome f (ok a) = ok (f a)
map_outcome f (err e) = err e

abbrev pub then_give : {A B : Type 0} → (A → B) → Step A → Step B
then_give f r = record { outcome = map_outcome f r.outcome; owner = r.owner }

-- `?` between two steps
abbrev pub and_then : {A B : Type 0} → Step A → (A → WorktreeOwner → Step B) → Step B
and_then r next = elim r.outcome [
  | ok a ↦ next a r.owner
  | err e ↦ record { outcome = err e; owner = r.owner }
]

-- `path.strip_prefix(&self.worktree_root).unwrap_or(&path)`
unfoldable pub relative_to : RelPath → RelPath → RelPath
unfolding strip_prefix
relative_to root path = elim (strip_prefix root path) [ some rel ↦ rel | none ↦ path ]

unfoldable pub raw_path : RelPath → Text
unfolding join_with
raw_path path = join_with (text "/") path

-- of a path's bytes, those that are no text are replaced
unfoldable pub to_string_lossy : World → RelPath → Text
unfolding raw_path
to_string_lossy w path = w.from_utf8_lossy (raw_path path)

unfoldable pub language_label : DetectedLanguage → Text
language_label php = text "php"
language_label blade = text "blade"
language_label java_script = text "javascript"
language_label type_script = text "typescript"
language_label tsx = text "tsx"
language_label python = text "python"
language_label go = text "go"
language_label rust = text "rust"

unfoldable pub active_file_hash : Store → Text → Option ContentHash
unfolding get
active_file_hash s path = elim (get s.active_file path) [
  | none ↦ none
  | some row ↦ some row.content_hash
]

abbrev pub parser_version : ℕ
parser_version = 1

unfoldable pub send : WorktreeOwner → WriterMessage → Step Unit
send o message =
    if o.is_open
    then record { outcome = ok tt; owner = record o { sent = o.sent ++ message ∷ [] } }
    else record { outcome = err queue_closed; owner = o }

unfoldable pub submit : WorktreeOwner → FileUpdate → Step Unit
unfolding send
submit o u = send o (update u)

abbrev pub same_hash : Option ContentHash → ContentHash → Bool
same_hash none hash = false
same_hash (some prior) hash = prior == hash

-- only PHP files keep their text
unfoldable pub kept_source : DetectedLanguage → Text → Option Text
kept_source php bytes = some bytes
kept_source blade bytes = none
kept_source java_script bytes = none
kept_source type_script bytes = none
kept_source tsx bytes = none
kept_source python bytes = none
kept_source go bytes = none
kept_source rust bytes = none

-- no file if the store has the path with this very hash, or no extractor takes it
unfoldable pub prepare_file_from_bytes :
    World → Store → RelPath → Text → ContentHash → ℕ → ℕ → DetectedLanguage → Option PreparedFile
unfolding active_file_hash to_string_lossy relative_to kept_source
prepare_file_from_bytes w s path bytes hash mtime size language =
    let relative = relative_to w.worktree_root path in
    if same_hash (active_file_hash s (to_string_lossy w relative)) hash
    then none
    else elim (w.extract_file relative bytes) [
      | none ↦ none
      | some extracted ↦ some (record {
        relative = relative;
        content_hash = hash;
        language = language;
        mtime = mtime;
        size = size;
        extracted = extracted;
        source_bytes = kept_source language bytes;
      })
    ]

-- the post-passes: `extract_laravel_input` and `resolve` on the text of a PHP file, `resolve_blade` on
-- the references of a template that has some, `resolve_react` on the other scripts
unfoldable pub framework_edges : World → PreparedFile → List EdgeFact
unfolding framework_facts blade_input_from_extracted
framework_edges w prep = elim prep.language [
  | php ↦ elim prep.source_bytes [
    | none ↦ []
    | some bytes ↦ elim (w.laravel_edges bytes prep.relative) [
      | none ↦ []
      | some edges ↦ framework_facts edges
    ]
  ]
  | blade ↦
      let input = blade_input_from_extracted prep.relative prep.extracted in
      if is_empty input.refs then [] else framework_facts (w.resolve_blade input)
  | java_script ↦ framework_facts (w.resolve_react prep.extracted)
  | type_script ↦ framework_facts (w.resolve_react prep.extracted)
  | tsx ↦ framework_facts (w.resolve_react prep.extracted)
  | python ↦ []
  | go ↦ []
  | rust ↦ []
]

-- the update of a prepared file
unfoldable pub update_of : World → ℕ → PreparedFile → SymbolTable → FileUpdate
unfolding framework_edges resolve_edges language_family language_label from_extracted
    to_string_lossy
update_of w generation prep symbols =
    let edges =
      resolve_edges prep.content_hash prep.extracted symbols (language_family prep.language)
      ++ framework_edges w prep in
    record (from_extracted prep.extracted (record {
      content_hash = prep.content_hash;
      language = language_label prep.language;
      parser_version = parser_version;
      mtime = prep.mtime;
      size = prep.size;
      generation = generation;
    })) { path = to_string_lossy w prep.relative; edges = edges }

-- the indexes show the update before the writer has it
unfoldable pub submit_prepared : World → WorktreeOwner → PreparedFile → SymbolTable → Step ℕ
unfolding update_of apply_file_update submit
submit_prepared w o prep symbols =
    let u = update_of w o.generation prep symbols in
    then_give (λ _. length u.edges)
      (submit (record o { generation = o.generation + 1; indexes = apply_file_update o.indexes u })
        u)

unfoldable pub process_change_inner : World → Store → WorktreeOwner → RelPath → Step Bool
unfolding detect_language prepare_file_from_bytes submit_prepared file_name
process_change_inner w s o path = elim (w.metadata path) [
  | none ↦ record { outcome = err (io path); owner = o }
  | some m ↦ elim (detect_language (file_name path)) [
    | none ↦ record { outcome = ok false; owner = o }
    | some lang ↦ elim (w.read path) [
      | none ↦ record { outcome = err (io path); owner = o }
      | some bytes ↦
          elim (prepare_file_from_bytes w s path bytes (w.hash_bytes bytes) m.modified m.len lang) [
            | none ↦ record { outcome = ok false; owner = o }
            | some prep ↦ then_give (λ _. true) (submit_prepared w o prep default)
          ]
    ]
  ]
]

abbrev pub set_pending : WorktreeOwner → RelPath → WorktreeOwner
set_pending o path = record o { status = mark_pending o.status path }

abbrev pub unset_pending : {A : Type 0} → RelPath → Step A → Step A
unset_pending path r = record r {
  owner = record r.owner { status = unmark_pending r.owner.status path };
}

-- with an empty table, so only the framework passes give edges
unfoldable pub process_change : World → Store → WorktreeOwner → RelPath → Step Bool
unfolding process_change_inner relative_to
process_change w s o path =
    let relative = relative_to w.worktree_root path in
    if not (w.exists path)
    then record { outcome = ok false; owner = o }
    else unset_pending relative (process_change_inner w s (set_pending o relative) path)

unfoldable pub zeros : ℕ → ContentHash
zeros zero = []
zeros (suc n) = 0 ∷ zeros n

-- the update of a path that is gone
unfoldable pub empty_update : World → ℕ → RelPath → FileUpdate
unfolding to_string_lossy zeros
empty_update w generation relative = record {
  path = to_string_lossy w relative;
  content_hash = zeros 32;
  language = [];
  parser_version = parser_version;
  mtime = 0;
  size = 0;
  generation = generation;
  diagnostics = [];
  nodes = [];
  refs = [];
  edges = [];
}

-- the indexes forget the path itself, while the update names it by its text
unfoldable pub process_delete_inner : World → WorktreeOwner → RelPath → Step Unit
unfolding empty_update remove_path submit raw_path
process_delete_inner w o relative =
    submit
      (record o {
        generation = o.generation + 1;
        indexes = remove_path o.indexes (raw_path relative);
      })
      (empty_update w o.generation relative)

unfoldable pub process_delete : World → WorktreeOwner → RelPath → Step Unit
unfolding process_delete_inner relative_to
process_delete w o path =
    let relative = relative_to w.worktree_root path in
    unset_pending relative (process_delete_inner w (set_pending o relative) relative)
