-- ===== src/Owner/Changes/Single.antt =====
-- What the change of a single path does, and when it does nothing.
use xgraph.Prelude.{
  ℕ, ◌+◌, Bool, true, false, Option, none, map, ◌==◌, some, [], ◌∷◌, ◌++◌, ◌≡◌, refl, ap, ==_refl,
  Bool-cases, Option-cases, inl, inr, nat_key, list_key,
}
use xgraph.Text.{Text, text_key}
use xgraph.Cozo.Store.{Store}
use xgraph.Cozo.Facts.{
  ContentHash, ExtractedFile, FileUpdate, Node, NodeFact, span_from_extract, from_extracted,
}
use xgraph.Cozo.Writer.{update}
use xgraph.Indexes.Update.{apply_file_update}
use xgraph.Imports.Python.{RelPath}
use xgraph.Scanner.{DetectedLanguage, detect_language}
use xgraph.Owner.Paths.{file_name}
use xgraph.Owner.Symbols.{PreparedFile, default, language_family}
use xgraph.Owner.Edges.Families.{resolve_edges-default}
use xgraph.Owner.Changes.{
  World, FileMetadata, Step, ok, kept_source, WorktreeOwner, relative_to, to_string_lossy,
  active_file_hash, same_hash, prepare_file_from_bytes, update_of, framework_edges,
  process_change_inner, process_change,
}

-- nothing of the owner's work is touched
abbrev pub Untouched : WorktreeOwner → WorktreeOwner → Type 0
Untouched o o' = (o'.sent ≡ o.sent) × (o'.indexes ≡ o.indexes) × (o'.generation ≡ o.generation)

-- what is prepared of a file, if its text is not skipped
abbrev pub prepared_of :
    World → RelPath → FileMetadata → DetectedLanguage → Text → ExtractedFile → PreparedFile
prepared_of w path m lang bytes extracted = record {
  relative = relative_to w.worktree_root path;
  content_hash = w.hash_bytes bytes;
  language = lang;
  mtime = m.modified;
  size = m.len;
  extracted = extracted;
  source_bytes = kept_source lang bytes;
}

-- the store has the path with another hash, or not at all
abbrev pub Changed : World → Store → RelPath → Text → Type 0
Changed w s path bytes =
    (h : Text)
    → active_file_hash s (to_string_lossy w (relative_to w.worktree_root path)) ≡ some h
    → (h == w.hash_bytes bytes) ≡ false

same_hash_lem :
    (stored : Option ContentHash) (hash : ContentHash)
    → ((h : Text) → stored ≡ some h → (h == hash) ≡ false)
    → same_hash stored hash ≡ false
same_hash_lem none hash other = refl
same_hash_lem (some h) hash other = other h refl

prepare_file_from_bytes_lem :
    (w : World) (s : Store) (path : RelPath) (m : FileMetadata) (lang : DetectedLanguage)
    (bytes : Text) (extracted : ExtractedFile)
    → Changed w s path bytes
    → w.extract_file (relative_to w.worktree_root path) bytes ≡ some extracted
    → prepare_file_from_bytes w s path bytes (w.hash_bytes bytes) m.modified m.len lang
      ≡ some (prepared_of w path m lang bytes extracted)
unfolding prepare_file_from_bytes
prepare_file_from_bytes_lem w s path m lang bytes extracted other e =
    rw
      (same_hash_lem (active_file_hash s (to_string_lossy w (relative_to w.worktree_root path)))
        (w.hash_bytes bytes) other)
      (rw e refl)

update_of-default :
    (w : World) (n : ℕ) (prep : PreparedFile)
    → (update_of w n prep default).edges ≡ framework_edges w prep
unfolding update_of
update_of-default w n prep =
    ap (λ es. es ++ framework_edges w prep)
      (resolve_edges-default prep.content_hash prep.extracted (language_family prep.language))

-- a node as the store has it
abbrev pub node_of : Node → NodeFact
node_of n = record {
  local_node_id = n.id;
  kind = n.kind;
  name = n.name;
  qname = n.qname;
  span = span_from_extract n.span;
}

-- What one update of the path's present text leaves: the update is the last message and is shown in the
-- indexes, it has the path, the hash and the nodes of that text, and the edges of the framework passes.
abbrev pub Replaced :
    World → WorktreeOwner → RelPath → FileMetadata → PreparedFile → Step Bool → Type 0
Replaced w o path m prep r =
    (u : FileUpdate) × (r.outcome ≡ ok true)
    × (r.owner.sent ≡ o.sent ++ update u ∷ [])
    × (r.owner.indexes ≡ apply_file_update o.indexes u)
    × (r.owner.generation ≡ o.generation + 1)
    × (u.generation ≡ o.generation)
    × (u.path ≡ to_string_lossy w (relative_to w.worktree_root path))
    × (u.content_hash ≡ prep.content_hash)
    × (u.mtime ≡ m.modified)
    × (u.size ≡ m.len)
    × (u.nodes ≡ map node_of prep.extracted.nodes)
    × (u.edges ≡ framework_edges w prep)

-- While the writer runs, the change of a path whose file exists, has a known language, can be read and
-- is taken by its extractor, and whose text has not the hash that `active_file` has for the path, sends
-- one update and shows it in the indexes: with the path, the hash of the text, the nodes that the
-- extractor finds in it, and as edges those of the framework passes alone, whatever the file refers to.
pub process_change_lem :
    (w : World) (s : Store) (o : WorktreeOwner) (path : RelPath) (m : FileMetadata)
    (lang : DetectedLanguage) (bytes : Text) (extracted : ExtractedFile)
    → o.is_open ≡ true
    → w.exists path ≡ true
    → w.metadata path ≡ some m
    → detect_language (file_name path) ≡ some lang
    → w.read path ≡ some bytes
    → Changed w s path bytes
    → w.extract_file (relative_to w.worktree_root path) bytes ≡ some extracted
    → Replaced w o path m (prepared_of w path m lang bytes extracted) (process_change w s o path)
unfolding process_change process_change_inner update_of from_extracted
process_change_lem w s o path m lang bytes extracted running there e known readable other found =
    let prep = prepared_of w path m lang bytes extracted in
    rw there (
      rw (e, process_change_inner)
        (rw known (
          rw readable (
            rw (prepare_file_from_bytes_lem w s path m lang bytes extracted other found) (
              rw running (
                update_of w o.generation prep default,
                refl,
                refl,
                refl,
                refl,
                refl,
                refl,
                refl,
                refl,
                refl,
                refl,
                update_of-default w o.generation prep,
              ))))))

-- Where `active_file` has a path with the hash of the text that is on disk, a change of the path sends
-- nothing and leaves the indexes as they are, even if updates of the path with another text have been
-- sent and wait for the writer.
pub process_change-skipped :
    (w : World) (s : Store) (o : WorktreeOwner) (path : RelPath) (bytes : Text)
    → w.read path ≡ some bytes
    → active_file_hash s (to_string_lossy w (relative_to w.worktree_root path))
      ≡ some (w.hash_bytes bytes)
    → Untouched o (process_change w s o path).owner
unfolding process_change process_change_inner prepare_file_from_bytes
process_change-skipped w s o path bytes readable stored = elim (Bool-cases (w.exists path)) [
  | inr gone ↦ rw gone (refl, refl, refl)
  | inl there ↦ rw there (elim (Option-cases (w.metadata path)) [
    | inl none_there ↦ rw (none_there, process_change_inner) (refl, refl, refl)
    | inr (m, e) ↦
        rw (e, process_change_inner)
          (elim (Option-cases (detect_language (file_name path))) [
            | inl unknown ↦ rw unknown (refl, refl, refl)
            | inr (lang, known) ↦ rw known (
                rw readable (
                  rw (stored, prepare_file_from_bytes)
                    (rw (==_refl (w.hash_bytes bytes)) (refl, refl, refl))))
          ])
  ])
]
