-- ===== src/Indexes/Update/Files.antt =====
-- The files' lists of nodes against the records of the nodes.
use xgraph.Prelude.{
  ◌≡◌, refl, true, false, Option, none, some, ◌==◌, ==_iff, arith, contains, inl, inr, Bool-cases,
  ◌≢◌,
}
use xgraph.Text.{text_key}
use xgraph.Cozo.Facts.{FileUpdate}
use xgraph.Indexes.State.{HotIndexes, NodeId, NodeRecord, FilePath, get_node, nodes_in_file}
use xgraph.Indexes.Update.{ids_of, remove_path, apply_file_update}
use xgraph.Indexes.Update.Install.{declared, declared-Describes, Describes}
use xgraph.Indexes.Update.Replace.{
  remove_path-get, remove_path-files, apply_file_update-get, apply_file_update-files,
}

-- Each node that a file lists has a record of that identifier and path.
pub record FilesMatch (idx : HotIndexes) : Type 0 where
  pub recorded :
      (p : FilePath) (x : NodeId)
      → contains (nodes_in_file idx p) x ≡ true
      → (r : NodeRecord) × (get_node idx x ≡ some r) × (r.path ≡ p) × (r.id ≡ x)

-- no node stands in two files
elsewhere :
    (idx : HotIndexes) (path p : FilePath) (x : NodeId)
    → FilesMatch idx
    → (path == p) ≡ false
    → contains (nodes_in_file idx p) x ≡ true
    → contains (nodes_in_file idx path) x ≡ false
elsewhere idx path p x h other m = elim (Bool-cases (contains (nodes_in_file idx path) x)) [
  | inr absent ↦ absent
  | inl there ↦
      let (r, g, at_path, _) = h.recorded path x there in
      let (r', g', at_p, _) = h.recorded p x m in
      absurd (ground (arith, g, g', at_path, at_p, other, ==_iff path p))
]

-- Dropping a file leaves the nodes of every other file in place.
pub remove_path-FilesMatch :
    (idx : HotIndexes) (path : FilePath) → FilesMatch idx → FilesMatch (remove_path idx path)
unfolding contains
remove_path-FilesMatch idx path h = record {
  recorded = λ p x m. elim (Bool-cases (path == p)) [
    | inl same ↦ absurd (ground (arith, m, same, remove_path-files idx path p))
    | inr other ↦
        let m' : contains (nodes_in_file idx p) x ≡ true =
          ground (arith, m, other, remove_path-files idx path p) in
        let (r, g, at_path, id) = h.recorded p x m' in
        (r, rw remove_path-get (rw (elsewhere idx path p x h other m') g), at_path, id)
  ];
}

-- The nodes of an update are not listed by another file.
pub record Unshared (idx : HotIndexes) (update : FileUpdate) : Type 0 where
  pub apart :
      (p : FilePath) (x : NodeId)
      → (update.path == p) ≡ false
      → contains (ids_of update.content_hash update.nodes) x ≡ true
      → contains (nodes_in_file idx p) x ≡ false

-- An update whose nodes no other file lists keeps each listed node recorded under its own path.
pub apply_file_update-FilesMatch :
    (idx : HotIndexes) (update : FileUpdate)
    → Unshared idx update
    → FilesMatch idx
    → FilesMatch (apply_file_update idx update)
apply_file_update-FilesMatch idx update fresh h = record {
  recorded = λ p x m.
      go p x m (declared update.content_hash update.path update.nodes x) refl
        (declared-Describes update.content_hash update.path update.nodes x);
}
  where
    go :
        (p : FilePath) (x : NodeId)
        → contains (nodes_in_file (apply_file_update idx update) p) x ≡ true
        → (o : Option NodeRecord) → declared update.content_hash update.path update.nodes x ≡ o
        → Describes
            (ids_of update.content_hash update.nodes)
            update.path
            x
            (declared update.content_hash update.path update.nodes x)
        → (r : NodeRecord) × (get_node (apply_file_update idx update) x ≡ some r)
          × (r.path ≡ p)
          × (r.id ≡ x)
    go p x m none e d = elim (Bool-cases (update.path == p)) [
      | inl same ↦ absurd (ground (arith, m, e, d, same, apply_file_update-files idx update p))
      | inr other ↦
          let m' : contains (nodes_in_file idx p) x ≡ true =
            ground (arith, m, other, apply_file_update-files idx update p) in
          let (r, g, at_p, id) = h.recorded p x m' in
          (
            r,
            ground (
              arith,
              g,
              e,
              apply_file_update-get idx update x,
              elsewhere idx update.path p x h other m',
            ),
            at_p,
            id,
          )
    ]
    go p x m (some r) e d = elim (Bool-cases (update.path == p)) [
      | inl same ↦ (
        r,
        ground (arith, e, apply_file_update-get idx update x),
        ground (arith, e, d, same, ==_iff update.path p),
        ground (arith, e, d),
      )
      | inr other ↦ absurd (
          ground
            (arith, m, e, d, other, fresh.apart p x other, apply_file_update-files idx update p))
    ]

-- Identifiers are made of the content alone. So where two paths have the same content, dropping one
-- of them drops the records of the nodes that the other still lists.
pub shared_content_lost :
    (idx : HotIndexes) (u v : FileUpdate) (x : NodeId)
    → u.content_hash ≡ v.content_hash
    → u.nodes ≡ v.nodes
    → u.path ≢ v.path
    → contains (ids_of v.content_hash v.nodes) x ≡ true
    → (contains
          (nodes_in_file
            (remove_path (apply_file_update (apply_file_update idx u) v) u.path)
            v.path)
          x
        ≡ true)
      × (get_node (remove_path (apply_file_update (apply_file_update idx u) v) u.path) x ≡ none)
shared_content_lost idx u v x same_hash same_nodes apart m =
    let one = apply_file_update idx u in
    let two = apply_file_update one v in
    (
      ground (
        arith,
        m,
        apart,
        remove_path-files two u.path v.path,
        apply_file_update-files one v v.path,
        ==_iff u.path v.path,
        ==_iff v.path v.path,
      ),
      ground (
        arith,
        m,
        apart,
        same_hash,
        same_nodes,
        remove_path-get two u.path x,
        apply_file_update-files one v u.path,
        apply_file_update-files idx u u.path,
        ==_iff v.path u.path,
        ==_iff u.path u.path,
      ),
    )
