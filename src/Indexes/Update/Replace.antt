-- ===== src/Indexes/Update/Replace.antt =====
-- An update replaces exactly its file's part of every index.
use xgraph.Prelude.{
  ◌≡◌, not, ◌&&◌, ◌||◌, none, some, List, [], ◌==◌, if◌then◌else◌, arith, contains, List-cases, inl,
  inr, ==_iff,
}
use xgraph.Text.{text_key}
use xgraph.Map.{remove, get-insert, get-remove}
use xgraph.Map.Lists.{get_list}
use xgraph.Cozo.Facts.{FileUpdate}
use xgraph.Indexes.State.{
  HotIndexes, NodeId, FilePath, SymbolKey, symbol_key_key, get_node, nodes_in_file,
}
use xgraph.Indexes.Edges.{callees_of, callers_of}
use xgraph.Indexes.Edges.Symmetric.{EdgesMatch}
use xgraph.Indexes.Symbols.{lookup_symbol}
use xgraph.Indexes.Update.{install_nodes, ids_of, set_file, remove_path, apply_file_update}
use xgraph.Indexes.Update.Frame.{install_nodes-files, wire_edges-SameFacts}
use xgraph.Indexes.Update.Effect.{
  remove_all-calls, remove_all-get, remove_all-files, remove_all-lookup, remove_all-EdgesMatch,
}
use xgraph.Indexes.Update.Install.{
  hot_edge, declares, declared, wire_edges-calls, install_nodes-lookup, install_nodes-get,
}

-- the identifiers that the indexes held of a file
abbrev pub prior : HotIndexes → FilePath → List NodeId
prior idx path = nodes_in_file idx path

module _ (idx : HotIndexes) (path : FilePath) where
  abbrev without_file : HotIndexes
  without_file = record idx { files = remove idx.files path }

  without_file-EdgesMatch : EdgesMatch idx → EdgesMatch without_file
  unfolding callees_of callers_of
  without_file-EdgesMatch h = record {
    converse = h.converse;
    callees_filled = h.callees_filled;
    callers_filled = h.callers_filled;
  }

  pub remove_path-EdgesMatch : EdgesMatch idx → EdgesMatch (remove_path idx path)
  unfolding remove_path
  remove_path-EdgesMatch h =
      remove_all-EdgesMatch without_file (get_list idx.files path) (without_file-EdgesMatch h)

  pub remove_path-calls :
      (a b : NodeId)
      → EdgesMatch idx
      → contains (callees_of (remove_path idx path) a) b ≡ (
          contains (callees_of idx a) b
          && (not (contains (prior idx path) a) && not (contains (prior idx path) b)))
  unfolding remove_path nodes_in_file callees_of
  remove_path-calls a b h =
      unfold callees_of in
      remove_all-calls without_file (get_list idx.files path) a b (without_file-EdgesMatch h)

  pub remove_path-get :
      (x : NodeId)
      → get_node (remove_path idx path) x
        ≡ (if contains (prior idx path) x then none else get_node idx x)
  unfolding remove_path nodes_in_file get_node
  remove_path-get x = remove_all-get without_file (get_list idx.files path) x

  pub remove_path-files :
      (p : FilePath)
      → nodes_in_file (remove_path idx path) p ≡ (if path == p then [] else nodes_in_file idx p)
  unfolding remove_path nodes_in_file
  remove_path-files p =
      ground (
        arith,
        remove_all-files without_file (get_list idx.files path),
        get-remove idx.files path p,
      )

  pub remove_path-lookup :
      (key : SymbolKey) (x : NodeId)
      → contains (lookup_symbol (remove_path idx path) key) x
        ≡ (contains (lookup_symbol idx key) x && not (contains (prior idx path) x))
  unfolding remove_path nodes_in_file lookup_symbol
  remove_path-lookup key x =
      unfold lookup_symbol in remove_all-lookup without_file (get_list idx.files path) key x

module _ (idx : HotIndexes) (update : FileUpdate) where
  abbrev cleared : HotIndexes
  cleared = remove_path idx update.path

  abbrev installed : HotIndexes
  installed = install_nodes update.content_hash update.path update.nodes cleared

  abbrev new_ids : List NodeId
  new_ids = ids_of update.content_hash update.nodes

  abbrev filed : HotIndexes
  filed = set_file installed update.path new_ids

  -- only `files` differs
  filed_lem :
      (filed.nodes ≡ installed.nodes)
      × (filed.callees ≡ installed.callees)
      × (filed.symbols ≡ installed.symbols)
  unfolding set_file
  filed_lem = ground arith

  -- The call edges after an update: its own, and the old ones that touch no prior node of the file.
  pub apply_file_update-calls :
      (a b : NodeId)
      → EdgesMatch idx
      → contains (callees_of (apply_file_update idx update) a) b ≡ (
          hot_edge update.edges a b
          || (contains (callees_of idx a) b
              && (not (contains (prior idx update.path) a)
                  && not (contains (prior idx update.path) b))))
  unfolding apply_file_update callees_of
  apply_file_update-calls a b h = ground (
    arith,
    wire_edges-calls update.edges filed a b,
    filed_lem.1,
    (install_nodes-files update.content_hash update.path update.nodes cleared).1,
    remove_path-calls idx update.path a b h,
  )

  -- A symbol's nodes after an update: those that the file declares now, and the old ones of others.
  pub apply_file_update-lookup :
      (key : SymbolKey) (x : NodeId)
      → contains (lookup_symbol (apply_file_update idx update) key) x ≡ (
          declares update.content_hash update.nodes key x
          || (contains (lookup_symbol idx key) x && not (contains (prior idx update.path) x)))
  unfolding apply_file_update lookup_symbol
  apply_file_update-lookup key x = ground (
    arith,
    (wire_edges-SameFacts update.edges filed).symbols,
    filed_lem.2,
    install_nodes-lookup update.content_hash update.path update.nodes cleared key x,
    remove_path-lookup idx update.path key x,
  )

  -- A node's record after an update: the one that the file declares last; none, if the file had the
  -- node before; else the old one.
  pub apply_file_update-get :
      (x : NodeId)
      → get_node (apply_file_update idx update) x
        ≡ elim (declared update.content_hash update.path update.nodes x) [
          | some r ↦ some r
          | none ↦ if contains (prior idx update.path) x then none else get_node idx x
        ]
  unfolding apply_file_update get_node
  apply_file_update-get x = ground (
    arith,
    (wire_edges-SameFacts update.edges filed).nodes,
    filed_lem.0,
    install_nodes-get update.content_hash update.path update.nodes cleared x,
    remove_path-get idx update.path x,
  )

  -- The file lists its new nodes, in order, and every other file what it listed before.
  pub apply_file_update-files :
      (p : FilePath)
      → nodes_in_file (apply_file_update idx update) p
        ≡ (if update.path == p then new_ids else nodes_in_file idx p)
  unfolding apply_file_update nodes_in_file set_file
  apply_file_update-files p =
      let ids = new_ids in
      let wired = (wire_edges-SameFacts update.edges filed).files in
      let kept = (install_nodes-files update.content_hash update.path update.nodes cleared).0 in
      let before = remove_path-files idx update.path p in
      elim (List-cases new_ids) [
        | inl nothing ↦ ground (arith, wired, kept, before, nothing, ==_iff update.path p)
        | inr (i, rest, some_ids) ↦
            ground
              (arith, wired, kept, before, some_ids, get-insert installed.files update.path ids p)
      ]
