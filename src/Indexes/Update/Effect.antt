-- ===== src/Indexes/Update/Effect.antt =====
-- What one node's removal and one node's installation do to each table, and so whole updates.
use xgraph.Prelude.{
  ◌≡◌, refl, Bool, false, not, ◌&&◌, none, List, [], ◌∷◌, ◌==◌, ==_comm, if◌then◌else◌, arith, ◌∙◌,
  contains,
}
use xgraph.Text.{text_key}
use xgraph.Map.{get, remove, get-remove}
use xgraph.Indexes.State.{HotIndexes, NodeId, SymbolKey, symbol_key_key}
use xgraph.Indexes.Edges.{remove_edges_for_node, callees_of, callers_of}
use xgraph.Indexes.Edges.Symmetric.{
  EdgesMatch, remove_edges_for_node_lem, remove_edges_for_node-EdgesMatch,
}
use xgraph.Indexes.Symbols.{lookup_symbol}
use xgraph.Indexes.Symbols.Removal.{remove_symbol_references_lem}
use xgraph.Indexes.Update.{remove_node_references, remove_all}
use xgraph.Indexes.Update.Frame.{SameGraph, remove_symbol_references-SameGraph}

abbrev pub calls : HotIndexes → NodeId → NodeId → Bool
calls idx a b = contains (callees_of idx a) b

module _ (idx : HotIndexes) (id : NodeId) where
  abbrev unlisted : HotIndexes
  unlisted = record idx { nodes = remove idx.nodes id }

  unlinked : HotIndexes
  unlinked = remove_edges_for_node unlisted id

  remove_node_references-graph : SameGraph unlinked (remove_node_references idx id)
  unfolding remove_node_references unlinked
  remove_node_references-graph = remove_symbol_references-SameGraph unlinked id

  unlisted-EdgesMatch : EdgesMatch idx → EdgesMatch unlisted
  unfolding callees_of callers_of
  unlisted-EdgesMatch h = record {
    converse = h.converse;
    callees_filled = h.callees_filled;
    callers_filled = h.callers_filled;
  }

  pub remove_node_references-EdgesMatch :
      EdgesMatch idx → EdgesMatch (remove_node_references idx id)
  unfolding callees_of callers_of unlinked
  remove_node_references-EdgesMatch h =
      let same = remove_node_references-graph in
      let k = remove_edges_for_node-EdgesMatch unlisted id (unlisted-EdgesMatch h) in
      record {
        converse = λ a b. ground (arith, same.callees, same.callers, k.converse a b);
        callees_filled = rw same.callees k.callees_filled;
        callers_filled = rw same.callers k.callers_filled;
      }

  remove_node_references-calls :
      (a b : NodeId)
      → EdgesMatch idx
      → calls (remove_node_references idx id) a b
        ≡ (if a == id then false else if b == id then false else calls idx a b)
  unfolding callees_of callers_of unlinked
  remove_node_references-calls a b h = ground (
    arith,
    remove_node_references-graph.callees,
    remove_edges_for_node_lem unlisted id a b (unlisted-EdgesMatch h),
  )

  remove_node_references-get :
      (x : NodeId)
      → get (remove_node_references idx id).nodes x ≡ (if id == x then none else get idx.nodes x)
  unfolding unlinked remove_edges_for_node
  remove_node_references-get x =
      ground (arith, remove_node_references-graph.nodes, get-remove idx.nodes id x)

  remove_node_references-files : (remove_node_references idx id).files ≡ idx.files
  unfolding unlinked remove_edges_for_node
  remove_node_references-files = remove_node_references-graph.files

  remove_node_references-lookup :
      (k : SymbolKey) (x : NodeId)
      → contains (lookup_symbol (remove_node_references idx id) k) x
        ≡ (if x == id then false else contains (lookup_symbol idx k) x)
  unfolding remove_node_references remove_edges_for_node lookup_symbol
  remove_node_references-lookup k x =
      unfold lookup_symbol in
      remove_symbol_references_lem (remove_edges_for_node unlisted id) id k x

-- After the nodes of a file are removed.
pub remove_all-EdgesMatch :
    (idx : HotIndexes) (ids : List NodeId) → EdgesMatch idx → EdgesMatch (remove_all idx ids)
unfolding remove_all
remove_all-EdgesMatch idx [] h = h
remove_all-EdgesMatch idx (id ∷ ids) h =
    remove_all-EdgesMatch (remove_node_references idx id) ids
      (remove_node_references-EdgesMatch idx id h)

pub remove_all-calls :
    (idx : HotIndexes) (ids : List NodeId) (a b : NodeId)
    → EdgesMatch idx
    → calls (remove_all idx ids) a b
      ≡ (calls idx a b && (not (contains ids a) && not (contains ids b)))
unfolding remove_all contains
remove_all-calls idx [] a b h = unfold contains in ground arith
remove_all-calls idx (id ∷ ids) a b h = ground (
  arith,
  remove_all-calls (remove_node_references idx id) ids a b
      (remove_node_references-EdgesMatch idx id h),
  remove_node_references-calls idx id a b h,
  ==_comm a id,
  ==_comm b id,
)

pub remove_all-get :
    (idx : HotIndexes) (ids : List NodeId) (x : NodeId)
    → get (remove_all idx ids).nodes x ≡ (if contains ids x then none else get idx.nodes x)
unfolding remove_all contains
remove_all-get idx [] x = refl
remove_all-get idx (id ∷ ids) x = ground (
  arith,
  remove_all-get (remove_node_references idx id) ids x,
  remove_node_references-get idx id x,
)

pub remove_all-files :
    (idx : HotIndexes) (ids : List NodeId) → (remove_all idx ids).files ≡ idx.files
unfolding remove_all
remove_all-files idx [] = refl
remove_all-files idx (id ∷ ids) =
    remove_all-files (remove_node_references idx id) ids ∙ remove_node_references-files idx id

pub remove_all-lookup :
    (idx : HotIndexes) (ids : List NodeId) (k : SymbolKey) (x : NodeId)
    → contains (lookup_symbol (remove_all idx ids) k) x
      ≡ (contains (lookup_symbol idx k) x && not (contains ids x))
unfolding remove_all contains
remove_all-lookup idx [] k x = ground arith
remove_all-lookup idx (id ∷ ids) k x = ground (
  arith,
  remove_all-lookup (remove_node_references idx id) ids k x,
  remove_node_references-lookup idx id k x,
  ==_comm x id,
)
