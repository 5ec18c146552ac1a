-- ===== src/Indexes/Update.antt =====
-- indexes.rs: a file's facts replace what the indexes held of it, and a reload from the store.
pub mod Frame
pub mod Effect
pub mod Install
pub mod Replace
pub mod Invariant
pub mod Preserved
pub mod Files
use xgraph.Prelude.{
  ℕ, Bool, true, false, not, ◌&&◌, ◌||◌, Option, none, some, List, [], ◌∷◌, ◌++◌, Key, ◌==◌,
  if◌then◌else◌, map, is_empty,
}
use xgraph.Text.{Text, text, text_key}
use xgraph.Map.{Map, get, insert, remove}
use xgraph.Map.Lists.{get_list}
use xgraph.Cozo.Facts.{FileUpdate, NodeFact, EdgeFact, ContentHash}
use xgraph.Cozo.NodeIds.{active_node_id}
use xgraph.Indexes.State.{HotIndexes, NodeId, NodeRecord, FilePath, clear, new}
use xgraph.Indexes.Edges.{add_call_edge, remove_edges_for_node}
use xgraph.Indexes.Symbols.{register_node_symbols, remove_symbol_references}

unfoldable pub remove_node_references : HotIndexes → NodeId → HotIndexes
remove_node_references idx id =
    remove_symbol_references (remove_edges_for_node (record idx { nodes = remove idx.nodes id }) id)
      id

unfoldable pub remove_all : HotIndexes → List NodeId → HotIndexes
unfolding remove_node_references
remove_all idx [] = idx
remove_all idx (id ∷ ids) = remove_all (remove_node_references idx id) ids

unfoldable pub is_hot_traversal_edge : Text → Bool
is_hot_traversal_edge kind = kind == text "calls" || kind == text "renders"

unfoldable pub node_record : NodeId → FilePath → NodeFact → NodeRecord
node_record id path node = record {
  id = id;
  path = path;
  kind = node.kind;
  name = node.name;
  qname = node.qname;
}

-- one round of the loop over the new nodes
unfoldable pub install_node : ContentHash → FilePath → NodeFact → HotIndexes → HotIndexes
unfolding node_record
install_node hash path node idx =
    let id = active_node_id hash node.local_node_id in
    register_node_symbols (record idx { nodes = insert idx.nodes id (node_record id path node) })
      node.name node.qname node.kind id

unfoldable pub install_nodes : ContentHash → FilePath → List NodeFact → HotIndexes → HotIndexes
unfolding install_node
install_nodes hash path [] idx = idx
install_nodes hash path (node ∷ nodes) idx =
    install_nodes hash path nodes (install_node hash path node idx)

-- `new_ids`, in the order of the loop
unfoldable pub ids_of : ContentHash → List NodeFact → List NodeId
ids_of hash nodes = map (λ (n : NodeFact). active_node_id hash n.local_node_id) nodes

unfoldable pub wire_edges : List EdgeFact → HotIndexes → HotIndexes
unfolding is_hot_traversal_edge
wire_edges [] idx = idx
wire_edges (edge ∷ edges) idx = wire_edges edges (
    if is_hot_traversal_edge edge.kind
    then add_call_edge idx edge.source_node_id edge.target_node_id
    else idx)

unfoldable pub set_file : HotIndexes → FilePath → List NodeId → HotIndexes
set_file idx path ids =
    if is_empty ids then idx else record idx { files = insert idx.files path ids }

unfoldable pub remove_path : HotIndexes → FilePath → HotIndexes
unfolding remove_all
remove_path idx path =
    remove_all (record idx { files = remove idx.files path }) (get_list idx.files path)

unfoldable pub apply_file_update : HotIndexes → FileUpdate → HotIndexes
unfolding remove_path install_nodes set_file wire_edges ids_of
apply_file_update idx update =
    let cleared = remove_path idx update.path in
    let installed = install_nodes update.content_hash update.path update.nodes cleared in
    wire_edges update.edges
      (set_file installed update.path (ids_of update.content_hash update.nodes))
