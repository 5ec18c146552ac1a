-- ===== src/Indexes/Edges.antt =====
-- indexes.rs: the call edges, kept in both directions.
pub mod Symmetric
use xgraph.Prelude.{
  Bool, true, false, not, Option, none, some, List, [], ◌∷◌, Key, ◌==◌, contains, retain,
  if◌then◌else◌,
}
use xgraph.Text.{text_key}
use xgraph.Map.{Map, get, remove, adjust}
use xgraph.Map.Lists.{get_list, drop_empty, push_at, prune}
use xgraph.Indexes.State.{NodeId, HotIndexes}

unfoldable pub add_call_edge : HotIndexes → NodeId → NodeId → HotIndexes
add_call_edge idx caller callee = record idx {
  callees = push_at idx.callees caller callee;
  callers = push_at idx.callers callee caller;
}

unfoldable pub remove_call_edge : HotIndexes → NodeId → NodeId → HotIndexes
remove_call_edge idx caller callee = record idx {
  callees = prune idx.callees caller callee;
  callers = prune idx.callers callee caller;
}

unfoldable pub callers_of : HotIndexes → NodeId → List NodeId
callers_of idx callee = get_list idx.callers callee

unfoldable pub callees_of : HotIndexes → NodeId → List NodeId
callees_of idx caller = get_list idx.callees caller

-- the loop of `remove_edges_for_node`: `id` leaves the list of each of `others`
unfoldable pub drop_from :
    NodeId → List NodeId → Map NodeId (List NodeId) → Map NodeId (List NodeId)
drop_from id [] m = m
drop_from id (other ∷ others) m = drop_from id others (adjust m other (retain (λ n. not (n == id))))

-- one direction of `remove_edges_for_node`, from the list that was removed
unfoldable pub drop_listed :
    NodeId → Option (List NodeId) → Map NodeId (List NodeId) → Map NodeId (List NodeId)
unfolding drop_from
drop_listed id none m = m
drop_listed id (some others) m = drop_empty (drop_from id others m)

unfoldable pub remove_edges_for_node : HotIndexes → NodeId → HotIndexes
unfolding drop_listed
remove_edges_for_node idx id =
    let outgoing = get idx.callees id in
    let callees = remove idx.callees id in
    let callers = drop_listed id outgoing idx.callers in
    let incoming = get callers id in
    record idx { callees = drop_listed id incoming callees; callers = remove callers id }
