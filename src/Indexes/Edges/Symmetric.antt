-- ===== src/Indexes/Edges/Symmetric.antt =====
-- `callers` and `callees` are each other's converse, whatever is added and removed.
use xgraph.Prelude.{
  ◌≡◌, refl, true, false, not, Option, none, some, List, [], ◌∷◌, arith, ◌==◌, ==_iff, ==_comm,
  contains, contains-retain, retain, if◌then◌else◌, Option-cases, inl, inr,
}
use xgraph.Text.{text_key}
use xgraph.Map.{Map, get, remove, adjust, get-insert, get-remove}
use xgraph.Map.Lists.{
  get_list, push_at_lem, prune_lem, push_at-NoEmpty, prune-NoEmpty, NoEmpty, get_list-drop_empty,
  drop_empty-NoEmpty,
}
use xgraph.Indexes.State.{NodeId, HotIndexes}
use xgraph.Indexes.Edges.{
  add_call_edge, remove_call_edge, callers_of, callees_of, drop_from, drop_listed,
  remove_edges_for_node,
}

pub record EdgesMatch (idx : HotIndexes) : Type 0 where
  pub converse : (a b : NodeId) → contains (callees_of idx a) b ≡ contains (callers_of idx b) a
  pub callees_filled : NoEmpty idx.callees
  pub callers_filled : NoEmpty idx.callers

adjust_lem :
    (m : Map NodeId (List NodeId)) (other id j n : NodeId)
    → contains (get_list (adjust m other (retain (λ n. not (n == id)))) j) n ≡ (
        if other == j
        then (if n == id then false else contains (get_list m j) n)
        else contains (get_list m j) n)
unfolding adjust contains
adjust_lem m other id j n = elim (Option-cases (get m other)) [
  | inl absent ↦ ground (arith, ==_iff other j)
  | inr (l, found) ↦ ground (
    arith,
    get-insert m other (retain (λ n. not (n == id)) l) j,
    contains-retain (λ n. not (n == id)) l n,
    ==_iff other j,
  )
]

drop_from_lem :
    (id : NodeId) (others : List NodeId) (m : Map NodeId (List NodeId)) (j n : NodeId)
    → contains (get_list (drop_from id others m) j) n ≡ (
        if contains others j
        then (if n == id then false else contains (get_list m j) n)
        else contains (get_list m j) n)
unfolding drop_from contains
drop_from_lem id [] m j n = refl
drop_from_lem id (other ∷ others) m j n = ground (
  arith,
  adjust_lem m other id j n,
  drop_from_lem id others (adjust m other (retain (λ n. not (n == id)))) j n,
)

-- What is left of a list after `drop_listed`.
drop_listed_lem :
    (id : NodeId) (o : Option (List NodeId)) (m : Map NodeId (List NodeId)) (j n : NodeId)
    → contains (get_list (drop_listed id o m) j) n ≡ (
        if contains (elim o [ none ↦ [] | some l ↦ l ]) j
        then (if n == id then false else contains (get_list m j) n)
        else contains (get_list m j) n)
unfolding drop_listed contains
drop_listed_lem id none m j n = refl
drop_listed_lem id (some others) m j n =
    rw (get_list-drop_empty (drop_from id others m) j) (drop_from_lem id others m j n)

drop_listed-NoEmpty :
    (id : NodeId) (o : Option (List NodeId)) (m : Map NodeId (List NodeId))
    → NoEmpty m
    → NoEmpty (drop_listed id o m)
unfolding drop_listed
drop_listed-NoEmpty id none m h = h
drop_listed-NoEmpty id (some others) m h = drop_empty-NoEmpty (drop_from id others m)

remove-NoEmpty : (m : Map NodeId (List NodeId)) (k : NodeId) → NoEmpty m → NoEmpty (remove m k)
remove-NoEmpty m k h j l p = ground (arith, get-remove m k j, h j l)

remove_lem :
    (m : Map NodeId (List NodeId)) (k j n : NodeId)
    → contains (get_list (remove m k) j) n ≡ (if k == j then false else contains (get_list m j) n)
unfolding contains
remove_lem m k j n = ground (arith, get-remove m k j)

pub add_call_edge_lem :
    (idx : HotIndexes) (caller callee a b : NodeId)
    → contains (callees_of (add_call_edge idx caller callee) a) b ≡ (
        if caller == a
        then (if callee == b then true else contains (callees_of idx a) b)
        else contains (callees_of idx a) b)
unfolding add_call_edge callees_of
add_call_edge_lem idx caller callee a b = push_at_lem idx.callees caller callee a b

pub add_call_edge-EdgesMatch :
    (idx : HotIndexes) (caller callee : NodeId)
    → EdgesMatch idx
    → EdgesMatch (add_call_edge idx caller callee)
unfolding add_call_edge callees_of callers_of
add_call_edge-EdgesMatch idx caller callee h = record {
  converse = λ a b. ground (
    arith,
    push_at_lem idx.callees caller callee a b,
    push_at_lem idx.callers callee caller b a,
    h.converse a b,
  );
  callees_filled = push_at-NoEmpty idx.callees caller callee h.callees_filled;
  callers_filled = push_at-NoEmpty idx.callers callee caller h.callers_filled;
}

-- Removing one call edge keeps callers and callees converse and leaves no empty list behind.
pub remove_call_edge-EdgesMatch :
    (idx : HotIndexes) (caller callee : NodeId)
    → EdgesMatch idx
    → EdgesMatch (remove_call_edge idx caller callee)
unfolding remove_call_edge callees_of callers_of
remove_call_edge-EdgesMatch idx caller callee h = record {
  converse = λ a b. ground (
    arith,
    prune_lem idx.callees caller callee a b,
    prune_lem idx.callers callee caller b a,
    h.converse a b,
    ==_comm a caller,
    ==_comm b callee,
  );
  callees_filled = prune-NoEmpty idx.callees caller callee h.callees_filled;
  callers_filled = prune-NoEmpty idx.callers callee caller h.callers_filled;
}

-- Exactly the edges from and to the node are gone, in both directions.
pub remove_edges_for_node_lem :
    (idx : HotIndexes) (id a b : NodeId)
    → EdgesMatch idx
    → (contains (callees_of (remove_edges_for_node idx id) a) b
        ≡ (if a == id then false else if b == id then false else contains (callees_of idx a) b))
      × (contains (callers_of (remove_edges_for_node idx id) b) a
          ≡ (if a == id then false else if b == id then false else contains (callees_of idx a) b))
unfolding remove_edges_for_node callees_of callers_of
remove_edges_for_node_lem idx id a b h =
    let callers = drop_listed id (get idx.callees id) idx.callers in
    let callees = remove idx.callees id in
    let out = drop_listed_lem id (get idx.callees id) idx.callers in
    let inn = drop_listed_lem id (get callers id) callees in
    (
      ground (
        arith,
        inn a b,
        out id a,
        remove_lem idx.callees id a b,
        h.converse a b,
        h.converse a id,
        h.converse id id,
        ==_comm a id,
        ==_comm b id,
        ==_iff a id,
        ==_iff b id,
      ),
      ground (
        arith,
        remove_lem callers id b a,
        out b a,
        h.converse a b,
        h.converse id b,
        ==_comm a id,
        ==_comm b id,
        ==_iff a id,
        ==_iff b id,
      ),
    )

pub remove_edges_for_node-EdgesMatch :
    (idx : HotIndexes) (id : NodeId) → EdgesMatch idx → EdgesMatch (remove_edges_for_node idx id)
remove_edges_for_node-EdgesMatch idx id h = record {
  converse = λ a b. let (l, r) = remove_edges_for_node_lem idx id a b h in ground (arith, l, r);
  callees_filled =
      unfold remove_edges_for_node in
      drop_listed-NoEmpty id _ (remove idx.callees id)
        (remove-NoEmpty idx.callees id h.callees_filled);
  callers_filled =
      unfold remove_edges_for_node in
      remove-NoEmpty _ id (drop_listed-NoEmpty id _ idx.callers h.callers_filled);
}
