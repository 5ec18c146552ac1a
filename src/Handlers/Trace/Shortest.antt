-- ===== src/Handlers/Trace/Shortest.antt =====
-- `build_trace` answers with a shortest path of calls, and only if there is one within its depth.
use xgraph.Prelude.{
  ℕ, suc, ◌≤◌, ◌<◌, ◌≡◌, refl, true, false, Option, none, some, List, [], ◌∷◌, ◌++◌, ◌==◌, ==_iff,
  arith, contains, contains-append, length, length-append, inl, inr, Bool-cases, Option-cases,
  if◌then◌else◌,
}
use xgraph.Text.{text_key}
use xgraph.Map
use xgraph.Map.{get, insert, iter, find, find-iter, contains_key, get-insert, get-empty, All-map}
use xgraph.Indexes.State.{HotIndexes, NodeId, call_edge_count, total}
use xgraph.Indexes.Edges.{callees_of}
use xgraph.Handlers.Trace.{
  Parents, Outcome, found, unreachable, climb, reconstruct, trace, TraceParams, Traced, path,
  no_path, depth_limit,
}
use xgraph.Handlers.Trace.Walks.{Calls, Walk, here, step, climb_lem, Linked, last_of}
use xgraph.Handlers.Trace.Visit.{unseen-le-length, Seen, Inv}
use xgraph.Handlers.Trace.Loop.{Shortest}
use xgraph.Handlers.Trace.Rounds.{loop_lem}

-- the targets of all entries of `callees`
all_targets : List (NodeId × List NodeId) → List NodeId
all_targets [] = []
all_targets ((_, targets) ∷ rest) = targets ++ all_targets rest

length-all_targets : (l : List (NodeId × List NodeId)) → length (all_targets l) ≡ total l
unfolding all_targets total
length-all_targets [] = refl
length-all_targets ((n, targets) ∷ rest) =
    omega (arith, length-append targets (all_targets rest), length-all_targets rest)

contains-all_targets :
    (l : List (NodeId × List NodeId)) (u v : NodeId) (targets : List NodeId)
    → find u l ≡ some targets
    → contains targets v ≡ true
    → contains (all_targets l) v ≡ true
unfolding all_targets find contains
contains-all_targets [] u v targets f m = ground arith
contains-all_targets ((n, ts) ∷ rest) u v targets f m =
    ground (arith, contains-append ts (all_targets rest) v, contains-all_targets rest u v targets)

all_callees :
    (idx : HotIndexes) (u v : NodeId)
    → Calls idx u v
    → contains (all_targets (iter idx.callees)) v ≡ true
unfolding callees_of
all_callees idx u v h = elim (Option-cases (get idx.callees u)) [
  | inl none' ↦ absurd (unfold contains in ground (arith, h, none'))
  | inr (targets, e) ↦
      contains-all_targets (iter idx.callees) u v targets (rw find-iter e) (ground (arith, h, e))
]

-- A shortest path within the limit, or no walk within it.
abbrev pub Answers : HotIndexes → NodeId → NodeId → ℕ → Traced → Type 0
Answers idx from to limit (path ids n) =
    (rest : List NodeId) × (ids ≡ from ∷ rest)
    × Linked idx from rest
    × (last_of from rest ≡ to)
    × (length rest ≡ n)
    × (n ≤ limit)
    × ((k : ℕ) → Walk idx from to k → n ≤ k)
Answers idx from to limit no_path = (k : ℕ) → Walk idx from to k → limit < k
Answers idx from to limit Traced.out_of_fuel = ⊥

module _ (idx : HotIndexes) (from to : NodeId) (limit : ℕ) where
  abbrev first : Parents
  first = insert Map.empty from none

  first-get : (n : NodeId) → get first n ≡ (if from == n then some none else none)
  first-get n = ground (
    arith,
    get-insert (Map.empty {V = Option NodeId}) from none n,
    get-empty {V = Option NodeId} n,
  )

  first-Inv : (from == to) ≡ false → Inv idx from to none 0 first ((from, 0) ∷ [])
  first-Inv apart = record {
    root = ground (arith, first-get from, ==_iff from from);
    target = ground (arith, first-get to, apart);
    entries = (((ground (arith, first-get from, ==_iff from from), refl), λ k w. omega arith), tt);
    levels = inl (refl, tt);
    covered = near;
    closed = λ u s. inr (inl (ground (arith, s, first-get u)));
  }
    where
      near : (v : NodeId) (k : ℕ) → Walk idx from v k → k ≤ 0 → Seen idx from to first v
      near v k here le = ground (arith, first-get from, ==_iff from from)
      near v k (step w e) le = absurd (omega arith)

  universe : List NodeId
  universe = all_targets (iter idx.callees)

  reconstruct-found :
      (P : Parents) (n : ℕ) (chain : List NodeId)
      → climb (suc n) P (some to) [] ≡ some chain
      → reconstruct to (found P n) ≡ path chain n
  unfolding reconstruct
  reconstruct-found P n chain climbed = rw (climbed, reconstruct)

  reconstruct_lem :
      (o : Outcome)
      → Shortest idx from to limit universe (unfold universe in all_callees idx) o
      → Answers idx from to limit (reconstruct to o)
  unfolding reconstruct
  reconstruct_lem unreachable h = h
  reconstruct_lem Outcome.out_of_fuel h = h
  reconstruct_lem (found P n) (chain, within, least) =
      let (rest, climbed, linked, ends, size) =
        climb_lem idx from P to n (suc n) [] chain (omega arith) tt in
      rw (reconstruct-found P n (from ∷ rest) climbed)
        (rest, refl, linked, ends, omega (arith, size), within, least)

-- A trace is a shortest path of calls from one node to the other if some walk within the depth limit
-- leads there, and `null` if none does; it always ends, with the fuel of one round for each call edge.
pub trace_shortest :
    (idx : HotIndexes) (params : TraceParams)
    → Answers idx params.from params.to (depth_limit params.max_depth) (trace idx params)
unfolding trace call_edge_count universe
trace_shortest idx params = elim (Bool-cases (params.from == params.to)) [
  | inl same ↦
      rw same
        ([], refl, tt, (==_iff params.from params.to).0 same, refl, omega arith, λ k w. omega arith)
  | inr apart ↦
      let limit = depth_limit params.max_depth in
      rw apart (
        reconstruct_lem idx params.from params.to limit _ (
          loop_lem idx params.from params.to limit (all_targets (iter idx.callees))
            (all_callees idx) (suc (total (iter idx.callees))) (insert Map.empty params.from none)
            ((params.from, 0) ∷ []) 0 (first-Inv idx params.from params.to limit apart)
            (omega (
              arith,
              length-all_targets (iter idx.callees),
              unseen-le-length (insert Map.empty params.from none) (all_targets (iter idx.callees)),
            ))))
]
