-- ===== src/Handlers/Trace/Callees.antt =====
-- The whole inner loop.
use native.Mathlib.Numerals.{add-one}
use xgraph.Prelude.{
  ℕ, suc, ◌≡◌, true, false, none, some, List, [], ◌∷◌, ◌++◌, ◌==◌, ==_iff, arith, contains,
  length-append, Option-cases, inl, inr, Bool-cases, subst, sym,
}
use xgraph.Text.{text_key}
use xgraph.Map.{get, insert, contains_key, get-insert}
use xgraph.Indexes.State.{HotIndexes, NodeId}
use xgraph.Handlers.Trace.{Parents, Queue, Scan, hit, more, visit}
use xgraph.Handlers.Trace.Walks.{Calls, Chain, Chain-insert}
use xgraph.Handlers.Trace.Visit.{unseen-insert, Seen, Inv, Inv-insert, Visited, Seen-insert}

module _ (to node : NodeId) (d : ℕ) (c : NodeId) (rest : List NodeId) (P : Parents)
    (queue : Queue) where
  visit_seen :
      contains_key P c ≡ true → visit to node d (c ∷ rest) P queue ≡ visit to node d rest P queue
  unfolding visit
  visit_seen h = rw (h, visit)

  visit_hit :
      get P c ≡ none
      → (c == to) ≡ true
      → visit to node d (c ∷ rest) P queue ≡ hit (insert P c (some node))
  unfolding visit
  visit_hit h e = rw (h, visit) (rw e)

  visit_new :
      get P c ≡ none
      → (c == to) ≡ false
      → visit to node d (c ∷ rest) P queue
        ≡ visit to node d rest (insert P c (some node)) (queue ++ (c, suc d) ∷ [])
  unfolding visit
  visit_new h e = rw (h, visit) (rw e (rw add-one))

module _ (idx : HotIndexes) (start to node : NodeId) (d : ℕ) (universe : List NodeId) where
  abbrev After : Parents → Queue → List NodeId → Scan → Type 0
  After P queue callees s = Visited idx start to node d universe P queue callees s

  After-Seen :
      (P : Parents) (queue : Queue) (c : NodeId) (rest : List NodeId) (s : Scan)
      → Seen idx start to P c
      → After P queue rest s
      → After P queue (c ∷ rest) s
  unfolding contains
  After-Seen P queue c rest (hit P') seen h = h
  After-Seen P queue c rest (more P' queue') seen (inv, all, work, kept) =
      (inv, λ v m. ground (arith, m, ==_iff c v, all v, kept v, seen), work, kept)

  After-new :
      (P : Parents) (queue : Queue) (c : NodeId) (rest : List NodeId) (s : Scan)
      → get P c ≡ none
      → contains universe c ≡ true
      → After (insert P c (some node)) (queue ++ (c, suc d) ∷ []) rest s
      → After P queue (c ∷ rest) s
  unfolding contains
  After-new P queue c rest (hit P') fresh m h = h
  After-new P queue c rest (more P' queue') fresh m (inv, all, work, kept) = (
    inv,
    λ v n. ground (arith, n, ==_iff c v, all v, kept v, get-insert P c (some node) v),
    omega (
      arith,
      work,
      length-append queue ((c, suc d) ∷ []),
      unseen-insert P c (some node) universe fresh m,
    ),
    λ v s. kept v (Seen-insert idx start to P c (some node) v s),
  )

  pub visit_lem :
      (callees : List NodeId) (P : Parents) (queue : Queue)
      → Inv idx start to (some node) d P queue
      → Chain idx start P node d
      → ((v : NodeId) → contains callees v ≡ true → Calls idx node v × (contains universe v ≡ true))
      → After P queue callees (visit to node d callees P queue)
  unfolding visit contains
  visit_lem [] P queue inv chain edges = (inv, λ v m. absurd (cc m), omega arith, λ v s. s)
  visit_lem (c ∷ rest) P queue inv chain edges =
      let (edge, m) = edges c (ground (arith, ==_iff c c)) in
      let edges' : ((v : NodeId)
          → contains rest v ≡ true
          → Calls idx node v × (contains universe v ≡ true)) =
        λ v n. edges v (ground (arith, n)) in
      elim (Option-cases (get P c)) [
        | inr (x, old) ↦
            subst (After P queue (c ∷ rest))
              (sym (visit_seen to node d c rest P queue (ground (arith, old))))
              (After-Seen P queue c rest (visit to node d rest P queue) (ground (arith, old))
                (visit_lem rest P queue inv chain edges'))
        | inl fresh ↦ elim (Bool-cases (c == to)) [
          | inl target ↦
              subst (After P queue (c ∷ rest))
                (sym (visit_hit to node d c rest P queue fresh target))
                (
                  node,
                  ground (arith, get-insert P c (some node) to, target),
                  ground (arith, edge, target, ==_iff c to),
                  Chain-insert idx start P c (some node) node d fresh chain,
                )
          | inr other ↦
              let P' = insert P c (some node) in
              let queue' = queue ++ (c, suc d) ∷ [] in
              subst (After P queue (c ∷ rest))
                (sym (visit_new to node d c rest P queue fresh other))
                (After-new P queue c rest (visit to node d rest P' queue') fresh m (
                  visit_lem rest P' queue'
                    (Inv-insert idx start to node d P queue c inv chain edge fresh
                      (λ e. ground (arith, e, other, ==_iff c to)))
                    (Chain-insert idx start P c (some node) node d fresh chain) edges'))
        ]
      ]
