-- ===== src/Handlers/Trace/Rounds.antt =====
-- One round of the outer loop, and all of them.
use native.Mathlib.Numerals.{add-one}
use xgraph.Prelude.{
  ℕ, zero, suc, ◌+◌, ◌≤◌, ◌<◌, ◌≡◌, refl, true, false, Option, none, List, [], ◌∷◌, arith, contains,
  length, inl, inr, leb, Bool-cases, subst, sym,
}
use xgraph.Text.{text_key}
use xgraph.Map.{All-map}
use xgraph.Indexes.State.{HotIndexes, NodeId}
use xgraph.Indexes.Edges.{callees_of}
use xgraph.Handlers.Trace.{Parents, Queue, Scan, hit, more, visit, Outcome, found, forward}
use xgraph.Handlers.Trace.Walks.{Calls, Walk}
use xgraph.Handlers.Trace.Visit.{unseen, Inv, Levels, Visited}
use xgraph.Handlers.Trace.Callees.{visit_lem}
use xgraph.Handlers.Trace.Loop.{
  Shortest, Seen-Walk, not-Seen, deep, drain, same_level, level_up, pop, expanded,
}

module _ (idx : HotIndexes) (start to : NodeId) (limit : ℕ) (universe : List NodeId)
    (all_callees : (u v : NodeId) → Calls idx u v → contains universe v ≡ true) where
  abbrev Run : ℕ → Parents → Queue → Outcome
  Run = forward idx to limit

  abbrev S : Outcome → Type 0
  S = Shortest idx start to limit universe all_callees

  abbrev J : Option NodeId → ℕ → Parents → Queue → Type 0
  J = Inv idx start to

  -- nothing closer than the covered depth is the target
  beyond :
      (d : ℕ) (P : Parents) (queue : Queue)
      → J none d P queue
      → (k : ℕ) → Walk idx start to k
      → d < k
  beyond d P queue h k w = elim (Bool-cases (leb k d)) [
    | inl near ↦ absurd (
        not-Seen idx start to limit universe all_callees P h.target
          (h.covered to k w (ground (arith, near))))
    | inr far ↦ ground (arith, far)
  ]

  module _ (fuel : ℕ) (P : Parents) (n : NodeId) (e : ℕ) (queue : Queue) where
    run_hit :
        (P' : Parents)
        → leb limit e ≡ false
        → visit to n e (callees_of idx n) P queue ≡ hit P'
        → Run (suc fuel) P ((n, e) ∷ queue) ≡ found P' (suc e)
    unfolding forward
    run_hit P' near v = rw (near, forward) (rw v (rw add-one))

    run_more :
        (P' : Parents) (queue' : Queue)
        → leb limit e ≡ false
        → visit to n e (callees_of idx n) P queue ≡ more P' queue'
        → Run (suc fuel) P ((n, e) ∷ queue) ≡ Run fuel P' queue'
    unfolding forward
    run_more P' queue' near v = rw (near, forward) (rw v)

    -- one round with the node's own depth as the level
    round :
        Levels e queue
        → J none e P ((n, e) ∷ queue)
        → unseen P universe + suc (length queue) ≤ suc fuel
        → ((P' : Parents) (queue' : Queue)
            → J none e P' queue'
            → unseen P' universe + length queue' ≤ fuel
            → S (Run fuel P' queue'))
        → S (Run (suc fuel) P ((n, e) ∷ queue))
    round l h work rec = elim (Bool-cases (leb limit e)) [
      | inl past ↦
          let reached : limit ≤ e = ground (arith, past) in
          let far =
            All-map (λ (x : NodeId × ℕ). e ≤ x.1) (λ x. limit ≤ x.1) queue (λ x g. omega arith)
              (deep idx start to limit universe all_callees e queue l) in
          subst S
            (sym (
              drain idx start to limit universe all_callees (suc fuel) P ((n, e) ∷ queue)
                (reached, far) (omega (arith, work))))
            (λ k w. ground (arith, past, beyond e P ((n, e) ∷ queue) h k w))
      | inr near ↦ go near (visit to n e (callees_of idx n) P queue) refl (
          visit_lem idx start to n e universe (callees_of idx n) P queue
            (pop idx start to limit universe all_callees e P n queue l h) h.entries.0.0
            (λ v m. (m, all_callees n v m)))
    ]
      where
        go :
            leb limit e ≡ false
            → (s : Scan) → visit to n e (callees_of idx n) P queue ≡ s
            → Visited idx start to n e universe P queue (callees_of idx n) s
            → S (Run (suc fuel) P ((n, e) ∷ queue))
        go near (hit P') v chain =
            subst S (sym (run_hit P' near v))
              (chain, ground (arith, near), beyond e P ((n, e) ∷ queue) h)
        go near (more P' queue') v (inv, all, shrinks, kept) =
            subst S (sym (run_more P' queue' near v)) (
              rec P' queue' (expanded idx start to limit universe all_callees e P' n queue' all inv)
                (omega (arith, work, shrinks)))

  pub loop_lem :
      (fuel : ℕ) (P : Parents) (queue : Queue) (d : ℕ)
      → J none d P queue
      → unseen P universe + length queue ≤ fuel
      → S (Run fuel P queue)
  unfolding forward
  loop_lem zero P [] d h work = λ k w. absurd (
      not-Seen idx start to limit universe all_callees P h.target
        (Seen-Walk idx start to limit universe all_callees d P h w))
  loop_lem zero P (x ∷ queue) d h work = absurd (omega arith)
  loop_lem (suc fuel) P [] d h work = λ k w. absurd (
      not-Seen idx start to limit universe all_callees P h.target
        (Seen-Walk idx start to limit universe all_callees d P h w))
  loop_lem (suc fuel) P ((n, e) ∷ queue) d h work = elim h.levels [
    | inl (same, l) ↦
        round fuel P n e queue (subst (λ x. Levels x queue) (sym same) l)
          (subst (λ x. J none x P ((n, e) ∷ queue)) (sym same) h) (omega (arith, work))
          (λ P' queue' i w. loop_lem fuel P' queue' e i w)
    | inr (next, a) ↦
        let up =
          level_up idx start to limit universe all_callees d P ((n, e) ∷ queue) (next, a) h in
        round fuel P n e queue
          (subst (λ x. Levels x queue) (sym next)
            (same_level idx start to limit universe all_callees (suc d) queue a))
          (subst (λ x. J none x P ((n, e) ∷ queue)) (sym next) up) (omega (arith, work))
          (λ P' queue' i w. loop_lem fuel P' queue' e i w)
  ]
