-- ===== src/Handlers/Trace/Loop.antt =====
-- The outer loop: level by level, until the target is met, the depth is used up or the queue is
-- empty.
use xgraph.Prelude.{
  ℕ, zero, suc, ◌≤◌, ◌<◌, ◌≡◌, refl, true, Option, none, some, List, [], ◌∷◌, ◌==◌, ==_iff, arith,
  contains, length, inl, inr, leb, Bool-cases, subst, sym,
}
use xgraph.Text.{text_key}
use xgraph.Map.{get, All, All-map}
use xgraph.Indexes.State.{HotIndexes, NodeId}
use xgraph.Indexes.Edges.{callees_of}
use xgraph.Handlers.Trace.{Parents, Queue, Outcome, found, unreachable, forward}
use xgraph.Handlers.Trace.Walks.{Calls, Walk, here, step, Chain}
use xgraph.Handlers.Trace.Visit.{Seen, Inv, Levels, waits, Entry}

module _ (idx : HotIndexes) (start to : NodeId) (limit : ℕ) (universe : List NodeId)
    (all_callees : (u v : NodeId) → Calls idx u v → contains universe v ≡ true) where
  abbrev pub I : Option NodeId → ℕ → Parents → Queue → Type 0
  I = Inv idx start to

  abbrev pub run : ℕ → Parents → Queue → Outcome
  run = forward idx to limit

  -- what the loop answers
  abbrev pub Shortest : Outcome → Type 0
  Shortest (found P n) =
      Chain idx start P to n × (n ≤ limit) × ((k : ℕ) → Walk idx start to k → n ≤ k)
  Shortest unreachable = (k : ℕ) → Walk idx start to k → limit < k
  Shortest Outcome.out_of_fuel = ⊥

  -- with nothing waiting, everything that is called has been seen
  pub Seen-Walk :
      (d : ℕ) (P : Parents)
      → I none d P []
      → {v : NodeId} {k : ℕ} → Walk idx start v k
      → Seen idx start to P v
  Seen-Walk d P h here = h.root
  Seen-Walk d P h (step {u} {v} w e) = elim (h.closed u (Seen-Walk d P h w)) [
    | inl spare ↦ absurd (cc spare)
    | inr (inl waiting) ↦ absurd (cc waiting)
    | inr (inr done) ↦ done v e
  ]

  pub not-Seen : (P : Parents) → get P to ≡ none → Seen idx start to P to → ⊥
  not-Seen P t s = ground (arith, t, s)

  pub deep : (d : ℕ) (queue : Queue) → Levels d queue → All (λ x. d ≤ x.1) queue
  deep d [] l = tt
  deep d ((n, e) ∷ queue) (inl (h, l)) = (omega arith, deep d queue l)
  deep d ((n, e) ∷ queue) (inr (h, a)) =
      (omega arith, All-map (λ x. x.1 ≡ suc d) (λ x. d ≤ x.1) queue (λ x e. omega arith) a)

  -- past the depth limit the loop only empties the queue
  pub drain :
      (fuel : ℕ) (P : Parents) (queue : Queue)
      → All (λ x. limit ≤ x.1) queue
      → length queue ≤ fuel
      → run fuel P queue ≡ unreachable
  unfolding forward
  drain zero P [] a h = refl
  drain zero P (x ∷ queue) a h = absurd (omega arith)
  drain (suc fuel) P [] a h = refl
  drain (suc fuel) P ((n, e) ∷ queue) a h =
      let past : leb limit e ≡ true = ground (arith, a.0) in
      rw (past, forward) (drain fuel P queue a.1 (omega arith))

  waiting_at :
      (d : ℕ) (P : Parents) (u : NodeId) (queue : Queue)
      → All (λ x. x.1 ≡ suc d) queue
      → All (Entry idx start to P) queue
      → waits queue u ≡ true
      → (k : ℕ) → Walk idx start u k
      → suc d ≤ k
  waiting_at d P u [] a es w k walk = absurd (cc w)
  waiting_at d P u ((n, e) ∷ queue) a es w k walk = elim (Bool-cases (n == u)) [
    | inl same ↦
        let at : n ≡ u = (==_iff n u).0 same in
        omega (arith, es.0.1 k (subst (λ m. Walk idx start m k) (sym at) walk), a.0)
    | inr other ↦ waiting_at d P u queue a.1 es.1 (ground (arith, w, other)) k walk
  ]

  pub same_level : (d : ℕ) (queue : Queue) → All (λ x. x.1 ≡ d) queue → Levels d queue
  same_level d [] a = tt
  same_level d ((n, e) ∷ queue) a = inl (a.0, same_level d queue a.1)

  -- once the head of the queue stands one level deeper, so does everything
  pub level_up :
      (d : ℕ) (P : Parents) (queue : Queue)
      → All (λ x. x.1 ≡ suc d) queue
      → I none d P queue
      → I none (suc d) P queue
  level_up d P queue a h = record {
    root = h.root;
    target = h.target;
    entries = h.entries;
    levels = same_level (suc d) queue a;
    covered = cover;
    closed = h.closed;
  }
    where
      cover : (v : NodeId) (k : ℕ) → Walk idx start v k → k ≤ suc d → Seen idx start to P v
      cover v k here le = h.root
      cover v k (step {u} {v = w} {k = j} walk e) le =
          elim (h.closed u (h.covered u j walk (omega arith))) [
            | inl spare ↦ absurd (cc spare)
            | inr (inl waiting) ↦
                absurd (omega (arith, waiting_at d P u queue a h.entries waiting j walk))
            | inr (inr done) ↦ done w e
          ]

  -- the head of the queue leaves it, to be expanded
  pub pop :
      (d : ℕ) (P : Parents) (n : NodeId) (queue : Queue)
      → Levels d queue
      → I none d P ((n, d) ∷ queue)
      → I (some n) d P queue
  pop d P n queue l h = record {
    root = h.root;
    target = h.target;
    entries = h.entries.1;
    levels = l;
    covered = h.covered;
    closed = λ u s. elim (h.closed u s) [
      | inl spare ↦ absurd (cc spare)
      | inr (inl waiting) ↦ elim (Bool-cases (n == u)) [
        | inl same ↦ inl (ground (arith, same, ==_iff n u))
        | inr other ↦ inr (inl (ground (arith, waiting, other)))
      ]
      | inr (inr done) ↦ inr (inr done)
    ];
  }

  -- and its callees have been seen when it is done
  pub expanded :
      (d : ℕ) (P : Parents) (n : NodeId) (queue : Queue)
      → ((v : NodeId) → contains (callees_of idx n) v ≡ true → Seen idx start to P v)
      → I (some n) d P queue
      → I none d P queue
  expanded d P n queue all h = record {
    root = h.root;
    target = h.target;
    entries = h.entries;
    levels = h.levels;
    covered = h.covered;
    closed = λ u s. elim (h.closed u s) [
      | inl spare ↦ inr (inr (λ v e. all v (ground (arith, spare, e))))
      | inr rest ↦ inr rest
    ];
  }
