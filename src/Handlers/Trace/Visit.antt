-- ===== src/Handlers/Trace/Visit.antt =====
-- The inner loop: what visiting the callees of one node does to the parents and the queue.
use xgraph.Prelude.{
  ℕ, suc, ◌+◌, ◌≤◌, ◌≡◌, refl, Bool, true, false, Option, none, some, List, [], ◌∷◌, ◌++◌, ◌==◌,
  ==_iff, if◌then◌else◌, arith, contains, length, inl, inr, ◌⊎◌, Bool-cases, ◌≢◌,
}
use xgraph.Text.{text_key}
use xgraph.Map.{get, insert, contains_key, get-insert, All}
use xgraph.Indexes.State.{HotIndexes, NodeId}
use xgraph.Handlers.Trace.{Parents, Queue, Scan, hit, more}
use xgraph.Handlers.Trace.Walks.{Calls, Walk, Chain, Chain-insert}

-- the entries of a queue stand at one depth, and behind them at the next
abbrev pub Levels : ℕ → Queue → Type 0
Levels d [] = Unit
Levels d ((n, e) ∷ queue) =
    ((e ≡ d) × Levels d queue) ⊎ ((e ≡ suc d) × All (λ x. x.1 ≡ suc d) queue)

abbrev pub waits : Queue → NodeId → Bool
waits [] u = false
waits ((n, e) ∷ queue) u = if n == u then true else waits queue u

-- how many items of a list have no parent entry
pub unseen : Parents → List NodeId → ℕ
unseen P [] = 0
unseen P (n ∷ rest) = if contains_key P n then unseen P rest else suc (unseen P rest)

All-snoc :
    (f : NodeId × ℕ → Type 0) (queue : Queue) (x : NodeId × ℕ)
    → All f queue
    → f x
    → All f (queue ++ x ∷ [])
All-snoc f [] x a h = (h, tt)
All-snoc f (y ∷ queue) x a h = (a.0, All-snoc f queue x a.1 h)

Levels-snoc :
    (d : ℕ) (queue : Queue) (n : NodeId) → Levels d queue → Levels d (queue ++ (n, suc d) ∷ [])
Levels-snoc d [] n l = inr (refl, tt)
Levels-snoc d ((m, e) ∷ queue) n (inl (h, l)) = inl (h, Levels-snoc d queue n l)
Levels-snoc d ((m, e) ∷ queue) n (inr (h, a)) =
    inr (h, All-snoc (λ x. x.1 ≡ suc d) queue (n, suc d) a refl)

waits-snoc :
    (queue : Queue) (n : NodeId) (e : ℕ) (u : NodeId)
    → waits (queue ++ (n, e) ∷ []) u ≡ (if waits queue u then true else n == u)
waits-snoc [] n e u = ground arith
waits-snoc ((m, f) ∷ queue) n e u = ground (arith, waits-snoc queue n e u)

pub unseen_mono :
    (P : Parents) (c : NodeId) (x : Option NodeId) (l : List NodeId)
    → unseen (insert P c x) l ≤ unseen P l
unfolding unseen
unseen_mono P c x [] = omega arith
unseen_mono P c x (n ∷ l) = ground (arith, get-insert P c x n, unseen_mono P c x l)

pub unseen-insert :
    (P : Parents) (c : NodeId) (x : Option NodeId) (l : List NodeId)
    → get P c ≡ none
    → contains l c ≡ true
    → suc (unseen (insert P c x) l) ≤ unseen P l
unfolding unseen contains
unseen-insert P c x [] fresh m = absurd (cc m)
unseen-insert P c x (n ∷ l) fresh m =
    ground (
      arith,
      get-insert P c x n,
      unseen-insert P c x l,
      unseen_mono P c x l,
      ==_iff n c,
      ==_iff c n,
    )

pub unseen-le-length : (P : Parents) (l : List NodeId) → unseen P l ≤ length l
unfolding unseen
unseen-le-length P [] = omega arith
unseen-le-length P (n ∷ l) = ground (arith, unseen-le-length P l)

module _ (idx : HotIndexes) (start to : NodeId) where
  abbrev pub Seen : Parents → NodeId → Type 0
  Seen P n = contains_key P n ≡ true

  -- a queue entry: its node is reached in its depth, and by no shorter walk
  abbrev pub Entry : Parents → NodeId × ℕ → Type 0
  Entry P x = Chain idx start P x.0 x.1 × ((k : ℕ) → Walk idx start x.0 k → x.1 ≤ k)

  -- Between two rounds of either loop at depth `d`. `spare` is the node that is being expanded: its
  -- callees need not have been seen yet.
  pub record Inv (spare : Option NodeId) (d : ℕ) (P : Parents) (queue : Queue) : Type 0 where
    pub root : Seen P start
    pub target : get P to ≡ none
    pub entries : All (Entry P) queue
    pub levels : Levels d queue
    pub covered : (v : NodeId) (k : ℕ) → Walk idx start v k → k ≤ d → Seen P v
    pub closed :
        (u : NodeId)
        → Seen P u
        → (spare ≡ some u) ⊎ (waits queue u ≡ true) ⊎ ((v : NodeId) → Calls idx u v → Seen P v)

  pub Seen-insert :
      (P : Parents) (c : NodeId) (x : Option NodeId) (n : NodeId) → Seen P n → Seen (insert P c x) n
  Seen-insert P c x n s = ground (arith, s, get-insert P c x n)

  Entry-insert :
      (P : Parents) (c : NodeId) (x : Option NodeId) (queue : Queue)
      → get P c ≡ none
      → All (Entry P) queue
      → All (Entry (insert P c x)) queue
  Entry-insert P c x [] fresh a = tt
  Entry-insert P c x ((n, e) ∷ queue) fresh a =
      ((Chain-insert idx start P c x n e fresh a.0.0, a.0.1), Entry-insert P c x queue fresh a.1)

  module _ (node : NodeId) (d : ℕ) where
    -- one callee that was not seen before and is not the target
    pub Inv-insert :
        (P : Parents) (queue : Queue) (c : NodeId)
        → Inv (some node) d P queue
        → Chain idx start P node d
        → Calls idx node c
        → get P c ≡ none
        → c ≢ to
        → Inv (some node) d (insert P c (some node)) (queue ++ (c, suc d) ∷ [])
    Inv-insert P queue c h chain edge fresh ne = record {
      root = Seen-insert P c (some node) start h.root;
      target = ground (arith, h.target, get-insert P c (some node) to, ==_iff c to, ne);
      entries =
          All-snoc (Entry (insert P c (some node))) queue (c, suc d)
            (Entry-insert P c (some node) queue fresh h.entries)
            (
              (
                node,
                ground (arith, get-insert P c (some node) c, ==_iff c c),
                edge,
                Chain-insert idx start P c (some node) node d fresh chain,
              ),
              λ k w. ground (arith, fresh, h.covered c k w),
            );
      levels = Levels-snoc d queue c h.levels;
      covered = λ v k w le. Seen-insert P c (some node) v (h.covered v k w le);
      closed = λ u s. elim (Bool-cases (c == u)) [
        | inl new ↦ inr (inl (ground (arith, new, waits-snoc queue c (suc d) u)))
        | inr old ↦ elim (h.closed u (ground (arith, s, old, get-insert P c (some node) u))) [
          | inl spare ↦ inl spare
          | inr (inl waiting) ↦ inr (inl (ground (arith, waiting, waits-snoc queue c (suc d) u)))
          | inr (inr done) ↦ inr (inr (λ v e. Seen-insert P c (some node) v (done v e)))
        ]
      ];
    }

    -- what the inner loop leaves
    abbrev pub Visited : List NodeId → Parents → Queue → List NodeId → Scan → Type 0
    Visited universe P queue callees (hit P') = Chain idx start P' to (suc d)
    Visited universe P queue callees (more P' queue') =
        Inv (some node) d P' queue'
        × ((v : NodeId) → contains callees v ≡ true → Seen P' v)
        × (unseen P' universe + length queue' ≤ unseen P universe + length queue)
        × ((v : NodeId) → Seen P v → Seen P' v)
