-- ===== src/Handlers/Trace/Walks.antt =====
-- Walks along call edges, and what the table of parents says of them.
use xgraph.Prelude.{
  ℕ, zero, suc, ◌+◌, ◌<◌, ◌≡◌, true, Option, none, some, List, [], ◌∷◌, ==_iff, arith, contains,
  length, subst, ap, sym,
}
use xgraph.Text.{text_key}
use xgraph.Map.{get, insert, get-insert}
use xgraph.Indexes.State.{HotIndexes, NodeId}
use xgraph.Indexes.Edges.{callees_of}
use xgraph.Handlers.Trace.{Parents, climb}

-- `u` calls `v`
abbrev pub Calls : HotIndexes → NodeId → NodeId → Type 0
Calls idx u v = contains (callees_of idx u) v ≡ true

-- The nodes that lie some number of calls behind a node.
pub data Walk (idx : HotIndexes) (start : NodeId) : NodeId → ℕ → Type 0 where
  here : Walk idx start start zero
  step : {u v : NodeId} {k : ℕ} → Walk idx start u k → Calls idx u v → Walk idx start v (suc k)

-- Each node of a list is called by the one before it.
abbrev pub Linked : HotIndexes → NodeId → List NodeId → Type 0
Linked idx u [] = Unit
Linked idx u (v ∷ rest) = Calls idx u v × Linked idx v rest

abbrev pub last_of : NodeId → List NodeId → NodeId
last_of u [] = u
last_of u (v ∷ rest) = last_of v rest

module _ (idx : HotIndexes) (start : NodeId) where
  -- The parents lead from a node to the start, in the given number of steps.
  abbrev pub Chain : Parents → NodeId → ℕ → Type 0
  Chain P n zero = (get P n ≡ some none) × (n ≡ start)
  Chain P n (suc k) = (p : NodeId) × (get P n ≡ some (some p)) × Calls idx p n × Chain P p k

  pub Chain-insert :
      (P : Parents) (c : NodeId) (x : Option NodeId) (n : NodeId) (k : ℕ)
      → get P c ≡ none
      → Chain P n k
      → Chain (insert P c x) n k
  Chain-insert P c x n zero fresh (g, e) =
      (ground (arith, g, fresh, get-insert P c x n, ==_iff c n), e)
  Chain-insert P c x n (suc k) fresh (p, g, edge, rest) = (
    p,
    ground (arith, g, fresh, get-insert P c x n, ==_iff c n),
    edge,
    Chain-insert P c x p k fresh rest,
  )

  -- Climbing a chain gives a path of calls from the start, of the chain's length.
  pub climb_lem :
      (P : Parents) (n : NodeId) (k fuel : ℕ) (acc : List NodeId)
      → Chain P n k
      → k < fuel
      → Linked idx n acc
      → (rest : List NodeId) × (climb fuel P (some n) acc ≡ some (start ∷ rest))
        × Linked idx start rest
        × (last_of start rest ≡ last_of n acc)
        × (length rest ≡ k + length acc)
  unfolding climb
  climb_lem P n k zero acc c h l = absurd (omega arith)
  climb_lem P n zero (suc fuel) acc (g, e) h l = (
    acc,
    ground (arith, g, e),
    subst (λ m. Linked idx m acc) e l,
    ap (λ m. last_of m acc) (sym e),
    omega arith,
  )
  climb_lem P n (suc k) (suc fuel) acc (p, g, edge, rest) h l =
      let (r, run, linked, ends, size) =
        climb_lem P p k fuel (n ∷ acc) rest (omega arith) (edge, l) in
      (r, ground (arith, g, run), linked, ends, omega (arith, size))
