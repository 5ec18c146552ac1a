-- ===== src/Handlers/Trace.antt =====
-- handlers.rs `build_trace` and `reconstruct_path`: breadth-first search along call edges.
-- `reconstruct_path` pushes and reverses; here each node goes to the front. The `while` loops take
-- fuel: one round for each call edge and one more, and one step for each round of depth.
pub mod Walks
pub mod Visit
pub mod Callees
pub mod Loop
pub mod Rounds
pub mod Shortest
use mathlib.Core.Option
use xgraph.Prelude.{
  ℕ, zero, suc, ◌+◌, ◌≡◌, refl, Bool, true, false, Option, none, some, List, [], ◌∷◌, ◌++◌, Key,
  ◌==◌, if◌then◌else◌, leb, min, map, contains, length,
}
use xgraph.Text.{Text, text_key}
use xgraph.Map
use xgraph.Map.{Map, get, insert, contains_key}
use xgraph.Indexes.State.{HotIndexes, NodeId, NodeRecord, get_node, call_edge_count}
use xgraph.Indexes.Edges.{callees_of}

pub record TraceParams : Type 0 where
  pub from : NodeId
  pub to : NodeId
  pub max_depth : Option ℕ

abbrev pub Parents : Type 0
Parents = Map NodeId (Option NodeId)

abbrev pub Queue : Type 0
Queue = List (NodeId × ℕ)

-- the loop over callees: it returns from the function, or goes on
pub data Scan : Type 0 where
  hit : Parents → Scan
  more : Parents → Queue → Scan

-- the loop over the queue
pub data Outcome : Type 0 where
  found : Parents → ℕ → Outcome
  unreachable out_of_fuel : Outcome

unfoldable pub visit : NodeId → NodeId → ℕ → List NodeId → Parents → Queue → Scan
visit to node depth [] parent queue = more parent queue
visit to node depth (callee ∷ rest) parent queue = elim (contains_key parent callee) [
  | true ↦ visit to node depth rest parent queue
  | false ↦ elim (callee == to) [
    | true ↦ hit (insert parent callee (some node))
    | false ↦
        visit to node depth rest (insert parent callee (some node))
          (queue ++ (callee, depth + 1) ∷ [])
  ]
]

unfoldable pub forward : HotIndexes → NodeId → ℕ → ℕ → Parents → Queue → Outcome
unfolding visit
forward idx to max_depth zero parent [] = unreachable
forward idx to max_depth zero parent (e ∷ queue) = out_of_fuel
forward idx to max_depth (suc fuel) parent [] = unreachable
forward idx to max_depth (suc fuel) parent ((node, depth) ∷ queue) = elim (leb max_depth depth) [
  | true ↦ forward idx to max_depth fuel parent queue
  | false ↦ elim (visit to node depth (callees_of idx node) parent queue) [
    | hit parent' ↦ found parent' (depth + 1)
    | more parent' queue' ↦ forward idx to max_depth fuel parent' queue'
  ]
]

-- `reconstruct_path`; `none` if the fuel runs out
unfoldable pub climb : ℕ → Parents → Option NodeId → List NodeId → Option (List NodeId)
climb fuel parent none chain = some chain
climb zero parent (some node) chain = none
climb (suc fuel) parent (some node) chain =
    climb fuel parent (elim (get parent node) [ none ↦ none | some p ↦ p ]) (node ∷ chain)

pub data Traced : Type 0 where
  path : List NodeId → ℕ → Traced
  no_path out_of_fuel : Traced

unfoldable pub depth_limit : Option ℕ → ℕ
depth_limit o = min (elim o [ none ↦ 12 | some d ↦ d ]) 64

unfoldable pub reconstruct : NodeId → Outcome → Traced
unfolding climb
reconstruct to (found parent n) = elim (climb (suc n) parent (some to) []) [
  | none ↦ out_of_fuel
  | some chain ↦ path chain n
]
reconstruct to unreachable = no_path
reconstruct to Outcome.out_of_fuel = out_of_fuel

unfoldable pub trace : HotIndexes → TraceParams → Traced
unfolding depth_limit forward reconstruct
trace idx params =
    if params.from == params.to
    then path (params.from ∷ []) 0
    else reconstruct params.to (
        forward idx params.to (depth_limit params.max_depth) (suc (call_edge_count idx))
          (insert Map.empty params.from none) ((params.from, 0) ∷ []))

-- `node_for_trace`: an identifier with what `get_node` knows of it
unfoldable pub node_for_trace : HotIndexes → NodeId → NodeId × Option NodeRecord
node_for_trace idx id = (id, get_node idx id)

pub data TraceReply : Type 0 where
  reply : List (NodeId × Option NodeRecord) → ℕ → TraceReply
  null out_of_fuel : TraceReply

unfoldable pub build_trace : HotIndexes → TraceParams → TraceReply
unfolding trace node_for_trace
build_trace idx params = elim (trace idx params) [
  | path chain n ↦ reply (map (node_for_trace idx) chain) n
  | no_path ↦ null
  | out_of_fuel ↦ out_of_fuel
]
