-- ===== src/Handlers/Explore.antt =====
-- handlers.rs `build_explore`. What the lookups of spans and snippets read is a parameter (`Reads` in
-- Snippets), and so is what the daemon's status says.
pub mod Budget
use xgraph.Prelude.{
  ℕ, zero, suc, ◌+◌, ◌-◌, ◌*◌, min, Bool, true, false, not, ◌||◌, Option, none, some, List, [], ◌∷◌,
  ◌++◌, map, if◌then◌else◌, length, take, leb, ◌==◌, nat_key,
}
use xgraph.Text.{Text}
use xgraph.Indexes.State.{HotIndexes, NodeId, NodeRecord, FilePath, get_node}
use xgraph.Indexes.Edges.{callees_of, callers_of}
use xgraph.Handlers.Snippets.{Lookup, Reads, source_bytes, lookup_span_and_snippet}
use xgraph.Handlers.Related.{Summary, summarize_node, unwrap_or}

pub record ExploreParams : Type 0 where
  pub node_ids : List NodeId
  pub byte_budget : Option ℕ
  pub per_snippet_bytes : Option ℕ
  pub related_limit : Option ℕ

pub data Item : Type 0 where
  unknown : NodeId → Item
  known : NodeId → NodeRecord → Lookup → (caller_nodes callee_nodes : List Summary) → Item

pub record Explored : Type 0 where
  pub items : List Item
  pub bytes_used : ℕ
  pub bytes_budget : ℕ
  pub catching_up : Bool

module _ (reads : Reads) (reconcile_done : Bool) (is_path_pending : FilePath → Bool) where
  -- the loop, with the bytes that remain, the items so far and `catching_up`
  unfoldable pub explore_items :
      HotIndexes → ℕ → ℕ → List NodeId → ℕ → List Item → Bool → List Item × ℕ × Bool
  unfolding get_node callers_of callees_of summarize_node lookup_span_and_snippet
  explore_items idx per_snippet related_limit [] remaining items catching_up =
      (items, remaining, catching_up)
  explore_items idx per_snippet related_limit (id ∷ rest) remaining items catching_up =
      elim (get_node idx id) [
        | none ↦
            explore_items idx per_snippet related_limit rest remaining (items ++ unknown id ∷ [])
              catching_up
        | some record_ ↦
            let late = is_path_pending record_.path || catching_up in
            let found = lookup_span_and_snippet reads id record_.path (min per_snippet remaining) in
            let left = remaining - source_bytes found.source in
            let caller_nodes = map (summarize_node idx) (take related_limit (callers_of idx id)) in
            let callee_nodes = map (summarize_node idx) (take related_limit (callees_of idx id)) in
            let items' = items ++ known id record_ found caller_nodes callee_nodes ∷ [] in
            let later = explore_items idx per_snippet related_limit rest left items' late in
            if left == 0 then (items', left, late) else later
      ]

  unfoldable pub build_explore : HotIndexes → ExploreParams → Explored
  unfolding explore_items
  build_explore idx params =
      let total_budget = min (unwrap_or params.byte_budget (32 * 1024)) (128 * 1024) in
      let per_snippet = min (unwrap_or params.per_snippet_bytes 4096) (16 * 1024) in
      let related_limit = min (unwrap_or params.related_limit 0) 50 in
      let (items, remaining, catching_up) =
        explore_items idx per_snippet related_limit params.node_ids total_budget []
          (not reconcile_done) in
      record {
        items = items;
        bytes_used = total_budget - remaining;
        bytes_budget = total_budget;
        catching_up = catching_up;
      }
