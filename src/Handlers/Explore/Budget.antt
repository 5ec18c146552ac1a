-- ===== src/Handlers/Explore/Budget.antt =====
-- The byte budget of an answer to `explore`.

use xgraph.Prelude.{
  ℕ, ◌+◌, ◌-◌, ◌*◌, ◌≤◌, ◌<◌, min, Bool, not, ◌||◌, List, [], ◌∷◌, ◌++◌, ◌≡◌, map, take, ◌==◌,
  nat_key, arith, Option-cases, Bool-cases, inl, inr,
}
use xgraph.Indexes.State.{HotIndexes, NodeId, FilePath, get_node}
use xgraph.Indexes.Edges.{callees_of, callers_of}
use xgraph.Handlers.Snippets.{
  Reads, Replacing, source_bytes, lookup_span_and_snippet, lookup_span_and_snippet-bytes,
}
use xgraph.Handlers.Related.{summarize_node, unwrap_or}
use xgraph.Handlers.Explore.{ExploreParams, Item, unknown, known, explore_items, build_explore}

abbrev pub item_bytes : Item → ℕ
item_bytes (unknown id) = 0
item_bytes (known id record_ found caller_nodes callee_nodes) = source_bytes found.source

abbrev pub total_bytes : List Item → ℕ
total_bytes [] = 0
total_bytes (item ∷ items) = item_bytes item + total_bytes items

total_bytes-snoc :
    (items : List Item) (item : Item)
    → total_bytes (items ++ item ∷ []) ≡ total_bytes items + item_bytes item
total_bytes-snoc [] item = omega arith
total_bytes-snoc (i ∷ items) item = omega (arith, total_bytes-snoc items item)

module _ (reads : Reads) (reconcile_done : Bool) (is_path_pending : FilePath → Bool) where
  -- all bytes are accounted for, but for what the last snippet has beyond its cap
  explore_items-bytes :
      (replacing : Replacing reads.from_utf8_lossy) (idx : HotIndexes)
      (per_snippet related_limit : ℕ) (ids : List NodeId) (remaining : ℕ) (items : List Item)
      (late : Bool)
      → let result =
          explore_items reads reconcile_done is_path_pending idx per_snippet related_limit ids
            remaining items late in
        (total_bytes items + remaining ≤ total_bytes result.0 + result.1)
        × (total_bytes result.0 + result.1 ≤ total_bytes items + remaining + 2 * per_snippet)
        × (result.1 ≤ remaining)
  unfolding explore_items
  explore_items-bytes replacing idx per_snippet related_limit [] remaining items late =
      (omega arith, omega arith, omega arith)
  explore_items-bytes replacing idx per_snippet related_limit (id ∷ rest) remaining items late =
      elim (Option-cases (get_node idx id)) [
        | inl none' ↦
            let ih =
              explore_items-bytes replacing idx per_snippet related_limit rest remaining
                (items ++ unknown id ∷ []) late in
            let grown = total_bytes-snoc items (unknown id) in
            rw (none', explore_items)
              (omega (arith, ih.0, grown), omega (arith, ih.1, grown), omega (arith, ih.2))
        | inr (record_, e) ↦
            let late' = is_path_pending record_.path || late in
            let cap = min per_snippet remaining in
            let found = lookup_span_and_snippet reads id record_.path cap in
            let left = remaining - source_bytes found.source in
            let item =
              known id record_ found
                (map (summarize_node idx) (take related_limit (callers_of idx id)))
                (map (summarize_node idx) (take related_limit (callees_of idx id))) in
            let ih =
              explore_items-bytes replacing idx per_snippet related_limit rest left
                (items ++ item ∷ []) late' in
            let fits = lookup_span_and_snippet-bytes reads replacing id record_.path cap in
            let grown = total_bytes-snoc items item in
            elim (Bool-cases (left == 0)) [
              | inl spent ↦
                  rw (e, explore_items)
                    (rw spent (omega (arith, fits, grown), omega (arith, fits, grown), omega arith))
              | inr more ↦
                  let within : 0 < left = ground (arith, more) in
                  rw (e, explore_items)
                    (rw more (
                      omega (arith, ih.0, fits, grown, within),
                      omega (arith, ih.1, fits, grown, within),
                      omega (arith, ih.2),
                    ))
            ]
      ]

  -- If `from_utf8_lossy` writes at most three bytes for one, `bytes_used` is at most what the sources of
  -- the items have together, this is at most 32 KiB more than `bytes_used`, which is within the budget,
  -- and the budget is at most 128 KiB.
  pub build_explore-budget :
      (replacing : Replacing reads.from_utf8_lossy) (idx : HotIndexes) (params : ExploreParams)
      → let result = build_explore reads reconcile_done is_path_pending idx params in
        (result.bytes_used ≤ total_bytes result.items)
        × (total_bytes result.items ≤ result.bytes_used + 32768)
        × (result.bytes_used ≤ result.bytes_budget)
        × (result.bytes_budget ≤ 131072)
  unfolding build_explore
  build_explore-budget replacing idx params =
      let total = min (unwrap_or params.byte_budget (32 * 1024)) (128 * 1024) in
      let per_snippet = min (unwrap_or params.per_snippet_bytes 4096) (16 * 1024) in
      let related_limit = min (unwrap_or params.related_limit 0) 50 in
      let h =
        explore_items-bytes replacing idx per_snippet related_limit params.node_ids total []
          (not reconcile_done) in
      (omega (arith, h.0, h.2), omega (arith, h.1, h.2), omega arith, omega arith)
