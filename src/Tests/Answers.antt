-- ===== src/Tests/Answers.antt =====
-- Answers about the sample worktree.

use xgraph.Prelude.{
  ◌+◌, if◌then◌else◌, ◌==◌, nat_key, ◌≡◌, ◌≤◌, ◌⊎◌, ◌||◌, [], ◌∷◌, ◌++◌, none, some, true, false,
  arith, length, contains, take,
}
use xgraph.Text.{Text, text, text_key}
use xgraph.Indexes.State.{NodeId}
use xgraph.Handlers.Related.{
  callers, summarize_node, related_nodes_payload, aggregate_member_related,
}
use xgraph.Handlers.Related.Pages.{related_nodes_payload_lem}
use xgraph.Handlers.Related.Members.{Fine, next_to, node_ids_of, aggregate_member_related_lem}
use xgraph.Handlers.Explore.{ExploreParams, build_explore}
use xgraph.Handlers.Snippets.{Reads, Replacing, lookup_span_and_snippet}
use xgraph.Handlers.Explore.Budget.{total_bytes, build_explore-budget}
use xgraph.Indexes.Search.{search}
use xgraph.Handlers.Context.{ContextParams, context_query, build_context}
use xgraph.Handlers.Context.Matches.{match_ids, recorded, build_context-matches}
use xgraph.Tests.Samples.{two_files, parse_line_id, main_id}

related_nodes_payload_lem_example :
    let ids = parse_line_id ∷ main_id ∷ [] in
    let page = related_nodes_payload two_files ids (some 1) (some 1) in
    (page.node_ids ≡ main_id ∷ [])
    × (page.nodes ≡ summarize_node two_files main_id ∷ [])
    × (page.truncated ≡ false)
    × (page.total ≡ 2)
related_nodes_payload_lem_example =
    related_nodes_payload_lem two_files (parse_line_id ∷ main_id ∷ []) (some 1) (some 1)

aggregate_member_related_lem_example :
    let out = aggregate_member_related two_files (parse_line_id ∷ []) callers 0 in
    Fine two_files callers (parse_line_id ∷ []) 0 out
    × ((0 ≤ length out)
        ⊎ ((id : NodeId)
            → next_to two_files callers (parse_line_id ∷ []) id ≡ true
            → (contains (parse_line_id ∷ []) id || contains (node_ids_of out) id) ≡ true))
aggregate_member_related_lem_example =
    aggregate_member_related_lem two_files (parse_line_id ∷ []) callers 0

-- every node spans the one line of its file, which has a byte that is no text
abbrev line : Text
line = text "fn parse_line() {}" ++ (255 ∷ [])

abbrev lossy : Text → Text
lossy [] = []
lossy (c ∷ s) = if c == 255 then 239 ∷ 191 ∷ 189 ∷ lossy s else c ∷ lossy s

abbrev reads : Reads
reads = record {
  read_span = λ id. some (some 0 ∷ some 19 ∷ some 4 ∷ some 0 ∷ []);
  read_file = λ path. some line;
  from_utf8_lossy = lossy;
}

lossy-Replacing : Replacing lossy
lossy-Replacing [] = omega arith
lossy-Replacing (c ∷ s) = ground (arith, lossy-Replacing s)

abbrev both : ExploreParams
both = record {
  node_ids = parse_line_id ∷ main_id ∷ [];
  byte_budget = some 30;
  per_snippet_bytes = none;
  related_limit = none;
}

build_explore-budget_example :
    let result = build_explore reads true (λ _. false) two_files both in
    (result.bytes_used ≤ total_bytes result.items)
    × (total_bytes result.items ≤ result.bytes_used + 32768)
    × (result.bytes_used ≤ result.bytes_budget)
    × (result.bytes_budget ≤ 131072)
build_explore-budget_example =
    build_explore-budget reads true (λ _. false) lossy-Replacing two_files both

abbrev asked : ContextParams
asked = record {
  name = text "parse_line";
  mode = none;
  kind = none;
  path_prefix = none;
  limit = some 1;
  related_limit = none;
  snippet_bytes = some 8;
}

build_context-matches_example :
    let context = build_context (lookup_span_and_snippet reads) true false two_files asked in
    (match_ids context.matches
      ≡ take context.limit (recorded two_files (search two_files (context_query asked))))
    × (context.limit ≤ 200)
build_context-matches_example =
    build_context-matches (lookup_span_and_snippet reads) true false two_files asked
