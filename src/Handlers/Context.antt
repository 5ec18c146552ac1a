-- ===== src/Handlers/Context.antt =====
-- handlers.rs `build_context`, with its parameters and their check. The lookup of spans and
-- snippets is a parameter, which `lookup_span_and_snippet` of Snippets fills, and so is the daemon's
-- status.
pub mod Matches
use xgraph.Prelude.{
  ℕ, zero, suc, ◌+◌, min, ltb, leb, Bool, true, false, not, ◌||◌, Option, none, some, List, [], ◌∷◌,
  ◌++◌, map, if◌then◌else◌, length, take, ◌==◌,
}
use xgraph.Text.{Text, text, text_key}
use xgraph.Indexes.State.{
  HotIndexes, NodeId, NodeRecord, FilePath, SearchQuery, SearchMode, get_node,
}
use xgraph.Indexes.Edges.{callees_of, callers_of}
use xgraph.Indexes.Search.{search}
use xgraph.Handlers.Related.{
  Summary, summarize_node, unwrap_or, member_node_ids, aggregate_member_related, RelatedDirection,
  callers, callees,
}
use xgraph.Handlers.Snippets.{Lookup}

pub record ContextParams : Type 0 where
  pub name : Text
  pub mode : Option Text
  pub kind : Option Text
  pub path_prefix : Option Text
  pub limit : Option ℕ
  pub related_limit : Option ℕ
  pub snippet_bytes : Option ℕ

-- the parameter that an error is about: too long, or an unknown mode
pub data Refusal : Type 0 where
  exceeds : (label : Text) (max_bytes : ℕ) → Refusal
  unsupported_mode : Text → Refusal

unfoldable pub validate_len : Text → Text → ℕ → Option Refusal
validate_len label value max_bytes =
    if ltb max_bytes (length value) then some (exceeds label max_bytes) else none

unfoldable pub validate_optional_len : Text → Option Text → ℕ → Option Refusal
unfolding validate_len
validate_optional_len label none max_bytes = none
validate_optional_len label (some value) max_bytes = validate_len label value max_bytes

unfoldable pub validate_mode : Option Text → Option Refusal
validate_mode none = none
validate_mode (some mode) =
    if mode == text "exact" || mode == text "prefix" || mode == text "contains"
    then none
    else some (unsupported_mode mode)

-- `?` after a check
abbrev pub and_then : Option Refusal → Option Refusal → Option Refusal
and_then (some e) next = some e
and_then none next = next

unfoldable pub validate : ContextParams → Option Refusal
unfolding validate_len validate_optional_len validate_mode
validate params = and_then (validate_len (text "name") params.name 10000) (
    and_then (validate_optional_len (text "kind") params.kind 128) (
      and_then (validate_optional_len (text "path_prefix") params.path_prefix 4096)
        (validate_mode params.mode)))

unfoldable pub search_mode : Option Text → SearchMode
search_mode none = SearchMode.exact
search_mode (some mode) =
    if mode == text "prefix"
    then SearchMode.prefix
    else if mode == text "contains"
    then SearchMode.contains
    else SearchMode.exact

pub record Match : Type 0 where
  pub record_id : NodeId
  pub node : NodeRecord
  pub found : Lookup
  pub caller_nodes : List Summary
  pub callee_nodes : List Summary
  pub member_nodes : List Summary
  pub member_caller_nodes : List Summary
  pub member_callee_nodes : List Summary

pub record Context : Type 0 where
  pub matches : List Match
  pub total_matches : ℕ
  pub limit : ℕ
  pub catching_up : Bool

unfoldable pub context_query : ContextParams → SearchQuery
unfolding search_mode
context_query params = record {
  name = params.name;
  mode = search_mode params.mode;
  kind = params.kind;
  path_prefix = params.path_prefix;
  limit = 200;
}

abbrev pub match_limit : ContextParams → ℕ
match_limit params = min (unwrap_or params.limit 20) 200

module _ (lookup : NodeId → FilePath → ℕ → Lookup) (reconcile_done any_pending : Bool) where
  unfoldable pub match_of : HotIndexes → ContextParams → NodeId → NodeRecord → Match
  unfolding callers_of callees_of summarize_node member_node_ids aggregate_member_related
  match_of idx params id node =
      let related_limit = min (unwrap_or params.related_limit 20) 200 in
      let members = member_node_ids idx node related_limit in
      record {
        record_id = id;
        node = node;
        found = lookup id node.path (min (unwrap_or params.snippet_bytes 2048) 8192);
        caller_nodes = map (summarize_node idx) (take related_limit (callers_of idx id));
        callee_nodes = map (summarize_node idx) (take related_limit (callees_of idx id));
        member_nodes = map (summarize_node idx) members;
        member_caller_nodes = aggregate_member_related idx members callers related_limit;
        member_callee_nodes = aggregate_member_related idx members callees related_limit;
      }

  -- the loop over the hits
  unfoldable pub collect_matches :
      HotIndexes → ContextParams → List NodeId → List Match → List Match
  unfolding match_of get_node
  collect_matches idx params [] matches = matches
  collect_matches idx params (id ∷ ids) matches = elim (get_node idx id) [
    | none ↦ collect_matches idx params ids matches
    | some node ↦ collect_matches idx params ids (
        if leb (match_limit params) (length matches)
        then matches
        else matches ++ match_of idx params id node ∷ [])
  ]

  unfoldable pub build_context : HotIndexes → ContextParams → Context
  unfolding search context_query collect_matches
  build_context idx params =
      let ids = search idx (context_query params) in
      record {
        matches = collect_matches idx params ids [];
        total_matches = length ids;
        limit = match_limit params;
        catching_up = not reconcile_done || any_pending;
      }
