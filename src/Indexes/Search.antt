-- ===== src/Indexes/Search.antt =====
-- indexes.rs `search` and its helpers. `results` and `seen` are the two local collections.
pub mod Spec
pub mod Scan
pub mod Visited
pub mod Modes
pub mod Correct
use xgraph.Prelude.{
  ℕ, Bool, true, false, not, ◌&&◌, Option, none, some, List, [], ◌∷◌, ◌++◌, Key, ◌==◌, contains,
  if◌then◌else◌, length, ltb, leb, get_elem?, map, ◌≡◌, refl,
}
use xgraph.Text.{Text, text_key, Trigram, trigram_key, windows, lower, starts_with, str_contains}
use xgraph.Map.{Map, get, iter}
use xgraph.Map.Lists.{get_list}
use xgraph.Indexes.State
use xgraph.Indexes.State.{HotIndexes, NodeId, SymbolKey, symbol_key_key, SearchQuery, SearchMode}
use xgraph.Indexes.Symbols.{lookup_symbol, lookup_symbol_by_name}

unfoldable pub path_filter_passes : HotIndexes → NodeId → Option Text → Bool
path_filter_passes idx id none = true
path_filter_passes idx id (some prefix) = elim (get idx.nodes id) [
  | none ↦ false
  | some record' ↦ starts_with record'.path prefix
]

pub record Found : Type 0 where
  pub results : List NodeId
  pub seen : List NodeId

abbrev pub nothing : Found
nothing = record { results = []; seen = [] }

module _ (idx : HotIndexes) (query : SearchQuery) where
  -- the body of the innermost loop, behind its test of the limit
  unfoldable pub offer : NodeId → Found → Found
  offer id f =
      if contains f.seen id
      then f
      else if path_filter_passes idx id query.path_prefix
      then record { results = f.results ++ id ∷ []; seen = id ∷ f.seen }
      else record f { seen = id ∷ f.seen }

  unfoldable pub scan_ids : List NodeId → Found → Found
  unfolding offer
  scan_ids [] f = f
  scan_ids (id ∷ ids) f =
      if leb query.limit (length f.results) then f else scan_ids ids (offer id f)

  unfoldable pub kind_passes : SymbolKey → Bool
  kind_passes key = elim query.kind [ none ↦ true | some filter_kind ↦ key.kind == filter_kind ]

  unfoldable pub scan_key : SymbolKey → Found → Found
  unfolding scan_ids kind_passes
  scan_key key f =
      if kind_passes key
      then elim (get idx.symbols key) [ none ↦ f | some ids ↦ scan_ids ids f ]
      else f

  unfoldable pub scan_keys : List SymbolKey → Found → Found
  unfolding scan_key
  scan_keys [] f = f
  scan_keys (key ∷ keys) f = scan_keys keys (scan_key key f)

  unfoldable pub name_matches : Text → Bool
  name_matches name = elim query.mode [
    | SearchMode.exact ↦ name == query.name
    | SearchMode.prefix ↦ starts_with name query.name
    | SearchMode.contains ↦ str_contains name query.name
  ]

  -- the loop over `symbols_by_name`
  unfoldable pub scan_names : List (Text × List SymbolKey) → Found → Found
  unfolding scan_keys name_matches
  scan_names [] f = f
  scan_names ((name, keys) ∷ entries) f =
      if leb query.limit (length f.results)
      then f
      else scan_names entries (if name_matches name then scan_keys keys f else f)

  unfoldable pub scan_candidate : ℕ → Found → Found
  unfolding scan_keys
  scan_candidate name_id f = elim (get_elem? idx.names name_id) [
    | none ↦ f
    | some name ↦
        if str_contains name query.name
        then elim (get idx.symbols_by_name name) [ none ↦ f | some keys ↦ scan_keys keys f ]
        else f
  ]

  unfoldable pub scan_candidates : List ℕ → Found → Found
  unfolding scan_candidate
  scan_candidates [] f = f
  scan_candidates (name_id ∷ ids) f =
      if leb query.limit (length f.results)
      then f
      else scan_candidates ids (scan_candidate name_id f)

  unfoldable pub collect_contains_hits : List ℕ → List NodeId
  unfolding scan_candidates
  collect_contains_hits candidate_ids = (scan_candidates candidate_ids nothing).results

-- `smallest` so far, against one more posting list
unfoldable pub smaller : Option (List ℕ) → List ℕ → Option (List ℕ)
smaller none posting = some posting
smaller (some cur) posting = if ltb (length posting) (length cur) then some posting else some cur

-- the loop over the windows; `none` is the early return of `?`
unfoldable pub smallest_posting : HotIndexes → List Trigram → Option (List ℕ) → Option (List ℕ)
unfolding smaller
smallest_posting idx [] smallest = smallest
smallest_posting idx (w ∷ ws) smallest = elim (get idx.trigrams w) [
  | none ↦ none
  | some posting ↦ smallest_posting idx ws (smaller smallest posting)
]

unfoldable pub candidate_name_ids_for_contains : HotIndexes → Text → Option (List ℕ)
unfolding smallest_posting
candidate_name_ids_for_contains idx query = smallest_posting idx (windows (lower query)) none

unfoldable pub exact_ids : HotIndexes → SearchQuery → List NodeId
exact_ids idx query = elim query.kind [
  | none ↦ lookup_symbol_by_name idx query.name
  | some kind ↦ lookup_symbol idx (record { name = query.name; kind = kind })
]

-- the loop over all names, for prefixes and for short or unindexed substrings
unfoldable pub linear_search : HotIndexes → SearchQuery → List NodeId
unfolding scan_names
linear_search idx query = (scan_names idx query (iter idx.symbols_by_name) nothing).results

unfoldable pub contains_search : HotIndexes → SearchQuery → List NodeId
unfolding linear_search candidate_name_ids_for_contains collect_contains_hits
contains_search idx query =
    if leb 3 (length query.name)
    then elim (candidate_name_ids_for_contains idx query.name) [
      | none ↦ linear_search idx query
      | some ids ↦ collect_contains_hits idx query ids
    ]
    else linear_search idx query

unfoldable pub search : HotIndexes → SearchQuery → List NodeId
unfolding contains_search exact_ids
search idx query = elim query.mode [
  | SearchMode.exact ↦ (scan_ids idx query (exact_ids idx query) nothing).results
  | SearchMode.prefix ↦ linear_search idx query
  | SearchMode.contains ↦ contains_search idx query
]
