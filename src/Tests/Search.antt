-- ===== src/Tests/Search.antt =====
-- Searches in the sample worktree.
use xgraph.Prelude.{
  ◌≡◌, refl, [], ◌∷◌, none, some, arith, ◌≤◌, ◌<◌, length, contains, true, Distinct,
}
use xgraph.Text.{text, text_key}
use xgraph.Indexes.State.{SearchQuery, SearchMode}
use xgraph.Indexes.Symbols.{lookup_symbol}
use xgraph.Indexes.Search.{
  search, contains_search, collect_contains_hits, candidate_name_ids_for_contains, smallest_posting,
  smaller, scan_candidates, scan_candidate, scan_keys, scan_key, scan_ids, offer, kind_passes,
  path_filter_passes, name_matches,
}
use xgraph.Indexes.Search.Spec.{Hit}
use xgraph.Indexes.Search.Correct.{search_sound, search_complete, search_bounds}
use xgraph.Tests.Samples.{two_files, two_files-WellFormed, run, parse_line_id}

abbrev query : SearchQuery
query = record {
  name = text "arse";
  mode = SearchMode.contains;
  kind = none;
  path_prefix = some (text "read");
  limit = 10;
}

found : search two_files query ≡ parse_line_id ∷ []
unfolding run search contains_search collect_contains_hits candidate_name_ids_for_contains
    smallest_posting smaller scan_candidates scan_candidate scan_keys scan_key scan_ids offer
    kind_passes path_filter_passes
found = refl

parse_line-Hit : Hit two_files query parse_line_id
unfolding run lookup_symbol kind_passes path_filter_passes name_matches
parse_line-Hit = record {
  name = text "parse_line";
  key = record { name = text "parse_line"; kind = text "function" };
  matches = refl;
  keyed = refl;
  of_kind = refl;
  listed = refl;
  in_path = refl;
}

found_one : length (search two_files query) < 10
found_one = rw found (omega arith)

found_it : contains (search two_files query) parse_line_id ≡ true
unfolding contains run
found_it = rw found

search_complete_example : contains (search two_files query) parse_line_id ≡ true
search_complete_example =
    search_complete two_files query parse_line_id two_files-WellFormed.symbols
      two_files-WellFormed.cover found_one parse_line-Hit

search_sound_example : Hit two_files query parse_line_id
search_sound_example =
    search_sound two_files query parse_line_id two_files-WellFormed.symbols found_it

search_bounds_example :
    Distinct (search two_files query) × (length (search two_files query) ≤ query.limit)
search_bounds_example = search_bounds two_files query
