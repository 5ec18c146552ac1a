-- ===== src/Indexes/Search/Correct.antt =====
-- `search` finds what `Hit` describes: nothing else, and everything below the limit. The trigram
-- index, the exact lookup and the scan of all names visit the same nodes.
use xgraph.Prelude.{
  ℕ, ◌≤◌, ◌<◌, ◌≡◌, refl, true, Option, none, some, List, contains, Distinct, Bool-cases, inl, inr,
  ◌⊎◌, if◌then◌else◌, length, leb, arith, nat_key,
}
use xgraph.Text.{text_key, trigram_key}
use xgraph.Map.{iter}
use xgraph.Indexes.State.{HotIndexes, NodeId, symbol_key_key, SearchQuery, SearchMode}
use xgraph.Indexes.Symbols.Consistent.{SymbolsMatch}
use xgraph.Indexes.Symbols.Trigrams.{TrigramsCover}
use xgraph.Indexes.Search.{
  nothing, scan_ids, exact_ids, candidate_name_ids_for_contains, collect_contains_hits,
  linear_search, contains_search, search,
}
use xgraph.Indexes.Search.Scan.{
  passes, names_ids, candidates_ids, scan_names_lem, scan_candidates_lem,
}
use xgraph.Indexes.Search.Spec.{Hit, scan_nothing_sound, scan_nothing_complete, scan_nothing_bounds}
use xgraph.Indexes.Search.Modes.{
  linear_sound, linear_complete, exact_sound, exact_complete, trigram_sound, trigram_complete,
}

module _ (idx : HotIndexes) (query : SearchQuery) where
  abbrev all_names : List NodeId
  all_names = names_ids idx query (iter idx.symbols_by_name)

  -- the ids that `search` visits, in its three modes
  visited : List NodeId
  visited = elim query.mode [
    | SearchMode.exact ↦ exact_ids idx query
    | SearchMode.prefix ↦ all_names
    | SearchMode.contains ↦
        if leb 3 (length query.name)
        then elim (candidate_name_ids_for_contains idx query.name) [
          | none ↦ all_names
          | some ids ↦ candidates_ids idx query ids
        ]
        else all_names
  ]

  linear_lem : linear_search idx query ≡ (scan_ids idx query all_names nothing).results
  unfolding linear_search
  linear_lem = ground (arith, scan_names_lem idx query (iter idx.symbols_by_name) nothing)

  collect_lem :
      (ids : List ℕ)
      → collect_contains_hits idx query ids
        ≡ (scan_ids idx query (candidates_ids idx query ids) nothing).results
  unfolding collect_contains_hits
  collect_lem ids = ground (arith, scan_candidates_lem idx query ids nothing)

  -- where the substring is long enough, and every window of it has a posting list
  contains_cases :
      ((visited ≡ all_names) × (search idx query ≡ linear_search idx query))
      ⊎ ((query.mode ≡ SearchMode.exact)
          × (visited ≡ exact_ids idx query)
          × (search idx query ≡ (scan_ids idx query (exact_ids idx query) nothing).results))
      ⊎ ((ids : List ℕ) × (query.mode ≡ SearchMode.contains)
          × (candidate_name_ids_for_contains idx query.name ≡ some ids)
          × (visited ≡ candidates_ids idx query ids)
          × (search idx query ≡ collect_contains_hits idx query ids))
  unfolding visited search contains_search
  contains_cases = go query.mode refl (candidate_name_ids_for_contains idx query.name) refl
    where
      go :
          (m : SearchMode)
          → query.mode ≡ m
          → (o : Option (List ℕ)) → candidate_name_ids_for_contains idx query.name ≡ o
          → ((visited ≡ all_names) × (search idx query ≡ linear_search idx query))
            ⊎ ((query.mode ≡ SearchMode.exact)
                × (visited ≡ exact_ids idx query)
                × (search idx query ≡ (scan_ids idx query (exact_ids idx query) nothing).results))
            ⊎ ((ids : List ℕ) × (query.mode ≡ SearchMode.contains)
                × (candidate_name_ids_for_contains idx query.name ≡ some ids)
                × (visited ≡ candidates_ids idx query ids)
                × (search idx query ≡ collect_contains_hits idx query ids))
      go SearchMode.exact e o c = inr (inl (e, rw e, rw e))
      go SearchMode.prefix e o c = inl (rw e, rw e)
      go SearchMode.contains e none c = inl (ground arith, ground arith)
      go SearchMode.contains e (some ids) c = elim (Bool-cases (leb 3 (length query.name))) [
        | inl long ↦ inr (inr (ids, e, c, ground arith, ground arith))
        | inr short ↦ inl (ground arith, ground arith)
      ]

  search_lem : search idx query ≡ (scan_ids idx query visited nothing).results
  search_lem = elim contains_cases [
    | inl (v, s) ↦ ground (arith, v, s, linear_lem)
    | inr (inl (m, v, s)) ↦ ground (arith, v, s)
    | inr (inr (ids, m, c, v, s)) ↦ ground (arith, v, s, collect_lem ids)
  ]

  visited_sound :
      SymbolsMatch idx
      → (x : NodeId) → contains visited x ≡ true
      → passes idx query x ≡ true
      → Hit idx query x
  visited_sound h x p q = elim contains_cases [
    | inl (v, s) ↦ linear_sound idx query h x (rw v at p) q
    | inr (inl (m, v, s)) ↦ exact_sound idx query h x m (rw v at p) q
    | inr (inr (ids, m, c, v, s)) ↦ trigram_sound idx query h ids x m (rw v at p) q
  ]

  visited_complete :
      SymbolsMatch idx
      → TrigramsCover idx
      → (x : NodeId) → Hit idx query x
      → contains visited x ≡ true
  visited_complete h cover x hit = elim contains_cases [
    | inl (v, s) ↦ rw v (linear_complete idx query h x hit)
    | inr (inl (m, v, s)) ↦ rw v (exact_complete idx query h x m hit)
    | inr (inr (ids, m, c, v, s)) ↦ rw v (trigram_complete idx query h ids x cover m c hit)
  ]

  -- Every node that `search` returns, in whichever mode and by whichever index, is a hit.
  pub search_sound :
      (x : NodeId) → SymbolsMatch idx → contains (search idx query) x ≡ true → Hit idx query x
  search_sound x h p =
      let both = scan_nothing_sound idx query visited x (rw search_lem at p) in
      visited_sound h x (ground (arith, both)) (ground (arith, both))

  -- A search that stays below its limit returns every hit: the trigram index loses none.
  pub search_complete :
      (x : NodeId)
      → SymbolsMatch idx
      → TrigramsCover idx
      → length (search idx query) < query.limit
      → Hit idx query x
      → contains (search idx query) x ≡ true
  search_complete x h cover room hit = rw search_lem (
      scan_nothing_complete idx query visited x (rw search_lem at room)
        (ground (arith, visited_complete h cover x hit, hit.in_path)))

  -- The result has no repetitions and is no longer than the limit, whatever the indexes hold.
  pub search_bounds : Distinct (search idx query) × (length (search idx query) ≤ query.limit)
  search_bounds = rw search_lem (scan_nothing_bounds idx query visited)
