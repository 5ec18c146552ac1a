-- ===== src/Indexes/Search/Scan.antt =====
-- The innermost loop decides everything: whichever way `search` visits ids, its result is that of
-- `scan_ids` over the list of ids that it visits.
use xgraph.Prelude.{
  ℕ, ◌≡◌, refl, Bool, true, none, some, List, [], ◌∷◌, ◌++◌, Option-cases, inl, inr, if◌then◌else◌,
  length, leb, get_elem?, arith,
}
use xgraph.Text.{Text, text_key, str_contains}
use xgraph.Map.Lists.{get_list}
use xgraph.Indexes.State.{HotIndexes, NodeId, SymbolKey, symbol_key_key, SearchQuery}
use xgraph.Indexes.Search.{
  path_filter_passes, Found, offer, scan_ids, kind_passes, scan_key, scan_keys, name_matches,
  scan_names, scan_candidate, scan_candidates,
}

module _ (idx : HotIndexes) (query : SearchQuery) where
  abbrev pub full : Found → Bool
  full f = leb query.limit (length f.results)

  abbrev pub passes : NodeId → Bool
  passes id = path_filter_passes idx id query.path_prefix

  -- the ids that the loops over keys, names and candidates visit
  unfoldable pub key_ids : SymbolKey → List NodeId
  key_ids key = if kind_passes idx query key then get_list idx.symbols key else []

  unfoldable pub keys_ids : List SymbolKey → List NodeId
  keys_ids [] = []
  keys_ids (key ∷ keys) = key_ids key ++ keys_ids keys

  unfoldable pub names_ids : List (Text × List SymbolKey) → List NodeId
  names_ids [] = []
  names_ids ((name, keys) ∷ entries) =
      (if name_matches idx query name then keys_ids keys else []) ++ names_ids entries

  unfoldable pub candidate_ids : ℕ → List NodeId
  candidate_ids name_id = elim (get_elem? idx.names name_id) [
    | none ↦ []
    | some name ↦
        if str_contains name query.name then keys_ids (get_list idx.symbols_by_name name) else []
  ]

  unfoldable pub candidates_ids : List ℕ → List NodeId
  candidates_ids [] = []
  candidates_ids (name_id ∷ ids) = candidate_ids name_id ++ candidates_ids ids

  scan_ids-full : (ids : List NodeId) (f : Found) → full f ≡ true → scan_ids idx query ids f ≡ f
  unfolding scan_ids
  scan_ids-full [] f h = refl
  scan_ids-full (id ∷ ids) f h = rw h

  scan_ids-append :
      (xs ys : List NodeId) (f : Found)
      → scan_ids idx query (xs ++ ys) f ≡ scan_ids idx query ys (scan_ids idx query xs f)
  unfolding scan_ids
  scan_ids-append [] ys f = refl
  scan_ids-append (x ∷ xs) ys f =
      ground (arith, scan_ids-append xs ys (offer idx query x f), scan_ids-full ys f)

  scan_key_lem :
      (key : SymbolKey) (f : Found) → scan_key idx query key f ≡ scan_ids idx query (key_ids key) f
  unfolding scan_key key_ids
  scan_key_lem key f = ground arith

  scan_keys_lem :
      (keys : List SymbolKey) (f : Found)
      → scan_keys idx query keys f ≡ scan_ids idx query (keys_ids keys) f
  unfolding scan_keys keys_ids scan_ids
  scan_keys_lem [] f = refl
  scan_keys_lem (key ∷ keys) f =
      rw (scan_ids-append (key_ids key) (keys_ids keys) f, ← scan_key_lem key f)
        (scan_keys_lem keys (scan_key idx query key f))

  pub scan_names_lem :
      (entries : List (Text × List SymbolKey)) (f : Found)
      → scan_names idx query entries f ≡ scan_ids idx query (names_ids entries) f
  unfolding scan_names names_ids scan_ids
  scan_names_lem [] f = refl
  scan_names_lem ((name, keys) ∷ entries) f = ground (
    arith,
    scan_ids-full ((if name_matches idx query name then keys_ids keys else []) ++ names_ids entries)
        f,
    scan_ids-append (if name_matches idx query name then keys_ids keys else []) (names_ids entries)
        f,
    scan_keys_lem keys f,
    scan_names_lem entries (if name_matches idx query name then scan_keys idx query keys f else f),
  )

  scan_candidate_lem :
      (name_id : ℕ) (f : Found)
      → scan_candidate idx query name_id f ≡ scan_ids idx query (candidate_ids name_id) f
  unfolding scan_candidate candidate_ids scan_ids scan_keys keys_ids
  scan_candidate_lem name_id f = elim (Option-cases (get_elem? idx.names name_id)) [
    | inl out ↦ ground arith
    | inr (name, there) ↦ ground (arith, scan_keys_lem (get_list idx.symbols_by_name name) f)
  ]

  pub scan_candidates_lem :
      (ids : List ℕ) (f : Found)
      → scan_candidates idx query ids f ≡ scan_ids idx query (candidates_ids ids) f
  unfolding scan_candidates candidates_ids scan_ids
  scan_candidates_lem [] f = refl
  scan_candidates_lem (name_id ∷ ids) f = ground (
    arith,
    scan_ids-full (candidate_ids name_id ++ candidates_ids ids) f,
    scan_ids-append (candidate_ids name_id) (candidates_ids ids) f,
    scan_candidate_lem name_id f,
    scan_candidates_lem ids (scan_candidate idx query name_id f),
  )
