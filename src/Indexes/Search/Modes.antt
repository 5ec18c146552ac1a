-- ===== src/Indexes/Search/Modes.antt =====
-- Each way of visiting nodes finds the hits.
use xgraph.Prelude.{
  ℕ, ◌≡◌, ◌↔◌, refl, true, Option, none, some, List, [], ◌∷◌, ==_iff, contains, Option-cases, inl,
  inr, ◌⊎◌, arith, nat_key,
}
use xgraph.Text.{Text, text_key, Trigram, trigram_key, windows, lower, str_contains}
use xgraph.Text.Laws.{windows-str_contains}
use xgraph.Map.{get, iter, find-iter, All-iter}
use xgraph.Map.Lists.{contains_key-NoEmpty}
use xgraph.Indexes.State.{HotIndexes, NodeId, SymbolKey, symbol_key_key, SearchQuery, SearchMode}
use xgraph.Indexes.Symbols.{lookup_symbol, lookup_symbol_by_name, ids_of_keys}
use xgraph.Indexes.Symbols.Consistent.{SymbolsMatch}
use xgraph.Indexes.Symbols.Trigrams.{TrigramsCover}
use xgraph.Indexes.Search.{
  kind_passes, name_matches, exact_ids, smaller, smallest_posting, candidate_name_ids_for_contains,
}
use xgraph.Indexes.Search.Scan.{passes, key_ids, keys_ids, names_ids, candidates_ids}
use xgraph.Indexes.Search.Visited.{
  keys_of, keys_ids_sound, keys_ids_complete, names_ids_sound, names_ids_complete,
  candidates_ids_sound, candidates_ids_complete,
}
use xgraph.Indexes.Search.Spec.{Hit}

smaller_cases :
    (o : Option (List ℕ)) (posting ids : List ℕ)
    → smaller o posting ≡ some ids
    → (o ≡ some ids) ⊎ (posting ≡ ids)
unfolding smaller
smaller_cases o posting ids h = ground arith

-- The posting list that is taken is that of some window.
smallest_posting_lem :
    (idx : HotIndexes) (ws : List Trigram) (o : Option (List ℕ)) (ids : List ℕ)
    → smallest_posting idx ws o ≡ some ids
    → (o ≡ some ids) ⊎ ((w : Trigram) × (contains ws w ≡ true) × (get idx.trigrams w ≡ some ids))
unfolding smallest_posting contains
smallest_posting_lem idx [] o ids h = inl h
smallest_posting_lem idx (w ∷ ws) o ids h = elim (Option-cases (get idx.trigrams w)) [
  | inl missing ↦ absurd (ground arith)
  | inr (posting, there) ↦
      elim (smallest_posting_lem idx ws (smaller o posting) ids (ground arith)) [
        | inr (v, m, e) ↦ inr (v, ground arith, e)
        | inl now ↦ elim (smaller_cases o posting ids now) [
          | inl before ↦ inl before
          | inr this ↦ inr (w, ground (arith, ==_iff w w), ground arith)
        ]
      ]
]

module _ (idx : HotIndexes) (query : SearchQuery) (symbols : SymbolsMatch idx) where
  -- a visited node under a matching name is a hit if it passes the path filter
  visited-Hit :
      (name : Text) (x : NodeId)
      → name_matches idx query name ≡ true
      → contains (keys_ids idx query (keys_of idx query name)) x ≡ true
      → passes idx query x ≡ true
      → Hit idx query x
  visited-Hit name x m h p =
      let (key, k, of_kind, listed) = keys_ids_sound idx query (keys_of idx query name) x h in
      record {
        name = name;
        key = key;
        matches = m;
        keyed = k;
        of_kind = of_kind;
        listed = listed;
        in_path = p;
      }

  keys_of-Hit :
      (x : NodeId) (h : Hit idx query x)
      → contains (keys_ids idx query (keys_of idx query h.name)) x ≡ true
  keys_of-Hit x h =
      keys_ids_complete idx query (keys_of idx query h.name) h.key x h.keyed h.of_kind h.listed

  registered :
      (key : SymbolKey) (x : NodeId)
      → contains (lookup_symbol idx key) x ≡ true
      → contains (keys_of idx query key.name) key ≡ true
  unfolding lookup_symbol
  registered key x h =
      ground (arith, symbols.keys.indexed key, contains_key-NoEmpty idx.symbols key x h)

  pub linear_sound :
      (x : NodeId)
      → contains (names_ids idx query (iter idx.symbols_by_name)) x ≡ true
      → passes idx query x ≡ true
      → Hit idx query x
  linear_sound x h p =
      let (name, m, k) =
        names_ids_sound idx query (iter idx.symbols_by_name) x (All-iter idx.symbols_by_name) h in
      visited-Hit name x m k p

  pub linear_complete :
      (x : NodeId)
      → Hit idx query x
      → contains (names_ids idx query (iter idx.symbols_by_name)) x ≡ true
  linear_complete x h = elim (Option-cases (get idx.symbols_by_name h.name)) [
    | inl missing ↦ absurd (unfold contains in ground (arith, h.keyed, missing))
    | inr (keys, there) ↦
        names_ids_complete idx query (iter idx.symbols_by_name) h.name keys x (rw find-iter there)
          h.matches (ground (arith, there, keys_of-Hit x h))
  ]

  abbrev exact_key : Text → SymbolKey
  exact_key kind = record { name = query.name; kind = kind }

  ids_of_keys_lem :
      (keys : List SymbolKey) → query.kind ≡ none → ids_of_keys idx keys ≡ keys_ids idx query keys
  unfolding ids_of_keys keys_ids key_ids kind_passes
  ids_of_keys_lem [] any = refl
  ids_of_keys_lem (key ∷ keys) any = ground (arith, any, ids_of_keys_lem keys any)

  exact_any :
      query.kind ≡ none → exact_ids idx query ≡ keys_ids idx query (keys_of idx query query.name)
  unfolding exact_ids lookup_symbol_by_name ids_of_keys keys_ids
  exact_any any = elim (Option-cases (get idx.symbols_by_name query.name)) [
    | inl missing ↦ ground arith
    | inr (keys, there) ↦ ground (arith, ids_of_keys_lem keys any)
  ]

  exact_one :
      (kind : Text)
      → query.kind ≡ some kind
      → exact_ids idx query ≡ lookup_symbol idx (exact_key kind)
  unfolding exact_ids
  exact_one kind one = ground arith

  exact_matches :
      query.mode ≡ SearchMode.exact
      → (name : Text) → (name_matches idx query name ≡ true) ↔ (name ≡ query.name)
  unfolding name_matches
  exact_matches m name = ground (arith, m, ==_iff name query.name)

  kind_one :
      (kind : Text) (key : SymbolKey)
      → query.kind ≡ some kind
      → (kind_passes idx query key ≡ true) ↔ (key.kind ≡ kind)
  unfolding kind_passes
  kind_one kind key one = ground (arith, one, ==_iff key.kind kind)

  pub exact_sound :
      (x : NodeId)
      → query.mode ≡ SearchMode.exact
      → contains (exact_ids idx query) x ≡ true
      → passes idx query x ≡ true
      → Hit idx query x
  exact_sound x m h p = elim (Option-cases query.kind) [
    | inl any ↦
        visited-Hit query.name x ((exact_matches m query.name).1 refl)
          (ground (arith, h, exact_any any)) p
    | inr (kind, one) ↦
        let key = exact_key kind in
        let listed : contains (lookup_symbol idx key) x ≡ true =
          ground (arith, h, exact_one kind one) in
        record {
          name = query.name;
          key = key;
          matches = (exact_matches m query.name).1 refl;
          keyed = registered key x listed;
          of_kind = (kind_one kind key one).1 refl;
          listed = listed;
          in_path = p;
        }
  ]

  pub exact_complete :
      (x : NodeId)
      → query.mode ≡ SearchMode.exact
      → Hit idx query x
      → contains (exact_ids idx query) x ≡ true
  exact_complete x m h =
      let same = (exact_matches m h.name).0 h.matches in
      let name_of_key = symbols.keys.named h.name h.key h.keyed in
      elim (Option-cases query.kind) [
        | inl any ↦ ground (arith, exact_any any, keys_of-Hit x h, same)
        | inr (kind, one) ↦ ground (
          arith,
          exact_one kind one,
          h.listed,
          (kind_one kind h.key one).0 h.of_kind,
          same,
          name_of_key,
        )
      ]

  pub trigram_sound :
      (ids : List ℕ) (x : NodeId)
      → query.mode ≡ SearchMode.contains
      → contains (candidates_ids idx query ids) x ≡ true
      → passes idx query x ≡ true
      → Hit idx query x
  unfolding name_matches
  trigram_sound ids x m h p =
      let (name, s, k) = candidates_ids_sound idx query ids x h in
      visited-Hit name x (ground (arith, m, s)) k p

  pub trigram_complete :
      (ids : List ℕ) (x : NodeId)
      → TrigramsCover idx
      → query.mode ≡ SearchMode.contains
      → candidate_name_ids_for_contains idx query.name ≡ some ids
      → Hit idx query x
      → contains (candidates_ids idx query ids) x ≡ true
  unfolding candidate_name_ids_for_contains name_matches
  trigram_complete ids x cover m c h =
      elim (smallest_posting_lem idx (windows (lower query.name)) none ids c) [
        | inl no_posting ↦ absurd (cc)
        | inr (w, in_query, there) ↦
            let s : str_contains h.name query.name ≡ true = ground (arith, m, h.matches) in
            let known =
              symbols.keys.known h.name
                (contains_key-NoEmpty idx.symbols_by_name h.name h.key h.keyed) in
            elim (Option-cases (get idx.name_to_idx h.name)) [
              | inl unknown ↦ absurd (ground (arith, known, unknown))
              | inr (i, e) ↦
                  candidates_ids_complete idx query ids i h.name x
                    (ground (
                      arith,
                      there,
                      cover.posted h.name i w e
                          (windows-str_contains h.name query.name w s in_query),
                    ))
                    (cover.numbered h.name i e) s (keys_of-Hit x h)
            ]
      ]
