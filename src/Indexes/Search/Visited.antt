-- ===== src/Indexes/Search/Visited.antt =====
-- Which nodes the loops of `search` visit.

use xgraph.Prelude.{
  ℕ, ◌≡◌, true, some, List, [], ◌∷◌, ==_iff, contains, contains-append, contains-append_cases,
  Option-cases, inl, inr, if◌then◌else◌, arith, get_elem?, nat_key,
}
use xgraph.Text.{Text, text_key, trigram_key, str_contains}
use xgraph.Map.{get, find, All}
use xgraph.Map.Lists.{get_list}
use xgraph.Indexes.State.{HotIndexes, NodeId, SymbolKey, symbol_key_key, SearchQuery}
use xgraph.Indexes.Symbols.{lookup_symbol}
use xgraph.Indexes.Search.{kind_passes, name_matches}
use xgraph.Indexes.Search.Scan.{key_ids, keys_ids, names_ids, candidate_ids, candidates_ids}

module _ (idx : HotIndexes) (query : SearchQuery) where
  abbrev pub keys_of : Text → List SymbolKey
  keys_of name = get_list idx.symbols_by_name name

  pub keys_ids_sound :
      (keys : List SymbolKey) (x : NodeId)
      → contains (keys_ids idx query keys) x ≡ true
      → (key : SymbolKey) × (contains keys key ≡ true)
        × (kind_passes idx query key ≡ true)
        × (contains (lookup_symbol idx key) x ≡ true)
  unfolding keys_ids key_ids contains lookup_symbol
  keys_ids_sound [] x h = absurd (cc)
  keys_ids_sound (key ∷ keys) x h =
      elim (contains-append_cases (key_ids idx query key) (keys_ids idx query keys) x h) [
        | inl here ↦ (key, ground (arith, ==_iff key key), ground arith, ground arith)
        | inr there ↦ let (k, m, p, q) = keys_ids_sound keys x there in (k, ground arith, p, q)
      ]

  pub keys_ids_complete :
      (keys : List SymbolKey) (key : SymbolKey) (x : NodeId)
      → contains keys key ≡ true
      → kind_passes idx query key ≡ true
      → contains (lookup_symbol idx key) x ≡ true
      → contains (keys_ids idx query keys) x ≡ true
  unfolding keys_ids key_ids contains lookup_symbol
  keys_ids_complete [] key x m p q = m
  keys_ids_complete (k ∷ keys) key x m p q = ground (
    arith,
    contains-append (key_ids idx query k) (keys_ids idx query keys) x,
    keys_ids_complete keys key x,
    ==_iff k key,
  )

  pub names_ids_sound :
      (entries : List (Text × List SymbolKey)) (x : NodeId)
      → All (λ e. get idx.symbols_by_name e.0 ≡ some e.1) entries
      → contains (names_ids idx query entries) x ≡ true
      → (name : Text) × (name_matches idx query name ≡ true)
        × (contains (keys_ids idx query (keys_of name)) x ≡ true)
  unfolding names_ids contains
  names_ids_sound [] x a h = absurd (cc)
  names_ids_sound ((name, keys) ∷ entries) x a h =
      elim (contains-append_cases
        (if name_matches idx query name then keys_ids idx query keys else [])
        (names_ids idx query entries) x h) [
          | inl here ↦ (name, ground arith, ground (arith, a.0))
          | inr there ↦ names_ids_sound entries x a.1 there
        ]

  pub names_ids_complete :
      (entries : List (Text × List SymbolKey)) (name : Text) (keys : List SymbolKey) (x : NodeId)
      → find name entries ≡ some keys
      → name_matches idx query name ≡ true
      → contains (keys_ids idx query keys) x ≡ true
      → contains (names_ids idx query entries) x ≡ true
  unfolding names_ids contains find
  names_ids_complete [] name keys x f m h = ground arith
  names_ids_complete ((n, ks) ∷ entries) name keys x f m h = ground (
    arith,
    contains-append (if name_matches idx query n then keys_ids idx query ks else [])
        (names_ids idx query entries) x,
    names_ids_complete entries name keys x,
    ==_iff n name,
  )

  pub candidates_ids_sound :
      (ids : List ℕ) (x : NodeId)
      → contains (candidates_ids idx query ids) x ≡ true
      → (name : Text) × (str_contains name query.name ≡ true)
        × (contains (keys_ids idx query (keys_of name)) x ≡ true)
  unfolding candidates_ids candidate_ids contains
  candidates_ids_sound [] x h = absurd (cc)
  candidates_ids_sound (i ∷ ids) x h =
      elim (contains-append_cases (candidate_ids idx query i) (candidates_ids idx query ids) x h) [
        | inr there ↦ candidates_ids_sound ids x there
        | inl here ↦ elim (Option-cases (get_elem? idx.names i)) [
          | inl out ↦ absurd (ground arith)
          | inr (name, there) ↦ (name, ground arith, ground arith)
        ]
      ]

  pub candidates_ids_complete :
      (ids : List ℕ) (i : ℕ) (name : Text) (x : NodeId)
      → contains ids i ≡ true
      → get_elem? idx.names i ≡ some name
      → str_contains name query.name ≡ true
      → contains (keys_ids idx query (keys_of name)) x ≡ true
      → contains (candidates_ids idx query ids) x ≡ true
  unfolding candidates_ids candidate_ids contains
  candidates_ids_complete [] i name x m n s h = ground arith
  candidates_ids_complete (j ∷ ids) i name x m n s h = ground (
    arith,
    contains-append (candidate_ids idx query j) (candidates_ids idx query ids) x,
    candidates_ids_complete ids i name x,
    ==_iff j i,
  )
