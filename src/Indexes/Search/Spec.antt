-- ===== src/Indexes/Search/Spec.antt =====
-- What a search has to find, and what the innermost loop makes of the ids that it is given.
use xgraph.Prelude.{
  ◌≤◌, ◌<◌, ◌≡◌, true, false, not, ◌&&◌, ◌||◌, List, [], ◌∷◌, ◌==◌, ==_iff, contains,
  contains-append, Distinct, Distinct-snoc, Bool-cases, inl, inr, length, length-append, arith,
}
use xgraph.Text.{Text, text_key}
use xgraph.Map.Lists.{get_list}
use xgraph.Indexes.State.{HotIndexes, NodeId, SymbolKey, symbol_key_key, SearchQuery}
use xgraph.Indexes.Symbols.{lookup_symbol}
use xgraph.Indexes.Search.{
  path_filter_passes, Found, nothing, offer, scan_ids, kind_passes, name_matches,
}
use xgraph.Indexes.Search.Scan.{full, passes}

-- A registered name matches the query, and the node stands under one of its keys and passes the
-- filters on kind and path.
pub record Hit (idx : HotIndexes) (query : SearchQuery) (id : NodeId) : Type 0 where
  pub name : Text
  pub key : SymbolKey
  pub matches : name_matches idx query name ≡ true
  pub keyed : contains (get_list idx.symbols_by_name name) key ≡ true
  pub of_kind : kind_passes idx query key ≡ true
  pub listed : contains (lookup_symbol idx key) id ≡ true
  pub in_path : path_filter_passes idx id query.path_prefix ≡ true

module _ (idx : HotIndexes) (query : SearchQuery) where
  -- the two collections between two rounds
  record Ready (f : Found) : Type 0 where
    subset : (x : NodeId) → contains f.results x ≡ true → contains f.seen x ≡ true
    taken :
        (x : NodeId)
        → contains f.seen x ≡ true
        → passes idx query x ≡ true
        → contains f.results x ≡ true
    distinct : Distinct f.results
    within : length f.results ≤ query.limit

  Ready-nothing : Ready nothing
  unfolding contains
  Ready-nothing = record {
    subset = λ x p. p;
    taken = λ x p q. p;
    distinct = tt;
    within = omega arith;
  }

  offer_lem :
      (id : NodeId) (f : Found) (x : NodeId)
      → (contains (offer idx query id f).seen x ≡ (id == x || contains f.seen x))
        × (contains (offer idx query id f).results x ≡ (
            contains f.results x || (id == x && (passes idx query x && not (contains f.seen x)))))
  unfolding offer contains
  offer_lem id f x = elim (Bool-cases (contains f.seen id)) [
    | inl met ↦ (ground (arith, ==_iff id x), ground (arith, ==_iff id x))
    | inr fresh ↦ (
      ground (arith, ==_iff id x),
      ground (arith, ==_iff id x, contains-append f.results (id ∷ []) x),
    )
  ]

  offer-Ready :
      (id : NodeId) (f : Found) → full idx query f ≡ false → Ready f → Ready (offer idx query id f)
  offer-Ready id f room h = record {
    subset = λ x p. ground (arith, offer_lem id f x, h.subset x);
    taken = λ x p q. ground (arith, offer_lem id f x, h.taken x, h.subset x);
    distinct = unfold offer in ground (arith, h.distinct, h.subset id, Distinct-snoc f.results id);
    within = unfold offer in ground (arith, h.within, length-append f.results (id ∷ []));
  }

  scan_ids-Ready : (ids : List NodeId) (f : Found) → Ready f → Ready (scan_ids idx query ids f)
  unfolding scan_ids
  scan_ids-Ready [] f h = h
  scan_ids-Ready (id ∷ ids) f h = elim (Bool-cases (full idx query f)) [
    | inl end ↦ rw end h
    | inr room ↦ rw room (scan_ids-Ready ids (offer idx query id f) (offer-Ready id f room h))
  ]

  scan_ids_sound :
      (ids : List NodeId) (f : Found) (x : NodeId)
      → contains (scan_ids idx query ids f).results x ≡ true
      → (contains f.results x || (contains ids x && passes idx query x)) ≡ true
  unfolding scan_ids contains
  scan_ids_sound [] f x p = ground arith
  scan_ids_sound (id ∷ ids) f x p =
      ground (arith, offer_lem id f x, scan_ids_sound ids (offer idx query id f) x)

  scan_ids_complete :
      (ids : List NodeId) (f : Found) (x : NodeId)
      → Ready f
      → length (scan_ids idx query ids f).results < query.limit
      → (contains f.results x || (contains ids x && passes idx query x)) ≡ true
      → contains (scan_ids idx query ids f).results x ≡ true
  unfolding scan_ids contains
  scan_ids_complete [] f x h room p = ground arith
  scan_ids_complete (id ∷ ids) f x h room p = elim (Bool-cases (full idx query f)) [
    | inl end ↦ absurd (ground (arith, end, room))
    | inr more ↦ rw more (
        scan_ids_complete ids (offer idx query id f) x (offer-Ready id f more h) (rw more at room)
          (ground (arith, p, offer_lem id f x, h.taken x, ==_iff id x)))
  ]

  -- From no results: exactly the ids that pass, unless the limit cuts them short.
  pub scan_nothing_sound :
      (ids : List NodeId) (x : NodeId)
      → contains (scan_ids idx query ids nothing).results x ≡ true
      → (contains ids x && passes idx query x) ≡ true
  unfolding contains
  scan_nothing_sound ids x p = scan_ids_sound ids nothing x p

  pub scan_nothing_complete :
      (ids : List NodeId) (x : NodeId)
      → length (scan_ids idx query ids nothing).results < query.limit
      → (contains ids x && passes idx query x) ≡ true
      → contains (scan_ids idx query ids nothing).results x ≡ true
  unfolding contains
  scan_nothing_complete ids x room p = scan_ids_complete ids nothing x Ready-nothing room p

  pub scan_nothing_bounds :
      (ids : List NodeId)
      → Distinct (scan_ids idx query ids nothing).results
        × (length (scan_ids idx query ids nothing).results ≤ query.limit)
  scan_nothing_bounds ids =
      let ready = scan_ids-Ready ids nothing Ready-nothing in (ready.distinct, ready.within)
