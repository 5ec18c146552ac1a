-- ===== src/Handlers/Context/Matches.antt =====
-- Which hits `build_context` describes.

use xgraph.Prelude.{
  ℕ, zero, suc, ◌-◌, ◌≤◌, leb, Bool, true, none, some, List, [], ◌∷◌, ◌++◌, map, length, take, ◌≡◌,
  refl, ap, sym, ◌∙◌, arith, Option-cases, Bool-cases, inl, inr, append-nil, append_assoc,
  length-append,
}
use xgraph.Indexes.State.{HotIndexes, NodeId, NodeRecord, FilePath, get_node}
use xgraph.Indexes.Search.{search}
use xgraph.Handlers.Snippets.{Lookup}
use xgraph.Handlers.Context.{
  ContextParams, Match, context_query, match_limit, match_of, collect_matches, build_context,
}

-- The nodes of a list that have a record.
unfoldable pub recorded : HotIndexes → List NodeId → List NodeId
recorded idx [] = []
recorded idx (id ∷ ids) =
    let rest = recorded idx ids in elim (get_node idx id) [ none ↦ rest | some _ ↦ id ∷ rest ]

abbrev pub match_ids : List Match → List NodeId
match_ids matches = map (λ m. m.record_id) matches

module _ (lookup : NodeId → FilePath → ℕ → Lookup) (reconcile_done any_pending : Bool) where
  match_ids-snoc :
      (idx : HotIndexes) (params : ContextParams) (matches : List Match) (id : NodeId)
      (node : NodeRecord)
      → match_ids (matches ++ match_of lookup reconcile_done any_pending idx params id node ∷ [])
        ≡ match_ids matches ++ id ∷ []
  unfolding match_of
  match_ids-snoc idx params [] id node = refl
  match_ids-snoc idx params (m ∷ matches) id node =
      ap (λ l. m.record_id ∷ l) (match_ids-snoc idx params matches id node)

  full_lem :
      (idx : HotIndexes) (params : ContextParams) (ids : List NodeId) (matches : List Match)
      → leb (match_limit params) (length matches) ≡ true
      → collect_matches lookup reconcile_done any_pending idx params ids matches ≡ matches
  unfolding collect_matches
  full_lem idx params [] matches h = refl
  full_lem idx params (id ∷ ids) matches h = elim (Option-cases (get_node idx id)) [
    | inl e ↦ rw (e, collect_matches) (full_lem idx params ids matches h)
    | inr (node, e) ↦ rw (e, collect_matches) (rw h (full_lem idx params ids matches h))
  ]

  take-nil : (n : ℕ) → take {A = NodeId} n [] ≡ []
  take-nil zero = refl
  take-nil (suc n) = refl

  take-zero_room : (n : ℕ) (l : List NodeId) (h : n ≡ 0) → take n l ≡ []
  take-zero_room zero l h = refl
  take-zero_room (suc n) l h = absurd (omega (arith, h))

  take-room :
      (n m : ℕ) (id : NodeId) (l : List NodeId) → n ≡ suc m → take n (id ∷ l) ≡ id ∷ take m l
  take-room n m id l h = ap (λ k. take k (id ∷ l)) h

  collect_matches-ids :
      (idx : HotIndexes) (params : ContextParams) (ids : List NodeId) (matches : List Match)
      → match_ids (collect_matches lookup reconcile_done any_pending idx params ids matches)
        ≡ match_ids matches ++ take (match_limit params - length matches) (recorded idx ids)
  unfolding collect_matches recorded
  collect_matches-ids idx params [] matches =
      sym (append-nil (match_ids matches))
      ∙ ap (λ l. match_ids matches ++ l) (sym (take-nil (match_limit params - length matches)))
  collect_matches-ids idx params (id ∷ ids) matches = elim (Option-cases (get_node idx id)) [
    | inl e ↦ rw (e, collect_matches, recorded) (collect_matches-ids idx params ids matches)
    | inr (node, e) ↦ elim (Bool-cases (leb (match_limit params) (length matches))) [
      | inl full ↦
          rw (e, collect_matches, recorded)
            (rw full (
              ap match_ids (full_lem idx params ids matches full)
              ∙ sym (append-nil (match_ids matches))
              ∙ ap (λ l. match_ids matches ++ l)
                  (sym (
                    take-zero_room (match_limit params - length matches) (id ∷ recorded idx ids)
                      (ground (arith, full))))))
      | inr room ↦
          let m = match_of lookup reconcile_done any_pending idx params id node in
          let left : match_limit params - length matches
              ≡ suc (match_limit params - length (matches ++ m ∷ [])) =
            ground (arith, room, length-append matches (m ∷ [])) in
          rw (e, collect_matches, recorded)
            (rw room (
              collect_matches-ids idx params ids (matches ++ m ∷ [])
              ∙ ap
                  (λ l.
                    l ++ take (match_limit params - length (matches ++ m ∷ [])) (recorded idx ids))
                  (match_ids-snoc idx params matches id node)
              ∙ append_assoc (match_ids matches) (id ∷ [])
                  (take (match_limit params - length (matches ++ m ∷ [])) (recorded idx ids))
              ∙ ap (λ l. match_ids matches ++ l)
                  (sym (
                    take-room (match_limit params - length matches)
                      (match_limit params - length (matches ++ m ∷ [])) id (recorded idx ids)
                      left))))
    ]
  ]

  -- The matches are the first of the search's hits that have a record, in order, as many as the limit,
  -- which is at most 200.
  pub build_context-matches :
      (idx : HotIndexes) (params : ContextParams)
      → let context = build_context lookup reconcile_done any_pending idx params in
        (match_ids context.matches
          ≡ take context.limit (recorded idx (search idx (context_query params))))
        × (context.limit ≤ 200)
  unfolding build_context
  build_context-matches idx params = (
    collect_matches-ids idx params (search idx (context_query params)) []
        ∙ ap (λ k. take k (recorded idx (search idx (context_query params)))) (omega arith),
    omega arith,
  )
