-- ===== src/Handlers/Related/Members.antt =====
-- What `aggregate_member_related` gathers.

use xgraph.Prelude.{
  ℕ, ◌≤◌, max, leb, Bool, true, false, ◌||◌, List, [], ◌∷◌, ◌++◌, ◌≡◌, refl, ap, arith, length, map,
  contains, contains-append, length-append, ◌==◌, ==_iff, Distinct, Distinct-snoc, Bool-cases, inl,
  inr, ◌∙◌, sym, ◌<◌, ◌⊎◌, subst,
}
use xgraph.Text.{text_key}
use xgraph.Indexes.State.{HotIndexes, NodeId}
use xgraph.Handlers.Related.{
  Summary, summarize_node, RelatedDirection, related, Gathered, full, open_, gather_related,
  gather_members, aggregate_member_related,
}

abbrev pub node_ids_of : List Summary → List NodeId
node_ids_of out = map (λ s. s.node_id) out

-- The node is next to one of the members.
unfoldable pub next_to : HotIndexes → RelatedDirection → List NodeId → NodeId → Bool
unfolding contains
next_to idx direction [] id = false
next_to idx direction (member ∷ rest) id =
    contains (related idx direction member) id || next_to idx direction rest id

-- No id twice, none of a member, and none that is not next to a member; at most `limit` of them, or
-- one where the limit is zero.
pub record Fine (idx : HotIndexes) (direction : RelatedDirection) (members : List NodeId)
    (limit : ℕ) (out : List Summary) : Type 0 where
  pub distinct : Distinct (node_ids_of out)
  pub near :
      (id : NodeId) → contains (node_ids_of out) id ≡ true → next_to idx direction members id ≡ true
  pub outside : (id : NodeId) → contains (node_ids_of out) id ≡ true → contains members id ≡ false
  pub short : length out ≤ max 1 limit

-- Between two steps: what was seen is what was pushed, and the limit is not reached.
record Open (idx : HotIndexes) (direction : RelatedDirection) (members : List NodeId) (limit : ℕ)
    (seen : List NodeId) (out : List Summary) : Type 0 where
  fine : Fine idx direction members limit out
  same : (id : NodeId) → contains seen id ≡ contains (node_ids_of out) id
  room : (length out ≡ 0) ⊎ (length out < limit)

node_ids_of-snoc :
    (idx : HotIndexes) (out : List Summary) (id : NodeId)
    → node_ids_of (out ++ summarize_node idx id ∷ []) ≡ node_ids_of out ++ id ∷ []
unfolding summarize_node
node_ids_of-snoc idx [] id = refl
node_ids_of-snoc idx (s ∷ out) id = ap (λ l. s.node_id ∷ l) (node_ids_of-snoc idx out id)

-- The ids stay, and each of the list is a member or gathered.
abbrev Covers : List NodeId → List NodeId → List Summary → List Summary → Type 0
Covers members rest before out =
    ((id : NodeId) → contains (node_ids_of before) id ≡ true → contains (node_ids_of out) id ≡ true)
    × ((id : NodeId)
        → contains rest id ≡ true
        → (contains members id || contains (node_ids_of out) id) ≡ true)

module _ (idx : HotIndexes) (direction : RelatedDirection) (members : List NodeId) (limit : ℕ) where
  contains-pushed :
      (out : List Summary) (id x : NodeId)
      → contains (node_ids_of (out ++ summarize_node idx id ∷ [])) x
        ≡ (contains (node_ids_of out) x || id == x)
  unfolding contains
  contains-pushed out id x =
      ap (λ l. contains l x) (node_ids_of-snoc idx out id)
      ∙ ground (arith, contains-append (node_ids_of out) (id ∷ []) x)

  Fine-push :
      (seen : List NodeId) (out : List Summary) (id : NodeId)
      → Open idx direction members limit seen out
      → next_to idx direction members id ≡ true
      → contains members id ≡ false
      → contains seen id ≡ false
      → Fine idx direction members limit (out ++ summarize_node idx id ∷ [])
  Fine-push seen out id o near' apart new = record {
    distinct =
        subst Distinct (sym (node_ids_of-snoc idx out id))
          (Distinct-snoc (node_ids_of out) id o.fine.distinct (ground (arith, o.same id, new)));
    near = λ x h. ground (arith, contains-pushed out id x, o.fine.near x, ==_iff id x, h, near');
    outside =
        λ x h. ground (arith, contains-pushed out id x, o.fine.outside x, ==_iff id x, h, apart);
    short = ground (arith, length-append out (summarize_node idx id ∷ []), o.room);
  }

  Open-push :
      (seen : List NodeId) (out : List Summary) (id : NodeId)
      → Open idx direction members limit seen out
      → Fine idx direction members limit (out ++ summarize_node idx id ∷ [])
      → leb limit (length (out ++ summarize_node idx id ∷ [])) ≡ false
      → Open idx direction members limit (id ∷ seen) (out ++ summarize_node idx id ∷ [])
  unfolding contains
  Open-push seen out id o f h = record {
    fine = f;
    same = λ x. ground (arith, contains-pushed out id x, o.same x);
    room = inr (ground (arith, h));
  }

  -- what the loop over one member's neighbours ends in
  abbrev After : List NodeId → List Summary → Gathered → Type 0
  After rest before (full out) = Fine idx direction members limit out × (limit ≤ length out)
  After rest before (open_ seen out) =
      Open idx direction members limit seen out × Covers members rest before out

  After-cons :
      (id : NodeId) (rest : List NodeId) (before before' : List Summary) (g : Gathered)
      → ((x : NodeId)
          → contains (node_ids_of before) x ≡ true
          → contains (node_ids_of before') x ≡ true)
      → (contains members id || contains (node_ids_of before') id) ≡ true
      → After rest before' g
      → After (id ∷ rest) before g
  unfolding contains
  After-cons id rest before before' (full out) keep here a = a
  After-cons id rest before before' (open_ seen out) keep here (o, (kept, covers)) = (
    o,
    ((λ x h. kept x (keep x h)), (λ x h. ground (arith, h, here, kept id, covers x, ==_iff id x))),
  )

  gather_related-After :
      (rest seen : List NodeId) (out : List Summary)
      → Open idx direction members limit seen out
      → ((id : NodeId) → contains rest id ≡ true → next_to idx direction members id ≡ true)
      → After rest out (gather_related idx members limit rest seen out)
  unfolding gather_related contains
  gather_related-After [] seen out o near' =
      (o, ((λ id h. h), (λ id h. absurd (ground (arith, h)))))
  gather_related-After (id ∷ rest) seen out o near' =
      let near_id : next_to idx direction members id ≡ true =
        near' id (ground (arith, ==_iff id id)) in
      let near_rest : (x : NodeId)
          → contains rest x ≡ true
          → next_to idx direction members x ≡ true =
        λ x h. near' x (ground (arith, h)) in
      elim (Bool-cases (contains members id || contains seen id)) [
        | inl skip ↦
            rw (skip, gather_related)
              (After-cons id rest out out (gather_related idx members limit rest seen out)
                (λ x h. h) (ground (arith, skip, o.same id))
                (gather_related-After rest seen out o near_rest))
        | inr new ↦
            let f = Fine-push seen out id o near_id (ground (arith, new)) (ground (arith, new)) in
            elim (Bool-cases (leb limit (length (out ++ summarize_node idx id ∷ [])))) [
              | inl reached ↦ rw (new, gather_related) (rw reached (f, ground (arith, reached)))
              | inr room ↦
                  rw (new, gather_related)
                    (rw room (
                      After-cons id rest out (out ++ summarize_node idx id ∷ [])
                        (gather_related idx members limit rest (id ∷ seen)
                          (out ++ summarize_node idx id ∷ []))
                        (λ x h. ground (arith, contains-pushed out id x, h))
                        (ground (arith, contains-pushed out id id, ==_iff id id))
                        (gather_related-After rest (id ∷ seen) (out ++ summarize_node idx id ∷ [])
                          (Open-push seen out id o f room) near_rest)))
            ]
      ]

  -- what the loop over the members returns
  abbrev Returned : List NodeId → List Summary → List Summary → Type 0
  Returned rest before out =
      Fine idx direction members limit out
      × ((limit ≤ length out)
          ⊎ (((id : NodeId)
                → contains (node_ids_of before) id ≡ true
                → contains (node_ids_of out) id ≡ true)
              × ((id : NodeId)
                  → next_to idx direction rest id ≡ true
                  → (contains members id || contains (node_ids_of out) id) ≡ true)))

  gather_rest :
      (member : NodeId) (rest : List NodeId) (before : List Summary) (g : Gathered)
      → After (related idx direction member) before g
      → ((seen : List NodeId) (out : List Summary)
          → Open idx direction members limit seen out
          → Returned rest out (gather_members idx direction members limit rest seen out))
      → Returned (member ∷ rest) before (elim g [
        | full out ↦ out
        | open_ seen out ↦ gather_members idx direction members limit rest seen out
      ])
  unfolding next_to
  gather_rest member rest before (full out) (f, reached) go = (f, inl reached)
  gather_rest member rest before (open_ seen out) (o, (kept, covers)) go =
      let out' = gather_members idx direction members limit rest seen out in
      let (f, result) = go seen out o in
      elim result [
        | inl reached ↦ (f, inl reached)
        | inr (kept', later) ↦ (
          f,
          inr (
            (λ id h. kept' id (kept id h)),
            (λ id h. ground (arith, covers id, kept' id, later id, h)),
          ),
        )
      ]

  gather_members-Returned :
      (rest seen : List NodeId) (out : List Summary)
      → Open idx direction members limit seen out
      → ((id : NodeId)
          → next_to idx direction rest id ≡ true
          → next_to idx direction members id ≡ true)
      → Returned rest out (gather_members idx direction members limit rest seen out)
  unfolding gather_members next_to
  gather_members-Returned [] seen out o near' =
      (o.fine, inr ((λ id h. h), (λ id h. absurd (ground (arith, h)))))
  gather_members-Returned (member ∷ rest) seen out o near' =
      gather_rest member rest out
        (gather_related idx members limit (related idx direction member) seen out)
        (gather_related-After (related idx direction member) seen out o
          (λ id h. near' id (ground (arith, h))))
        (λ seen' out' o'.
          gather_members-Returned rest seen' out' o' (λ id h. near' id (ground (arith, h))))

-- The neighbours of a type's members come without repetitions, without the members themselves, and
-- each is next to a member. There are at most `limit` of them, or one where the limit is zero; if
-- there are fewer than the limit, none is left out.
pub aggregate_member_related_lem :
    (idx : HotIndexes) (members : List NodeId) (direction : RelatedDirection) (limit : ℕ)
    → let out = aggregate_member_related idx members direction limit in
      Fine idx direction members limit out
      × ((limit ≤ length out)
          ⊎ ((id : NodeId)
              → next_to idx direction members id ≡ true
              → (contains members id || contains (node_ids_of out) id) ≡ true))
unfolding aggregate_member_related contains
aggregate_member_related_lem idx members direction limit =
    let start : Open idx direction members limit [] [] = record {
      fine = record {
        distinct = tt;
        near = λ id h. absurd (ground (arith, h));
        outside = λ id h. absurd (ground (arith, h));
        short = omega arith;
      };
      same = λ id. refl;
      room = inl refl;
    } in
    let result =
      gather_members-Returned idx direction members limit members [] [] start (λ id h. h) in
    (result.0, elim result.1 [ inl reached ↦ inl reached | inr (kept, all) ↦ inr all ])
