-- ===== src/Handlers/Related/Pages.antt =====
-- A page of related nodes among all of them.
use xgraph.Prelude.{
  ℕ, zero, suc, ◌+◌, ◌-◌, ltb, min, none, some, map, Option, List, [], ◌∷◌, ◌≡◌, refl, ap, arith,
  length, length-drop, take, drop, ◌∙◌, sym,
}
use xgraph.Indexes.State.{HotIndexes, NodeId}
use xgraph.Handlers.Related.{related_nodes_payload, page_bounds, summarize_node}

-- a start behind the end is as good as the end
drop-min {ℓ} : {A : Type ℓ} (n : ℕ) (xs : List A) → drop (min n (length xs)) xs ≡ drop n xs
drop-min zero [] = refl
drop-min zero (x ∷ xs) =
    let same : min zero (length (x ∷ xs)) ≡ zero = omega arith in ap (λ k. drop k (x ∷ xs)) same
drop-min (suc n) [] = let same : min (suc n) 0 ≡ 0 = omega arith in ap (λ k. drop k []) same
drop-min (suc n) (x ∷ xs) =
    let same : min (suc n) (length (x ∷ xs)) ≡ suc (min n (length xs)) = omega arith in
    ap (λ k. drop k (x ∷ xs)) same ∙ drop-min n xs

-- taking no more than there is changes nothing
take-min {ℓ} : {A : Type ℓ} (n : ℕ) (xs : List A) → take (min n (length xs)) xs ≡ take n xs
take-min zero [] = refl
take-min zero (x ∷ xs) =
    let same : min zero (length (x ∷ xs)) ≡ zero = omega arith in ap (λ k. take k (x ∷ xs)) same
take-min (suc n) [] = let same : min (suc n) 0 ≡ 0 = omega arith in ap (λ k. take k []) same
take-min (suc n) (x ∷ xs) =
    let same : min (suc n) (length (x ∷ xs)) ≡ suc (min n (length xs)) = omega arith in
    ap (λ k. take k (x ∷ xs)) same ∙ ap (λ l. x ∷ l) (take-min n xs)

take_same {ℓ} :
    {A : Type ℓ} (n m : ℕ) (xs : List A)
    → min n (length xs) ≡ min m (length xs)
    → take n xs ≡ take m xs
take_same n m xs h = sym (take-min n xs) ∙ ap (λ k. take k xs) h ∙ take-min m xs

length-drop_start {ℓ} :
    {A : Type ℓ} (n : ℕ) (xs : List A)
    → length (drop (min n (length xs)) xs) ≡ length xs - min n (length xs)
length-drop_start n xs = length-drop (min n (length xs)) xs

-- the number that is asked for, or the one that holds if none is
abbrev pub asked : Option ℕ → ℕ → ℕ
asked none default = default
asked (some n) default = n

page_lem :
    (ids : List NodeId) (limit offset : Option ℕ)
    → let bounds = page_bounds (length ids) offset limit 200 1000 in
      take bounds.1 (drop bounds.0 ids)
      ≡ take (min (asked limit 200) 1000) (drop (asked offset 0) ids)
unfolding page_bounds
page_lem ids (some n) none = ap (take (min n 1000)) (drop-min 0 ids)
page_lem ids (some n) (some k) = ap (take (min n 1000)) (drop-min k ids)
page_lem ids none none =
    take_same (min (min 200 (length ids - min 0 (length ids))) 1000) 200
      (drop (min 0 (length ids)) ids) (omega (arith, length-drop_start 0 ids))
    ∙ ap (take 200) (drop-min 0 ids)
page_lem ids none (some k) =
    take_same (min (min 200 (length ids - min k (length ids))) 1000) 200
      (drop (min k (length ids)) ids) (omega (arith, length-drop_start k ids))
    ∙ ap (take 200) (drop-min k ids)

truncated_lem :
    (ids : List NodeId) (limit offset : Option ℕ)
    → let bounds = page_bounds (length ids) offset limit 200 1000 in
      ltb (bounds.0 + bounds.1) (length ids)
      ≡ ltb (asked offset 0 + min (asked limit 200) 1000) (length ids)
unfolding page_bounds
truncated_lem ids (some n) none = ground arith
truncated_lem ids (some n) (some k) = ground arith
truncated_lem ids none none = ground arith
truncated_lem ids none (some k) = ground arith

-- The page holds, in order, the nodes from the requested offset on (from the first, if none is given),
-- as many as requested (200, if nothing is said) but at most 1000, each with its summary. It is marked
-- truncated exactly if nodes stand behind the page, and its total counts all the nodes.
pub related_nodes_payload_lem :
    (idx : HotIndexes) (ids : List NodeId) (limit offset : Option ℕ)
    → let page = related_nodes_payload idx ids limit offset in
      let wanted = take (min (asked limit 200) 1000) (drop (asked offset 0) ids) in
      (page.node_ids ≡ wanted)
      × (page.nodes ≡ map (summarize_node idx) wanted)
      × (page.truncated ≡ ltb (asked offset 0 + min (asked limit 200) 1000) (length ids))
      × (page.total ≡ length ids)
unfolding related_nodes_payload
related_nodes_payload_lem idx ids limit offset = (
  page_lem ids limit offset,
  ap (map (summarize_node idx)) (page_lem ids limit offset),
  truncated_lem ids limit offset,
  refl,
)
