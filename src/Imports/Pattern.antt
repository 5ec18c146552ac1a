-- ===== src/Imports/Pattern.antt =====
-- import_resolver.rs `match_pattern` and `substitute_target`. Slicing with the start behind the end
-- is a panic, as in the source.
use mathlib.Core.Path.{ap₂}
use xgraph.Prelude.{
  ℕ, zero, suc, ◌-◌, ◌≤◌, ◌≡◌, refl, Bool, true, ◌&&◌, Option, none, some, [], ◌∷◌, ◌++◌, ◌==◌,
  ==_iff, if◌then◌else◌, leb, length, take, drop, arith, nat_key, Bool-cases, inl, inr,
  append_assoc, ap, ◌∙◌, sym, Option-cases,
}
use xgraph.Text.{Text, text_key, starts_with}

pub data Matched : Type 0 where
  captured : Text → Matched
  no_match panicked : Matched

-- `pattern.find('*')`, as the text before and behind it
unfoldable pub split_star : Text → Option (Text × Text)
split_star [] = none
split_star (c ∷ s) =
    if c == b'*'
    then some ([], s)
    else elim (split_star s) [ none ↦ none | some (p, q) ↦ some (c ∷ p, q) ]

-- `str::ends_with`
unfoldable pub ends_with : Text → Text → Bool
ends_with s suffix = leb (length suffix) (length s) && drop (length s - length suffix) s == suffix

-- `&s[start..end]` for an end within `s`
unfoldable pub slice : Text → ℕ → ℕ → Option Text
slice s start end = if leb start end then some (take (end - start) (drop start s)) else none

unfoldable pub match_pattern : Text → Text → Matched
unfolding split_star ends_with slice
match_pattern pattern input = elim (split_star pattern) [
  | some (prefix, suffix) ↦
      if starts_with input prefix && ends_with input suffix
      then elim (slice input (length prefix) (length input - length suffix)) [
        | some c ↦ captured c
        | none ↦ panicked
      ]
      else no_match
  | none ↦ if pattern == input then captured [] else no_match
]

-- `target.replace('*', captured)`
unfoldable pub substitute_target : Text → Text → Text
substitute_target [] part = []
substitute_target (c ∷ target) part =
    (if c == b'*' then part else c ∷ []) ++ substitute_target target part

take-append-drop : (n : ℕ) (s : Text) → take n s ++ drop n s ≡ s
take-append-drop zero s = refl
take-append-drop (suc n) [] = refl
take-append-drop (suc n) (c ∷ s) = ap (λ r. c ∷ r) (take-append-drop n s)

-- a prefix, what stands between it and an index, and the rest
middle :
    (p s : Text) (n : ℕ)
    → starts_with s p ≡ true
    → length p ≤ n
    → p ++ (take (n - length p) (drop (length p) s) ++ drop n s) ≡ s
unfolding starts_with
middle [] s n st h = ap (λ k. take k s ++ drop n s) (omega arith) ∙ take-append-drop n s
middle (c ∷ p) [] n st h = absurd (cc st)
middle (c ∷ p) (b ∷ s) zero st h = absurd (omega arith)
middle (c ∷ p) (b ∷ s) (suc n) st h =
    let same : b ≡ c = ground (arith, st, ==_iff b c) in
    let ih = middle p s n (ground (arith, st)) (omega arith) in
    ap (λ k. c ∷ (p ++ (take k (drop (length p) s) ++ drop n s))) (omega arith)
    ∙ ap (λ r. c ∷ r) ih
    ∙ ap (λ x. x ∷ s) (sym same)

split_star_sound : (s p q : Text) → split_star s ≡ some (p, q) → s ≡ p ++ b'*' ∷ q
unfolding split_star
split_star_sound [] p q h = ground arith
split_star_sound (c ∷ s) p q h = elim (Bool-cases (c == b'*')) [
  | inl star ↦ ground (arith, star, h, ==_iff c b'*')
  | inr other ↦ elim (Option-cases (split_star s)) [
    | inl none' ↦ absurd (ground (arith, other, none', h))
    | inr ((p', q'), e) ↦ let ih = split_star_sound s p' q' e in ground (arith, other, e, h, ih)
  ]
]

substitute-append :
    (s t c : Text) → substitute_target (s ++ t) c ≡ substitute_target s c ++ substitute_target t c
unfolding substitute_target
substitute-append [] t c = refl
substitute-append (b ∷ s) t c = rw (substitute-append s t c) (
    sym (
      append_assoc (if b == b'*' then c else b ∷ []) (substitute_target s c)
        (substitute_target t c)))

substitute_none : (s c : Text) → split_star s ≡ none → substitute_target s c ≡ s
unfolding substitute_target split_star
substitute_none [] c h = refl
substitute_none (b ∷ s) c h = elim (Bool-cases (b == b'*')) [
  | inl star ↦ absurd (ground (arith, star, h))
  | inr other ↦ rw other (
      ap (λ r. b ∷ r)
        (substitute_none s c (elim (Option-cases (split_star s)) [
          | inl none' ↦ none'
          | inr (pq, e) ↦ absurd (ground (arith, other, e, h))
        ])))
]

substitute_star : (q c : Text) → split_star q ≡ none → substitute_target (b'*' ∷ q) c ≡ c ++ q
unfolding substitute_target
substitute_star q c h = ap (λ x. c ++ x) (substitute_none q c h)

split_star_prefix : (s p q : Text) → split_star s ≡ some (p, q) → split_star p ≡ none
unfolding split_star
split_star_prefix [] p q h = ground arith
split_star_prefix (c ∷ s) p q h = elim (Bool-cases (c == b'*')) [
  | inl star ↦ ground (arith, star, h)
  | inr other ↦ elim (Option-cases (split_star s)) [
    | inl none' ↦ absurd (ground (arith, other, none', h))
    | inr ((p', q'), e) ↦ ground (arith, other, e, h, split_star_prefix s p' q' e)
  ]
]

-- A pattern has at most one wildcard.
abbrev pub SingleStar : Text → Type 0
SingleStar pattern = (p q : Text) → split_star pattern ≡ some (p, q) → split_star q ≡ none

captured_lem :
    (pattern input c p q : Text)
    → split_star pattern ≡ some (p, q)
    → match_pattern pattern input ≡ captured c
    → p ++ (c ++ q) ≡ input
unfolding match_pattern ends_with slice
captured_lem pattern input c p q e h =
    let end = length input - length q in
    let st : starts_with input p ≡ true = ground (arith, e, h) in
    let tail : drop end input ≡ q = ground (arith, e, h, ==_iff (drop end input) q) in
    let start : leb (length p) end ≡ true = ground (arith, e, h) in
    let cut : take (end - length p) (drop (length p) input) ≡ c = ground (arith, e, h) in
    let le : length p ≤ end = ground (arith, start) in
    ap₂ (λ x y. p ++ (x ++ y)) (sym cut) (sym tail) ∙ middle p input end st le

plain_lem :
    (pattern input c : Text)
    → split_star pattern ≡ none
    → match_pattern pattern input ≡ captured c
    → pattern ≡ input
unfolding match_pattern
plain_lem pattern input c plain h = ground (arith, plain, h, ==_iff pattern input)

-- Putting a captured text back in the place of the wildcard gives the import string again, for
-- patterns with at most one wildcard.
pub substitute-match_pattern :
    (pattern input c : Text)
    → SingleStar pattern
    → match_pattern pattern input ≡ captured c
    → substitute_target pattern c ≡ input
substitute-match_pattern pattern input c single h = elim (Option-cases (split_star pattern)) [
  | inl plain ↦ substitute_none pattern c plain ∙ plain_lem pattern input c plain h
  | inr ((p, q), e) ↦
      ap (λ s. substitute_target s c) (split_star_sound pattern p q e)
      ∙ substitute-append p (b'*' ∷ q) c
      ∙ ap₂ (λ x y. x ++ y) (substitute_none p c (split_star_prefix pattern p q e))
          (substitute_star q c (single p q e))
      ∙ captured_lem pattern input c p q e h
]
