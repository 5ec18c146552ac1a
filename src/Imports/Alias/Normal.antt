-- ===== src/Imports/Alias/Normal.antt =====
-- What `normalize_to_string` makes of a path.
use xgraph.Prelude.{
  ℕ, zero, suc, ◌+◌, ◌≤◌, List, [], ◌∷◌, ◌++◌, map, length, arith, ◌≡◌, refl, ap, ◌∙◌, append_assoc,
  append-nil, sym, subst, List-cases, inl, inr,
}
use xgraph.Text.{Text, text}
use xgraph.Imports.Alias.{
  root_dir, parent_dir, cur_dir, normal, Components, normal_parts, slashed, normalize_to_string,
  pop,
}

-- The names joined by slashes.
abbrev pub join_slash : List Text → Text
join_slash [] = []
join_slash (s ∷ []) = s
join_slash (s ∷ t ∷ rest) = s ++ b'/' ∷ join_slash (t ∷ rest)

abbrev pub reversed_onto : List Text → List Text → List Text
reversed_onto [] acc = acc
reversed_onto (s ∷ parts) acc = reversed_onto parts (s ∷ acc)

-- names as components, and steps up
abbrev pub names : List Text → Components
names parts = map normal parts

abbrev pub ups : ℕ → Components
ups zero = []
ups (suc n) = parent_dir ∷ ups n

normal_parts-append :
    (parts : List Text) (p q : Components)
    → normal_parts parts (p ++ q) ≡ normal_parts (normal_parts parts p) q
unfolding normal_parts
normal_parts-append parts [] q = refl
normal_parts-append parts (parent_dir ∷ p) q = normal_parts-append (pop parts) p q
normal_parts-append parts (cur_dir ∷ p) q = normal_parts-append parts p q
normal_parts-append parts (normal s ∷ p) q = normal_parts-append (s ∷ parts) p q
normal_parts-append parts (root_dir ∷ p) q = normal_parts-append (text "/" ∷ parts) p q

normal_parts-names : (parts ss : List Text) → normal_parts parts (names ss) ≡ reversed_onto ss parts
unfolding normal_parts
normal_parts-names parts [] = refl
normal_parts-names parts (s ∷ ss) = normal_parts-names (s ∷ parts) ss

-- the parts that are left when as many are dropped from the end
abbrev dropped : ℕ → List Text → List Text
dropped zero parts = parts
dropped (suc n) parts = dropped n (pop parts)

normal_parts-ups : (n : ℕ) (parts : List Text) → normal_parts parts (ups n) ≡ dropped n parts
unfolding normal_parts
normal_parts-ups zero parts = refl
normal_parts-ups (suc n) parts = normal_parts-ups n (pop parts)

dropped-append : (xs ys : List Text) → dropped (length xs) (xs ++ ys) ≡ ys
dropped-append [] ys = refl
dropped-append (x ∷ xs) ys = dropped-append xs ys

dropped-all : (n : ℕ) (xs : List Text) → length xs ≤ n → dropped n xs ≡ []
dropped-all zero [] h = refl
dropped-all zero (x ∷ xs) h = absurd (omega (arith, h))
dropped-all (suc n) [] h = dropped-all n [] (omega arith)
dropped-all (suc n) (x ∷ xs) h = dropped-all n xs (omega (arith, h))

reversed_onto-append :
    (xs ys acc : List Text) → reversed_onto (xs ++ ys) acc ≡ reversed_onto ys (reversed_onto xs acc)
reversed_onto-append [] ys acc = refl
reversed_onto-append (x ∷ xs) ys acc = reversed_onto-append xs ys (x ∷ acc)

reversed_onto-acc : (xs ys zs : List Text) → reversed_onto xs (ys ++ zs) ≡ reversed_onto xs ys ++ zs
reversed_onto-acc [] ys zs = refl
reversed_onto-acc (x ∷ xs) ys zs = reversed_onto-acc xs (x ∷ ys) zs

length-reversed_onto : (xs acc : List Text) → length (reversed_onto xs acc) ≡ length xs + length acc
length-reversed_onto [] acc = omega arith
length-reversed_onto (x ∷ xs) acc = omega (arith, length-reversed_onto xs (x ∷ acc))

join_slash-snoc :
    (x : Text) (xs : List Text) (s : Text)
    → join_slash ((x ∷ xs) ++ s ∷ []) ≡ join_slash (x ∷ xs) ++ b'/' ∷ s
join_slash-snoc x [] s = refl
join_slash-snoc x (y ∷ xs) s =
    ap (λ r. x ++ b'/' ∷ r) (join_slash-snoc y xs s)
    ∙ sym (append_assoc x (b'/' ∷ join_slash (y ∷ xs)) (b'/' ∷ s))

join_slash-snoc_parts :
    (t : Text) (parts : List Text) (s : Text)
    → join_slash (reversed_onto parts (t ∷ []) ++ s ∷ [])
      ≡ join_slash (reversed_onto parts (t ∷ [])) ++ b'/' ∷ s
join_slash-snoc_parts t parts s = elim (List-cases (reversed_onto parts (t ∷ []))) [
  | inl e ↦ absurd (omega (arith, length-reversed_onto parts (t ∷ []), ap length e))
  | inr (x, xs, e) ↦
      subst (λ l. join_slash (l ++ s ∷ []) ≡ join_slash l ++ b'/' ∷ s) (sym e)
        (join_slash-snoc x xs s)
]

slashed-parts :
    (parts : List Text) (s out : Text)
    → slashed (s ∷ parts) out ≡ join_slash (reversed_onto parts (s ∷ [])) ++ out
unfolding slashed
slashed-parts [] s out = refl
slashed-parts (t ∷ parts) s out =
    slashed-parts parts t (b'/' ∷ s ++ out)
    ∙ sym (append_assoc (join_slash (reversed_onto parts (t ∷ []))) (b'/' ∷ s) out)
    ∙ ap (λ r. r ++ out)
        (sym (join_slash-snoc_parts t parts s)
          ∙ ap join_slash (sym (reversed_onto-acc parts (t ∷ []) (s ∷ []))))

reversed_onto-twice_acc :
    (xs acc : List Text) → reversed_onto (reversed_onto xs acc) [] ≡ reversed_onto acc xs
reversed_onto-twice_acc [] acc = refl
reversed_onto-twice_acc (x ∷ xs) acc = reversed_onto-twice_acc xs (x ∷ acc)

reversed_onto-twice : (xs : List Text) → reversed_onto (reversed_onto xs []) [] ≡ xs
reversed_onto-twice xs = reversed_onto-twice_acc xs []

dropped-reversed : (up ys : List Text) → dropped (length up) (reversed_onto up [] ++ ys) ≡ ys
dropped-reversed up ys =
    let same : length (reversed_onto up []) ≡ length up =
      omega (arith, length-reversed_onto up []) in
    subst (λ n. dropped n (reversed_onto up [] ++ ys) ≡ ys) same
      (dropped-append (reversed_onto up []) ys)

slashed-reversed : (xs : List Text) → slashed (reversed_onto xs []) [] ≡ join_slash xs
unfolding slashed
slashed-reversed [] = refl
slashed-reversed (x ∷ xs) = elim (List-cases (reversed_onto (x ∷ xs) [])) [
  | inl e ↦ absurd (omega (arith, length-reversed_onto (x ∷ xs) [], ap length e))
  | inr (s, parts, e) ↦
      let twice = reversed_onto-twice (x ∷ xs) in
      ap (λ l. slashed l []) e
      ∙ slashed-parts parts s []
      ∙ append-nil (join_slash (reversed_onto parts (s ∷ [])))
      ∙ ap (λ l. join_slash (reversed_onto l [])) (sym e)
      ∙ ap join_slash twice
]

-- Steps up behind a directory drop its innermost names, and the names behind them follow the rest.
pub normalize-climb :
    (base up rest : List Text)
    → normalize_to_string (names (base ++ up) ++ (ups (length up) ++ names rest))
      ≡ join_slash (base ++ rest)
unfolding normalize_to_string
normalize-climb base up rest =
    ap (λ l. slashed l [])
      (normal_parts-append [] (names (base ++ up)) (ups (length up) ++ names rest)
        ∙ ap (λ l. normal_parts l (ups (length up) ++ names rest))
            (normal_parts-names [] (base ++ up)
              ∙ reversed_onto-append base up []
              ∙ reversed_onto-acc up [] (reversed_onto base []))
        ∙ normal_parts-append (reversed_onto up [] ++ reversed_onto base []) (ups (length up))
            (names rest)
        ∙ ap (λ l. normal_parts l (names rest))
            (normal_parts-ups (length up) (reversed_onto up [] ++ reversed_onto base [])
              ∙ dropped-reversed up (reversed_onto base []))
        ∙ normal_parts-names (reversed_onto base []) rest
        ∙ sym (reversed_onto-append base rest []))
    ∙ slashed-reversed (base ++ rest)

-- Steps up past the first component stay there: the names behind them are all that is left.
pub normalize-too_far :
    (dir : List Text) (n : ℕ) (rest : List Text)
    → length dir ≤ n
    → normalize_to_string (names dir ++ (ups n ++ names rest)) ≡ join_slash rest
unfolding normalize_to_string
normalize-too_far dir n rest far =
    ap (λ l. slashed l [])
      (normal_parts-append [] (names dir) (ups n ++ names rest)
        ∙ normal_parts-append (normal_parts [] (names dir)) (ups n) (names rest)
        ∙ ap (λ l. normal_parts l (names rest))
            (normal_parts-ups n (normal_parts [] (names dir))
              ∙ ap (dropped n) (normal_parts-names [] dir)
              ∙ dropped-all n (reversed_onto dir []) (omega (arith, length-reversed_onto dir [])))
        ∙ normal_parts-names [] rest)
    ∙ slashed-reversed rest
