-- ===== src/Imports/Python/Climbing.antt =====
-- Leading dots climb from the importing file's directory.

use xgraph.Prelude.{
  ℕ, zero, suc, ◌<◌, true, false, ◌||◌, Option, none, some, [], ◌∷◌, ◌++◌, if◌then◌else◌, nat_key,
  list_key, is_empty, contains, drop, length, arith, ◌≡◌, refl, ap, ◌∙◌, append_assoc, Option-cases,
  inl, inr,
}
use xgraph.Text.{Text, text_key}
use xgraph.Map.{All}
use xgraph.Imports.Python.{
  RelPath, rel_path_key, PythonImportResolver, leading_dots, parent, climb, join_dots, resolve_from,
  resolve_relative, resolve, head_path, first_segment, is_package_or_module,
}

abbrev pub dots : ℕ → Text
dots zero = []
dots (suc n) = b'.' ∷ dots n

leading_dots-append :
    (n : ℕ) (rest : Text) → leading_dots rest ≡ 0 → leading_dots (dots n ++ rest) ≡ n
unfolding leading_dots
leading_dots-append zero rest h = h
leading_dots-append (suc n) rest h = ap suc (leading_dots-append n rest h)

drop-dots : (n : ℕ) (rest : Text) → drop n (dots n ++ rest) ≡ rest
drop-dots zero rest = refl
drop-dots (suc n) rest = drop-dots n rest

parent-snoc : (p : RelPath) (c : Text) → parent (p ++ c ∷ []) ≡ some p
unfolding parent
parent-snoc [] c = refl
parent-snoc (b ∷ []) c = refl
parent-snoc (b ∷ d ∷ p) c = rw (parent-snoc (d ∷ p) c) refl

-- `up` written from its end: the directories that a climb leaves, innermost first
abbrev pub below : RelPath → RelPath → RelPath
below base [] = base
below base (c ∷ up) = below base up ++ c ∷ []

climb-below : (base up : RelPath) → climb (length up) (below base up) ≡ some base
unfolding climb
climb-below base [] = refl
climb-below base (c ∷ up) = rw (parent-snoc (below base up) c, climb) (climb-below base up)

parent-length : (p up : RelPath) → parent p ≡ some up → length p ≡ suc (length up)
unfolding parent
parent-length [] up h = ground arith
parent-length (c ∷ []) up h = ground (arith, h)
parent-length (c ∷ d ∷ p) up h = elim (Option-cases (parent (d ∷ p))) [
  | inl none' ↦ absurd (ground (arith, none', h))
  | inr (q, e) ↦ ground (arith, e, h, parent-length (d ∷ p) q e)
]

climb-too_far : (n : ℕ) (p : RelPath) → length p < n → climb n p ≡ none
unfolding climb
climb-too_far zero p h = absurd (omega (arith, h))
climb-too_far (suc n) p h = elim (Option-cases (parent p)) [
  | inl top ↦ rw (top, climb) refl
  | inr (up, e) ↦ rw (e, climb) (climb-too_far n up (omega (arith, parent-length p up e)))
]

join_dots-snoc :
    (c : Text) (p : RelPath) (rest : Text)
    → join_dots (c ∷ p) ++ b'.' ∷ rest ≡ join_dots ((c ∷ p) ++ rest ∷ [])
unfolding join_dots
join_dots-snoc c [] rest = refl
join_dots-snoc c (d ∷ p) rest =
    append_assoc c (b'.' ∷ join_dots (d ∷ p)) (b'.' ∷ rest)
    ∙ ap (λ s. c ++ b'.' ∷ s) (join_dots-snoc d p rest)

-- Every component of a path is a name.
abbrev pub Named : RelPath → Type 0
Named p = All (λ c. is_empty c ≡ false) p

join_dots-Named : (c : Text) (p : RelPath) → Named (c ∷ p) → is_empty (join_dots (c ∷ p)) ≡ false
unfolding join_dots
join_dots-Named c [] h = h.0
join_dots-Named [] (d ∷ p) h = refl
join_dots-Named (b ∷ c) (d ∷ p) h = refl

resolve_from-names :
    (self : PythonImportResolver) (base : RelPath) (rest : Text)
    → Named base
    → (contains self.packages base || is_empty base) ≡ true
    → is_empty rest ≡ false
    → resolve_from self base rest ≡ some (join_dots (base ++ rest ∷ []))
unfolding resolve_from
resolve_from-names self [] rest h known some' = ground (arith, known, some')
resolve_from-names self (c ∷ p) rest h known some' =
    ground (arith, known, some', join_dots-Named c p h, join_dots-snoc c p rest)

at_dots :
    (n m : ℕ) (o : Option Text) (f : ℕ → Option Text)
    → m ≡ suc n
    → elim m [ zero ↦ o | suc k ↦ f k ] ≡ f n
at_dots n zero o f h = absurd (omega (arith, h))
at_dots n (suc m) o f h = ap f (omega (arith, h))

resolve-dots :
    (self : PythonImportResolver) (f : RelPath) (n : ℕ) (rest : Text)
    → leading_dots rest ≡ 0
    → resolve self f (dots (suc n) ++ rest) ≡ resolve_relative self f n rest
unfolding resolve
resolve-dots self f n rest plain =
    let m = dots (suc n) ++ rest in
    let head = head_path (first_segment m) in
    let absolute : Option Text =
      if contains self.packages head || is_package_or_module self.packages head
      then some m
      else none in
    at_dots n (leading_dots m) absolute (λ k. resolve_relative self f k (drop (suc k) m))
      (leading_dots-append (suc n) rest plain)
    ∙ ap (λ r. resolve_relative self f n r) (drop-dots n rest)

-- An import with one dot more than the directories left climbs to the directory that is left. If
-- that is a package or the root, the import stands for its dotted path, with the rest behind it.
pub resolve-relative :
    (self : PythonImportResolver) (base up : RelPath) (file rest : Text)
    → Named base
    → (contains self.packages base || is_empty base) ≡ true
    → leading_dots rest ≡ 0
    → is_empty rest ≡ false
    → resolve self (below base up ++ file ∷ []) (dots (suc (length up)) ++ rest)
      ≡ some (join_dots (base ++ rest ∷ []))
unfolding resolve_relative
resolve-relative self base up file rest h known plain some' =
    resolve-dots self (below base up ++ file ∷ []) (length up) rest plain
    ∙ ground (
      arith,
      parent-snoc (below base up) file,
      climb-below base up,
      resolve_from-names self base rest h known some',
    )

-- An import with more dots than the importing file's path has components resolves to nothing.
pub resolve-too_far :
    (self : PythonImportResolver) (dir : RelPath) (file rest : Text) (n : ℕ)
    → leading_dots rest ≡ 0
    → length dir < n
    → resolve self (dir ++ file ∷ []) (dots (suc n) ++ rest) ≡ none
unfolding resolve_relative
resolve-too_far self dir file rest n plain far =
    resolve-dots self (dir ++ file ∷ []) n rest plain
    ∙ ground (arith, parent-snoc dir file, climb-too_far n dir far)
