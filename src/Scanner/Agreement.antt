-- ===== src/Scanner/Agreement.antt =====
-- The scanner's languages against those of the registry.
use xgraph.Prelude.{
  ℕ, zero, suc, subst, list_beq, length, ◌-◌, Bool, true, false, ◌||◌, Option, none, some, [], ◌∷◌,
  drop, take, ◌++◌, if◌then◌else◌, ◌==◌, ==_iff, ◌≡◌, refl, arith, Option-cases, Bool-cases, inl,
  inr, ap, sym, ◌∙◌, nat_key,
}
use xgraph.Text.{Text, text, text_key, lower, to_ascii_lowercase}
use xgraph.Language.{
  LanguageId, extension, behind_last_dot, is_char_boundary, has_suffix_ignore_case,
  language_of_extension, detect_language_by_path,
}
use xgraph.Scanner.{DetectedLanguage, ends_with, language_of, detect_language}

-- The scanner's name of a language.
abbrev pub as_detected : LanguageId → DetectedLanguage
as_detected LanguageId.php = DetectedLanguage.php
as_detected LanguageId.blade = DetectedLanguage.blade
as_detected LanguageId.java_script = DetectedLanguage.java_script
as_detected LanguageId.type_script = DetectedLanguage.type_script
as_detected LanguageId.tsx = DetectedLanguage.tsx
as_detected LanguageId.python = DetectedLanguage.python
as_detected LanguageId.go = DetectedLanguage.go
as_detected LanguageId.rust = DetectedLanguage.rust

-- The extensions that only the registry knows.
abbrev pub unscanned : Text → Bool
unscanned ext = ext == text "jsx" || ext == text "mts" || ext == text "cts" || ext == text "pyi"

abbrev expected : Text → Option LanguageId → Option DetectedLanguage
expected ext none = none
expected ext (some l) = if unscanned ext then none else some (as_detected l)

abbrev Agrees : Text → Type 0
Agrees ext = language_of ext ≡ expected ext (language_of_extension ext)

at_jsx : Agrees (text "jsx")
unfolding language_of language_of_extension list_beq
at_jsx = refl

at_mts : Agrees (text "mts")
unfolding language_of language_of_extension list_beq
at_mts = refl

at_cts : Agrees (text "cts")
unfolding language_of language_of_extension list_beq
at_cts = refl

at_pyi : Agrees (text "pyi")
unfolding language_of language_of_extension list_beq
at_pyi = refl

language_of_lem : (ext : Text) → Agrees ext
unfolding language_of language_of_extension
language_of_lem ext = elim (Bool-cases (ext == text "jsx")) [
  | inl e ↦ subst Agrees (sym ((==_iff ext (text "jsx")).0 e)) at_jsx
  | inr a ↦ elim (Bool-cases (ext == text "mts")) [
    | inl e ↦ subst Agrees (sym ((==_iff ext (text "mts")).0 e)) at_mts
    | inr b ↦ elim (Bool-cases (ext == text "cts")) [
      | inl e ↦ subst Agrees (sym ((==_iff ext (text "cts")).0 e)) at_cts
      | inr c ↦ elim (Bool-cases (ext == text "pyi")) [
        | inl e ↦ subst Agrees (sym ((==_iff ext (text "pyi")).0 e)) at_pyi
        | inr d ↦ ground (arith, a, b, c, d)
      ]
    ]
  ]
]

length-lower : (s : Text) → length (lower s) ≡ length s
unfolding lower
length-lower [] = refl
length-lower (c ∷ s) = ap suc (length-lower s)

drop-lower : (n : ℕ) (s : Text) → drop n (lower s) ≡ lower (drop n s)
unfolding lower
drop-lower zero s = refl
drop-lower (suc n) [] = refl
drop-lower (suc n) (c ∷ s) = drop-lower n s

lower-dot : (c : ℕ) → (to_ascii_lowercase c == b'.') ≡ (c == b'.')
unfolding to_ascii_lowercase
lower-dot c = ground arith

abbrev lowered : Option Text → Option Text
lowered none = none
lowered (some s) = some (lower s)

behind_last_dot-lower : (s : Text) → behind_last_dot (lower s) ≡ lowered (behind_last_dot s)
unfolding behind_last_dot lower
behind_last_dot-lower [] = refl
behind_last_dot-lower (c ∷ s) =
    ground (arith, behind_last_dot-lower s, lower-dot c, Option-cases (behind_last_dot s))

extension-lower : (s : Text) → extension (lower s) ≡ lowered (extension s)
unfolding extension lower
extension-lower [] = refl
extension-lower (c ∷ s) = behind_last_dot-lower s

boundary-lower : (s : Text) → is_char_boundary (lower s) ≡ is_char_boundary s
unfolding is_char_boundary lower to_ascii_lowercase
boundary-lower [] = refl
boundary-lower (c ∷ s) = ground arith

abbrev suffix : Text
suffix = text ".blade.php"

lower-suffix : lower suffix ≡ suffix
unfolding lower to_ascii_lowercase
lower-suffix = refl

boundary-suffix : is_char_boundary suffix ≡ true
unfolding is_char_boundary
boundary-suffix = refl

-- Inside a character no suffix of ASCII bytes matches.
at_boundary : (end : Text) → (lower end == suffix) ≡ true → is_char_boundary end ≡ true
at_boundary end h =
    sym (boundary-lower end)
    ∙ ap is_char_boundary ((==_iff (lower end) suffix).0 h)
    ∙ boundary-suffix

suffix_lem : (name : Text) → ends_with (lower name) suffix ≡ has_suffix_ignore_case name suffix
unfolding ends_with has_suffix_ignore_case
suffix_lem name =
    let end = drop (length name - length suffix) name in
    rw (length-lower name) (
      rw (drop-lower (length name - length suffix) name)
        (rw lower-suffix (ground (arith, at_boundary end, Bool-cases (lower end == suffix)))))

-- The extension of a file name, in lower case.
abbrev pub known_extension : Text → Text
known_extension name = elim (extension name) [ none ↦ [] | some ext ↦ lower ext ]

registry_form :
    (name : Text)
    → detect_language_by_path (some name) ≡ (
        if has_suffix_ignore_case name suffix
        then some LanguageId.blade
        else elim (extension name) [ none ↦ none | some e ↦ language_of_extension (lower e) ])
unfolding detect_language_by_path
registry_form name = refl

scanner_form :
    (name : Text)
    → detect_language (some name) ≡ (
        if ends_with (lower name) suffix
        then some DetectedLanguage.blade
        else elim (extension (lower name)) [ none ↦ none | some ext ↦ language_of ext ])
unfolding detect_language
scanner_form name = refl

take_and_drop : (n : ℕ) (s : Text) → take n s ++ drop n s ≡ s
take_and_drop zero s = refl
take_and_drop (suc n) [] = refl
take_and_drop (suc n) (c ∷ s) = ap (λ l. c ∷ l) (take_and_drop n s)

behind_last_dot-append :
    (front s ext : Text) → behind_last_dot s ≡ some ext → behind_last_dot (front ++ s) ≡ some ext
unfolding behind_last_dot
behind_last_dot-append [] s ext h = h
behind_last_dot-append (c ∷ front) s ext h = rw (behind_last_dot-append front s ext h) refl

-- Behind a template's last dot stands `php`.
extension-suffix : (front : Text) → extension (front ++ suffix) ≡ some (text "php")
unfolding extension behind_last_dot
extension-suffix [] = refl
extension-suffix (c ∷ front) = behind_last_dot-append front suffix (text "php") refl

template_extension :
    (name : Text)
    → ends_with (lower name) suffix ≡ true
    → extension (lower name) ≡ some (text "php")
unfolding ends_with
template_extension name h =
    let n = length (lower name) - length suffix in
    let end : drop n (lower name) ≡ suffix =
      (==_iff (drop n (lower name)) suffix).0 (ground (arith, h)) in
    let whole : take n (lower name) ++ suffix ≡ lower name =
      ap (λ l. take n (lower name) ++ l) (sym end) ∙ take_and_drop n (lower name) in
    subst (λ s. extension s ≡ some (text "php")) whole (extension-suffix (take n (lower name)))

scanned_php : unscanned (text "php") ≡ false
unfolding list_beq
scanned_php = refl

no_extension : unscanned [] ≡ false
unfolding list_beq
no_extension = refl

-- The scanner takes a file name for the same language as the registry, but for names with an extension
-- `jsx`, `mts`, `cts` or `pyi`: for these it finds no language.
pub detect_language_agrees :
    (name : Text)
    → detect_language (some name) ≡ elim (detect_language_by_path (some name)) [
      | none ↦ none
      | some l ↦ if unscanned (known_extension name) then none else some (as_detected l)
    ]
detect_language_agrees name = elim (Option-cases (extension name)) [
  | inl e ↦ ground (
    arith,
    registry_form name,
    scanner_form name,
    suffix_lem name,
    extension-lower name,
    e,
    no_extension,
  )
  | inr (ext, e) ↦ ground (
    arith,
    registry_form name,
    scanner_form name,
    suffix_lem name,
    extension-lower name,
    e,
    template_extension name,
    scanned_php,
    language_of_lem (lower ext),
    Option-cases (language_of_extension (lower ext)),
  )
]
