-- ===== src/Language/Detection.antt =====
-- A registry with every plugin extracts every file of a known language.
use xgraph.Prelude.{
  ℕ, true, Option, some, List, [], ◌∷◌, ◌≡◌, ◌⊎◌, inl, inr, refl, ap, sym, ◌∙◌, arith,
  if◌then◌else◌, ◌==◌, nat_key, contains, map, Bool-cases,
}
use xgraph.Text.{Text}
use xgraph.Map.{Map, empty, get, get-insert, find}
use xgraph.Language.{
  LanguageId, php, blade, java_script, type_script, tsx, python, go, rust, tag,
  detect_language_by_path, register, get_plugin, register_all, with_all, extract_file,
}

-- a language for each number
abbrev untag : ℕ → LanguageId
untag n =
    if n == 0
    then php
    else if n == 1
    then blade
    else if n == 2
    then java_script
    else if n == 3
    then type_script
    else if n == 4
    then tsx
    else if n == 5
    then python
    else if n == 6
    then go
    else rust

untag-tag : (a : LanguageId) → untag (tag a) ≡ a
unfolding tag
untag-tag php = refl
untag-tag blade = refl
untag-tag java_script = refl
untag-tag type_script = refl
untag-tag tsx = refl
untag-tag python = refl
untag-tag go = refl
untag-tag rust = refl

tag_inj : (a b : LanguageId) → tag a ≡ tag b → a ≡ b
tag_inj a b h = sym (untag-tag a) ∙ ap untag h ∙ untag-tag b

known_tag : (l : LanguageId) → contains (0 ∷ 1 ∷ 2 ∷ 3 ∷ 4 ∷ 5 ∷ 6 ∷ 7 ∷ []) (tag l) ≡ true
unfolding contains tag
known_tag php = refl
known_tag blade = refl
known_tag java_script = refl
known_tag type_script = refl
known_tag tsx = refl
known_tag python = refl
known_tag go = refl
known_tag rust = refl

module _ {Plugin : Type 0} (id : Plugin → LanguageId) where
  abbrev pub tags : List Plugin → List ℕ
  tags plugins = map (λ p. tag (id p)) plugins

  abbrev Keyed : Map ℕ Plugin → Type 0
  Keyed m = (k : ℕ) (p : Plugin) → get m k ≡ some p → tag (id p) ≡ k

  nothing_stored : (k : ℕ) (p : Plugin) → ¬ (get empty k ≡ some p)
  unfolding get find
  nothing_stored k p h = absurd (ground (arith, h))

  Keyed-register : (m : Map ℕ Plugin) (q : Plugin) → Keyed m → Keyed (register id m q)
  unfolding register
  Keyed-register m q h k p e = ground (arith, get-insert m (tag (id q)) q k, h k p, e)

  after_one :
      (q : Plugin) (rest : List Plugin) (m : Map ℕ Plugin) (k : ℕ)
      → (contains (tags (q ∷ rest)) k ≡ true) ⊎ ((p : Plugin) × (get m k ≡ some p))
      → (contains (tags rest) k ≡ true) ⊎ ((p : Plugin) × (get (register id m q) k ≡ some p))
  unfolding register contains
  after_one q rest m k now = elim (Bool-cases (tag (id q) == k)) [
    | inl same ↦ inr (q, ground (arith, get-insert m (tag (id q)) q k, same))
    | inr other ↦ elim now [
      | inl c ↦ inl (ground (arith, c, other))
      | inr (p, e) ↦ inr (p, ground (arith, get-insert m (tag (id q)) q k, other, e))
    ]
  ]

  get-register_all :
      (plugins : List Plugin) (m : Map ℕ Plugin) (k : ℕ)
      → Keyed m
      → (contains (tags plugins) k ≡ true) ⊎ ((p : Plugin) × (get m k ≡ some p))
      → (p : Plugin) × (get (register_all id m plugins) k ≡ some p) × (tag (id p) ≡ k)
  unfolding register_all contains
  get-register_all [] m k h (inl c) = absurd (ground (arith, c))
  get-register_all [] m k h (inr (p, e)) = (p, e, h k p e)
  get-register_all (q ∷ rest) m k h now =
      get-register_all rest (register id m q) k (Keyed-register m q h) (after_one q rest m k now)

  every_language :
      (plugin_of : LanguageId → Plugin)
      → ((l : LanguageId) → id (plugin_of l) ≡ l)
      → (l : LanguageId)
      → contains
          (tags (
            plugin_of php
            ∷ plugin_of blade
            ∷ plugin_of java_script
            ∷ plugin_of type_script
            ∷ plugin_of tsx
            ∷ plugin_of python
            ∷ plugin_of go
            ∷ plugin_of rust
            ∷ []))
          (tag l)
        ≡ true
  unfolding contains tag
  every_language plugin_of named l = rw (named php) (
      rw (named blade) (
        rw (named java_script) (
          rw (named type_script)
            (rw (named tsx) (rw (named python) (rw (named go) (rw (named rust) (known_tag l))))))))

  -- Once there is a plugin for every language, a file of a detected language is extracted by a plugin
  -- of that language.
  pub extract_file_lem :
      {Extracted : Type 0} (extract : Plugin → Text → Extracted) (plugins : List Plugin)
      (file_name : Option Text) (source : Text) (language : LanguageId)
      → ((l : LanguageId) → contains (tags plugins) (tag l) ≡ true)
      → detect_language_by_path file_name ≡ some language
      → (p : Plugin) × (extract_file id extract (register_all id empty plugins) file_name source
          ≡ some (extract p source))
        × (id p ≡ language)
  unfolding extract_file get_plugin
  extract_file_lem extract plugins file_name source language every detected =
      let (p, e, t) =
        get-register_all plugins empty (tag language) (λ k p h. absurd (nothing_stored k p h))
          (inl (every language)) in
      (p, ground (arith, detected, e), tag_inj (id p) language t)

  -- With a plugin for each language that has this language as its id, `with_all` makes a registry that
  -- extracts every file of a detected language, by a plugin of that language.
  pub with_all-extract_file :
      {Extracted : Type 0} (extract : Plugin → Text → Extracted) (plugin_of : LanguageId → Plugin)
      (file_name : Option Text) (source : Text) (language : LanguageId)
      → ((l : LanguageId) → id (plugin_of l) ≡ l)
      → detect_language_by_path file_name ≡ some language
      → (p : Plugin) × (extract_file id extract (with_all id plugin_of) file_name source
          ≡ some (extract p source))
        × (id p ≡ language)
  unfolding with_all
  with_all-extract_file extract plugin_of file_name source language named detected =
      extract_file_lem extract
        (plugin_of php
          ∷ plugin_of blade
          ∷ plugin_of java_script
          ∷ plugin_of type_script
          ∷ plugin_of tsx
          ∷ plugin_of python
          ∷ plugin_of go
          ∷ plugin_of rust
          ∷ [])
        file_name source language (every_language plugin_of named) detected
