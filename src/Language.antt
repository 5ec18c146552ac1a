-- ===== src/Language.antt =====
-- language.rs: languages, their detection by path, and the registry of plugins, which are parameters.
pub mod Detection
use xgraph.Prelude.{
  ℕ, ◌-◌, leb, Bool, true, false, not, ◌&&◌, ◌||◌, Option, none, some, List, [], ◌∷◌, length, drop,
  is_empty, if◌then◌else◌, ◌==◌, Key, nat_key, nat_beq, nat_beq_iff, ◌↔◌, ◌≡◌, arith,
}
use xgraph.Text.{Text, text, text_key, lower}
use xgraph.Map.{Map, empty, get, insert}

pub data LanguageId : Type 0 where
  php blade java_script type_script tsx python go rust : LanguageId

unfoldable pub as_str : LanguageId → Text
as_str php = text "php"
as_str blade = text "blade"
as_str java_script = text "javascript"
as_str type_script = text "typescript"
as_str tsx = text "tsx"
as_str python = text "python"
as_str go = text "go"
as_str rust = text "rust"

-- `is_char_boundary` at the first of these bytes
unfoldable pub is_char_boundary : Text → Bool
is_char_boundary [] = true
is_char_boundary (b ∷ _) = not (leb 128 b && leb b 191)

unfoldable pub has_suffix_ignore_case : Text → Text → Bool
unfolding is_char_boundary lower
has_suffix_ignore_case name suffix =
    if not (leb (length suffix) (length name))
    then false
    else let end = drop (length name - length suffix) name in
      if not (is_char_boundary end) then false else lower end == lower suffix

-- the text behind the last dot
unfoldable pub behind_last_dot : Text → Option Text
behind_last_dot [] = none
behind_last_dot (c ∷ s) = elim (behind_last_dot s) [
  | some e ↦ some e
  | none ↦ if c == b'.' then some s else none
]

-- `Path::extension` of a file name: a dot at its start does not count
unfoldable pub extension : Text → Option Text
unfolding behind_last_dot
extension [] = none
extension (c ∷ s) = behind_last_dot s

unfoldable pub language_of_extension : Text → Option LanguageId
language_of_extension e =
    if e == text "php"
    then some php
    else if e == text "js" || e == text "jsx" || e == text "mjs" || e == text "cjs"
    then some java_script
    else if e == text "ts" || e == text "mts" || e == text "cts"
    then some type_script
    else if e == text "tsx"
    then some tsx
    else if e == text "py" || e == text "pyi"
    then some python
    else if e == text "go"
    then some go
    else if e == text "rs"
    then some rust
    else none

-- from the file name of a path, which is UTF-8; no file name, no language
unfoldable pub detect_language_by_path : Option Text → Option LanguageId
unfolding has_suffix_ignore_case extension language_of_extension lower
detect_language_by_path none = none
detect_language_by_path (some file_name) =
    if has_suffix_ignore_case file_name (text ".blade.php")
    then some blade
    else elim (extension file_name) [ none ↦ none | some e ↦ language_of_extension (lower e) ]

-- whether components are left
abbrev pub some_left : List Text → Bool
some_left rest = not (is_empty rest)

-- over the components of the path
unfoldable pub is_laravel_path : List Text → Bool
is_laravel_path [] = false
is_laravel_path (first ∷ []) = false
is_laravel_path (first ∷ second ∷ rest) =
    if first == text "routes"
    then true
    else if first == text "database"
    then second == text "migrations" && some_left rest
    else if first == text "app" && second == text "Models"
    then some_left rest
    else if first == text "app" && second == text "Http"
    then elim rest [ [] ↦ false | third ∷ others ↦ third == text "Controllers" && some_left others ]
    else false

-- a number for each language, for `HashMap`'s keys
unfoldable pub tag : LanguageId → ℕ
tag php = 0
tag blade = 1
tag java_script = 2
tag type_script = 3
tag tsx = 4
tag python = 5
tag go = 6
tag rust = 7

module _ {ℓ} {Plugin : Type ℓ} (id : Plugin → LanguageId) where
  unfoldable pub register : Map ℕ Plugin → Plugin → Map ℕ Plugin
  unfolding tag
  register plugins plugin = insert plugins (tag (id plugin)) plugin

  unfoldable pub get_plugin : Map ℕ Plugin → LanguageId → Option Plugin
  unfolding tag
  get_plugin plugins language = get plugins (tag language)

  unfoldable pub register_all : Map ℕ Plugin → List Plugin → Map ℕ Plugin
  unfolding register
  register_all plugins [] = plugins
  register_all plugins (plugin ∷ rest) = register_all (register plugins plugin) rest

  -- one plugin for each language, in this order
  unfoldable pub with_all : (LanguageId → Plugin) → Map ℕ Plugin
  unfolding register_all
  with_all plugin_of = register_all empty (
      plugin_of php
      ∷ plugin_of blade
      ∷ plugin_of java_script
      ∷ plugin_of type_script
      ∷ plugin_of tsx
      ∷ plugin_of python
      ∷ plugin_of go
      ∷ plugin_of rust
      ∷ [])

  -- `extract_file`, with what a plugin extracts from a source
  unfoldable pub extract_file {κ} :
      {Extracted : Type κ}
      → (Plugin → Text → Extracted)
      → Map ℕ Plugin
      → Option Text
      → Text
      → Option Extracted
  unfolding get_plugin detect_language_by_path
  extract_file extract plugins file_name source = elim (detect_language_by_path file_name) [
    | none ↦ none
    | some language ↦ elim (get_plugin plugins language) [
      | none ↦ none
      | some plugin ↦ some (extract plugin source)
    ]
  ]
