-- ===== src/Tests/Languages.antt =====
-- Languages of files, and names in the resolver's table.
use xgraph.Prelude.{ℕ, ◌≡◌, refl, List, [], ◌∷◌, none, some, true, contains, list_beq, nat_key}
use xgraph.Text.{Text, text, text_key, lower, to_ascii_lowercase}
use xgraph.Map.{empty}
use xgraph.Language.{
  LanguageId, php, blade, java_script, type_script, tsx, python, go, rust, tag,
  detect_language_by_path, has_suffix_ignore_case, is_char_boundary, extract_file, register_all,
  with_all, is_laravel_path,
}
use xgraph.Language.Detection.{tags, extract_file_lem, with_all-extract_file}
use xgraph.Resolve.Candidates
use xgraph.Resolve.{resolve_exact, resolve_candidates, single, new}
use xgraph.Resolve.Candidates.{registered, resolve_exact_lem}

-- a plugin that is its language
abbrev plugins : List LanguageId
plugins = php ∷ blade ∷ java_script ∷ type_script ∷ tsx ∷ python ∷ go ∷ rust ∷ []

every : (l : LanguageId) → contains (tags (λ x. x) plugins) (tag l) ≡ true
unfolding tag contains
every php = refl
every blade = refl
every java_script = refl
every type_script = refl
every tsx = refl
every python = refl
every go = refl
every rust = refl

view_is_blade : detect_language_by_path (some (text "home.Blade.php")) ≡ some blade
unfolding detect_language_by_path has_suffix_ignore_case is_char_boundary lower to_ascii_lowercase
    list_beq
view_is_blade = refl

controllers :
    is_laravel_path (text "app" ∷ text "Http" ∷ text "Controllers" ∷ text "A.php" ∷ []) ≡ true
unfolding is_laravel_path list_beq
controllers = refl

extract_file_lem_example :
    (p : LanguageId) × (extract_file
        (λ x. x)
        (λ x s. s)
        (register_all (λ x. x) empty plugins)
        (some (text "home.Blade.php"))
        (text "<p>")
      ≡ some (text "<p>"))
    × (p ≡ blade)
extract_file_lem_example =
    extract_file_lem (λ x. x) (λ x s. s) plugins (some (text "home.Blade.php")) (text "<p>") blade
      every view_is_blade

with_all-extract_file_example :
    (p : LanguageId) × (extract_file
        (λ x. x)
        (λ x s. s)
        (with_all (λ x. x) (λ l. l))
        (some (text "home.Blade.php"))
        (text "<p>")
      ≡ some (text "<p>"))
    × (p ≡ blade)
with_all-extract_file_example =
    with_all-extract_file (λ x. x) (λ x s. s) (λ l. l) (some (text "home.Blade.php")) (text "<p>")
      blade (λ l. refl) view_is_blade

abbrev entries : List (Text × ℕ)
entries = (text "a::f", 1) ∷ (text "a::g", 2) ∷ (text "a::f", 3) ∷ []

resolve_exact_lem_example :
    let table = Candidates.register_all new entries in
    (resolve_candidates table (text "a::f") ≡ 1 ∷ 3 ∷ [])
    × (resolve_exact table (text "a::f") ≡ none)
unfolding single list_beq
resolve_exact_lem_example = resolve_exact_lem entries (text "a::f")
