-- ===== src/Tests/Imports.antt =====
-- Import strings, paths and tsconfig patterns at work.
use xgraph.Prelude.{◌≡◌, refl, [], ◌∷◌, none, some, arith, true, false, nat_key, inl}
use xgraph.Text.{Text, text, text_key, starts_with}
use xgraph.Imports.Pattern.{
  split_star, ends_with, slice, match_pattern, captured, panicked, no_match, substitute_target,
  substitute-match_pattern,
}
use xgraph.Imports.Jsonc.{strip_jsonc, is_whitespace, inside, outside, closes}
use xgraph.Imports.Python.{rel_path_key, join_dots, PythonImportResolver, resolve, leading_dots}
use xgraph.Imports.Python.Climbing.{resolve-relative}
use xgraph.Imports.Alias.{
  TsAliasResolver, root_dir, normal, cur_dir, parent_dir, returns, components, normalize_to_string,
  is_relative_import,
}
use xgraph.Imports.Alias.Aliases.{resolve-first}
use xgraph.Imports.Alias
use xgraph.Prelude.{contains, list_beq}

utils_captured : match_pattern (text "@/*") (text "@/utils") ≡ captured (text "utils")
unfolding match_pattern split_star starts_with ends_with slice list_beq
utils_captured = refl

one_star : (p q : Text) → split_star (text "@/*") ≡ some (p, q) → split_star q ≡ none
unfolding split_star list_beq
one_star p q h = ground (arith, h)

substitute-match_pattern_example : substitute_target (text "@/*") (text "utils") ≡ text "@/utils"
substitute-match_pattern_example =
    substitute-match_pattern (text "@/*") (text "@/utils") (text "utils") one_star utils_captured

-- The texts around the wildcard overlap.
overlap : match_pattern (text "foo/*/bar") (text "foo/bar") ≡ panicked
unfolding match_pattern split_star starts_with ends_with slice list_beq
overlap = refl

-- A comma in a string goes with the bracket behind it.
comma_in_string : strip_jsonc (text "[\"a, ]\"]") ≡ text "[\"a]\"]"
unfolding strip_jsonc is_whitespace inside outside closes list_beq
comma_in_string = refl

abbrev python : PythonImportResolver
python = record { packages = (text "pkg" ∷ []) ∷ (text "pkg" ∷ text "sub" ∷ []) ∷ [] }

pkg_known : contains python.packages (text "pkg" ∷ []) ≡ true
unfolding contains list_beq
pkg_known = refl

plain_util : leading_dots (text "util") ≡ 0
unfolding leading_dots list_beq
plain_util = refl

resolve-relative_example :
    resolve python (text "pkg" ∷ text "sub" ∷ text "mod.py" ∷ []) (text "..util")
    ≡ some (text "pkg.util")
unfolding join_dots
resolve-relative_example =
    resolve-relative python (text "pkg" ∷ []) (text "sub" ∷ []) (text "mod.py") (text "util")
      (refl, tt) (rw pkg_known refl) plain_util refl

abbrev aliased : TsAliasResolver
aliased = record {
  base_url = root_dir ∷ normal (text "w") ∷ normal (text "web") ∷ [];
  aliases = (text "~/*", text "lib/*" ∷ []) ∷ (text "@/*", text "src/*" ∷ []) ∷ [];
}

bare : is_relative_import (text "@/utils") ≡ false
unfolding is_relative_import starts_with list_beq
bare = refl

other_prefix : match_pattern (text "~/*") (text "@/utils") ≡ no_match
unfolding match_pattern split_star starts_with list_beq
other_prefix = refl

target_components :
    components (substitute_target (text "src/*") (text "utils"))
    ≡ normal (text "src") ∷ normal (text "utils") ∷ []
unfolding components substitute_target starts_with list_beq
target_components = refl

resolve-first_example :
    Alias.resolve aliased
      (text "@/utils")
      (normal (text "a.ts") ∷ [])
      (root_dir ∷ normal (text "w") ∷ [])
    ≡ returns (
        some (
          normalize_to_string
            (normal (text "web") ∷ normal (text "src") ∷ normal (text "utils") ∷ [])))
resolve-first_example =
    resolve-first aliased (text "@/utils") (text "@/*") (text "src/*") (text "utils") (text "src")
      [] ((text "~/*", text "lib/*" ∷ []) ∷ []) [] (normal (text "a.ts") ∷ [])
      (normal (text "w") ∷ []) (normal (text "web") ∷ []) (normal (text "utils") ∷ []) bare refl
      (inl other_prefix, tt) utils_captured refl target_components
