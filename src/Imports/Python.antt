-- ===== src/Imports/Python.antt =====
-- import_resolver.rs `PythonImportResolver`, over worktree-relative paths: the components of such a
-- path are all names, and `parent` drops the last.
pub mod Climbing
use xgraph.Prelude.{
  ℕ, zero, suc, ◌+◌, Bool, true, false, not, ◌&&◌, ◌||◌, Option, none, some, List, [], ◌∷◌, ◌++◌,
  if◌then◌else◌, Key, ◌==◌, nat_key, list_key, is_empty, contains, drop,
}
use xgraph.Text.{Text, text_key}

-- a worktree-relative `Path` as its components
abbrev pub RelPath : Type 0
RelPath = List Text

instance abbrev pub rel_path_key : Key RelPath
rel_path_key = list_key

pub record PythonImportResolver : Type 0 where
  pub packages : List RelPath

-- `bytes().take_while(|&b| b == b'.').count()`
unfoldable pub leading_dots : Text → ℕ
leading_dots [] = 0
leading_dots (c ∷ s) = let rest = leading_dots s in if c == b'.' then suc rest else 0

-- `split('.').next()`
unfoldable pub first_segment : Text → Text
first_segment [] = []
first_segment (c ∷ s) = let rest = first_segment s in if c == b'.' then [] else c ∷ rest

-- `Path::parent`
unfoldable pub parent : RelPath → Option RelPath
parent [] = none
parent (c ∷ []) = some []
parent (c ∷ d ∷ p) = elim (parent (d ∷ p)) [ none ↦ none | some q ↦ some (c ∷ q) ]

-- `for _ in 0..n { base = base.parent()?.to_path_buf(); }`
unfoldable pub climb : ℕ → RelPath → Option RelPath
unfolding parent
climb zero base = some base
climb (suc n) base = elim (parent base) [ none ↦ none | some up ↦ climb n up ]

-- `collect::<Vec<_>>().join(".")`
unfoldable pub join_dots : List Text → Text
join_dots [] = []
join_dots (s ∷ []) = s
join_dots (s ∷ t ∷ rest) = s ++ b'.' ∷ join_dots (t ∷ rest)

-- `Path::starts_with`
unfoldable pub path_starts_with : RelPath → RelPath → Bool
path_starts_with p [] = true
path_starts_with [] (c ∷ q) = false
path_starts_with (b ∷ p) (c ∷ q) = b == c && path_starts_with p q

unfoldable pub is_package_or_module : List RelPath → RelPath → Bool
unfolding path_starts_with
is_package_or_module [] head = false
is_package_or_module (p ∷ packages) head =
    path_starts_with p head || is_package_or_module packages head

-- `PathBuf::from(head)` of a segment, which holds no slash
unfoldable pub head_path : Text → RelPath
head_path head = if is_empty head then [] else head ∷ []

-- what stands behind the dots, from the directory that they name
unfoldable pub resolve_from : PythonImportResolver → RelPath → Text → Option Text
unfolding join_dots contains
resolve_from self base rest =
    if not (contains self.packages base) && not (is_empty base)
    then none
    else if is_empty rest
    then some (join_dots base)
    else if is_empty (join_dots base)
    then some rest
    else some (join_dots base ++ b'.' ∷ rest)

unfoldable pub resolve_relative : PythonImportResolver → RelPath → ℕ → Text → Option Text
unfolding parent climb resolve_from
resolve_relative self importing_file extra rest = elim (parent importing_file) [
  | none ↦ none
  | some dir ↦ elim (climb extra dir) [ none ↦ none | some base ↦ resolve_from self base rest ]
]

unfoldable pub resolve : PythonImportResolver → RelPath → Text → Option Text
unfolding leading_dots first_segment head_path is_package_or_module resolve_relative contains
resolve self importing_file import_module = elim (leading_dots import_module) [
  | zero ↦
      let head = head_path (first_segment import_module) in
      if contains self.packages head || is_package_or_module self.packages head
      then some import_module
      else none
  | suc extra ↦ resolve_relative self importing_file extra (drop (suc extra) import_module)
]
