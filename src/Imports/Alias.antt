-- ===== src/Imports/Alias.antt =====
-- import_resolver.rs `TsAliasResolver`, with the paths of the standard library as lists of
-- components on a Unix system.
pub mod Normal
pub mod Aliases
use xgraph.Prelude.{
  ℕ, zero, suc, ◌+◌, Bool, true, false, not, ◌&&◌, ◌||◌, Option, none, some, List, [], ◌∷◌, ◌++◌,
  if◌then◌else◌, Key, ◌==◌, nat_key, list_key, is_empty,
}
use xgraph.Text.{Text, text_key, text, starts_with}
use xgraph.Imports.Pattern.{Matched, captured, no_match, panicked, match_pattern, substitute_target}

-- `std::path::Component`
pub data Component : Type 0 where
  root_dir parent_dir cur_dir : Component
  normal : Text → Component

abbrev pub Components : Type 0
Components = List Component

-- the pieces between slashes
unfoldable pub split_slash : Text → List Text
split_slash [] = [] ∷ []
split_slash (c ∷ s) =
    let rest = split_slash s in
    if c == b'/' then [] ∷ rest else elim rest [ [] ↦ (c ∷ []) ∷ [] | p ∷ ps ↦ (c ∷ p) ∷ ps ]

-- behind the first piece, `components` leaves out empty pieces and dots
unfoldable pub later_components : List Text → Components
later_components [] = []
later_components (s ∷ rest) =
    let cs = later_components rest in
    if is_empty s || s == text "."
    then cs
    else if s == text ".."
    then parent_dir ∷ cs
    else normal s ∷ cs

-- `Path::new(s).components()`
unfoldable pub components : Text → Components
unfolding split_slash later_components
components s =
    let pieces = split_slash s in
    if starts_with s (text "/") then root_dir ∷ later_components pieces else elim pieces [
      | [] ↦ []
      | first ∷ rest ↦
          if first == text "."
          then cur_dir ∷ later_components rest
          else later_components (first ∷ rest)
    ]

-- `Path::join`
unfoldable pub join : Components → Components → Components
join p (root_dir ∷ q) = root_dir ∷ q
join [] q = q
join (b ∷ p) (cur_dir ∷ q) = b ∷ p ++ q
join p q = p ++ q

-- `Path::parent`: nothing above the root or the empty path
unfoldable pub parent : Components → Option Components
parent [] = none
parent (root_dir ∷ []) = none
parent (c ∷ []) = some []
parent (c ∷ d ∷ p) = elim (parent (d ∷ p)) [ none ↦ none | some q ↦ some (c ∷ q) ]

-- `==` of components
unfoldable pub same_component : Component → Component → Bool
same_component root_dir root_dir = true
same_component parent_dir parent_dir = true
same_component cur_dir cur_dir = true
same_component (normal s) (normal t) = s == t
same_component _ _ = false

-- `Path::strip_prefix`
unfoldable pub strip_prefix : Components → Components → Option Components
unfolding same_component
strip_prefix p [] = some p
strip_prefix [] (d ∷ prefix) = none
strip_prefix (c ∷ p) (d ∷ prefix) =
    let rest = strip_prefix p prefix in if same_component c d then rest else none

unfoldable pub is_relative_import : Text → Bool
unfolding starts_with
is_relative_import s =
    s == text "."
    || s == text ".."
    || starts_with s (text "./")
    || starts_with s (text "../")
    || starts_with s (b'.' ∷ 92 ∷ [])
    || starts_with s (b'.' ∷ b'.' ∷ 92 ∷ [])

-- `parts.pop()`, the last part first
abbrev pub pop : List Text → List Text
pop [] = []
pop (s ∷ parts) = parts

-- the loop over the components; the last of `parts` comes first
unfoldable pub normal_parts : List Text → Components → List Text
normal_parts parts [] = parts
normal_parts parts (parent_dir ∷ rest) = normal_parts (pop parts) rest
normal_parts parts (cur_dir ∷ rest) = normal_parts parts rest
normal_parts parts (normal s ∷ rest) = normal_parts (s ∷ parts) rest
normal_parts parts (root_dir ∷ rest) = normal_parts (text "/" ∷ parts) rest

-- what stands before `out` when the parts are written with slashes between them
unfoldable pub slashed : List Text → Text → Text
slashed [] out = out
slashed (s ∷ []) out = s ++ out
slashed (s ∷ parts) out = slashed parts (b'/' ∷ s ++ out)

unfoldable pub normalize_to_string : Components → Text
unfolding normal_parts slashed
normalize_to_string path = slashed (normal_parts [] path) []

unfoldable pub resolve_relative : Text → Components → Option Text
unfolding parent join components normalize_to_string
resolve_relative import_ importing_file = elim (parent importing_file) [
  | none ↦ none
  | some dir ↦ some (normalize_to_string (join dir (components import_)))
]

pub record TsAliasResolver : Type 0 where
  pub base_url : Components
  pub aliases : List (Text × List Text)

-- what `resolve` does: it returns, or slicing panics
pub data Resolved : Type 0 where
  returns : Option Text → Resolved
  panics : Resolved

unfoldable pub alias_target : TsAliasResolver → Components → Text → Text
unfolding join components strip_prefix normalize_to_string
alias_target self worktree_root candidate =
    let resolved = join self.base_url (components candidate) in
    elim (strip_prefix resolved worktree_root) [
      | some rel ↦ normalize_to_string rel
      | none ↦ normalize_to_string resolved
    ]

unfoldable pub resolve_aliases :
    TsAliasResolver → List (Text × List Text) → Text → Components → Resolved
unfolding match_pattern substitute_target alias_target
resolve_aliases self [] import_ worktree_root = returns none
resolve_aliases self ((pattern, targets) ∷ rest) import_ worktree_root =
    let later = resolve_aliases self rest import_ worktree_root in
    elim (match_pattern pattern import_) [
      | panicked ↦ panics
      | no_match ↦ later
      | captured c ↦ elim targets [
        | [] ↦ later
        | target ∷ _ ↦ returns (some (alias_target self worktree_root (substitute_target target c)))
      ]
    ]

unfoldable pub resolve : TsAliasResolver → Text → Components → Components → Resolved
unfolding is_relative_import resolve_relative resolve_aliases
resolve self import_ importing_file worktree_root =
    if is_relative_import import_
    then returns (resolve_relative import_ importing_file)
    else resolve_aliases self self.aliases import_ worktree_root
