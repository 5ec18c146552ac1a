-- ===== src/Ignore.antt =====
-- ignore.rs: the decision over nested ignore files. A `Gitignore` of the crate `ignore` is its root and
-- what `matched_path_or_any_parents` answers: nothing, ignored, or taken back. Whether a path is a
-- directory is up to the file system. A path is the list of its components.
pub mod Inside
use xgraph.Prelude.{
  Bool, true, false, not, Option, none, some, List, [], ◌∷◌, ◌++◌, if◌then◌else◌, ◌==◌, nat_key,
  list_key,
}
use xgraph.Text.{Text, text_key}

abbrev pub PathBuf : Type 0
PathBuf = List Text

pub record Gitignore : Type 0 where
  pub path : PathBuf
  pub matched_path_or_any_parents : PathBuf → Bool → Option Bool

pub record IgnoreMatcher : Type 0 where
  pub root : PathBuf
  pub built_in_matcher : Gitignore
  pub gitignore_files : List Gitignore
  pub git_exclude : Option Gitignore
  pub xgraphignore_files : List Gitignore

unfoldable pub strip_prefix : PathBuf → PathBuf → Option PathBuf
strip_prefix [] path = some path
strip_prefix (c ∷ root) [] = none
strip_prefix (c ∷ root) (d ∷ path) =
    let rest = strip_prefix root path in if c == d then rest else none

-- only below the file's own root
unfoldable pub match_gitignore : Gitignore → PathBuf → Bool → Option Bool
unfolding strip_prefix
match_gitignore gi path is_dir = elim (strip_prefix gi.path path) [
  | none ↦ none
  | some _ ↦ gi.matched_path_or_any_parents path is_dir
]

pub data Decision : Type 0 where
  undecided ignore whitelist : Decision

unfoldable pub is_ignore : Decision → Bool
is_ignore undecided = false
is_ignore ignore = true
is_ignore whitelist = false

unfoldable pub or : Decision → Decision → Decision
or undecided other = other
or ignore other = ignore
or whitelist other = whitelist

unfoldable pub decision_from_match : Option Bool → Decision
decision_from_match none = undecided
decision_from_match (some true) = ignore
decision_from_match (some false) = whitelist

-- the last file of the stack that decides
unfoldable pub decide_in_stack : List Gitignore → PathBuf → Bool → Decision
unfolding match_gitignore decision_from_match or
decide_in_stack [] path is_dir = undecided
decide_in_stack (gi ∷ stack) path is_dir =
    or (decide_in_stack stack path is_dir) (decision_from_match (match_gitignore gi path is_dir))

abbrev pub exclude_decision : Option Gitignore → PathBuf → Bool → Decision
exclude_decision none path is_dir = undecided
exclude_decision (some exclude) path is_dir =
    decision_from_match (match_gitignore exclude path is_dir)

-- a match of the built-in patterns stands against everything else
unfoldable pub decide : IgnoreMatcher → PathBuf → Bool → Decision
unfolding match_gitignore decide_in_stack or decision_from_match is_ignore
decide m path is_dir =
    if is_ignore (decision_from_match (match_gitignore m.built_in_matcher path is_dir))
    then ignore
    else or
        (or (decide_in_stack m.xgraphignore_files path is_dir)
          (decide_in_stack m.gitignore_files path is_dir))
        (exclude_decision m.git_exclude path is_dir)

-- the loop over the ancestors, the root's child first; only the last may be no directory
unfoldable pub any_ignored : IgnoreMatcher → Bool → PathBuf → PathBuf → Bool
unfolding decide is_ignore
any_ignored m leaf_is_dir above [] = false
any_ignored m leaf_is_dir above (c ∷ []) = is_ignore (decide m (above ++ c ∷ []) leaf_is_dir)
any_ignored m leaf_is_dir above (c ∷ d ∷ rest) =
    let later = any_ignored m leaf_is_dir (above ++ c ∷ []) (d ∷ rest) in
    if is_ignore (decide m (above ++ c ∷ []) true) then true else later

unfoldable pub matched : IgnoreMatcher → (PathBuf → Bool) → PathBuf → Bool
unfolding any_ignored strip_prefix
matched m is_dir path = elim (strip_prefix m.root path) [
  | none ↦ false
  | some rel ↦ any_ignored m (is_dir path) m.root rel
]
