-- ===== src/Tests/Watching.antt =====
-- The scanner's languages and the watcher on small inputs.
use xgraph.Prelude.{
  Bool, true, false, not, none, some, List, [], ◌∷◌, if◌then◌else◌, ◌≡◌, refl, contains, list_beq,
}
use xgraph.Text.{text, text_key}
use xgraph.Manifest.{PathBuf, path_key}
use xgraph.Language.{detect_language_by_path}
use xgraph.Ignore.{Gitignore, IgnoreMatcher, matched}
use xgraph.Ignore.Inside.{matched-inside}
use xgraph.Scanner.{detect_language}
use xgraph.Scanner.Agreement.{as_detected, unscanned, known_extension, detect_language_agrees}
use xgraph.Watcher.{
  Input, raw, timer, shutdown, created, modified, deleted, new_worker, run_debounce_loop,
}
use xgraph.Watcher.Loop.{told_last, last_kind, ends, run_debounce_loop_reports}

detect_language_agrees_example :
    detect_language (some (text "Panel.JSX"))
    ≡ elim (detect_language_by_path (some (text "Panel.JSX"))) [
      | none ↦ none
      | some l ↦
          if unscanned (known_extension (text "Panel.JSX")) then none else some (as_detected l)
    ]
detect_language_agrees_example = detect_language_agrees (text "Panel.JSX")

abbrev ignored : PathBuf → Bool
ignored p = contains p (text "target")

abbrev no_dir : PathBuf → Bool
no_dir p = false

abbrev lib : PathBuf
lib = text "src" ∷ text "lib.rs" ∷ []

-- the file is rewritten in place: gone and back within a window, then changed
abbrev inputs : List Input
inputs =
    raw (record { path = lib; kind = deleted })
    ∷ raw (record { path = lib; kind = created })
    ∷ timer
    ∷ raw (record { path = lib; kind = modified })
    ∷ shutdown
    ∷ []

inputs_end : ends inputs ≡ true
unfolding ends
inputs_end = refl

run_debounce_loop_reports_example :
    told_last lib (run_debounce_loop ignored no_dir new_worker inputs).sent
    ≡ (if ignored lib then none else last_kind lib none inputs)
run_debounce_loop_reports_example = run_debounce_loop_reports ignored no_dir inputs lib inputs_end

-- `target` is ignored, and an ignore file takes one of its files back
abbrev rules : Gitignore
rules = record {
  path = text "w" ∷ [];
  matched_path_or_any_parents = λ p is_dir.
      if contains p (text "keep.rs")
      then some false
      else if contains p (text "target")
      then some true
      else none;
}

abbrev matcher : IgnoreMatcher
matcher = record {
  root = text "w" ∷ [];
  built_in_matcher = record rules { matched_path_or_any_parents = λ p is_dir. none };
  gitignore_files = rules ∷ [];
  git_exclude = none;
  xgraphignore_files = [];
}

abbrev dirs : PathBuf → Bool
dirs p = not (contains p (text "keep.rs"))

dirs_target : dirs (text "w" ∷ text "target" ∷ []) ≡ true
unfolding contains list_beq
dirs_target = refl

target_matched : matched matcher dirs (text "w" ∷ text "target" ∷ []) ≡ true
unfolding matched contains list_beq
target_matched = refl

matched-inside_example :
    matched matcher dirs (text "w" ∷ text "target" ∷ text "keep.rs" ∷ []) ≡ true
matched-inside_example =
    matched-inside matcher dirs (text "target" ∷ []) (text "keep.rs" ∷ []) dirs_target
      target_matched
