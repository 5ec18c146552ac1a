-- ===== src/Manifest.antt =====
-- manifest.rs: the difference between the files that a scan found and the active manifest.
pub mod Buckets
use xgraph.Prelude.{
  ℕ, ltb, leb, nat_beq, nat_beq_iff, max, Bool, true, false, not, ◌&&◌, ◌||◌, Option, none, some,
  List, [], ◌∷◌, map, if◌then◌else◌, Key, ◌==◌, nat_key, list_key, ◌↔◌, ◌≡◌, arith,
}
use xgraph.Text.{Text, text_key}
use xgraph.Map.{Map, empty, get, insert, iter, contains_key}

-- a path as its components, which `Path` compares one by one
abbrev pub PathBuf : Type 0
PathBuf = List Text

instance abbrev pub path_key : Key PathBuf
path_key = list_key

pub record ScannedFileInput : Type 0 where
  pub path : PathBuf
  pub content_hash : Text
  pub mtime : ℕ
  pub size : ℕ

pub record ActiveFileRow : Type 0 where
  pub path : PathBuf
  pub content_hash : Text
  pub mtime : ℕ
  pub size : ℕ
  pub generation : ℕ

pub record ReconciliationPlan : Type 0 where
  pub dirty : List PathBuf
  pub missing : List PathBuf
  pub deleted : List PathBuf

-- `iter().max()`
unfoldable pub max_generation : List ActiveFileRow → Option ℕ
max_generation [] = none
max_generation (row ∷ rows) = elim (max_generation rows) [
  | none ↦ some row.generation
  | some g ↦ some (max row.generation g)
]

-- `iter().map(|x| (&x.path, x)).collect()`
unfoldable pub collect {ℓ} : {A : Type ℓ} → (A → PathBuf) → List A → Map PathBuf A → Map PathBuf A
unfolding insert
collect path_of [] m = m
collect path_of (x ∷ xs) m = collect path_of xs (insert m (path_of x) x)

unfoldable pub active_by_path : List ActiveFileRow → Map PathBuf ActiveFileRow
unfolding collect
active_by_path rows = collect (λ row. row.path) rows empty

unfoldable pub scanned_by_path : List ScannedFileInput → Map PathBuf ScannedFileInput
unfolding collect
scanned_by_path files = collect (λ file. file.path) files empty

unfoldable pub is_dirty : ScannedFileInput → ActiveFileRow → Option ℕ → Bool
is_dirty scanned active current_generation =
    if not (scanned.content_hash == active.content_hash)
    then true
    else if not (scanned.size == active.size)
    then true
    else elim current_generation [ none ↦ false | some g ↦ ltb active.generation g ]

-- the keys of the entries that a loop pushes
unfoldable pub pushed {ℓ} : {V : Type ℓ} → (PathBuf → V → Bool) → List (PathBuf × V) → List PathBuf
pushed test [] = []
pushed test ((k, v) ∷ l) = let rest = pushed test l in if test k v then k ∷ rest else rest

-- the lexicographic order of lists
unfoldable pub text_le : Text → Text → Bool
text_le [] t = true
text_le (a ∷ s) [] = false
text_le (a ∷ s) (b ∷ t) = ltb a b || (a == b && text_le s t)

unfoldable pub path_le : PathBuf → PathBuf → Bool
unfolding text_le
path_le [] q = true
path_le (a ∷ p) [] = false
path_le (a ∷ p) (b ∷ q) = (text_le a b && not (a == b)) || (a == b && path_le p q)

unfoldable pub sorted_insert : PathBuf → List PathBuf → List PathBuf
sorted_insert p [] = p ∷ []
sorted_insert p (q ∷ qs) =
    let rest = sorted_insert p qs in if path_le p q then p ∷ q ∷ qs else q ∷ rest

-- `sort`
unfoldable pub sort : List PathBuf → List PathBuf
unfolding sorted_insert
sort [] = []
sort (p ∷ ps) = sorted_insert p (sort ps)

-- whether a scanned file goes to `missing`, and whether to `dirty`
unfoldable pub is_missing : List ActiveFileRow → PathBuf → ScannedFileInput → Bool
unfolding active_by_path
is_missing active path file = not (contains_key (active_by_path active) path)

unfoldable pub row_is_dirty : List ActiveFileRow → PathBuf → ScannedFileInput → Bool
unfolding active_by_path is_dirty max_generation
row_is_dirty active path file = elim (get (active_by_path active) path) [
  | none ↦ false
  | some row ↦ is_dirty file row (max_generation active)
]

unfoldable pub reconcile : List ScannedFileInput → List ActiveFileRow → ReconciliationPlan
unfolding active_by_path scanned_by_path pushed sort is_missing row_is_dirty
reconcile scanned active = record {
  dirty = sort (pushed (row_is_dirty active) (iter (scanned_by_path scanned)));
  missing = sort (pushed (is_missing active) (iter (scanned_by_path scanned)));
  deleted = sort (
      pushed (λ path row. not (contains_key (scanned_by_path scanned) path))
        (iter (active_by_path active)));
}
