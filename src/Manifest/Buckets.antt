-- ===== src/Manifest/Buckets.antt =====
-- Which paths `reconcile` puts into which bucket, and their order.
use xgraph.Prelude.{
  ltb, Bool, true, false, not, ◌&&◌, ◌||◌, Option, none, some, List, [], ◌∷◌, if◌then◌else◌, ◌==◌,
  ==_iff, nat_key, list_key, ◌≡◌, arith, contains, refl, Bool-cases,
}
use xgraph.Text.{Text, text_key}
use xgraph.Map.{Map, empty, get, insert, iter, contains_key, find, without, unique, get-insert}
use xgraph.Manifest.{
  PathBuf, path_key, ScannedFileInput, ActiveFileRow, max_generation, collect, active_by_path,
  scanned_by_path, is_dirty, pushed, text_le, path_le, sorted_insert, sort, is_missing,
  row_is_dirty, reconcile,
}

-- The last item of a list with a path.
abbrev pub last_at {ℓ} : {A : Type ℓ} → (A → PathBuf) → List A → PathBuf → Option A
last_at path_of [] p = none
last_at path_of (x ∷ xs) p = elim (last_at path_of xs p) [
  | some y ↦ some y
  | none ↦ if path_of x == p then some x else none
]

module _ {ℓ} {A : Type ℓ} (path_of : A → PathBuf) where
  get-collect :
      (xs : List A) (m : Map PathBuf A) (p : PathBuf)
      → get (collect path_of xs m) p
        ≡ elim (last_at path_of xs p) [ some y ↦ some y | none ↦ get m p ]
  unfolding collect
  get-collect [] m p = refl
  get-collect (x ∷ xs) m p =
      ground (arith, get-collect xs (insert m (path_of x) x) p, get-insert m (path_of x) x p)

  get-collect-empty :
      (xs : List A) (p : PathBuf) → get (collect path_of xs empty) p ≡ last_at path_of xs p
  unfolding get find
  get-collect-empty xs p = ground (arith, get-collect xs empty p)

module _ {ℓ} {V : Type ℓ} (test : PathBuf → V → Bool) where
  contains-pushed-without :
      (j k : PathBuf) (l : List (PathBuf × V))
      → contains (pushed test (without j l)) k ≡ (not (j == k) && contains (pushed test l) k)
  unfolding pushed without contains
  contains-pushed-without j k [] = ground arith
  contains-pushed-without j k ((i, v) ∷ l) =
      ground (arith, contains-pushed-without j k l, ==_iff i j, ==_iff i k, ==_iff j k)

  contains-pushed :
      (l : List (PathBuf × V)) (k : PathBuf)
      → contains (pushed test (unique l)) k ≡ elim (find k l) [ none ↦ false | some v ↦ test k v ]
  unfolding pushed unique contains find
  contains-pushed [] k = refl
  contains-pushed ((j, v) ∷ l) k =
      ground (arith, contains-pushed l k, contains-pushed-without j k (unique l), ==_iff j k)

contains-sorted_insert :
    (p : PathBuf) (ps : List PathBuf) (k : PathBuf)
    → contains (sorted_insert p ps) k ≡ (p == k || contains ps k)
unfolding sorted_insert contains
contains-sorted_insert p [] k = refl
contains-sorted_insert p (q ∷ qs) k = ground (arith, contains-sorted_insert p qs k)

pub contains-sort : (ps : List PathBuf) (k : PathBuf) → contains (sort ps) k ≡ contains ps k
unfolding sort contains
contains-sort [] k = refl
contains-sort (p ∷ ps) k = ground (arith, contains-sorted_insert p (sort ps) k, contains-sort ps k)

text_le_total : (s t : Text) → text_le s t ≡ false → text_le t s ≡ true
unfolding text_le
text_le_total [] t h = ground arith
text_le_total (a ∷ s) [] h = refl
text_le_total (a ∷ s) (b ∷ t) h = ground (arith, text_le_total s t, h)

path_le_total : (p q : PathBuf) → path_le p q ≡ false → path_le q p ≡ true
unfolding path_le
path_le_total [] q h = ground arith
path_le_total (a ∷ p) [] h = refl
path_le_total (a ∷ p) (b ∷ q) h =
    ground (arith, path_le_total p q, text_le_total a b, h, ==_iff a b, ==_iff b a)

abbrev AtMostHead : PathBuf → List PathBuf → Type 0
AtMostHead p [] = Unit
AtMostHead p (q ∷ ps) = path_le p q ≡ true

-- Each path is in order with the one behind it.
abbrev pub Sorted : List PathBuf → Type 0
Sorted [] = Unit
Sorted (p ∷ ps) = AtMostHead p ps × Sorted ps

AtMostHead-sorted_insert :
    (p q : PathBuf) (ps : List PathBuf)
    → path_le q p ≡ true
    → AtMostHead q ps
    → AtMostHead q (sorted_insert p ps)
unfolding sorted_insert
AtMostHead-sorted_insert p q [] le h = le
AtMostHead-sorted_insert p q (r ∷ ps) le h = ground (arith, Bool-cases (path_le p r))

sorted_insert-Sorted : (p : PathBuf) (ps : List PathBuf) → Sorted ps → Sorted (sorted_insert p ps)
unfolding sorted_insert
sorted_insert-Sorted p [] s = (tt, tt)
sorted_insert-Sorted p (q ∷ ps) s =
    elim (path_le p q)
        as (λ b. path_le p q ≡ b → Sorted (if b then p ∷ q ∷ ps else q ∷ sorted_insert p ps)) [
          | true ↦ λ le. (le, s)
          | false ↦ λ gt. (
            AtMostHead-sorted_insert p q ps (path_le_total p q gt) s.0,
            sorted_insert-Sorted p ps s.1,
          )
        ]
      refl

sort-Sorted : (ps : List PathBuf) → Sorted (sort ps)
unfolding sort
sort-Sorted [] = tt
sort-Sorted (p ∷ ps) = sorted_insert-Sorted p (sort ps) (sort-Sorted ps)

-- All three buckets are in the order of paths.
pub reconcile-Sorted :
    (scanned : List ScannedFileInput) (active : List ActiveFileRow)
    → let plan = reconcile scanned active in
      Sorted plan.dirty × Sorted plan.missing × Sorted plan.deleted
unfolding reconcile
reconcile-Sorted scanned active = (
  sort-Sorted (pushed (row_is_dirty active) (iter (scanned_by_path scanned))),
  sort-Sorted (pushed (is_missing active) (iter (scanned_by_path scanned))),
  sort-Sorted (
      pushed (λ path row. not (contains_key (scanned_by_path scanned) path))
        (iter (active_by_path active))),
)

abbrev pub present {ℓ} : {A : Type ℓ} → Option A → Bool
present none = false
present (some a) = true

-- a bucket holds the paths at which the scanned file, or row, passes the loop's test
abbrev bucket {ℓ} : {V : Type ℓ} → (V → Bool) → Option V → Bool
bucket test none = false
bucket test (some v) = test v

module _ {ℓ} {A : Type ℓ} (path_of : A → PathBuf) (test : PathBuf → A → Bool) where
  contains-bucket :
      (xs : List A) (p : PathBuf)
      → contains (sort (pushed test (iter (collect path_of xs empty)))) p
        ≡ bucket (test p) (last_at path_of xs p)
  unfolding iter get
  contains-bucket xs p = ground (
    arith,
    contains-sort (pushed test (iter (collect path_of xs empty))) p,
    contains-pushed test (collect path_of xs empty).entries p,
    get-collect-empty path_of xs p,
  )

-- What differs between the last scanned file with a path and the last row with it: the content hash,
-- the size, or a generation before the greatest.
abbrev pub differs : List ActiveFileRow → ScannedFileInput → ActiveFileRow → Bool
differs active file row =
    not (file.content_hash == row.content_hash)
    || not (file.size == row.size)
    || elim (max_generation active) [ none ↦ false | some g ↦ ltb row.generation g ]

-- A scanned path is missing if no row has it, and dirty if the last file and the last row with it
-- differ; a path is deleted if a row has it and no scanned file does.
pub reconcile_lem :
    (scanned : List ScannedFileInput) (active : List ActiveFileRow) (p : PathBuf)
    → let plan = reconcile scanned active in
      let file = last_at (λ file. file.path) scanned p in
      let row = last_at (λ row. row.path) active p in
      (contains plan.missing p ≡ (present file && not (present row)))
      × (contains plan.dirty p ≡ elim file [
        | none ↦ false
        | some f ↦ elim row [ none ↦ false | some r ↦ differs active f r ]
      ])
      × (contains plan.deleted p ≡ (present row && not (present file)))
unfolding reconcile active_by_path scanned_by_path is_missing row_is_dirty is_dirty
reconcile_lem scanned active p =
    let rows = get-collect-empty (λ row. row.path) active p in
    let files = get-collect-empty (λ file. file.path) scanned p in
    (
      ground
          (arith, rows, files, contains-bucket (λ file. file.path) (is_missing active) scanned p),
      ground
          (arith, rows, files, contains-bucket (λ file. file.path) (row_is_dirty active) scanned p),
      ground (
        arith,
        rows,
        files,
        contains-bucket (λ row. row.path)
            (λ path row. not (contains_key (scanned_by_path scanned) path)) active p,
      ),
    )
