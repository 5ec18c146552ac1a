-- ===== src/Map/Filter.antt =====
-- `map.retain(|k, v| p(k, v))`, and rows put one after another.
use xgraph.Prelude.{
  ◌≡◌, refl, Bool, Option, none, some, List, [], ◌∷◌, arith, Key, ◌==◌, ==_iff, if◌then◌else◌,
  Bool-cases, inl, inr,
}
use xgraph.Map.{Map, get, insert, get-insert, find, without, find-without}

module _ {ℓ κ} {K : Type ℓ} {V : Type κ} ⦃e : Key K⦄ where
  unfoldable pub retained : (K → V → Bool) → List (K × V) → List (K × V)
  unfolding without
  retained p [] = []
  retained p ((k, v) ∷ l) =
      let rest = retained p l in if p k v then (k, v) ∷ rest else without k rest

  unfoldable pub retain_entries : (K → V → Bool) → Map K V → Map K V
  unfolding retained
  retain_entries p m = record { entries = retained p m.entries }

  abbrev pub passing_at : (K → V → Bool) → K → Option V → Option V
  passing_at p k none = none
  passing_at p k (some v) = if p k v then some v else none

  find-retained :
      (p : K → V → Bool) (l : List (K × V)) (k : K)
      → find k (retained p l) ≡ passing_at p k (find k l)
  unfolding retained find
  find-retained p [] k = refl
  find-retained p ((j, v) ∷ l) k = elim (Bool-cases (j == k)) [
    | inl same ↦
        let eq : j ≡ k = (==_iff j k).0 same in
        ground (arith, find-without j k (retained p l), same, eq)
    | inr other ↦ ground (arith, find-without j k (retained p l), find-retained p l k, other)
  ]

  pub get-retain_entries :
      (p : K → V → Bool) (m : Map K V) (k : K)
      → get (retain_entries p m) k ≡ passing_at p k (get m k)
  unfolding get retain_entries
  get-retain_entries p m k = find-retained p m.entries k

  -- `:put` of rows: a later row takes the place of an earlier one
  unfoldable pub put_rows : List (K × V) → Map K V → Map K V
  put_rows [] m = m
  put_rows ((k, v) ∷ rows) m = put_rows rows (insert m k v)

  -- the last row of a key
  unfoldable pub last_row : List (K × V) → K → Option V
  last_row [] k = none
  last_row ((j, v) ∷ rows) k = elim (last_row rows k) [
    | some w ↦ some w
    | none ↦ if j == k then some v else none
  ]

  pub get-put_rows :
      (rows : List (K × V)) (m : Map K V) (k : K)
      → get (put_rows rows m) k ≡ elim (last_row rows k) [ some v ↦ some v | none ↦ get m k ]
  unfolding put_rows last_row
  get-put_rows [] m k = refl
  get-put_rows ((j, v) ∷ rows) m k =
      ground (arith, get-put_rows rows (insert m j v) k, get-insert m j v k)
