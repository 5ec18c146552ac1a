-- ===== src/Map.antt =====
-- `HashMap`, `DashMap` and `BTreeMap` of the standard library as association lists. A map holds
-- the first entry of a key; `iter` lists each key once, so no lemma needs an invariant on the
-- representation. The order of `iter` is the order of first insertion, one of those that the
-- standard library leaves open.
pub mod Lists
pub mod Filter
use mathlib.Core.Option
use xgraph.Prelude.{
  map, ℕ, ◌≡◌, ◌↔◌, refl, Bool, true, false, ◌&&◌, Option, none, some, List, [], ◌∷◌, arith, Key,
  ◌==◌, ==_iff, if◌then◌else◌, Bool-cases, inl, inr, ==_refl, ==_comm,
}

pub record Map {ℓ κ} (K : Type ℓ) (V : Type κ) : Type (ℓ ⊔ κ) where
  pub entries : List (K × V)

module _ {ℓ κ} {K : Type ℓ} {V : Type κ} where
  abbrev pub empty : Map K V
  empty = record { entries = [] }

-- `Option::filter`
abbrev pub passing {ℓ} : {V : Type ℓ} → (V → Bool) → Option V → Option V
passing p none = none
passing p (some v) = if p v then some v else none

-- Every item of a list has a property.
abbrev pub All {ℓ κ} : {A : Type ℓ} → (A → Type κ) → List A → Type κ
All P [] = Unit
All P (x ∷ xs) = P x × All P xs

pub All-map {ℓ κ ι} :
    {A : Type ℓ} (P : A → Type κ) (Q : A → Type ι) (xs : List A)
    → ((a : A) → P a → Q a)
    → All P xs
    → All Q xs
All-map P Q [] f h = tt
All-map P Q (x ∷ xs) f h = (f x h.0, All-map P Q xs f h.1)

module _ {ℓ κ} {K : Type ℓ} {V : Type κ} ⦃e : Key K⦄ where
  unfoldable pub find : K → List (K × V) → Option V
  find k [] = none
  find k ((j, v) ∷ l) = if j == k then some v else find k l

  unfoldable pub without : (gone : K) → List (K × V) → List (K × V)
  without gone [] = []
  without gone ((key, value) ∷ others) =
      let left = without gone others in if key == gone then left else (key, value) ∷ left

  unfoldable pub put : K → V → List (K × V) → List (K × V)
  put k v [] = (k, v) ∷ []
  put k v ((j, w) ∷ l) = if j == k then (k, v) ∷ l else (j, w) ∷ put k v l

  -- the entries of a map, each key once
  unfoldable pub unique : List (K × V) → List (K × V)
  unique [] = []
  unique ((j, v) ∷ l) = (j, v) ∷ without j (unique l)

  -- the entries whose value passes a test
  unfoldable pub keep : (V → Bool) → List (K × V) → List (K × V)
  keep p [] = []
  keep p ((j, v) ∷ l) = if p v then (j, v) ∷ keep p l else without j (keep p l)

  -- `map.get(k)`
  unfoldable pub get : Map K V → K → Option V
  unfolding find
  get m k = find k m.entries

  -- `map.contains_key(k)`
  abbrev pub contains_key : Map K V → K → Bool
  contains_key m k = elim (get m k) [ none ↦ false | some _ ↦ true ]

  -- `map.insert(k, v)`
  unfoldable pub insert : Map K V → K → V → Map K V
  unfolding put
  insert m k v = record { entries = put k v m.entries }

  -- `map.remove(k)`
  unfoldable pub remove : Map K V → K → Map K V
  unfolding without
  remove m k = record { entries = without k m.entries }

  -- `map.retain(|_, v| p(v))`
  unfoldable pub retain_values : Map K V → (V → Bool) → Map K V
  unfolding keep without
  retain_values m p = record { entries = keep p m.entries }

  -- `for (_, v) in map.iter_mut() { *v = f(v) }`
  unfoldable pub map_values : (V → V) → Map K V → Map K V
  map_values f m = record { entries = map (λ (k, v). (k, f v)) m.entries }

  -- `if let Some(v) = map.get_mut(k) { *v = f(v) }`
  unfoldable pub adjust : Map K V → K → (V → V) → Map K V
  adjust m k f = elim (get m k) [ none ↦ m | some v ↦ insert m k (f v) ]

  -- `map.iter()`
  unfoldable pub iter : Map K V → List (K × V)
  unfolding unique without
  iter m = unique m.entries

module _ {ℓ κ} {K : Type ℓ} {V : Type κ} ⦃e : Key K⦄ where
  pub find-without :
      (k j : K) (l : List (K × V)) → find j (without k l) ≡ (if k == j then none else find j l)
  unfolding find without
  find-without k j [] = ground arith
  find-without k j ((i, v) ∷ l) =
      ground (arith, find-without k j l, e.same_iff i k, e.same_iff i j, e.same_iff k j)

  find-put :
      (k j : K) (v : V) (l : List (K × V))
      → find j (put k v l) ≡ (if k == j then some v else find j l)
  unfolding find put
  find-put k j v [] = refl
  find-put k j v ((i, w) ∷ l) =
      ground (arith, find-put k j v l, e.same_iff i k, e.same_iff i j, e.same_iff k j)

  pub find-unique : (k : K) (l : List (K × V)) → find k (unique l) ≡ find k l
  unfolding find unique
  find-unique k [] = refl
  find-unique k ((j, v) ∷ l) =
      ground (arith, find-without j k (unique l), find-unique k l, e.same_iff j k)

  find-keep : (k : K) (p : V → Bool) (l : List (K × V)) → find k (keep p l) ≡ passing p (find k l)
  unfolding find keep
  find-keep k p [] = refl
  find-keep k p ((j, v) ∷ l) =
      ground (arith, find-without j k (keep p l), find-keep k p l, e.same_iff j k)

  pub get-empty : (k : K) → get (empty {V = V}) k ≡ none
  unfolding get
  get-empty k = refl

  pub get-insert :
      (m : Map K V) (k : K) (v : V) (j : K)
      → get (insert m k v) j ≡ (if k == j then some v else get m j)
  unfolding get insert
  get-insert m k v j = find-put k j v m.entries

  pub get-remove : (m : Map K V) (k j : K) → get (remove m k) j ≡ (if k == j then none else get m j)
  unfolding get remove
  get-remove m k j = find-without k j m.entries

  pub get-retain_values :
      (m : Map K V) (p : V → Bool) (j : K) → get (retain_values m p) j ≡ passing p (get m j)
  unfolding get retain_values
  get-retain_values m p j = find-keep j p m.entries

  find-map_values :
      (f : V → V) (l : List (K × V)) (j : K)
      → find j (map (λ (k, v). (k, f v)) l) ≡ Option.map f (find j l)
  unfolding find
  find-map_values f [] j = refl
  find-map_values f ((k, v) ∷ l) j = ground (arith, find-map_values f l j)

  pub get-map_values :
      (f : V → V) (m : Map K V) (j : K) → get (map_values f m) j ≡ Option.map f (get m j)
  unfolding get map_values
  get-map_values f m j = find-map_values f m.entries j

  All-without :
      (P : K × V → Type κ) (k : K) (l : List (K × V))
      → All P l
      → All (λ e. P e × ((k == e.0) ≡ false)) (without k l)
  unfolding without
  All-without P k [] h = tt
  All-without P k ((j, v) ∷ l) h = elim (Bool-cases (j == k)) [
    | inl same ↦ rw same (All-without P k l h.1)
    | inr other ↦ rw other ((h.0, rw (==_comm k j) other), All-without P k l h.1)
  ]

  All-unique : (l : List (K × V)) → All (λ e. find e.0 l ≡ some e.1) (unique l)
  unfolding find unique
  All-unique [] = tt
  All-unique ((j, v) ∷ l) = (
    rw (==_refl j),
    All-map (λ e. (find e.0 l ≡ some e.1) × ((j == e.0) ≡ false)) _ (without j (unique l))
        (λ e h. rw h.1 h.0) (All-without (λ e. find e.0 l ≡ some e.1) j (unique l) (All-unique l)),
  )

  -- `iter` lists the entries of a map and no others.
  pub All-iter : (m : Map K V) → All (λ e. get m e.0 ≡ some e.1) (iter m)
  unfolding iter get
  All-iter m = All-unique m.entries

  pub find-iter : (m : Map K V) (k : K) → find k (iter m) ≡ get m k
  unfolding iter get
  find-iter m k = find-unique k m.entries

pub ruleset map_laws = (get-empty, get-insert, get-remove, get-retain_values, get-map_values)
