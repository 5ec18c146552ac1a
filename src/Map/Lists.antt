-- ===== src/Map/Lists.antt =====
-- Maps whose values are lists: `entry(k).or_default()`, `get(k).cloned().unwrap_or_default()`, and
-- entries that go when their list gets empty.
use xgraph.Prelude.{
  ◌≡◌, true, false, not, none, some, List, [], arith, Key, ◌==◌, if◌then◌else◌, contains,
  contains-retain, contains-push_new, retain, push_new, is_empty, push_new-not_empty,
  is_empty-contains, Option-cases, inl, inr,
}
use xgraph.Map.{
  Map, get, insert, remove, retain_values, get-insert, get-remove, get-retain_values, contains_key,
}

module _ {ℓ κ} {K : Type ℓ} {V : Type κ} ⦃e : Key K⦄ where
  -- `map.get(k).cloned().unwrap_or_default()`
  abbrev pub get_list : Map K (List V) → K → List V
  get_list m k = elim (get m k) [ none ↦ [] | some l ↦ l ]

  -- `map.retain(|_, l| !l.is_empty())`
  unfoldable pub drop_empty : Map K (List V) → Map K (List V)
  drop_empty m = retain_values m (λ l. not (is_empty l))

  pub get_list-drop_empty : (m : Map K (List V)) (k : K) → get_list (drop_empty m) k ≡ get_list m k
  unfolding drop_empty
  get_list-drop_empty m k = ground (arith, get-retain_values m (λ l. not (is_empty l)) k)

module _ {ℓ κ} {K : Type ℓ} {V : Type κ} ⦃e : Key K⦄ ⦃d : Key V⦄ where
  -- `let l = map.entry(k).or_default(); if !l.contains(v) { l.push(v) }`
  unfoldable pub push_at : Map K (List V) → K → V → Map K (List V)
  push_at m k v = insert m k (push_new v (get_list m k))

  -- `if let Some(l) = map.get_mut(k) { l.retain(|w| w != v); if l.is_empty() { map.remove(k) } }`
  unfoldable pub prune : Map K (List V) → K → V → Map K (List V)
  prune m k v = elim (get m k) [
    | none ↦ m
    | some l ↦
        let rest = retain (λ w. not (w == v)) l in
        if is_empty rest then remove m k else insert m k rest
  ]

  -- No key has an empty list.
  abbrev pub NoEmpty : Map K (List V) → Type (ℓ ⊔ κ)
  NoEmpty m = (k : K) (l : List V) → get m k ≡ some l → is_empty l ≡ false

  pub push_at_lem :
      (m : Map K (List V)) (k : K) (v : V) (j : K) (w : V)
      → contains (get_list (push_at m k v) j) w ≡ (
          if k == j
          then (if v == w then true else contains (get_list m j) w)
          else contains (get_list m j) w)
  unfolding push_at
  push_at_lem m k v j w = ground (
    arith,
    get-insert m k (push_new v (get_list m k)) j,
    contains-push_new v (get_list m k) w,
    e.same_iff k j,
  )

  pub push_at-contains_key :
      (m : Map K (List V)) (k : K) (v : V) (j : K)
      → contains_key (push_at m k v) j ≡ (if k == j then true else contains_key m j)
  unfolding push_at
  push_at-contains_key m k v j = ground (arith, get-insert m k (push_new v (get_list m k)) j)

  pub push_at-NoEmpty : (m : Map K (List V)) (k : K) (v : V) → NoEmpty m → NoEmpty (push_at m k v)
  unfolding push_at
  push_at-NoEmpty m k v h j l p = ground (
    arith,
    get-insert m k (push_new v (get_list m k)) j,
    push_new-not_empty v (get_list m k),
    h j l,
  )

  pub prune_lem :
      (m : Map K (List V)) (k : K) (v : V) (j : K) (w : V)
      → contains (get_list (prune m k v) j) w ≡ (
          if k == j
          then (if w == v then false else contains (get_list m j) w)
          else contains (get_list m j) w)
  unfolding prune contains
  prune_lem m k v j w = elim (Option-cases (get m k)) [
    | inl absent ↦ ground (arith, e.same_iff k j)
    | inr (l, found) ↦
        let rest = retain (λ w. not (w == v)) l in
        ground (
          arith,
          get-remove m k j,
          get-insert m k rest j,
          contains-retain (λ w. not (w == v)) l w,
          is_empty-contains rest w,
          e.same_iff k j,
        )
  ]

  pub prune-NoEmpty : (m : Map K (List V)) (k : K) (v : V) → NoEmpty m → NoEmpty (prune m k v)
  unfolding prune
  prune-NoEmpty m k v h j l p = elim (Option-cases (get m k)) [
    | inl absent ↦ ground (arith, h j l)
    | inr (l', found) ↦
        let rest = retain (λ w. not (w == v)) l' in
        ground (arith, get-remove m k j, get-insert m k rest j, h j l)
  ]

  pub prune-contains_key :
      (m : Map K (List V)) (k : K) (v : V) (j : K)
      → contains_key (prune m k v) j ≡ true
      → contains_key m j ≡ true
  unfolding prune
  prune-contains_key m k v j p = elim (Option-cases (get m k)) [
    | inl absent ↦ ground arith
    | inr (l, found) ↦
        let rest = retain (λ w. not (w == v)) l in
        ground (arith, get-remove m k j, get-insert m k rest j, e.same_iff k j)
  ]

  pub drop_empty-NoEmpty : (m : Map K (List V)) → NoEmpty (drop_empty m)
  unfolding drop_empty
  drop_empty-NoEmpty m j l p = ground (arith, get-retain_values m (λ l. not (is_empty l)) j)

  pub contains_key-NoEmpty :
      (m : Map K (List V)) (k : K) (v : V)
      → contains (get_list m k) v ≡ true
      → contains_key m k ≡ true
  unfolding contains
  contains_key-NoEmpty m k v h = ground arith
