-- ===== src/Cozo/Store/Batch.antt =====
-- What a batch leaves of each path.
use mathlib.Core.Option
use xgraph.Prelude.{
  ℕ, ◌<◌, ◌≤◌, ltb, true, Option, none, some, List, [], ◌∷◌, map, if◌then◌else◌, ◌==◌, ==_iff, ◌≡◌,
  refl, arith, ap, ◌∙◌, Option-cases, Bool-cases, inl, inr, nat_key, list_key,
}
use xgraph.Text.{Text, text_key}
use xgraph.Map.{
  Map, empty, get, insert, iter, get-insert, get-empty, find, put, without, unique, All,
}
use xgraph.Map.Filter.{last_row, get-put_rows}
use xgraph.Cozo.Facts.{FileUpdate}
use xgraph.Cozo.Store.{
  Store, ActiveFile, active_file_row, latest_by_path, values, applied, first_too_large,
  run_transaction, apply_file_updates_batch, put_new, remove_old,
}

-- The generations grow from one update to the next, as the owner numbers them, from above `n`.
abbrev pub Increasing : ℕ → List FileUpdate → Type 0
Increasing n [] = Unit
Increasing n (u ∷ updates) = (n < u.generation) × Increasing u.generation updates

-- The last update of a path.
unfoldable pub last_for : List FileUpdate → Text → Option FileUpdate
last_for [] p = none
last_for (u ∷ updates) p = elim (last_for updates p) [
  | some v ↦ some v
  | none ↦ if u.path == p then some u else none
]

abbrev Below : ℕ → Map Text FileUpdate → Type 0
Below n m = (p : Text) (u : FileUpdate) → get m p ≡ some u → u.generation ≤ n

get-latest_by_path :
    (updates : List FileUpdate) (n : ℕ) (m : Map Text FileUpdate) (p : Text)
    → Increasing n updates
    → Below n m
    → get (latest_by_path updates m) p
      ≡ elim (last_for updates p) [ some u ↦ some u | none ↦ get m p ]
unfolding latest_by_path last_for
get-latest_by_path [] n m p inc below = refl
get-latest_by_path (u ∷ updates) n m p inc below =
    let stored = insert m u.path u in
    let below' : Below u.generation stored =
      λ q v h. ground (arith, get-insert m u.path u q, below q v, inc.0, h) in
    let ih = get-latest_by_path updates u.generation stored p inc.1 below' in
    elim (Option-cases (get m u.path)) [
      | inl absent ↦ rw (absent, latest_by_path) (ground (arith, ih, get-insert m u.path u p))
      | inr (held, there) ↦
          let newer : ltb held.generation u.generation ≡ true =
            ground (arith, below u.path held there, inc.0) in
          rw (there, latest_by_path) (rw newer (ground (arith, ih, get-insert m u.path u p)))
    ]

-- each update stands under its path
abbrev AtPath : Text × FileUpdate → Type 0
AtPath e = e.1.path ≡ e.0

rows-without :
    (j p : Text) (l : List (Text × FileUpdate))
    → All AtPath l
    → last_row (map active_file_row (values (without j l))) p
      ≡ (if j == p then none else last_row (map active_file_row (values l)) p)
unfolding last_row values without active_file_row
rows-without j p [] h = ground arith
rows-without j p ((k, u) ∷ l) h =
    ground (arith, rows-without j p l h.1, h.0, ==_iff k j, ==_iff j p, ==_iff k p, ==_iff u.path p)

abbrev pub file_row : FileUpdate → ActiveFile
file_row u = record {
  content_hash = u.content_hash;
  mtime = u.mtime;
  size = u.size;
  generation = u.generation;
}

All-without_path :
    (j : Text) (l : List (Text × FileUpdate)) → All AtPath l → All AtPath (without j l)
unfolding without
All-without_path j [] h = tt
All-without_path j ((k, u) ∷ l) h = elim (Bool-cases (k == j)) [
  | inl same ↦ rw same (All-without_path j l h.1)
  | inr other ↦ rw other (h.0, All-without_path j l h.1)
]

All-unique_path : (l : List (Text × FileUpdate)) → All AtPath l → All AtPath (unique l)
unfolding unique
All-unique_path [] h = tt
All-unique_path ((k, u) ∷ l) h = (h.0, All-without_path k (unique l) (All-unique_path l h.1))

rows-unique :
    (p : Text) (l : List (Text × FileUpdate))
    → All AtPath l
    → last_row (map active_file_row (values (unique l))) p ≡ Option.map file_row (find p l)
unfolding last_row values unique find active_file_row
rows-unique p [] h = refl
rows-unique p ((k, u) ∷ l) h = ground (
  arith,
  rows-unique p l h.1,
  rows-without k p (unique l) (All-unique_path l h.1),
  h.0,
  ==_iff k p,
  ==_iff u.path p,
  Option-cases (find p l),
)

put-AtPath :
    (u : FileUpdate) (l : List (Text × FileUpdate)) → All AtPath l → All AtPath (put u.path u l)
unfolding put
put-AtPath u [] h = (refl, tt)
put-AtPath u ((k, v) ∷ l) h = elim (Bool-cases (k == u.path)) [
  | inl same ↦ rw same (refl, h.1)
  | inr other ↦ rw other (h.0, put-AtPath u l h.1)
]

latest_by_path-AtPath :
    (updates : List FileUpdate) (m : Map Text FileUpdate)
    → All AtPath m.entries
    → All AtPath (latest_by_path updates m).entries
unfolding latest_by_path insert
latest_by_path-AtPath [] m h = h
latest_by_path-AtPath (u ∷ updates) m h =
    let stored = put-AtPath u m.entries h in
    elim (Option-cases (get m u.path)) [
      | inl absent ↦
          rw (absent, latest_by_path) (latest_by_path-AtPath updates (insert m u.path u) stored)
      | inr (held, there) ↦ elim (Bool-cases (ltb held.generation u.generation)) [
        | inl newer ↦
            rw (there, latest_by_path)
              (rw newer (latest_by_path-AtPath updates (insert m u.path u) stored))
        | inr older ↦ rw (there, latest_by_path) (rw older (latest_by_path-AtPath updates m h))
      ]
    ]

last_for_nil : (p : Text) → last_for [] p ≡ none
unfolding last_for
last_for_nil p = refl

none_lem : (o : Option FileUpdate) → elim o [ some u ↦ some u | none ↦ none ] ≡ o
none_lem none = refl
none_lem (some u) = refl

latest-row :
    (n : ℕ) (updates : List FileUpdate) (p : Text)
    → Increasing n updates
    → last_row (map active_file_row (values (iter (latest_by_path updates empty)))) p
      ≡ Option.map file_row (last_for updates p)
unfolding iter get
latest-row n updates p inc =
    let latest = latest_by_path updates empty in
    rows-unique p latest.entries (latest_by_path-AtPath updates empty tt)
    ∙ ap (Option.map file_row) (
        get-latest_by_path updates n empty p inc
          (λ q v h. absurd (ground (arith, h, get-empty {V = FileUpdate} q)))
        ∙ none_lem (last_for updates p))

module _ (refuses : List FileUpdate → Option Text) where
  run_transaction-applied :
      (s s' : Store) (updates : List FileUpdate)
      → run_transaction refuses s updates ≡ applied s'
      → s' ≡ put_new updates (remove_old (map (λ (u : FileUpdate). u.path) updates) s)
  unfolding run_transaction
  run_transaction-applied s s' updates h = elim (Option-cases (first_too_large updates)) [
    | inr (value, e) ↦ absurd (ground (arith, e, h))
    | inl fits ↦ elim (Option-cases (refuses updates)) [
      | inr (message, e) ↦ absurd (ground (arith, fits, e, h))
      | inl accepted ↦ ground (arith, fits, accepted, h)
    ]
  ]

  put_new-active_file :
      (updates : List FileUpdate) (paths : List Text) (s : Store) (p : Text)
      → get (put_new updates (remove_old paths s)).active_file p
        ≡ elim (last_row (map active_file_row updates) p) [
          | some r ↦ some r
          | none ↦ get s.active_file p
        ]
  unfolding put_new remove_old
  put_new-active_file updates paths s p = get-put_rows (map active_file_row updates) s.active_file p

  -- After an accepted batch of updates whose generations grow, the row of each path in `active_file` is
  -- that of the last update of the path, and of the other paths what it was.
  pub apply_file_updates_batch-active_file :
      (n : ℕ) (s s' : Store) (updates : List FileUpdate) (p : Text)
      → Increasing n updates
      → apply_file_updates_batch refuses s updates ≡ applied s'
      → get s'.active_file p
        ≡ elim (last_for updates p) [ some u ↦ some (file_row u) | none ↦ get s.active_file p ]
  unfolding apply_file_updates_batch
  apply_file_updates_batch-active_file n s s' [] p inc h = rw (last_for_nil p) (ground (arith, h))
  apply_file_updates_batch-active_file n s s' (u ∷ updates) p inc h =
      let latest = latest_by_path (u ∷ updates) empty in
      let us = values (iter latest) in
      ap (λ (t : Store). get t.active_file p) (run_transaction-applied s s' us h)
      ∙ put_new-active_file us (map (λ (u : FileUpdate). u.path) us) s p
      ∙ ground (arith, latest-row n (u ∷ updates) p inc, Option-cases (last_for (u ∷ updates) p))
