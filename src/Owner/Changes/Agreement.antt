-- ===== src/Owner/Changes/Agreement.antt =====
-- The indexes that requests read, against the store that the writer leaves.
use mathlib.Core.Option
use xgraph.Prelude.{
  ℕ, ◌<◌, Option, none, some, List, [], ◌∷◌, ◌++◌, length, ◌≡◌, refl, ◌∙◌, ◌==◌, Bool-cases,
  Option-cases, Bool, true, false, inl, inr, nat_key, list_key,
}
use xgraph.Text.{Text, text, text_key}
use xgraph.Map.{get}
use xgraph.Cozo.Facts.{FileUpdate}
use xgraph.Cozo.Store.{empty_store, Truncation}
use xgraph.Cozo.Store.Batch.{file_row}
use xgraph.Cozo.Writer.{shutdown}
use xgraph.Cozo.Writer.Rounds.{Effect, writes, wipes, effects_of}
use xgraph.Cozo.Writer.Perform.{run_writer}
use xgraph.Cozo.Writer.Persist.{row_after, writer_loop_persists}
use xgraph.Indexes.State.{nodes_in_file}
use xgraph.Owner.Changes.{WorktreeOwner}
use xgraph.Owner.Changes.History.{latest_of, held_ids, Reaches}
use xgraph.Owner.Changes.History.Kept.{Reaches-InStep}

abbrev pub is_none : Option Text → Bool
is_none none = true
is_none (some e) = false

-- A truncation reports an error exactly if it leaves the rows of `active_file`.
abbrev pub Reported : (ℕ → Truncation) → Type 0
Reported truncation =
    (c : ℕ) → (truncation c).removed (text "active_file") ≡ is_none (truncation c).error

row_after-latest_of :
    (truncation : ℕ → Truncation) (p : Text) (held : Option FileUpdate) (es : List Effect)
    → Reported truncation
    → row_after truncation p (Option.map file_row held) es
      ≡ Option.map file_row (latest_of truncation p held es)
unfolding row_after latest_of
row_after-latest_of truncation p held [] reported = refl
row_after-latest_of truncation p held (wipes c ∷ es) reported =
    elim (Option-cases (truncation c).error) [
      | inl done ↦ rw (reported c) (rw done (row_after-latest_of truncation p none es reported))
      | inr (e, refused) ↦
          rw (reported c) (rw refused (row_after-latest_of truncation p held es reported))
    ]
row_after-latest_of truncation p held (writes u ∷ es) reported = elim (Bool-cases (u.path == p)) [
  | inl same ↦ rw same (row_after-latest_of truncation p (some u) es reported)
  | inr other ↦ rw other (row_after-latest_of truncation p held es reported)
]

-- An owner started on an empty store, whatever it has done since, a path that is the text of no path but
-- itself, and an engine whose truncations report an error exactly if they leave the rows of
-- `active_file`: once the writer has handled all that was sent and recorded no error, one update (or
-- none) accounts for the path in both places, for its row in `active_file` and for the nodes that the
-- indexes list.
pub indexes_and_store_agree :
    (refuses : List FileUpdate → Option Text) (truncation : ℕ → Truncation) (lossy : Text → Text)
    (found : List ℕ) (o : WorktreeOwner) (p : Text)
    → Reaches truncation lossy o
    → ((q : Text) → (lossy q == p) ≡ (q == p))
    → Reported truncation
    → length o.sent < length found
    → (run_writer refuses truncation found (o.sent ++ shutdown ∷ []) empty_store).errors ≡ []
    → (held : Option FileUpdate) × (held ≡ latest_of truncation p none (effects_of o.sent))
      × (get
            (run_writer refuses truncation found
              (o.sent ++ shutdown ∷ [])
              empty_store).store.active_file
            p
          ≡ Option.map file_row held)
      × (nodes_in_file o.indexes p ≡ held_ids held)
unfolding get
indexes_and_store_agree refuses truncation lossy found o p r written reported enough clean =
    let h = Reaches-InStep truncation lossy p written r in
    (
      latest_of truncation p none (effects_of o.sent),
      refl,
      writer_loop_persists refuses truncation found o.sent 0 empty_store p h.quiet enough h.numbered
            clean
          ∙ row_after-latest_of truncation p none (effects_of o.sent) reported,
      h.listed,
    )
