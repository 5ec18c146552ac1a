-- ===== src/Cozo/Writer/Persist.antt =====
-- From the messages of the owner to the rows of the store.

use xgraph.Prelude.{
  ℕ, ◌<◌, Bool, true, false, Option, none, some, List, [], ◌∷◌, ◌++◌, map, if◌then◌else◌, length,
  ◌≡◌, refl, arith, ap, sym, ◌∙◌, ==_iff, ◌==◌, append-nil, Option-cases, subst,
}
use xgraph.Text.{Text, text, text_key}
use xgraph.Map.{Map, get, get-empty}
use xgraph.Cozo.Facts.{FileUpdate}
use xgraph.Cozo.Store.{
  Store, CozoError, ActiveFile, applied, failed, apply_file_updates_batch, Truncation, left_by,
  truncate_graph,
}
use xgraph.Cozo.Store.Batch.{Increasing, last_for, file_row, apply_file_updates_batch-active_file}
use xgraph.Cozo.Writer.{WriterMessage, shutdown, Action, commit, flushed, truncated, writer_loop}
use xgraph.Cozo.Writer.Rounds.{Effect, writes, wipes, effects_of, shuts, effects}
use xgraph.Cozo.Writer.Order.{writer_loop-Does, effects_of-append, writer_loop_takes_all}
use xgraph.Cozo.Writer.Perform.{WriterState, record_error, perform, perform_all, run_writer}

module _ (truncation : ℕ → Truncation) where
  -- The row of a path once updates and truncations have been done one by one, from `row` on. A
  -- truncation leaves no row if it removes `active_file`.
  unfoldable pub row_after : Text → Option ActiveFile → List Effect → Option ActiveFile
  row_after p row [] = row
  row_after p row (wipes c ∷ effects) =
      row_after p (if (truncation c).removed (text "active_file") then none else row) effects
  row_after p row (writes u ∷ effects) =
      row_after p (if u.path == p then some (file_row u) else row) effects

  row_after-append :
      (p : Text) (row : Option ActiveFile) (xs ys : List Effect)
      → row_after p row (xs ++ ys) ≡ row_after p (row_after p row xs) ys
  unfolding row_after
  row_after-append p row [] ys = refl
  row_after-append p row (wipes c ∷ xs) ys =
      row_after-append p (if (truncation c).removed (text "active_file") then none else row) xs ys
  row_after-append p row (writes u ∷ xs) ys =
      row_after-append p (if u.path == p then some (file_row u) else row) xs ys

  row_after-map :
      (p : Text) (row : Option ActiveFile) (us : List FileUpdate)
      → row_after p row (map writes us)
        ≡ elim (last_for us p) [ some u ↦ some (file_row u) | none ↦ row ]
  unfolding row_after last_for
  row_after-map p row [] = refl
  row_after-map p row (u ∷ us) =
      row_after-map p (if u.path == p then some (file_row u) else row) us
      ∙ ground (arith, Option-cases (last_for us p), ==_iff u.path p)

get-left_by :
    (gone : Bool) (m : Map Text ActiveFile) (p : Text)
    → get (left_by gone m) p ≡ (if gone then none else get m p)
get-left_by true m p = get-empty {V = ActiveFile} p
get-left_by false m p = refl

-- The generations grow from above `n` on, and from above zero after a truncation.
abbrev pub Growing : ℕ → List Effect → Type 0
Growing n [] = Unit
Growing n (wipes c ∷ effects) = Growing 0 effects
Growing n (writes u ∷ effects) = (n < u.generation) × Growing u.generation effects

-- a batch within them
Growing-batch :
    (n : ℕ) (us : List FileUpdate) (later : List Effect)
    → Growing n (map writes us ++ later)
    → Increasing n us × (m : ℕ) × Growing m later
Growing-batch n [] later h = (tt, n, h)
Growing-batch n (u ∷ us) later h =
    let rest = Growing-batch u.generation us later h.1 in ((h.0, rest.0), rest.1, rest.2)

append-one : (es : List CozoError) (e : CozoError) → es ++ e ∷ [] ≡ [] → ⊥
append-one [] e h = ground (arith, h)
append-one (_ ∷ es) e h = ground (arith, h)

module _ (refuses : List FileUpdate → Option Text) (truncation : ℕ → Truncation) where
  -- errors are never forgotten
  perform_all_keeps :
      (w : WriterState) (actions : List Action)
      → (perform_all refuses truncation w actions).errors ≡ []
      → w.errors ≡ []
  unfolding perform_all perform
  perform_all_keeps w [] h = h
  perform_all_keeps w (commit us ∷ actions) h =
      elim (apply_file_updates_batch refuses w.store us)
          as (λ r.
            (perform_all refuses truncation (record_error w r) actions).errors ≡ []
            → w.errors ≡ []) [
              | applied s ↦ λ k. perform_all_keeps (record w { store = s }) actions k
              | failed e ↦ λ k.
                  elim (append-one w.errors e
                    (perform_all_keeps (record w { errors = w.errors ++ e ∷ [] }) actions k)) [ ]
            ]
        h
  perform_all_keeps w (flushed c ∷ actions) h = perform_all_keeps w actions h
  perform_all_keeps w (truncated c ∷ actions) h =
      perform_all_keeps (record w { store = truncate_graph (truncation c) w.store }) actions h

  perform_all-active_file :
      (n : ℕ) (w : WriterState) (actions : List Action) (p : Text)
      → Growing n (effects actions)
      → (perform_all refuses truncation w actions).errors ≡ []
      → get (perform_all refuses truncation w actions).store.active_file p
        ≡ row_after truncation p (get w.store.active_file p) (effects actions)
  unfolding perform_all perform row_after truncate_graph
  perform_all-active_file n w [] p inc h = refl
  perform_all-active_file n w (commit us ∷ actions) p inc h =
      let parts = Growing-batch n us (effects actions) inc in
      elim (apply_file_updates_batch refuses w.store us)
          as (λ r.
            apply_file_updates_batch refuses w.store us ≡ r
            → (perform_all refuses truncation (record_error w r) actions).errors ≡ []
            → get (perform_all refuses truncation (record_error w r) actions).store.active_file p
              ≡ row_after truncation p (get w.store.active_file p)
                  (map writes us ++ effects actions)) [
                    | applied s ↦ λ e k.
                        perform_all-active_file parts.1 (record w { store = s }) actions p parts.2 k
                        ∙ ap (λ row. row_after truncation p row (effects actions))
                            (apply_file_updates_batch-active_file refuses n w.store s us p parts.0 e
                              ∙ sym (row_after-map truncation p (get w.store.active_file p) us))
                        ∙ sym (
                            row_after-append truncation p (get w.store.active_file p)
                              (map writes us) (effects actions))
                    | failed e ↦ λ _ k.
                        elim (append-one w.errors e (
                          perform_all_keeps (record w { errors = w.errors ++ e ∷ [] }) actions
                            k)) [ ]
                  ]
        refl h
  perform_all-active_file n w (flushed c ∷ actions) p inc h =
      perform_all-active_file n w actions p inc h
  perform_all-active_file n w (truncated c ∷ actions) p inc h =
      perform_all-active_file 0 (record w { store = truncate_graph (truncation c) w.store }) actions
        p inc h
      ∙ ap (λ r. row_after truncation p r (effects actions))
          (get-left_by ((truncation c).removed (text "active_file")) w.store.active_file p)

  -- When shutdown is the last of the messages, the generations of the updates grow up to each truncation
  -- and again after it, and the writer recorded no error, then once it has stopped `active_file` holds
  -- for each path what the messages one by one would leave: the row of the path's last update since the
  -- last truncation that removed the rows, and without one what this, or the start, left.
  pub writer_loop_persists :
      (found : List ℕ) (ms : List WriterMessage) (n : ℕ) (s : Store) (p : Text)
      → shuts ms ≡ false
      → length ms < length found
      → Growing n (effects_of ms)
      → (run_writer refuses truncation found (ms ++ shutdown ∷ []) s).errors ≡ []
      → get (run_writer refuses truncation found (ms ++ shutdown ∷ []) s).store.active_file p
        ≡ row_after truncation p (get s.active_file p) (effects_of ms)
  writer_loop_persists found ms n s p quiet enough inc h =
      let queue = ms ++ shutdown ∷ [] in
      let r = writer_loop found queue in
      let same : effects r.actions ≡ effects_of ms =
        (writer_loop-Does found queue).effects_all
        ∙ ap effects_of (writer_loop_takes_all found ms quiet enough).1
        ∙ effects_of-append ms (shutdown ∷ [])
        ∙ append-nil (effects_of ms) in
      perform_all-active_file n (record { store = s; errors = [] }) r.actions p
        (subst (Growing n) (sym same) inc) h
      ∙ ap (row_after truncation p (get s.active_file p)) same
