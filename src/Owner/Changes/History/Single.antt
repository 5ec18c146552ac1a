-- ===== src/Owner/Changes/History/Single.antt =====
-- Every operation of the owner on one path keeps its indexes and its messages in step.
use xgraph.Prelude.{
  ℕ, ◌+◌, true, none, [], ◌∷◌, ◌++◌, if◌then◌else◌, ◌≡◌, refl, arith, ap, sym, ◌∙◌, ◌==◌, ==_iff,
  inl, inr, Bool-cases, Option-cases, subst, ◌⊎◌, list_key, nat_key,
}
use xgraph.Text.{Text, text_key}
use xgraph.Cozo.Facts.{FileUpdate}
use xgraph.Cozo.Store.{Store, Truncation}
use xgraph.Cozo.Writer.{WriterMessage, update}
use xgraph.Cozo.Writer.Rounds.{effects_of, writes}
use xgraph.Cozo.Writer.Order.{effects_of-append, shuts-append}
use xgraph.Cozo.Writer.Persist.{Growing}
use xgraph.Indexes.State.{HotIndexes, nodes_in_file}
use xgraph.Indexes.Update.{ids_of, apply_file_update, remove_path}
use xgraph.Indexes.Update.Replace.{apply_file_update-files, remove_path-files}
use xgraph.Imports.Python.{RelPath}
use xgraph.Scanner.{detect_language}
use xgraph.Owner.Symbols.{PreparedFile, SymbolTable, default}
use xgraph.Owner.Paths.{file_name}
use xgraph.Owner.Status.{unmark_pending}
use xgraph.Owner.Changes.{
  World, Outcome, ok, err, OwnerError, WorktreeOwner, Step, and_then, send, submit, relative_to,
  raw_path, to_string_lossy, set_pending, prepare_file_from_bytes, update_of, submit_prepared,
  process_change_inner, process_change, empty_update, process_delete_inner, process_delete,
}
use xgraph.Owner.Changes.History.{
  latest_of, held_ids, last_generation, latest_of-append, Growing-next, last_generation-append,
  InStep, InStep-status,
}

pub and_then-holds :
    {A B : Type 0} (P : WorktreeOwner → Type 0) (r : Step A) (next : A → WorktreeOwner → Step B)
    → P r.owner
    → ((a : A) (o : WorktreeOwner) → P o → P (next a o).owner)
    → P (and_then r next).owner
and_then-holds P r next h k =
    elim r.outcome as (λ x. P (and_then (record { outcome = x; owner = r.owner }) next).owner) [
      | ok a ↦ k a r.owner h
      | err e ↦ h
    ]

pub Outcome-cases :
    {A : Type 0} (x : Outcome A) → ((a : A) × (x ≡ ok a)) ⊎ ((e : OwnerError) × (x ≡ err e))
Outcome-cases (ok a) = inl (a, refl)
Outcome-cases (err e) = inr (e, refl)

pub send_lem :
    (o : WorktreeOwner) (message : WriterMessage)
    → o.is_open ≡ true
    → send o message
      ≡ record { outcome = ok tt; owner = record o { sent = o.sent ++ message ∷ [] } }
unfolding send
send_lem o message h = rw h refl

-- The path is the text of no path but itself.
module _ (truncation : ℕ → Truncation) (lossy : Text → Text) (p : Text)
    (written : (q : Text) → (lossy q == p) ≡ (q == p)) where
  -- an update that the indexes have already taken
  submit-InStep :
      (o : WorktreeOwner) (idx : HotIndexes) (u : FileUpdate)
      → u.generation ≡ o.generation
      → nodes_in_file idx p
        ≡ (if u.path == p then ids_of u.content_hash u.nodes else nodes_in_file o.indexes p)
      → InStep truncation p o
      → InStep truncation p
          (submit (record o { generation = o.generation + 1; indexes = idx }) u).owner
  unfolding submit send latest_of
  submit-InStep o idx u number lists h = rw h.is_open (record {
    is_open = refl;
    quiet = shuts-append o.sent (update u ∷ []) ∙ ground (arith, h.quiet);
    numbered =
        subst (Growing 0) (sym (effects_of-append o.sent (update u ∷ [])))
          (Growing-next 0 (effects_of o.sent) u h.numbered (omega (arith, h.next, number)));
    next = omega (
      arith,
      number,
      ap (last_generation 0) (effects_of-append o.sent (update u ∷ [])),
      last_generation-append 0 (effects_of o.sent) (writes u),
    );
    listed =
        lists
        ∙ ground (arith, h.listed, ==_iff u.path p)
        ∙ ap held_ids (
            sym (
              ap (latest_of truncation p none) (effects_of-append o.sent (update u ∷ []))
              ∙ latest_of-append truncation p none (effects_of o.sent) (writes u ∷ [])));
  })

  pub submit_prepared-InStep :
      (w : World) (o : WorktreeOwner) (prep : PreparedFile) (symbols : SymbolTable)
      → InStep truncation p o
      → InStep truncation p (submit_prepared w o prep symbols).owner
  unfolding submit_prepared update_of
  submit_prepared-InStep w o prep symbols h =
      let u = update_of w o.generation prep symbols in
      submit-InStep o (apply_file_update o.indexes u) u refl (apply_file_update-files o.indexes u p)
        h

  process_change_inner-InStep :
      (w : World) (s : Store) (o : WorktreeOwner) (path : RelPath)
      → InStep truncation p o
      → InStep truncation p (process_change_inner w s o path).owner
  unfolding process_change_inner
  process_change_inner-InStep w s o path h = elim (Option-cases (w.metadata path)) [
    | inl none_there ↦ rw (none_there, process_change_inner) h
    | inr (m, e) ↦
        rw (e, process_change_inner)
          (elim (Option-cases (detect_language (file_name path))) [
            | inl unknown ↦ rw unknown h
            | inr (lang, known) ↦ rw known (elim (Option-cases (w.read path)) [
              | inl unreadable ↦ rw unreadable h
              | inr (bytes, readable) ↦
                  rw readable
                    (elim (Option-cases (
                      prepare_file_from_bytes w s path bytes (w.hash_bytes bytes) m.modified m.len
                        lang)) [
                          | inl skipped ↦ rw skipped h
                          | inr (prep, prepared) ↦
                              rw prepared (submit_prepared-InStep w o prep default h)
                        ])
            ])
          ])
  ]

  pub process_change-InStep :
      (w : World) (s : Store) (o : WorktreeOwner) (path : RelPath)
      → InStep truncation p o
      → InStep truncation p (process_change w s o path).owner
  unfolding process_change
  process_change-InStep w s o path h =
      let relative = relative_to w.worktree_root path in
      let pending = set_pending o relative in
      let r = process_change_inner w s pending path in
      let done =
        process_change_inner-InStep w s pending path
          (InStep-status truncation p o pending.status h) in
      elim (Bool-cases (w.exists path)) [
        | inr gone ↦ rw gone h
        | inl there ↦
            rw there
              (InStep-status truncation p r.owner (unmark_pending r.owner.status relative) done)
      ]

  pub process_delete-InStep :
      (w : World) (o : WorktreeOwner) (path : RelPath)
      → w.from_utf8_lossy ≡ lossy
      → InStep truncation p o
      → InStep truncation p (process_delete w o path).owner
  unfolding process_delete process_delete_inner empty_update ids_of to_string_lossy
  process_delete-InStep w o path same h =
      let relative = relative_to w.worktree_root path in
      let pending = set_pending o relative in
      let u = empty_update w o.generation relative in
      let raw = raw_path relative in
      let agrees : (u.path == p) ≡ (raw == p) = ap (λ f. f raw == p) same ∙ written raw in
      let r = process_delete_inner w pending relative in
      InStep-status truncation p r.owner (unmark_pending r.owner.status relative) (
        submit-InStep pending (remove_path o.indexes raw) u refl
          (remove_path-files o.indexes raw p ∙ ground (arith, agrees))
          (InStep-status truncation p o pending.status h))
