-- ===== src/Owner/Changes/History/Kept.antt =====
-- Every operation of the owner keeps its indexes and its messages in step.
use xgraph.Prelude.{
  ℕ, ◌+◌, true, none, some, List, [], ◌∷◌, ◌++◌, length, map, ◌≡◌, refl, arith, ap, sym, ◌∙◌, ◌==◌,
  inl, inr, Bool-cases, Option-cases, subst, append-nil, contains, list_key, nat_key,
}
use xgraph.Text.{Text, text_key}
use xgraph.Map.{get}
use xgraph.Cozo.Store.{Store, Truncation}
use xgraph.Cozo.Writer.{WriterMessage, flush, truncate}
use xgraph.Cozo.Writer.Rounds.{effects_of, wipes}
use xgraph.Cozo.Writer.Order.{effects_of-append, shuts-append}
use xgraph.Indexes.State.{nodes_in_file}
use xgraph.Imports.Python.{RelPath}
use xgraph.Scanner.{ScannedFile}
use xgraph.Owner.Symbols.{PreparedFile, SymbolTable, build_symbol_table}
use xgraph.Owner.Status.{DaemonStatus}
use xgraph.Owner.Changes.{
  World, WorktreeOwner, Step, and_then, send, relative_to, submit_prepared, process_delete,
}
use xgraph.Owner.Changes.Passes.{
  prepare_files, submit_all, finish_pass, index_all, sync_all, truncate_and_wait, reindex_all,
  reconciled, reconciling, restarted, caller, delete_absent, reconcile_after_ignore_change,
}
use xgraph.Owner.Changes.History.{
  latest_of, held_ids, last_generation, latest_of-append, Growing-wipe, last_generation-append,
  InStep, InStep-status, started_with, Reaches, started, changed, deleted, indexed, synced,
  reindexed, rescanned,
}
use xgraph.Owner.Changes.History.Single.{
  and_then-holds, Outcome-cases, send_lem, submit_prepared-InStep, process_change-InStep,
  process_delete-InStep,
}

-- The path is the text of no path but itself.
module _ (truncation : ℕ → Truncation) (lossy : Text → Text) (p : Text)
    (written : (q : Text) → (lossy q == p) ≡ (q == p)) where
  -- a message is sent, and what follows keeps step
  send-InStep :
      {A : Type 0} (o : WorktreeOwner) (message : WriterMessage) (next : WorktreeOwner → Step A)
      → o.is_open ≡ true
      → InStep truncation p (next (record o { sent = o.sent ++ message ∷ [] })).owner
      → InStep truncation p (and_then (send o message) (λ _ o'. next o')).owner
  send-InStep o message next h k =
      subst (λ r. InStep truncation p (and_then r (λ _ o'. next o')).owner)
        (sym (send_lem o message h)) k

  flushed-InStep :
      (o : WorktreeOwner)
      → InStep truncation p o
      → InStep truncation p (record o { sent = o.sent ++ flush caller ∷ [] })
  flushed-InStep o h =
      let same : effects_of (o.sent ++ flush caller ∷ []) ≡ effects_of o.sent =
        effects_of-append o.sent (flush caller ∷ []) ∙ append-nil (effects_of o.sent) in
      record {
        is_open = h.is_open;
        quiet = shuts-append o.sent (flush caller ∷ []) ∙ ground (arith, h.quiet);
        numbered = rw same h.numbered;
        next = rw same h.next;
        listed = rw same h.listed;
      }

  cleared-InStep :
      (o : WorktreeOwner) (c : ℕ)
      → InStep truncation p o
      → (truncation c).error ≡ none
      → InStep truncation p (restarted (record o { sent = o.sent ++ truncate c ∷ [] }))
  unfolding nodes_in_file latest_of get
  cleared-InStep o c h done =
      let same : effects_of (o.sent ++ truncate c ∷ []) ≡ effects_of o.sent ++ wipes c ∷ [] =
        effects_of-append o.sent (truncate c ∷ []) in
      let wiped : latest_of truncation p none (effects_of o.sent ++ wipes c ∷ []) ≡ none =
        latest_of-append truncation p none (effects_of o.sent) (wipes c ∷ [])
        ∙ rw (done, latest_of) refl in
      record {
        is_open = h.is_open;
        quiet = shuts-append o.sent (truncate c ∷ []) ∙ ground (arith, h.quiet);
        numbered = rw same (Growing-wipe 0 (effects_of o.sent) c h.numbered);
        next = omega (
          arith,
          ap (last_generation 0) same,
          last_generation-append 0 (effects_of o.sent) (wipes c),
        );
        listed = ap held_ids (sym (ap (latest_of truncation p none) same ∙ wiped));
      }

  refused-InStep :
      (o : WorktreeOwner) (c : ℕ) (e : Text)
      → InStep truncation p o
      → (truncation c).error ≡ some e
      → InStep truncation p (record o { sent = o.sent ++ truncate c ∷ [] })
  unfolding latest_of
  refused-InStep o c e h refused =
      let same : effects_of (o.sent ++ truncate c ∷ []) ≡ effects_of o.sent ++ wipes c ∷ [] =
        effects_of-append o.sent (truncate c ∷ []) in
      let kept : latest_of truncation p none (effects_of o.sent ++ wipes c ∷ [])
          ≡ latest_of truncation p none (effects_of o.sent) =
        latest_of-append truncation p none (effects_of o.sent) (wipes c ∷ [])
        ∙ rw (refused, latest_of) refl in
      record {
        is_open = h.is_open;
        quiet = shuts-append o.sent (truncate c ∷ []) ∙ ground (arith, h.quiet);
        numbered = rw same (Growing-wipe 0 (effects_of o.sent) c h.numbered);
        next = omega (
          arith,
          h.next,
          ap (last_generation 0) same,
          last_generation-append 0 (effects_of o.sent) (wipes c),
        );
        listed = h.listed ∙ ap held_ids (sym (ap (latest_of truncation p none) same ∙ kept));
      }

  -- a truncation, and what follows if it reports no error
  truncating-InStep :
      {A : Type 0} (o : WorktreeOwner) (next : WorktreeOwner → Step A)
      → InStep truncation p o
      → ((o' : WorktreeOwner) → InStep truncation p o' → InStep truncation p (next o').owner)
      → InStep truncation p
          (and_then (truncate_and_wait truncation o) (λ _ o'. next (restarted o'))).owner
  unfolding truncate_and_wait
  truncating-InStep o next h k =
      let c = length o.sent in
      rw (send_lem o (truncate c) h.is_open) (elim (Option-cases (truncation c).error) [
        | inl done ↦ rw done (
            k (restarted (record o { sent = o.sent ++ truncate c ∷ [] }))
              (cleared-InStep o c h done))
        | inr (e, refused) ↦ rw refused (refused-InStep o c e h refused)
      ])

  finish_pass-InStep :
      (scanned : List ScannedFile) (prepared : List PreparedFile) (edges : ℕ) (o : WorktreeOwner)
      → InStep truncation p o
      → InStep truncation p (finish_pass scanned prepared edges o).owner
  unfolding finish_pass
  finish_pass-InStep scanned prepared edges o h =
      let o' : WorktreeOwner = record o { sent = o.sent ++ flush caller ∷ [] } in
      rw (send_lem o (flush caller) h.is_open)
        (InStep-status truncation p o' (reconciled o').status (flushed-InStep o h))

  submit_all-InStep :
      (w : World) (symbols : SymbolTable) (preps : List PreparedFile) (edges : ℕ)
      (o : WorktreeOwner)
      → InStep truncation p o
      → InStep truncation p (submit_all w symbols preps edges o).owner
  unfolding submit_all
  submit_all-InStep w symbols [] edges o h = h
  submit_all-InStep w symbols (prep ∷ preps) edges o h =
      and_then-holds (InStep truncation p) (submit_prepared w o prep symbols)
        (λ count o'. submit_all w symbols preps (edges + count) o')
        (submit_prepared-InStep truncation lossy p written w o prep symbols h)
        (λ count o' k. submit_all-InStep w symbols preps (edges + count) o' k)

  index_all-InStep :
      (w : World) (s : Store) (scanned : List ScannedFile) (o : WorktreeOwner)
      → InStep truncation p o
      → InStep truncation p (index_all w s scanned o).owner
  unfolding index_all
  index_all-InStep w s scanned o h = elim (Outcome-cases (prepare_files w s scanned)) [
    | inr (e, failed) ↦ rw (failed, index_all) h
    | inl (prepared, fine) ↦
        rw (fine, index_all)
          (and_then-holds (InStep truncation p)
            (submit_all w (build_symbol_table prepared) prepared 0 o) (finish_pass scanned prepared)
            (submit_all-InStep w (build_symbol_table prepared) prepared 0 o h)
            (λ edges o' k. finish_pass-InStep scanned prepared edges o' k))
  ]

  reindex_all-InStep :
      (w : World) (s : Store) (scanned : List ScannedFile) (o : WorktreeOwner)
      → InStep truncation p o
      → InStep truncation p (reindex_all truncation w s scanned o).owner
  unfolding reindex_all
  reindex_all-InStep w s scanned o h =
      let o1 = reconciling o in
      let o2 : WorktreeOwner = record o1 { sent = o1.sent ++ flush caller ∷ [] } in
      let after = flushed-InStep o1 (InStep-status truncation p o o1.status h) in
      send-InStep o1 (flush caller)
        (λ o'.
          and_then (truncate_and_wait truncation o')
            (λ _ o''. index_all w s scanned (restarted o'')))
        h.is_open
        (truncating-InStep o2 (index_all w s scanned) after
          (λ o' k. index_all-InStep w s scanned o' k))

  delete_absent-InStep :
      (w : World) (found paths : List RelPath) (o : WorktreeOwner)
      → w.from_utf8_lossy ≡ lossy
      → InStep truncation p o
      → InStep truncation p (delete_absent w found paths o).owner
  unfolding delete_absent
  delete_absent-InStep w found [] o same h = h
  delete_absent-InStep w found (path ∷ paths) o same h = elim (Bool-cases (contains found path)) [
    | inl kept ↦ rw kept (delete_absent-InStep w found paths o same h)
    | inr absent ↦ rw absent (
        and_then-holds (InStep truncation p) (process_delete w o (w.worktree_root ++ path))
          (λ _ o'. delete_absent w found paths o')
          (process_delete-InStep truncation lossy p written w o (w.worktree_root ++ path) same h)
          (λ _ o' k. delete_absent-InStep w found paths o' same k))
  ]

  new-InStep : (status : DaemonStatus) → InStep truncation p (started_with status)
  unfolding nodes_in_file latest_of get
  new-InStep status = record {
    is_open = refl;
    quiet = refl;
    numbered = tt;
    next = omega arith;
    listed = refl;
  }

  -- Whatever the owner has done, its indexes list for the path the nodes of the last update that it sent
  -- of the path since the last truncation that reported no error, and the updates are numbered as the writer needs them.
  pub Reaches-InStep : {o : WorktreeOwner} → Reaches truncation lossy o → InStep truncation p o
  unfolding sync_all reconcile_after_ignore_change
  Reaches-InStep (started status) = new-InStep status
  Reaches-InStep (changed {o} w s path r) =
      process_change-InStep truncation lossy p written w s o path (Reaches-InStep r)
  Reaches-InStep (deleted {o} w same path r) =
      process_delete-InStep truncation lossy p written w o path same (Reaches-InStep r)
  Reaches-InStep (indexed {o} w s scanned r) = index_all-InStep w s scanned o (Reaches-InStep r)
  Reaches-InStep (synced {o} w s scanned r) =
      index_all-InStep w s scanned (reconciling o)
        (InStep-status truncation p o (reconciling o).status (Reaches-InStep r))
  Reaches-InStep (reindexed {o} w s scanned r) = reindex_all-InStep w s scanned o (Reaches-InStep r)
  Reaches-InStep (rescanned {o} w s scanned active same r) =
      and_then-holds (InStep truncation p) (index_all w s scanned o)
        (λ _ o'.
          delete_absent w (map (λ (f : ScannedFile). relative_to w.worktree_root f.path) scanned)
            active o')
        (index_all-InStep w s scanned o (Reaches-InStep r))
        (λ _ o' k.
          delete_absent-InStep w
            (map (λ (f : ScannedFile). relative_to w.worktree_root f.path) scanned) active o' same
            k)
