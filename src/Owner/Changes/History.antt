-- ===== src/Owner/Changes/History.antt =====
-- What an owner has done since its start, and what its indexes and its messages have in common.
pub mod Single
pub mod Kept
use mathlib.Core.Option
use xgraph.Prelude.{
  ℕ, zero, suc, ◌+◌, ◌<◌, Bool, true, false, Option, none, some, List, [], ◌∷◌, ◌++◌, map,
  if◌then◌else◌, ◌≡◌, refl, arith, ap, sym, ◌∙◌, ◌==◌, ==_iff, inl, inr, Bool-cases, Option-cases,
  subst, append-nil, contains, ◌⊎◌, list_key, nat_key,
}
use xgraph.Text.{Text, text_key}
use xgraph.Map.{get}
use xgraph.Cozo.Facts.{FileUpdate}
use xgraph.Cozo.Store.{Store, Truncation}
use xgraph.Cozo.Writer.{WriterMessage, update, flush, truncate}
use xgraph.Cozo.Writer.Rounds.{Effect, writes, wipes, effects_of, shuts}
use xgraph.Cozo.Writer.Order.{effects_of-append, shuts-append}
use xgraph.Cozo.Writer.Persist.{Growing}
use xgraph.Indexes.State.{HotIndexes, NodeId, new, clear, nodes_in_file}
use xgraph.Indexes.Update.{ids_of, apply_file_update, remove_path}
use xgraph.Indexes.Update.Replace.{apply_file_update-files, remove_path-files}
use xgraph.Imports.Python.{RelPath}
use xgraph.Scanner.{ScannedFile, detect_language}
use xgraph.Owner.Symbols.{PreparedFile, SymbolTable, default, build_symbol_table}
use xgraph.Owner.Paths.{file_name}
use xgraph.Owner.Status.{DaemonStatus, unmark_pending}
use xgraph.Owner.Changes.{
  World, Outcome, ok, err, OwnerError, WorktreeOwner, Step, and_then, then_give, send, submit,
  relative_to, to_string_lossy, set_pending, prepare_file_from_bytes, update_of, submit_prepared,
  process_change_inner, process_change, empty_update, process_delete_inner, process_delete,
}
use xgraph.Owner.Changes.Passes.{
  IndexSummary, prepare_files, submit_all, finish_pass, index_all, sync_all, reindex_all,
  reconciled, reconciling, restarted, caller, delete_absent, reconcile_after_ignore_change,
}

module _ (truncation : ℕ → Truncation) where
  -- The last update of a path since the last truncation that reported no error.
  unfoldable pub latest_of : Text → Option FileUpdate → List Effect → Option FileUpdate
  latest_of p held [] = held
  latest_of p held (wipes c ∷ effects) =
      latest_of p (elim (truncation c).error [ none ↦ none | some e ↦ held ]) effects
  latest_of p held (writes u ∷ effects) = latest_of p (if u.path == p then some u else held) effects

  pub latest_of-append :
      (p : Text) (held : Option FileUpdate) (xs ys : List Effect)
      → latest_of p held (xs ++ ys) ≡ latest_of p (latest_of p held xs) ys
  unfolding latest_of
  latest_of-append p held [] ys = refl
  latest_of-append p held (wipes c ∷ xs) ys =
      latest_of-append p (elim (truncation c).error [ none ↦ none | some e ↦ held ]) xs ys
  latest_of-append p held (writes u ∷ xs) ys =
      latest_of-append p (if u.path == p then some u else held) xs ys

abbrev pub held_ids : Option FileUpdate → List NodeId
held_ids none = []
held_ids (some u) = ids_of u.content_hash u.nodes

-- The greatest generation since the last truncation, where they grow.
abbrev pub last_generation : ℕ → List Effect → ℕ
last_generation n [] = n
last_generation n (wipes c ∷ effects) = last_generation 0 effects
last_generation n (writes u ∷ effects) = last_generation u.generation effects

pub Growing-next :
    (n : ℕ) (es : List Effect) (u : FileUpdate)
    → Growing n es
    → last_generation n es < u.generation
    → Growing n (es ++ writes u ∷ [])
Growing-next n [] u h k = (k, tt)
Growing-next n (wipes c ∷ es) u h k = Growing-next 0 es u h k
Growing-next n (writes v ∷ es) u h k = (h.0, Growing-next v.generation es u h.1 k)

pub Growing-wipe :
    (n : ℕ) (es : List Effect) (c : ℕ) → Growing n es → Growing n (es ++ wipes c ∷ [])
Growing-wipe n [] c h = tt
Growing-wipe n (wipes d ∷ es) c h = Growing-wipe 0 es c h
Growing-wipe n (writes v ∷ es) c h = (h.0, Growing-wipe v.generation es c h.1)

pub last_generation-append :
    (n : ℕ) (es : List Effect) (e : Effect)
    → last_generation n (es ++ e ∷ []) ≡ elim e [ wipes c ↦ 0 | writes u ↦ u.generation ]
last_generation-append n [] (wipes c) = refl
last_generation-append n [] (writes u) = refl
last_generation-append n (wipes c ∷ es) e = last_generation-append 0 es e
last_generation-append n (writes v ∷ es) e = last_generation-append v.generation es e

-- The channel is open, the updates that it was given are numbered as the writer needs them, and the
-- indexes list for this path the nodes of the last update that was sent of it.
pub record InStep (truncation : ℕ → Truncation) (p : Text) (o : WorktreeOwner) : Type 0 where
  pub is_open : o.is_open ≡ true
  pub quiet : shuts o.sent ≡ false
  pub numbered : Growing 0 (effects_of o.sent)
  pub next : last_generation 0 (effects_of o.sent) < o.generation
  pub listed :
      nodes_in_file o.indexes p ≡ held_ids (latest_of truncation p none (effects_of o.sent))

-- the status has no part in it
pub InStep-status :
    (truncation : ℕ → Truncation) (p : Text) (o : WorktreeOwner) (status : DaemonStatus)
    → InStep truncation p o
    → InStep truncation p (record o { status = status })
InStep-status truncation p o status h = record {
  is_open = h.is_open;
  quiet = h.quiet;
  numbered = h.numbered;
  next = h.next;
  listed = h.listed;
}

-- `WorktreeOwner::new` with empty indexes
abbrev pub started_with : DaemonStatus → WorktreeOwner
started_with status = record {
  indexes = new;
  status = status;
  generation = 1;
  sent = [];
  is_open = true;
}

-- The owner's work since its start, with the world and the store that each operation met. The answers to
-- truncations and, where a path is deleted, `from_utf8_lossy` are the same all the time.
pub data Reaches (truncation : ℕ → Truncation) (lossy : Text → Text) : WorktreeOwner → Type 0 where
  started : (status : DaemonStatus) → Reaches truncation lossy (started_with status)
  changed :
      {o : WorktreeOwner}
      → (w : World) → (s : Store) → (path : RelPath) → Reaches truncation lossy o
      → Reaches truncation lossy (process_change w s o path).owner
  deleted :
      {o : WorktreeOwner}
      → (w : World) → (w.from_utf8_lossy ≡ lossy)
      → (path : RelPath) → Reaches truncation lossy o
      → Reaches truncation lossy (process_delete w o path).owner
  indexed :
      {o : WorktreeOwner}
      → (w : World) → (s : Store) → (scanned : List ScannedFile) → Reaches truncation lossy o
      → Reaches truncation lossy (index_all w s scanned o).owner
  synced :
      {o : WorktreeOwner}
      → (w : World) → (s : Store) → (scanned : List ScannedFile) → Reaches truncation lossy o
      → Reaches truncation lossy (sync_all w s scanned o).owner
  reindexed :
      {o : WorktreeOwner}
      → (w : World) → (s : Store) → (scanned : List ScannedFile) → Reaches truncation lossy o
      → Reaches truncation lossy (reindex_all truncation w s scanned o).owner
  rescanned :
      {o : WorktreeOwner}
      → (w : World) → (s : Store) → (scanned : List ScannedFile) → (active : List RelPath)
      → (w.from_utf8_lossy ≡ lossy)
      → Reaches truncation lossy o
      → Reaches truncation lossy (reconcile_after_ignore_change w s scanned active o).owner
