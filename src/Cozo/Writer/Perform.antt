-- ===== src/Cozo/Writer/Perform.antt =====
-- cozo.rs: what the actions of `writer_loop` do to the store and to the `ErrorSink`. A batch that fails
-- leaves the store as it was, and its error is kept for `drain_errors`; that of a truncation goes to the
-- caller alone. What the engine answers is a parameter, for truncations by their caller.
use xgraph.Prelude.{ℕ, Option, List, [], ◌∷◌, ◌++◌}
use xgraph.Text.{Text}
use xgraph.Cozo.Facts.{FileUpdate}
use xgraph.Cozo.Store.{
  Store, CozoError, Applied, applied, failed, apply_file_updates_batch, Truncation, truncate_graph,
}
use xgraph.Cozo.Writer.{Action, commit, flushed, truncated, WriterMessage, writer_loop}

pub record WriterState : Type 0 where
  pub store : Store
  pub errors : List CozoError

abbrev pub record_error : WriterState → Applied → WriterState
record_error w (applied s) = record w { store = s }
record_error w (failed e) = record w { errors = w.errors ++ e ∷ [] }

module _ (refuses : List FileUpdate → Option Text) (truncation : ℕ → Truncation) where
  unfoldable pub perform : WriterState → Action → WriterState
  perform w (commit updates) = record_error w (apply_file_updates_batch refuses w.store updates)
  perform w (flushed caller) = w
  perform w (truncated caller) = record w { store = truncate_graph (truncation caller) w.store }

  unfoldable pub perform_all : WriterState → List Action → WriterState
  unfolding perform
  perform_all w [] = w
  perform_all w (action ∷ actions) = perform_all (perform w action) actions

  -- the worker from its start until it stops
  abbrev pub run_writer : List ℕ → List WriterMessage → Store → WriterState
  run_writer found queue s =
      perform_all (record { store = s; errors = [] }) (writer_loop found queue).actions
