-- ===== src/Tests/Writing.antt =====
-- The writer on short queues.

use xgraph.Prelude.{
  ℕ, ◌<◌, true, false, Option, none, List, [], ◌∷◌, ◌++◌, length, ◌≡◌, refl, arith, list_beq,
}
use xgraph.Text.{Text, text, text_key}
use xgraph.Map.{get, find, put, without, unique, insert, iter}
use xgraph.Map.Filter.{retain_entries, put_rows}
use xgraph.Cozo.Facts.{FileUpdate}
use xgraph.Cozo.Store.{
  empty_store, Truncation, truncate_graph, apply_file_updates_batch, latest_by_path, values,
  first_too_large, run_transaction, remove_old, put_new, is_replaced, content_file_row,
  active_file_row, concat_rows, nodes_to_data_value, refs_to_data_value, active_nodes_to_data_value,
  edges_to_data_value, symbols_to_data_value,
}
use xgraph.Cozo.Writer.{
  WriterMessage, update, truncate, flush, shutdown, drain, finish, round, writer_loop,
}
use xgraph.Cozo.Writer.Rounds.{
  updates_of, effects_of, shuts, commits, answers, waits, Covered, Does,
}
use xgraph.Cozo.Writer.Order.{writer_loop-Does, writer_loop_drains}
use xgraph.Cozo.Writer.Perform.{perform, perform_all, run_writer}
use xgraph.Cozo.Writer.Persist.{row_after, Growing, writer_loop_persists}
use xgraph.Tests.Samples.{reader, entry}

abbrev later_reader : FileUpdate
later_reader = record reader { generation = 2; content_hash = 3 ∷ [] }

abbrev pub willing : List FileUpdate → Option Text
willing updates = none

-- every truncation is done
abbrev pub obeying : ℕ → Truncation
obeying caller = record { removed = λ relation. true; error = none }

-- two callers wait, and the store is emptied between the updates
abbrev messages : List WriterMessage
messages = update entry ∷ flush 7 ∷ truncate 8 ∷ update reader ∷ update later_reader ∷ []

-- what the rounds find
abbrev rounds : List ℕ
rounds = 2 ∷ 0 ∷ 5 ∷ 1 ∷ 1 ∷ 1 ∷ []

quiet : shuts messages ≡ false
quiet = refl

enough : length messages < length rounds
enough = omega arith

writer_loop-Does_example : Does messages (writer_loop rounds messages)
writer_loop-Does_example = writer_loop-Does rounds messages

writer_loop_drains_example :
    let r = writer_loop rounds (messages ++ shutdown ∷ []) in
    (r.stopped ≡ true)
    × (r.rest ≡ [])
    × (commits r.actions ≡ updates_of messages)
    × Covered (waits 0 messages) (answers 0 r.actions)
writer_loop_drains_example = writer_loop_drains rounds messages quiet enough

growing : Growing 0 (effects_of messages)
growing = (omega arith, (omega arith, (omega arith, tt)))

-- what an example opens
unfoldable pub open_writer : ℕ → ℕ
unfolding writer_loop round drain finish perform perform_all truncate_graph apply_file_updates_batch
    latest_by_path values first_too_large run_transaction remove_old put_new is_replaced
    content_file_row active_file_row concat_rows nodes_to_data_value refs_to_data_value
    active_nodes_to_data_value edges_to_data_value symbols_to_data_value get find put without unique
    insert iter retain_entries put_rows list_beq
open_writer n = n

clean : (run_writer willing obeying rounds (messages ++ shutdown ∷ []) empty_store).errors ≡ []
unfolding open_writer
clean = refl

writer_loop_persists_example :
    get
      (run_writer willing obeying rounds (messages ++ shutdown ∷ []) empty_store).store.active_file
      (text "reader.rs")
    ≡ row_after obeying
        (text "reader.rs")
        (get empty_store.active_file (text "reader.rs"))
        (effects_of messages)
writer_loop_persists_example =
    writer_loop_persists willing obeying rounds messages 0 empty_store (text "reader.rs") quiet
      enough growing clean
