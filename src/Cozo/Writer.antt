-- ===== src/Cozo/Writer.antt =====
-- cozo.rs `writer_loop`: the worker behind the queue. A round of the loop turns the messages that it
-- finds into actions: a batch to commit, and answers to callers that wait. How many messages `try_recv`
-- finds before the channel is empty is up to the senders, so a round takes that number. A caller is
-- the number of its channel.
pub mod Rounds
pub mod Order
pub mod Perform
pub mod Persist
use xgraph.Prelude.{
  ℕ, zero, suc, ◌+◌, Bool, true, false, Option, none, some, List, [], ◌∷◌, ◌++◌, map, if◌then◌else◌,
}
use xgraph.Cozo.Facts.{FileUpdate}

pub data WriterMessage : Type 0 where
  update : FileUpdate → WriterMessage
  truncate flush : ℕ → WriterMessage
  shutdown : WriterMessage

pub data Action : Type 0 where
  commit : List FileUpdate → Action
  flushed truncated : ℕ → Action

abbrev pub writer_batch_max : ℕ
writer_batch_max = 64

-- what the greedy loop collects
pub record Drained : Type 0 where
  pub batch : List FileUpdate
  pub pending_flushes : List ℕ
  pub pending_truncate : Option ℕ
  pub shutdown_pending : Bool
  pub rest : List WriterMessage

abbrev pub drained_at : List WriterMessage → Drained
drained_at rest = record {
  batch = [];
  pending_flushes = [];
  pending_truncate = none;
  shutdown_pending = false;
  rest = rest;
}

-- `while batch.len() < WRITER_BATCH_MAX`, with the messages still found and the room in the batch
unfoldable pub drain : ℕ → ℕ → List WriterMessage → Drained
drain found room [] = drained_at []
drain zero room (m ∷ queue) = drained_at (m ∷ queue)
drain (suc found) zero (m ∷ queue) = drained_at (m ∷ queue)
drain (suc found) (suc room) (update u ∷ queue) =
    let d = drain found room queue in record d { batch = u ∷ d.batch }
drain (suc found) (suc room) (truncate caller ∷ queue) = record (drained_at queue) {
  pending_truncate = some caller;
}
drain (suc found) (suc room) (flush caller ∷ queue) =
    let d = drain found (suc room) queue in
    record d { pending_flushes = caller ∷ d.pending_flushes }
drain (suc found) (suc room) (shutdown ∷ queue) = record (drained_at queue) {
  shutdown_pending = true;
}

pub record Round : Type 0 where
  pub actions : List Action
  pub rest : List WriterMessage
  pub stopped : Bool

abbrev pub answer_truncate : Option ℕ → List Action
answer_truncate none = []
answer_truncate (some caller) = truncated caller ∷ []

-- the batch is committed before anyone is answered
unfoldable pub finish : FileUpdate → Drained → Round
finish first d = record {
  actions =
      commit (first ∷ d.batch)
      ∷ (map flushed d.pending_flushes ++ answer_truncate d.pending_truncate);
  rest = d.rest;
  stopped = d.shutdown_pending;
}

-- one round; without a message it blocks
unfoldable pub round : ℕ → List WriterMessage → Round
unfolding drain finish
round found [] = record { actions = []; rest = []; stopped = false }
round found (update first ∷ queue) = finish first (drain found 63 queue)
round found (truncate caller ∷ queue) = record {
  actions = truncated caller ∷ [];
  rest = queue;
  stopped = false;
}
round found (flush caller ∷ queue) = record {
  actions = flushed caller ∷ [];
  rest = queue;
  stopped = false;
}
round found (shutdown ∷ queue) = record { actions = []; rest = queue; stopped = true }

abbrev pub followed_by : List Action → Round → Round
followed_by actions r = record r { actions = actions ++ r.actions }

-- the loop, over the numbers of messages that its rounds find
unfoldable pub writer_loop : List ℕ → List WriterMessage → Round
unfolding round
writer_loop [] queue = record { actions = []; rest = queue; stopped = false }
writer_loop (found ∷ more) queue =
    let r = round found queue in
    let later = writer_loop more r.rest in if r.stopped then r else followed_by r.actions later
