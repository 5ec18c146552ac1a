-- ===== src/Cozo/Writer/Rounds.antt =====
-- What a round takes from the queue, and what it does with it.
use xgraph.Prelude.{
  ℕ, zero, suc, ◌+◌, ◌≤◌, Bool, true, false, Option, none, some, List, [], ◌∷◌, ◌++◌, map, length,
  ◌≡◌, refl, arith, ap, sym, ◌∙◌, append-nil, subst, length-append,
}
use xgraph.Cozo.Facts.{FileUpdate}
use xgraph.Cozo.Writer.{
  WriterMessage, update, truncate, flush, shutdown, Action, commit, flushed, truncated, Drained,
  drained_at, drain, Round, answer_truncate, finish, round,
}

-- The updates among messages, in order.
abbrev pub updates_of : List WriterMessage → List FileUpdate
updates_of [] = []
updates_of (update u ∷ ms) = u ∷ updates_of ms
updates_of (truncate caller ∷ ms) = updates_of ms
updates_of (flush caller ∷ ms) = updates_of ms
updates_of (shutdown ∷ ms) = updates_of ms

-- What is done to the store: an update, or the truncation that a caller asks for.
pub data Effect : Type 0 where
  writes : FileUpdate → Effect
  wipes : ℕ → Effect

-- What messages do to the store, in order.
abbrev pub effects_of : List WriterMessage → List Effect
effects_of [] = []
effects_of (update u ∷ ms) = writes u ∷ effects_of ms
effects_of (truncate caller ∷ ms) = wipes caller ∷ effects_of ms
effects_of (flush caller ∷ ms) = effects_of ms
effects_of (shutdown ∷ ms) = effects_of ms

-- What actions do to the store, in order.
abbrev pub effects : List Action → List Effect
effects [] = []
effects (commit us ∷ actions) = map writes us ++ effects actions
effects (flushed caller ∷ actions) = effects actions
effects (truncated caller ∷ actions) = wipes caller ∷ effects actions

-- The callers that wait for an answer, in order.
abbrev pub callers_of : List WriterMessage → List ℕ
callers_of [] = []
callers_of (update u ∷ ms) = callers_of ms
callers_of (truncate caller ∷ ms) = caller ∷ callers_of ms
callers_of (flush caller ∷ ms) = caller ∷ callers_of ms
callers_of (shutdown ∷ ms) = callers_of ms

-- Shutdown is among the messages.
abbrev pub shuts : List WriterMessage → Bool
shuts [] = false
shuts (shutdown ∷ ms) = true
shuts (update u ∷ ms) = shuts ms
shuts (truncate caller ∷ ms) = shuts ms
shuts (flush caller ∷ ms) = shuts ms

abbrev pub truncate_callers : Option ℕ → List ℕ
truncate_callers none = []
truncate_callers (some caller) = caller ∷ []

abbrev wiping : Option ℕ → List Effect
wiping none = []
wiping (some caller) = wipes caller ∷ []

-- What a drain took: a prefix of the queue whose updates are the batch, whose callers are the pending
-- ones, and which ends the loop exactly if it holds a shutdown.
pub record Takes (queue : List WriterMessage) (d : Drained) : Type 0 where
  pub taken : List WriterMessage
  pub split : queue ≡ taken ++ d.rest
  pub batch : updates_of taken ≡ d.batch
  pub effects_all : effects_of taken ≡ map writes d.batch ++ wiping d.pending_truncate
  pub callers : callers_of taken ≡ d.pending_flushes ++ truncate_callers d.pending_truncate
  pub stops : shuts taken ≡ d.shutdown_pending

drained_at-Takes : (queue : List WriterMessage) → Takes queue (drained_at queue)
drained_at-Takes queue = record {
  taken = [];
  split = refl;
  batch = refl;
  effects_all = refl;
  callers = refl;
  stops = refl;
}

pub drain-Takes :
    (found room : ℕ) (queue : List WriterMessage) → Takes queue (drain found room queue)
unfolding drain
drain-Takes found room [] = drained_at-Takes []
drain-Takes zero room (m ∷ queue) = drained_at-Takes (m ∷ queue)
drain-Takes (suc found) zero (m ∷ queue) = drained_at-Takes (m ∷ queue)
drain-Takes (suc found) (suc room) (update u ∷ queue) =
    let t = drain-Takes found room queue in
    record {
      taken = update u ∷ t.taken;
      split = ap (λ q. update u ∷ q) t.split;
      batch = ap (λ us. u ∷ us) t.batch;
      effects_all = ap (λ es. writes u ∷ es) t.effects_all;
      callers = t.callers;
      stops = t.stops;
    }
drain-Takes (suc found) (suc room) (truncate caller ∷ queue) = record {
  taken = truncate caller ∷ [];
  split = refl;
  batch = refl;
  effects_all = refl;
  callers = refl;
  stops = refl;
}
drain-Takes (suc found) (suc room) (flush caller ∷ queue) =
    let t = drain-Takes found (suc room) queue in
    record {
      taken = flush caller ∷ t.taken;
      split = ap (λ q. flush caller ∷ q) t.split;
      batch = t.batch;
      effects_all = t.effects_all;
      callers = ap (λ cs. caller ∷ cs) t.callers;
      stops = t.stops;
    }
drain-Takes (suc found) (suc room) (shutdown ∷ queue) = record {
  taken = shutdown ∷ [];
  split = refl;
  batch = refl;
  effects_all = refl;
  callers = refl;
  stops = refl;
}

-- The updates that actions commit, in order.
abbrev pub commits : List Action → List FileUpdate
commits [] = []
commits (commit us ∷ actions) = us ++ commits actions
commits (flushed caller ∷ actions) = commits actions
commits (truncated caller ∷ actions) = commits actions

-- Each caller that is answered, with the number of updates committed before, `n` of them earlier.
abbrev pub answers : ℕ → List Action → List (ℕ × ℕ)
answers n [] = []
answers n (commit us ∷ actions) = answers (n + length us) actions
answers n (flushed caller ∷ actions) = (caller, n) ∷ answers n actions
answers n (truncated caller ∷ actions) = (caller, n) ∷ answers n actions

-- Each caller that waits, with the number of updates sent before it.
abbrev pub waits : ℕ → List WriterMessage → List (ℕ × ℕ)
waits n [] = []
waits n (update u ∷ ms) = waits (n + 1) ms
waits n (truncate caller ∷ ms) = (caller, n) ∷ waits n ms
waits n (flush caller ∷ ms) = (caller, n) ∷ waits n ms
waits n (shutdown ∷ ms) = waits n ms

-- The same callers in the same order, none answered before the updates that were sent before it.
abbrev pub Covered : List (ℕ × ℕ) → List (ℕ × ℕ) → Type 0
Covered [] [] = Unit
Covered [] (_ ∷ _) = ⊥
Covered (_ ∷ _) [] = ⊥
Covered ((c, due) ∷ ws) ((d, done) ∷ given) = (c ≡ d) × (due ≤ done) × Covered ws given

all_at : ℕ → List ℕ → List (ℕ × ℕ)
all_at n cs = map (λ c. (c, n)) cs

waits-Covered :
    (n m : ℕ) (ms : List WriterMessage)
    → n + length (updates_of ms) ≤ m
    → Covered (waits n ms) (all_at m (callers_of ms))
unfolding all_at
waits-Covered n m [] h = tt
waits-Covered n m (update u ∷ ms) h = waits-Covered (n + 1) m ms (omega (arith, h))
waits-Covered n m (truncate caller ∷ ms) h = (refl, omega (arith, h), waits-Covered n m ms h)
waits-Covered n m (flush caller ∷ ms) h = (refl, omega (arith, h), waits-Covered n m ms h)
waits-Covered n m (shutdown ∷ ms) h = waits-Covered n m ms h

-- What a round, or several, took from the queue.
pub record Does (queue : List WriterMessage) (r : Round) : Type 0 where
  pub taken : List WriterMessage
  pub split : queue ≡ taken ++ r.rest
  pub commits_all : commits r.actions ≡ updates_of taken
  pub effects_all : effects r.actions ≡ effects_of taken
  pub in_order : (n : ℕ) → Covered (waits n taken) (answers n r.actions)
  pub stops : shuts taken ≡ r.stopped

commits-answers : (fs : List ℕ) (t : Option ℕ) → commits (map flushed fs ++ answer_truncate t) ≡ []
commits-answers [] none = refl
commits-answers [] (some caller) = refl
commits-answers (f ∷ fs) t = commits-answers fs t

effects-answers :
    (fs : List ℕ) (t : Option ℕ) → effects (map flushed fs ++ answer_truncate t) ≡ wiping t
effects-answers [] none = refl
effects-answers [] (some caller) = refl
effects-answers (f ∷ fs) t = effects-answers fs t

answers_at :
    (n : ℕ) (fs : List ℕ) (t : Option ℕ)
    → answers n (map flushed fs ++ answer_truncate t) ≡ all_at n (fs ++ truncate_callers t)
unfolding all_at
answers_at n [] none = refl
answers_at n [] (some caller) = refl
answers_at n (f ∷ fs) t = ap (λ l. (f, n) ∷ l) (answers_at n fs t)

finish-Does :
    (first : FileUpdate) (queue : List WriterMessage) (d : Drained)
    → Takes queue d
    → Does (update first ∷ queue) (finish first d)
unfolding finish
finish-Does first queue d t = record {
  taken = update first ∷ t.taken;
  split = ap (λ q. update first ∷ q) t.split;
  commits_all =
      ap (λ l. first ∷ (d.batch ++ l)) (commits-answers d.pending_flushes d.pending_truncate)
      ∙ ap (λ l. first ∷ l) (append-nil d.batch)
      ∙ ap (λ l. first ∷ l) (sym t.batch);
  effects_all =
      ap (λ l. writes first ∷ (map writes d.batch ++ l))
        (effects-answers d.pending_flushes d.pending_truncate)
      ∙ ap (λ l. writes first ∷ l) (sym t.effects_all);
  in_order = λ n.
      let m = n + length (first ∷ d.batch) in
      let given : answers m (map flushed d.pending_flushes ++ answer_truncate d.pending_truncate)
          ≡ all_at m (callers_of t.taken) =
        answers_at m d.pending_flushes d.pending_truncate ∙ ap (all_at m) (sym t.callers) in
      subst (Covered (waits (n + 1) t.taken)) (sym given)
        (waits-Covered (n + 1) m t.taken (omega (arith, ap length t.batch)));
  stops = t.stops;
}

pub round-Does : (found : ℕ) (queue : List WriterMessage) → Does queue (round found queue)
unfolding round
round-Does found [] = record {
  taken = [];
  split = refl;
  commits_all = refl;
  effects_all = refl;
  in_order = λ n. tt;
  stops = refl;
}
round-Does found (update first ∷ queue) =
    finish-Does first queue (drain found 63 queue) (drain-Takes found 63 queue)
round-Does found (truncate caller ∷ queue) = record {
  taken = truncate caller ∷ [];
  split = refl;
  commits_all = refl;
  effects_all = refl;
  in_order = λ n. (refl, omega arith, tt);
  stops = refl;
}
round-Does found (flush caller ∷ queue) = record {
  taken = flush caller ∷ [];
  split = refl;
  commits_all = refl;
  effects_all = refl;
  in_order = λ n. (refl, omega arith, tt);
  stops = refl;
}
round-Does found (shutdown ∷ queue) = record {
  taken = shutdown ∷ [];
  split = refl;
  commits_all = refl;
  effects_all = refl;
  in_order = λ n. tt;
  stops = refl;
}

-- A round on a queue with a message leaves fewer.
pub round_shorter :
    (found : ℕ) (m : WriterMessage) (queue : List WriterMessage)
    → length (round found (m ∷ queue)).rest ≤ length queue
unfolding round finish
round_shorter found (update first) queue =
    let t = drain-Takes found 63 queue in
    omega (arith, ap length t.split, length-append t.taken (drain found 63 queue).rest)
round_shorter found (truncate caller) queue = omega arith
round_shorter found (flush caller) queue = omega arith
round_shorter found shutdown queue = omega arith
