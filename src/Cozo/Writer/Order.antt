-- ===== src/Cozo/Writer/Order.antt =====
-- Over any rounds of the writer, nothing is lost or overtaken.
use xgraph.Prelude.{
  ℕ, ◌+◌, ◌≤◌, ◌<◌, true, false, ◌||◌, List, [], ◌∷◌, ◌++◌, map, if◌then◌else◌, length, ◌≡◌, ◌⊎◌,
  refl, arith, ap, sym, ◌∙◌, append-nil, append_assoc, length-append, Bool-cases, inl, inr, subst,
  ⊎_elim,
}
use xgraph.Cozo.Writer.{
  WriterMessage, update, truncate, flush, shutdown, Action, commit, flushed, truncated, Round,
  round, writer_loop, followed_by,
}
use xgraph.Cozo.Writer.Rounds.{
  writes, wipes, updates_of, effects_of, effects, shuts, commits, answers, waits, Covered, Does,
  round-Does, round_shorter,
}

updates_of-append :
    (ms ns : List WriterMessage) → updates_of (ms ++ ns) ≡ updates_of ms ++ updates_of ns
updates_of-append [] ns = refl
updates_of-append (update u ∷ ms) ns = ap (λ l. u ∷ l) (updates_of-append ms ns)
updates_of-append (truncate c ∷ ms) ns = updates_of-append ms ns
updates_of-append (flush c ∷ ms) ns = updates_of-append ms ns
updates_of-append (shutdown ∷ ms) ns = updates_of-append ms ns

waits-append :
    (n : ℕ) (ms ns : List WriterMessage)
    → waits n (ms ++ ns) ≡ waits n ms ++ waits (n + length (updates_of ms)) ns
waits-append n [] ns = ap (λ k. waits k ns) (omega arith)
waits-append n (update u ∷ ms) ns =
    waits-append (n + 1) ms ns ∙ ap (λ k. waits (n + 1) ms ++ waits k ns) (omega arith)
waits-append n (truncate c ∷ ms) ns = ap (λ l. (c, n) ∷ l) (waits-append n ms ns)
waits-append n (flush c ∷ ms) ns = ap (λ l. (c, n) ∷ l) (waits-append n ms ns)
waits-append n (shutdown ∷ ms) ns = waits-append n ms ns

commits-append : (xs ys : List Action) → commits (xs ++ ys) ≡ commits xs ++ commits ys
commits-append [] ys = refl
commits-append (commit us ∷ xs) ys =
    ap (λ l. us ++ l) (commits-append xs ys) ∙ sym (append_assoc us (commits xs) (commits ys))
commits-append (flushed c ∷ xs) ys = commits-append xs ys
commits-append (truncated c ∷ xs) ys = commits-append xs ys

pub effects_of-append :
    (ms ns : List WriterMessage) → effects_of (ms ++ ns) ≡ effects_of ms ++ effects_of ns
effects_of-append [] ns = refl
effects_of-append (update u ∷ ms) ns = ap (λ l. writes u ∷ l) (effects_of-append ms ns)
effects_of-append (truncate c ∷ ms) ns = ap (λ l. wipes c ∷ l) (effects_of-append ms ns)
effects_of-append (flush c ∷ ms) ns = effects_of-append ms ns
effects_of-append (shutdown ∷ ms) ns = effects_of-append ms ns

effects-append : (xs ys : List Action) → effects (xs ++ ys) ≡ effects xs ++ effects ys
effects-append [] ys = refl
effects-append (commit us ∷ xs) ys =
    ap (λ l. map writes us ++ l) (effects-append xs ys)
    ∙ sym (append_assoc (map writes us) (effects xs) (effects ys))
effects-append (flushed c ∷ xs) ys = effects-append xs ys
effects-append (truncated c ∷ xs) ys = ap (λ l. wipes c ∷ l) (effects-append xs ys)

answers-append :
    (n : ℕ) (xs ys : List Action)
    → answers n (xs ++ ys) ≡ answers n xs ++ answers (n + length (commits xs)) ys
answers-append n [] ys = ap (λ k. answers k ys) (omega arith)
answers-append n (commit us ∷ xs) ys =
    answers-append (n + length us) xs ys
    ∙ ap (λ k. answers (n + length us) xs ++ answers k ys)
        (omega (arith, length-append us (commits xs)))
answers-append n (flushed c ∷ xs) ys = ap (λ l. (c, n) ∷ l) (answers-append n xs ys)
answers-append n (truncated c ∷ xs) ys = ap (λ l. (c, n) ∷ l) (answers-append n xs ys)

Covered-append :
    (ws vs given later : List (ℕ × ℕ))
    → Covered ws given
    → Covered vs later
    → Covered (ws ++ vs) (given ++ later)
Covered-append [] vs [] later h k = k
Covered-append [] vs (_ ∷ _) later h k = elim h [ ]
Covered-append (_ ∷ _) vs [] later h k = elim h [ ]
Covered-append ((c, due) ∷ ws) vs ((d, done) ∷ given) later h k =
    (h.0, h.1, Covered-append ws vs given later h.2 k)

pub shuts-append : (ms ns : List WriterMessage) → shuts (ms ++ ns) ≡ (shuts ms || shuts ns)
shuts-append [] ns = refl
shuts-append (update u ∷ ms) ns = shuts-append ms ns
shuts-append (truncate c ∷ ms) ns = shuts-append ms ns
shuts-append (flush c ∷ ms) ns = shuts-append ms ns
shuts-append (shutdown ∷ ms) ns = refl

-- Two parts of the work, one behind the other.
Does-then :
    (queue : List WriterMessage) (r s : Round)
    → Does queue r
    → r.stopped ≡ false
    → Does r.rest s
    → Does queue (followed_by r.actions s)
Does-then queue r s a going b = record {
  taken = a.taken ++ b.taken;
  split = a.split ∙ ap (λ q. a.taken ++ q) b.split ∙ sym (append_assoc a.taken b.taken s.rest);
  commits_all =
      commits-append r.actions s.actions
      ∙ ap (λ l. l ++ commits s.actions) a.commits_all
      ∙ ap (λ l. updates_of a.taken ++ l) b.commits_all
      ∙ sym (updates_of-append a.taken b.taken);
  effects_all =
      effects-append r.actions s.actions
      ∙ ap (λ l. l ++ effects s.actions) a.effects_all
      ∙ ap (λ l. effects_of a.taken ++ l) b.effects_all
      ∙ sym (effects_of-append a.taken b.taken);
  in_order = λ n.
      let m = n + length (updates_of a.taken) in
      let same : n + length (commits r.actions) ≡ m = omega (arith, ap length a.commits_all) in
      let left : waits n (a.taken ++ b.taken) ≡ waits n a.taken ++ waits m b.taken =
        waits-append n a.taken b.taken in
      let right : answers n (r.actions ++ s.actions) ≡ answers n r.actions ++ answers m s.actions =
        answers-append n r.actions s.actions
        ∙ ap (λ k. answers n r.actions ++ answers k s.actions) same in
      subst (λ w. Covered w (answers n (r.actions ++ s.actions))) (sym left)
        (subst (Covered (waits n a.taken ++ waits m b.taken)) (sym right) (
          Covered-append (waits n a.taken) (waits m b.taken) (answers n r.actions)
            (answers m s.actions) (a.in_order n) (b.in_order m)));
  stops = shuts-append a.taken b.taken ∙ ground (arith, a.stops, b.stops, going);
}

-- However the messages arrive, the writer has taken a prefix of them: it committed the updates among
-- them in the order in which they were sent, it answered the callers among them in their order, each
-- after every update that was sent before the call, and it stopped exactly if shutdown is among them.
pub writer_loop-Does :
    (found : List ℕ) (queue : List WriterMessage) → Does queue (writer_loop found queue)
unfolding writer_loop
writer_loop-Does [] queue = record {
  taken = [];
  split = refl;
  commits_all = refl;
  effects_all = refl;
  in_order = λ n. tt;
  stops = refl;
}
writer_loop-Does (found ∷ more) queue =
    let r = round found queue in
    elim r.stopped
        as (λ b.
          r.stopped ≡ b
          → Does queue (if b then r else followed_by r.actions (writer_loop more r.rest))) [
            | true ↦ λ h. round-Does found queue
            | false ↦ λ h.
                Does-then queue r (writer_loop more r.rest) (round-Does found queue) h
                  (writer_loop-Does more r.rest)
          ]
      refl

empty_stays :
    (found : List ℕ) → ((writer_loop found []).stopped ≡ true) ⊎ ((writer_loop found []).rest ≡ [])
unfolding writer_loop round
empty_stays [] = inr refl
empty_stays (f ∷ found) = empty_stays found

shuts-tail :
    (m : WriterMessage) (ms : List WriterMessage) → shuts (m ∷ ms) ≡ false → shuts ms ≡ false
shuts-tail (update u) ms h = h
shuts-tail (truncate c) ms h = h
shuts-tail (flush c) ms h = h
shuts-tail shutdown ms h = absurd (cc h)

shuts-head :
    (m : WriterMessage) (ms : List WriterMessage) → shuts (m ∷ ms) ≡ false → shuts (m ∷ []) ≡ false
shuts-head (update u) ms h = refl
shuts-head (truncate c) ms h = refl
shuts-head (flush c) ms h = refl
shuts-head shutdown ms h = absurd (cc h)

shuts-later :
    (m : WriterMessage) (ms : List WriterMessage)
    → shuts (m ∷ ms) ≡ true
    → shuts (m ∷ []) ≡ false
    → shuts ms ≡ true
shuts-later (update u) ms h k = h
shuts-later (truncate c) ms h k = h
shuts-later (flush c) ms h k = h
shuts-later shutdown ms h k = absurd (cc k)

-- With as many rounds as messages, the writer stops or empties the queue.
writer_loop_progress :
    (found : List ℕ) (queue : List WriterMessage)
    → length queue ≤ length found
    → ((writer_loop found queue).stopped ≡ true) ⊎ ((writer_loop found queue).rest ≡ [])
unfolding writer_loop
writer_loop_progress [] [] h = inr refl
writer_loop_progress [] (m ∷ queue) h = absurd (omega (arith, h))
writer_loop_progress (found ∷ more) [] h = empty_stays (found ∷ more)
writer_loop_progress (found ∷ more) (m ∷ queue) h =
    let r = round found (m ∷ queue) in
    elim r.stopped
        as (λ b.
          r.stopped ≡ b
          → let s = (if b then r else followed_by r.actions (writer_loop more r.rest)) in
            (s.stopped ≡ true) ⊎ (s.rest ≡ [])) [
              | true ↦ λ e. inl e
              | false ↦ λ e.
                  writer_loop_progress more r.rest (omega (arith, h, round_shorter found m queue))
            ]
      refl

-- Up to a shutdown, a prefix that holds it is all there is.
prefix_to_shutdown :
    (ms taken rest : List WriterMessage)
    → ms ++ shutdown ∷ [] ≡ taken ++ rest
    → shuts ms ≡ false
    → shuts taken ≡ true
    → rest ≡ []
prefix_to_shutdown ms [] rest e quiet h = absurd (cc h)
prefix_to_shutdown [] (t ∷ []) rest e quiet h = ground (arith, e)
prefix_to_shutdown [] (t ∷ t' ∷ taken) rest e quiet h = absurd (ground (arith, e))
prefix_to_shutdown (m ∷ ms) (t ∷ taken) rest e quiet h =
    prefix_to_shutdown ms taken rest (ground (arith, e)) (shuts-tail m ms quiet) (
      shuts-later m taken (subst (λ x. shuts (x ∷ taken) ≡ true) (sym (ground (arith, e))) h)
        (shuts-head m ms quiet))

-- When shutdown is the last message, the writer takes all of them.
pub writer_loop_takes_all :
    (found : List ℕ) (ms : List WriterMessage)
    → shuts ms ≡ false
    → length ms < length found
    → ((writer_loop found (ms ++ shutdown ∷ [])).rest ≡ [])
      × ((writer_loop-Does found (ms ++ shutdown ∷ [])).taken ≡ ms ++ shutdown ∷ [])
writer_loop_takes_all found ms quiet enough =
    let queue = ms ++ shutdown ∷ [] in
    let r = writer_loop found queue in
    let d = writer_loop-Does found queue in
    let ends : r.rest ≡ [] =
      ⊎_elim
        (λ (stopped : r.stopped ≡ true).
          prefix_to_shutdown ms d.taken r.rest d.split quiet (d.stops ∙ stopped))
        (λ (empty : r.rest ≡ []). empty)
        (writer_loop_progress found queue
          (omega (arith, enough, length-append ms (shutdown ∷ [])))) in
    (ends, sym (d.split ∙ ap (λ q. d.taken ++ q) ends ∙ append-nil d.taken))

-- When shutdown is the last message, the writer stops after at most one round for each message, and by
-- then it has committed every update that was sent, in order, and has answered every caller, each after
-- the updates sent before the call.
pub writer_loop_drains :
    (found : List ℕ) (ms : List WriterMessage)
    → shuts ms ≡ false
    → length ms < length found
    → let r = writer_loop found (ms ++ shutdown ∷ []) in
      (r.stopped ≡ true)
      × (r.rest ≡ [])
      × (commits r.actions ≡ updates_of ms)
      × Covered (waits 0 ms) (answers 0 r.actions)
writer_loop_drains found ms quiet enough =
    let queue = ms ++ shutdown ∷ [] in
    let r = writer_loop found queue in
    let d = writer_loop-Does found queue in
    let whole = writer_loop_takes_all found ms quiet enough in
    let all : d.taken ≡ queue = whole.1 in
    (
      sym d.stops
          ∙ ap shuts all
          ∙ shuts-append ms (shutdown ∷ [])
          ∙ ground (arith, Bool-cases (shuts ms)),
      whole.0,
      d.commits_all
          ∙ ap updates_of all
          ∙ updates_of-append ms (shutdown ∷ [])
          ∙ append-nil (updates_of ms),
      subst (λ w. Covered w (answers 0 r.actions))
          (ap (waits 0) all ∙ waits-append 0 ms (shutdown ∷ []) ∙ append-nil (waits 0 ms))
          (d.in_order 0),
    )
