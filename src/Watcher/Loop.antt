-- ===== src/Watcher/Loop.antt =====
-- What the worker has told of a path by the time that it returns.
use xgraph.Prelude.{
  Bool, true, false, Option, none, some, List, [], ◌∷◌, ◌++◌, if◌then◌else◌, ◌==◌, ◌≡◌, refl, arith,
  ◌∙◌, contains, contains-is_empty, is_empty, Option-cases, Bool-cases, inl, inr,
}
use xgraph.Map.{Map, find, get, get-empty, get-insert, iter}
use xgraph.Manifest.{PathBuf, path_key}
use xgraph.Watcher.{
  BatchedChanges, batch_is_empty, ChangeKind, created, modified, deleted, RawEvent, Input, raw,
  timer, shutdown, disconnected, Worker, new_worker, record_event, flush, build_batch,
  maybe_attach_watch_for_new_dir, attach, handle, run_debounce_loop,
}
use xgraph.Watcher.Batches.{bucket, says, build_batch-bucket}

-- The kind under which a batch has the path.
unfoldable pub told : PathBuf → BatchedChanges → Option ChangeKind
told p b =
    if contains b.created p
    then some created
    else if contains b.modified p
    then some modified
    else if contains b.deleted p
    then some deleted
    else none

-- The kind in the last of the batches that has the path.
unfoldable pub told_last : PathBuf → List BatchedChanges → Option ChangeKind
told_last p [] = none
told_last p (b ∷ bs) = elim (told_last p bs) [ some k ↦ some k | none ↦ told p b ]

-- The kind of the path's last event before the worker returns, from `held` on.
unfoldable pub last_kind : PathBuf → Option ChangeKind → List Input → Option ChangeKind
last_kind p held [] = held
last_kind p held (raw event ∷ inputs) =
    last_kind p (if event.path == p then some event.kind else held) inputs
last_kind p held (timer ∷ inputs) = last_kind p held inputs
last_kind p held (shutdown ∷ inputs) = held
last_kind p held (disconnected ∷ inputs) = held

-- The worker returns.
unfoldable pub ends : List Input → Bool
ends [] = false
ends (raw event ∷ inputs) = ends inputs
ends (timer ∷ inputs) = ends inputs
ends (shutdown ∷ inputs) = true
ends (disconnected ∷ inputs) = true

told_lem :
    (p : PathBuf) (b : BatchedChanges) (o : Option ChangeKind)
    → ((k : ChangeKind) → contains (bucket k b) p ≡ says k o)
    → told p b ≡ o
unfolding told
told_lem p b none h = ground (arith, h created, h modified, h deleted)
told_lem p b (some created) h = ground (arith, h created)
told_lem p b (some modified) h = ground (arith, h created, h modified)
told_lem p b (some deleted) h = ground (arith, h created, h modified, h deleted)

told-batch_is_empty : (p : PathBuf) (b : BatchedChanges) → batch_is_empty b ≡ true → told p b ≡ none
unfolding told batch_is_empty
told-batch_is_empty p b h = ground (
  arith,
  h,
  contains-is_empty b.created p,
  contains-is_empty b.modified p,
  contains-is_empty b.deleted p,
)

told_last-append :
    (p : PathBuf) (bs : List BatchedChanges) (b : BatchedChanges)
    → told_last p (bs ++ b ∷ []) ≡ elim (told p b) [ some k ↦ some k | none ↦ told_last p bs ]
unfolding told_last
told_last-append p [] b = ground (arith, Option-cases (told p b))
told_last-append p (c ∷ bs) b = ground (arith, told_last-append p bs b, Option-cases (told p b))

find-is_empty :
    (l : List (PathBuf × ChangeKind)) (p : PathBuf) → is_empty l ≡ true → find p l ≡ none
unfolding find
find-is_empty [] p h = refl
find-is_empty (e ∷ l) p h = absurd (cc h)

get-is_empty :
    (pending : Map PathBuf ChangeKind) (p : PathBuf)
    → is_empty pending.entries ≡ true
    → get pending p ≡ none
unfolding get
get-is_empty pending p h = find-is_empty pending.entries p h

module _ (matched : PathBuf → Bool) (is_dir : PathBuf → Bool) where
  -- what the path's events so far come to
  abbrev view : Worker → PathBuf → Option ChangeKind
  view w p =
      if matched p
      then told_last p w.sent
      else elim (get w.pending p) [ some k ↦ some k | none ↦ told_last p w.sent ]

  told-build_batch :
      (pending : Map PathBuf ChangeKind) (p : PathBuf)
      → told p (build_batch matched is_dir (iter pending))
        ≡ (if matched p then none else get pending p)
  told-build_batch pending p =
      told_lem p (build_batch matched is_dir (iter pending))
        (if matched p then none else get pending p)
        (λ k. ground (arith, build_batch-bucket matched is_dir pending p k))

  flush-view : (w : Worker) (p : PathBuf) → told_last p (flush matched is_dir w).sent ≡ view w p
  unfolding flush
  flush-view w p = elim (Bool-cases (is_empty w.pending.entries)) [
    | inl nothing ↦ ground (arith, nothing, get-is_empty w.pending p)
    | inr pending ↦
        let batch = build_batch matched is_dir (iter w.pending) in
        elim (Bool-cases (batch_is_empty batch)) [
          | inl none_left ↦
              rw (pending, none_left)
                (ground (
                  arith,
                  told-batch_is_empty p batch none_left,
                  told-build_batch w.pending p,
                  Option-cases (get w.pending p),
                ))
          | inr some_left ↦
              rw (pending, some_left)
                (ground (
                  arith,
                  told_last-append p w.sent batch,
                  told-build_batch w.pending p,
                  Option-cases (get w.pending p),
                ))
        ]
  ]

  flush-pending : (w : Worker) (p : PathBuf) → get (flush matched is_dir w).pending p ≡ none
  unfolding flush
  flush-pending w p = elim (Bool-cases (is_empty w.pending.entries)) [
    | inl nothing ↦ rw nothing (get-is_empty w.pending p nothing)
    | inr pending ↦
        elim (Bool-cases (batch_is_empty (build_batch matched is_dir (iter w.pending)))) [
          | inl none_left ↦ rw (pending, none_left) (get-empty {V = ChangeKind} p)
          | inr some_left ↦ rw (pending, some_left) (get-empty {V = ChangeKind} p)
        ]
  ]

  flush-returned : (w : Worker) → (flush matched is_dir w).returned ≡ w.returned
  unfolding flush
  flush-returned w = ground (
    arith,
    Bool-cases (is_empty w.pending.entries),
    Bool-cases (batch_is_empty (build_batch matched is_dir (iter w.pending))),
  )

  attach-frame :
      (w : Worker) (path : PathBuf) (kind : ChangeKind)
      → let w' = attach matched is_dir w path kind in
        (w'.pending ≡ w.pending) × (w'.sent ≡ w.sent) × (w'.returned ≡ w.returned)
  unfolding attach maybe_attach_watch_for_new_dir
  attach-frame w path created = ground (arith, Bool-cases (is_dir path), Bool-cases (matched path))
  attach-frame w path modified = (refl, refl, refl)
  attach-frame w path deleted = (refl, refl, refl)

  handle-raw :
      (w : Worker) (event : RawEvent) (p : PathBuf)
      → (view (handle matched is_dir w (raw event)) p
          ≡ (if matched p then view w p else if event.path == p then some event.kind else view w p))
        × ((handle matched is_dir w (raw event)).returned ≡ w.returned)
  unfolding handle record_event
  handle-raw w event p =
      let frame = attach-frame w event.path event.kind in
      (
        ground (
          arith,
          frame.0,
          frame.1,
          get-insert (attach matched is_dir w event.path event.kind).pending event.path event.kind
              p,
          Bool-cases (matched p),
        ),
        frame.2,
      )

  handle_lem :
      (w : Worker)
      → handle matched is_dir w timer
        ≡ (if w.armed then record (flush matched is_dir w) { armed = false } else w)
  unfolding handle
  handle_lem w = refl

  handle-timer :
      (w : Worker) (p : PathBuf)
      → (view (handle matched is_dir w timer) p ≡ view w p)
        × ((handle matched is_dir w timer).returned ≡ w.returned)
  handle-timer w p = ground (
    arith,
    handle_lem w,
    flush-view w p,
    flush-pending w p,
    flush-returned w,
    Bool-cases (matched p),
    Bool-cases w.armed,
  )

  run_debounce_loop-next :
      (w : Worker) (input : Input) (inputs : List Input)
      → w.returned ≡ false
      → run_debounce_loop matched is_dir w (input ∷ inputs)
        ≡ run_debounce_loop matched is_dir (handle matched is_dir w input) inputs
  unfolding run_debounce_loop
  run_debounce_loop-next w input inputs h = ground (arith, h)

  run_debounce_loop-returned :
      (w : Worker) (inputs : List Input)
      → w.returned ≡ true
      → run_debounce_loop matched is_dir w inputs ≡ w
  unfolding run_debounce_loop
  run_debounce_loop-returned w [] h = refl
  run_debounce_loop-returned w (input ∷ inputs) h = ground (arith, h)

  run_debounce_loop-view :
      (w : Worker) (inputs : List Input) (p : PathBuf)
      → w.returned ≡ false
      → ends inputs ≡ true
      → told_last p (run_debounce_loop matched is_dir w inputs).sent
        ≡ (if matched p then view w p else last_kind p (view w p) inputs)
  unfolding ends last_kind handle
  run_debounce_loop-view w [] p going h = absurd (cc h)
  run_debounce_loop-view w (raw event ∷ inputs) p going h =
      let w' = handle matched is_dir w (raw event) in
      let new = handle-raw w event p in
      rw (run_debounce_loop-next w (raw event) inputs going) (
        run_debounce_loop-view w' inputs p (new.1 ∙ going) h
        ∙ ground (arith, new.0, Bool-cases (matched p)))
  run_debounce_loop-view w (timer ∷ inputs) p going h =
      let w' = handle matched is_dir w timer in
      let new = handle-timer w p in
      rw (run_debounce_loop-next w timer inputs going) (
        run_debounce_loop-view w' inputs p (new.1 ∙ going) h
        ∙ ground (arith, new.0, Bool-cases (matched p)))
  run_debounce_loop-view w (shutdown ∷ inputs) p going h =
      rw (run_debounce_loop-next w shutdown inputs going) (
        rw (run_debounce_loop-returned (handle matched is_dir w shutdown) inputs refl)
          (flush-view w p ∙ ground (arith, Bool-cases (matched p))))
  run_debounce_loop-view w (disconnected ∷ inputs) p going h =
      rw (run_debounce_loop-next w disconnected inputs going) (
        rw (run_debounce_loop-returned (handle matched is_dir w disconnected) inputs refl)
          (flush-view w p ∙ ground (arith, Bool-cases (matched p))))

  -- However the timer falls between the events: once the worker has been told to stop, or its source is
  -- gone, the last batch that has a path has it under the kind of the path's last event; a path that the
  -- matcher ignores, or that had no event, is in no batch.
  pub run_debounce_loop_reports :
      (inputs : List Input) (p : PathBuf)
      → ends inputs ≡ true
      → told_last p (run_debounce_loop matched is_dir new_worker inputs).sent
        ≡ (if matched p then none else last_kind p none inputs)
  unfolding told_last
  run_debounce_loop_reports inputs p h =
      run_debounce_loop-view new_worker inputs p refl h
      ∙ ground (arith, get-empty {V = ChangeKind} p, Bool-cases (matched p))
