-- ===== src/Persistence/SnapshotWriter/Progress.antt =====
-- The worker of persistence/src/snapshot_writer.cpp can always finish what is queued.
use clear_space.Prelude.{
  ℕ, ◌≡◌, refl, ap, ◌∙◌, false, Option, none, some, List, [], ◌∷◌, ◌++◌, length, arith,
}
use clear_space.Core.Types.{PersistedBoardSnapshot}
use clear_space.Persistence.SnapshotStore.{SnapshotStore}
use clear_space.Persistence.SnapshotWriter.{
  Worker, waiting, saving, saved, counted, ended, checking, returned, Action, take, save, count,
  notify, check, Writer, new_writer, save_task, decr64, step, run, is_ended, wake, take_task,
  save_step, count_step, notify_step, check_step,
}
use clear_space.Persistence.SnapshotWriter.Steps.{busy}
use clear_space.Persistence.SnapshotWriter.Drain.{after}

module _ (st : SnapshotStore) where
  open st use {Store}

  -- What the worker does to come back to its wait, and then for each task of the queue.
  abbrev pub to_wait : Worker → List Action
  to_wait waiting = []
  to_wait (saving task) = save ∷ count ∷ notify ∷ []
  to_wait saved = count ∷ notify ∷ []
  to_wait counted = notify ∷ []
  to_wait ended = []

  abbrev pub rounds : List PersistedBoardSnapshot → List Action
  rounds [] = []
  rounds (task ∷ q) = take ∷ save ∷ count ∷ notify ∷ rounds q

  abbrev pub work_off : Writer st → List Action
  work_off w = to_wait w.worker ++ rounds w.queue

  -- The worker waits, and the rest is as in `w` where it matters to `flush`.
  record IsWaiting (w w' : Writer st) : Type 0 where
    waits : w'.worker ≡ waiting
    same_in_flight : w'.in_flight ≡ w.in_flight
    still_checking : w.flusher ≡ checking → w'.flusher ≡ checking

  run-append :
      (w w1 : Writer st) (xs ys : List Action)
      → run st w xs ≡ some w1
      → run st w (xs ++ ys) ≡ run st w1 ys
  unfolding run
  run-append w w1 [] ys e = let same : w ≡ w1 = cc in ap (λ v. run st v ys) same
  run-append w w1 (x ∷ xs) ys e = through (step st w x) (λ v. run-append v w1 xs ys) e
    where
      through :
          (o : Option (Writer st))
          → ((v : Writer st) → run st v xs ≡ some w1 → run st v (xs ++ ys) ≡ run st w1 ys)
          → (elim o [ none ↦ none | some v ↦ run st v xs ]) ≡ some w1
          → (elim o [ none ↦ none | some v ↦ run st v (xs ++ ys) ]) ≡ run st w1 ys
      through none again h = absurd (cc)
      through (some v) again h = again v h

  abbrev notified : Writer st → Writer st
  notified w = record w { worker = waiting; flusher = wake st w.flusher }

  abbrev counted_down : Writer st → Writer st
  counted_down w = record w { pending = decr64 st w.pending; worker = counted }

  abbrev handed : PersistedBoardSnapshot → Writer st → Writer st
  handed task w = record w { store = save_task st w.keep_latest w.store task; worker = saved }

  abbrev taken : PersistedBoardSnapshot → List PersistedBoardSnapshot → Writer st → Writer st
  taken task q w = record w { queue = q; worker = saving task }

  notified-IsWaiting :
      (w v : Writer st)
      → v.in_flight ≡ w.in_flight
      → v.flusher ≡ w.flusher
      → IsWaiting w (notified v)
  unfolding wake
  notified-IsWaiting w v e f = record {
    waits = refl;
    same_in_flight = e;
    still_checking = λ h. ap (wake st) (f ∙ h);
  }

  run-check :
      (w : Writer st)
      → w.flusher ≡ checking
      → w.pending ≡ 0
      → run st w (check ∷ []) ≡ some (record w { flusher = returned })
  unfolding run step check_step
  run-check w e z = rw (e, z)

  run-notify : (w : Writer st) → w.worker ≡ counted → run st w (notify ∷ []) ≡ some (notified w)
  unfolding run step notify_step
  run-notify w e = rw (e)

  run-count :
      (w : Writer st)
      → w.worker ≡ saved
      → run st w (count ∷ notify ∷ []) ≡ some (notified (counted_down w))
  unfolding run step notify_step count_step
  run-count w e = rw (e)

  run-save :
      (w : Writer st) (task : PersistedBoardSnapshot)
      → w.worker ≡ saving task
      → run st w (save ∷ count ∷ notify ∷ []) ≡ some (notified (counted_down (handed task w)))
  unfolding run step notify_step count_step save_step
  run-save w task e = rw (e)

  run-take :
      (w : Writer st) (task : PersistedBoardSnapshot) (q : List PersistedBoardSnapshot)
      → w.worker ≡ waiting
      → w.queue ≡ task ∷ q
      → run st w (take ∷ save ∷ count ∷ notify ∷ [])
        ≡ some (notified (counted_down (handed task (taken task q w))))
  unfolding run step notify_step count_step save_step take_task
  run-take w task q e f = rw (e, f)

  to_wait-IsWaiting :
      (w : Writer st) (k : Worker)
      → w.worker ≡ k
      → is_ended st k ≡ false
      → (w' : Writer st) × (run st w (to_wait k) ≡ some w') × IsWaiting w w' × (w'.queue ≡ w.queue)
  unfolding run
  to_wait-IsWaiting w waiting e a =
      (w, refl, record { waits = e; same_in_flight = refl; still_checking = λ h. h }, refl)
  to_wait-IsWaiting w counted e a =
      (notified w, run-notify w e, notified-IsWaiting w w refl refl, refl)
  to_wait-IsWaiting w saved e a = (
    notified (counted_down w),
    run-count w e,
    notified-IsWaiting w (counted_down w) refl refl,
    refl,
  )
  to_wait-IsWaiting w (saving task) e a = (
    notified (counted_down (handed task w)),
    run-save w task e,
    notified-IsWaiting w (counted_down (handed task w)) refl refl,
    refl,
  )
  to_wait-IsWaiting w ended e a = absurd (cc)

  rounds-IsWaiting :
      (w : Writer st) (q : List PersistedBoardSnapshot)
      → w.worker ≡ waiting
      → w.queue ≡ q
      → (w' : Writer st) × (run st w (rounds q) ≡ some w') × IsWaiting w w' × (w'.queue ≡ [])
  unfolding run
  rounds-IsWaiting w [] e f =
      (w, refl, record { waits = e; same_in_flight = refl; still_checking = λ h. h }, f)
  rounds-IsWaiting w (task ∷ q) e f =
      let w1 = notified (counted_down (handed task (taken task q w))) in
      let next = notified-IsWaiting w (counted_down (handed task (taken task q w))) refl refl in
      let (w2, r, h, empty) = rounds-IsWaiting w1 q refl refl in
      (
        w2,
        run-append w w1 (take ∷ save ∷ count ∷ notify ∷ []) (rounds q) (run-take w task q e f) ∙ r,
        record {
          waits = h.waits;
          same_in_flight = h.same_in_flight;
          still_checking = λ c. h.still_checking (next.still_checking c);
        },
        empty,
      )

  work_off-IsWaiting :
      (w : Writer st)
      → is_ended st w.worker ≡ false
      → (w' : Writer st) × (run st w (work_off w) ≡ some w') × IsWaiting w w' × (w'.queue ≡ [])
  work_off-IsWaiting w a =
      let (w1, r1, h1, same) = to_wait-IsWaiting w w.worker refl a in
      let (w2, r2, h2, empty) = rounds-IsWaiting w1 w.queue h1.waits same in
      (
        w2,
        run-append w w1 (to_wait w.worker) (rounds w.queue) r1 ∙ r2,
        record {
          waits = h2.waits;
          same_in_flight = h2.same_in_flight ∙ h1.same_in_flight;
          still_checking = λ c. h2.still_checking (h1.still_checking c);
        },
        empty,
      )

  -- From every state with a running worker and no call of `enqueue` under way, the worker's own steps
  -- empty the queue and bring `pending_` to 0, and a thread that then is at the test of `flush` returns.
  pub work_off-returns :
      (store : Store) (keep : ℕ) (acts : List Action) (w : Writer st)
      → run st (new_writer st store keep) acts ≡ some w
      → is_ended st w.worker ≡ false
      → w.in_flight ≡ 0
      → w.flusher ≡ checking
      → (w' : Writer st) × (run st w (work_off w ++ (check ∷ [])) ≡ some w')
        × (w'.queue ≡ [])
        × (w'.pending ≡ 0)
        × (w'.flusher ≡ returned)
  work_off-returns store keep acts w e alive none_in c =
      let (w1, r, h, empty) = work_off-IsWaiting w alive in
      let there : run st (new_writer st store keep) (acts ++ work_off w) ≡ some w1 =
        run-append (new_writer st store keep) w acts (work_off w) e ∙ r in
      let a = after st store keep (acts ++ work_off w) w1 there in
      let b : busy st w1.worker ≡ 0 = ap (busy st) h.waits in
      let l : length w1.queue ≡ 0 = ap length empty in
      let zero_pending : w1.pending ≡ 0 =
        omega (arith, a.counted_right, b, l, h.same_in_flight, none_in) in
      (
        record w1 { flusher = returned },
        run-append w w1 (work_off w) (check ∷ []) r
            ∙ run-check w1 (h.still_checking c) zero_pending,
        empty,
        zero_pending,
        refl,
      )
