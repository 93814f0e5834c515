-- ===== src/Persistence/SnapshotWriter/Steps.antt =====
-- What one step of the SnapshotWriter of persistence/src/snapshot_writer.cpp keeps.
use clear_space.Prelude.{
  Bool-cases, inl, inr, ℕ, zero, suc, ◌+◌, ◌%◌, ◌^◌, ◌≤◌, ◌≡◌, refl, ap, Bool, true, false, Option,
  none, some, List, [], ◌∷◌, ◌++◌, length, length-append, if◌then◌else◌, incr64, arith,
}
use clear_space.Core.Types.{PersistedBoardSnapshot}
use clear_space.Persistence.SnapshotStore.{SnapshotStore}
use clear_space.Persistence.SnapshotWriter.{
  Worker, waiting, saving, saved, counted, ended, Flusher, checking, refused, asleep, returned,
  Action, announce, push, ask_stop, take, save, count, notify, quit, check, sleep, Writer,
  save_task, take_task, end_loop, save_step, count_step, notify_step, check_step, sleep_step,
  announce_step, push_step, step, is_ended,
}

-- What holds of the state that a step leads to, if it leads anywhere.
abbrev pub All {ℓ κ} : {A : Type ℓ} → (A → Type κ) → Option A → Type κ
All P none = Unit
All P (some a) = P a

module _ (st : SnapshotStore) where
  open st use {Store}

  -- The store after the worker has dealt with these tasks, one after the other.
  abbrev pub save_all : ℕ → Store → List PersistedBoardSnapshot → Store
  save_all keep store [] = store
  save_all keep store (task ∷ tasks) = save_all keep (save_task st keep store task) tasks

  pub save_all-append :
      (keep : ℕ) (store : Store) (xs ys : List PersistedBoardSnapshot)
      → save_all keep store (xs ++ ys) ≡ save_all keep (save_all keep store xs) ys
  save_all-append keep store [] ys = refl
  save_all-append keep store (x ∷ xs) ys = save_all-append keep (save_task st keep store x) xs ys

  -- The snapshots that were put on the queue, in order.
  abbrev pub pushed : List Action → List PersistedBoardSnapshot
  pushed [] = []
  pushed (push s ∷ acts) = s ∷ pushed acts
  pushed (_ ∷ acts) = pushed acts

  abbrev pub settle : ℕ → Store → Worker → Store
  settle keep store (saving task) = save_task st keep store task
  settle keep store _ = store

  -- The store that the worker will leave if nothing more comes.
  abbrev pub settled : Writer st → Store
  settled w = save_all w.keep_latest (settle w.keep_latest w.store w.worker) w.queue

  abbrev pub busy : Worker → ℕ
  busy (saving task) = 1
  busy saved = 1
  busy _ = 0

  -- The snapshots that `pending_` counts.
  abbrev pub load : Writer st → ℕ
  load w = w.in_flight + (length w.queue + busy w.worker)

  abbrev pub IsDrained : Worker → List PersistedBoardSnapshot → Type 0
  IsDrained ended q = q ≡ []
  IsDrained _ q = Unit

  pub record IsNext (w : Writer st) (a : Action) (w' : Writer st) : Type 0 where
    pub keep : w'.keep_latest ≡ w.keep_latest
    pub settles : settled w' ≡ save_all w.keep_latest (settled w) (pushed (a ∷ []))
    pub loads : load w' ≤ load w + 1
    pub counts : w.pending ≡ load w % 2 ^ 64 → w'.pending ≡ load w' % 2 ^ 64
    pub drains : IsDrained w.worker w.queue → IsDrained w'.worker w'.queue

  settle-append :
      (keep : ℕ) (store : Store) (xs : List PersistedBoardSnapshot) (s : PersistedBoardSnapshot)
      → save_all keep store (xs ++ (s ∷ [])) ≡ save_task st keep (save_all keep store xs) s
  settle-append keep store xs s = save_all-append keep store xs (s ∷ [])

  length-push :
      (xs : List PersistedBoardSnapshot) (s : PersistedBoardSnapshot)
      → length (xs ++ (s ∷ [])) ≡ length xs + 1
  length-push xs s = length-append xs (s ∷ [])

  alive-IsDrained :
      (k : Worker) (q : List PersistedBoardSnapshot) → is_ended st k ≡ false → IsDrained k q
  alive-IsDrained waiting q e = tt
  alive-IsDrained (saving task) q e = tt
  alive-IsDrained saved q e = tt
  alive-IsDrained counted q e = tt
  alive-IsDrained ended q e = absurd (cc)

  announce-IsNext : (w : Writer st) → All (IsNext w announce) (announce_step st w)
  unfolding announce_step incr64
  announce-IsNext w = record {
    keep = refl;
    settles = refl;
    loads = omega arith;
    counts = λ h. omega (arith, h);
    drains = λ h. h;
  }

  push-IsNext :
      (w : Writer st) (s : PersistedBoardSnapshot) (n : ℕ)
      → is_ended st w.worker ≡ false
      → w.in_flight ≡ n
      → All (IsNext w (push s)) (push_step st w s n)
  unfolding push_step
  push-IsNext w s zero e f = tt
  push-IsNext w s (suc n) e f = record {
    keep = refl;
    settles = settle-append w.keep_latest _ w.queue s;
    loads = omega (arith, length-push w.queue s);
    counts = λ h. omega (arith, h, length-push w.queue s);
    drains = λ h. alive-IsDrained w.worker _ e;
  }

  take-IsNext :
      (w : Writer st) (k : Worker) (q : List PersistedBoardSnapshot)
      → w.worker ≡ k
      → w.queue ≡ q
      → All (IsNext w take) (take_task st w k q)
  unfolding take_task
  take-IsNext w waiting (task ∷ q) e f = record {
    keep = refl;
    settles = rw (e, f);
    loads = rw (e, f) (omega arith);
    counts = λ h.
        let b : busy w.worker ≡ 0 = ap busy e in
        let l : length w.queue ≡ suc (length q) = ap length f in omega (arith, h, b, l);
    drains = λ h. tt;
  }
  take-IsNext w waiting [] e f = tt
  take-IsNext w (saving task) q e f = tt
  take-IsNext w saved q e f = tt
  take-IsNext w counted q e f = tt
  take-IsNext w ended q e f = tt

  save-IsNext : (w : Writer st) (k : Worker) → w.worker ≡ k → All (IsNext w save) (save_step st w k)
  unfolding save_step
  save-IsNext w (saving task) e = record {
    keep = refl;
    settles = rw (e);
    loads = rw (e) (omega arith);
    counts = λ h. let b : busy w.worker ≡ 1 = ap busy e in omega (arith, h, b);
    drains = λ h. tt;
  }
  save-IsNext w waiting e = tt
  save-IsNext w saved e = tt
  save-IsNext w counted e = tt
  save-IsNext w ended e = tt

  count-IsNext :
      (w : Writer st) (k : Worker) → w.worker ≡ k → All (IsNext w count) (count_step st w k)
  unfolding count_step
  count-IsNext w saved e = record {
    keep = refl;
    settles = rw (e);
    loads = rw (e) (omega arith);
    counts = λ h. let b : busy w.worker ≡ 1 = ap busy e in omega (arith, h, b);
    drains = λ h. tt;
  }
  count-IsNext w waiting e = tt
  count-IsNext w (saving task) e = tt
  count-IsNext w counted e = tt
  count-IsNext w ended e = tt

  notify-IsNext :
      (w : Writer st) (k : Worker) → w.worker ≡ k → All (IsNext w notify) (notify_step st w k)
  unfolding notify_step
  notify-IsNext w counted e = record {
    keep = refl;
    settles = rw (e);
    loads = rw (e) (omega arith);
    counts = λ h. let b : busy w.worker ≡ 0 = ap busy e in omega (arith, h, b);
    drains = λ h. tt;
  }
  notify-IsNext w waiting e = tt
  notify-IsNext w (saving task) e = tt
  notify-IsNext w saved e = tt
  notify-IsNext w ended e = tt

  quit-IsNext :
      (w : Writer st) (k : Worker) (q : List PersistedBoardSnapshot) (stop : Bool)
      → w.worker ≡ k
      → w.queue ≡ q
      → All (IsNext w quit) (end_loop st w k q stop)
  unfolding end_loop
  quit-IsNext w waiting [] true e f = record {
    keep = refl;
    settles = rw (e);
    loads = rw (e) (omega arith);
    counts = λ h. let b : busy w.worker ≡ 0 = ap busy e in omega (arith, h, b);
    drains = λ h. f;
  }
  quit-IsNext w waiting [] false e f = tt
  quit-IsNext w waiting (s ∷ q) stop e f = tt
  quit-IsNext w (saving task) q stop e f = tt
  quit-IsNext w saved q stop e f = tt
  quit-IsNext w counted q stop e f = tt
  quit-IsNext w ended q stop e f = tt

  -- A step that changes neither the store, the queue, the counters nor the worker.
  idle-IsNext :
      (w : Writer st) (a : Action) (stop : Bool) (flusher : Flusher)
      → pushed (a ∷ []) ≡ []
      → IsNext w a (record w { stop = stop; flusher = flusher })
  idle-IsNext w a stop flusher e = record {
    keep = refl;
    settles = rw (e);
    loads = omega arith;
    counts = λ h. h;
    drains = λ h. h;
  }

  check-IsNext : (w : Writer st) (f : Flusher) → All (IsNext w check) (check_step st w f)
  unfolding check_step
  check-IsNext w checking = idle-IsNext w check w.stop _ refl
  check-IsNext w refused = tt
  check-IsNext w asleep = tt
  check-IsNext w returned = tt

  sleep-IsNext : (w : Writer st) (f : Flusher) → All (IsNext w sleep) (sleep_step st w f)
  unfolding sleep_step
  sleep-IsNext w refused = idle-IsNext w sleep w.stop asleep refl
  sleep-IsNext w checking = tt
  sleep-IsNext w asleep = tt
  sleep-IsNext w returned = tt

  alive-All :
      (w : Writer st) (a : Action) (o : Option (Writer st))
      → (is_ended st w.worker ≡ false → All (IsNext w a) o)
      → All (IsNext w a) (if is_ended st w.worker then none else o)
  alive-All w a o h = elim (Bool-cases (is_ended st w.worker)) [
    | inl e ↦ rw (e) tt
    | inr e ↦ rw (e) (h e)
  ]

  pub step-IsNext : (w : Writer st) (a : Action) → All (IsNext w a) (step st w a)
  unfolding step
  step-IsNext w announce = alive-All w announce _ (λ e. announce-IsNext w)
  step-IsNext w (push s) = alive-All w (push s) _ (λ e. push-IsNext w s w.in_flight e refl)
  step-IsNext w ask_stop = idle-IsNext w ask_stop true w.flusher refl
  step-IsNext w take = take-IsNext w w.worker w.queue refl refl
  step-IsNext w save = save-IsNext w w.worker refl
  step-IsNext w count = count-IsNext w w.worker refl
  step-IsNext w notify = notify-IsNext w w.worker refl
  step-IsNext w quit = quit-IsNext w w.worker w.queue w.stop refl refl
  step-IsNext w check = check-IsNext w w.flusher
  step-IsNext w sleep = sleep-IsNext w w.flusher
