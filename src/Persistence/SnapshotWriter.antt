-- ===== src/Persistence/SnapshotWriter.antt =====
-- persistence/src/snapshot_writer.cpp: the queue of snapshots, its worker thread, and flush. A step is
-- one stretch of a thread between two points where others may run: an atomic counter's change, or the
-- body of a lock.
pub mod Steps
pub mod Drain
pub mod Progress
mod Tests
use clear_space.Prelude.{
  ℕ, zero, suc, ◌+◌, ◌-◌, ◌%◌, ◌^◌, Bool, true, false, ◌||◌, Option, none, some, List, [], ◌∷◌,
  ◌++◌, ◌==◌, if◌then◌else◌, incr64,
}
use clear_space.Core.Types.{PersistedBoardSnapshot}
use clear_space.Persistence.SnapshotStore.{SnapshotStore}

-- The worker in `run_`: at the wait for a task, with a task that it took, behind the store's methods,
-- between the counter and the notification, and behind the loop.
pub data Worker : Type 0 where
  waiting : Worker
  saving : (task : PersistedBoardSnapshot) → Worker
  saved counted ended : Worker

-- A thread in `flush`: before the predicate of the wait, behind a predicate that was false but not
-- yet asleep, asleep, and back from it.
pub data Flusher : Type 0 where
  checking refused asleep returned : Flusher

pub data Action : Type 0 where
  -- `enqueue`: the counter, then the queue
  announce : Action
  push : PersistedBoardSnapshot → Action
  -- the destructor sets `stop_`
  ask_stop : Action
  -- `run_`
  take save count notify quit : Action
  -- `flush`
  check sleep : Action

module _ (st : SnapshotStore) where
  open st use {Store, save as store_save, prune_keep_latest}

  pub record Writer : Type 0 where
    pub store : Store
    pub keep_latest : ℕ
    pub queue : List PersistedBoardSnapshot
    pub stop : Bool
    pub pending : ℕ
    -- threads between the two parts of `enqueue`
    pub in_flight : ℕ
    pub worker : Worker
    pub flusher : Flusher

  -- The constructor.
  unfoldable pub new_writer : Store → ℕ → Writer
  new_writer store keep = record {
    store = store;
    keep_latest = keep;
    queue = [];
    stop = false;
    pending = 0;
    in_flight = 0;
    worker = waiting;
    flusher = checking;
  }

  -- The `try` of the loop: an exception ends it.
  unfoldable pub save_task : ℕ → Store → PersistedBoardSnapshot → Store
  save_task keep store task =
      let (store', ok) = store_save store task.room task.last_seq task.strokes in
      if ok then (prune_keep_latest store' task.room keep).0 else store'

  abbrev pub decr64 : ℕ → ℕ
  decr64 n = (n + (2 ^ 64 - 1)) % 2 ^ 64

  take_task : Writer → Worker → List PersistedBoardSnapshot → Option Writer
  take_task w waiting (task ∷ q) = some (record w { queue = q; worker = saving task })
  take_task w _ _ = none

  end_loop : Writer → Worker → List PersistedBoardSnapshot → Bool → Option Writer
  end_loop w waiting [] true = some (record w { worker = ended })
  end_loop w _ _ _ = none

  save_step : Writer → Worker → Option Writer
  save_step w (saving task) =
      some (record w { store = save_task w.keep_latest w.store task; worker = saved })
  save_step w _ = none

  count_step : Writer → Worker → Option Writer
  count_step w saved = some (record w { pending = decr64 w.pending; worker = counted })
  count_step w _ = none

  wake : Flusher → Flusher
  wake checking = checking
  wake refused = refused
  wake asleep = checking
  wake returned = returned

  notify_step : Writer → Worker → Option Writer
  unfolding wake
  notify_step w counted = some (record w { worker = waiting; flusher = wake w.flusher })
  notify_step w _ = none

  check_step : Writer → Flusher → Option Writer
  check_step w checking = some (record w { flusher = if w.pending == 0 then returned else refused })
  check_step w _ = none

  sleep_step : Writer → Flusher → Option Writer
  sleep_step w refused = some (record w { flusher = asleep })
  sleep_step w _ = none

  abbrev pub is_ended : Worker → Bool
  is_ended ended = true
  is_ended _ = false

  announce_step : Writer → Option Writer
  announce_step w = some (record w { pending = incr64 w.pending; in_flight = suc w.in_flight })

  push_step : Writer → PersistedBoardSnapshot → ℕ → Option Writer
  push_step w s zero = none
  push_step w s (suc n) = some (record w { queue = w.queue ++ (s ∷ []); in_flight = n })

  -- The writer after an action, `none` where no thread is at the point of it. Once the worker has ended
  -- the destructor returns, and nobody calls the object any more.
  unfoldable pub step : Writer → Action → Option Writer
  unfolding take_task end_loop save_step count_step notify_step check_step sleep_step announce_step
      push_step
  step w announce = if is_ended w.worker then none else announce_step w
  step w (push s) = if is_ended w.worker then none else push_step w s w.in_flight
  step w ask_stop = some (record w { stop = true })
  step w take = take_task w w.worker w.queue
  step w save = save_step w w.worker
  step w count = count_step w w.worker
  step w notify = notify_step w w.worker
  step w quit = end_loop w w.worker w.queue w.stop
  step w check = check_step w w.flusher
  step w sleep = sleep_step w w.flusher

  unfoldable pub run : Writer → List Action → Option Writer
  run w [] = some w
  run w (a ∷ acts) = elim (step w a) [ none ↦ none | some w' ↦ run w' acts ]
