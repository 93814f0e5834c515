-- ===== src/Persistence/SnapshotWriter/Tests.antt =====
-- Runs of the snapshot writer over a store that keeps the numbers of the snapshots.
use clear_space.Prelude.{
  incr64, not, ℕ, ◌≡◌, refl, true, false, none, some, List, [], ◌∷◌, ◌++◌, arith, ◌==◌,
}
use clear_space.Core.Types.{Seq, PersistedBoardSnapshot}
use clear_space.Persistence.SnapshotStore.{SnapshotStore}
use clear_space.Persistence.SnapshotWriter.{
  is_ended, save_task, ended, checking, asleep, returned, Action, announce, push, ask_stop, take,
  save, count, notify, quit, check, sleep, Writer, new_writer, run, step,
}
use clear_space.Persistence.SnapshotWriter.Steps.{save_all, pushed}
use clear_space.Persistence.SnapshotWriter.Drain.{flush-IsComplete, destructor-IsComplete}
use clear_space.Persistence.SnapshotWriter.Progress.{work_off, work_off-returns}

abbrev numbers : SnapshotStore
numbers = record {
  Store = List Seq;
  save = λ kept room last strokes. (kept ++ (last ∷ []), not (last == 13));
  prune_keep_latest = λ kept room keep. (kept, true);
}

abbrev snapshot : ℕ → PersistedBoardSnapshot
snapshot n = record { room = 1; last_seq = n; strokes = [] }

abbrev fresh : Writer numbers
fresh = new_writer numbers [] 10

abbrev at_run : List Action → Writer numbers
at_run acts = elim (run numbers fresh acts) [ none ↦ fresh | some w ↦ w ]

-- Two snapshots, of which the second arrives while the first one is being saved.
abbrev two : List Action
two =
    announce
    ∷ push (snapshot 5)
    ∷ take
    ∷ announce
    ∷ push (snapshot 13)
    ∷ save
    ∷ count
    ∷ notify
    ∷ take
    ∷ save
    ∷ []

abbrev all_saved : List Action
all_saved = two ++ (count ∷ notify ∷ [])

abbrev closed : List Action
closed = all_saved ++ (ask_stop ∷ quit ∷ [])

saved_in_order : (at_run all_saved).store ≡ 5 ∷ 13 ∷ []
unfolding run step new_writer save_task
saved_in_order = refl

two_runs : run numbers fresh two ≡ some (at_run two)
unfolding run step new_writer save_task
two_runs = refl

all_saved_runs : run numbers fresh all_saved ≡ some (at_run all_saved)
unfolding run step new_writer save_task
all_saved_runs = refl

all_saved_pending : ((at_run all_saved).pending == 0) ≡ true
unfolding run step new_writer save_task incr64
all_saved_pending = refl

closed_runs : run numbers fresh closed ≡ some (at_run closed)
unfolding run step new_writer save_task
closed_runs = refl

closed_ended : (at_run closed).worker ≡ ended
unfolding run step new_writer save_task
closed_ended = refl

-- The worker counts down and notifies between the test and the sleep of a thread in `flush`, which then
-- sleeps though nothing is pending, and no step of the worker wakes it.
abbrev missed : List Action
missed = announce ∷ push (snapshot 5) ∷ check ∷ take ∷ save ∷ count ∷ notify ∷ sleep ∷ []

missed_asleep :
    ((at_run missed).flusher ≡ asleep)
    × ((at_run missed).pending ≡ 0)
    × (step numbers (at_run missed) take ≡ none)
    × (step numbers (at_run missed) notify ≡ none)
    × (step numbers (at_run missed) check ≡ none)
unfolding run step new_writer save_task incr64
missed_asleep = (refl, refl, refl, refl, refl)

flush-IsComplete_example :
    ((at_run all_saved).in_flight ≡ 0)
    × ((at_run all_saved).queue ≡ [])
    × ((at_run all_saved).store ≡ save_all numbers 10 [] (pushed numbers all_saved))
flush-IsComplete_example =
    flush-IsComplete numbers [] 10 all_saved (at_run all_saved) all_saved_runs (omega arith)
      all_saved_pending

destructor-IsComplete_example :
    (at_run closed).store ≡ save_all numbers 10 [] (pushed numbers closed)
destructor-IsComplete_example =
    destructor-IsComplete numbers [] 10 closed (at_run closed) closed_runs closed_ended

two_facts :
    (is_ended numbers (at_run two).worker ≡ false)
    × ((at_run two).in_flight ≡ 0)
    × ((at_run two).flusher ≡ checking)
unfolding run step new_writer save_task
two_facts = (refl, refl, refl)

work_off-returns_example :
    (w : Writer numbers) × (run numbers (at_run two) (work_off numbers (at_run two) ++ (check ∷ []))
      ≡ some w)
    × (w.queue ≡ [])
    × (w.pending ≡ 0)
    × (w.flusher ≡ returned)
work_off-returns_example =
    work_off-returns numbers [] 10 two (at_run two) two_runs two_facts.0 two_facts.1 two_facts.2
