-- ===== src/Persistence/SnapshotWriter/Drain.antt =====
-- What the SnapshotWriter of persistence/src/snapshot_writer.cpp owes its callers: which snapshots the
-- store has been given when `flush` returns and when the destructor does.
use mathlib.Core.Path.{subst}
use clear_space.Prelude.{
  append_assoc, append-nil, ℕ, ◌+◌, ◌%◌, ◌^◌, ◌≤◌, ◌<◌, ◌≡◌, refl, sym, ap, ◌∙◌, true, Option, none,
  some, List, [], ◌∷◌, ◌++◌, length, ◌==◌, arith,
}
use clear_space.Core.Types.{PersistedBoardSnapshot}
use clear_space.Persistence.SnapshotStore.{SnapshotStore}
use clear_space.Persistence.SnapshotWriter.{
  Worker, waiting, saving, saved, counted, ended, Action, announce, push, ask_stop, take, save,
  count, notify, quit, check, sleep, Writer, new_writer, step, run,
}
use clear_space.Persistence.SnapshotWriter.Steps.{
  All, save_all, save_all-append, pushed, settle, settled, busy, load, IsDrained, IsNext,
  step-IsNext,
}

module _ (st : SnapshotStore) where
  open st use {Store}

  -- What holds of a writer after these actions on a new one.
  pub record IsAfter (store : Store) (keep : ℕ) (n : ℕ) (tasks : List PersistedBoardSnapshot)
      (w : Writer st) : Type 0 where
    pub keep_same : w.keep_latest ≡ keep
    pub given : settled st w ≡ save_all st keep store tasks
    pub small : load st w ≤ n
    pub counted_right : w.pending ≡ load st w % 2 ^ 64
    pub drained : IsDrained st w.worker w.queue

  pushed_head :
      (a : Action) (acts : List Action)
      → pushed st (a ∷ acts) ≡ pushed st (a ∷ []) ++ pushed st acts
  pushed_head announce acts = refl
  pushed_head (push s) acts = refl
  pushed_head ask_stop acts = refl
  pushed_head take acts = refl
  pushed_head save acts = refl
  pushed_head count acts = refl
  pushed_head notify acts = refl
  pushed_head quit acts = refl
  pushed_head check acts = refl
  pushed_head sleep acts = refl

  new_writer-IsAfter :
      (store : Store) (keep : ℕ) → IsAfter store keep 0 [] (new_writer st store keep)
  unfolding new_writer
  new_writer-IsAfter store keep = record {
    keep_same = refl;
    given = refl;
    small = omega arith;
    counted_right = refl;
    drained = tt;
  }

  after_next :
      (store : Store) (keep n : ℕ) (tasks : List PersistedBoardSnapshot) (w : Writer st)
      (a : Action) (w' : Writer st)
      → IsAfter store keep n tasks w
      → IsNext st w a w'
      → IsAfter store keep (n + 1) (tasks ++ pushed st (a ∷ [])) w'
  after_next store keep n tasks w a w' h k = record {
    keep_same = k.keep ∙ h.keep_same;
    given =
        k.settles
        ∙ ap (λ j. save_all st j (settled st w) (pushed st (a ∷ []))) h.keep_same
        ∙ ap (λ x. save_all st keep x (pushed st (a ∷ []))) h.given
        ∙ sym (save_all-append st keep store tasks (pushed st (a ∷ [])));
    small = omega (arith, h.small, k.loads);
    counted_right = k.counts h.counted_right;
    drained = k.drains h.drained;
  }

  IsAfter-regroup :
      (store : Store) (keep n : ℕ) (tasks : List PersistedBoardSnapshot) (a : Action)
      (acts : List Action) (w : Writer st)
      → IsAfter store keep (n + 1 + length acts) ((tasks ++ pushed st (a ∷ [])) ++ pushed st acts) w
      → IsAfter store keep (n + length (a ∷ acts)) (tasks ++ pushed st (a ∷ acts)) w
  IsAfter-regroup store keep n tasks a acts w h = record {
    keep_same = h.keep_same;
    given =
        h.given
        ∙ ap (save_all st keep store) (
            append_assoc tasks (pushed st (a ∷ [])) (pushed st acts)
            ∙ ap (λ xs. tasks ++ xs) (sym (pushed_head a acts)));
    small = omega (arith, h.small);
    counted_right = h.counted_right;
    drained = h.drained;
  }

  run-IsAfter :
      (store : Store) (keep n : ℕ) (tasks : List PersistedBoardSnapshot) (w w' : Writer st)
      (acts : List Action)
      → IsAfter store keep n tasks w
      → run st w acts ≡ some w'
      → IsAfter store keep (n + length acts) (tasks ++ pushed st acts) w'
  unfolding run
  run-IsAfter store keep n tasks w w' [] h e =
      let same : w ≡ w' = cc in
      subst (IsAfter store keep (n + 0) (tasks ++ [])) same (record {
        keep_same = h.keep_same;
        given = h.given ∙ ap (save_all st keep store) (sym (append-nil tasks));
        small = omega (arith, h.small);
        counted_right = h.counted_right;
        drained = h.drained;
      })
  run-IsAfter store keep n tasks w w' (a ∷ acts) h e =
      let (w1, e1, e2) = run_head (step st w a) refl e in
      IsAfter-regroup store keep n tasks a acts w' (
        run-IsAfter store keep (n + 1) (tasks ++ pushed st (a ∷ [])) w1 w' acts
          (after_next store keep n tasks w a w1 h
            (subst (All (IsNext st w a)) e1 (step-IsNext st w a)))
          e2)
    where
      run_head :
          (o : Option (Writer st))
          → step st w a ≡ o
          → (elim o [ none ↦ none | some v ↦ run st v acts ]) ≡ some w'
          → (w1 : Writer st) × (step st w a ≡ some w1) × (run st w1 acts ≡ some w')
      run_head none e1 e2 = absurd (cc)
      run_head (some w1) e1 e2 = (w1, e1, e2)

  pub after :
      (store : Store) (keep : ℕ) (acts : List Action) (w : Writer st)
      → run st (new_writer st store keep) acts ≡ some w
      → IsAfter store keep (length acts) (pushed st acts) w
  after store keep acts w e =
      subst (λ n. IsAfter store keep n (pushed st acts) w) (omega arith)
        (run-IsAfter store keep 0 [] (new_writer st store keep) w acts
          (new_writer-IsAfter store keep) e)

  settle_idle : (keep : ℕ) (x : Store) (k : Worker) → busy st k ≡ 0 → settle st keep x k ≡ x
  settle_idle keep x waiting e = refl
  settle_idle keep x (saving task) e = absurd (omega (arith, e))
  settle_idle keep x saved e = refl
  settle_idle keep x counted e = refl
  settle_idle keep x ended e = refl

  empty_queue : (q : List PersistedBoardSnapshot) → length q ≡ 0 → q ≡ []
  empty_queue [] e = refl
  empty_queue (s ∷ q) e = absurd (omega (arith, e))

  store_settled :
      (store : Store) (keep : ℕ) (tasks : List PersistedBoardSnapshot) (w : Writer st)
      → settled st w ≡ save_all st keep store tasks
      → w.keep_latest ≡ keep
      → w.queue ≡ []
      → busy st w.worker ≡ 0
      → w.store ≡ save_all st keep store tasks
  store_settled store keep tasks w given same no_queue idle =
      sym (settle_idle w.keep_latest w.store w.worker idle)
      ∙ sym (ap (save_all st w.keep_latest (settle st w.keep_latest w.store w.worker)) no_queue)
      ∙ given

  -- When `flush` finds `pending_` at 0 after fewer than 2^64 steps, no call of `enqueue` is under way and
  -- the store has been given every snapshot that was enqueued, in order.
  pub flush-IsComplete :
      (store : Store) (keep : ℕ) (acts : List Action) (w : Writer st)
      → run st (new_writer st store keep) acts ≡ some w
      → length acts < 2 ^ 64
      → (w.pending == 0) ≡ true
      → (w.in_flight ≡ 0) × (w.queue ≡ []) × (w.store ≡ save_all st keep store (pushed st acts))
  flush-IsComplete store keep acts w e small zero_pending =
      let h = after store keep acts w e in
      let none_left : load st w ≡ 0 = ground (arith, h.small, h.counted_right) in
      let no_queue : w.queue ≡ [] = empty_queue w.queue (omega (arith, none_left)) in
      let idle : busy st w.worker ≡ 0 = omega (arith, none_left) in
      (
        omega (arith, none_left),
        no_queue,
        store_settled store keep (pushed st acts) w h.given h.keep_same no_queue idle,
      )

  -- When the worker has ended, as the destructor awaits, the store has been given every snapshot that was
  -- enqueued, in order.
  pub destructor-IsComplete :
      (store : Store) (keep : ℕ) (acts : List Action) (w : Writer st)
      → run st (new_writer st store keep) acts ≡ some w
      → w.worker ≡ ended
      → w.store ≡ save_all st keep store (pushed st acts)
  destructor-IsComplete store keep acts w e done =
      let h = after store keep acts w e in
      let no_queue : w.queue ≡ [] = subst (λ k. IsDrained st k w.queue) done h.drained in
      store_settled store keep (pushed st acts) w h.given h.keep_same no_queue (ap (busy st) done)
