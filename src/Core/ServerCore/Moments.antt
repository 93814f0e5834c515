-- ===== src/Core/ServerCore/Moments.antt =====
-- From which moments of a run the snapshots are that the sink of core/src/server_core.cpp is given.
use clear_space.Prelude.{ℕ, ◌≡◌, Bool, some, List, ◌++◌, All}
use clear_space.Core.Types.{PersistedBoardSnapshot}
use clear_space.Core.Room.{Room, make_persisted_snapshot}
use clear_space.Core.Room.Invariant.{Inv}
use clear_space.Core.ServerCore.Invariant.{room_of}
use clear_space.Core.ServerCore.Threads.{Threads, Turn, new_threads, turns}
use clear_space.Core.ServerCore.Saving.{IsImagePiece}

-- All snapshots that threads hold, and that the sink was given, are among these.
record AreAmong (S : PersistedBoardSnapshot → Type 0) (w : Threads) : Type 0 where
  pub pieces : (t : ℕ) → All (IsImagePiece S) (w.rest t)
  pub images : All S w.enqueued

-- The state `v` is one of the run of `xs` from `w`.
abbrev IsPassed : Threads → List Turn → Threads → Type 0
IsPassed w xs v =
    (before : List Turn) × (after : List Turn) × (xs ≡ before ++ after) × (turns w before ≡ some v)

-- The snapshot is of its room as this was, with its invariant, at a moment of the run.
abbrev pub IsMoment : Bool → List Turn → PersistedBoardSnapshot → Type 0
IsMoment with_sink xs s =
    (v : Threads) × IsPassed (new_threads with_sink) xs v
    × (r : Room) × (room_of v.core s.room ≡ some r)
    × Inv r
    × (s ≡ make_persisted_snapshot r)
