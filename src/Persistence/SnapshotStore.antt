-- ===== src/Persistence/SnapshotStore.antt =====
-- The interface ISnapshotStore of persistence/include/clearspace/persistence/snapshot_store.hpp, with
-- the methods that the writer calls.
use clear_space.Prelude.{ℕ, Bool, List}
use clear_space.Core.Types.{RoomId, Seq, Stroke}

pub record SnapshotStore : Type 1 where
  pub Store : Type 0
  -- The store afterwards, and whether the method returned: `false` if it threw.
  pub save : Store → RoomId → Seq → List Stroke → Store × Bool
  pub prune_keep_latest : Store → RoomId → ℕ → Store × Bool
