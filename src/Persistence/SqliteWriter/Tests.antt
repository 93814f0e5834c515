-- ===== src/Persistence/SqliteWriter/Tests.antt =====
-- The writer over the small database.
use clear_space.Prelude.{ℕ, ◌+◌, ◌≡◌, some, List, [], ◌∷◌, arith, true}
use clear_space.Core.Types.{PersistedBoardSnapshot, Stroke, red, thin}
use clear_space.Persistence.Codec.Write.{serialize_shape}
use clear_space.Persistence.SnapshotWriter.{save_task}
use clear_space.Persistence.SqliteSnapshotStore.SampleListing.{Contents}
use clear_space.Persistence.SqliteSnapshotStore.SampleLibrary.{small_sqlite}
use clear_space.Persistence.SqliteSnapshotStore.SampleLaws.{small_sqlite-IsSqlite}
use clear_space.Persistence.SqliteWriter.{sqlite_store, timed, IsSaved, save_task-IsSaved}

abbrev strokes : List Stroke
strokes =
    record {
      id = 1;
      author = 4;
      color = red;
      thickness = thin;
      stroke_order = 1;
      points = [];
      finished = true;
    }
    ∷ []

-- Room 7 has one snapshot, and room 8 has one.
abbrev contents : Contents
contents =
    some (record { room = 7; saved_at = 100; last_seq = 5; data_bytes = 1 ∷ [] })
    ∷ some (record { room = 8; saved_at = 150; last_seq = 9; data_bytes = 1 ∷ [] })
    ∷ []

abbrev task : PersistedBoardSnapshot
task = record { room = 7; last_seq = 12; strokes = strokes }

abbrev ticking : ℕ → ℕ
ticking n = 400 + n

save_task-IsSaved_example :
    (d : Contents) × (save_task
        (sqlite_store small_sqlite ticking)
        1
        (timed small_sqlite ticking "rooms.db" contents 0)
        task
      ≡ timed small_sqlite ticking "rooms.db" d 1)
    × IsSaved small_sqlite small_sqlite-IsSqlite "rooms.db" contents d 1 (ticking 0) task
save_task-IsSaved_example =
    save_task-IsSaved small_sqlite small_sqlite-IsSqlite ticking "rooms.db" contents 0 1 task
      (omega (arith, (serialize_shape strokes).1))
