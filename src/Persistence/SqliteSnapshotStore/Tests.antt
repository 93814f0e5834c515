-- ===== src/Persistence/SqliteSnapshotStore/Tests.antt =====
-- The snapshot store on the small database.
use clear_space.Prelude.{
  ◌∙◌, sym, true, ℕ, ◌<◌, ◌≡◌, refl, ◌⊎◌, Option, none, some, List, [], ◌∷◌, map, arith,
}
use clear_space.Core.Types.{Stroke, red, thin}
use clear_space.Persistence.Codec.{Outcome, returned, thrown}
use clear_space.Persistence.Codec.Write.{serialize_shape}
use clear_space.Persistence.Sqlite.{SqliteLibrary, failure}
use clear_space.Persistence.SqliteSnapshotStore.{
  list_rows, list_with, list_after, prepared, bind_all, bind_one, read_meta, initialised,
  with_connection, execute, run_once, Store, SnapshotMeta, new_store, init, prepare_schema,
  exec_checked, after_open, save, list, load_by_id, load_latest, prune_keep_latest,
}
use clear_space.Persistence.SqliteSnapshotStore.Table.{Row, rank, IsListing}
use clear_space.Persistence.SqliteSnapshotStore.Calls.{connected, IsSqliteError, meta_of}
use clear_space.Persistence.SqliteSnapshotStore.Pruning.{IsPruned, found_rank}
use clear_space.Persistence.SqliteSnapshotStore.Updates.{prune_keep_latest_lem}
use clear_space.Persistence.SqliteSnapshotStore.Queries.{list_lem}
use clear_space.Persistence.SqliteSnapshotStore.SaveLoad.{save-load_by_id, save-load_latest}
use clear_space.Persistence.SqliteSnapshotStore.Sample.{drop_but, Entry, entries}
use clear_space.Persistence.SqliteSnapshotStore.SampleListing.{Contents, listing}
use clear_space.Persistence.SqliteSnapshotStore.SampleLibrary.{small_sqlite}
use clear_space.Persistence.SqliteSnapshotStore.SampleLaws.{
  small_sqlite-IsSqlite, small_sqlite-rows,
}

abbrev entry : ℕ → ℕ → Option Entry
entry room at = some (record { room = room; saved_at = at; last_seq = at; data_bytes = 1 ∷ [] })

-- Two rooms; the second row was deleted before.
abbrev contents : Contents
contents = entry 7 100 ∷ none ∷ entry 8 150 ∷ entry 7 300 ∷ entry 7 200 ∷ []

abbrev store : Store small_sqlite
store = connected small_sqlite "rooms.db" contents

abbrev ids_of : Option (Outcome (List SnapshotMeta) × Store small_sqlite) → List ℕ
ids_of none = []
ids_of (some (thrown msg, s)) = []
ids_of (some (returned metas, s)) = map (λ m. m.id) metas

listed_ids : ids_of (list small_sqlite 9 store 7) ≡ 4 ∷ 5 ∷ 1 ∷ []
unfolding list list_rows list_with list_after init prepared bind_all bind_one read_meta listing
    entries
listed_ids = refl

pruned_ids :
    ids_of (list small_sqlite 9 (prune_keep_latest small_sqlite store 7 2).1 7) ≡ 4 ∷ 5 ∷ []
unfolding list list_rows list_with list_after init prepared bind_all bind_one read_meta listing
    entries prune_keep_latest initialised with_connection execute run_once drop_but
pruned_ids = refl

abbrev strokes : List Stroke
strokes =
    record {
      id = 1;
      author = 4;
      color = red;
      thickness = thin;
      stroke_order = 1;
      points = [];
      finished = true;
    }
    ∷ []

save-load_by_id_example :
    IsSqliteError small_sqlite (save small_sqlite store 400 7 12 strokes).0
    ⊎ ((new : ℕ) × (d : Contents) × (save small_sqlite store 400 7 12 strokes
          ≡ (returned tt, connected small_sqlite "rooms.db" d))
        × (small_sqlite-IsSqlite.table contents new ≡ none)
        × (((load_by_id small_sqlite (connected small_sqlite "rooms.db" d) new).0
              ≡ returned (
                  some (record {
                    meta = record { id = new; room = 7; saved_at_ms = 400; last_seq = 12 };
                    strokes = strokes;
                  })))
            ⊎ IsSqliteError small_sqlite
                (load_by_id small_sqlite (connected small_sqlite "rooms.db" d) new).0))
save-load_by_id_example =
    save-load_by_id small_sqlite small_sqlite-IsSqlite "rooms.db" contents 400 7 12 strokes
      (omega arith) (omega (arith, (serialize_shape strokes).1))

older :
    (id : ℕ) (r : Row)
    → small_sqlite-IsSqlite.table contents id ≡ some r
    → r.room ≡ 7
    → rank r.saved_at < rank 400
unfolding entries
older id r at of_room = omega (
  arith,
  found_rank (rank 300) (entries 1 contents) id r
      (omega arith, (omega arith, (omega arith, (omega arith, tt))))
      (sym (small_sqlite-rows contents id) ∙ at),
)

save-load_latest_example :
    IsSqliteError small_sqlite (save small_sqlite store 400 7 12 strokes).0
    ⊎ ((new : ℕ) × (d : Contents) × (save small_sqlite store 400 7 12 strokes
          ≡ (returned tt, connected small_sqlite "rooms.db" d))
        × (small_sqlite-IsSqlite.table contents new ≡ none)
        × (((load_latest small_sqlite (connected small_sqlite "rooms.db" d) 7).0
              ≡ returned (
                  some (record {
                    meta = record { id = new; room = 7; saved_at_ms = 400; last_seq = 12 };
                    strokes = strokes;
                  })))
            ⊎ IsSqliteError small_sqlite
                (load_latest small_sqlite (connected small_sqlite "rooms.db" d) 7).0))
save-load_latest_example =
    save-load_latest small_sqlite small_sqlite-IsSqlite "rooms.db" contents 400 7 12 strokes
      (omega arith) (omega (arith, (serialize_shape strokes).1)) older

list_lem_example :
    (bound : ℕ) × ((fuel : ℕ)
      → bound < fuel
      → (o : Outcome (List SnapshotMeta)) × (s : Store small_sqlite) × (list small_sqlite fuel store
            7
          ≡ some (o, s))
        × (((rows : List Row) × IsListing (small_sqlite-IsSqlite.table contents) 7 rows
              × (o ≡ returned (map meta_of rows)))
            ⊎ IsSqliteError small_sqlite o))
list_lem_example = list_lem small_sqlite small_sqlite-IsSqlite "rooms.db" contents 7

prune_keep_latest_lem_example :
    (d : Contents) × ((prune_keep_latest small_sqlite store 7 2).1
      ≡ connected small_sqlite "rooms.db" d)
    × ((((prune_keep_latest small_sqlite store 7 2).0 ≡ returned tt)
          × ((kept : List Row) × IsPruned
                (small_sqlite-IsSqlite.table contents)
                (small_sqlite-IsSqlite.table d)
                7
                2
                kept))
        ⊎ (IsSqliteError small_sqlite (prune_keep_latest small_sqlite store 7 2).0
            × ((id : ℕ)
                → small_sqlite-IsSqlite.table d id ≡ small_sqlite-IsSqlite.table contents id)))
prune_keep_latest_lem_example =
    prune_keep_latest_lem small_sqlite small_sqlite-IsSqlite "rooms.db" contents 7 2

-- A library whose tables cannot be made: the first call throws, and the second one finds the connection
-- open and goes on as if they had been.
abbrev read_only : SqliteLibrary
read_only = record small_sqlite { exec = λ d sql. (failure 8, d) }

init_once : (init read_only (new_store read_only "rooms.db")).0 ≡ thrown "error"
unfolding init after_open prepare_schema exec_checked with_connection
init_once = refl

init_twice : (init read_only (init read_only (new_store read_only "rooms.db")).1).0 ≡ returned tt
unfolding init after_open prepare_schema exec_checked with_connection
init_twice = refl
