-- ===== src/Persistence/SqliteSnapshotStore/Updates.antt =====
-- What `save` and `pruneKeepLatest` of persistence/src/sqlite_snapshot_store.cpp do to the table.
use clear_space.Prelude.{
  ℕ, ◌^◌, ◌%◌, ◌<◌, ◌≡◌, sym, ap, ◌∙◌, ◌⊎◌, inl, inr, String, true, Option, none, some, List, [],
  ◌∷◌, length, take, Bool-cases, arith, ◌==◌, ==→eq, if◌then◌else◌,
}
use clear_space.Core.Types.{RoomId, Seq, Stroke}
use clear_space.Persistence.Codec.{Outcome, returned, serialize_strokes}
use clear_space.Persistence.Sqlite.{SqliteLibrary}
use clear_space.Persistence.SqliteSnapshotStore.{
  Arg, int64, blob, passes, prepared, execute, insert_sql, delete_room_sql, delete_old_sql, save,
  prune_keep_latest,
}
use clear_space.Persistence.SqliteSnapshotStore.Table.{Row, Table, IsSqlite}
use clear_space.Persistence.SqliteSnapshotStore.Pruning.{IsPruned, listing-IsPruned, empty-IsPruned}
use clear_space.Persistence.SqliteSnapshotStore.Calls.{
  connected, execute-cases, initialised-connected, IsSqliteError,
}

-- The new row.
abbrev pub saved_row : ℕ → ℕ → RoomId → Seq → List Stroke → Row
saved_row new now room seq strokes = record {
  id = new;
  room = room;
  saved_at = now;
  last_seq = seq;
  data_bytes = serialize_strokes strokes;
}

abbrev pub with_row : Table → Row → ℕ → Option Row
with_row t r id = if r.id == id then some r else t id

module _ (lib : SqliteLibrary) (q : IsSqlite lib) where
  open lib use {Db, Statement, errmsg, step}
  open q use {table, insert_step, delete_room_step, delete_old_step, failed_step}

  -- `execute` either runs the statement, or throws what SQLite says and leaves the table as it was.
  execute_lem :
      (d : Db) (sql : String) (args : List Arg)
      → ((st : Statement) × (prepared lib d sql args ≡ returned st)
          × (passes (step d st).0 ≡ true)
          × (execute lib d sql args ≡ (returned tt, (step d st).2)))
        ⊎ (IsSqliteError lib (execute lib d sql args).0
            × ((id : ℕ) → table (execute lib d sql args).1 id ≡ table d id))
  execute_lem d sql args = elim (execute-cases lib d sql args) [
    | inl e ↦ inr ((d, ap (λ x. x.0) e), λ id. ap (λ (x : Outcome (Unit {0}) × Db). table x.1 id) e)
    | inr (st, p, inl (ok, e)) ↦ inl (st, p, ok, e)
    | inr (st, p, inr (bad, e)) ↦ inr (
      ((step d st).2, ap (λ x. x.0) e),
      λ id. ap (λ (x : Outcome (Unit {0}) × Db). table x.1 id) e ∙ failed_step d st bad id,
    )
  ]

  -- `save` on an open store adds one row under an unused id, or throws what SQLite says and leaves the
  -- table as it was.
  pub save_lem :
      (path : String) (d : Db) (now : ℕ) (room : RoomId) (seq : Seq) (strokes : List Stroke)
      → length (serialize_strokes strokes) < 2 ^ 31
      → (d' : Db) × ((save lib (connected lib path d) now room seq strokes).1
          ≡ connected lib path d')
        × ((((save lib (connected lib path d) now room seq strokes).0 ≡ returned tt)
              × ((new : ℕ) × (table d new ≡ none)
                  × ((id : ℕ)
                      → table d' id ≡ with_row (table d) (saved_row new now room seq strokes) id)))
            ⊎ (IsSqliteError lib (save lib (connected lib path d) now room seq strokes).0
                × ((id : ℕ) → table d' id ≡ table d id)))
  unfolding save
  save_lem path d now room seq strokes small =
      let bytes = serialize_strokes strokes in
      let args = int64 room ∷ int64 now ∷ int64 seq ∷ blob bytes (length bytes % 2 ^ 32) ∷ [] in
      let same = initialised-connected lib path d (λ d. execute lib d insert_sql args) in
      let size : length bytes % 2 ^ 32 ≡ length bytes = omega (arith, small) in
      (
        (execute lib d insert_sql args).1,
        ap (λ x. x.1) same,
        elim (execute_lem d insert_sql args) [
          | inr (e, k) ↦ inr ((e.0, ap (λ x. x.0) same ∙ e.1), k)
          | inl (st, p, ok, e) ↦
              let p' =
                sym (
                  ap
                    (λ n.
                      prepared lib d insert_sql
                        (int64 room ∷ int64 now ∷ int64 seq ∷ blob bytes n ∷ []))
                    size)
                ∙ p in
              let (new, fresh, at) = insert_step d room now seq bytes st p' ok in
              inl (
                ap (λ x. x.0) same ∙ ap (λ x. x.0) e,
                (new, fresh, λ id. ap (λ (x : Outcome (Unit {0}) × Db). table x.1 id) e ∙ at id),
              )
        ],
      )

  -- `pruneKeepLatest` on an open store leaves the newest rows of the room, `keep` of them or all if it has
  -- fewer, and all rows of the other rooms; or it throws what SQLite says and leaves the table as it was.
  pub prune_keep_latest_lem :
      (path : String) (d : Db) (room : RoomId) (keep : ℕ)
      → (d' : Db) × ((prune_keep_latest lib (connected lib path d) room keep).1
          ≡ connected lib path d')
        × ((((prune_keep_latest lib (connected lib path d) room keep).0 ≡ returned tt)
              × ((kept : List Row) × IsPruned (table d) (table d') room keep kept))
            ⊎ (IsSqliteError lib (prune_keep_latest lib (connected lib path d) room keep).0
                × ((id : ℕ) → table d' id ≡ table d id)))
  unfolding prune_keep_latest
  prune_keep_latest_lem path d room keep = elim (Bool-cases (keep == 0)) [
    | inl none_kept ↦
        let args = int64 room ∷ [] in
        let same = initialised-connected lib path d (λ d. execute lib d delete_room_sql args) in
        rw (none_kept, prune_keep_latest)
          (
            (execute lib d delete_room_sql args).1,
            ap (λ x. x.1) same,
            elim (execute_lem d delete_room_sql args) [
              | inr (e, k) ↦ inr ((e.0, ap (λ x. x.0) same ∙ e.1), k)
              | inl (st, p, ok, e) ↦ inl (
                ap (λ x. x.0) same ∙ ap (λ x. x.0) e,
                (
                  [],
                  empty-IsPruned (table d) (table (execute lib d delete_room_sql args).1) room keep
                      (==→eq keep 0 none_kept)
                      (λ id.
                        ap (λ (x : Outcome (Unit {0}) × Db). table x.1 id) e
                        ∙ delete_room_step d room st p ok id),
                ),
              )
            ],
          )
    | inr some_kept ↦
        let args = int64 room ∷ int64 room ∷ int64 keep ∷ [] in
        let same = initialised-connected lib path d (λ d. execute lib d delete_old_sql args) in
        rw (some_kept, prune_keep_latest)
          (
            (execute lib d delete_old_sql args).1,
            ap (λ x. x.1) same,
            elim (execute_lem d delete_old_sql args) [
              | inr (e, k) ↦ inr ((e.0, ap (λ x. x.0) same ∙ e.1), k)
              | inl (st, p, ok, e) ↦
                  let (rows, listed, at) = delete_old_step d room keep st p ok in
                  inl (
                    ap (λ x. x.0) same ∙ ap (λ x. x.0) e,
                    (
                      take keep rows,
                      listing-IsPruned (table d) (table (execute lib d delete_old_sql args).1) room
                          keep rows listed
                          (λ id. ap (λ (x : Outcome (Unit {0}) × Db). table x.1 id) e ∙ at id),
                    ),
                  )
            ],
          )
  ]
