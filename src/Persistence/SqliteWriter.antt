-- ===== src/Persistence/SqliteWriter.antt =====
-- The snapshot writer of persistence/src/snapshot_writer.cpp over the store of
-- persistence/src/sqlite_snapshot_store.cpp, as app/src/main.cpp puts them together.
mod Tests
use clear_space.Prelude.{
  ℕ, suc, ◌^◌, ◌<◌, ◌≡◌, refl, sym, ap, ◌∙◌, ◌⊎◌, inl, inr, Bool, true, false, String, Option, none,
  some, List, length, if◌then◌else◌, subst, arith,
}
use mathlib.Core.Path.{fun_ext}
use clear_space.Core.Types.{RoomId, Seq, Stroke, PersistedBoardSnapshot}
use clear_space.Persistence.Codec.{Outcome, returned, thrown, serialize_strokes}
use clear_space.Persistence.SnapshotStore.{SnapshotStore}
use clear_space.Persistence.SnapshotWriter.{save_task}
use clear_space.Persistence.Sqlite.{SqliteLibrary}
use clear_space.Persistence.SqliteSnapshotStore.{Store, save, prune_keep_latest}
use clear_space.Persistence.SqliteSnapshotStore.Table.{Row, Table, IsSqlite}
use clear_space.Persistence.SqliteSnapshotStore.Calls.{connected, IsSqliteError}
use clear_space.Persistence.SqliteSnapshotStore.Pruning.{IsPruned}
use clear_space.Persistence.SqliteSnapshotStore.Updates.{
  saved_row, with_row, save_lem, prune_keep_latest_lem,
}

-- Whether a method returned.
abbrev pub has_returned : Outcome (Unit {0}) → Bool
has_returned (returned u) = true
has_returned (thrown msg) = false

module _ (lib : SqliteLibrary) (clock : ℕ → ℕ) where
  -- The store, and how often nowMs() was asked.
  pub record TimedStore : Type 0 where
    pub store : Store lib
    pub asked : ℕ

  abbrev save_now : TimedStore → RoomId → Seq → List Stroke → TimedStore × Bool
  save_now s room seq strokes =
      let (res, store) = save lib s.store (clock s.asked) room seq strokes in
      (record { store = store; asked = suc s.asked }, has_returned res)

  abbrev prune_now : TimedStore → RoomId → ℕ → TimedStore × Bool
  prune_now s room keep =
      let (res, store) = prune_keep_latest lib s.store room keep in
      (record s { store = store }, has_returned res)

  -- The class as the interface that the writer calls.
  abbrev pub sqlite_store : SnapshotStore
  sqlite_store = record { Store = TimedStore; save = save_now; prune_keep_latest = prune_now }

  abbrev pub timed : String → lib.Db → ℕ → TimedStore
  timed path d asked = record { store = connected lib path d; asked = asked }

-- What a snapshot leaves of the table: the old rows, just if `save` threw; one row more, just if then
-- `pruneKeepLatest` threw; else the newest ones of these in its room.
abbrev pub IsSaved :
    (lib : SqliteLibrary)
    → IsSqlite lib
    → String
    → lib.Db
    → lib.Db
    → ℕ
    → ℕ
    → PersistedBoardSnapshot
    → Type 0
IsSaved lib q path d d' keep now task =
    let saved = save lib (connected lib path d) now task.room task.last_seq task.strokes in
    let pruned = prune_keep_latest lib saved.1 task.room keep in
    (IsSqliteError lib saved.0 × (q.table d' ≡ q.table d))
    ⊎ ((saved.0 ≡ returned tt)
        × (new : ℕ) × (q.table d new ≡ none)
        × ((IsSqliteError lib pruned.0
              × (q.table d'
                  ≡ with_row (q.table d) (saved_row new now task.room task.last_seq task.strokes)))
            ⊎ ((pruned.0 ≡ returned tt)
                × (kept : List Row) × IsPruned
                    (with_row (q.table d) (saved_row new now task.room task.last_seq task.strokes))
                    (q.table d') task.room keep kept)))

save_task_thrown :
    (lib : SqliteLibrary) (clock : ℕ → ℕ) (keep asked : ℕ) (s s' : Store lib)
    (task : PersistedBoardSnapshot) (msg : String)
    → save lib s (clock asked) task.room task.last_seq task.strokes ≡ (thrown msg, s')
    → save_task (sqlite_store lib clock) keep (record { store = s; asked = asked }) task
      ≡ record { store = s'; asked = suc asked }
unfolding save_task
save_task_thrown lib clock keep asked s s' task msg e = rw (e)

save_task_returned :
    (lib : SqliteLibrary) (clock : ℕ → ℕ) (keep asked : ℕ) (s s' : Store lib)
    (task : PersistedBoardSnapshot)
    → save lib s (clock asked) task.room task.last_seq task.strokes ≡ (returned tt, s')
    → save_task (sqlite_store lib clock) keep (record { store = s; asked = asked }) task
      ≡ record { store = (prune_keep_latest lib s' task.room keep).1; asked = suc asked }
unfolding save_task
save_task_returned lib clock keep asked s s' task e = rw (e)

-- The worker gives a snapshot whose bytes an int can count to an open SQLite store. If `save` throws what
-- SQLite says, nothing is stored; else it returns and the snapshot has a new id. If `pruneKeepLatest` then
-- throws, nothing is deleted; else the room keeps its newest snapshots, as many as the writer is to keep.
-- Other rooms keep all theirs.
pub save_task-IsSaved :
    (lib : SqliteLibrary) (q : IsSqlite lib) (clock : ℕ → ℕ) (path : String) (d : lib.Db)
    (asked keep : ℕ) (task : PersistedBoardSnapshot)
    → length (serialize_strokes task.strokes) < 2 ^ 31
    → (d' : lib.Db) × (save_task (sqlite_store lib clock) keep (timed lib clock path d asked) task
        ≡ timed lib clock path d' (suc asked))
      × IsSaved lib q path d d' keep (clock asked) task
save_task-IsSaved lib q clock path d asked keep task small =
    let (d1, s1, ends) =
      save_lem lib q path d (clock asked) task.room task.last_seq task.strokes small in
    let s = connected lib path d in
    elim ends [
      | inr ((x, e), same) ↦ (
        d1,
        save_task_thrown lib clock keep asked s (connected lib path d1) task (lib.errmsg x)
            (cc (e, s1)),
        inl ((x, e), fun_ext same),
      )
      | inl (ok, (new, fresh, at)) ↦
          let (d2, s2, rest) = prune_keep_latest_lem lib q path d1 task.room keep in
          let run =
            save_task_returned lib clock keep asked s (connected lib path d1) task (cc (ok, s1)) in
          let t1 = fun_ext at in
          let same = ap (λ v. (prune_keep_latest lib v task.room keep).0) s1 in
          (
            d2,
            run ∙ (λ i. record { store = s2 i; asked = suc asked }),
            inr (
              ok,
              new,
              fresh,
              elim rest [
                | inr ((x, e), k) ↦ inl ((x, same ∙ e), fun_ext k ∙ t1)
                | inl (e, (kept, pruned)) ↦ inr (
                  same ∙ e,
                  kept,
                  subst (λ t. IsPruned t (q.table d2) task.room keep kept) t1 pruned,
                )
              ],
            ),
          )
    ]
