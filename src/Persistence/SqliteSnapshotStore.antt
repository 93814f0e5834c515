-- ===== src/Persistence/SqliteSnapshotStore.antt =====
-- persistence/src/sqlite_snapshot_store.cpp: the class SqliteSnapshotStore over the calls of
-- Persistence.Sqlite. A method takes the store and returns it with a result or the text of an exception.
pub mod Table
pub mod Calls
pub mod Pruning
pub mod Updates
pub mod SaveLoad
pub mod Sample
pub mod SampleListing
pub mod SampleLibrary
pub mod SampleLaws
mod Tests
pub mod Queries
use clear_space.Prelude.{
  ℕ, zero, suc, ◌+◌, ◌%◌, ◌^◌, String, Bool, true, false, Option, none, some, List, [], ◌∷◌, ◌++◌,
  length, ◌==◌, if◌then◌else◌,
}
use mathlib.Core.Option
use clear_space.Core.Types.{RoomId, Seq, Stroke}
use clear_space.Persistence.Codec.{
  Outcome, ◌>>=◌, returned, thrown, serialize_strokes, deserialize_strokes,
}
use clear_space.Persistence.Sqlite.{SqliteLibrary, Code, ok_code, done_code, row_code, failure}

pub record SnapshotMeta : Type 0 where
  pub id : ℕ
  pub room : RoomId
  pub saved_at_ms : ℕ
  pub last_seq : Seq

pub record StoredSnapshot : Type 0 where
  pub meta : SnapshotMeta
  pub strokes : List Stroke

-- A value for a place of a statement.
pub data Arg : Type 0 where
  int64 : ℕ → Arg
  blob : (bytes : List ℕ) (size : ℕ) → Arg

-- The texts of the source.
abbrev wal_sql : String
wal_sql = "PRAGMA journal_mode=WAL;"

abbrev create_sql : String
create_sql =
    "CREATE TABLE IF NOT EXISTS snapshots (  id INTEGER PRIMARY KEY AUTOINCREMENT,  room_id INTEGER NOT NULL,  saved_at_ms INTEGER NOT NULL,  last_seq INTEGER NOT NULL,  data BLOB NOT NULL);CREATE INDEX IF NOT EXISTS idx_snapshots_room_saved ON snapshots(room_id, saved_at_ms);"

abbrev pub insert_sql : String
insert_sql = "INSERT INTO snapshots(room_id, saved_at_ms, last_seq, data) VALUES(?, ?, ?, ?);"

abbrev pub list_sql : String
list_sql =
    "SELECT id, room_id, saved_at_ms, last_seq FROM snapshots WHERE room_id=? ORDER BY saved_at_ms DESC;"

abbrev pub by_id_sql : String
by_id_sql = "SELECT id, room_id, saved_at_ms, last_seq, data FROM snapshots WHERE id=?;"

abbrev pub latest_sql : String
latest_sql =
    "SELECT id, room_id, saved_at_ms, last_seq, data FROM snapshots WHERE room_id=? ORDER BY saved_at_ms DESC LIMIT 1;"

abbrev pub delete_room_sql : String
delete_room_sql = "DELETE FROM snapshots WHERE room_id=?;"

abbrev pub delete_old_sql : String
delete_old_sql =
    "DELETE FROM snapshots WHERE room_id=? AND id NOT IN (  SELECT id FROM snapshots WHERE room_id=? ORDER BY saved_at_ms DESC LIMIT ?);"

-- The codes that `throwIf` lets pass.
abbrev pub passes : Code → Bool
passes (failure n) = false
passes _ = true

-- `>>=` with a state that is kept when an exception is thrown.
abbrev pub chain {ℓ κ} :
    {A : Type ℓ} {B : Type κ} {S : Type 0} → Outcome A × S → (A → S → Outcome B × S) → Outcome B × S
chain (returned a, s) f = f a s
chain (thrown msg, s) f = (thrown msg, s)

module _ (lib : SqliteLibrary) where
  open lib use {
    Db, Statement, open_file, exec, errmsg, prepare, bind_int64, bind_blob, step, column_int64,
    column_blob,
  }

  pub record Store : Type 0 where
    pub path : String
    pub db : Option Db

  -- The constructor.
  abbrev pub new_store : String → Store
  new_store path = record { path = path; db = none }

  abbrev pub error_text : Option Db → String
  error_text none = "sqlite error"
  error_text (some d) = errmsg d

  -- `throwIf`, in front of `a`
  abbrev pub unless_failed {ℓ} : {A : Type ℓ} → Code → Option Db → A → Outcome A
  unless_failed rc db a = if passes rc then returned a else thrown (error_text db)

  exec_checked : Db → String → Outcome (Unit {0}) × Db
  exec_checked d sql = let (rc, d') = exec d sql in (unless_failed rc (some d') tt, d')

  -- The rest of `init` behind sqlite3_open: the two texts that are executed.
  prepare_schema : Db → Outcome (Unit {0}) × Db
  unfolding exec_checked
  prepare_schema d = chain (exec_checked d wal_sql) (λ _ d'. exec_checked d' create_sql)

  with_connection {ℓ} : {A : Type ℓ} → Store → (Db → Outcome A × Db) → Option Db → Outcome A × Store
  with_connection s body none = (thrown "sqlite error", s)
  with_connection s body (some d) = let (res, d') = body d in (res, record s { db = some d' })

  after_open : Store → Code × Option Db → Outcome (Unit {0}) × Store
  unfolding prepare_schema with_connection
  after_open s (rc, db) =
      let s' = record s { db = db } in
      if passes rc then with_connection s' prepare_schema db else (thrown (error_text db), s')

  pub init : Store → Outcome (Unit {0}) × Store
  unfolding after_open
  init s = elim s.db [ some d ↦ (returned tt, s) | none ↦ after_open s (open_file s.path) ]

  -- The first statement of each method, and then what it does with the connection.
  pub initialised {ℓ} : {A : Type ℓ} → Store → (Db → Outcome A × Db) → Outcome A × Store
  unfolding with_connection
  initialised s body = chain (init s) (λ _ s'. with_connection s' body s'.db)

  -- The constructor of `Stmt`, and the binds that follow it, from a place on.
  bind_one : Db → ℕ → Arg → Statement → Outcome Statement
  bind_one d i (int64 v) st = let (rc, st') = bind_int64 st i v in unless_failed rc (some d) st'
  bind_one d i (blob bytes size) st =
      let (rc, st') = bind_blob st i bytes size in unless_failed rc (some d) st'

  bind_all : Db → ℕ → List Arg → Statement → Outcome Statement
  bind_all d i [] st = returned st
  bind_all d i (a ∷ args) st = bind_one d i a st >>= λ st'. bind_all d (suc i) args st'

  unfoldable pub prepared : Db → String → List Arg → Outcome Statement
  unfolding bind_all bind_one
  prepared d sql args =
      let (rc, st) = prepare d sql in unless_failed rc (some d) st >>= λ st'. bind_all d 1 args st'

  -- A statement that is run by one step, of which only failure matters.
  run_once : Db → Statement → Outcome (Unit {0}) × Db
  run_once d st = let (rc, st', d') = step d st in (unless_failed rc (some d') tt, d')

  pub execute : Db → String → List Arg → Outcome (Unit {0}) × Db
  execute d sql args = elim (prepared d sql args) [
    | thrown msg ↦ (thrown msg, d)
    | returned st ↦ run_once d st
  ]

  -- `now` is what nowMs() answers.
  pub save : Store → ℕ → RoomId → Seq → List Stroke → Outcome (Unit {0}) × Store
  save s now room last_seq strokes =
      let bytes = serialize_strokes strokes in
      initialised s (λ d.
        execute d insert_sql
          (int64 room ∷ int64 now ∷ int64 last_seq ∷ blob bytes (length bytes % 2 ^ 32) ∷ []))

  pub read_meta : Statement → SnapshotMeta
  read_meta st = record {
    id = column_int64 st 0;
    room = column_int64 st 1;
    saved_at_ms = column_int64 st 2;
    last_seq = column_int64 st 3;
  }

  -- The loop of `list`, with fuel: `none` if it runs out.
  pub list_rows : ℕ → Db → Statement → List SnapshotMeta → Option (Outcome (List SnapshotMeta) × Db)
  list_rows zero d st res = none
  list_rows (suc fuel) d st res =
      let (rc, st', d') = step d st in
      elim rc [
        | done_code ↦ some (returned res, d')
        | failure n ↦ some (thrown (errmsg d'), d')
        | _ ↦ list_rows fuel d' st' (res ++ (read_meta st' ∷ []))
      ]

  list_with : ℕ → Store → RoomId → Option Db → Option (Outcome (List SnapshotMeta) × Store)
  unfolding list_rows
  list_with fuel s room none = some (thrown "sqlite error", s)
  list_with fuel s room (some d) = elim (prepared d list_sql (int64 room ∷ [])) [
    | thrown msg ↦ some (thrown msg, s)
    | returned st ↦ Option.map (λ r. (r.0, record s { db = some r.1 })) (list_rows fuel d st [])
  ]

  list_after :
      ℕ → RoomId → Outcome (Unit {0}) × Store → Option (Outcome (List SnapshotMeta) × Store)
  unfolding list_with
  list_after fuel room (thrown msg, s) = some (thrown msg, s)
  list_after fuel room (returned u, s) = list_with fuel s room s.db

  -- `fuel` bounds the rows that are read.
  pub list : ℕ → Store → RoomId → Option (Outcome (List SnapshotMeta) × Store)
  unfolding list_after
  list fuel s room = list_after fuel room (init s)

  -- The row that a step stopped at, as a snapshot.
  read_stored : Statement → Outcome StoredSnapshot
  read_stored st = elim (column_blob st 4) [
    | [] ↦ thrown "empty snapshot blob"
    | b ∷ bytes ↦ deserialize_strokes (b ∷ bytes) >>= λ strokes.
        returned (record { meta = read_meta st; strokes = strokes })
  ]

  -- The part that `loadById` and `loadLatest` have in common: the first row, if there is one.
  pub first_row : Db → Statement → Outcome (Option StoredSnapshot) × Db
  unfolding read_stored
  first_row d st =
      let (rc, st', d') = step d st in
      elim rc [
        | done_code ↦ (returned none, d')
        | failure n ↦ (thrown (errmsg d'), d')
        | _ ↦ (read_stored st' >>= λ r. returned (some r), d')
      ]

  pub query_one : Db → String → List Arg → Outcome (Option StoredSnapshot) × Db
  unfolding first_row
  query_one d sql args = elim (prepared d sql args) [
    | thrown msg ↦ (thrown msg, d)
    | returned st ↦ first_row d st
  ]

  pub load_by_id : Store → ℕ → Outcome (Option StoredSnapshot) × Store
  load_by_id s id = initialised s (λ d. query_one d by_id_sql (int64 id ∷ []))

  pub load_latest : Store → RoomId → Outcome (Option StoredSnapshot) × Store
  load_latest s room = initialised s (λ d. query_one d latest_sql (int64 room ∷ []))

  pub prune_keep_latest : Store → RoomId → ℕ → Outcome (Unit {0}) × Store
  prune_keep_latest s room keep =
      if keep == 0
      then initialised s (λ d. execute d delete_room_sql (int64 room ∷ []))
      else initialised s (λ d. execute d delete_old_sql (int64 room ∷ int64 room ∷ int64 keep ∷ []))
