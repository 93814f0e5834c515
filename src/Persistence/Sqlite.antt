-- ===== src/Persistence/Sqlite.antt =====
-- The calls that persistence/src/sqlite_snapshot_store.cpp makes of SQLite, a library that is not in
-- this repository. A 64-bit integer is its bit pattern, signed or not.
use clear_space.Prelude.{ℕ, String, Option, List}

-- A result code: SQLITE_OK, SQLITE_DONE, SQLITE_ROW, or an error.
pub data Code : Type 0 where
  ok_code done_code row_code : Code
  failure : ℕ → Code

pub record SqliteLibrary : Type 1 where
  -- a connection with what its file holds, and a prepared statement
  pub Db : Type 0
  pub Statement : Type 0
  -- sqlite3_open: the handle may be given together with an error
  pub open_file : String → Code × Option Db
  pub exec : Db → String → Code × Db
  pub errmsg : Db → String
  -- sqlite3_prepare_v2
  pub prepare : Db → String → Code × Statement
  -- the place, from 1, and the value; a blob with the number of its bytes as an int
  pub bind_int64 : Statement → ℕ → ℕ → Code × Statement
  pub bind_blob : Statement → ℕ → List ℕ → ℕ → Code × Statement
  -- sqlite3_step
  pub step : Db → Statement → Code × Statement × Db
  -- a column of the row that a step stopped at; no bytes for NULL and for an empty blob
  pub column_int64 : Statement → ℕ → ℕ
  pub column_blob : Statement → ℕ → List ℕ
