-- ===== src/Persistence/SqliteSnapshotStore/Table.antt =====
-- The table `snapshots` of persistence/src/sqlite_snapshot_store.cpp, and what SQLite is documented to do
-- with the statements that the store runs on it.
use clear_space.Prelude.{
  ℕ, ◌+◌, ◌%◌, ◌^◌, ◌≤◌, ◌≡◌, ◌≢◌, Bool, true, false, Option, none, some, List, [], ◌∷◌, length,
  take, All, ◌==◌, if◌then◌else◌,
}
use clear_space.Core.Types.{RoomId, Seq}
use clear_space.Persistence.Codec.{returned}
use clear_space.Persistence.Sqlite.{SqliteLibrary, ok_code, done_code, row_code}
use clear_space.Persistence.SqliteSnapshotStore.{
  int64, blob, prepared, passes, insert_sql, list_sql, by_id_sql, latest_sql, delete_room_sql,
  delete_old_sql,
}

pub record Row : Type 0 where
  pub id : ℕ
  pub room : RoomId
  pub saved_at : ℕ
  pub last_seq : Seq
  pub data_bytes : List ℕ

-- The rows by their primary key.
abbrev pub Table : Type 0
Table = ℕ → Option Row

-- A signed 64-bit integer, shifted to keep its order.
abbrev pub rank : ℕ → ℕ
rank at = (at + 2 ^ 63) % 2 ^ 64

abbrev pub find_row : List Row → ℕ → Option Row
find_row [] id = none
find_row (r ∷ rs) id = if r.id == id then some r else find_row rs id

abbrev pub in_room : RoomId → Option Row → Option Row
in_room room none = none
in_room room (some r) = if r.room == room then some r else none

abbrev pub outside_room : RoomId → Option Row → Option Row
outside_room room none = none
outside_room room (some r) = if r.room == room then none else some r

abbrev pub IsNewestFirst : List Row → Type 0
IsNewestFirst [] = Unit {0}
IsNewestFirst (r ∷ rs) = All (λ q. rank q.saved_at ≤ rank r.saved_at) rs × IsNewestFirst rs

abbrev pub HasDistinctIds : List Row → Type 0
HasDistinctIds [] = Unit {0}
HasDistinctIds (r ∷ rs) = (find_row rs r.id ≡ none) × HasDistinctIds rs

-- All rows of a room, in an order of `ORDER BY saved_at_ms DESC`: SQL leaves open which of two rows with
-- the same time comes first.
pub record IsListing (t : Table) (room : RoomId) (rows : List Row) : Type 0 where
  pub holds : (id : ℕ) → find_row rows id ≡ in_room room (t id)
  pub newest_first : IsNewestFirst rows
  pub distinct : HasDistinctIds rows

abbrev pub one_row : Option Row → List Row
one_row none = []
one_row (some r) = r ∷ []

-- A row of the room that no other row of it is newer than, or none if the room has no rows.
abbrev pub IsLatest : Table → RoomId → Option Row → Type 0
IsLatest t room o = (rows : List Row) × IsListing t room rows × (one_row o ≡ take 1 rows)

-- `NOT IN` the ids of these rows
abbrev pub delete_but : RoomId → List Row → ℕ → Option Row → Option Row
delete_but room kept id r = elim (find_row kept id) [ none ↦ outside_room room r | some _ ↦ r ]

module _ (lib : SqliteLibrary) where
  open lib use {Db, Statement, step, column_int64, column_blob}

  -- Documented behaviour of SQLite. A statement that stops with an error changes nothing.
  pub record IsSqlite : Type 0 where
    -- the table, the rows that a query has still to give, whether a statement is a query, and of the data
    pub table : Db → Table
    pub cursor : Statement → List Row
    pub is_query : Statement → Bool
    pub has_data : Statement → Bool
    pub own_id : (d : Db) (id : ℕ) (r : Row) → table d id ≡ some r → r.id ≡ id
    pub list_rows_of :
        (d : Db) (room : RoomId) (st : Statement)
        → prepared lib d list_sql (int64 room ∷ []) ≡ returned st
        → IsListing (table d) room (cursor st) × (is_query st ≡ true)
    pub latest_rows_of :
        (d : Db) (room : RoomId) (st : Statement)
        → prepared lib d latest_sql (int64 room ∷ []) ≡ returned st
        → (rows : List Row) × IsListing (table d) room rows
          × (cursor st ≡ take 1 rows)
          × (is_query st ≡ true)
          × (has_data st ≡ true)
    pub by_id_rows_of :
        (d : Db) (id : ℕ) (st : Statement)
        → prepared lib d by_id_sql (int64 id ∷ []) ≡ returned st
        → (cursor st ≡ one_row (table d id)) × (is_query st ≡ true) × (has_data st ≡ true)
    -- sqlite3_step answers with a row, with the end, or with an error
    pub step_not_ok : (d : Db) (st : Statement) → (step d st).0 ≢ ok_code
    pub step_done : (d : Db) (st : Statement) → (step d st).0 ≡ done_code → cursor st ≡ []
    pub step_row :
        (d : Db) (st : Statement)
        → (step d st).0 ≡ row_code
        → (r : Row) × (cursor st ≡ r ∷ cursor (step d st).1)
          × (column_int64 (step d st).1 0 ≡ r.id)
          × (column_int64 (step d st).1 1 ≡ r.room)
          × (column_int64 (step d st).1 2 ≡ r.saved_at)
          × (column_int64 (step d st).1 3 ≡ r.last_seq)
          × (has_data st ≡ true → column_blob (step d st).1 4 ≡ r.data_bytes)
    pub step_query :
        (d : Db) (st : Statement)
        → is_query st ≡ true
        → ((id : ℕ) → table (step d st).2 id ≡ table d id) × (is_query (step d st).1 ≡ true)
    pub insert_step :
        (d : Db) (room now seq : ℕ) (bytes : List ℕ) (st : Statement)
        → prepared lib d insert_sql
            (int64 room ∷ int64 now ∷ int64 seq ∷ blob bytes (length bytes) ∷ [])
          ≡ returned st
        → passes (step d st).0 ≡ true
        → (new : ℕ) × (table d new ≡ none)
          × ((id : ℕ)
              → table (step d st).2 id ≡ (
                  if new == id
                  then some (record {
                    id = new;
                    room = room;
                    saved_at = now;
                    last_seq = seq;
                    data_bytes = bytes;
                  })
                  else table d id))
    pub delete_room_step :
        (d : Db) (room : RoomId) (st : Statement)
        → prepared lib d delete_room_sql (int64 room ∷ []) ≡ returned st
        → passes (step d st).0 ≡ true
        → (id : ℕ) → table (step d st).2 id ≡ outside_room room (table d id)
    pub delete_old_step :
        (d : Db) (room : RoomId) (keep : ℕ) (st : Statement)
        → prepared lib d delete_old_sql (int64 room ∷ int64 room ∷ int64 keep ∷ []) ≡ returned st
        → passes (step d st).0 ≡ true
        → (rows : List Row) × IsListing (table d) room rows
          × ((id : ℕ) → table (step d st).2 id ≡ delete_but room (take keep rows) id (table d id))
    pub failed_step :
        (d : Db) (st : Statement)
        → passes (step d st).0 ≡ false
        → (id : ℕ) → table (step d st).2 id ≡ table d id
