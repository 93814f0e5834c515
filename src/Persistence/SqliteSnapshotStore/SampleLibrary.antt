-- ===== src/Persistence/SqliteSnapshotStore/SampleLibrary.antt =====
-- The small database as the library of Persistence.Sqlite, and what is asked of SQLite for it.
use text.Mathlib.Text.{◌==◌ as str_eq}
use clear_space.Prelude.{
  ℕ, zero, suc, String, none, some, List, [], ◌∷◌, ◌++◌, take, get_elem?, if◌then◌else◌,
}
use clear_space.Persistence.Sqlite.{SqliteLibrary, Code, ok_code, done_code, row_code}
use clear_space.Persistence.SqliteSnapshotStore.{
  insert_sql, list_sql, by_id_sql, latest_sql, delete_room_sql, delete_old_sql,
}
use clear_space.Persistence.SqliteSnapshotStore.Table.{Row, find_row, one_row}
use clear_space.Persistence.SqliteSnapshotStore.Sample.{entries, drop_but}
use clear_space.Persistence.SqliteSnapshotStore.SampleListing.{Contents, listing}

pub data Kind : Type 0 where
  insertion room_list by_id latest room_deletion old_deletion other : Kind

pub record Prepared : Type 0 where
  pub kind : Kind
  pub on : Contents
  pub ints : List ℕ
  pub bytes : List ℕ
  pub rest : List Row
  pub shown : Row

abbrev pub no_row : Row
no_row = record { id = 0; room = 0; saved_at = 0; last_seq = 0; data_bytes = [] }

abbrev pub kind_of : String → Kind
kind_of sql =
    if str_eq sql insert_sql
    then insertion
    else if str_eq sql list_sql
    then room_list
    else if str_eq sql by_id_sql
    then by_id
    else if str_eq sql latest_sql
    then latest
    else if str_eq sql delete_room_sql
    then room_deletion
    else if str_eq sql delete_old_sql
    then old_deletion
    else other

abbrev pub int_at : List ℕ → ℕ → ℕ
int_at ints i = elim (get_elem? ints i) [ none ↦ 0 | some v ↦ v ]

abbrev pub answer : Kind → Contents → List ℕ → List Row
answer room_list d ints = listing d (int_at ints 0)
answer by_id d ints = one_row (find_row (entries 1 d) (int_at ints 0))
answer latest d ints = take 1 (listing d (int_at ints 0))
answer _ d ints = []

abbrev pub updated : Kind → List ℕ → List ℕ → Contents → Contents
updated insertion ints bytes d =
    d
    ++ (some (record {
      room = int_at ints 0;
      saved_at = int_at ints 1;
      last_seq = int_at ints 2;
      data_bytes = bytes;
    })
        ∷ [])
updated room_deletion ints bytes d = drop_but (int_at ints 0) [] 1 d
updated old_deletion ints bytes d =
    drop_but (int_at ints 0) (take (int_at ints 2) (listing d (int_at ints 0))) 1 d
updated _ ints bytes d = d

abbrev pub stepped : Prepared → Contents → List Row → Code × Prepared × Contents
stepped st d [] = (done_code, st, updated st.kind st.ints st.bytes d)
stepped st d (r ∷ rs) = (row_code, record st { rest = rs; shown = r }, d)

abbrev pub column : Row → ℕ → ℕ
column r zero = r.id
column r (suc zero) = r.room
column r (suc (suc zero)) = r.saved_at
column r (suc (suc (suc zero))) = r.last_seq
column r _ = 0

abbrev pub small_sqlite : SqliteLibrary
small_sqlite = record {
  Db = Contents;
  Statement = Prepared;
  open_file = λ path. (ok_code, some []);
  exec = λ d sql. (ok_code, d);
  errmsg = λ d. "error";
  prepare = λ d sql. (
    ok_code,
    record { kind = kind_of sql; on = d; ints = []; bytes = []; rest = []; shown = no_row },
  );
  bind_int64 = λ st i v. (
    ok_code,
    record st { ints = st.ints ++ (v ∷ []); rest = answer st.kind st.on (st.ints ++ (v ∷ [])) },
  );
  bind_blob = λ st i bytes size. (ok_code, record st { bytes = bytes });
  step = λ d st. stepped st d st.rest;
  column_int64 = λ st i. column st.shown i;
  column_blob = λ st i. st.shown.data_bytes;
}
