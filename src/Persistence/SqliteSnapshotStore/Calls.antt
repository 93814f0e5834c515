-- ===== src/Persistence/SqliteSnapshotStore/Calls.antt =====
-- How the methods of persistence/src/sqlite_snapshot_store.cpp end: with their result, or with the
-- message of a call of SQLite that failed.
use clear_space.Prelude.{
  ℕ, suc, ◌≡◌, refl, ap, ◌∙◌, ◌⊎◌, inl, inr, String, true, false, Option, none, some, List, [], ◌∷◌,
  Bool-cases,
}
use clear_space.Persistence.Codec.{Outcome, returned, thrown, deserialize_strokes}
use clear_space.Persistence.Sqlite.{SqliteLibrary, Code, ok_code, done_code, row_code, failure}
use clear_space.Persistence.SqliteSnapshotStore.{
  SnapshotMeta, StoredSnapshot, Arg, int64, blob, passes, ◌>>=◌, Store, bind_one, bind_all,
  prepared, run_once, execute, initialised, with_connection, init, unless_failed, read_stored,
  read_meta, first_row,
}
use clear_space.Persistence.SqliteSnapshotStore.Table.{Row, IsSqlite, one_row}

Outcome-cases {ℓ} :
    {A : Type ℓ} (o : Outcome A)
    → ((a : A) × (o ≡ returned a)) ⊎ ((msg : String) × (o ≡ thrown msg))
Outcome-cases (returned a) = inl (a, refl)
Outcome-cases (thrown msg) = inr (msg, refl)

-- The row as the store gives it.
abbrev pub meta_of : Row → SnapshotMeta
meta_of r = record { id = r.id; room = r.room; saved_at_ms = r.saved_at; last_seq = r.last_seq }

abbrev pub stored_bytes : Row → List ℕ → Outcome (Option StoredSnapshot)
stored_bytes r [] = thrown "empty snapshot blob"
stored_bytes r (b ∷ bytes) = deserialize_strokes (b ∷ bytes) >>= λ strokes.
    returned (some (record { meta = meta_of r; strokes = strokes }))

abbrev pub stored_of : Option Row → Outcome (Option StoredSnapshot)
stored_of none = returned none
stored_of (some r) = stored_bytes r r.data_bytes

module _ (lib : SqliteLibrary) where
  open lib use {
    Db, Statement, errmsg, prepare, bind_int64, bind_blob, step, column_int64, column_blob,
  }

  abbrev pub IsSqliteError {ℓ} : {A : Type ℓ} → Outcome A → Type ℓ
  IsSqliteError o = (d : Db) × (o ≡ thrown (errmsg d))

  abbrev pub connected : String → Db → Store lib
  connected path d = record { path = path; db = some d }

  unless_failed-thrown {ℓ} :
      {A : Type ℓ} (rc : Code) (d : Db) (a : A) (msg : String)
      → unless_failed lib rc (some d) a ≡ thrown msg
      → msg ≡ errmsg d
  unless_failed-thrown ok_code d a msg e = absurd (cc)
  unless_failed-thrown done_code d a msg e = absurd (cc)
  unless_failed-thrown row_code d a msg e = absurd (cc)
  unless_failed-thrown (failure n) d a msg e = cc

  bind_one-thrown :
      (d : Db) (i : ℕ) (a : Arg) (st : Statement) (msg : String)
      → bind_one lib d i a st ≡ thrown msg
      → msg ≡ errmsg d
  unfolding bind_one
  bind_one-thrown d i (int64 v) st msg e =
      unless_failed-thrown (bind_int64 st i v).0 d (bind_int64 st i v).1 msg e
  bind_one-thrown d i (blob bytes size) st msg e =
      unless_failed-thrown (bind_blob st i bytes size).0 d (bind_blob st i bytes size).1 msg e

  >>=-thrown {ℓ κ} :
      {A : Type ℓ} {B : Type κ} (m : Outcome A) (f : A → Outcome B) (msg : String)
      → (m >>= f) ≡ thrown msg
      → (m ≡ thrown msg) ⊎ ((a : A) × (f a ≡ thrown msg))
  >>=-thrown (returned a) f msg e = inr (a, e)
  >>=-thrown (thrown what) f msg e = inl (cc)

  bind_all-thrown :
      (d : Db) (i : ℕ) (args : List Arg) (st : Statement) (msg : String)
      → bind_all lib d i args st ≡ thrown msg
      → msg ≡ errmsg d
  unfolding bind_all
  bind_all-thrown d i [] st msg e = absurd (cc)
  bind_all-thrown d i (a ∷ args) st msg e = elim (>>=-thrown (bind_one lib d i a st) _ msg e) [
    | inl k ↦ bind_one-thrown d i a st msg k
    | inr (st', k) ↦ bind_all-thrown d (suc i) args st' msg k
  ]

  prepared-thrown :
      (d : Db) (sql : String) (args : List Arg) (msg : String)
      → prepared lib d sql args ≡ thrown msg
      → msg ≡ errmsg d
  unfolding prepared
  prepared-thrown d sql args msg e =
      elim (>>=-thrown (unless_failed lib (prepare d sql).0 (some d) (prepare d sql).1) _ msg e) [
        | inl k ↦ unless_failed-thrown (prepare d sql).0 d (prepare d sql).1 msg k
        | inr (st, k) ↦ bind_all-thrown d 1 args st msg k
      ]

  -- A statement is prepared, or the call that failed gave the message.
  pub prepared-cases :
      (d : Db) (sql : String) (args : List Arg)
      → ((st : Statement) × (prepared lib d sql args ≡ returned st))
        ⊎ (prepared lib d sql args ≡ thrown (errmsg d))
  prepared-cases d sql args = elim (Outcome-cases (prepared lib d sql args)) [
    | inl k ↦ inl k
    | inr (msg, e) ↦ inr (e ∙ ap thrown (prepared-thrown d sql args msg e))
  ]

  -- The three ways in which `execute` ends.
  pub execute-cases :
      (d : Db) (sql : String) (args : List Arg)
      → (execute lib d sql args ≡ (thrown (errmsg d), d))
        ⊎ ((st : Statement) × (prepared lib d sql args ≡ returned st)
            × (((passes (step d st).0 ≡ true)
                  × (execute lib d sql args ≡ (returned tt, (step d st).2)))
                ⊎ ((passes (step d st).0 ≡ false)
                    × (execute lib d sql args ≡ (thrown (errmsg (step d st).2), (step d st).2)))))
  unfolding execute run_once
  execute-cases d sql args = elim (prepared-cases d sql args) [
    | inr e ↦ inl (rw (e, execute))
    | inl (st, e) ↦ inr (
      st,
      e,
      elim (Bool-cases (passes (step d st).0)) [
        | inl k ↦ inl (k, rw (e, execute, run_once, k))
        | inr k ↦ inr (k, rw (e, execute, run_once, k))
      ],
    )
  ]

  pub initialised-connected {ℓ} :
      {A : Type ℓ} (path : String) (d : Db) (body : Db → Outcome A × Db)
      → initialised lib (connected path d) body ≡ ((body d).0, connected path (body d).1)
  unfolding initialised init with_connection
  initialised-connected path d body = refl

  pub read_meta-eq :
      (st : Statement) (r : Row)
      → column_int64 st 0 ≡ r.id
      → column_int64 st 1 ≡ r.room
      → column_int64 st 2 ≡ r.saved_at
      → column_int64 st 3 ≡ r.last_seq
      → read_meta lib st ≡ meta_of r
  unfolding read_meta
  read_meta-eq st r e0 e1 e2 e3 = cc

  read_stored-eq :
      (st : Statement) (r : Row) (bytes : List ℕ)
      → column_blob st 4 ≡ bytes
      → read_meta lib st ≡ meta_of r
      → (read_stored lib st >>= λ x. returned (some x)) ≡ stored_bytes r bytes
  unfolding read_stored
  read_stored-eq st r [] e m = rw (e, read_stored)
  read_stored-eq st r (b ∷ bytes) e m = elim (Outcome-cases (deserialize_strokes (b ∷ bytes))) [
    | inl (strokes, k) ↦ rw (e, read_stored, k, m)
    | inr (msg, k) ↦ rw (e, read_stored, k)
  ]

  -- What the first row of a query becomes.
  pub first_row-cases :
      (q : IsSqlite lib) (d : Db) (st : Statement) (o : Option Row)
      → q.cursor st ≡ one_row o
      → q.has_data st ≡ true
      → ((first_row lib d st).0 ≡ stored_of o) ⊎ IsSqliteError (first_row lib d st).0
  unfolding first_row
  first_row-cases q d st o cur has = with_code (step d st).0 refl o cur
    where
      with_code :
          (rc : Code)
          → (step d st).0 ≡ rc
          → (o : Option Row) → q.cursor st ≡ one_row o
          → ((first_row lib d st).0 ≡ stored_of o) ⊎ IsSqliteError (first_row lib d st).0
      with_code ok_code e o c = absurd (q.step_not_ok d st e)
      with_code done_code e none c = inl (rw (e, first_row))
      with_code done_code e (some r) c = absurd (cc (q.step_done d st e))
      with_code (failure n) e o c = inr ((step d st).2, rw (e, first_row))
      with_code row_code e none c = absurd (cc ((q.step_row d st e).1))
      with_code row_code e (some r) c =
          let (r', cur', e0, e1, e2, e3, bytes) = q.step_row d st e in
          let same : r' ≡ r = cc in
          let st' = (step d st).1 in
          let m = read_meta-eq st' r' e0 e1 e2 e3 in
          inl (
            rw (e, first_row)
              (read_stored-eq st' r' r'.data_bytes (bytes has) m
                ∙ ap (λ (x : Row). stored_bytes x x.data_bytes) same))

  -- A query leaves the table as it is.
  pub first_row_unchanged :
      (q : IsSqlite lib) (d : Db) (st : Statement)
      → q.is_query st ≡ true
      → (id : ℕ) → q.table (first_row lib d st).1 id ≡ q.table d id
  unfolding first_row
  first_row_unchanged q d st query id = with_code (step d st).0 refl
    where
      with_code :
          (rc : Code) → (step d st).0 ≡ rc → q.table (first_row lib d st).1 id ≡ q.table d id
      with_code ok_code e = rw (e, first_row) ((q.step_query d st query).0 id)
      with_code done_code e = rw (e, first_row) ((q.step_query d st query).0 id)
      with_code row_code e = rw (e, first_row) ((q.step_query d st query).0 id)
      with_code (failure n) e = rw (e, first_row) ((q.step_query d st query).0 id)
