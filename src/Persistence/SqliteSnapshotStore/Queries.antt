-- ===== src/Persistence/SqliteSnapshotStore/Queries.antt =====
-- What `list`, `loadById` and `loadLatest` of persistence/src/sqlite_snapshot_store.cpp answer.
use clear_space.Prelude.{
  ℕ, zero, suc, ◌<◌, ◌≡◌, refl, sym, ap, ◌∙◌, ◌⊎◌, inl, inr, String, true, Option, none, some, List,
  [], ◌∷◌, ◌++◌, map, append_assoc, append-nil, length, take, arith,
}
use clear_space.Core.Types.{RoomId}
use clear_space.Persistence.Codec.{Outcome, returned, thrown}
use clear_space.Persistence.Sqlite.{SqliteLibrary, Code, ok_code, done_code, row_code, failure}
use clear_space.Persistence.SqliteSnapshotStore.{
  Arg, int64, Store, SnapshotMeta, prepared, init, query_one, read_meta, by_id_sql, latest_sql,
  list_sql, list_rows, list_with, list_after, list, load_by_id, load_latest,
}
use clear_space.Persistence.SqliteSnapshotStore.Table.{Row, IsSqlite, IsListing, IsLatest, one_row}
use clear_space.Persistence.SqliteSnapshotStore.Calls.{
  connected, prepared-cases, initialised-connected, IsSqliteError, first_row-cases,
  first_row_unchanged, stored_of, meta_of, read_meta-eq,
}

module _ (lib : SqliteLibrary) (q : IsSqlite lib) where
  open lib use {Db, Statement, errmsg, step}
  open q use {
    table, cursor, is_query, step_not_ok, step_done, step_row, step_query, list_rows_of,
    latest_rows_of, by_id_rows_of,
  }

  query_one-cases :
      (d : Db) (sql : String) (args : List Arg) (P : Option Row → Type 0)
      → ((st : Statement)
          → prepared lib d sql args ≡ returned st
          → (o : Option Row) × P o
            × (cursor st ≡ one_row o)
            × (is_query st ≡ true)
            × (q.has_data st ≡ true))
      → (((o : Option Row) × P o × ((query_one lib d sql args).0 ≡ stored_of o))
          ⊎ IsSqliteError lib (query_one lib d sql args).0)
        × ((id : ℕ) → table (query_one lib d sql args).1 id ≡ table d id)
  unfolding query_one
  query_one-cases d sql args P rows = elim (prepared-cases lib d sql args) [
    | inr e ↦ (inr (d, rw (e, query_one)), λ id. rw (e, query_one))
    | inl (st, e) ↦
        let (o, p, cur, query, has) = rows st e in
        (
          elim (first_row-cases lib q d st o cur has) [
            | inl k ↦ inl (o, p, rw (e, query_one) k)
            | inr (x, k) ↦ inr (x, rw (e, query_one) k)
          ],
          λ id. rw (e, query_one) (first_row_unchanged lib q d st query id),
        )
  ]

  -- `loadById` on an open store answers with the row that has the id, or throws what SQLite says.
  pub load_by_id_lem :
      (path : String) (d : Db) (id : ℕ)
      → ((load_by_id lib (connected lib path d) id).0 ≡ stored_of (table d id))
        ⊎ IsSqliteError lib (load_by_id lib (connected lib path d) id).0
  unfolding load_by_id
  load_by_id_lem path d id =
      let args = int64 id ∷ [] in
      let same =
        ap (λ x. x.0) (initialised-connected lib path d (λ d. query_one lib d by_id_sql args)) in
      elim (query_one-cases d by_id_sql args (λ o. o ≡ table d id)
        (λ st e.
          let (cur, query, has) = by_id_rows_of d id st e in
          (table d id, refl, cur, query, has))).0 [
            | inl (o, p, e) ↦ inl (same ∙ e ∙ ap stored_of p)
            | inr (x, e) ↦ inr (x, same ∙ e)
          ]

  first_of : List Row → Option Row
  first_of [] = none
  first_of (r ∷ rs) = some r

  one_row-first_of : (rows : List Row) → one_row (first_of rows) ≡ take 1 rows
  unfolding first_of
  one_row-first_of [] = refl
  one_row-first_of (r ∷ rs) = refl

  -- `loadLatest` on an open store answers with a newest row of the room, with nothing if the room has
  -- none, or throws what SQLite says.
  pub load_latest_lem :
      (path : String) (d : Db) (room : RoomId)
      → ((o : Option Row) × IsLatest (table d) room o
          × ((load_latest lib (connected lib path d) room).0 ≡ stored_of o))
        ⊎ IsSqliteError lib (load_latest lib (connected lib path d) room).0
  unfolding load_latest
  load_latest_lem path d room =
      let args = int64 room ∷ [] in
      let same =
        ap (λ x. x.0) (initialised-connected lib path d (λ d. query_one lib d latest_sql args)) in
      elim (query_one-cases d latest_sql args (λ o. IsLatest (table d) room o)
        (λ st e.
          let (rows, listed, cur, query, has) = latest_rows_of d room st e in
          (
            first_of rows,
            (rows, listed, one_row-first_of rows),
            cur ∙ sym (one_row-first_of rows),
            query,
            has,
          ))).0 [ inl (o, p, e) ↦ inl (o, p, same ∙ e) | inr (x, e) ↦ inr (x, same ∙ e) ]

  abbrev Listed : Option (Outcome (List SnapshotMeta) × Db) → List SnapshotMeta → List Row → Type 0
  Listed found res rows =
      (o : Outcome (List SnapshotMeta)) × (d' : Db) × (found ≡ some (o, d'))
      × ((o ≡ returned (res ++ map meta_of rows)) ⊎ IsSqliteError lib o)

  -- The loop of `list` with enough fuel.
  list_rows-cases :
      (fuel : ℕ) (d : Db) (st : Statement) (res : List SnapshotMeta) (rows : List Row)
      → cursor st ≡ rows
      → length rows < fuel
      → Listed (list_rows lib fuel d st res) res rows
  unfolding list_rows
  list_rows-cases zero d st res rows cur small = absurd (omega (arith, small))
  list_rows-cases (suc fuel) d st res rows cur small =
      let st' = (step d st).1 in
      let d' = (step d st).2 in
      with_code (step d st).0 refl rows cur small
        (list_rows-cases fuel d' st' (res ++ (read_meta lib st' ∷ [])))
    where
      with_code :
          (rc : Code)
          → (step d st).0 ≡ rc
          → (rows : List Row) → cursor st ≡ rows
          → length rows < suc fuel
          → ((rest : List Row)
              → cursor (step d st).1 ≡ rest
              → length rest < fuel
              → Listed
                  (list_rows lib fuel
                    (step d st).2
                    (step d st).1
                    (res ++ (read_meta lib (step d st).1 ∷ [])))
                  (res ++ (read_meta lib (step d st).1 ∷ []))
                  rest)
          → Listed (list_rows lib (suc fuel) d st res) res rows
      with_code ok_code e rows c l again = absurd (step_not_ok d st e)
      with_code done_code e [] c l again =
          (returned res, (step d st).2, rw (e, list_rows), inl (ap returned (sym (append-nil res))))
      with_code done_code e (r ∷ rs) c l again = absurd (cc (step_done d st e))
      with_code (failure n) e rows c l again = (
        thrown (errmsg (step d st).2),
        (step d st).2,
        rw (e, list_rows),
        inr ((step d st).2, refl),
      )
      with_code row_code e [] c l again = absurd (cc ((step_row d st e).1))
      with_code row_code e (r ∷ rs) c l again =
          let (r', cur', e0, e1, e2, e3, bytes) = step_row d st e in
          let same : r' ≡ r = cc in
          let rest : cursor (step d st).1 ≡ rs = cc in
          let meta = read_meta-eq lib (step d st).1 r' e0 e1 e2 e3 ∙ ap meta_of same in
          let (o, d', found, ends) = again rs rest (omega (arith, l)) in
          (
            o,
            d',
            rw (e, list_rows) found,
            elim ends [
              | inr x ↦ inr x
              | inl k ↦ inl (
                  k
                  ∙ ap returned (
                      append_assoc res (read_meta lib (step d st).1 ∷ []) (map meta_of rs)
                      ∙ ap (λ (m : SnapshotMeta). res ++ (m ∷ map meta_of rs)) meta))
            ],
          )

  -- `list` on an open store ends, and answers with all rows of the room, newest first, or throws what
  -- SQLite says.
  pub list_lem :
      (path : String) (d : Db) (room : RoomId)
      → (bound : ℕ) × ((fuel : ℕ)
          → bound < fuel
          → (o : Outcome (List SnapshotMeta)) × (s : Store lib) × (list lib fuel
                (connected lib path d)
                room
              ≡ some (o, s))
            × (((rows : List Row) × IsListing (table d) room rows
                  × (o ≡ returned (map meta_of rows)))
                ⊎ IsSqliteError lib o))
  unfolding list list_after list_with init
  list_lem path d room = elim (prepared-cases lib d list_sql (int64 room ∷ [])) [
    | inr e ↦ (
      0,
      λ fuel small. (thrown (errmsg d), connected lib path d, rw (e, list_with), inr (d, refl)),
    )
    | inl (st, e) ↦ (
      length (cursor st),
      λ fuel small.
          let (o, d', found, ends) = list_rows-cases fuel d st [] (cursor st) refl small in
          (
            o,
            connected lib path d',
            rw (e, list_with, found),
            elim ends [ inl k ↦ inl (cursor st, (list_rows_of d room st e).0, k) | inr x ↦ inr x ],
          ),
    )
  ]
