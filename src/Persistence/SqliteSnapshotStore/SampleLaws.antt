-- ===== src/Persistence/SqliteSnapshotStore/SampleLaws.antt =====
-- The library over the small database does what is asked of SQLite.
use mathlib.Core.Path.{subst}
use clear_space.Prelude.{
  ℕ, ◌+◌, ◌≡◌, ◌≢◌, refl, sym, ap, ◌∙◌, Bool, true, false, List, [], ◌∷◌, length, take,
}
use clear_space.Persistence.Codec.{Outcome, returned}
use clear_space.Persistence.Sqlite.{ok_code, done_code, row_code}
use clear_space.Persistence.SqliteSnapshotStore.{
  int64, blob, prepared, bind_all, bind_one, passes, insert_sql, list_sql, by_id_sql, latest_sql,
  delete_room_sql, delete_old_sql,
}
use clear_space.Persistence.SqliteSnapshotStore.Table.{Row, IsSqlite, IsListing, find_row}
use clear_space.Persistence.SqliteSnapshotStore.Sample.{
  Entry, entries, entries_fresh, entries-snoc, find_row_id, entries-drop_but,
}
use clear_space.Persistence.SqliteSnapshotStore.SampleListing.{Contents, listing, listing-IsListing}
use clear_space.Persistence.SqliteSnapshotStore.SampleLibrary.{
  other, room_list, latest, by_id, insertion, room_deletion, old_deletion, Kind, Prepared, no_row,
  answer, updated, stepped, column, small_sqlite,
}

abbrev kind_queries : Kind → Bool
kind_queries room_list = true
kind_queries by_id = true
kind_queries latest = true
kind_queries _ = false

-- A statement with its values.
abbrev bound : Kind → Contents → List ℕ → List ℕ → Prepared
bound k d ints bytes = record {
  kind = k;
  on = d;
  ints = ints;
  bytes = bytes;
  rest = answer k d ints;
  shown = no_row;
}

returned_eq : (x st : Prepared) → ◌≡◌ {A = Outcome Prepared} (returned x) (returned st) → x ≡ st
returned_eq x st e = cc

list_bound :
    (d : Contents) (room : ℕ) (st : Prepared)
    → prepared small_sqlite d list_sql (int64 room ∷ []) ≡ returned st
    → bound room_list d (room ∷ []) [] ≡ st
unfolding prepared bind_all bind_one
list_bound d room st e = returned_eq _ st e

latest_bound :
    (d : Contents) (room : ℕ) (st : Prepared)
    → prepared small_sqlite d latest_sql (int64 room ∷ []) ≡ returned st
    → bound latest d (room ∷ []) [] ≡ st
unfolding prepared bind_all bind_one
latest_bound d room st e = returned_eq _ st e

by_id_bound :
    (d : Contents) (id : ℕ) (st : Prepared)
    → prepared small_sqlite d by_id_sql (int64 id ∷ []) ≡ returned st
    → bound by_id d (id ∷ []) [] ≡ st
unfolding prepared bind_all bind_one
by_id_bound d id st e = returned_eq _ st e

insert_bound :
    (d : Contents) (room now seq : ℕ) (bytes : List ℕ) (st : Prepared)
    → prepared small_sqlite d insert_sql
        (int64 room ∷ int64 now ∷ int64 seq ∷ blob bytes (length bytes) ∷ [])
      ≡ returned st
    → bound insertion d (room ∷ now ∷ seq ∷ []) bytes ≡ st
unfolding prepared bind_all bind_one
insert_bound d room now seq bytes st e = returned_eq _ st e

delete_room_bound :
    (d : Contents) (room : ℕ) (st : Prepared)
    → prepared small_sqlite d delete_room_sql (int64 room ∷ []) ≡ returned st
    → bound room_deletion d (room ∷ []) [] ≡ st
unfolding prepared bind_all bind_one
delete_room_bound d room st e = returned_eq _ st e

delete_old_bound :
    (d : Contents) (room keep : ℕ) (st : Prepared)
    → prepared small_sqlite d delete_old_sql (int64 room ∷ int64 room ∷ int64 keep ∷ [])
      ≡ returned st
    → bound old_deletion d (room ∷ room ∷ keep ∷ []) [] ≡ st
unfolding prepared bind_all bind_one
delete_old_bound d room keep st e = returned_eq _ st e

step_done_of :
    (d : Contents) (st : Prepared) (rest : List Row) → (stepped st d rest).0 ≡ done_code → rest ≡ []
step_done_of d st [] e = refl
step_done_of d st (r ∷ rs) e = absurd (cc)

step_not_ok_of : (d : Contents) (st : Prepared) (rest : List Row) → (stepped st d rest).0 ≢ ok_code
step_not_ok_of d st [] e = cc
step_not_ok_of d st (r ∷ rs) e = cc

step_fails_of :
    (d : Contents) (st : Prepared) (rest : List Row) → passes (stepped st d rest).0 ≢ false
step_fails_of d st [] e = cc
step_fails_of d st (r ∷ rs) e = cc

step_row_of :
    (d : Contents) (st : Prepared) (rest : List Row)
    → (stepped st d rest).0 ≡ row_code
    → (r : Row) × (rest ≡ r ∷ (stepped st d rest).1.rest)
      × (column (stepped st d rest).1.shown 0 ≡ r.id)
      × (column (stepped st d rest).1.shown 1 ≡ r.room)
      × (column (stepped st d rest).1.shown 2 ≡ r.saved_at)
      × (column (stepped st d rest).1.shown 3 ≡ r.last_seq)
      × (kind_queries st.kind ≡ true → (stepped st d rest).1.shown.data_bytes ≡ r.data_bytes)
step_row_of d st [] e = absurd (cc)
step_row_of d st (r ∷ rs) e = (r, refl, refl, refl, refl, refl, λ _. refl)

updated_query :
    (k : Kind) (ints bytes : List ℕ) (d : Contents)
    → kind_queries k ≡ true
    → updated k ints bytes d ≡ d
updated_query insertion ints bytes d e = absurd (cc)
updated_query room_list ints bytes d e = refl
updated_query by_id ints bytes d e = refl
updated_query latest ints bytes d e = refl
updated_query room_deletion ints bytes d e = absurd (cc)
updated_query old_deletion ints bytes d e = absurd (cc)
updated_query other ints bytes d e = absurd (cc)

step_query_of :
    (d : Contents) (st : Prepared) (rest : List Row)
    → kind_queries st.kind ≡ true
    → ((stepped st d rest).2 ≡ d) × (kind_queries (stepped st d rest).1.kind ≡ true)
step_query_of d st [] e = (updated_query st.kind st.ints st.bytes d e, e)
step_query_of d st (r ∷ rs) e = (refl, e)

pub small_sqlite-IsSqlite : IsSqlite small_sqlite
small_sqlite-IsSqlite = record {
  table = λ d. find_row (entries 1 d);
  cursor = λ st. st.rest;
  is_query = λ st. kind_queries st.kind;
  has_data = λ st. kind_queries st.kind;
  own_id = λ d id r e. find_row_id (entries 1 d) id r e;
  list_rows_of = λ d room st e.
      let same = list_bound d room st e in
      (
        subst (λ (s : Prepared). IsListing (find_row (entries 1 d)) room s.rest) same
            (listing-IsListing d room),
        ap (λ (s : Prepared). kind_queries s.kind) (sym same),
      );
  latest_rows_of = λ d room st e.
      let same = latest_bound d room st e in
      (
        listing d room,
        listing-IsListing d room,
        ap (λ (s : Prepared). s.rest) (sym same),
        ap (λ (s : Prepared). kind_queries s.kind) (sym same),
        ap (λ (s : Prepared). kind_queries s.kind) (sym same),
      );
  by_id_rows_of = λ d id st e.
      let same = by_id_bound d id st e in
      (
        ap (λ (s : Prepared). s.rest) (sym same),
        ap (λ (s : Prepared). kind_queries s.kind) (sym same),
        ap (λ (s : Prepared). kind_queries s.kind) (sym same),
      );
  step_not_ok = λ d st. step_not_ok_of d st st.rest;
  step_done = λ d st. step_done_of d st st.rest;
  step_row = λ d st. step_row_of d st st.rest;
  step_query = λ d st e.
      let k = step_query_of d st st.rest e in (λ id. ap (λ x. find_row (entries 1 x) id) k.0, k.1);
  insert_step = λ d room now seq bytes st e ok.
      let same = insert_bound d room now seq bytes st e in
      let row : Entry = record {
        room = room;
        saved_at = now;
        last_seq = seq;
        data_bytes = bytes;
      } in
      (
        length d + 1,
        entries_fresh 1 d (length d + 1) refl,
        λ id.
            ap (λ (s : Prepared). find_row (entries 1 (stepped s d s.rest).2) id) (sym same)
            ∙ entries-snoc 1 d row (length d + 1) id refl,
      );
  delete_room_step = λ d room st e ok id.
      let same = delete_room_bound d room st e in
      ap (λ (s : Prepared). find_row (entries 1 (stepped s d s.rest).2) id) (sym same)
      ∙ entries-drop_but room [] 1 d id;
  delete_old_step = λ d room keep st e ok.
      let same = delete_old_bound d room keep st e in
      (
        listing d room,
        listing-IsListing d room,
        λ id.
            ap (λ (s : Prepared). find_row (entries 1 (stepped s d s.rest).2) id) (sym same)
            ∙ entries-drop_but room (take keep (listing d room)) 1 d id,
      );
  failed_step = λ d st e. absurd (step_fails_of d st st.rest e);
}

pub small_sqlite-rows :
    (d : Contents) (id : ℕ) → small_sqlite-IsSqlite.table d id ≡ find_row (entries 1 d) id
unfolding small_sqlite-IsSqlite
small_sqlite-rows d id = refl
