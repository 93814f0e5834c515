-- ===== src/Persistence/SqliteSnapshotStore/SaveLoad.antt =====
-- A snapshot that persistence/src/sqlite_snapshot_store.cpp saves is loaded as it was, by its id and as
-- the latest one.
use clear_space.Prelude.{
  ℕ, ◌^◌, ◌<◌, ◌≤◌, ◌≡◌, refl, sym, subst, Option, Bool-cases, ◌==◌, take, ap, ◌∙◌, ◌⊎◌, inl, inr,
  String, none, some, false, List, [], ◌∷◌, length, All, arith, ==_refl, ==→eq,
}
use mathlib.Core.Path.{fun_ext}
use clear_space.Core.Types.{RoomId, Seq, Stroke}
use clear_space.Persistence.Codec.{returned, serialize_strokes, deserialize_strokes}
use clear_space.Persistence.Codec.Write.{size_strokes, serialize_shape}
use clear_space.Persistence.Codec.RoundTrip.{IsStroke, deserialize-serialize}
use clear_space.Persistence.Sqlite.{SqliteLibrary}
use clear_space.Persistence.SqliteSnapshotStore.{save, load_by_id, load_latest}
use clear_space.Persistence.SqliteSnapshotStore.Table.{
  Row, Table, rank, find_row, in_room, one_row, IsSqlite, IsListing,
}
use clear_space.Persistence.SqliteSnapshotStore.Calls.{
  connected, IsSqliteError, meta_of, stored_bytes, stored_of,
}
use clear_space.Persistence.SqliteSnapshotStore.Updates.{saved_row, with_row, save_lem}
use clear_space.Persistence.SqliteSnapshotStore.Pruning.{found_rank}
use clear_space.Persistence.SqliteSnapshotStore.Queries.{load_by_id_lem, load_latest_lem}

stored_bytes_lem :
    (r : Row) (bytes : List ℕ) (strokes : List Stroke)
    → 0 < length bytes
    → deserialize_strokes bytes ≡ returned strokes
    → stored_bytes r bytes ≡ returned (some (record { meta = meta_of r; strokes = strokes }))
stored_bytes_lem r [] strokes long e = absurd (omega (arith, long))
stored_bytes_lem r (b ∷ bytes) strokes long e = rw (e)

length-le-size : (ss : List Stroke) → length ss ≤ size_strokes ss
length-le-size [] = omega arith
length-le-size (s ∷ ss) = omega (arith, length-le-size ss)

stored_of-saved_row :
    (new now : ℕ) (room : RoomId) (seq : Seq) (strokes : List Stroke)
    → All IsStroke strokes
    → length (serialize_strokes strokes) < 2 ^ 31
    → stored_of (some (saved_row new now room seq strokes))
      ≡ returned (
          some (record {
            meta = record { id = new; room = room; saved_at_ms = now; last_seq = seq };
            strokes = strokes;
          }))
stored_of-saved_row new now room seq strokes h small =
    let shape = serialize_shape strokes in
    stored_bytes_lem (saved_row new now room seq strokes) (serialize_strokes strokes) strokes
      (omega (arith, shape.1))
      (deserialize-serialize strokes h (omega (arith, shape.1, length-le-size strokes, small)))

one_row-some : (o : Option Row) (x : Row) → one_row o ≡ x ∷ [] → o ≡ some x
one_row-some none x e = absurd (cc (e))
one_row-some (some y) x e = cc (e)

-- `save` on an open store throws what SQLite says, or adds a snapshot under a new id; `loadById` then
-- throws what SQLite says or answers with the same room, time, number and strokes. The strokes' fields lie
-- within their machine types, and their bytes are fewer than an int can count.
pub save-load_by_id :
    (lib : SqliteLibrary) (q : IsSqlite lib) (path : String) (d : lib.Db) (now : ℕ) (room : RoomId)
    (seq : Seq) (strokes : List Stroke)
    → All IsStroke strokes
    → length (serialize_strokes strokes) < 2 ^ 31
    → IsSqliteError lib (save lib (connected lib path d) now room seq strokes).0
      ⊎ ((new : ℕ) × (d' : lib.Db) × (save lib (connected lib path d) now room seq strokes
            ≡ (returned tt, connected lib path d'))
          × (q.table d new ≡ none)
          × (((load_by_id lib (connected lib path d') new).0
                ≡ returned (
                    some (record {
                      meta = record { id = new; room = room; saved_at_ms = now; last_seq = seq };
                      strokes = strokes;
                    })))
              ⊎ IsSqliteError lib (load_by_id lib (connected lib path d') new).0))
save-load_by_id lib q path d now room seq strokes h small =
    let (d', s, ends) = save_lem lib q path d now room seq strokes small in
    elim ends [
      | inr (e, k) ↦ inl e
      | inl (ok, (new, fresh, at)) ↦
          let r = saved_row new now room seq strokes in
          let there : q.table d' new ≡ some r = at new ∙ rw (==_refl new) in
          inr (
            new,
            d',
            cc (ok, s),
            fresh,
            elim (load_by_id_lem lib q path d' new) [
              | inl e ↦
                  inl
                    (e ∙ ap stored_of there ∙ stored_of-saved_row new now room seq strokes h small)
              | inr e ↦ inr e
            ],
          )
    ]

in_room-some :
    (room : RoomId) (o : Option Row) (r : Row)
    → in_room room o ≡ some r
    → (o ≡ some r) × (r.room ≡ room)
in_room-some room none r e = absurd (cc (e))
in_room-some room (some x) r e = elim (Bool-cases (x.room == room)) [
  | inl same ↦
      let is : x ≡ r = cc (e, same) in
      (ap some is, ap (λ (z : Row). z.room) (sym is) ∙ ==→eq x.room room same)
  | inr other ↦ absurd (cc (e, other))
]

-- A row that is newer than all others of its room is the first one of each listing.
newest_first-with_row :
    (t : Table) (x : Row) (rows : List Row)
    → IsListing (with_row t x) x.room rows
    → ((id : ℕ) (r : Row) → t id ≡ some r → r.room ≡ x.room → rank r.saved_at < rank x.saved_at)
    → take 1 rows ≡ x ∷ []
newest_first-with_row t x [] h newer = absurd (cc (found))
  where
    found : none ≡ some x
    found = h.holds x.id ∙ rw (==_refl x.id, ==_refl x.room) refl
newest_first-with_row t x (r ∷ rs) h newer =
    let found : find_row (r ∷ rs) x.id ≡ some x =
      h.holds x.id ∙ rw (==_refl x.id, ==_refl x.room) refl in
    elim (Bool-cases (r.id == x.id)) [
      | inl same ↦ let is : r ≡ x = cc (same, found) in ap (λ z. z ∷ []) is
      | inr other ↦
          let behind : find_row rs x.id ≡ some x = cc (other, found) in
          let listed : in_room x.room (with_row t x r.id) ≡ some r =
            sym (h.holds r.id) ∙ rw (==_refl r.id) refl in
          let (there, of_room) = in_room-some x.room (with_row t x r.id) r listed in
          let swapped : (x.id == r.id) ≡ false = ground (arith, other) in
          let old : t r.id ≡ some r = sym (rw (swapped) refl) ∙ there in
          absurd (
            omega (
              arith,
              found_rank (rank r.saved_at) rs x.id x h.newest_first.0 behind,
              newer r.id r old of_room,
            ))
    ]

-- `save` on an open store throws what SQLite says, or adds a snapshot; if its time is later than that of
-- each snapshot that the room then had, `loadLatest` throws what SQLite says or answers with the new one:
-- the same room, time, number and strokes. The strokes' fields lie within their machine types, and their
-- bytes are fewer than an int can count.
pub save-load_latest :
    (lib : SqliteLibrary) (q : IsSqlite lib) (path : String) (d : lib.Db) (now : ℕ) (room : RoomId)
    (seq : Seq) (strokes : List Stroke)
    → All IsStroke strokes
    → length (serialize_strokes strokes) < 2 ^ 31
    → ((id : ℕ) (r : Row) → q.table d id ≡ some r → r.room ≡ room → rank r.saved_at < rank now)
    → IsSqliteError lib (save lib (connected lib path d) now room seq strokes).0
      ⊎ ((new : ℕ) × (d' : lib.Db) × (save lib (connected lib path d) now room seq strokes
            ≡ (returned tt, connected lib path d'))
          × (q.table d new ≡ none)
          × (((load_latest lib (connected lib path d') room).0
                ≡ returned (
                    some (record {
                      meta = record { id = new; room = room; saved_at_ms = now; last_seq = seq };
                      strokes = strokes;
                    })))
              ⊎ IsSqliteError lib (load_latest lib (connected lib path d') room).0))
save-load_latest lib q path d now room seq strokes h small newer =
    let (d', s, ends) = save_lem lib q path d now room seq strokes small in
    elim ends [
      | inr (e, k) ↦ inl e
      | inl (ok, (new, fresh, at)) ↦
          let x = saved_row new now room seq strokes in
          inr (
            new,
            d',
            cc (ok, s),
            fresh,
            elim (load_latest_lem lib q path d' room) [
              | inl (o, (rows, listed, is), e) ↦
                  let listed' = subst (λ t. IsListing t room rows) (fun_ext at) listed in
                  let first = newest_first-with_row (q.table d) x rows listed' newer in
                  inl (
                    e
                    ∙ ap stored_of (one_row-some o x (is ∙ first))
                    ∙ stored_of-saved_row new now room seq strokes h small)
              | inr e ↦ inr e
            ],
          )
    ]
