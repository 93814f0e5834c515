-- ===== src/Persistence/SqliteSnapshotStore/SampleListing.antt =====
-- The rows of a room in the small database, newest first.
use clear_space.Prelude.{
  ℕ, ◌≤◌, ◌≡◌, refl, sym, ap, ◌∙◌, inl, inr, Option, none, some, List, [], ◌∷◌, All, leb,
  Bool-cases, arith, ◌==◌, ==→eq, if◌then◌else◌,
}
use clear_space.Core.Types.{RoomId}
use clear_space.Persistence.SqliteSnapshotStore.Table.{
  Row, rank, find_row, in_room, IsListing, IsNewestFirst, HasDistinctIds,
}
use clear_space.Persistence.SqliteSnapshotStore.Sample.{Entry, entries, entries-HasDistinctIds}

abbrev of_room : RoomId → List Row → List Row
of_room room [] = []
of_room room (r ∷ rs) = let rest = of_room room rs in if r.room == room then r ∷ rest else rest

find-of_room :
    (room : RoomId) (xs : List Row) (id : ℕ)
    → HasDistinctIds xs
    → find_row (of_room room xs) id ≡ in_room room (find_row xs id)
find-of_room room [] id h = refl
find-of_room room (x ∷ xs) id h =
    let later = find-of_room room xs id h.1 in
    elim (Bool-cases (x.room == room)) [
      | inl y ↦ rw (y) (elim (Bool-cases (x.id == id)) [ inl s ↦ rw (s, y) | inr n ↦ rw (n) later ])
      | inr o ↦ rw (o) (elim (Bool-cases (x.id == id)) [
        | inl s ↦
            let gone : find_row xs id ≡ none = ap (find_row xs) (sym (==→eq x.id id s)) ∙ h.0 in
            rw (s, o) (later ∙ ap (in_room room) gone)
        | inr n ↦ rw (n) later
      ])
    ]

of_room-HasDistinctIds :
    (room : RoomId) (xs : List Row) → HasDistinctIds xs → HasDistinctIds (of_room room xs)
of_room-HasDistinctIds room [] h = tt
of_room-HasDistinctIds room (x ∷ xs) h = elim (Bool-cases (x.room == room)) [
  | inr o ↦ rw (o) (of_room-HasDistinctIds room xs h.1)
  | inl y ↦
      rw (y)
        (find-of_room room xs x.id h.1 ∙ ap (in_room room) h.0, of_room-HasDistinctIds room xs h.1)
]

-- Insertion sort, the newest row first.
abbrev place : Row → List Row → List Row
place r [] = r ∷ []
place r (x ∷ xs) =
    let later = place r xs in
    if leb (rank x.saved_at) (rank r.saved_at) then r ∷ x ∷ xs else x ∷ later

abbrev newest : List Row → List Row
newest [] = []
newest (r ∷ rs) = place r (newest rs)

find-place :
    (r : Row) (xs : List Row) (id : ℕ)
    → find_row xs r.id ≡ none
    → find_row (place r xs) id ≡ (if r.id == id then some r else find_row xs id)
find-place r [] id h = refl
find-place r (x ∷ xs) id h = elim (Bool-cases (leb (rank x.saved_at) (rank r.saved_at))) [
  | inl y ↦ rw (y)
  | inr n ↦ rw (n) (ground (arith, find-place r xs id))
]

find-newest :
    (xs : List Row) (id : ℕ) → HasDistinctIds xs → find_row (newest xs) id ≡ find_row xs id
find-newest [] id h = refl
find-newest (x ∷ xs) id h =
    let later = find-newest xs id h.1 in
    find-place x (newest xs) id (find-newest xs x.id h.1 ∙ h.0)
    ∙ ap (λ o. if x.id == id then some x else o) later

place-HasDistinctIds :
    (r : Row) (xs : List Row)
    → find_row xs r.id ≡ none
    → HasDistinctIds xs
    → HasDistinctIds (place r xs)
place-HasDistinctIds r [] h k = (refl, tt)
place-HasDistinctIds r (x ∷ xs) h k = elim (Bool-cases (leb (rank x.saved_at) (rank r.saved_at))) [
  | inl y ↦ rw (y) (h, k)
  | inr n ↦
      let rest : find_row xs r.id ≡ none = ground arith in
      rw (n) (ground (arith, find-place r xs x.id, k.0), place-HasDistinctIds r xs rest k.1)
]

newest-HasDistinctIds : (xs : List Row) → HasDistinctIds xs → HasDistinctIds (newest xs)
newest-HasDistinctIds [] h = tt
newest-HasDistinctIds (x ∷ xs) h =
    place-HasDistinctIds x (newest xs) (find-newest xs x.id h.1 ∙ h.0)
      (newest-HasDistinctIds xs h.1)

older_all :
    (b c : ℕ) (xs : List Row)
    → b ≤ c
    → All (λ q. rank q.saved_at ≤ b) xs
    → All (λ q. rank q.saved_at ≤ c) xs
older_all b c [] l h = tt
older_all b c (x ∷ xs) l h = (omega (arith, l, h.0), older_all b c xs l h.1)

place_older :
    (b : ℕ) (r : Row) (xs : List Row)
    → rank r.saved_at ≤ b
    → All (λ q. rank q.saved_at ≤ b) xs
    → All (λ q. rank q.saved_at ≤ b) (place r xs)
place_older b r [] l h = (l, tt)
place_older b r (x ∷ xs) l h = elim (Bool-cases (leb (rank x.saved_at) (rank r.saved_at))) [
  | inl y ↦ rw (y) (l, h)
  | inr n ↦ rw (n) (h.0, place_older b r xs l h.1)
]

place-IsNewestFirst : (r : Row) (xs : List Row) → IsNewestFirst xs → IsNewestFirst (place r xs)
place-IsNewestFirst r [] h = (tt, tt)
place-IsNewestFirst r (x ∷ xs) h = elim (Bool-cases (leb (rank x.saved_at) (rank r.saved_at))) [
  | inl y ↦
      let le : rank x.saved_at ≤ rank r.saved_at = ground arith in
      rw (y) ((le, older_all (rank x.saved_at) (rank r.saved_at) xs le h.0), h)
  | inr n ↦
      let le : rank r.saved_at ≤ rank x.saved_at = ground arith in
      rw (n) (place_older (rank x.saved_at) r xs le h.0, place-IsNewestFirst r xs h.1)
]

newest-IsNewestFirst : (xs : List Row) → IsNewestFirst (newest xs)
newest-IsNewestFirst [] = tt
newest-IsNewestFirst (x ∷ xs) = place-IsNewestFirst x (newest xs) (newest-IsNewestFirst xs)

abbrev pub Contents : Type 0
Contents = List (Option Entry)

unfoldable pub listing : Contents → RoomId → List Row
listing d room = newest (of_room room (entries 1 d))

pub listing-IsListing :
    (d : Contents) (room : RoomId) → IsListing (find_row (entries 1 d)) room (listing d room)
unfolding listing
listing-IsListing d room =
    let distinct = of_room-HasDistinctIds room (entries 1 d) (entries-HasDistinctIds 1 d) in
    record {
      holds = λ id.
          find-newest (of_room room (entries 1 d)) id distinct
          ∙ find-of_room room (entries 1 d) id (entries-HasDistinctIds 1 d);
      newest_first = newest-IsNewestFirst (of_room room (entries 1 d));
      distinct = newest-HasDistinctIds (of_room room (entries 1 d)) distinct;
    }
