-- ===== src/Persistence/SqliteSnapshotStore/Pruning.antt =====
-- What is left of a room's rows when all but the first ones of a listing are deleted.
use clear_space.Prelude.{
  ℕ, zero, suc, ◌≤◌, ◌≡◌, refl, sym, ap, ◌∙◌, ◌⊎◌, inl, inr, subst, Option, none, some, List, [],
  ◌∷◌, length, take, All, Bool-cases, Option-cases, arith, ◌==◌, if◌then◌else◌,
}
use clear_space.Core.Types.{RoomId}
use clear_space.Persistence.SqliteSnapshotStore.Table.{
  Row, Table, rank, find_row, in_room, outside_room, delete_but, IsListing, IsNewestFirst,
  HasDistinctIds,
}

-- `kept` are the rows that a room still has: the newest ones, at most `keep`, and fewer only if the room
-- had no more. The other rooms keep all rows.
pub record IsPruned (t t' : Table) (room : RoomId) (keep : ℕ) (kept : List Row) : Type 0 where
  pub left : (id : ℕ) → in_room room (t' id) ≡ find_row kept id
  pub others : (id : ℕ) → outside_room room (t' id) ≡ outside_room room (t id)
  pub taken : (id : ℕ) (r : Row) → find_row kept id ≡ some r → t id ≡ some r
  pub newest :
      (id : ℕ) (r : Row)
      → in_room room (t id) ≡ some r
      → find_row kept id ≡ none
      → All (λ x. rank r.saved_at ≤ rank x.saved_at) kept
  pub few : length kept ≤ keep
  pub full : (length kept ≡ keep) ⊎ ((id : ℕ) → in_room room (t id) ≡ find_row kept id)
  pub distinct : HasDistinctIds kept

take_row :
    (k : ℕ) (xs : List Row) (id : ℕ) (r : Row)
    → find_row (take k xs) id ≡ some r
    → find_row xs id ≡ some r
take_row zero xs id r h = absurd (cc)
take_row (suc k) [] id r h = absurd (cc)
take_row (suc k) (x ∷ xs) id r h = ground (arith, take_row k xs id r)

take-none :
    (k : ℕ) (xs : List Row) (id : ℕ) → find_row xs id ≡ none → find_row (take k xs) id ≡ none
take-none zero xs id h = refl
take-none (suc k) [] id h = refl
take-none (suc k) (x ∷ xs) id h = ground (arith, take-none k xs id)

take-HasDistinctIds : (k : ℕ) (xs : List Row) → HasDistinctIds xs → HasDistinctIds (take k xs)
take-HasDistinctIds zero xs h = tt
take-HasDistinctIds (suc k) [] h = tt
take-HasDistinctIds (suc k) (x ∷ xs) h = (take-none k xs x.id h.0, take-HasDistinctIds k xs h.1)

length-take_le : (k : ℕ) (xs : List Row) → length (take k xs) ≤ k
length-take_le zero xs = omega arith
length-take_le (suc k) [] = omega arith
length-take_le (suc k) (x ∷ xs) = omega (arith, length-take_le k xs)

take_full : (k : ℕ) (xs : List Row) → (length (take k xs) ≡ k) ⊎ (take k xs ≡ xs)
take_full zero xs = inl refl
take_full (suc k) [] = inr refl
take_full (suc k) (x ∷ xs) = elim (take_full k xs) [
  | inl e ↦ inl (ap suc e)
  | inr e ↦ inr (ap (λ ys. x ∷ ys) e)
]

pub found_rank :
    (b : ℕ) (xs : List Row) (id : ℕ) (r : Row)
    → All (λ x. rank x.saved_at ≤ b) xs
    → find_row xs id ≡ some r
    → rank r.saved_at ≤ b
found_rank b [] id r h e = absurd (cc)
found_rank b (x ∷ xs) id r h e = elim (Bool-cases (x.id == id)) [
  | inl y ↦ let same : x ≡ r = cc (y, e) in subst (λ (z : Row). rank z.saved_at ≤ b) same h.0
  | inr n ↦ found_rank b xs id r h.1 (ap (λ c. if c then some x else find_row xs id) (sym n) ∙ e)
]

-- A row that is not among the first ones is no newer than any of these.
take_newest :
    (k : ℕ) (xs : List Row) (id : ℕ) (r : Row)
    → IsNewestFirst xs
    → find_row xs id ≡ some r
    → find_row (take k xs) id ≡ none
    → All (λ x. rank r.saved_at ≤ rank x.saved_at) (take k xs)
take_newest zero xs id r h e f = tt
take_newest (suc k) [] id r h e f = tt
take_newest (suc k) (x ∷ xs) id r h e f = elim (Bool-cases (x.id == id)) [
  | inl y ↦ absurd (cc (y, f))
  | inr n ↦
      let e' = ap (λ c. if c then some x else find_row xs id) (sym n) ∙ e in
      let f' = ap (λ c. if c then some x else find_row (take k xs) id) (sym n) ∙ f in
      (found_rank (rank x.saved_at) xs id r h.0 e', take_newest k xs id r h.1 e' f')
]

in_room-outside_room : (room : RoomId) (o : Option Row) → in_room room (outside_room room o) ≡ none
in_room-outside_room room none = refl
in_room-outside_room room (some r) = ground arith

outside_room_twice :
    (room : RoomId) (o : Option Row) → outside_room room (outside_room room o) ≡ outside_room room o
outside_room_twice room none = refl
outside_room_twice room (some r) = ground arith

in_room-some : (room : RoomId) (o : Option Row) (r : Row) → in_room room o ≡ some r → o ≡ some r
in_room-some room none r e = absurd (cc)
in_room-some room (some x) r e = ground arith

pub listing-IsPruned :
    (t t' : Table) (room : RoomId) (keep : ℕ) (rows : List Row)
    → IsListing t room rows
    → ((id : ℕ) → t' id ≡ delete_but room (take keep rows) id (t id))
    → IsPruned t t' room keep (take keep rows)
listing-IsPruned t t' room keep rows l at = record {
  left = λ id. elim (Option-cases (find_row (take keep rows) id)) [
    | inl n ↦
        ap (in_room room) (at id ∙ rw (n, delete_but)) ∙ in_room-outside_room room (t id) ∙ sym n
    | inr (r, e) ↦
        ap (in_room room) (at id ∙ rw (e, delete_but))
        ∙ sym (l.holds id)
        ∙ take_row keep rows id r e
        ∙ sym e
  ];
  others = λ id. elim (Option-cases (find_row (take keep rows) id)) [
    | inl n ↦ ap (outside_room room) (at id ∙ rw (n, delete_but)) ∙ outside_room_twice room (t id)
    | inr (r, e) ↦ ap (outside_room room) (at id ∙ rw (e, delete_but))
  ];
  taken = λ id r e. in_room-some room (t id) r (sym (l.holds id) ∙ take_row keep rows id r e);
  newest = λ id r e f. take_newest keep rows id r l.newest_first (l.holds id ∙ e) f;
  few = length-take_le keep rows;
  full = elim (take_full keep rows) [
    | inl e ↦ inl e
    | inr e ↦ inr (λ id. sym (l.holds id) ∙ ap (λ xs. find_row xs id) (sym e))
  ];
  distinct = take-HasDistinctIds keep rows l.distinct;
}

-- A room of which every row is deleted.
pub empty-IsPruned :
    (t t' : Table) (room : RoomId) (keep : ℕ)
    → keep ≡ 0
    → ((id : ℕ) → t' id ≡ outside_room room (t id))
    → IsPruned t t' room keep []
empty-IsPruned t t' room keep z at = record {
  left = λ id. ap (in_room room) (at id) ∙ in_room-outside_room room (t id);
  others = λ id. ap (outside_room room) (at id) ∙ outside_room_twice room (t id);
  taken = λ id r e. absurd (cc);
  newest = λ id r e f. tt;
  few = omega arith;
  full = inl (sym z);
  distinct = tt;
}
