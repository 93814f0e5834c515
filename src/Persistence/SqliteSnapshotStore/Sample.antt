-- ===== src/Persistence/SqliteSnapshotStore/Sample.antt =====
-- A small database that behaves as Persistence.SqliteSnapshotStore.Table asks of SQLite. Deleted rows
-- leave their places empty, so ids are never used again.
use clear_space.Prelude.{
  ℕ, suc, ◌+◌, ◌<◌, ◌≡◌, refl, sym, ap, ◌∙◌, inl, inr, Bool, true, false, Option, none, some, List,
  [], ◌∷◌, ◌++◌, length, Bool-cases, Option-cases, arith, ◌==◌, ==→eq, if◌then◌else◌,
}
use clear_space.Core.Types.{RoomId, Seq}
use clear_space.Persistence.SqliteSnapshotStore.Table.{Row, find_row, delete_but, HasDistinctIds}

pub record Entry : Type 0 where
  pub room : RoomId
  pub saved_at : ℕ
  pub last_seq : Seq
  pub data_bytes : List ℕ

abbrev pub row_at : ℕ → Entry → Row
row_at id e = record {
  id = id;
  room = e.room;
  saved_at = e.saved_at;
  last_seq = e.last_seq;
  data_bytes = e.data_bytes;
}

-- The rows of the places from `k` on.
unfoldable pub entries : ℕ → List (Option Entry) → List Row
entries k [] = []
entries k (none ∷ d) = entries (suc k) d
entries k (some e ∷ d) = row_at k e ∷ entries (suc k) d

pub find_row_id : (xs : List Row) (id : ℕ) (r : Row) → find_row xs id ≡ some r → r.id ≡ id
find_row_id [] id r h = absurd (cc)
find_row_id (x ∷ xs) id r h = ground (arith, find_row_id xs id r)

entries_below :
    (k : ℕ) (d : List (Option Entry)) (id : ℕ) → id < k → find_row (entries k d) id ≡ none
unfolding entries
entries_below k [] id h = refl
entries_below k (none ∷ d) id h = entries_below (suc k) d id (omega arith)
entries_below k (some e ∷ d) id h = ground (arith, entries_below (suc k) d id)

pub entries-HasDistinctIds : (k : ℕ) (d : List (Option Entry)) → HasDistinctIds (entries k d)
unfolding entries
entries-HasDistinctIds k [] = tt
entries-HasDistinctIds k (none ∷ d) = entries-HasDistinctIds (suc k) d
entries-HasDistinctIds k (some e ∷ d) =
    (entries_below (suc k) d k (omega arith), entries-HasDistinctIds (suc k) d)

pub entries_fresh :
    (k : ℕ) (d : List (Option Entry)) (n : ℕ) → n ≡ length d + k → find_row (entries k d) n ≡ none
unfolding entries
entries_fresh k [] n e = refl
entries_fresh k (none ∷ d) n e = entries_fresh (suc k) d n (omega (arith, e))
entries_fresh k (some x ∷ d) n e = ground (arith, entries_fresh (suc k) d n)

pub entries-snoc :
    (k : ℕ) (d : List (Option Entry)) (e : Entry) (n id : ℕ)
    → n ≡ length d + k
    → find_row (entries k (d ++ (some e ∷ []))) id
      ≡ (if n == id then some (row_at n e) else find_row (entries k d) id)
unfolding entries
entries-snoc k [] e n id h = let same : k ≡ n = omega (arith, h) in rw (same)
entries-snoc k (none ∷ d) e n id h = entries-snoc (suc k) d e n id (omega (arith, h))
entries-snoc k (some x ∷ d) e n id h = ground (arith, entries-snoc (suc k) d e n id)

unfoldable pub drop_but : RoomId → List Row → ℕ → List (Option Entry) → List (Option Entry)
drop_but room kept k [] = []
drop_but room kept k (none ∷ d) = none ∷ drop_but room kept (suc k) d
drop_but room kept k (some e ∷ d) =
    elim (delete_but room kept k (some (row_at k e))) [ none ↦ none | some _ ↦ some e ]
    ∷ drop_but room kept (suc k) d

-- A row in front that the deletion `f` leaves, and one that it takes.
stays :
    (b : Bool) (x : Row) (l m : Option Row) (f : Option Row → Option Row)
    → (b ≡ true → f (some x) ≡ some x)
    → l ≡ f m
    → (if b then some x else l) ≡ f (if b then some x else m)
stays true x l m f h e = sym (h refl)
stays false x l m f h e = e

goes :
    (b : Bool) (x : Row) (l m : Option Row) (f : Option Row → Option Row)
    → (b ≡ true → (l ≡ none) × (f (some x) ≡ none))
    → l ≡ f m
    → l ≡ f (if b then some x else m)
goes true x l m f h e = (h refl).0 ∙ sym (h refl).1
goes false x l m f h e = e

pub entries-drop_but :
    (room : RoomId) (kept : List Row) (k : ℕ) (d : List (Option Entry)) (id : ℕ)
    → find_row (entries k (drop_but room kept k d)) id
      ≡ delete_but room kept id (find_row (entries k d) id)
unfolding entries drop_but
entries-drop_but room kept k [] id = none_left (find_row kept id)
  where
    none_left :
        (o : Option Row) → ◌≡◌ {A = Option Row} none (elim o [ none ↦ none | some _ ↦ none ])
    none_left none = refl
    none_left (some r) = refl
entries-drop_but room kept k (none ∷ d) id = entries-drop_but room kept (suc k) d id
entries-drop_but room kept k (some e ∷ d) id =
    let later = entries-drop_but room kept (suc k) d id in
    elim (Option-cases (find_row kept k)) [
      | inr (r, f) ↦ rw (f) (
          stays (k == id) (row_at k e) _ _ (delete_but room kept id)
            (λ y.
              let same : find_row kept id ≡ some r = ap (find_row kept) (sym (==→eq k id y)) ∙ f in
              rw (same, delete_but))
            later)
      | inl f ↦ elim (Bool-cases (e.room == room)) [
        | inl in_it ↦
            rw (f, in_it)
              (goes (k == id) (row_at k e) _ _ (delete_but room kept id)
                (λ y.
                  let same : find_row kept id ≡ none =
                    ap (find_row kept) (sym (==→eq k id y)) ∙ f in
                  (
                    entries_below (suc k) (drop_but room kept (suc k) d) id (ground arith),
                    rw (same, delete_but, in_it),
                  ))
                later)
        | inr out ↦
            rw (f, out)
              (stays (k == id) (row_at k e) _ _ (delete_but room kept id)
                (λ y.
                  let same : find_row kept id ≡ none =
                    ap (find_row kept) (sym (==→eq k id y)) ∙ f in
                  rw (same, delete_but, out))
                later)
      ]
    ]
