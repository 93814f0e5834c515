-- ===== src/Core/Room/Presence.antt =====
-- What a room keeps for each client: `members_`, `board_.cursors`, `lastCursorUpdate_` and the keys of
-- `activeStrokeByClient_`.
use clear_space.Prelude.{ℕ, ◌≡◌, true, none, some, List, [], arith, ◌==◌, Bool-cases, inl, inr}
use clear_space.Prelude.Map.{Map, find, assign, erase, find-assign, find-erase, find-nil}
use clear_space.Prelude.Members.{
  contains, insert, remove, IsUnique, contains-insert, contains-remove, insert-IsUnique,
  remove-IsUnique,
}
use clear_space.Core.Types.{Point}

-- Only members have a cursor or an active stroke, and a cursor has the time of its last update.
pub record IsPresent (members : List ℕ) (cursors : Map Point) (last active : Map ℕ) : Type 0 where
  pub unique : IsUnique members
  pub cursor_member : (c : ℕ) (p : Point) → find cursors c ≡ some p → contains members c ≡ true
  pub timed : (c : ℕ) (p : Point) → find cursors c ≡ some p → (t : ℕ) × (find last c ≡ some t)
  pub placed : (c t : ℕ) → find last c ≡ some t → (p : Point) × (find cursors c ≡ some p)
  pub active_member : (c sid : ℕ) → find active c ≡ some sid → contains members c ≡ true

pub nil-IsPresent : IsPresent [] [] [] []
nil-IsPresent = record {
  unique = tt;
  cursor_member = λ c p h. absurd (cc (find-nil {V = Point} c));
  timed = λ c p h. absurd (cc (find-nil {V = Point} c));
  placed = λ c t h. absurd (cc (find-nil {V = ℕ} c));
  active_member = λ c sid h. absurd (cc (find-nil {V = ℕ} c));
}

module _ (members : List ℕ) (cursors : Map Point) (last active : Map ℕ)
    (v : IsPresent members cursors last active) where
  pub join-IsPresent : (client : ℕ) → IsPresent (insert members client) cursors last active
  join-IsPresent client = record {
    unique = insert-IsUnique members client v.unique;
    cursor_member =
        λ c p h. ground (arith, contains-insert members client c, v.cursor_member c p h);
    timed = v.timed;
    placed = v.placed;
    active_member =
        λ c sid h. ground (arith, contains-insert members client c, v.active_member c sid h);
  }

  pub begin-IsPresent :
      (client sid : ℕ)
      → contains members client ≡ true
      → IsPresent members cursors last (assign active client sid)
  begin-IsPresent client sid m = record {
    unique = v.unique;
    cursor_member = v.cursor_member;
    timed = v.timed;
    placed = v.placed;
    active_member =
        λ c sid' h. ground (arith, find-assign active client sid c, v.active_member c sid');
  }

  pub end-IsPresent : (client : ℕ) → IsPresent members cursors last (erase active client)
  end-IsPresent client = record {
    unique = v.unique;
    cursor_member = v.cursor_member;
    timed = v.timed;
    placed = v.placed;
    active_member = λ c sid h. ground (arith, find-erase active client c, v.active_member c sid);
  }

  pub clear-IsPresent : IsPresent members cursors last []
  clear-IsPresent = record {
    unique = v.unique;
    cursor_member = v.cursor_member;
    timed = v.timed;
    placed = v.placed;
    active_member = λ c sid h. absurd (cc (find-nil {V = ℕ} c));
  }

  pub move-IsPresent :
      (client now : ℕ) (p : Point)
      → contains members client ≡ true
      → IsPresent members (assign cursors client p) (assign last client now) active
  move-IsPresent client now p m = record {
    unique = v.unique;
    cursor_member = λ c q h. ground (arith, find-assign cursors client p c, v.cursor_member c q);
    timed = λ c q h. elim (Bool-cases (client == c)) [
      | inl hit ↦ (now, ground (arith, find-assign last client now c))
      | inr miss ↦
          let (t, e) = v.timed c q (ground (arith, find-assign cursors client p c)) in
          (t, ground (arith, find-assign last client now c))
    ];
    placed = λ c t h. elim (Bool-cases (client == c)) [
      | inl hit ↦ (p, ground (arith, find-assign cursors client p c))
      | inr miss ↦
          let (q, e) = v.placed c t (ground (arith, find-assign last client now c)) in
          (q, ground (arith, find-assign cursors client p c))
    ];
    active_member = v.active_member;
  }

  -- A client without an active stroke leaves.
  pub forget-IsPresent :
      (client : ℕ)
      → find active client ≡ none
      → IsPresent (remove members client) (erase cursors client) (erase last client) active
  forget-IsPresent client idle = record {
    unique = remove-IsUnique members client v.unique;
    cursor_member = λ c p h.
        ground (
          arith,
          find-erase cursors client c,
          contains-remove members client c,
          v.cursor_member c p,
        );
    timed = λ c p h.
        let old : find cursors c ≡ some p = ground (arith, find-erase cursors client c) in
        let (t, e) = v.timed c p old in
        (t, ground (arith, find-erase cursors client c, find-erase last client c));
    placed = λ c t h.
        let old : find last c ≡ some t = ground (arith, find-erase last client c) in
        let (p, e) = v.placed c t old in
        (p, ground (arith, find-erase cursors client c, find-erase last client c));
    active_member =
        λ c sid h. ground (arith, contains-remove members client c, v.active_member c sid h);
  }
