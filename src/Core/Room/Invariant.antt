-- ===== src/Core/Room/Invariant.antt =====
-- The invariant of a room, and that each operation of room.cpp keeps it.
use clear_space.Prelude.{
  ℕ, ◌+◌, ◌≤◌, ◌<◌, ◌≡◌, refl, inl, inr, true, some, arith, modify, Bool-cases, Option-cases,
  u64_mod, incr64-eq,
}
use clear_space.Prelude.Map.{find, erase}
use clear_space.Prelude.Members.{contains}
use clear_space.Core.Types.{
  RoomId, ClientId, TimePoint, Point, Color, Thickness, EventPayload, stroke_begin, stroke_point,
  stroke_end, cursor_move, clear,
}
use clear_space.Core.Room.{
  Room, new_room, finish, add_point, join, apply_stroke_begin, apply_stroke_point, apply_stroke_end,
  apply_cursor_move, apply_clear, apply_event, with_strokes, too_soon, apply, ensure_member,
}
use clear_space.Core.Room.Index.{IsIndexed, nil-IsIndexed, snoc-IsIndexed, modify-IsIndexed}
use clear_space.Core.Room.Active.{
  IsActive, nil-IsActive, begin-IsActive, modify-IsActive, end-IsActive,
}
use clear_space.Core.Room.Order.{
  IsOrdered, nil-IsOrdered, later-IsOrdered, snoc-IsOrdered, modify-IsOrdered,
}
use clear_space.Core.Room.Presence.{
  IsPresent, nil-IsPresent, join-IsPresent, begin-IsPresent, end-IsPresent, clear-IsPresent,
  move-IsPresent,
}

pub record Inv (r : Room) : Type 0 where
  pub indexed : IsIndexed r.board.strokes r.stroke_index_by_id r.next_stroke_id
  pub active : IsActive r.board.strokes r.stroke_index_by_id r.active_stroke_by_client
  pub ordered : IsOrdered r.board.strokes r.next_seq
  pub present : IsPresent r.members r.board.cursors r.last_cursor_update r.active_stroke_by_client
  pub started : 0 < r.next_seq
  pub ids_behind : r.next_stroke_id ≤ r.next_seq

-- The sequence counter does not wrap within `k` more events.
abbrev pub HasRoom : Room → ℕ → Type 0
HasRoom r k = r.next_seq + k < u64_mod

pub new_room-Inv : (id : RoomId) → Inv (new_room id)
unfolding new_room
new_room-Inv id = record {
  indexed = nil-IsIndexed 1;
  active = nil-IsActive;
  ordered = nil-IsOrdered 1;
  present = nil-IsPresent;
  started = omega arith;
  ids_behind = omega arith;
}

pub new_room-HasRoom : (id : RoomId) (k : ℕ) → k + 1 < u64_mod → HasRoom (new_room id) k
unfolding new_room
new_room-HasRoom id k h = omega arith

pub join-Inv : (r : Room) (client : ClientId) → Inv r → Inv (join r client).0
unfolding join
join-Inv r client v = record {
  indexed = v.indexed;
  active = v.active;
  ordered = v.ordered;
  present = join-IsPresent _ _ _ _ v.present client;
  started = v.started;
  ids_behind = v.ids_behind;
}

-- The stroke that the index gives for an active stroke.
pub active_indexed :
    (r : Room) (client sid : ℕ)
    → Inv r
    → find r.active_stroke_by_client client ≡ some sid
    → (i : ℕ) × (find r.stroke_index_by_id sid ≡ some i)
active_indexed r client sid v h = let o = v.active.opened client sid h in (o.0, o.2)

-- A client's active stroke is finished, and a number of the sequence is used up.
pub finished_Inv :
    (r : Room) (client sid i : ℕ)
    → Inv r
    → find r.active_stroke_by_client client ≡ some sid
    → find r.stroke_index_by_id sid ≡ some i
    → Inv (record r {
      board = with_strokes r.board (modify r.board.strokes i finish);
      active_stroke_by_client = erase r.active_stroke_by_client client;
      next_seq = r.next_seq + 1;
    })
finished_Inv r client sid i v e ei = record {
  indexed = modify-IsIndexed _ _ _ v.indexed i finish (λ s. refl);
  active = end-IsActive _ _ _ _ v.indexed v.active client sid i e ei;
  ordered =
      later-IsOrdered _ _ (modify-IsOrdered _ _ v.ordered i finish (λ s. refl) (λ s. refl)) _
        (omega arith);
  present = end-IsPresent _ _ _ _ v.present client;
  started = omega arith;
  ids_behind = omega (arith, v.ids_behind);
}

module _ (r : Room) (client : ClientId) (v : Inv r) (h : HasRoom r 1)
    (m : contains r.members client ≡ true) where
  begin-Inv : (c : Color) (t : Thickness) (p : Point) → Inv (apply_stroke_begin r client c t p).0
  unfolding apply_stroke_begin
  begin-Inv c t p = elim (Option-cases (find r.active_stroke_by_client client)) [
    | inr (sid, e) ↦ rw (e, apply_stroke_begin) v
    | inl e ↦
        rw
          (
            e,
            apply_stroke_begin,
            incr64-eq r.next_seq h,
            incr64-eq r.next_stroke_id (omega (arith, v.ids_behind)),
          )
          (record {
            indexed = snoc-IsIndexed _ _ _ v.indexed _ refl;
            active = begin-IsActive _ _ _ _ v.indexed v.active client _ e refl refl refl;
            ordered = snoc-IsOrdered _ _ v.ordered _ _ _ v.indexed refl refl;
            present = begin-IsPresent _ _ _ _ v.present client _ m;
            started = omega arith;
            ids_behind = omega (arith, v.ids_behind);
          })
  ]

  point-Inv : (p : Point) → Inv (apply_stroke_point r client p).0
  unfolding apply_stroke_point
  point-Inv p = elim (Option-cases (find r.active_stroke_by_client client)) [
    | inl e ↦ rw (e, apply_stroke_point) v
    | inr (sid, e) ↦
        let (i, ei) = active_indexed r client sid v e in
        rw (e, ei, apply_stroke_point, incr64-eq r.next_seq h)
          (record {
            indexed = modify-IsIndexed _ _ _ v.indexed i (add_point p) (λ s. refl);
            active =
                modify-IsActive _ _ _ _ v.indexed v.active i (add_point p) (λ s. refl) (λ s. refl)
                  (λ s. refl);
            ordered =
                later-IsOrdered _ _
                  (modify-IsOrdered _ _ v.ordered i (add_point p) (λ s. refl) (λ s. refl)) _
                  (omega arith);
            present = v.present;
            started = omega arith;
            ids_behind = omega (arith, v.ids_behind);
          })
  ]

  end-Inv : Inv (apply_stroke_end r client).0
  unfolding apply_stroke_end
  end-Inv = elim (Option-cases (find r.active_stroke_by_client client)) [
    | inl e ↦ rw (e, apply_stroke_end) v
    | inr (sid, e) ↦
        let (i, ei) = active_indexed r client sid v e in
        rw (e, ei, apply_stroke_end, incr64-eq r.next_seq h) (finished_Inv r client sid i v e ei)
  ]

  move-Inv : (now : TimePoint) (p : Point) → Inv (apply_cursor_move r now client p).0
  unfolding apply_cursor_move
  move-Inv now p = elim (Bool-cases (too_soon now (find r.last_cursor_update client))) [
    | inl e ↦ rw e v
    | inr e ↦
        rw (e, incr64-eq r.next_seq h)
          (record {
            indexed = v.indexed;
            active = v.active;
            ordered = later-IsOrdered _ _ v.ordered _ (omega arith);
            present = move-IsPresent _ _ _ _ v.present client now p m;
            started = omega arith;
            ids_behind = omega (arith, v.ids_behind);
          })
  ]

  clear-Inv : Inv (apply_clear r client).0
  unfolding apply_clear
  clear-Inv = rw (incr64-eq r.next_seq h) (record {
    indexed = nil-IsIndexed _;
    active = nil-IsActive;
    ordered = nil-IsOrdered _;
    present = clear-IsPresent _ _ _ _ v.present;
    started = omega arith;
    ids_behind = omega (arith, v.ids_behind);
  })

  event-Inv : (now : TimePoint) (ev : EventPayload) → Inv (apply_event r now client ev).0
  unfolding apply_event
  event-Inv now (stroke_begin c t p) = begin-Inv c t p
  event-Inv now (stroke_point p) = point-Inv p
  event-Inv now stroke_end = end-Inv
  event-Inv now (cursor_move p) = move-Inv now p
  event-Inv now clear = clear-Inv

pub apply-Inv :
    (r : Room) (now : TimePoint) (client : ClientId) (ev : EventPayload)
    → Inv r
    → HasRoom r 1
    → Inv (apply r now client ev).0
unfolding apply ensure_member
apply-Inv r now client ev v h = elim (Bool-cases (contains r.members client)) [
  | inl m ↦ rw (m, apply) (event-Inv r client v h m now ev)
  | inr m ↦ rw (m, apply) v
]
