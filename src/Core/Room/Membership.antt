-- ===== src/Core/Room/Membership.antt =====
-- Who is a member after an operation of core/src/room.cpp.
use clear_space.Prelude.{
  ◌++◌, List, [], ℕ, ◌≡◌, refl, ap, Bool, true, false, Option, none, some, inl, inr, Bool-cases,
  Option-cases, ◌==◌, if◌then◌else◌, arith,
}
use clear_space.Prelude.Map.{find}
use clear_space.Prelude.Members.{contains, contains-insert, contains-remove}
use clear_space.Core.Types.{
  member_left_out, clear_out, OutgoingEvent, value, RoomId, ClientId, TimePoint, EventPayload,
  stroke_begin, stroke_point, stroke_end, cursor_move, clear,
}
use clear_space.Core.Room.{
  broadcast, new_room, Room, Op, joins, leaves, applies, join, leave, apply, apply_event,
  ensure_member, apply_stroke_begin, apply_stroke_point, apply_stroke_end, apply_cursor_move,
  apply_clear, too_soon, step, forget, end_active,
}

event_members :
    (r : Room) (now : TimePoint) (client : ClientId) (ev : EventPayload)
    → (apply_event r now client ev).0.members ≡ r.members
unfolding apply_event apply_stroke_begin apply_stroke_point apply_stroke_end apply_cursor_move
    apply_clear
event_members r now client (stroke_begin color thickness start) =
    elim (Option-cases (find r.active_stroke_by_client client)) [
      | inl e ↦ rw (e, apply_stroke_begin)
      | inr (w, e) ↦ rw (e, apply_stroke_begin)
    ]
event_members r now client (stroke_point p) =
    elim (Option-cases (find r.active_stroke_by_client client)) [
      | inl e ↦ rw (e, apply_stroke_point)
      | inr (sid, e) ↦ elim (Option-cases (find r.stroke_index_by_id sid)) [
        | inl f ↦ rw (e, f, apply_stroke_point)
        | inr (i, f) ↦ rw (e, f, apply_stroke_point)
      ]
    ]
event_members r now client stroke_end =
    elim (Option-cases (find r.active_stroke_by_client client)) [
      | inl e ↦ rw (e, apply_stroke_end)
      | inr (sid, e) ↦ elim (Option-cases (find r.stroke_index_by_id sid)) [
        | inl f ↦ rw (e, f, apply_stroke_end)
        | inr (i, f) ↦ rw (e, f, apply_stroke_end)
      ]
    ]
event_members r now client (cursor_move p) =
    elim (Bool-cases (too_soon now (find r.last_cursor_update client))) [
      | inl e ↦ rw (e, apply_cursor_move)
      | inr e ↦ rw (e, apply_cursor_move)
    ]
event_members r now client clear = refl

apply_members :
    (r : Room) (now : TimePoint) (client : ClientId) (ev : EventPayload)
    → (apply r now client ev).0.members ≡ r.members
unfolding apply ensure_member
apply_members r now client ev = elim (Bool-cases (contains r.members client)) [
  | inl m ↦ rw (m, apply) (event_members r now client ev)
  | inr m ↦ rw (m, apply)
]

ended_same :
    (r : Room) (client : ClientId) (o : Option ℕ) → (end_active r client o).0.members ≡ r.members
unfolding end_active
ended_same r client none = refl
ended_same r client (some sid) = refl

leave_member :
    (r : Room) (client c : ClientId)
    → contains (leave r client).0.members c ≡ (if client == c then false else contains r.members c)
unfolding leave forget
leave_member r client c =
    let r1 = (end_active r client (find r.active_stroke_by_client client)).0 in
    let same : contains r1.members c ≡ contains r.members c =
      ap (λ xs. contains xs c) (ended_same r client (find r.active_stroke_by_client client)) in
    elim (Bool-cases (contains r.members client)) [
      | inl m ↦ rw (m) (ground (arith, contains-remove r1.members client c, same))
      | inr m ↦ rw (m) (ground (arith, m))
    ]

-- Membership after an operation: a join adds the client, a leave removes it, nothing else changes it.
abbrev pub member_after : Op → ClientId → Bool → Bool
member_after (joins client) c was = if client == c then true else was
member_after (leaves client) c was = if client == c then false else was
member_after (applies now client ev) c was = was

pub step_member :
    (r : Room) (op : Op) (c : ClientId)
    → contains (step r op).0.members c ≡ member_after op c (contains r.members c)
unfolding step join
step_member r (joins client) c = contains-insert r.members client c
step_member r (leaves client) c = leave_member r client c
step_member r (applies now client ev) c = ap (λ xs. contains xs c) (apply_members r now client ev)

-- A member can leave.
pub leave_member-value :
    (r : Room) (client : ClientId)
    → contains r.members client ≡ true
    → (es : List OutgoingEvent) × ((leave r client).1 ≡ value es)
unfolding leave
leave_member-value r client m =
    let ended = end_active r client (find r.active_stroke_by_client client) in
    let r' = forget ended.0 client in
    (ended.1 ++ broadcast r' client r'.next_seq (member_left_out client), rw (m, leave))

-- A member can clear the board.
pub clear_member-value :
    (r : Room) (now : TimePoint) (client : ClientId)
    → contains r.members client ≡ true
    → (es : List OutgoingEvent) × ((apply r now client clear).1 ≡ value es)
unfolding apply ensure_member apply_event apply_clear
clear_member-value r now client m =
    (broadcast r client r.next_seq (clear_out client), rw (m, apply))

pub new_room_members : (id : RoomId) → (new_room id).members ≡ []
unfolding new_room
new_room_members id = refl
