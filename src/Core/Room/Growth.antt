-- ===== src/Core/Room/Growth.antt =====
-- No operation of core/src/room.cpp takes a number of the sequence back.
use clear_space.Prelude.{ℕ, ◌+◌, ◌≤◌, Option, none, some, arith, incr64-eq}
use clear_space.Prelude.Map.{find}
use clear_space.Core.Types.{
  ClientId, TimePoint, EventPayload, stroke_begin, stroke_point, stroke_end, cursor_move, clear,
}
use clear_space.Core.Room.{
  Room, Op, joins, leaves, applies, end_active, forget, join, leave, apply_stroke_begin,
  apply_stroke_point, apply_stroke_end, apply_cursor_move, apply_clear, apply_event, apply,
  ensure_member, step,
}
use clear_space.Core.Room.Invariant.{HasRoom}

event_grows :
    (r : Room) (now : TimePoint) (client : ClientId) (ev : EventPayload)
    → HasRoom r 1
    → r.next_seq ≤ (apply_event r now client ev).0.next_seq
unfolding apply_event
event_grows r now client (stroke_begin c t p) h =
    unfold apply_stroke_begin in ground (arith, incr64-eq r.next_seq)
event_grows r now client (stroke_point p) h =
    unfold apply_stroke_point in ground (arith, incr64-eq r.next_seq)
event_grows r now client stroke_end h =
    unfold apply_stroke_end in ground (arith, incr64-eq r.next_seq)
event_grows r now client (cursor_move p) h =
    unfold apply_cursor_move in ground (arith, incr64-eq r.next_seq)
event_grows r now client clear h = unfold apply_clear in ground (arith, incr64-eq r.next_seq)

ended_grows :
    (r : Room) (client : ClientId) (o : Option ℕ)
    → HasRoom r 1
    → (r.next_seq ≤ (end_active r client o).0.next_seq)
      × ((end_active r client o).0.next_seq ≤ r.next_seq + 1)
unfolding end_active
ended_grows r client none h = (omega arith, omega arith)
ended_grows r client (some sid) h =
    (omega (arith, incr64-eq r.next_seq h), omega (arith, incr64-eq r.next_seq h))

leave_grows :
    (r : Room) (client : ClientId) → HasRoom r 2 → r.next_seq ≤ (leave r client).0.next_seq
unfolding leave forget
leave_grows r client h =
    let ended = end_active r client (find r.active_stroke_by_client client) in
    ground (
      arith,
      ended_grows r client (find r.active_stroke_by_client client) (omega arith),
      incr64-eq ended.0.next_seq,
    )

pub step_grows : (r : Room) (op : Op) → HasRoom r 2 → r.next_seq ≤ (step r op).0.next_seq
unfolding step
step_grows r (joins client) h = unfold join in omega arith
step_grows r (leaves client) h = leave_grows r client h
step_grows r (applies now client ev) h =
    unfold apply ensure_member in ground (arith, event_grows r now client ev (omega arith))
