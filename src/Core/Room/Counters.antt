-- ===== src/Core/Room/Counters.antt =====
-- How far one operation of core/src/room.cpp moves the counters of a room, and what follows for runs.
use clear_space.Prelude.{
  ℕ, ◌+◌, ◌*◌, ◌≤◌, ◌<◌, ◌≡◌, refl, Option, none, some, List, [], ◌∷◌, arith, length, u64_mod,
  incr64-eq,
}
use clear_space.Prelude.Map.{find}
use clear_space.Core.Types.{
  RoomId, ClientId, TimePoint, EventPayload, stroke_begin, stroke_point, stroke_end, cursor_move,
  clear,
}
use clear_space.Core.Room.{
  Room, Op, joins, leaves, applies, new_room, end_active, forget, join, leave, apply_stroke_begin,
  apply_stroke_point, apply_stroke_end, apply_cursor_move, apply_clear, apply_event, apply,
  ensure_member, step, run,
}
use clear_space.Core.Room.Invariant.{Inv, HasRoom, new_room-Inv}
use clear_space.Core.Room.Preservation.{step-Inv}

event_seq :
    (r : Room) (now : TimePoint) (client : ClientId) (ev : EventPayload)
    → HasRoom r 1
    → (apply_event r now client ev).0.next_seq ≤ r.next_seq + 1
unfolding apply_event
event_seq r now client (stroke_begin c t p) h =
    unfold apply_stroke_begin in ground (arith, incr64-eq r.next_seq)
event_seq r now client (stroke_point p) h =
    unfold apply_stroke_point in ground (arith, incr64-eq r.next_seq)
event_seq r now client stroke_end h =
    unfold apply_stroke_end in ground (arith, incr64-eq r.next_seq)
event_seq r now client (cursor_move p) h =
    unfold apply_cursor_move in ground (arith, incr64-eq r.next_seq)
event_seq r now client clear h = unfold apply_clear in ground (arith, incr64-eq r.next_seq)

ended_seq :
    (r : Room) (client : ClientId) (o : Option ℕ)
    → HasRoom r 1
    → (end_active r client o).0.next_seq ≤ r.next_seq + 1
unfolding end_active
ended_seq r client none h = omega arith
ended_seq r client (some sid) h = omega (arith, incr64-eq r.next_seq h)

leave_seq :
    (r : Room) (client : ClientId) → HasRoom r 2 → (leave r client).0.next_seq ≤ r.next_seq + 2
unfolding leave forget
leave_seq r client h =
    let ended = end_active r client (find r.active_stroke_by_client client) in
    ground (
      arith,
      ended_seq r client (find r.active_stroke_by_client client) (omega arith),
      incr64-eq ended.0.next_seq,
    )

-- An operation uses up two numbers of the sequence at most.
pub step_seq : (r : Room) (op : Op) (k : ℕ) → HasRoom r (k + 2) → HasRoom (step r op).0 k
unfolding step
step_seq r (joins client) k h = unfold join in omega arith
step_seq r (leaves client) k h = omega (arith, leave_seq r client (omega arith))
step_seq r (applies now client ev) k h =
    unfold apply ensure_member in ground (arith, event_seq r now client ev (omega arith))

pub run_seq :
    (r : Room) (ops : List Op) (k : ℕ) → HasRoom r (2 * length ops + k) → HasRoom (run r ops) k
unfolding run
run_seq r [] k h = omega arith
run_seq r (op ∷ ops) k h =
    run_seq (step r op).0 ops k (step_seq r op (2 * length ops + k) (omega arith))

-- Whatever the clients do, in whatever order, a new room keeps the invariant, as long as the
-- sequence counter does not wrap.
run-Inv : (r : Room) (ops : List Op) → Inv r → HasRoom r (2 * length ops) → Inv (run r ops)
unfolding run
run-Inv r [] v h = v
run-Inv r (op ∷ ops) v h =
    run-Inv (step r op).0 ops (step-Inv r op v (omega arith))
      (step_seq r op (2 * length ops) (omega arith))

pub run-new_room-Inv :
    (id : RoomId) (ops : List Op) → 2 * length ops + 1 < u64_mod → Inv (run (new_room id) ops)
unfolding new_room
run-new_room-Inv id ops h = run-Inv _ ops (new_room-Inv id) (omega arith)

event_id :
    (r : Room) (now : TimePoint) (client : ClientId) (ev : EventPayload)
    → (apply_event r now client ev).0.id ≡ r.id
unfolding apply_event
event_id r now client (stroke_begin c t p) = unfold apply_stroke_begin in ground arith
event_id r now client (stroke_point p) = unfold apply_stroke_point in ground arith
event_id r now client stroke_end = unfold apply_stroke_end in ground arith
event_id r now client (cursor_move p) = unfold apply_cursor_move in ground arith
event_id r now client clear = unfold apply_clear in ground arith

ended_id : (r : Room) (client : ClientId) (o : Option ℕ) → (end_active r client o).0.id ≡ r.id
unfolding end_active
ended_id r client none = refl
ended_id r client (some sid) = refl

-- A room keeps its id.
pub step_id : (r : Room) (op : Op) → (step r op).0.id ≡ r.id
unfolding step
step_id r (joins client) = unfold join in refl
step_id r (leaves client) =
    unfold leave forget in ground (arith, ended_id r client (find r.active_stroke_by_client client))
step_id r (applies now client ev) =
    unfold apply ensure_member in ground (arith, event_id r now client ev)
