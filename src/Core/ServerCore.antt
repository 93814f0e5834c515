-- ===== src/Core/ServerCore.antt =====
-- core/src/server_core.cpp: the entry points of the server. A call takes the lock of its room once to
-- change it, and for a snapshot again: what is between is a state of its own, since others may run there.
-- Finding the room is no such point, as a room that is there stays.
pub mod Invariant
pub mod Space
pub mod Threads
pub mod Saving
pub mod Moments
pub mod Due
pub mod Returned
pub mod LastLeave
pub mod Answers
mod Tests
use clear_space.Prelude.{
  ℕ, Bool, true, false, Option, none, some, List, [], ◌∷◌, ◌++◌, ◌==◌, if◌then◌else◌,
}
use clear_space.Core.Types.{
  RoomId, ClientId, TimePoint, EventPayload, stroke_begin, stroke_point, stroke_end, cursor_move,
  clear, Error, room_not_found, Expected, value, error, RoomSnapshot, PersistedBoardSnapshot,
}
use clear_space.Core.Room.{
  Room, Events, Op, joins, leaves, applies, join, leave, apply, member_count,
  make_persisted_snapshot,
}
use clear_space.Core.RoomManager.{
  RoomManager, new_manager, create_room, get_room, put_room, object_at,
}

-- The server, and whether it was given a snapshot sink.
pub record ServerCore : Type 0 where
  pub rooms : RoomManager
  pub has_sink : Bool

pub new_core : Bool → ServerCore
new_core with_sink = record { rooms = new_manager; has_sink = with_sink }

-- ServerCore::createRoom
pub create : ServerCore → ServerCore × RoomId
create c = let (rooms, id) = create_room c.rooms in (record c { rooms = rooms }, id)

pub join_room : ServerCore → ClientId → RoomId → ServerCore × Expected RoomSnapshot Error
join_room c client room = elim (get_room c.rooms room) [
  | none ↦ (c, error room_not_found)
  | some p ↦
      let (r', snap) = join p.object client in
      (record c { rooms = put_room c.rooms p r' }, value snap)
]

-- What a call has still to do when its room has released the lock: `memberCount`, which takes the lock
-- again, and then `makePersistedSnapshot`, which does so too, of the room under a key; and `enqueue`.
pub data SavePiece : Type 0 where
  count : (room : RoomId) → SavePiece
  take_image : (room : RoomId) → SavePiece
  hand_over : (snapshot : PersistedBoardSnapshot) → SavePiece

-- Behind `leave`, with its result.
rest_of_leave : Bool → RoomId → Events → List SavePiece
rest_of_leave has_sink room (error e) = []
rest_of_leave has_sink room (value es) = if has_sink then count room ∷ [] else []

abbrev pub should_save : EventPayload → Bool
should_save stroke_end = true
should_save clear = true
should_save _ = false

-- Behind `apply`, with its result.
pub rest_of_event : Bool → RoomId → EventPayload → Events → List SavePiece
rest_of_event has_sink room ev (error e) = []
rest_of_event has_sink room ev (value es) =
    if has_sink then if should_save ev then take_image room ∷ [] else [] else []

-- One piece of that: what is left, and what is enqueued.
pub resume_save : RoomManager → SavePiece → List SavePiece × List PersistedBoardSnapshot
resume_save m (count room) = elim (object_at m room) [
  | none ↦ ([], [])
  | some r ↦ (if member_count r == 0 then take_image room ∷ [] else [], [])
]
resume_save m (take_image room) = elim (object_at m room) [
  | none ↦ ([], [])
  | some r ↦ (hand_over (make_persisted_snapshot r) ∷ [], [])
]
resume_save m (hand_over s) = ([], s ∷ [])

-- `leaveRoom` up to where the room releases its lock, and what it has then still to do.
pub leave_room : ServerCore → ClientId → RoomId → ServerCore × Events × List SavePiece
unfolding rest_of_leave
leave_room c client room = elim (get_room c.rooms room) [
  | none ↦ (c, error room_not_found, [])
  | some p ↦
      let (r', res) = leave p.object client in
      (record c { rooms = put_room c.rooms p r' }, res, rest_of_leave c.has_sink p.key res)
]

-- `handleEvent`, in the same way.
pub handle_event :
    ServerCore → TimePoint → ClientId → RoomId → EventPayload → ServerCore × Events × List SavePiece
unfolding rest_of_event
handle_event c now client room ev = elim (get_room c.rooms room) [
  | none ↦ (c, error room_not_found, [])
  | some p ↦
      let (r', res) = apply p.object now client ev in
      (record c { rooms = put_room c.rooms p r' }, res, rest_of_event c.has_sink p.key ev res)
]

-- The calls that the sessions make.
pub data Call : Type 0 where
  creates : Call
  on_room : (room : RoomId) (op : Op) → Call

abbrev events_only : Expected RoomSnapshot Error → Events
events_only (value s) = value []
events_only (error e) = error e

-- The server after a call, the events to send, and what is still to do.
pub serve : ServerCore → Call → ServerCore × Events × List SavePiece
serve c creates = ((create c).0, value [], [])
serve c (on_room room (joins client)) =
    let (c', res) = join_room c client room in (c', events_only res, [])
serve c (on_room room (leaves client)) = leave_room c client room
serve c (on_room room (applies now client ev)) = handle_event c now client room ev

pub serve_all : ServerCore → List Call → ServerCore
serve_all c [] = c
serve_all c (call ∷ rest) = serve_all (serve c call).0 rest
