-- ===== src/Core/RoomManager.antt =====
-- core/src/room_manager.cpp: the rooms by their ids. A room is made for one key and is never taken out, so
-- the key stands for the object: a pointer is a key. A change through a pointer is one of the room that
-- the pointer is to, whatever room was asked for.
use clear_space.Prelude.{◌≡◌, refl, ap, Option, none, some, [], ◌==◌, if◌then◌else◌, incr64}
use clear_space.Prelude.Map.{Map, find, assign, find-assign, find-nil}
use clear_space.Core.Types.{RoomId}
use clear_space.Core.Room.{Room, new_room}

pub record RoomManager : Type 0 where
  pub rooms : Map Room
  pub next_room_id : RoomId

pub new_manager : RoomManager
new_manager = record { rooms = []; next_room_id = 1 }

pub create_room : RoomManager → RoomManager × RoomId
create_room m = (
  record {
    rooms = assign m.rooms m.next_room_id (new_room m.next_room_id);
    next_room_id = incr64 m.next_room_id;
  },
  m.next_room_id,
)

-- A pointer to a room: the key of the object, and the object as it is.
pub record RoomPtr : Type 0 where
  pub key : RoomId
  pub object : Room

-- The object of a key.
pub object_at : RoomManager → RoomId → Option Room
object_at m key = find m.rooms key

abbrev point_to : RoomId → Option Room → Option RoomPtr
point_to key none = none
point_to key (some r) = some (record { key = key; object = r })

pub get_room : RoomManager → RoomId → Option RoomPtr
unfolding object_at
get_room m room = point_to room (object_at m room)

-- The object of a pointer changes.
pub put_room : RoomManager → RoomPtr → Room → RoomManager
put_room m p r = record m { rooms = assign m.rooms p.key r }

pub get_room-some :
    (m : RoomManager) (a : RoomId) (r : Room)
    → object_at m a ≡ some r
    → get_room m a ≡ some (record { key = a; object = r })
unfolding get_room
get_room-some m a r e = ap (point_to a) e

pub get_room-none : (m : RoomManager) (a : RoomId) → object_at m a ≡ none → get_room m a ≡ none
unfolding get_room
get_room-none m a e = ap (point_to a) e

pub object_at-put_room :
    (m : RoomManager) (p : RoomPtr) (b : RoomId) (r : Room)
    → object_at (put_room m p r) b ≡ (if p.key == b then some r else object_at m b)
unfolding object_at put_room
object_at-put_room m p b r = find-assign m.rooms p.key r b

pub object_at-create_room :
    (m : RoomManager) (b : RoomId)
    → object_at (create_room m).0 b
      ≡ (if m.next_room_id == b then some (new_room m.next_room_id) else object_at m b)
unfolding object_at create_room
object_at-create_room m b = find-assign m.rooms m.next_room_id (new_room m.next_room_id) b

pub object_at-new_manager : (b : RoomId) → object_at new_manager b ≡ none
unfolding object_at new_manager
object_at-new_manager b = find-nil {V = Room} b

pub create_room_id :
    (m : RoomManager)
    → ((create_room m).1 ≡ m.next_room_id)
      × ((create_room m).0.next_room_id ≡ incr64 m.next_room_id)
unfolding create_room
create_room_id m = (refl, refl)

pub put_room_id :
    (m : RoomManager) (p : RoomPtr) (r : Room) → (put_room m p r).next_room_id ≡ m.next_room_id
unfolding put_room
put_room_id m p r = refl

pub new_manager_id : new_manager.next_room_id ≡ 1
unfolding new_manager
new_manager_id = refl
