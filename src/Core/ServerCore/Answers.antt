-- ===== src/Core/ServerCore/Answers.antt =====
-- When the calls of core/src/server_core.cpp succeed, and the state they leave.
use clear_space.Prelude.{◌⊎◌, ◌≡◌, refl, ap, ◌∙◌, Bool, true, false, none, some, List, inl, inr}
use clear_space.Prelude.Members.{contains-nil, contains}
use clear_space.Core.Types.{
  RoomId, ClientId, TimePoint, EventPayload, OutgoingEvent, room_not_found, value, error,
}
use clear_space.Core.Room.{Room, joins, leaves, applies, join}
use clear_space.Core.RoomManager.{
  get_room-some, get_room-none, create_room_id, object_at-new_manager,
}
use clear_space.Core.ServerCore.{
  create, ServerCore, creates, new_core, on_room, join_room, leave_room, handle_event, serve,
}
use clear_space.Core.Room.Membership.{leave_member-value, new_room_members}
use clear_space.Core.ServerCore.Invariant.{created_cases, room_of}

pub serve-joins :
    (c : ServerCore) (a : RoomId) (client : ClientId)
    → (serve c (on_room a (joins client))).0 ≡ (join_room c client a).0
unfolding serve
serve-joins c a client = refl

pub serve-leaves :
    (c : ServerCore) (a : RoomId) (client : ClientId)
    → (serve c (on_room a (leaves client))).0 ≡ (leave_room c client a).0
unfolding serve
serve-leaves c a client = refl

pub serve-applies :
    (c : ServerCore) (a : RoomId) (now : TimePoint) (client : ClientId) (ev : EventPayload)
    → (serve c (on_room a (applies now client ev))).0 ≡ (handle_event c now client a ev).0
unfolding serve
serve-applies c a now client ev = refl

pub join_room_absent :
    (c : ServerCore) (client : ClientId) (a : RoomId)
    → room_of c a ≡ none
    → join_room c client a ≡ (c, error room_not_found)
unfolding join_room
join_room_absent c client a e = rw (get_room-none c.rooms a e, join_room)

pub join_room_present :
    (c : ServerCore) (client : ClientId) (a : RoomId) (r : Room)
    → room_of c a ≡ some r
    → (join_room c client a).1 ≡ value (join r client).1
unfolding join_room
join_room_present c client a r e = rw (get_room-some c.rooms a r e, join_room)

pub leave_room_member :
    (c : ServerCore) (client : ClientId) (a : RoomId) (r : Room)
    → room_of c a ≡ some r
    → contains r.members client ≡ true
    → (es : List OutgoingEvent) × ((leave_room c client a).1 ≡ value es)
unfolding leave_room
leave_room_member c client a r e m =
    let (es, k) = leave_member-value r client m in
    (es, rw (get_room-some c.rooms a r e, leave_room) k)

-- The rooms after `createRoom` are the old ones and an empty one.
pub create_member :
    (c : ServerCore) (a : RoomId) (r : Room) (client : ClientId)
    → room_of (create c).0 a ≡ some r
    → (((create c).1 ≡ a) × (contains r.members client ≡ false)) ⊎ (room_of c a ≡ some r)
unfolding create
create_member c a r client e = elim (created_cases c a r e) [
  | inl (same, empty) ↦ inl (
    (create_room_id c.rooms).0 ∙ same,
    ap (λ (z : Room). contains z.members client) empty
        ∙ ap (λ xs. contains xs client) (new_room_members c.rooms.next_room_id)
        ∙ contains-nil client,
  )
  | inr old ↦ inr old
]

pub serve-creates : (c : ServerCore) → (serve c creates).0 ≡ (create c).0
unfolding serve
serve-creates c = refl

pub new_core_rooms : (with_sink : Bool) (a : RoomId) → room_of (new_core with_sink) a ≡ none
unfolding new_core
new_core_rooms b a = object_at-new_manager a
