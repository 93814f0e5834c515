-- ===== src/Core/ServerCore/Invariant.antt =====
-- The rooms of a server: their ids, their invariants and their independence.
use mathlib.Core.Path.{subst, sym}
use clear_space.Prelude.{
  ℕ, ◌+◌, ◌*◌, ◌<◌, ◌≡◌, ap, ◌∙◌, ◌⊎◌, inl, inr, Bool, false, Option, none, some, [], arith, ◌==◌,
  ==_refl, Option-cases, u64_mod, incr64-eq,
}
use clear_space.Core.Types.{RoomId, room_not_found, error}
use clear_space.Core.Room.{Room, Op, joins, leaves, applies, new_room, new_room-id, step}
use clear_space.Core.Room.Invariant.{Inv, HasRoom, new_room-Inv}
use clear_space.Core.Room.Preservation.{step-Inv}
use clear_space.Core.Room.Counters.{step_id}
use clear_space.Core.RoomManager.{
  RoomManager, create_room, object_at, put_room, get_room-some, get_room-none, object_at-put_room,
  object_at-create_room, object_at-new_manager, create_room_id, put_room_id,
}
use clear_space.Core.ServerCore.{
  ServerCore, Call, creates, on_room, new_core, create, join_room, leave_room, handle_event, serve,
}

abbrev pub room_of : ServerCore → RoomId → Option Room
room_of c b = object_at c.rooms b

-- A call on a room that is there is an operation of the room.
pub serve_present :
    (c : ServerCore) (a : RoomId) (op : Op) (r : Room)
    → room_of c a ≡ some r
    → ((serve c (on_room a op)).0.rooms
        ≡ put_room c.rooms (record { key = a; object = r }) (step r op).0)
      × ((serve c (on_room a op)).1 ≡ (step r op).1)
unfolding serve step
serve_present c a (joins client) r e =
    let p = get_room-some c.rooms a r e in
    unfold join_room in (rw (p, join_room), rw (p, join_room))
serve_present c a (leaves client) r e =
    let p = get_room-some c.rooms a r e in
    unfold leave_room in (rw (p, leave_room), rw (p, leave_room))
serve_present c a (applies now client ev) r e =
    let p = get_room-some c.rooms a r e in
    unfold handle_event in (rw (p, handle_event), rw (p, handle_event))

pub serve_room :
    (c : ServerCore) (a : RoomId) (op : Op) (r : Room)
    → room_of c a ≡ some r
    → room_of (serve c (on_room a op)).0 a ≡ some (step r op).0
serve_room c a op r e = rw (
  (serve_present c a op r e).0,
  object_at-put_room c.rooms (record { key = a; object = r }) a (step r op).0,
  ==_refl a,
)

-- A call on a room that is not there fails, and changes nothing.
pub serve_absent :
    (c : ServerCore) (a : RoomId) (op : Op)
    → room_of c a ≡ none
    → serve c (on_room a op) ≡ (c, error room_not_found, [])
unfolding serve
serve_absent c a (joins client) e = unfold join_room in rw (get_room-none c.rooms a e, join_room)
serve_absent c a (leaves client) e = unfold leave_room in rw (get_room-none c.rooms a e, leave_room)
serve_absent c a (applies now client ev) e =
    unfold handle_event in rw (get_room-none c.rooms a e, handle_event)

-- Each room stands under its own id, which is below the next one, and has the invariant of rooms.
pub record IsCore (c : ServerCore) : Type 0 where
  pub own_id : (a : RoomId) (r : Room) → room_of c a ≡ some r → r.id ≡ a
  pub fresh : (a : RoomId) (r : Room) → room_of c a ≡ some r → a < c.rooms.next_room_id
  pub sound : (a : RoomId) (r : Room) → room_of c a ≡ some r → Inv r

-- No counter of the server wraps within `k` calls.
pub record HasSpace (c : ServerCore) (k : ℕ) : Type 0 where
  pub ids : c.rooms.next_room_id + k < u64_mod
  pub seqs : (a : RoomId) (r : Room) → room_of c a ≡ some r → HasRoom r (2 * k)
  pub calls : 2 * k + 1 < u64_mod

pub new_core-IsCore : (with_sink : Bool) → IsCore (new_core with_sink)
unfolding new_core
new_core-IsCore b = record {
  own_id = λ a r h. absurd (cc (object_at-new_manager a));
  fresh = λ a r h. absurd (cc (object_at-new_manager a));
  sound = λ a r h. absurd (cc (object_at-new_manager a));
}

-- The rooms after `createRoom`.
pub created_cases :
    (c : ServerCore) (a : RoomId) (r : Room)
    → object_at (create_room c.rooms).0 a ≡ some r
    → ((c.rooms.next_room_id ≡ a) × (r ≡ new_room c.rooms.next_room_id))
      ⊎ (object_at c.rooms a ≡ some r)
created_cases c a r e = ground (arith, object_at-create_room c.rooms a)

-- The rooms after an operation of the room `q` under the id `b`.
pub stepped_cases :
    (c : ServerCore) (b : RoomId) (op : Op) (q : Room) (a : RoomId) (r : Room)
    → room_of c b ≡ some q
    → room_of (serve c (on_room b op)).0 a ≡ some r
    → ((b ≡ a) × (r ≡ (step q op).0)) ⊎ (room_of c a ≡ some r)
stepped_cases c b op q a r e at = ground (
  arith,
  ap (λ (m : RoomManager). object_at m a) (serve_present c b op q e).0,
  object_at-put_room c.rooms (record { key = b; object = q }) a (step q op).0,
  at,
)

create-IsCore : (c : ServerCore) → IsCore c → HasSpace c 1 → IsCore (create c).0
unfolding create
create-IsCore c v h = record {
  own_id = λ a r e. elim (created_cases c a r e) [
    | inl (same, at) ↦ ground (arith, ap (λ (z : Room). z.id) at, new_room-id c.rooms.next_room_id)
    | inr old ↦ v.own_id a r old
  ];
  fresh = λ a r e. elim (created_cases c a r e) [
    | inl (same, at) ↦ rw ((create_room_id c.rooms).1, incr64-eq _ h.ids) (omega arith)
    | inr old ↦ rw ((create_room_id c.rooms).1, incr64-eq _ h.ids) (omega (arith, v.fresh a r old))
  ];
  sound = λ a r e. elim (created_cases c a r e) [
    | inl (same, at) ↦ subst Inv (sym at) (new_room-Inv c.rooms.next_room_id)
    | inr old ↦ v.sound a r old
  ];
}

on_room-IsCore :
    (c : ServerCore) (b : RoomId) (op : Op)
    → IsCore c
    → HasSpace c 1
    → IsCore (serve c (on_room b op)).0
on_room-IsCore c b op v h = elim (Option-cases (object_at c.rooms b)) [
  | inl e ↦ rw (serve_absent c b op e) v
  | inr (r, e) ↦ stepped r e (serve_present c b op r e).0
]
  where
    stepped :
        (r : Room)
        → room_of c b ≡ some r
        → (serve c (on_room b op)).0.rooms
          ≡ put_room c.rooms (record { key = b; object = r }) (step r op).0
        → IsCore (serve c (on_room b op)).0
    stepped r e rooms = record {
      own_id = λ a q at. elim (stepped_cases c b op r a q e at) [
        | inl (same, now) ↦ ap (λ (z : Room). z.id) now ∙ step_id r op ∙ v.own_id b r e ∙ same
        | inr old ↦ v.own_id a q old
      ];
      fresh = λ a q at. elim (stepped_cases c b op r a q e at) [
        | inl (same, now) ↦ rw (rooms, put_room_id, ← same) (v.fresh b r e)
        | inr old ↦ rw (rooms, put_room_id) (v.fresh a q old)
      ];
      sound = λ a q at. elim (stepped_cases c b op r a q e at) [
        | inl (same, now) ↦ subst Inv (sym now) (step-Inv r op (v.sound b r e) (h.seqs b r e))
        | inr old ↦ v.sound a q old
      ];
    }

-- Every call keeps the server's invariant, as long as no counter wraps.
pub serve-IsCore :
    (c : ServerCore) (call : Call) → IsCore c → HasSpace c 1 → IsCore (serve c call).0
serve-IsCore c creates v h = unfold serve in create-IsCore c v h
serve-IsCore c (on_room b op) v h = on_room-IsCore c b op v h

-- `createRoom` answers with an id that no room has, and there is then a new, empty room under it; all
-- other rooms stay as they are.
pub create_fresh :
    (c : ServerCore)
    → IsCore c
    → (room_of c (create c).1 ≡ none)
      × (room_of (create c).0 (create c).1 ≡ some (new_room (create c).1))
      × ((b : RoomId) (r : Room) → room_of c b ≡ some r → room_of (create c).0 b ≡ some r)
unfolding create
create_fresh c v = elim (Option-cases (object_at c.rooms c.rooms.next_room_id)) [
  | inr (r, e) ↦ absurd (omega (arith, v.fresh _ r e))
  | inl e ↦
      let k = create_room_id c.rooms in
      (
        rw k.0 e,
        rw k.0 (ground (arith, object_at-create_room c.rooms c.rooms.next_room_id)),
        (λ b r at. ground (arith, object_at-create_room c.rooms b, v.fresh b r at)),
      )
]

-- A call on one room changes no other room.
pub serve_isolated :
    (c : ServerCore) (a b : RoomId) (op : Op)
    → (a == b) ≡ false
    → room_of (serve c (on_room a op)).0 b ≡ room_of c b
serve_isolated c a b op other = elim (Option-cases (object_at c.rooms a)) [
  | inl e ↦ rw (serve_absent c a op e)
  | inr (r, e) ↦ rw (
    (serve_present c a op r e).0,
    object_at-put_room c.rooms (record { key = a; object = r }) b (step r op).0,
    other,
  )
]
