-- ===== src/Server/Session/Agreement.antt =====
-- The room that a session of server/src/client_session.cpp believes to be in, and the rooms that have
-- its client as a member.
use clear_space.Prelude.{
  ◌≡◌, refl, sym, ap, ◌∙◌, inl, inr, Bool, true, false, Option, none, some, List, Bool-cases,
  Option-cases, ◌==◌, ==_refl, ==→eq, subst,
}
use clear_space.Prelude.Members.{contains}
use clear_space.Core.Types.{
  RoomId, ClientId, TimePoint, EventPayload, OutgoingEvent, Error, Expected, value, error,
  RoomSnapshot,
}
use clear_space.Core.Room.{Room, Events, Op, applies, step}
use clear_space.Core.Room.Membership.{member_after, step_member}
use clear_space.Core.ServerCore.{
  SavePiece, ServerCore, new_core, on_room, create, handle_event, serve,
}
use clear_space.Core.ServerCore.Invariant.{
  room_of, IsCore, serve_room, serve_absent, serve_isolated, create_fresh,
}
use clear_space.Core.ServerCore.Answers.{serve-applies, create_member, new_core_rooms}
use clear_space.Server.Session.{Session, is_current, joined, left, applied, handle_board, stop_left}

-- The client is a member of its session's room, which exists, and of no other.
pub record Agrees (core : ServerCore) (client : ClientId) (current : Option RoomId) : Type 0 where
  pub present : (a : RoomId) → current ≡ some a → (r : Room) × (room_of core a ≡ some r)
  pub same :
      (a : RoomId) (r : Room)
      → room_of core a ≡ some r
      → contains r.members client ≡ is_current current a

pub is_current-some : (cur : Option RoomId) (a : RoomId) → is_current cur a ≡ true → cur ≡ some a
is_current-some none a e = absurd (cc)
is_current-some (some b) a e = ap some (==→eq b a e)

-- A call on a room, for a client whose session goes from `cur` to `cur'`.
pub on_room-Agrees :
    (core : ServerCore) (a : RoomId) (op : Op) (r : Room) (c : ClientId) (cur cur' : Option RoomId)
    → Agrees core c cur
    → room_of core a ≡ some r
    → member_after op c (is_current cur a) ≡ is_current cur' a
    → ((b : RoomId) → (a == b) ≡ false → is_current cur b ≡ is_current cur' b)
    → Agrees (serve core (on_room a op)).0 c cur'
on_room-Agrees core a op r c cur cur' v e here there = record {
  present = λ b h. elim (Bool-cases (a == b)) [
    | inl s ↦
        let at = serve_room core a op r e in
        ((step r op).0, ap (λ x. room_of (serve core (on_room a op)).0 x) (sym (==→eq a b s)) ∙ at)
    | inr o ↦
        let was : is_current cur b ≡ true = there b o ∙ ap (λ x. is_current x b) h ∙ ==_refl b in
        let (q, at) = v.present b (is_current-some cur b was) in
        (q, serve_isolated core a b op o ∙ at)
  ];
  same = λ b q at. elim (Bool-cases (a == b)) [
    | inl s ↦
        let at' : room_of (serve core (on_room a op)).0 a ≡ some q =
          ap (λ x. room_of (serve core (on_room a op)).0 x) (==→eq a b s) ∙ at in
        let is_q : (step r op).0 ≡ q = cc (serve_room core a op r e, at') in
        ap (λ (z : Room). contains z.members c) (sym is_q)
        ∙ step_member r op c
        ∙ ap (member_after op c) (v.same a r e)
        ∙ here
        ∙ ap (is_current cur') (==→eq a b s)
    | inr o ↦ v.same b q (sym (serve_isolated core a b op o) ∙ at) ∙ there b o
  ];
}

-- A call that does not change whether the client is a member.
pub on_room-Agrees_kept :
    (core : ServerCore) (a : RoomId) (op : Op) (c : ClientId) (cur : Option RoomId)
    → ((was : Bool) → member_after op c was ≡ was)
    → Agrees core c cur
    → Agrees (serve core (on_room a op)).0 c cur
on_room-Agrees_kept core a op c cur h v = elim (Option-cases (room_of core a)) [
  | inl e ↦
      subst (λ (z : ServerCore × Events × List SavePiece). Agrees z.0 c cur)
        (sym (serve_absent core a op e)) v
  | inr (r, e) ↦ on_room-Agrees core a op r c cur cur v e (h (is_current cur a)) (λ b o. refl)
]

pub create-Agrees :
    (core : ServerCore) (c : ClientId) (cur : Option RoomId)
    → IsCore core
    → Agrees core c cur
    → Agrees (create core).0 c cur
create-Agrees core c cur i v = record {
  present = λ a h. let (r, at) = v.present a h in (r, (create_fresh core i).2 a r at);
  same = λ a r at. elim (create_member core a r c at) [
    | inr old ↦ v.same a r old
    | inl (new, out) ↦ elim (Bool-cases (is_current cur a)) [
      | inr n ↦ out ∙ sym n
      | inl y ↦
          let (q, there) = v.present a (is_current-some cur a y) in
          absurd (cc ((create_fresh core i).0, there, new))
    ]
  ];
}

pub joined-core :
    (s : Session) (room : RoomId) (p : ServerCore × Expected RoomSnapshot Error)
    → (joined s room p).core ≡ p.0
unfolding joined
joined-core s room (core, error e) = refl
joined-core s room (core, value snap) = refl

pub left-core :
    (s : Session) (room : RoomId) (p : ServerCore × Events × List SavePiece)
    → (left s room p).core ≡ p.0
unfolding left
left-core s room (core, error e, rest) = refl
left-core s room (core, value es, rest) = refl

pub applied-core :
    (s : Session) (p : ServerCore × Events × List SavePiece) → (applied s p).core ≡ p.0
unfolding applied
applied-core s (core, error e, rest) = refl
applied-core s (core, value es, rest) = refl

applied-session :
    (s : Session) (p : ServerCore × Events × List SavePiece) → (applied s p).session ≡ s
unfolding applied
applied-session s (core, error e, rest) = refl
applied-session s (core, value es, rest) = refl

pub stop_left-core :
    (s : Session) (p : ServerCore × Events × List SavePiece) → (stop_left s p).core ≡ p.0
unfolding stop_left
stop_left-core s (core, error e, rest) = refl
stop_left-core s (core, value es, rest) = refl

pub stop_left-session :
    (s : Session) (p : ServerCore × Events × List SavePiece) → (stop_left s p).session ≡ s
unfolding stop_left
stop_left-session s (core, error e, rest) = refl
stop_left-session s (core, value es, rest) = refl

pub left-value :
    (s : Session) (room : RoomId) (p : ServerCore × Events × List SavePiece)
    (es : List OutgoingEvent)
    → p.1 ≡ value es
    → (left s room p).session.current_room ≡ none
unfolding left
left-value s room (core, error e, rest) es h = absurd (cc)
left-value s room (core, value es', rest) es h = refl

pub joined-value :
    (s : Session) (room : RoomId) (p : ServerCore × Expected RoomSnapshot Error)
    (snap : RoomSnapshot)
    → p.1 ≡ value snap
    → (joined s room p).session.current_room ≡ some room
unfolding joined
joined-value s room (core, error e) snap h = absurd (cc)
joined-value s room (core, value snap') snap h = refl

-- The requests that become events change nobody's membership.
pub handle_board-Agrees :
    (core : ServerCore) (s : Session) (now : TimePoint) (room : RoomId)
    (event : Expected EventPayload Error) (c : ClientId) (cur : Option RoomId)
    → Agrees core c cur
    → Agrees (handle_board core s now room event).core c cur
      × ((handle_board core s now room event).session ≡ s)
unfolding handle_board
handle_board-Agrees core s now room (error e) c cur v =
    elim (Bool-cases (is_current s.current_room room)) [
      | inl y ↦ (rw (y, handle_board) v, rw (y, handle_board))
      | inr n ↦ (rw (n, handle_board) v, rw (n, handle_board))
    ]
handle_board-Agrees core s now room (value ev) c cur v =
    elim (Bool-cases (is_current s.current_room room)) [
      | inr n ↦ (rw (n, handle_board) v, rw (n, handle_board))
      | inl y ↦
          let p = handle_event core now s.client_id room ev in
          let kept =
            on_room-Agrees_kept core room (applies now s.client_id ev) c cur (λ was. refl) v in
          let same = applied-core s p ∙ sym (serve-applies core room now s.client_id ev) in
          (
            rw (y, handle_board) (subst (λ z. Agrees z c cur) (sym same) kept),
            rw (y, handle_board) (applied-session s p),
          )
    ]

-- On a new server nobody is a member of a room.
pub new_core-Agrees : (with_sink : Bool) (c : ClientId) → Agrees (new_core with_sink) c none
new_core-Agrees b c = record {
  present = λ a h. absurd (cc);
  same = λ a r at. absurd (cc (new_core_rooms b a));
}
