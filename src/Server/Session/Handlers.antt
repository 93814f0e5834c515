-- ===== src/Server/Session/Handlers.antt =====
-- The handlers of server/src/client_session.cpp keep sessions and rooms in agreement.
use clear_space.Prelude.{
  ◌≡◌, refl, sym, ap, ◌∙◌, inl, inr, true, false, Option, none, some, Bool-cases, Option-cases,
  ◌==◌, ==_refl, arith, subst,
}
use clear_space.Core.Types.{EventPayload, Error, RoomId, ClientId, TimePoint, Expected}
use clear_space.Core.Room.{joins, leaves}
use clear_space.Core.ServerCore.{ServerCore, join_room, leave_room}
use clear_space.Core.ServerCore.Invariant.{room_of, IsCore}
use clear_space.Core.ServerCore.Answers.{
  serve-joins, serve-leaves, join_room_absent, join_room_present, leave_room_member,
}
use clear_space.Transport.Messages.{
  ClientMessage, ping_request, create_room_request, join_room_request, leave_room_request,
  stroke_begin_request, stroke_point_request, stroke_end_request, cursor_move_request,
  clear_request,
}
use clear_space.Transport.Mappers.{
  to_core_begin, to_core_point_event, to_core_end, to_core_move, to_core_clear,
}
use clear_space.Server.Session.{
  Session, Handled, is_current, is_elsewhere, joined, left, handle_board, handle_message,
  leave_current, stop_impl,
}
use clear_space.Server.Session.Agreement.{
  Agrees, is_current-some, on_room-Agrees, on_room-Agrees_kept, create-Agrees, joined-core,
  left-core, stop_left-core, stop_left-session, left-value, joined-value, handle_board-Agrees,
}

-- It agrees for the session's own client.
abbrev Keeps : Handled → ClientId → Type 0
Keeps h c = Agrees h.core c h.session.current_room

not_elsewhere :
    (cur : Option RoomId) (a b : RoomId)
    → is_elsewhere cur a ≡ false
    → (a == b) ≡ false
    → is_current cur b ≡ is_current (some a) b
not_elsewhere none a b e o = sym o
not_elsewhere (some x) a b e o = ground (arith, e, o)

join-Keeps :
    (core : ServerCore) (s : Session) (room : RoomId)
    → is_elsewhere s.current_room room ≡ false
    → Agrees core s.client_id s.current_room
    → Keeps (joined s room (join_room core s.client_id room)) s.client_id
unfolding joined
join-Keeps core s room here v = elim (Option-cases (room_of core room)) [
  | inl e ↦
      subst (λ p. Keeps (joined s room p) s.client_id)
        (sym (join_room_absent core s.client_id room e)) v
  | inr (r, e) ↦
      let p = join_room core s.client_id room in
      let after =
        on_room-Agrees core room (joins s.client_id) r s.client_id s.current_room (some room) v e
          (rw (==_refl s.client_id, ==_refl room))
          (λ b o. not_elsewhere s.current_room room b here o) in
      let same = joined-core s room p ∙ sym (serve-joins core room s.client_id) in
      let now_in = joined-value s room p _ (join_room_present core s.client_id room r e) in
      subst (λ cur. Agrees (joined s room p).core s.client_id cur) (sym now_in)
        (subst (λ z. Agrees z s.client_id (some room)) (sym same) after)
]

-- A member's leave, as `leave_room` and `stop_impl` make it.
leave_room-Agrees :
    (core : ServerCore) (client : ClientId) (room : RoomId) (cur : Option RoomId)
    → is_current cur room ≡ true
    → Agrees core client cur
    → Agrees (leave_room core client room).0 client none
leave_room-Agrees core client room cur y v =
    let (r, e) = v.present room (is_current-some cur room y) in
    let there = is_current-some cur room y in
    subst (λ z. Agrees z client none) (serve-leaves core room client)
      (on_room-Agrees core room (leaves client) r client cur none v e (rw (==_refl client))
        (λ b o. ap (λ x. is_current x b) there ∙ o))

leave-Keeps :
    (core : ServerCore) (s : Session) (room : RoomId)
    → is_current s.current_room room ≡ true
    → Agrees core s.client_id s.current_room
    → Keeps (left s room (leave_room core s.client_id room)) s.client_id
leave-Keeps core s room y v =
    let p = leave_room core s.client_id room in
    let (r, e) = v.present room (is_current-some s.current_room room y) in
    let (es, k) = leave_room_member core s.client_id room r e (v.same room r e ∙ y) in
    subst (λ cur. Agrees (left s room p).core s.client_id cur) (sym (left-value s room p es k))
      (subst (λ z. Agrees z s.client_id none) (sym (left-core s room p))
        (leave_room-Agrees core s.client_id room s.current_room y v))

board-Keeps :
    (core : ServerCore) (s : Session) (now : TimePoint) (room : RoomId)
    (event : Expected EventPayload Error)
    → Agrees core s.client_id s.current_room
    → Keeps (handle_board core s now room event) s.client_id
board-Keeps core s now room event v =
    let h = handle_board core s now room event in
    let k = handle_board-Agrees core s now room event s.client_id s.current_room v in
    subst (λ (z : Session). Agrees h.core s.client_id z.current_room) (sym k.1) k.0

-- After a message the session's client is a member of its session's room and of no other one, if it was
-- so before.
pub handle_message-Agrees :
    (core : ServerCore) (s : Session) (now : TimePoint) (m : ClientMessage)
    → IsCore core
    → Agrees core s.client_id s.current_room
    → Agrees
        (handle_message core s now m).core
        s.client_id
        (handle_message core s now m).session.current_room
unfolding handle_message
handle_message-Agrees core s now ping_request i v = v
handle_message-Agrees core s now create_room_request i v =
    create-Agrees core s.client_id s.current_room i v
handle_message-Agrees core s now (join_room_request room) i v =
    elim (Bool-cases (is_elsewhere s.current_room room)) [
      | inl y ↦ rw (y, handle_message) v
      | inr n ↦ rw (n, handle_message) (join-Keeps core s room n v)
    ]
handle_message-Agrees core s now (leave_room_request room) i v =
    elim (Bool-cases (is_current s.current_room room)) [
      | inl y ↦ rw (y, handle_message) (leave-Keeps core s room y v)
      | inr n ↦ rw (n, handle_message) v
    ]
handle_message-Agrees core s now (stroke_begin_request r) i v =
    board-Keeps core s now r.room (to_core_begin r) v
handle_message-Agrees core s now (stroke_point_request room p) i v =
    board-Keeps core s now room (to_core_point_event p) v
handle_message-Agrees core s now (stroke_end_request room) i v =
    board-Keeps core s now room to_core_end v
handle_message-Agrees core s now (cursor_move_request room p) i v =
    board-Keeps core s now room (to_core_move p) v
handle_message-Agrees core s now (clear_request room) i v =
    board-Keeps core s now room to_core_clear v

-- A message of one client does not change of which rooms another client is a member.
pub handle_message-Agrees_others :
    (core : ServerCore) (s : Session) (now : TimePoint) (m : ClientMessage) (c : ClientId)
    (cur : Option RoomId)
    → IsCore core
    → (s.client_id == c) ≡ false
    → Agrees core c cur
    → Agrees (handle_message core s now m).core c cur
unfolding handle_message
handle_message-Agrees_others core s now ping_request c cur i o v = v
handle_message-Agrees_others core s now create_room_request c cur i o v =
    create-Agrees core c cur i v
handle_message-Agrees_others core s now (join_room_request room) c cur i o v =
    elim (Bool-cases (is_elsewhere s.current_room room)) [
      | inl y ↦ rw (y, handle_message) v
      | inr n ↦
          rw (n, handle_message)
            (subst (λ z. Agrees z c cur)
              (serve-joins core room s.client_id
                ∙ sym (joined-core s room (join_room core s.client_id room)))
              (on_room-Agrees_kept core room (joins s.client_id) c cur (λ was. rw (o)) v))
    ]
handle_message-Agrees_others core s now (leave_room_request room) c cur i o v =
    elim (Bool-cases (is_current s.current_room room)) [
      | inl y ↦
          rw (y, handle_message)
            (subst (λ z. Agrees z c cur)
              (serve-leaves core room s.client_id
                ∙ sym (left-core s room (leave_room core s.client_id room)))
              (on_room-Agrees_kept core room (leaves s.client_id) c cur (λ was. rw (o)) v))
      | inr n ↦ rw (n, handle_message) v
    ]
handle_message-Agrees_others core s now (stroke_begin_request r) c cur i o v =
    (handle_board-Agrees core s now r.room (to_core_begin r) c cur v).0
handle_message-Agrees_others core s now (stroke_point_request room p) c cur i o v =
    (handle_board-Agrees core s now room (to_core_point_event p) c cur v).0
handle_message-Agrees_others core s now (stroke_end_request room) c cur i o v =
    (handle_board-Agrees core s now room to_core_end c cur v).0
handle_message-Agrees_others core s now (cursor_move_request room p) c cur i o v =
    (handle_board-Agrees core s now room (to_core_move p) c cur v).0
handle_message-Agrees_others core s now (clear_request room) c cur i o v =
    (handle_board-Agrees core s now room to_core_clear c cur v).0

-- Once its session has stopped, no room has the client as a member.
pub stop_impl-Agrees :
    (core : ServerCore) (s : Session)
    → s.stopped ≡ false
    → Agrees core s.client_id s.current_room
    → Agrees (stop_impl core s).core s.client_id none
      × ((stop_impl core s).session.current_room ≡ none)
unfolding stop_impl leave_current
stop_impl-Agrees core s running v = rw (running, stop_impl) (out s.current_room refl)
  where
    out :
        (cur : Option RoomId)
        → s.current_room ≡ cur
        → Agrees (leave_current core (record s { stopped = true }) cur).core s.client_id none
          × ((leave_current core (record s { stopped = true }) cur).session.current_room ≡ none)
    out none e = (subst (Agrees core s.client_id) e v, e)
    out (some room) e =
        let s' : Session = record s { stopped = true; current_room = none } in
        let p = leave_room core s.client_id room in
        let in_room : is_current s.current_room room ≡ true =
          ap (λ x. is_current x room) e ∙ ==_refl room in
        (
          subst (λ z. Agrees z s.client_id none) (sym (stop_left-core s' p))
              (leave_room-Agrees core s.client_id room s.current_room in_room v),
          ap (λ (z : Session). z.current_room) (stop_left-session s' p),
        )
