-- ===== src/Server/Session/Identity.antt =====
-- What the handlers of server/src/client_session.cpp never change: whose session it is, and, but for
-- `stopImpl`, whether it has stopped.
use clear_space.Prelude.{
  List, ◌≡◌, refl, sym, ap, subst, ◌∙◌, [], inl, inr, ◌⊎◌, String, true, Option, none, some,
  Bool-cases,
}
use clear_space.Core.Types.{
  RoomId, TimePoint, EventPayload, Error, Expected, value, error, RoomSnapshot,
}
use clear_space.Core.Room.{Events}
use clear_space.Core.ServerCore.{SavePiece, ServerCore, join_room, leave_room, handle_event}
use clear_space.Transport.Json.{JsonLibrary}
use clear_space.Transport.JsonProtocol.{ProtocolError, parse_client_message}
use clear_space.Transport.Messages.{
  ClientMessage, ping_request, create_room_request, join_room_request, leave_room_request,
  stroke_begin_request, stroke_point_request, stroke_end_request, cursor_move_request,
  clear_request,
}
use clear_space.Transport.Mappers.{
  to_core_begin, to_core_point_event, to_core_end, to_core_move, to_core_clear,
}
use clear_space.Server.Session.{
  Session, Handled, is_current, is_elsewhere, joined, left, applied, handle_board, handle_message,
  handle_line, stop_left, leave_current, stop_impl,
}

-- The same client, and stopped or not as before.
abbrev pub IsSameSession : Session → Session → Type 0
IsSameSession s s' = (s'.client_id ≡ s.client_id) × (s'.stopped ≡ s.stopped)

joined-IsSameSession :
    (s : Session) (room : RoomId) (r : ServerCore × Expected RoomSnapshot Error)
    → IsSameSession s (joined s room r).session
unfolding joined
joined-IsSameSession s room (core, error e) = (refl, refl)
joined-IsSameSession s room (core, value v) = (refl, refl)

left-IsSameSession :
    (s : Session) (room : RoomId) (r : ServerCore × Events × List SavePiece)
    → IsSameSession s (left s room r).session
unfolding left
left-IsSameSession s room (core, error e, rest) = (refl, refl)
left-IsSameSession s room (core, value v, rest) = (refl, refl)

applied-IsSameSession :
    (s : Session) (r : ServerCore × Events × List SavePiece) → IsSameSession s (applied s r).session
unfolding applied
applied-IsSameSession s (core, error e, rest) = (refl, refl)
applied-IsSameSession s (core, value v, rest) = (refl, refl)

handle_board-IsSameSession :
    (core : ServerCore) (s : Session) (now : TimePoint) (room : RoomId)
    (event : Expected EventPayload Error)
    → IsSameSession s (handle_board core s now room event).session
unfolding handle_board
handle_board-IsSameSession core s now room (error e) =
    elim (Bool-cases (is_current s.current_room room)) [
      | inr n ↦ rw (n) (refl, refl)
      | inl c ↦ rw (c) (refl, refl)
    ]
handle_board-IsSameSession core s now room (value ev) =
    elim (Bool-cases (is_current s.current_room room)) [
      | inr n ↦ rw (n) (refl, refl)
      | inl c ↦ rw (c) (applied-IsSameSession s (handle_event core now s.client_id room ev))
    ]

handle_message-IsSameSession :
    (core : ServerCore) (s : Session) (now : TimePoint) (m : ClientMessage)
    → IsSameSession s (handle_message core s now m).session
unfolding handle_message
handle_message-IsSameSession core s now ping_request = (refl, refl)
handle_message-IsSameSession core s now create_room_request = (refl, refl)
handle_message-IsSameSession core s now (join_room_request room) =
    elim (Bool-cases (is_elsewhere s.current_room room)) [
      | inl y ↦ rw (y) (refl, refl)
      | inr n ↦ rw (n) (joined-IsSameSession s room (join_room core s.client_id room))
    ]
handle_message-IsSameSession core s now (leave_room_request room) =
    elim (Bool-cases (is_current s.current_room room)) [
      | inr n ↦ rw (n) (refl, refl)
      | inl y ↦ rw (y) (left-IsSameSession s room (leave_room core s.client_id room))
    ]
handle_message-IsSameSession core s now (stroke_begin_request r) =
    handle_board-IsSameSession core s now r.room (to_core_begin r)
handle_message-IsSameSession core s now (stroke_point_request room p) =
    handle_board-IsSameSession core s now room (to_core_point_event p)
handle_message-IsSameSession core s now (stroke_end_request room) =
    handle_board-IsSameSession core s now room to_core_end
handle_message-IsSameSession core s now (cursor_move_request room p) =
    handle_board-IsSameSession core s now room (to_core_move p)
handle_message-IsSameSession core s now (clear_request room) =
    handle_board-IsSameSession core s now room to_core_clear

-- A line is a message that is handled, or only answered.
pub handle_line-cases :
    (lib : JsonLibrary) (core : ServerCore) (s : Session) (now : TimePoint) (line : String)
    → ((m : ClientMessage) × (handle_line lib core s now line ≡ handle_message core s now m))
      ⊎ (((handle_line lib core s now line).core ≡ core)
          × ((handle_line lib core s now line).session ≡ s))
unfolding handle_line
handle_line-cases lib core s now line = go (parse_client_message lib line) refl
  where
    go :
        (r : Expected ClientMessage ProtocolError)
        → parse_client_message lib line ≡ r
        → ((m : ClientMessage) × (handle_line lib core s now line ≡ handle_message core s now m))
          ⊎ (((handle_line lib core s now line).core ≡ core)
              × ((handle_line lib core s now line).session ≡ s))
    go (value m) e = inl (m, rw (e, handle_line))
    go (error x) e = inr (rw (e, handle_line), rw (e, handle_line))

pub handle_line-IsSameSession :
    (lib : JsonLibrary) (core : ServerCore) (s : Session) (now : TimePoint) (line : String)
    → IsSameSession s (handle_line lib core s now line).session
handle_line-IsSameSession lib core s now line = elim (handle_line-cases lib core s now line) [
  | inl (m, e) ↦
      subst (λ (h : Handled). IsSameSession s h.session) (sym e)
        (handle_message-IsSameSession core s now m)
  | inr (c, e) ↦ subst (λ x. IsSameSession s x) (sym e) (refl, refl)
]

stop_left-session :
    (s : Session) (r : ServerCore × Events × List SavePiece) → (stop_left s r).session ≡ s
unfolding stop_left
stop_left-session s (core, error e, rest) = refl
stop_left-session s (core, value v, rest) = refl

leave_current-IsSameSession :
    (core : ServerCore) (s : Session) (cur : Option RoomId)
    → IsSameSession s (leave_current core s cur).session
unfolding leave_current
leave_current-IsSameSession core s none = (refl, refl)
leave_current-IsSameSession core s (some room) =
    subst (λ x. IsSameSession s x) (sym (stop_left-session (record s { current_room = none }) _))
      (refl, refl)

stop_impl_again :
    (core : ServerCore) (s : Session)
    → s.stopped ≡ true
    → stop_impl core s ≡ record { core = core; session = s; saves = []; sends = [] }
unfolding stop_impl
stop_impl_again core s e = simp (e)

-- After `stopImpl` a session has stopped.
pub stop_impl-stopped :
    (core : ServerCore) (s : Session)
    → ((stop_impl core s).session.client_id ≡ s.client_id)
      × ((stop_impl core s).session.stopped ≡ true)
unfolding stop_impl
stop_impl-stopped core s = elim (Bool-cases s.stopped) [
  | inl e ↦
      let same = ap (λ (h : Handled). h.session) (stop_impl_again core s e) in
      (ap (λ (x : Session). x.client_id) same, ap (λ (x : Session). x.stopped) same ∙ e)
  | inr n ↦ simp (n) (leave_current-IsSameSession core (record s { stopped = true }) s.current_room)
]
