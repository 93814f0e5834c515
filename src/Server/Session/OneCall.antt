-- ===== src/Server/Session/OneCall.antt =====
-- A handler of server/src/client_session.cpp calls the core at most once.
use clear_space.Prelude.{
  ℕ, suc, ◌≡◌, refl, sym, ◌∙◌, ◌⊎◌, inl, inr, true, false, Option, none, some, Bool-cases, ◌==◌,
  arith, subst,
}
use clear_space.Core.Types.{
  RoomId, ClientId, TimePoint, EventPayload, Error, Expected, value, error,
}
use clear_space.Core.Room.{joins, leaves, applies}
use clear_space.Core.ServerCore.{
  ServerCore, Call, creates, on_room, join_room, leave_room, handle_event, serve,
}
use clear_space.Core.ServerCore.Invariant.{IsCore, HasSpace, serve-IsCore}
use clear_space.Core.ServerCore.Space.{serve-HasSpace, HasSpace-fewer}
use clear_space.Core.ServerCore.Answers.{serve-creates, serve-joins, serve-leaves, serve-applies}
use clear_space.Transport.Messages.{
  ClientMessage, ping_request, create_room_request, join_room_request, leave_room_request,
  stroke_begin_request, stroke_point_request, stroke_end_request, cursor_move_request,
  clear_request,
}
use clear_space.Transport.Mappers.{
  to_core_begin, to_core_point_event, to_core_end, to_core_move, to_core_clear,
}
use clear_space.Server.Session.{
  Session, is_current, is_elsewhere, handle_board, handle_message, leave_current, stop_impl,
}
use clear_space.Server.Session.Agreement.{
  Agrees, on_room-Agrees_kept, joined-core, left-core, applied-core, stop_left-core,
}
use clear_space.Server.Session.Handlers.{stop_impl-Agrees}

-- The server's state, as a handler finds or leaves it: untouched, or after one call.
abbrev pub OneCall : ServerCore → ServerCore → Type 0
OneCall core core' = (core' ≡ core) ⊎ ((call : Call) × (core' ≡ (serve core call).0))

board-OneCall :
    (core : ServerCore) (s : Session) (now : TimePoint) (room : RoomId)
    (event : Expected EventPayload Error)
    → OneCall core (handle_board core s now room event).core
unfolding handle_board
board-OneCall core s now room event = elim (Bool-cases (is_current s.current_room room)) [
  | inr n ↦ inl (rw (n, handle_board))
  | inl y ↦ with_event event y
]
  where
    with_event :
        (ev : Expected EventPayload Error)
        → is_current s.current_room room ≡ true
        → ((handle_board core s now room ev).core ≡ core)
          ⊎ ((call : Call) × ((handle_board core s now room ev).core ≡ (serve core call).0))
    with_event (error e) y = inl (rw (y, handle_board))
    with_event (value ev) y = inr (
      on_room room (applies now s.client_id ev),
      rw (y, handle_board)
          (applied-core s (handle_event core now s.client_id room ev)
            ∙ sym (serve-applies core room now s.client_id ev)),
    )

pub handle_message-OneCall :
    (core : ServerCore) (s : Session) (now : TimePoint) (m : ClientMessage)
    → OneCall core (handle_message core s now m).core
unfolding handle_message
handle_message-OneCall core s now ping_request = inl refl
handle_message-OneCall core s now create_room_request = inr (creates, sym (serve-creates core))
handle_message-OneCall core s now (join_room_request room) =
    elim (Bool-cases (is_elsewhere s.current_room room)) [
      | inl y ↦ inl (rw (y, handle_message))
      | inr n ↦ inr (
        on_room room (joins s.client_id),
        rw (n, handle_message)
            (joined-core s room (join_room core s.client_id room)
              ∙ sym (serve-joins core room s.client_id)),
      )
    ]
handle_message-OneCall core s now (leave_room_request room) =
    elim (Bool-cases (is_current s.current_room room)) [
      | inr n ↦ inl (rw (n, handle_message))
      | inl y ↦ inr (
        on_room room (leaves s.client_id),
        rw (y, handle_message)
            (left-core s room (leave_room core s.client_id room)
              ∙ sym (serve-leaves core room s.client_id)),
      )
    ]
handle_message-OneCall core s now (stroke_begin_request r) =
    board-OneCall core s now r.room (to_core_begin r)
handle_message-OneCall core s now (stroke_point_request room p) =
    board-OneCall core s now room (to_core_point_event p)
handle_message-OneCall core s now (stroke_end_request room) =
    board-OneCall core s now room to_core_end
handle_message-OneCall core s now (cursor_move_request room p) =
    board-OneCall core s now room (to_core_move p)
handle_message-OneCall core s now (clear_request room) = board-OneCall core s now room to_core_clear

leave_current-OneCall :
    (core : ServerCore) (s : Session) (cur : Option RoomId)
    → OneCall core (leave_current core s cur).core
unfolding leave_current
leave_current-OneCall core s none = inl refl
leave_current-OneCall core s (some room) = inr (
  on_room room (leaves s.client_id),
  stop_left-core (record s { current_room = none }) (leave_room core s.client_id room)
      ∙ sym (serve-leaves core room s.client_id),
)

pub stop_impl-OneCall : (core : ServerCore) (s : Session) → OneCall core (stop_impl core s).core
unfolding stop_impl
stop_impl-OneCall core s = elim (Bool-cases s.stopped) [
  | inl y ↦ inl (rw (y, stop_impl))
  | inr n ↦
      rw (n, stop_impl) (leave_current-OneCall core (record s { stopped = true }) s.current_room)
]

leave_current-Agrees_others :
    (core : ServerCore) (s : Session) (at : Option RoomId) (c : ClientId) (cur : Option RoomId)
    → (s.client_id == c) ≡ false
    → Agrees core c cur
    → Agrees (leave_current core s at).core c cur
unfolding leave_current
leave_current-Agrees_others core s none c cur o v = v
leave_current-Agrees_others core s (some room) c cur o v =
    subst (λ z. Agrees z c cur)
      (serve-leaves core room s.client_id
        ∙ sym
            (stop_left-core (record s { current_room = none }) (leave_room core s.client_id room)))
      (on_room-Agrees_kept core room (leaves s.client_id) c cur (λ was. rw (o)) v)

pub stop_impl-Agrees_others :
    (core : ServerCore) (s : Session) (c : ClientId) (cur : Option RoomId)
    → (s.client_id == c) ≡ false
    → Agrees core c cur
    → Agrees (stop_impl core s).core c cur
unfolding stop_impl
stop_impl-Agrees_others core s c cur o v = elim (Bool-cases s.stopped) [
  | inl y ↦ rw (y, stop_impl) v
  | inr n ↦
      rw (n, stop_impl)
        (leave_current-Agrees_others core (record s { stopped = true }) s.current_room c cur o v)
]

pub OneCall-IsCore :
    (core core' : ServerCore) (k : ℕ)
    → OneCall core core'
    → IsCore core
    → HasSpace core (suc k)
    → IsCore core' × HasSpace core' k
OneCall-IsCore core core' k (inl e) i h = (
  subst IsCore (sym e) i,
  subst (λ z. HasSpace z k) (sym e) (HasSpace-fewer core k (suc k) (omega arith) h),
)
OneCall-IsCore core core' k (inr (call, e)) i h = (
  subst IsCore (sym e) (serve-IsCore core call i (HasSpace-fewer core 1 (suc k) (omega arith) h)),
  subst (λ z. HasSpace z k) (sym e) (serve-HasSpace core call k h),
)

pub stop_impl-Agrees_own :
    (core : ServerCore) (s : Session)
    → Agrees core s.client_id s.current_room
    → Agrees (stop_impl core s).core s.client_id (stop_impl core s).session.current_room
unfolding stop_impl
stop_impl-Agrees_own core s v = elim (Bool-cases s.stopped) [
  | inl y ↦ rw (y, stop_impl) v
  | inr n ↦
      let (out, gone) = stop_impl-Agrees core s n v in
      subst (Agrees (stop_impl core s).core s.client_id) (sym gone) out
]
