-- ===== src/Server/Session.antt =====
-- server/src/client_session.cpp: what a session does with a message, and when it stops, up to where the
-- room of its call of the core releases its lock. What the call has still to do, and then the sends, a
-- handler gives as lists: others may run before each piece. The socket, the strand and the registry of
-- sessions are outside.
pub mod Agreement
pub mod Handlers
pub mod Identity
pub mod OneCall
pub mod Runs
mod Tests
use clear_space.Prelude.{
  ℕ, String, Bool, true, false, not, Option, none, some, List, [], ◌∷◌, ◌++◌, map, ◌==◌,
  if◌then◌else◌,
}
use clear_space.Core.Types.{
  RoomId, ClientId, TimePoint, EventPayload, OutgoingEvent, Error, not_in_room, invalid_params,
  Expected, value, error, RoomSnapshot,
}
use clear_space.Core.Room.{Events}
use clear_space.Core.ServerCore.{ServerCore, SavePiece, create, join_room, leave_room, handle_event}
use clear_space.Transport.Json.{JsonLibrary}
use clear_space.Transport.JsonProtocol.{ProtocolError, parse_client_message}
use clear_space.Transport.Mappers.{
  to_core_begin, to_core_point_event, to_core_end, to_core_move, to_core_clear, to_error_message,
  to_snapshot_message, to_server_message,
}
use clear_space.Transport.Messages.{
  ClientMessage, ping_request, create_room_request, join_room_request, leave_room_request,
  stroke_begin_request, stroke_point_request, stroke_end_request, cursor_move_request,
  clear_request, ServerMessage, pong_response, room_created_response, ok_response,
}

pub record Session : Type 0 where
  pub client_id : ClientId
  pub current_room : Option RoomId
  pub stopped : Bool

-- A message to the session's own client, by `deliver`, or to another one, through the registry.
pub data Send : Type 0 where
  own : ServerMessage → Send
  through_registry : (to : ClientId) (msg : ServerMessage) → Send

-- What a handler leaves, what its call of the core has then still to do, and what it sends after that.
pub record Handled : Type 0 where
  pub core : ServerCore
  pub session : Session
  pub saves : List SavePiece
  pub sends : List Send

-- `currentRoom_ && *currentRoom_ == room`
abbrev pub is_current : Option RoomId → RoomId → Bool
is_current none room = false
is_current (some a) room = a == room

-- `currentRoom_ && *currentRoom_ != room`
abbrev pub is_elsewhere : Option RoomId → RoomId → Bool
is_elsewhere none room = false
is_elsewhere (some a) room = not (a == room)

abbrev pub protocol_to_core_error : ProtocolError → Error
protocol_to_core_error e = invalid_params e.message

-- `sendError`, with nothing else done.
abbrev pub refuse : ServerCore → Session → Error → Handled
refuse core s e = record {
  core = core;
  session = s;
  saves = [];
  sends = own (to_error_message e) ∷ [];
}

abbrev dispatch_outgoing : List OutgoingEvent → List Send
dispatch_outgoing es = map (λ ev. through_registry ev.to (to_server_message ev)) es

-- The parts behind the guards: `result` is the core's answer.
pub joined : Session → RoomId → ServerCore × Expected RoomSnapshot Error → Handled
joined s room (core, error e) = refuse core s e
joined s room (core, value snap) = record {
  core = core;
  session = record s { current_room = some room };
  saves = [];
  sends = own (to_snapshot_message snap) ∷ [];
}

pub left : Session → RoomId → ServerCore × Events × List SavePiece → Handled
left s room (core, error e, rest) = refuse core s e
left s room (core, value es, rest) = record {
  core = core;
  session = record s { current_room = none };
  saves = rest;
  sends = dispatch_outgoing es ++ (own (ok_response "leave_room" room) ∷ []);
}

pub applied : Session → ServerCore × Events × List SavePiece → Handled
applied s (core, error e, rest) = refuse core s e
applied s (core, value es, rest) = record {
  core = core;
  session = s;
  saves = rest;
  sends = dispatch_outgoing es;
}

-- The last branch of `handleMessage`, for the requests that become events.
pub handle_board : ServerCore → Session → TimePoint → RoomId → Expected EventPayload Error → Handled
unfolding applied
handle_board core s now room event =
    if is_current s.current_room room
    then elim event [
      | error e ↦ refuse core s e
      | value ev ↦ applied s (handle_event core now s.client_id room ev)
    ]
    else refuse core s not_in_room

-- `now` is what the core's clock answers if it is asked.
pub handle_message : ServerCore → Session → TimePoint → ClientMessage → Handled
unfolding joined left
handle_message core s now ping_request = record {
  core = core;
  session = s;
  saves = [];
  sends = own pong_response ∷ [];
}
handle_message core s now create_room_request =
    let (core', room) = create core in
    record { core = core'; session = s; saves = []; sends = own (room_created_response room) ∷ [] }
handle_message core s now (join_room_request room) =
    if is_elsewhere s.current_room room
    then refuse core s (invalid_params "session already joined to another room")
    else joined s room (join_room core s.client_id room)
handle_message core s now (leave_room_request room) =
    if is_current s.current_room room
    then left s room (leave_room core s.client_id room)
    else refuse core s not_in_room
handle_message core s now (stroke_begin_request r) =
    handle_board core s now r.room (to_core_begin r)
handle_message core s now (stroke_point_request room p) =
    handle_board core s now room (to_core_point_event p)
handle_message core s now (stroke_end_request room) = handle_board core s now room to_core_end
handle_message core s now (cursor_move_request room p) =
    handle_board core s now room (to_core_move p)
handle_message core s now (clear_request room) = handle_board core s now room to_core_clear

unfoldable pub handle_line : JsonLibrary → ServerCore → Session → TimePoint → String → Handled
handle_line lib core s now line = elim (parse_client_message lib line) [
  | error e ↦ refuse core s (protocol_to_core_error e)
  | value m ↦ handle_message core s now m
]

-- The part of `stopImpl` that leaves the room. An error of the core sends nothing.
pub stop_left : Session → ServerCore × Events × List SavePiece → Handled
stop_left s (core, error e, rest) = record { core = core; session = s; saves = []; sends = [] }
stop_left s (core, value es, rest) = record {
  core = core;
  session = s;
  saves = rest;
  sends = dispatch_outgoing es;
}

leave_current : ServerCore → Session → Option RoomId → Handled
unfolding stop_left
leave_current core s none = record { core = core; session = s; saves = []; sends = [] }
leave_current core s (some room) =
    stop_left (record s { current_room = none }) (leave_room core s.client_id room)

-- `stopImpl`, without the socket and the registry.
pub stop_impl : ServerCore → Session → Handled
unfolding leave_current
stop_impl core s =
    if s.stopped
    then record { core = core; session = s; saves = []; sends = [] }
    else leave_current core (record s { stopped = true }) s.current_room
