-- ===== src/Transport/Mappers.antt =====
-- transport/src/mappers.cpp: requests to events of the core, and what the core answers to messages.
pub mod Sort
pub mod Faithful
mod Tests
use clear_space.Prelude.{ℕ, String, Bool, List, [], ◌∷◌, map, ltb, if◌then◌else◌}
use clear_space.Prelude.Map.{Map}
use clear_space.Core.Types.{
  ClientId, Point, Color, Thickness, blue, thick, Stroke, BoardState, EventPayload, stroke_begin,
  stroke_point, stroke_end, cursor_move, clear, ServerEventPayload, stroke_begin_out,
  stroke_point_out, stroke_end_out, cursor_move_out, clear_out, member_left_out, OutgoingEvent,
  ErrorCode, room_not_found_code, not_in_room_code, protocol_violation_code, invalid_params_code,
  Error, invalid_params, Expected, value, error, RoomSnapshot,
}
use clear_space.Transport.Messages.{
  PointDto, CursorDto, StrokeDto, StrokeBeginRequest, ServerMessage, error_response,
  RoomSnapshotResponse, room_snapshot_response, stroke_begin_event, stroke_point_event,
  stroke_end_event, cursor_move_event, clear_event, member_left_event,
}
use clear_space.Transport.Mappers.Sort.{sort_by}

infixl 5 ◌>>=◌
abbrev ◌>>=◌ {ℓ κ} :
    {A : Type ℓ} {B : Type κ} → Expected A Error → (A → Expected B Error) → Expected B Error
value a >>= f = f a
error e >>= f = error e

pub to_color : ℕ → Expected Color Error
to_color color = if ltb blue color then error (invalid_params "invalid color") else value color

pub to_thickness : ℕ → Expected Thickness Error
to_thickness thickness =
    if ltb thick thickness then error (invalid_params "invalid thickness") else value thickness

pub from_core_point : Point → PointDto
from_core_point p = record { x = p.x; y = p.y }

abbrev pub to_core_point : PointDto → Point
to_core_point p = record { x = p.x; y = p.y }

pub from_core_stroke : Stroke → StrokeDto
unfolding from_core_point
from_core_stroke s = record {
  id = s.id;
  author = s.author;
  color = s.color;
  thickness = s.thickness;
  stroke_order = s.stroke_order;
  points = map from_core_point s.points;
  finished = s.finished;
}

-- The overloads of `toCoreEvent`, one for each request.
unfoldable pub to_core_begin : StrokeBeginRequest → Expected EventPayload Error
unfolding to_color to_thickness
to_core_begin r = do
  color ← to_color r.color
  thickness ← to_thickness r.thickness
  value (stroke_begin color thickness (to_core_point r.start))

abbrev pub to_core_point_event : PointDto → Expected EventPayload Error
to_core_point_event p = value (stroke_point (to_core_point p))

abbrev pub to_core_end : Expected EventPayload Error
to_core_end = value stroke_end

abbrev pub to_core_move : PointDto → Expected EventPayload Error
to_core_move p = value (cursor_move (to_core_point p))

abbrev pub to_core_clear : Expected EventPayload Error
to_core_clear = value clear

pub error_code_to_string : ErrorCode → String
error_code_to_string room_not_found_code = "room_not_found"
error_code_to_string not_in_room_code = "not_in_room"
error_code_to_string protocol_violation_code = "protocol_violation"
error_code_to_string invalid_params_code = "invalid_params"

pub to_error_message : Error → ServerMessage
unfolding error_code_to_string
to_error_message e = error_response (error_code_to_string e.code) e.message

from_cursor : ClientId × Point → CursorDto
unfolding from_core_point
from_cursor (client, point) = record { client = client; point = from_core_point point }

pub to_snapshot_message : RoomSnapshot → ServerMessage
unfolding from_core_stroke from_cursor
to_snapshot_message s = room_snapshot_response (record {
  room = s.room;
  last_seq = s.last_seq;
  members = sort_by (λ c. c) s.members;
  strokes = map from_core_stroke s.state.strokes;
  cursors = sort_by (λ c. c.client) (map from_cursor s.state.cursors);
})

pub to_server_message : OutgoingEvent → ServerMessage
unfolding from_core_point
to_server_message ev = elim ev.payload [
  | stroke_begin_out author id order color thickness start ↦ stroke_begin_event (record {
    room = ev.room;
    seq = ev.seq;
    author = author;
    id = id;
    stroke_order = order;
    color = color;
    thickness = thickness;
    start = from_core_point start;
  })
  | stroke_point_out author id p ↦ stroke_point_event ev.room ev.seq author id (from_core_point p)
  | stroke_end_out author id ↦ stroke_end_event ev.room ev.seq author id
  | cursor_move_out author p ↦ cursor_move_event ev.room ev.seq author (from_core_point p)
  | clear_out author ↦ clear_event ev.room ev.seq author
  | member_left_out client ↦ member_left_event ev.room ev.seq client
]
