-- ===== src/Transport/JsonProtocol.antt =====
-- transport/src/json_protocol.cpp and protocol_error.hpp: one line of text to a request, and a message
-- to a line of text, over the library of transport/Json.
pub mod Fields
pub mod Requests
pub mod Described
mod Tests
use Prim.Native.String.{◌++◌ as text_append}
use text.Mathlib.Text.{◌==◌ as str_eq}
use clear_space.Prelude.{
  ℕ, ◌%◌, String, Bool, true, false, ◌||◌, Option, none, some, List, [], ◌∷◌, map, ltb,
  if◌then◌else◌,
}
use clear_space.Core.Types.{Expected, value, error}
use clear_space.Transport.Json.{JsonLibrary}
use clear_space.Transport.Messages.{
  PointDto, CursorDto, StrokeDto, StrokeBeginRequest, ClientMessage, ping_request,
  create_room_request, join_room_request, leave_room_request, stroke_begin_request,
  stroke_point_request, stroke_end_request, cursor_move_request, clear_request,
  RoomSnapshotResponse, StrokeBeginEvent, ServerMessage, pong_response, room_created_response,
  ok_response, error_response, room_snapshot_response, stroke_begin_event, stroke_point_event,
  stroke_end_event, cursor_move_event, clear_event, member_left_event,
}

pub data ProtocolErrorCode : Type 0 where
  invalid_json_code missing_field_code invalid_field_type_code unknown_message_type_code
        invalid_message_code :
      ProtocolErrorCode

pub record ProtocolError : Type 0 where
  pub code : ProtocolErrorCode
  pub message : String

abbrev pub invalid_json : String → ProtocolError
invalid_json msg = record { code = invalid_json_code; message = msg }

abbrev pub missing_field : String → ProtocolError
missing_field msg = record { code = missing_field_code; message = msg }

abbrev pub invalid_field_type : String → ProtocolError
invalid_field_type msg = record { code = invalid_field_type_code; message = msg }

abbrev pub unknown_message_type : String → ProtocolError
unknown_message_type msg = record { code = unknown_message_type_code; message = msg }

-- The helper of the same name in the source's anonymous namespace.
abbrev pub bad_field : String → ProtocolError
bad_field key = invalid_field_type (text_append "invalid field type: " key)

infixl 5 ◌>>=◌
abbrev pub ◌>>=◌ {ℓ κ} :
    {A : Type ℓ} {B : Type κ}
    → Expected A ProtocolError
    → (A → Expected B ProtocolError)
    → Expected B ProtocolError
value a >>= f = f a
error e >>= f = error e

abbrev pub or_bad_field {ℓ} : {A : Type ℓ} → String → Option A → Expected A ProtocolError
or_bad_field key none = error (bad_field key)
or_bad_field key (some a) = value a

module _ (lib : JsonLibrary) where
  open lib use {
    Json, parse, is_object, contains, at, get_string, get_u64, get_u32, get_float, of_string,
    of_u64, of_float, of_bool, array, object, dump,
  }

  -- `getRequired<T>`, for the T that `get` reads
  pub get_required : {A : Type 0} → (Json → Option A) → Json → String → Expected A ProtocolError
  get_required get o key =
      if contains o key
      then or_bad_field key (get (at o key))
      else error (missing_field (text_append "missing field: " key))

  read_point : Json → Expected PointDto ProtocolError
  unfolding get_required
  read_point o = do
    x ← get_required get_float o "x"
    y ← get_required get_float o "y"
    value (record { x = x; y = y })

  pub get_required_point : Json → String → Expected PointDto ProtocolError
  get_required_point o key =
      if contains o key
      then (if is_object (at o key) then read_point (at o key) else error (bad_field key))
      else error (missing_field (text_append "missing field: " key))

  parse_stroke_begin : Json → Expected ClientMessage ProtocolError
  parse_stroke_begin o = do
    room ← get_required get_u64 o "room"
    color ← get_required get_u32 o "color"
    thickness ← get_required get_u32 o "thickness"
    start ← get_required_point o "start"
    if ltb 255 color || ltb 255 thickness
        then error (invalid_field_type "color or thickness is out of range")
        else value (
            stroke_begin_request (record {
              room = room;
              color = color % 256;
              thickness = thickness % 256;
              start = start;
            }))

  -- A request with a room, and one with a room and a point.
  parse_with_room : (ℕ → ClientMessage) → Json → Expected ClientMessage ProtocolError
  parse_with_room make o = do room ← get_required get_u64 o "room"; value (make room)

  parse_with_point : (ℕ → PointDto → ClientMessage) → Json → Expected ClientMessage ProtocolError
  parse_with_point make o = do
    room ← get_required get_u64 o "room"
    point ← get_required_point o "point"
    value (make room point)

  parse_typed : String → Json → Expected ClientMessage ProtocolError
  parse_typed type o =
      if str_eq type "ping"
      then value ping_request
      else if str_eq type "create_room"
      then value create_room_request
      else if str_eq type "join_room"
      then parse_with_room join_room_request o
      else if str_eq type "leave_room"
      then parse_with_room leave_room_request o
      else if str_eq type "stroke_begin"
      then parse_stroke_begin o
      else if str_eq type "stroke_point"
      then parse_with_point stroke_point_request o
      else if str_eq type "stroke_end"
      then parse_with_room stroke_end_request o
      else if str_eq type "cursor_move"
      then parse_with_point cursor_move_request o
      else if str_eq type "clear"
      then parse_with_room clear_request o
      else error (unknown_message_type (text_append "unknown message type: " type))

  pub parse_object : Json → Expected ClientMessage ProtocolError
  parse_object o =
      if is_object o
      then (get_required get_string o "type" >>= λ type. parse_typed type o)
      else error (invalid_json "root json value must be an object")

  unfoldable pub parse_client_message : String → Expected ClientMessage ProtocolError
  parse_client_message line = elim (parse line) [
    | error what ↦ error (invalid_json what)
    | value o ↦ parse_object o
  ]

  make_point : PointDto → Json
  make_point p = object (("x", of_float p.x) ∷ ("y", of_float p.y) ∷ [])

  make_stroke : StrokeDto → Json
  make_stroke s = object (
      ("id", of_u64 s.id)
      ∷ ("author", of_u64 s.author)
      ∷ ("color", of_u64 s.color)
      ∷ ("thickness", of_u64 s.thickness)
      ∷ ("stroke_order", of_u64 s.stroke_order)
      ∷ ("points", array (map make_point s.points))
      ∷ ("finished", of_bool s.finished)
      ∷ [])

  make_cursor : CursorDto → Json
  make_cursor c = object (("client", of_u64 c.client) ∷ ("point", make_point c.point) ∷ [])

  pub make_message : ServerMessage → Json
  make_message pong_response = object (("type", of_string "pong") ∷ [])
  make_message (room_created_response room) =
      object (("type", of_string "room_created") ∷ ("room", of_u64 room) ∷ [])
  make_message (ok_response request room) =
      object
        (("type", of_string "ok") ∷ ("request", of_string request) ∷ ("room", of_u64 room) ∷ [])
  make_message (error_response code message) =
      object (
        ("type", of_string "error")
        ∷ ("code", of_string code)
        ∷ ("message", of_string message)
        ∷ [])
  make_message (room_snapshot_response s) = object (
      ("type", of_string "room_snapshot")
      ∷ ("room", of_u64 s.room)
      ∷ ("last_seq", of_u64 s.last_seq)
      ∷ ("members", array (map of_u64 s.members))
      ∷ ("strokes", array (map make_stroke s.strokes))
      ∷ ("cursors", array (map make_cursor s.cursors))
      ∷ [])
  make_message (stroke_begin_event e) = object (
      ("type", of_string "stroke_begin")
      ∷ ("room", of_u64 e.room)
      ∷ ("seq", of_u64 e.seq)
      ∷ ("author", of_u64 e.author)
      ∷ ("id", of_u64 e.id)
      ∷ ("stroke_order", of_u64 e.stroke_order)
      ∷ ("color", of_u64 e.color)
      ∷ ("thickness", of_u64 e.thickness)
      ∷ ("start", make_point e.start)
      ∷ [])
  make_message (stroke_point_event room seq author id point) = object (
      ("type", of_string "stroke_point")
      ∷ ("room", of_u64 room)
      ∷ ("seq", of_u64 seq)
      ∷ ("author", of_u64 author)
      ∷ ("id", of_u64 id)
      ∷ ("point", make_point point)
      ∷ [])
  make_message (stroke_end_event room seq author id) = object (
      ("type", of_string "stroke_end")
      ∷ ("room", of_u64 room)
      ∷ ("seq", of_u64 seq)
      ∷ ("author", of_u64 author)
      ∷ ("id", of_u64 id)
      ∷ [])
  make_message (cursor_move_event room seq author point) = object (
      ("type", of_string "cursor_move")
      ∷ ("room", of_u64 room)
      ∷ ("seq", of_u64 seq)
      ∷ ("author", of_u64 author)
      ∷ ("point", make_point point)
      ∷ [])
  make_message (clear_event room seq author) = object (
      ("type", of_string "clear")
      ∷ ("room", of_u64 room)
      ∷ ("seq", of_u64 seq)
      ∷ ("author", of_u64 author)
      ∷ [])
  make_message (member_left_event room seq client) = object (
      ("type", of_string "member_left")
      ∷ ("room", of_u64 room)
      ∷ ("seq", of_u64 seq)
      ∷ ("client", of_u64 client)
      ∷ [])

  -- `none` where the exception leaves the function
  unfoldable pub serialize_server_message : ServerMessage → Option String
  serialize_server_message msg = dump (make_message msg)
