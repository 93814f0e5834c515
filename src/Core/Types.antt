-- ===== src/Core/Types.antt =====
-- core/include/clearspace/core: types.hpp, geometry.hpp, drawing.hpp, events.hpp, errors.hpp,
-- expected.hpp, snapshot.hpp, snapshot_sink.hpp and config.hpp.
use clear_space.Prelude.{ℕ, ◌*◌, String, Bool, List}
use clear_space.Prelude.Map.{Map}

-- std::uint64_t ids and counters.
abbrev pub RoomId : Type 0
RoomId = ℕ

abbrev pub ClientId : Type 0
ClientId = ℕ

abbrev pub StrokeId : Type 0
StrokeId = ℕ

abbrev pub Seq : Type 0
Seq = ℕ

-- A reading of the steady clock, in its ticks since its epoch.
abbrev pub TimePoint : Type 0
TimePoint = ℕ

-- The clock ticks in nanoseconds: 40 milliseconds.
abbrev pub cursor_min_interval : ℕ
cursor_min_interval = 40 * 1_000_000

-- The two floats by their 32-bit patterns. The server copies coordinates and never computes with them.
pub record Point : Type 0 where
  pub x : ℕ
  pub y : ℕ

-- `enum class Color : std::uint8_t`. Such an object holds any byte, and one that is read back from a
-- snapshot may be none of the named values.
abbrev pub Color : Type 0
Color = ℕ

abbrev pub black : Color
black = 0

abbrev pub red : Color
red = 1

abbrev pub green : Color
green = 2

abbrev pub blue : Color
blue = 3

-- `enum class Thickness : std::uint8_t`
abbrev pub Thickness : Type 0
Thickness = ℕ

abbrev pub thin : Thickness
thin = 0

abbrev pub medium : Thickness
medium = 1

abbrev pub thick : Thickness
thick = 2

pub record Stroke : Type 0 where
  pub id : StrokeId
  pub author : ClientId
  pub color : Color
  pub thickness : Thickness
  pub stroke_order : Seq
  pub points : List Point
  pub finished : Bool

pub record BoardState : Type 0 where
  pub strokes : List Stroke
  pub cursors : Map Point

-- What a client asks for: `EventPayload`.
pub data EventPayload : Type 0 where
  stroke_begin : (color : Color) (thickness : Thickness) (start : Point) → EventPayload
  stroke_point : (p : Point) → EventPayload
  stroke_end : EventPayload
  cursor_move : (p : Point) → EventPayload
  clear : EventPayload

-- What the others are told: `ServerEventPayload`.
pub data ServerEventPayload : Type 0 where
  stroke_begin_out :
      (author : ClientId) (id : StrokeId) (stroke_order : Seq) (color : Color)
      (thickness : Thickness) (start : Point)
      → ServerEventPayload
  stroke_point_out : (author : ClientId) (id : StrokeId) (p : Point) → ServerEventPayload
  stroke_end_out : (author : ClientId) (id : StrokeId) → ServerEventPayload
  cursor_move_out : (author : ClientId) (p : Point) → ServerEventPayload
  clear_out : (author : ClientId) → ServerEventPayload
  member_left_out : (client : ClientId) → ServerEventPayload

pub record OutgoingEvent : Type 0 where
  pub room : RoomId
  pub to : ClientId
  pub seq : Seq
  pub payload : ServerEventPayload

pub data ErrorCode : Type 0 where
  room_not_found_code not_in_room_code protocol_violation_code invalid_params_code : ErrorCode

pub record Error : Type 0 where
  pub code : ErrorCode
  pub message : String

abbrev pub room_not_found : Error
room_not_found = record { code = room_not_found_code; message = "room not found" }

abbrev pub not_in_room : Error
not_in_room = record { code = not_in_room_code; message = "client is not in room" }

abbrev pub protocol_violation : String → Error
protocol_violation msg = record { code = protocol_violation_code; message = msg }

abbrev pub invalid_params : String → Error
invalid_params msg = record { code = invalid_params_code; message = msg }

-- The template of expected.hpp: a value or an error.
pub data Expected {ℓ κ} (T : Type ℓ) (E : Type κ) : Type (ℓ ⊔ κ) where
  value : T → Expected T E
  error : E → Expected T E

pub record RoomSnapshot : Type 0 where
  pub room : RoomId
  pub last_seq : Seq
  pub state : BoardState
  pub members : List ClientId

pub record PersistedBoardSnapshot : Type 0 where
  pub room : RoomId
  pub last_seq : Seq
  pub strokes : List Stroke
