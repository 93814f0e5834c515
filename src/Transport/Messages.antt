-- ===== src/Transport/Messages.antt =====
-- transport/include/clearspace/transport/messages.hpp: what clients and the server say to each other.
use clear_space.Prelude.{ℕ, String, Bool, List}
use clear_space.Core.Types.{RoomId, ClientId, StrokeId, Seq}

-- Two floats, by their 32-bit patterns.
pub record PointDto : Type 0 where
  pub x : ℕ
  pub y : ℕ

pub record CursorDto : Type 0 where
  pub client : ClientId
  pub point : PointDto

-- `color` and `thickness` are bytes.
pub record StrokeDto : Type 0 where
  pub id : StrokeId
  pub author : ClientId
  pub color : ℕ
  pub thickness : ℕ
  pub stroke_order : Seq
  pub points : List PointDto
  pub finished : Bool

pub record StrokeBeginRequest : Type 0 where
  pub room : RoomId
  pub color : ℕ
  pub thickness : ℕ
  pub start : PointDto

pub data ClientMessage : Type 0 where
  ping_request : ClientMessage
  create_room_request : ClientMessage
  join_room_request : (room : RoomId) → ClientMessage
  leave_room_request : (room : RoomId) → ClientMessage
  stroke_begin_request : StrokeBeginRequest → ClientMessage
  stroke_point_request : (room : RoomId) (point : PointDto) → ClientMessage
  stroke_end_request : (room : RoomId) → ClientMessage
  cursor_move_request : (room : RoomId) (point : PointDto) → ClientMessage
  clear_request : (room : RoomId) → ClientMessage

pub record RoomSnapshotResponse : Type 0 where
  pub room : RoomId
  pub last_seq : Seq
  pub members : List ClientId
  pub strokes : List StrokeDto
  pub cursors : List CursorDto

pub record StrokeBeginEvent : Type 0 where
  pub room : RoomId
  pub seq : Seq
  pub author : ClientId
  pub id : StrokeId
  pub stroke_order : Seq
  pub color : ℕ
  pub thickness : ℕ
  pub start : PointDto

pub data ServerMessage : Type 0 where
  pong_response : ServerMessage
  room_created_response : (room : RoomId) → ServerMessage
  ok_response : (request : String) (room : RoomId) → ServerMessage
  error_response : (code message : String) → ServerMessage
  room_snapshot_response : RoomSnapshotResponse → ServerMessage
  stroke_begin_event : StrokeBeginEvent → ServerMessage
  stroke_point_event :
      (room : RoomId) (seq : Seq) (author : ClientId) (id : StrokeId) (point : PointDto)
      → ServerMessage
  stroke_end_event : (room : RoomId) (seq : Seq) (author : ClientId) (id : StrokeId) → ServerMessage
  cursor_move_event :
      (room : RoomId) (seq : Seq) (author : ClientId) (point : PointDto) → ServerMessage
  clear_event : (room : RoomId) (seq : Seq) (author : ClientId) → ServerMessage
  member_left_event : (room : RoomId) (seq : Seq) (client : ClientId) → ServerMessage
