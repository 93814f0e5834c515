-- ===== src/Transport/JsonProtocol/Described.antt =====
-- `parseClientMessage` accepts every line that describes a request.
use clear_space.Prelude.{◌%◌, ◌≤◌, ◌≡◌, refl, String, true, arith}
use clear_space.Core.Types.{value}
use clear_space.Transport.Json.{JsonLibrary}
use clear_space.Transport.Messages.{
  ClientMessage, ping_request, create_room_request, join_room_request, leave_room_request,
  stroke_begin_request, stroke_point_request, stroke_end_request, cursor_move_request,
  clear_request,
}
use clear_space.Transport.JsonProtocol.{
  parse_stroke_begin, parse_with_room, parse_with_point, parse_typed, parse_object,
  parse_client_message,
}
use clear_space.Transport.JsonProtocol.Fields.{
  Has, Describes, Has-get_required, HasPoint-get_required_point,
}

module _ (lib : JsonLibrary) where
  open lib use {Json, parse, is_object, contains, at, get_string, get_u64, get_u32, get_float}

  described_typed :
      (o : Json) (m : ClientMessage)
      → Describes lib o m
      → (type : String) × Has lib get_string o "type" type × (parse_typed lib type o ≡ value m)
  unfolding parse_typed parse_with_room parse_with_point parse_stroke_begin
  described_typed o ping_request h = ("ping", h, refl)
  described_typed o create_room_request h = ("create_room", h, refl)
  described_typed o (join_room_request room) h =
      ("join_room", h.0, rw (Has-get_required lib get_u64 o "room" room h.1))
  described_typed o (leave_room_request room) h =
      ("leave_room", h.0, rw (Has-get_required lib get_u64 o "room" room h.1))
  described_typed o (stroke_begin_request r) h =
      let hc : r.color ≤ 255 = h.5 in
      let ht : r.thickness ≤ 255 = h.6 in
      let ec : r.color % 256 ≡ r.color = omega arith in
      let et : r.thickness % 256 ≡ r.thickness = omega arith in
      (
        "stroke_begin",
        h.0,
        rw
            (
              Has-get_required lib get_u64 o "room" r.room h.1,
              Has-get_required lib get_u32 o "color" r.color h.2,
              Has-get_required lib get_u32 o "thickness" r.thickness h.3,
              HasPoint-get_required_point lib o "start" r.start h.4,
              ec,
              et,
            )
            (ground arith),
      )
  described_typed o (stroke_point_request room p) h = (
    "stroke_point",
    h.0,
    rw (
      Has-get_required lib get_u64 o "room" room h.1,
      HasPoint-get_required_point lib o "point" p h.2,
    ),
  )
  described_typed o (stroke_end_request room) h =
      ("stroke_end", h.0, rw (Has-get_required lib get_u64 o "room" room h.1))
  described_typed o (cursor_move_request room p) h = (
    "cursor_move",
    h.0,
    rw (
      Has-get_required lib get_u64 o "room" room h.1,
      HasPoint-get_required_point lib o "point" p h.2,
    ),
  )
  described_typed o (clear_request room) h =
      ("clear", h.0, rw (Has-get_required lib get_u64 o "room" room h.1))

  -- A line that is a JSON object describing a request is accepted as that request.
  pub Describes-parse_client_message :
      (line : String) (o : Json) (m : ClientMessage)
      → parse line ≡ value o
      → is_object o ≡ true
      → Describes lib o m
      → parse_client_message lib line ≡ value m
  unfolding parse_client_message parse_object
  Describes-parse_client_message line o m e is_o h =
      let (type, has, k) = described_typed o m h in
      rw (e, parse_client_message, is_o, Has-get_required lib get_string o "type" type has) k
