-- ===== src/Core/Room.antt =====
-- core/src/room.cpp and core/include/clearspace/core/room.hpp: one room with its members, its board and its counters. A method
-- returns the new state; the lock that each public method takes makes it one step.
mod Index
mod Active
mod Order
mod Presence
pub mod Invariant
pub mod Preservation
pub mod Counters
pub mod Growth
pub mod Broadcast
pub mod Replay
pub mod Strokes
pub mod Outcomes
pub mod Departure
pub mod Membership
pub mod CursorRate
mod Tests
use clear_space.Prelude.{
  ℕ, ◌≡◌, refl, arith, ◌-◌, Bool, true, false, Option, none, some, List, [], ◌∷◌, ◌++◌, ltb, ◌==◌,
  if◌then◌else◌, length, modify, incr64,
}
use clear_space.Prelude.Map.{Map, find, assign, erase}
use clear_space.Prelude.Members.{contains, insert, remove}
use clear_space.Core.Types.{
  RoomId, ClientId, StrokeId, Seq, TimePoint, cursor_min_interval, Point, Color, Thickness, Stroke,
  BoardState, EventPayload, stroke_begin, stroke_point, stroke_end, cursor_move, clear,
  ServerEventPayload, stroke_begin_out, stroke_point_out, stroke_end_out, cursor_move_out,
  clear_out, member_left_out, OutgoingEvent, Error, not_in_room, protocol_violation, Expected,
  value, error, RoomSnapshot, PersistedBoardSnapshot,
}

pub record Room : Type 0 where
  pub id : RoomId
  pub members : List ClientId
  pub board : BoardState
  pub next_seq : Seq
  pub next_stroke_id : StrokeId
  pub last_cursor_update : Map TimePoint
  pub active_stroke_by_client : Map StrokeId
  pub stroke_index_by_id : Map ℕ

abbrev pub Events : Type 0
Events = Expected (List OutgoingEvent) Error

-- Room::Room
pub new_room : RoomId → Room
new_room id = record {
  id = id;
  members = [];
  board = record { strokes = []; cursors = [] };
  next_seq = 1;
  next_stroke_id = 1;
  last_cursor_update = [];
  active_stroke_by_client = [];
  stroke_index_by_id = [];
}

pub member_count : Room → ℕ
member_count r = length r.members

pub last_seq : Room → Seq
last_seq r = if r.next_seq == 0 then 0 else r.next_seq - 1

pub make_persisted_snapshot : Room → PersistedBoardSnapshot
unfolding last_seq
make_persisted_snapshot r = record { room = r.id; last_seq = last_seq r; strokes = r.board.strokes }

pub ensure_member : Room → ClientId → Expected (Unit {0}) Error
ensure_member r client = if contains r.members client then value tt else error not_in_room

-- The loop of `broadcast_`: one event for each member but the sender.
pub send_to : RoomId → ClientId → Seq → ServerEventPayload → List ClientId → List OutgoingEvent
send_to room from seq payload [] = []
send_to room from seq payload (m ∷ ms) =
    let rest = send_to room from seq payload ms in
    if m == from then rest else record { room = room; to = m; seq = seq; payload = payload } ∷ rest

pub broadcast : Room → ClientId → Seq → ServerEventPayload → List OutgoingEvent
broadcast r from seq payload = send_to r.id from seq payload r.members

pub join : Room → ClientId → Room × RoomSnapshot
unfolding last_seq
join r client =
    let r' = record r { members = insert r.members client } in
    (r', record { room = r'.id; last_seq = last_seq r'; state = r'.board; members = r'.members })

abbrev pub finish : Stroke → Stroke
finish s = record s { finished = true }

abbrev pub add_point : Point → Stroke → Stroke
add_point p s = record s { points = s.points ++ (p ∷ []) }

abbrev pub with_strokes : BoardState → List Stroke → BoardState
with_strokes b strokes = record b { strokes = strokes }

abbrev pub with_cursors : BoardState → Map Point → BoardState
with_cursors b cursors = record b { cursors = cursors }

-- `board_.strokes[itIdx->second].finished = true`, if the index has the stroke.
pub finish_indexed : Option ℕ → List Stroke → List Stroke
finish_indexed none strokes = strokes
finish_indexed (some i) strokes = modify strokes i finish

-- The part of `leave` that ends the client's active stroke.
pub end_active : Room → ClientId → Option StrokeId → Room × List OutgoingEvent
unfolding finish_indexed
end_active r client none = (r, [])
end_active r client (some sid) = (
  record r {
    board = with_strokes r.board (finish_indexed (find r.stroke_index_by_id sid) r.board.strokes);
    active_stroke_by_client = erase r.active_stroke_by_client client;
    next_seq = incr64 r.next_seq;
  },
  broadcast r client r.next_seq (stroke_end_out client sid),
)

-- The part of `leave` that forgets the client.
pub forget : Room → ClientId → Room
forget r client = record r {
  board = with_cursors r.board (erase r.board.cursors client);
  last_cursor_update = erase r.last_cursor_update client;
  members = remove r.members client;
}

pub leave : Room → ClientId → Room × Events
leave r client =
    if contains r.members client
    then (let ended = end_active r client (find r.active_stroke_by_client client) in
        let r' = forget ended.0 client in
        (
          record r' { next_seq = incr64 r'.next_seq },
          value (ended.1 ++ broadcast r' client r'.next_seq (member_left_out client)),
        ))
    else (r, error not_in_room)

pub apply_stroke_begin : Room → ClientId → Color → Thickness → Point → Room × Events
apply_stroke_begin r client color thickness start = elim (find r.active_stroke_by_client client) [
  | some _ ↦ (r, error (protocol_violation "stroke already active"))
  | none ↦ (
    record r {
      board = with_strokes r.board (r.board.strokes ++ (s ∷ []));
      next_seq = incr64 r.next_seq;
      next_stroke_id = incr64 r.next_stroke_id;
      active_stroke_by_client = assign r.active_stroke_by_client client r.next_stroke_id;
      stroke_index_by_id = assign r.stroke_index_by_id r.next_stroke_id (length r.board.strokes);
    },
    value (
        broadcast r client r.next_seq
          (stroke_begin_out client r.next_stroke_id r.next_seq color thickness start)),
  )
]
  where
    s : Stroke
    s = record {
      id = r.next_stroke_id;
      author = client;
      color = color;
      thickness = thickness;
      stroke_order = r.next_seq;
      points = start ∷ [];
      finished = false;
    }

pub apply_stroke_point : Room → ClientId → Point → Room × Events
apply_stroke_point r client p = elim (find r.active_stroke_by_client client) [
  | none ↦ (r, error (protocol_violation "stroke point without begin"))
  | some sid ↦ elim (find r.stroke_index_by_id sid) [
    | none ↦ (r, error (protocol_violation "unknown stroke id"))
    | some i ↦ (
      record r {
        board = with_strokes r.board (modify r.board.strokes i (add_point p));
        next_seq = incr64 r.next_seq;
      },
      value (broadcast r client r.next_seq (stroke_point_out client sid p)),
    )
  ]
]

pub apply_stroke_end : Room → ClientId → Room × Events
apply_stroke_end r client = elim (find r.active_stroke_by_client client) [
  | none ↦ (r, error (protocol_violation "stroke end without begin"))
  | some sid ↦ elim (find r.stroke_index_by_id sid) [
    | none ↦ (r, error (protocol_violation "unknown stroke id"))
    | some i ↦ (
      record r {
        board = with_strokes r.board (modify r.board.strokes i finish);
        active_stroke_by_client = erase r.active_stroke_by_client client;
        next_seq = incr64 r.next_seq;
      },
      value (broadcast r client r.next_seq (stroke_end_out client sid)),
    )
  ]
]

-- `itLast != end && now - itLast->second < kCursorMinInterval`. The source's difference is signed; a
-- negative one is below the interval too, as is the 0 of the natural numbers.
pub too_soon : TimePoint → Option TimePoint → Bool
too_soon now none = false
too_soon now (some last) = ltb (now - last) cursor_min_interval

-- `now` is what the time provider answers to the call.
pub apply_cursor_move : Room → TimePoint → ClientId → Point → Room × Events
unfolding too_soon
apply_cursor_move r now client p =
    if too_soon now (find r.last_cursor_update client) then (r, value []) else (
      record r {
        last_cursor_update = assign r.last_cursor_update client now;
        board = with_cursors r.board (assign r.board.cursors client p);
        next_seq = incr64 r.next_seq;
      },
      value (broadcast r client r.next_seq (cursor_move_out client p)),
    )

pub apply_clear : Room → ClientId → Room × Events
apply_clear r client = (
  record r {
    board = with_strokes r.board [];
    active_stroke_by_client = [];
    stroke_index_by_id = [];
    next_seq = incr64 r.next_seq;
  },
  value (broadcast r client r.next_seq (clear_out client)),
)

-- The dispatch of `apply` on the kind of event.
pub apply_event : Room → TimePoint → ClientId → EventPayload → Room × Events
apply_event r now client (stroke_begin color thickness start) =
    apply_stroke_begin r client color thickness start
apply_event r now client (stroke_point p) = apply_stroke_point r client p
apply_event r now client stroke_end = apply_stroke_end r client
apply_event r now client (cursor_move p) = apply_cursor_move r now client p
apply_event r now client clear = apply_clear r client

pub apply : Room → TimePoint → ClientId → EventPayload → Room × Events
unfolding ensure_member
apply r now client ev = elim (ensure_member r client) [
  | error e ↦ (r, error e)
  | value _ ↦ apply_event r now client ev
]

-- The public operations that change a room.
pub data Op : Type 0 where
  joins : (client : ClientId) → Op
  leaves : (client : ClientId) → Op
  applies : (now : TimePoint) (client : ClientId) (ev : EventPayload) → Op

-- The room after a call, and the events to send. `join` sends none.
unfoldable pub step : Room → Op → Room × Events
step r (joins client) = ((join r client).0, value [])
step r (leaves client) = leave r client
step r (applies now client ev) = apply r now client ev

pub run : Room → List Op → Room
run r [] = r
run r (op ∷ ops) = run (step r op).0 ops

pub new_room-id : (id : RoomId) → (new_room id).id ≡ id
unfolding new_room
new_room-id id = refl

pub member_count_lem : (r : Room) → member_count r ≡ length r.members
unfolding member_count
member_count_lem r = refl

pub make_persisted_snapshot_lem :
    (r : Room)
    → make_persisted_snapshot r
      ≡ record { room = r.id; last_seq = r.next_seq - 1; strokes = r.board.strokes }
unfolding make_persisted_snapshot
make_persisted_snapshot_lem r = ground arith

-- The first client that joins is the only member.
pub join_first :
    (id : RoomId) (client : ClientId) → (join (new_room id) client).0.members ≡ client ∷ []
unfolding join new_room insert
join_first id client = refl
