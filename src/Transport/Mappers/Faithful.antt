-- ===== src/Transport/Mappers/Faithful.antt =====
-- What the messages keep of the core's answers.
use clear_space.Prelude.{
  ℕ, ◌≡◌, refl, sym, ap, ◌∙◌, Option, none, some, List, [], ◌∷◌, map, arith, if◌then◌else◌,
}
use clear_space.Prelude.Map.{Map, find}
use clear_space.Prelude.Members.{contains, IsUnique}
use clear_space.Core.Types.{
  RoomId, ClientId, Seq, Point, ServerEventPayload, stroke_begin_out, stroke_point_out,
  stroke_end_out, cursor_move_out, clear_out, member_left_out, OutgoingEvent, RoomSnapshot,
}
use clear_space.Transport.Messages.{
  CursorDto, ServerMessage, pong_response, stroke_begin_event, stroke_point_event, stroke_end_event,
  cursor_move_event, clear_event, member_left_event,
}
use clear_space.Transport.Mappers.{
  from_core_point, to_core_point, from_core_stroke, from_cursor, to_snapshot_message,
  to_server_message,
}
use clear_space.Transport.Mappers.Sort.{sort_by, lookup_by, HasDistinct, sort_by_canonical}

-- The reading of an event message: room, number and payload.
pub read_event : ServerMessage → Option (RoomId × Seq × ServerEventPayload)
read_event (stroke_begin_event e) = some (
  e.room,
  e.seq,
  stroke_begin_out e.author e.id e.stroke_order e.color e.thickness (to_core_point e.start),
)
read_event (stroke_point_event room seq author id p) =
    some (room, seq, stroke_point_out author id (to_core_point p))
read_event (stroke_end_event room seq author id) = some (room, seq, stroke_end_out author id)
read_event (cursor_move_event room seq author p) =
    some (room, seq, cursor_move_out author (to_core_point p))
read_event (clear_event room seq author) = some (room, seq, clear_out author)
read_event (member_left_event room seq client) = some (room, seq, member_left_out client)
read_event pong_response = none
read_event _ = none

payload_read :
    (room : RoomId) (to : ClientId) (seq : Seq) (p : ServerEventPayload)
    → read_event (to_server_message (record { room = room; to = to; seq = seq; payload = p }))
      ≡ some (room, seq, p)
unfolding read_event to_server_message
payload_read room to seq (stroke_begin_out a i o c t p) = refl
payload_read room to seq (stroke_point_out a i p) = refl
payload_read room to seq (stroke_end_out a i) = refl
payload_read room to seq (cursor_move_out a p) = refl
payload_read room to seq (clear_out a) = refl
payload_read room to seq (member_left_out c) = refl

-- The message of an event gives back its room, its number and its whole payload.
pub read_event-to_server_message :
    (ev : OutgoingEvent) → read_event (to_server_message ev) ≡ some (ev.room, ev.seq, ev.payload)
read_event-to_server_message ev = payload_read ev.room ev.to ev.seq ev.payload

-- Two snapshots of the same board and members, in whatever order the containers are read.
pub record IsSameSnapshot (s t : RoomSnapshot) : Type 0 where
  pub room : s.room ≡ t.room
  pub last_seq : s.last_seq ≡ t.last_seq
  pub strokes : s.state.strokes ≡ t.state.strokes
  pub members : (c : ClientId) → contains s.members c ≡ contains t.members c
  pub cursors : (c : ClientId) → find s.state.cursors c ≡ find t.state.cursors c

-- Each key stands once.
abbrev pub IsKeyed : Map Point → Type 0
IsKeyed [] = Unit {0}
IsKeyed ((c, p) ∷ m) = (find m c ≡ none) × IsKeyed m

lookup_by-contains :
    (xs : List ℕ) (c : ℕ) → lookup_by (λ x. x) xs c ≡ (if contains xs c then some c else none)
unfolding lookup_by contains
lookup_by-contains [] c = refl
lookup_by-contains (x ∷ xs) c = ground (arith, lookup_by-contains xs c)

IsUnique-HasDistinct : (xs : List ℕ) → IsUnique xs → HasDistinct (λ x. x) xs
IsUnique-HasDistinct [] u = tt
IsUnique-HasDistinct (x ∷ xs) u =
    (ground (arith, lookup_by-contains xs x), IsUnique-HasDistinct xs u.1)

abbrev cursor_of : ClientId → Option Point → Option CursorDto
cursor_of c none = none
cursor_of c (some p) = some (record { client = c; point = from_core_point p })

lookup_by-find :
    (m : Map Point) (c : ℕ)
    → lookup_by (λ d. d.client) (map from_cursor m) c ≡ cursor_of c (find m c)
unfolding lookup_by find from_cursor
lookup_by-find [] c = refl
lookup_by-find ((d, p) ∷ m) c = ground (arith, lookup_by-find m c)

IsKeyed-HasDistinct : (m : Map Point) → IsKeyed m → HasDistinct (λ d. d.client) (map from_cursor m)
unfolding from_cursor
IsKeyed-HasDistinct [] u = tt
IsKeyed-HasDistinct ((c, p) ∷ m) u =
    (lookup_by-find m c ∙ ap (cursor_of c) u.0, IsKeyed-HasDistinct m u.1)

-- The snapshot message does not depend on the order in which members and cursors are read.
pub to_snapshot_message_canonical :
    (s t : RoomSnapshot)
    → IsSameSnapshot s t
    → IsUnique s.members
    → IsUnique t.members
    → IsKeyed s.state.cursors
    → IsKeyed t.state.cursors
    → to_snapshot_message s ≡ to_snapshot_message t
unfolding to_snapshot_message
to_snapshot_message_canonical s t e us ut ks kt =
    cc (e.room, e.last_seq, ap (map from_core_stroke) e.strokes, same_members, same_cursors)
  where
    same_members : sort_by (λ c. c) s.members ≡ sort_by (λ c. c) t.members
    same_members =
        sort_by_canonical (λ c. c) s.members t.members (IsUnique-HasDistinct s.members us)
          (IsUnique-HasDistinct t.members ut)
          (λ c.
            lookup_by-contains s.members c
            ∙ rw (e.members c) (sym (lookup_by-contains t.members c)))

    same_cursors :
        sort_by (λ d. d.client) (map from_cursor s.state.cursors)
        ≡ sort_by (λ d. d.client) (map from_cursor t.state.cursors)
    same_cursors =
        sort_by_canonical (λ d. d.client) _ _ (IsKeyed-HasDistinct s.state.cursors ks)
          (IsKeyed-HasDistinct t.state.cursors kt)
          (λ c.
            lookup_by-find s.state.cursors c
            ∙ ap (cursor_of c) (e.cursors c)
            ∙ sym (lookup_by-find t.state.cursors c))
