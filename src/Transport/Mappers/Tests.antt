-- ===== src/Transport/Mappers/Tests.antt =====
-- Messages of concrete answers, and the theorems about mappers at concrete inputs.
use clear_space.Prelude.{◌≡◌, refl, some, [], ◌∷◌, arith}
use clear_space.Prelude.Map.{find}
use clear_space.Prelude.Members.{IsUnique, contains}
use clear_space.Core.Types.{
  Point, stroke_point_out, OutgoingEvent, invalid_params, error, RoomSnapshot,
}
use clear_space.Transport.Messages.{StrokeBeginRequest}
use clear_space.Transport.Mappers.{to_core_begin, to_snapshot_message, to_server_message}
use clear_space.Transport.Mappers.Faithful.{
  read_event, read_event-to_server_message, IsSameSnapshot, IsKeyed, to_snapshot_message_canonical,
}

abbrev origin : Point
origin = record { x = 0; y = 0 }

abbrev request : StrokeBeginRequest
request = record { room = 1; color = 4; thickness = 2; start = record { x = 0; y = 0 } }

bad_color : to_core_begin request ≡ error (invalid_params "invalid color")
unfolding to_core_begin
bad_color = refl

abbrev event : OutgoingEvent
event = record { room = 3; to = 4; seq = 9; payload = stroke_point_out 5 6 origin }

read_event-to_server_message_example :
    read_event (to_server_message event) ≡ some (3, 9, stroke_point_out 5 6 origin)
read_event-to_server_message_example = read_event-to_server_message event

-- The same room, its containers read in two orders.
abbrev forwards : RoomSnapshot
forwards = record {
  room = 1;
  last_seq = 4;
  state = record { strokes = []; cursors = (1, origin) ∷ (2, origin) ∷ [] };
  members = 1 ∷ 2 ∷ 3 ∷ [];
}

abbrev backwards : RoomSnapshot
backwards = record {
  room = 1;
  last_seq = 4;
  state = record { strokes = []; cursors = (2, origin) ∷ (1, origin) ∷ [] };
  members = 3 ∷ 1 ∷ 2 ∷ [];
}

same_snapshot : IsSameSnapshot forwards backwards
unfolding find contains
same_snapshot = record {
  room = refl;
  last_seq = refl;
  strokes = refl;
  members = λ c. ground arith;
  cursors = λ c. ground arith;
}

forwards-IsKeyed : IsKeyed forwards.state.cursors
unfolding find
forwards-IsKeyed = (refl, (refl, tt))

backwards-IsKeyed : IsKeyed backwards.state.cursors
unfolding find
backwards-IsKeyed = (refl, (refl, tt))

forwards-IsUnique : IsUnique forwards.members
unfolding contains
forwards-IsUnique = (refl, (refl, (refl, tt)))

backwards-IsUnique : IsUnique backwards.members
unfolding contains
backwards-IsUnique = (refl, (refl, (refl, tt)))

to_snapshot_message_canonical_example : to_snapshot_message forwards ≡ to_snapshot_message backwards
to_snapshot_message_canonical_example =
    to_snapshot_message_canonical forwards backwards same_snapshot forwards-IsUnique
      backwards-IsUnique forwards-IsKeyed backwards-IsKeyed
