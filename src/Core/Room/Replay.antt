-- ===== src/Core/Room/Replay.antt =====
-- What the events say to a client that shows the board: a replica of the board that starts from a
-- snapshot and follows the events addressed to its client. The client program is not in this
-- repository; `follow` is the reading of the events that README.md describes.
pub mod Observer
pub mod Joining
use clear_space.Prelude.{
  ℕ, zero, suc, ◌+◌, ◌-◌, ◌*◌, ◌<◌, ◌≡◌, refl, ap, ◌∙◌, inl, inr, Bool, true, false, not, ◌&&◌,
  Option, none, some, List, [], ◌∷◌, ◌++◌, append-nil, arith, ◌==◌, if◌then◌else◌, Bool-cases,
  Option-cases, length, get_elem?, modify, get_elem?-lt, u64_mod, incr64, incr64-eq, All,
}
use clear_space.Prelude.Map.{Map, find, assign, erase, find-assign, find-erase}
use clear_space.Prelude.Members.{contains, insert, remove, contains-insert, contains-remove}
use clear_space.Core.Types.{
  ClientId, StrokeId, Seq, TimePoint, Point, Color, Thickness, Stroke, BoardState, EventPayload,
  stroke_begin, stroke_point, stroke_end, cursor_move, clear, ServerEventPayload, stroke_begin_out,
  stroke_point_out, stroke_end_out, cursor_move_out, clear_out, member_left_out, OutgoingEvent,
  RoomSnapshot,
}
use clear_space.Core.Room.{
  Room, Op, joins, leaves, applies, last_seq, finish, add_point, with_strokes, with_cursors,
  broadcast, end_active, finish_indexed, forget, join, leave, apply_stroke_begin,
  apply_stroke_point, apply_stroke_end, apply_cursor_move, apply_clear, apply_event, apply,
  ensure_member, too_soon, step, run,
}
use clear_space.Core.Room.Index.{IsIndexed}
use clear_space.Core.Room.Invariant.{Inv, HasRoom, active_indexed}
use clear_space.Core.Room.Preservation.{step-Inv}
use clear_space.Core.Room.Counters.{step_seq}
use clear_space.Core.Room.Broadcast.{addressed, sent, addressed-append, addressed-broadcast}

pub record Replica : Type 0 where
  pub last : Seq
  pub board : BoardState

-- The change of the first stroke with this id, `none` if there is none.
unfoldable pub change_stroke : StrokeId → (Stroke → Stroke) → List Stroke → Option (List Stroke)
change_stroke sid f [] = none
change_stroke sid f (s ∷ ss) =
    let rest = change_stroke sid f ss in
    if s.id == sid then some (f s ∷ ss) else elim rest [ none ↦ none | some ss' ↦ some (s ∷ ss') ]

abbrev pub on_strokes : BoardState → Option (List Stroke) → Option BoardState
on_strokes b none = none
on_strokes b (some strokes) = some (with_strokes b strokes)

unfoldable pub follow_payload : BoardState → ServerEventPayload → Option BoardState
unfolding change_stroke
follow_payload b (stroke_begin_out author id order color thickness start) =
    some (with_strokes b (b.strokes ++ (s ∷ [])))
  where
    s : Stroke
    s = record {
      id = id;
      author = author;
      color = color;
      thickness = thickness;
      stroke_order = order;
      points = start ∷ [];
      finished = false;
    }
follow_payload b (stroke_point_out author id p) =
    on_strokes b (change_stroke id (add_point p) b.strokes)
follow_payload b (stroke_end_out author id) = on_strokes b (change_stroke id finish b.strokes)
follow_payload b (cursor_move_out author p) = some (with_cursors b (assign b.cursors author p))
follow_payload b (clear_out author) = some (with_strokes b [])
follow_payload b (member_left_out client) = some (with_cursors b (erase b.cursors client))

abbrev pub with_last : Seq → Option BoardState → Option Replica
with_last seq none = none
with_last seq (some b) = some (record { last = seq; board = b })

-- An event that is not the next one of the sequence, or that names an unknown stroke, is refused.
unfoldable pub follow : Replica → List OutgoingEvent → Option Replica
unfolding follow_payload
follow v [] = some v
follow v (e ∷ es) =
    let next = with_last e.seq (follow_payload v.board e.payload) in
    if e.seq == v.last + 1 then elim next [ none ↦ none | some v' ↦ follow v' es ] else none

-- What a snapshot of the room shows.
unfoldable pub view : Room → Replica
unfolding last_seq
view r = record { last = last_seq r; board = r.board }

-- The client that an operation comes from.
abbrev pub actor : Op → ClientId
actor (joins client) = client
actor (leaves client) = client
actor (applies now client ev) = client

-- Operations of other clients than `c`.
abbrev pub FromOthers : ClientId → List Op → Type 0
FromOthers c = All (λ op. (c == actor op) ≡ false)

-- All that is sent in the course of a run.
unfoldable pub run_sent : Room → List Op → List OutgoingEvent
run_sent r [] = []
run_sent r (op ∷ ops) = sent (step r op).1 ++ run_sent (step r op).0 ops

-- The replica of a client that has just joined.
unfoldable pub of_snapshot : RoomSnapshot → Replica
of_snapshot s = record { last = s.last_seq; board = s.state }
