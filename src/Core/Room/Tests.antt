-- ===== src/Core/Room/Tests.antt =====
-- Runs of a room, and the theorems about rooms at concrete inputs.
use clear_space.Prelude.{
  ◌≡◌, refl, true, false, not, ◌&&◌, some, List, [], ◌∷◌, ◌++◌, arith, if◌then◌else◌, ◌==◌,
  get_elem?,
}
use clear_space.Prelude.Words.{incr64}
use clear_space.Prelude.Map.{find, assign, erase}
use clear_space.Prelude.Members.{contains, insert, remove}
use clear_space.Core.Types.{
  Point, Stroke, black, red, thin, medium, stroke_begin, stroke_point, stroke_end, cursor_move,
  clear, stroke_point_out, stroke_end_out, clear_out, member_left_out, protocol_violation, value,
  error,
}
use clear_space.Core.Room.{
  Room, Op, joins, leaves, applies, new_room, join, leave, apply, step, run, broadcast, send_to,
  ensure_member, apply_event, apply_stroke_begin, apply_stroke_point, apply_stroke_end,
  apply_cursor_move, apply_clear, end_active, finish_indexed, forget, too_soon,
}
use clear_space.Core.Room.Invariant.{Inv, HasRoom, new_room-HasRoom}
use clear_space.Core.Room.Preservation.{step-Inv}
use clear_space.Core.Room.Counters.{run-new_room-Inv, run_seq}
use clear_space.Core.Room.Broadcast.{addressed, addressed-broadcast}
use clear_space.Core.Room.Replay.{follow, view, of_snapshot, run_sent}
use clear_space.Core.Room.Replay.Joining.{follow-join}
use clear_space.Core.Room.Strokes.{Grows, stroke_kept}
use clear_space.Core.Room.Outcomes.{apply-refusal, refusal, error_of, is_some, step_unchanged}
use clear_space.Core.Room.Departure.{IsGone, IsKept, leave-IsGone, leave-IsKept}
use clear_space.Core.Room.CursorRate.{IsSpaced, taken, taken-IsSpaced}

abbrev origin : Point
origin = record { x = 0; y = 0 }

abbrev corner : Point
corner = record { x = 0x3f80_0000; y = 0x4000_0000 }

-- Clients 1 and 2 are in the room; client 2 has finished a red stroke and draws a second one.
abbrev history : List Op
history =
    joins 1
    ∷ joins 2
    ∷ applies 0 2 (stroke_begin red thin origin)
    ∷ applies 5 2 (stroke_point corner)
    ∷ applies 9 2 stroke_end
    ∷ applies 12 2 (stroke_begin black medium corner)
    ∷ []

-- A run of room 7 from its start, with all of the room's code open.
ran : List Op → Room
unfolding run step new_room join leave apply ensure_member apply_event apply_stroke_begin
    apply_stroke_point apply_stroke_end apply_cursor_move apply_clear too_soon end_active
    finish_indexed forget broadcast send_to incr64 find assign erase contains insert remove
ran ops = run (new_room 7) ops

abbrev drawing : Room
drawing = run (new_room 7) history

abbrev first_stroke : Stroke
first_stroke = record {
  id = 1;
  author = 2;
  color = red;
  thickness = thin;
  stroke_order = 1;
  points = origin ∷ corner ∷ [];
  finished = true;
}

abbrev second_stroke : Stroke
second_stroke = record {
  id = 2;
  author = 2;
  color = black;
  thickness = medium;
  stroke_order = 4;
  points = corner ∷ [];
  finished = false;
}

drawing_strokes : drawing.board.strokes ≡ first_stroke ∷ second_stroke ∷ []
unfolding ran
drawing_strokes = refl

-- Another point is sent to client 1 alone.
point_sent :
    (step drawing (applies 20 2 (stroke_point origin))).1
    ≡ value (record { room = 7; to = 1; seq = 5; payload = stroke_point_out 2 2 origin } ∷ [])
unfolding ran
point_sent = refl

second_begin_refused :
    (step drawing (applies 20 2 (stroke_begin red thin origin))).1
    ≡ error (protocol_violation "stroke already active")
unfolding ran
second_begin_refused = refl

-- Client 2 leaves in the middle of a stroke: the stroke is ended first, then the departure told.
leave_sent :
    (step drawing (leaves 2)).1
    ≡ value (
        record { room = 7; to = 1; seq = 5; payload = stroke_end_out 2 2 }
        ∷ record { room = 7; to = 1; seq = 6; payload = member_left_out 2 }
        ∷ [])
unfolding ran
leave_sent = refl

-- A stroke cannot be continued once somebody has cleared the board.
point_after_clear :
    (step
      (run (new_room 7) (history ++ (applies 20 1 clear ∷ [])))
      (applies 21 2 (stroke_point origin))).1
    ≡ error (protocol_violation "stroke point without begin")
unfolding ran
point_after_clear = refl

-- Updates of the cursor at 0, 39, 40 and 79 ms: the second and the last come too soon.
abbrev moves : List Op
moves =
    applies 0 1 (cursor_move origin)
    ∷ applies 39_000_000 1 (cursor_move corner)
    ∷ applies 40_000_000 1 (cursor_move corner)
    ∷ applies 79_000_000 1 (cursor_move origin)
    ∷ []

taken-moves : taken 1 drawing moves ≡ 0 ∷ 40_000_000 ∷ []
unfolding ran taken
taken-moves = refl

drawing-Inv : Inv drawing
drawing-Inv = run-new_room-Inv 7 history (omega arith)

drawing-HasRoom : HasRoom drawing 100
drawing-HasRoom = run_seq (new_room 7) history 100 (new_room-HasRoom 7 112 (omega arith))

drawing_member : contains drawing.members 2 ≡ true
unfolding ran
drawing_member = refl

step-Inv_example : Inv (step drawing (leaves 2)).0
step-Inv_example = step-Inv drawing (leaves 2) drawing-Inv (omega (arith, drawing-HasRoom))

abbrev by_others : List Op
by_others = applies 20 2 (stroke_point origin) ∷ leaves 2 ∷ applies 30 1 clear ∷ []

follow-join_example :
    follow (of_snapshot (join drawing 3).1) (addressed 3 (run_sent (join drawing 3).0 by_others))
    ≡ some (view (run (join drawing 3).0 by_others))
follow-join_example =
    follow-join 3 drawing by_others drawing-Inv (omega (arith, drawing-HasRoom))
      (refl, (refl, (refl, tt)))

addressed-broadcast_example : addressed 1 (broadcast drawing 2 5 (clear_out 2)) ≡ (
    if contains drawing.members 1 && not (1 == 2)
    then record { room = drawing.id; to = 1; seq = 5; payload = clear_out 2 } ∷ []
    else [])
addressed-broadcast_example =
    addressed-broadcast drawing 2 5 (clear_out 2) 1 drawing-Inv.present.unique

first_stroke_drawn : get_elem? drawing.board.strokes 0 ≡ some first_stroke
unfolding ran
first_stroke_drawn = refl

stroke_kept_example :
    (t : Stroke) × (get_elem? (step drawing (leaves 2)).0.board.strokes 0 ≡ some t)
    × Grows first_stroke t
    × (first_stroke.finished ≡ true → t ≡ first_stroke)
    × ((first_stroke.author == 2) ≡ false → t ≡ first_stroke)
stroke_kept_example =
    stroke_kept drawing (leaves 2) 0 first_stroke drawing-Inv refl first_stroke_drawn

apply-refusal_example :
    error_of (apply drawing 20 2 stroke_end).1
    ≡ refusal
        (contains drawing.members 2)
        (is_some (find drawing.active_stroke_by_client 2))
        stroke_end
apply-refusal_example = apply-refusal drawing 2 drawing-Inv 20 stroke_end

step_unchanged_example : (step drawing (applies 20 2 (stroke_begin red thin origin))).0 ≡ drawing
step_unchanged_example =
    step_unchanged drawing (applies 20 2 (stroke_begin red thin origin))
      (protocol_violation "stroke already active") second_begin_refused

leave-IsGone_example : IsGone (leave drawing 2).0 2
leave-IsGone_example =
    leave-IsGone drawing 2 drawing-Inv (omega (arith, drawing-HasRoom)) drawing_member

leave-IsKept_example : IsKept drawing (leave drawing 2).0 1
leave-IsKept_example = leave-IsKept drawing 2 1 refl

taken-IsSpaced_example : IsSpaced (find drawing.last_cursor_update 1) (taken 1 drawing moves)
taken-IsSpaced_example = taken-IsSpaced 1 drawing moves (refl, (refl, (refl, (refl, tt))))
