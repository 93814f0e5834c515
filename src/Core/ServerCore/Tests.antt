-- ===== src/Core/ServerCore/Tests.antt =====
-- Runs of a server, and the theorems about servers at concrete inputs.
use clear_space.Prelude.{
  get_elem?, ℕ, ◌≡◌, refl, true, none, some, List, [], ◌∷◌, ◌++◌, arith, Option, map, if◌then◌else◌,
  ◌==◌,
}
use clear_space.Core.Types.{Stroke, Point, red, thin, stroke_begin, PersistedBoardSnapshot}
use clear_space.Core.Room.{Room, joins, leaves, applies, new_room, step, join_first}
use clear_space.Core.ServerCore.{
  ServerCore, Call, creates, on_room, new_core, create, serve, serve_all, resume_save, hand_over,
}
use clear_space.Core.ServerCore.Invariant.{
  room_of, IsCore, HasSpace, create_fresh, serve_isolated, serve_room, new_core-IsCore,
}
use clear_space.Core.ServerCore.Space.{serve_all-new_core-IsCore, serve_all-new_core-HasSpace}
use clear_space.Core.ServerCore.Threads.{
  Threads, Turn, calls, resumes, called, new_threads, turn, turns,
}
use clear_space.Core.ServerCore.LastLeave.{leave_turns, last_leave_saves}

abbrev origin : Point
origin = record { x = 0; y = 0 }

-- Two rooms; clients 1 and 2 in the first one, where client 1 draws.
abbrev few_calls : List Call
few_calls =
    creates
    ∷ creates
    ∷ on_room 1 (joins 1)
    ∷ on_room 1 (joins 2)
    ∷ on_room 1 (applies 0 1 (stroke_begin red thin origin))
    ∷ []

abbrev busy : ServerCore
busy = serve_all (new_core true) few_calls

busy-IsCore : IsCore busy
busy-IsCore = serve_all-new_core-IsCore true few_calls (omega arith)

busy-HasSpace : HasSpace busy 1
busy-HasSpace = serve_all-new_core-HasSpace true few_calls 1 (omega arith)

serve_all-new_core-IsCore_example : IsCore busy
serve_all-new_core-IsCore_example = serve_all-new_core-IsCore true few_calls (omega arith)

create_fresh_example :
    (room_of busy (create busy).1 ≡ none)
    × (room_of (create busy).0 (create busy).1 ≡ some (new_room (create busy).1))
    × ((b : ℕ) (r : Room) → room_of busy b ≡ some r → room_of (create busy).0 b ≡ some r)
create_fresh_example = create_fresh busy busy-IsCore

serve_isolated_example : room_of (serve busy (on_room 1 (leaves 2))).0 2 ≡ room_of busy 2
serve_isolated_example = serve_isolated busy 1 2 (leaves 2) refl

-- A server with one room, and client 1 in it.
abbrev opened : ServerCore
opened = (create (new_core true)).0

abbrev first_room : ℕ
first_room = (create (new_core true)).1

abbrev entered : ServerCore
entered = (serve opened (on_room first_room (joins 1))).0

abbrev entered_room : Room
entered_room = (step (new_room first_room) (joins 1)).0

entered_has_room : room_of entered first_room ≡ some entered_room
entered_has_room =
    serve_room opened first_room (joins 1) (new_room first_room)
      (create_fresh (new_core true) (new_core-IsCore true)).1

opened_as_run : opened ≡ serve_all (new_core true) (creates ∷ [])
unfolding serve_all serve
opened_as_run = refl

entered_member : entered_room.members ≡ 1 ∷ []
unfolding step
entered_member = join_first first_room 1

-- A client creates a room and joins it.
abbrev entrance : List Turn
entrance = calls 0 creates ∷ calls 0 (on_room first_room (joins 1)) ∷ []

abbrev begun : Threads
begun = called (new_threads true) 0 (serve (new_core true) creates)

abbrev entered_threads : Threads
entered_threads = called begun 0 (serve begun.core (on_room first_room (joins 1)))

entrance_run : turns (new_threads true) entrance ≡ some entered_threads
unfolding turns turn serve new_threads
entrance_run = refl

entered_threads_free : entered_threads.rest 0 ≡ []
unfolding serve
entered_threads_free = refl

entered_threads_room : room_of entered_threads.core first_room ≡ some entered_room
unfolding serve
entered_threads_room = entered_has_room

last_leave_saves_example :
    (w : Threads) × (s : PersistedBoardSnapshot) × (turns entered_threads
        (leave_turns 0 first_room 1)
      ≡ some w)
    × (w.rest 0 ≡ [])
    × (w.enqueued ≡ entered_threads.enqueued ++ (s ∷ []))
    × (s.room ≡ first_room)
    × ((i : ℕ) (z : Stroke) → get_elem? s.strokes i ≡ some z → z.finished ≡ true)
last_leave_saves_example =
    last_leave_saves entrance entered_threads 0 first_room 1 entered_room (omega arith) entrance_run
      entered_threads_free entered_threads_room entered_member

-- A snapshot of an empty board.
abbrev empty_board : ℕ → PersistedBoardSnapshot
empty_board n = record { room = 1; last_seq = n; strokes = [] }

-- Two threads have cleared the board of a room and taken their snapshots.
abbrev racing : Threads
racing = record {
  core = new_core true;
  rest = λ t. if t == 0 then hand_over (empty_board 3) ∷ [] else hand_over (empty_board 4) ∷ [];
  enqueued = [];
}

abbrev given_numbers : Option Threads → List ℕ
given_numbers none = []
given_numbers (some w) = map (λ (s : PersistedBoardSnapshot). s.last_seq) w.enqueued

-- The later one may be handed over first.
later_first : given_numbers (turns racing (resumes 1 ∷ resumes 0 ∷ [])) ≡ 4 ∷ 3 ∷ []
unfolding turns turn resume_save
later_first = refl
