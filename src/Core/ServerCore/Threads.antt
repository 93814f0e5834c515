-- ===== src/Core/ServerCore/Threads.antt =====
-- Calls of core/src/server_core.cpp on several threads. Others may run wherever a call has released the
-- lock of its room; a thread makes one call at a time.
use clear_space.Prelude.{ℕ, Option, none, some, List, [], ◌∷◌, ◌++◌, Bool, ◌==◌, if◌then◌else◌}
use clear_space.Core.Types.{PersistedBoardSnapshot}
use clear_space.Core.Room.{Events}
use clear_space.Core.ServerCore.{ServerCore, SavePiece, Call, serve, resume_save, new_core}

-- The core, what the call of each thread has still to do, and what the sink was given, in order.
pub record Threads : Type 0 where
  pub core : ServerCore
  pub rest : ℕ → List SavePiece
  pub enqueued : List PersistedBoardSnapshot

-- A new server, with no call under way.
unfoldable pub new_threads : Bool → Threads
new_threads with_sink = record { core = new_core with_sink; rest = λ t. []; enqueued = [] }

-- A thread starts a call, or goes on with the one that it is in.
pub data Turn : Type 0 where
  calls : (thread : ℕ) (call : Call) → Turn
  resumes : (thread : ℕ) → Turn

abbrev pub called : Threads → ℕ → ServerCore × Events × List SavePiece → Threads
called w t (core, res, rest) = record w {
  core = core;
  rest = λ u. if t == u then rest else w.rest u;
}

abbrev pub resumed :
    Threads → ℕ → List SavePiece → List SavePiece × List PersistedBoardSnapshot → Threads
resumed w t ps (more, given) = record w {
  rest = λ u. if t == u then more ++ ps else w.rest u;
  enqueued = w.enqueued ++ given;
}

unfoldable pub turn : Threads → Turn → Option Threads
turn w (calls t call) = elim (w.rest t) [
  | [] ↦ some (called w t (serve w.core call))
  | p ∷ ps ↦ none
]
turn w (resumes t) = elim (w.rest t) [
  | [] ↦ none
  | p ∷ ps ↦ some (resumed w t ps (resume_save w.core.rooms p))
]

unfoldable pub turns : Threads → List Turn → Option Threads
turns w [] = some w
turns w (x ∷ xs) = elim (turn w x) [ none ↦ none | some w' ↦ turns w' xs ]
