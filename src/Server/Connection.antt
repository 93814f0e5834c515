-- ===== src/Server/Connection.antt =====
-- server/src/client_session.cpp: the loop that reads lines, and the queue of lines to write. Functions
-- on the strand of a session run one at a time, in the order in which they were posted; the completion of
-- an operation on the socket may come at any time. A handler's calls of `deliver` can be seen one by one.
pub mod Invariant
pub mod Reading
pub mod Writing
pub mod Handling
pub mod Kept
use clear_space.Prelude.{
  ◌≡◌, refl, ℕ, zero, suc, String, Bool, true, false, Option, none, some, List, [], ◌∷◌, ◌++◌, map,
  if◌then◌else◌,
}
use clear_space.Core.Types.{ClientId}
use clear_space.Core.ServerCore.{SavePiece}
use clear_space.Server.Session.{Session, Send, Handled}

-- A function that was posted to the strand: of `start`, of `deliver`, and of `stop`.
pub data Task : Type 0 where
  start_reading : Task
  push : (line : String) → Task
  stop : Task

-- What a running handler still has to do: a piece of its call of the core; to send; the end of
-- `stopImpl`; the end of `onReadLine`.
pub data Work : Type 0 where
  save : (piece : SavePiece) → Work
  send : (s : Send) → Work
  close : Work
  read_on : Work

-- `reads` and `writes` are the operations under way on the socket, a write with its line. `delivered` and
-- `written` record all lines that were given to `deliver`, and all that were written without error.
pub record Connection : Type 0 where
  pub session : Session
  pub posted : List Task
  pub work : List Work
  pub reads : ℕ
  pub write_queue : List String
  pub writes : List String
  pub delivered : List String
  pub written : List String

unfoldable pub new_connection : ClientId → Connection
new_connection id = record {
  session = record { client_id = id; current_room = none; stopped = false };
  posted = [];
  work = [];
  reads = 0;
  write_queue = [];
  writes = [];
  delivered = [];
  written = [];
}

unfoldable pub post : Connection → Task → Connection
post k t = record k { posted = k.posted ++ (t ∷ []) }

unfoldable pub start : Connection → Connection
unfolding post
start k = post k start_reading

pub start_session :
    (id : ClientId)
    → (start (new_connection id)).session
      ≡ record { client_id = id; current_room = none; stopped = false }
unfolding start post new_connection
start_session id = refl

-- `line` is the message as a line of text.
unfoldable pub deliver : Connection → String → Connection
unfolding post
deliver k line = record (post k (push line)) { delivered = k.delivered ++ (line ∷ []) }

pub deliver_session : (k : Connection) (line : String) → (deliver k line).session ≡ k.session
unfolding deliver post
deliver_session k line = refl

pub deliver_work : (k : Connection) (line : String) → (deliver k line).work ≡ k.work
unfolding deliver post
deliver_work k line = refl

pub stop_later : Connection → Connection
unfolding post
stop_later k = post k stop

unfoldable pub do_read_line : Connection → Connection
do_read_line k = if k.session.stopped then k else record k { reads = suc k.reads }

abbrev pub write_front : Connection → List String → Connection
write_front k [] = k
write_front k (line ∷ q) = record k { writes = k.writes ++ (line ∷ []) }

unfoldable pub do_write : Connection → Connection
do_write k = if k.session.stopped then k else write_front k k.write_queue

abbrev pub is_empty : List String → Bool
is_empty [] = true
is_empty (x ∷ xs) = false

-- The function that `deliver` posts.
unfoldable pub push_line : Connection → String → Connection
unfolding do_write
push_line k line =
    let k' = record k { write_queue = k.write_queue ++ (line ∷ []) } in
    if is_empty k.write_queue then do_write k' else k'

abbrev pub pop_front : List String → List String
pop_front [] = []
pop_front (x ∷ xs) = xs

-- `onWrite` without an error.
unfoldable pub on_write : Connection → Connection
unfolding do_write
on_write k =
    let k' = record k { write_queue = pop_front k.write_queue } in
    if is_empty k'.write_queue then k' else do_write k'

-- The handler's changes of the session, the rest of its call of the core, its sends, and what it does then.
unfoldable pub begin_work : Connection → Handled → List Work → Connection
begin_work k h rest = record k {
  session = h.session;
  work = map save h.saves ++ (map send h.sends ++ rest);
}

pub begin_work_session :
    (k : Connection) (h : Handled) (rest : List Work) → (begin_work k h rest).session ≡ h.session
unfolding begin_work
begin_work_session k h rest = refl

-- What `stopImpl` does behind its first test.
abbrev pub closing : Session → List Work
closing s = if s.stopped then [] else close ∷ []

abbrev pub rest_of : List Work → List Work
rest_of [] = []
rest_of (w ∷ ws) = ws

-- The end of a piece of work of the handler.
unfoldable pub done_work : Connection → Connection
done_work k = record k { work = rest_of k.work }

-- The end of a piece of work that leaves more pieces of the call of the core.
unfoldable pub saves_on : Connection → List SavePiece → Connection
saves_on k more = record k { work = map save more ++ rest_of k.work }

pub saves_on-session :
    (k : Connection) (more : List SavePiece) → (saves_on k more).session ≡ k.session
unfolding saves_on
saves_on-session k more = refl
