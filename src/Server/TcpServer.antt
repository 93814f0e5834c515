-- ===== src/Server/TcpServer.antt =====
-- server/src/tcp_server.cpp with all its sessions: a step is what one thread does between two points
-- where others may run, and a run is any list of steps. Boost.Asio is outside: its sockets complete the
-- operations that are under way, in any order and with any result.
pub mod Invariant
pub mod Quiet
pub mod Sending
pub mod Handling
pub mod Accepting
pub mod Steps
pub mod Runs
pub mod Delivery
mod Tests
use Prim.Native.String.{◌++◌ as text_append}
use clear_space.Prelude.{
  ℕ, zero, suc, String, Bool, true, false, not, ◌||◌, Option, none, some, List, [], ◌∷◌, ◌++◌, ◌==◌,
  if◌then◌else◌, incr64,
}
use clear_space.Core.Types.{PersistedBoardSnapshot, ClientId, TimePoint}
use clear_space.Core.ServerCore.{ServerCore, new_core, resume_save}
use clear_space.Transport.Json.{JsonLibrary}
use clear_space.Transport.JsonProtocol.{serialize_server_message}
use clear_space.Transport.Messages.{ServerMessage}
use clear_space.Server.Session.{
  Session, Send, own, through_registry, Handled, handle_line, stop_impl,
}
use clear_space.Server.SessionRegistry.{SessionRegistry, add, remove, find}
use clear_space.Server.Connection.{
  Connection, Task, start_reading, push, stop, Work, save, saves_on, send, close, read_on,
  new_connection, start, deliver, stop_later, do_read_line, push_line, on_write, begin_work,
  closing, done_work,
}

-- The server, with every session that it has made. `enqueued` records the snapshots that the core gave
-- to its sink, in order.
pub record TcpServer : Type 0 where
  pub core : ServerCore
  pub enqueued : List PersistedBoardSnapshot
  pub registry : SessionRegistry
  pub connections : ClientId → Option Connection
  pub next_client_id : ClientId

pub new_server : Bool → TcpServer
new_server with_sink = record {
  core = new_core with_sink;
  enqueued = [];
  registry = record { sessions = [] };
  connections = λ c. none;
  next_client_id = 1;
}

-- What happens next: `accepts` and the completions `reads` and `writes` with their results, the next
-- function on a strand, the next piece of a running handler, and a call of `stop`.
pub data Action : Type 0 where
  accepts : (failed : Bool) → Action
  runs : (c : ClientId) → Action
  reads : (c : ClientId) (now : TimePoint) (line : Option String) → Action
  writes : (c : ClientId) (failed : Bool) → Action
  works : (c : ClientId) → Action
  stops : (c : ClientId) → Action

abbrev pub put : TcpServer → ClientId → Connection → TcpServer
put n c k = record n { connections = λ d. if c == d then some k else n.connections d }

abbrev pub has_any : {A : Type 0} → List A → Bool
has_any [] = false
has_any (x ∷ xs) = true

-- Whether a pending operation, a posted function or a running handler holds the session.
abbrev pub is_held : Connection → Bool
is_held k = not (k.reads == 0) || (has_any k.posted || (has_any k.work || has_any k.writes))

abbrev pub is_alive : TcpServer → ClientId → Bool
is_alive n c = elim (n.connections c) [ none ↦ false | some k ↦ is_held k ]

-- `onAccept`
pub on_accept : TcpServer → Bool → TcpServer
on_accept n failed =
    if failed
    then n
    else (let id = n.next_client_id in
        record (put n id (start (new_connection id))) {
          registry = add n.registry id id;
          next_client_id = incr64 id;
        })

-- A session by its pointer.
pub deliver_to : TcpServer → ClientId → String → TcpServer
deliver_to n c line = elim (n.connections c) [ none ↦ n | some k ↦ put n c (deliver k line) ]

pub finish_piece : TcpServer → ClientId → TcpServer
finish_piece n c = elim (n.connections c) [ none ↦ n | some k ↦ put n c (done_work k) ]

abbrev pub after_handler : TcpServer → ClientId → Connection → Handled → List Work → TcpServer
after_handler n c k h rest = put (record n { core = h.core }) c (begin_work k h rest)

-- `stopImpl`
pub stop_connection : TcpServer → ClientId → Connection → TcpServer
stop_connection n c k = after_handler n c k (stop_impl n.core k.session) (closing k.session)

pub run_task : TcpServer → ClientId → Connection → List Task → Option TcpServer
run_task n c k [] = none
run_task n c k (start_reading ∷ ts) = some (put n c (do_read_line (record k { posted = ts })))
run_task n c k (push line ∷ ts) = some (put n c (push_line (record k { posted = ts }) line))
run_task n c k (stop ∷ ts) = some (stop_connection n c (record k { posted = ts }))

pub finish_write : TcpServer → ClientId → Connection → List String → Bool → Option TcpServer
finish_write n c k [] failed = none
finish_write n c k (line ∷ ls) true = some (stop_connection n c (record k { writes = ls }))
finish_write n c k (line ∷ ls) false =
    some (put n c (on_write (record k { writes = ls; written = k.written ++ (line ∷ []) })))

-- The strand of a session is free when no handler of it is running.
abbrev when_free : Connection → Option TcpServer → Option TcpServer
when_free k n = elim k.work [ [] ↦ n | w ∷ ws ↦ none ]

module _ (lib : JsonLibrary) where
  -- `none` if the serializer throws, which ends the program.
  pub line_of : ServerMessage → Option String
  line_of msg = elim (serialize_server_message lib msg) [
    | none ↦ none
    | some text ↦ some (text_append text "\n")
  ]

  pub deliver_own : TcpServer → ClientId → ServerMessage → Option TcpServer
  deliver_own n c msg = elim (line_of msg) [ none ↦ none | some line ↦ some (deliver_to n c line) ]

  pub deliver_found :
      TcpServer → ServerMessage → Option ClientId × SessionRegistry → Option TcpServer
  unfolding deliver_own
  deliver_found n msg (none, r) = some (record n { registry = r })
  deliver_found n msg (some session, r) = deliver_own (record n { registry = r }) session msg

  -- `SessionRegistry::deliver`
  pub registry_deliver : TcpServer → ClientId → ServerMessage → Option TcpServer
  unfolding deliver_found
  registry_deliver n to msg = deliver_found n msg (find (is_alive n) n.registry to)

  pub do_send : TcpServer → ClientId → Send → Option TcpServer
  unfolding deliver_own
  do_send n c (own msg) = deliver_own n c msg
  do_send n c (through_registry to msg) = registry_deliver n to msg

  do_work : TcpServer → ClientId → Connection → List Work → Option TcpServer
  do_work n c k [] = none
  do_work n c k (save p ∷ ws) =
      let (more, given) = resume_save n.core.rooms p in
      some (put (record n { enqueued = n.enqueued ++ given }) c (saves_on k more))
  do_work n c k (send s ∷ ws) = elim (do_send n c s) [
    | none ↦ none
    | some n' ↦ some (finish_piece n' c)
  ]
  do_work n c k (close ∷ ws) =
      some (put (record n { registry = remove n.registry c }) c (done_work k))
  do_work n c k (read_on ∷ ws) = some (put n c (done_work (do_read_line k)))

  -- `onReadLine`
  on_read_line :
      TcpServer → ClientId → Connection → ℕ → TimePoint → Option String → Option TcpServer
  on_read_line n c k zero now line = none
  on_read_line n c k (suc r) now none = some (stop_connection n c (record k { reads = r }))
  on_read_line n c k (suc r) now (some line) = some (
      after_handler n c (record k { reads = r }) (handle_line lib n.core k.session now line)
        (read_on ∷ []))

  on_connection : TcpServer → ClientId → Option Connection → Action → Option TcpServer
  on_connection n c none a = none
  on_connection n c (some k) (runs _) = when_free k (run_task n c k k.posted)
  on_connection n c (some k) (reads _ now line) = when_free k (on_read_line n c k k.reads now line)
  on_connection n c (some k) (writes _ failed) = when_free k (finish_write n c k k.writes failed)
  on_connection n c (some k) (works _) = do_work n c k k.work
  on_connection n c (some k) (stops _) = some (put n c (stop_later k))
  on_connection n c (some k) (accepts failed) = none

  -- `none` where the server is not at the point of the action.
  pub step : TcpServer → Action → Option TcpServer
  step n (accepts failed) = some (on_accept n failed)
  step n (runs c) = on_connection n c (n.connections c) (runs c)
  step n (reads c now line) = on_connection n c (n.connections c) (reads c now line)
  step n (writes c failed) = on_connection n c (n.connections c) (writes c failed)
  step n (works c) = on_connection n c (n.connections c) (works c)
  step n (stops c) = on_connection n c (n.connections c) (stops c)

  pub run : TcpServer → List Action → Option TcpServer
  run n [] = some n
  run n (a ∷ acts) = elim (step n a) [ none ↦ none | some n' ↦ run n' acts ]
