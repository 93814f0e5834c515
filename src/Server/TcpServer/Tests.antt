-- ===== src/Server/TcpServer/Tests.antt =====
-- A server with two clients.
use clear_space.Prelude.{
  ℕ, ◌≡◌, refl, true, false, Option, none, some, List, [], ◌∷◌, ◌++◌, arith, incr64,
}
use clear_space.Core.Types.{error}
use clear_space.Transport.Json.{JsonLibrary}
use clear_space.Transport.JsonProtocol.{parse_client_message, serialize_server_message}
use clear_space.Transport.Messages.{pong_response}
use clear_space.Server.Session.{handle_line}
use clear_space.Server.Session.Runs.{AllAgree}
use clear_space.Server.Connection.{
  Connection, new_connection, post, start, deliver, do_read_line, do_write, push_line, on_write,
  begin_work, done_work,
}
use clear_space.Server.TcpServer.{
  TcpServer, Action, accepts, runs, reads, writes, works, new_server, on_accept, step, run, put,
  line_of, on_connection, run_task, on_read_line, finish_write, do_work, do_send, deliver_own,
  deliver_to, finish_piece, registry_deliver,
}
use clear_space.Server.TcpServer.Invariant.{IsTcpServer, view}
use clear_space.Server.TcpServer.Sending.{registry_deliver_lem}
use clear_space.Server.TcpServer.Runs.{run-AllAgree, run-IsTcpServer}
use clear_space.Server.TcpServer.Delivery.{IsWritten, has_stop, deliver-IsWritten}

-- A library that finds no line well formed.
abbrev strict_json : JsonLibrary
strict_json = record {
  Json = ℕ;
  parse = λ line. error "syntax error";
  is_object = λ v. false;
  contains = λ v key. false;
  at = λ v key. 0;
  get_string = λ v. none;
  get_u64 = some;
  get_u32 = some;
  get_float = some;
  of_string = λ s. 0;
  of_u64 = λ n. n;
  of_float = λ n. n;
  of_bool = λ b. 0;
  array = λ values. 0;
  object = λ fields. 0;
  dump = λ v. some "{}";
}

-- Two clients are accepted; the first one sends a line, and is answered with an error.
abbrev acts : List Action
acts =
    accepts false
    ∷ accepts false
    ∷ runs 1
    ∷ runs 2
    ∷ reads 1 0 (some "hello")
    ∷ works 1
    ∷ works 1
    ∷ []

abbrev server_of : Option TcpServer → TcpServer
server_of none = new_server true
server_of (some n) = n

abbrev connection_of : Option Connection → Connection
connection_of none = new_connection 0
connection_of (some k) = k

abbrev after : TcpServer
after = server_of (run strict_json (new_server true) acts)

abbrev first : Connection
first = connection_of (after.connections 1)

-- The client has its answer waiting, and its next line is read.
arrived :
    (run strict_json (new_server true) acts ≡ some after)
    × (after.connections 1 ≡ some first)
    × (first.session.stopped ≡ false)
    × (first.work ≡ [])
    × (has_stop first.posted ≡ false)
    × (first.delivered ≡ "{}\n" ∷ [])
    × (first.reads ≡ 1)
unfolding run step on_accept on_connection run_task on_read_line do_work do_send deliver_own
    deliver_to finish_piece line_of new_server new_connection post start deliver do_read_line
    begin_work done_work handle_line parse_client_message serialize_server_message incr64
arrived = (refl, refl, refl, refl, refl, refl, refl)

-- Its answer is written.
answered :
    (connection_of (
      (server_of
          (run strict_json (new_server true) (acts ++ (runs 1 ∷ writes 1 false ∷ [])))).connections
        1)).written
    ≡ "{}\n" ∷ []
unfolding run step on_accept on_connection run_task on_read_line do_work do_send deliver_own
    deliver_to finish_piece line_of new_server new_connection post start deliver do_read_line
    begin_work done_work handle_line parse_client_message serialize_server_message incr64 push_line
    do_write finish_write on_write
answered = refl

reached : run strict_json (new_server true) acts ≡ some after
reached = arrived.0

connected : after.connections 1 ≡ some first
connected = arrived.1

running : first.session.stopped ≡ false
running = arrived.2

run-AllAgree_example : AllAgree (view after)
run-AllAgree_example = run-AllAgree strict_json true acts after (omega arith) reached

run-IsTcpServer_example : IsTcpServer after
run-IsTcpServer_example = run-IsTcpServer strict_json true acts after (omega arith) reached

deliver-IsWritten_example : IsWritten strict_json after 1 first.delivered
deliver-IsWritten_example =
    deliver-IsWritten strict_json true acts after 1 first (omega arith) reached connected running
      arrived.3 arrived.4

text : line_of strict_json pong_response ≡ some "{}\n"
unfolding line_of serialize_server_message
text = refl

registry_deliver_lem_example :
    registry_deliver strict_json after 1 pong_response ≡ some (put after 1 (deliver first "{}\n"))
registry_deliver_lem_example =
    registry_deliver_lem strict_json after 1 pong_response "{}\n" first
      (run-IsTcpServer strict_json true acts after (omega arith) reached) connected running text
