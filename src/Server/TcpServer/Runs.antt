-- ===== src/Server/TcpServer/Runs.antt =====
-- Runs of server/src/tcp_server.cpp and its sessions: what every step keeps holds after any of them.
use clear_space.Prelude.{
  ℕ, suc, ◌+◌, ◌-◌, ◌^◌, ◌≤◌, ◌<◌, ◌≡◌, refl, sym, ap, ◌∙◌, Bool, Option, none, some, List, [], ◌∷◌,
  ◌++◌, length, length-append, arith, subst, u64_mod,
}
use clear_space.Prelude.Map.{find-nil}
use clear_space.Core.Types.{ClientId}
use clear_space.Transport.Json.{JsonLibrary}
use clear_space.Server.Session.Runs.{
  World, Handler, new_world, handle, handle_all, AllAgree, handle_all-new_world-AllAgree,
}
use clear_space.Server.TcpServer.{TcpServer, Action, new_server, step, run}
use clear_space.Server.TcpServer.Invariant.{IsTcpServer, view}
use clear_space.Server.TcpServer.Sending.{Each, Each-map}
use clear_space.Server.TcpServer.Handling.{IsNext}
use clear_space.Server.TcpServer.Steps.{step-IsNext}

handle_all-append :
    (w : World) (xs ys : List Handler) → handle_all w (xs ++ ys) ≡ handle_all (handle_all w xs) ys
unfolding handle_all
handle_all-append w [] ys = refl
handle_all-append w (x ∷ xs) ys = handle_all-append (handle w x) xs ys

-- From a state of the server to one some steps later.
pub record IsLater (n : TcpServer) (steps : ℕ) (n' : TcpServer) : Type 0 where
  pub server : IsTcpServer n'
  pub handlers : (xs : List Handler) × (length xs ≤ steps) × (view n' ≡ handle_all (view n) xs)
  pub ids : n'.next_client_id ≤ n.next_client_id + steps

next-IsLater :
    (n n' n'' : TcpServer) (steps : ℕ)
    → IsNext n n'
    → IsLater n' steps n''
    → IsLater n (suc steps) n''
next-IsLater n n' n'' steps i l =
    let (xs, few, seen) = i.handlers in
    let (ys, few', seen') = l.handlers in
    record {
      server = l.server;
      handlers = (
        xs ++ ys,
        omega (arith, few, few', length-append xs ys),
        seen' ∙ ap (λ w. handle_all w ys) seen ∙ sym (handle_all-append (view n) xs ys),
      );
      ids = omega (arith, i.ids, l.ids);
    }

rest-IsLater :
    (lib : JsonLibrary) (n : TcpServer) (acts : List Action) (o : Option TcpServer)
    → Each (IsNext n) o
    → ((n' : TcpServer) → IsNext n n' → Each (IsLater n' (length acts)) (run lib n' acts))
    → Each (IsLater n (suc (length acts))) (elim o [ none ↦ none | some n' ↦ run lib n' acts ])
rest-IsLater lib n acts none i rest = tt
rest-IsLater lib n acts (some n') i rest =
    Each-map (IsLater n' (length acts)) (IsLater n (suc (length acts))) (run lib n' acts)
      (λ n'' l. next-IsLater n n' n'' (length acts) i l) (rest n' i)

pub run-IsLater :
    (lib : JsonLibrary) (n : TcpServer) (acts : List Action)
    → n.next_client_id + length acts < u64_mod
    → IsTcpServer n
    → Each (IsLater n (length acts)) (run lib n acts)
unfolding run handle_all
run-IsLater lib n [] small h = record {
  server = h;
  handlers = ([], omega arith, refl);
  ids = omega arith;
}
run-IsLater lib n (a ∷ acts) small h =
    rest-IsLater lib n acts (step lib n a) (step-IsNext lib n h a (omega (arith, small)))
      (λ n' i. run-IsLater lib n' acts (omega (arith, small, i.ids)) i.server)

new_server-IsTcpServer : (with_sink : Bool) → IsTcpServer (new_server with_sink)
unfolding new_server
new_server-IsTcpServer b = record {
  connected = λ c k e. absurd (cc (e));
  registered = λ c k e s. absurd (cc (e));
  own = λ c d e. absurd (cc (find-nil {V = ClientId} c, e));
  in_use = λ c d e. absurd (cc (find-nil {V = ClientId} c, e));
}

view-new_server : (with_sink : Bool) → view (new_server with_sink) ≡ new_world with_sink
unfolding new_server new_world
view-new_server b = refl

new_server_ids : (with_sink : Bool) → (new_server with_sink).next_client_id ≡ 1
unfolding new_server
new_server_ids b = refl

reached :
    (lib : JsonLibrary) (with_sink : Bool) (acts : List Action) (n : TcpServer)
    → length acts < 2 ^ 63 - 1
    → run lib (new_server with_sink) acts ≡ some n
    → IsLater (new_server with_sink) (length acts) n
reached lib b acts n few e =
    subst (λ o. Each (IsLater (new_server b) (length acts)) o) e
      (run-IsLater lib (new_server b) acts (omega (arith, few, new_server_ids b))
        (new_server-IsTcpServer b))

-- Whatever a new server, its sockets and its strands do in fewer than 2^63 - 1 steps, its core and its
-- sessions' rooms are as after handlers that run one after the other, no more of them than steps.
run-handle_all :
    (lib : JsonLibrary) (with_sink : Bool) (acts : List Action) (n : TcpServer)
    → length acts < 2 ^ 63 - 1
    → run lib (new_server with_sink) acts ≡ some n
    → (xs : List Handler) × (length xs ≤ length acts)
      × (view n ≡ handle_all (new_world with_sink) xs)
run-handle_all lib b acts n few e =
    let (xs, fewer, seen) = (reached lib b acts n few e).handlers in
    (xs, fewer, seen ∙ ap (λ w. handle_all w xs) (view-new_server b))

-- After any fewer than 2^63 - 1 steps of a new server, each client is a member of the room that its
-- session is in, which exists, and of no other room.
pub run-AllAgree :
    (lib : JsonLibrary) (with_sink : Bool) (acts : List Action) (n : TcpServer)
    → length acts < 2 ^ 63 - 1
    → run lib (new_server with_sink) acts ≡ some n
    → AllAgree (view n)
run-AllAgree lib b acts n few e =
    let (xs, fewer, seen) = run-handle_all lib b acts n few e in
    subst AllAgree (sym seen) (handle_all-new_world-AllAgree b xs (omega (arith, few, fewer)))

-- After any fewer than 2^63 - 1 steps of a new server, in every session: the lines written, those in the
-- queue and those posted are the delivered ones, in their order; at most one write is under way, and it is
-- of the front of the queue; at most one read is. A session that has not stopped is writing if it has a
-- queue, goes on reading, is not closed, and is in the registry under its own id; every entry of the
-- registry is of the session with that id, which has not stopped or is still to be closed by its handler.
pub run-IsTcpServer :
    (lib : JsonLibrary) (with_sink : Bool) (acts : List Action) (n : TcpServer)
    → length acts < 2 ^ 63 - 1
    → run lib (new_server with_sink) acts ≡ some n
    → IsTcpServer n
run-IsTcpServer lib b acts n few e = (reached lib b acts n few e).server
