-- ===== src/Server/TcpServer/Handling.antt =====
-- The steps of server/src/tcp_server.cpp and its sessions in which a handler of a session runs, or a
-- session is accepted, as handlers of Session.Runs.
use clear_space.Prelude.{
  ℕ, suc, ◌≤◌, ◌≡◌, refl, sym, ap, ◌∙◌, ◌⊎◌, inl, inr, String, Bool, true, false, some, List, [],
  ◌∷◌, ◌++◌, length, arith, Bool-cases, ◌==◌, if◌then◌else◌, take,
}
use clear_space.Core.Types.{ClientId, TimePoint}
use clear_space.Core.ServerCore.{ServerCore}
use clear_space.Transport.Json.{JsonLibrary}
use clear_space.Server.Session.{Session, Handled, handle_message, handle_line, stop_impl}
use clear_space.Server.Session.Runs.{
  Handler, messages, stops, handle, handle_all, session_of, settle_handled,
}
use clear_space.Server.Session.Identity.{
  handle_line-cases, handle_line-IsSameSession, stop_impl-stopped,
}
use clear_space.Server.Connection.{Connection, read_on, closing, begin_work, begin_work_session}
use clear_space.Server.Connection.Invariant.{
  closes_of, closes_of-handled, IsConnection, readers, lines_of,
}
use clear_space.Server.Connection.Handling.{line-IsConnection, stopping-IsConnection}
use clear_space.Server.TcpServer.{TcpServer, put, after_handler, stop_connection}
use clear_space.Server.TcpServer.Invariant.{
  IsOpen, IsTcpServer, put-IsTcpServer, view, view-put_same, room_in, stopped_in, world_ext,
}
use clear_space.Server.TcpServer.Quiet.{IsQuiet}

-- From one state of the server to the next: at most one handler has run.
pub record IsNext (n n' : TcpServer) : Type 0 where
  pub server : IsTcpServer n'
  pub handlers : (xs : List Handler) × (length xs ≤ 1) × (view n' ≡ handle_all (view n) xs)
  pub ids : n'.next_client_id ≤ suc n.next_client_id

pub quiet-IsNext : (n n' : TcpServer) → IsQuiet n n' → IsNext n n'
unfolding handle_all
quiet-IsNext n n' q = record {
  server = q.server;
  handlers = ([], omega arith, q.seen);
  ids = omega (arith, q.next);
}

view-after_handler :
    (n : TcpServer) (core : ServerCore) (c : ClientId) (k : Connection) (done : Handled)
    → k.session ≡ done.session
    → core ≡ done.core
    → view (put (record n { core = core }) c k) ≡ settle_handled (view n) c done
view-after_handler n core c k done same same_core = world_ext same_core rooms stops
  where
    rooms :
        (d : ClientId)
        → room_in (if c == d then some k else n.connections d)
          ≡ (if c == d then done.session.current_room else room_in (n.connections d))
    rooms d = elim (Bool-cases (c == d)) [
      | inl s ↦ rw (s) (ap (λ (x : Session). x.current_room) same)
      | inr o ↦ rw (o)
    ]

    stops :
        (d : ClientId)
        → stopped_in (if c == d then some k else n.connections d)
          ≡ (if c == d then done.session.stopped else stopped_in (n.connections d))
    stops d = elim (Bool-cases (c == d)) [
      | inl s ↦ rw (s) (ap (λ (x : Session). x.stopped) same)
      | inr o ↦ rw (o)
    ]

-- The session that a handler finds.
session_of-view :
    (n : TcpServer) (c : ClientId) (k : Connection)
    → n.connections c ≡ some k
    → k.session.client_id ≡ c
    → session_of (view n) c ≡ k.session
session_of-view n c k e id =
    λ i. record { client_id = sym id i; current_room = ap room_in e i; stopped = ap stopped_in e i }

-- A handler of an accepted session.
after_handler-IsNext :
    (n : TcpServer) (c : ClientId) (k k' : Connection) (done : Handled) (x : Handler)
    → n.connections c ≡ some k
    → IsConnection k'
    → k'.session ≡ done.session
    → done.session.client_id ≡ k.session.client_id
    → (done.session.stopped ≡ false → k.session.stopped ≡ false)
    → (IsOpen k → IsOpen k')
    → handle (view n) x ≡ settle_handled (view n) c done
    → IsTcpServer n
    → IsNext n (put (record n { core = done.core }) c k')
unfolding handle_all
after_handler-IsNext n c k k' done x e i same id running usable handled h = record {
  server =
      put-IsTcpServer n done.core c k k' e i (ap (λ x. x.client_id) same ∙ id)
        (λ r. running (sym (ap (λ x. x.stopped) same) ∙ r)) (λ entry. usable) h;
  handlers =
      (x ∷ [], omega arith, view-after_handler n done.core c k' done same refl ∙ sym handled);
  ids = omega arith;
}

-- A handler that leaves the core and its session.
idle-IsNext :
    (n : TcpServer) (c : ClientId) (k k' : Connection) (done : Handled)
    → n.connections c ≡ some k
    → IsConnection k'
    → k'.session ≡ done.session
    → done.core ≡ n.core
    → done.session ≡ k.session
    → (IsOpen k → IsOpen k')
    → IsTcpServer n
    → IsNext n (put (record n { core = done.core }) c k')
unfolding handle_all
idle-IsNext n c k k' done e i same same_core quiet usable h =
    let session = same ∙ quiet in
    record {
      server =
          put-IsTcpServer n done.core c k k' e i (ap (λ x. x.client_id) session)
            (λ r. sym (ap (λ x. x.stopped) session) ∙ r) (λ entry. usable) h;
      handlers = ([], omega arith, view_idle);
      ids = omega arith;
    }
  where
    view_idle : view (put (record n { core = done.core }) c k') ≡ view n
    view_idle =
        view-put_same (record n { core = done.core }) c k k' e (same ∙ quiet)
        ∙ world_ext same_core (λ d. refl) (λ d. refl)

-- An open session with no handler running has not stopped; when it stops, it is to be closed.
stopping_closes :
    (k : Connection) (done : Handled) {stopped : Bool}
    → k.session.stopped ≡ stopped
    → k.work ≡ []
    → (stopped ≡ true → closes_of k.work ≡ 1)
    → closes_of (begin_work k done (closing k.session)).work ≡ 1
unfolding begin_work
stopping_closes k done same free usable =
    closes_of-handled done (closing k.session) ∙ elim (Bool-cases k.session.stopped) [
      | inl s ↦ absurd (omega (arith, ap closes_of free, usable (sym same ∙ s)))
      | inr s ↦ rw (s)
    ]

pub stop-IsNext :
    (n : TcpServer) (c : ClientId) (k k' : Connection)
    → n.connections c ≡ some k
    → k'.session ≡ k.session
    → k'.work ≡ k.work
    → k'.delivered ≡ k'.written ++ (k'.write_queue ++ lines_of k'.posted)
    → (k'.writes ≡ take 1 k'.write_queue) ⊎ (k'.writes ≡ [])
    → readers k' ≤ 1
    → k'.work ≡ []
    → IsTcpServer n
    → IsNext n (stop_connection n c k')
unfolding stop_connection handle
stop-IsNext n c k k' e same same_work order writing few free h =
    let done = stop_impl n.core k'.session in
    let (id, stopped) = stop_impl-stopped n.core k'.session in
    after_handler-IsNext n c k (begin_work k' done (closing k'.session)) done (stops c) e
      (stopping-IsConnection k' done order writing few free stopped)
      (begin_work_session k' done (closing k'.session)) (id ∙ ap (λ x. x.client_id) same)
      (λ r. absurd (cc (r, stopped)))
      (λ usable s.
        stopping_closes k' done (ap (λ x. x.stopped) same) free
          (λ s. ap closes_of same_work ∙ usable s))
      (ap (λ s. settle_handled (view n) c (stop_impl n.core s))
        (session_of-view n c k e (h.connected c k e).1 ∙ sym same))
      h

-- `onReadLine` with a line.
pub line-IsNext :
    (lib : JsonLibrary) (n : TcpServer) (c : ClientId) (k : Connection) (r : ℕ) (now : TimePoint)
    (line : String)
    → n.connections c ≡ some k
    → k.reads ≡ suc r
    → k.work ≡ []
    → IsTcpServer n
    → IsNext n (
        after_handler n c
          (record k { reads = r })
          (handle_line lib n.core k.session now line)
          (read_on ∷ []))
unfolding handle
line-IsNext lib n c k r now line e count free h =
    let done = handle_line lib n.core k.session now line in
    let (id, stopped) = handle_line-IsSameSession lib n.core k.session now line in
    let k' = begin_work (record k { reads = r }) done (read_on ∷ []) in
    let i = line-IsConnection k r done count free stopped (h.connected c k e).0 in
    let same = begin_work_session (record k { reads = r }) done (read_on ∷ []) in
    let usable : IsOpen k → IsOpen k' = (λ was s. absurd (
      omega (
        arith,
        ap closes_of free,
        was (sym stopped ∙ sym (ap (λ (x : Session). x.stopped) same) ∙ s),
      ))) in
    elim (handle_line-cases lib n.core k.session now line) [
      | inr (core, session) ↦ idle-IsNext n c k k' done e i same core session usable h
      | inl (m, handled) ↦
          after_handler-IsNext n c k k' done (messages c now m) e i same id (λ s. sym stopped ∙ s)
            usable
            (ap (λ s. settle_handled (view n) c (handle_message n.core s now m))
                (session_of-view n c k e (h.connected c k e).1)
              ∙ ap (λ x. settle_handled (view n) c x) (sym handled))
            h
    ]
