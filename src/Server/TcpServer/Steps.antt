-- ===== src/Server/TcpServer/Steps.antt =====
-- Every step of server/src/tcp_server.cpp and its sessions keeps the invariant, and is a handler of
-- Session.Runs or none.
use clear_space.Core.ServerCore.{resume_save}
use clear_space.Server.SessionRegistry.Find.{erase_same}
use clear_space.Prelude.{
  ==_refl, ℕ, zero, suc, ◌+◌, ◌≤◌, ◌<◌, ◌≡◌, ◌≢◌, refl, ap, ◌∙◌, inl, inr, String, Bool, true,
  false, Option, none, some, List, [], ◌∷◌, ◌++◌, arith, subst, u64_mod,
}
use clear_space.Core.Types.{ClientId, TimePoint}
use clear_space.Transport.Json.{JsonLibrary}
use clear_space.Server.SessionRegistry.{remove}
use clear_space.Server.Connection.{
  save, saves_on, saves_on-session, Connection, Task, start_reading, push, stop, Work, send, close,
  read_on, do_read_line, push_line, on_write, done_work, stop_later,
}
use clear_space.Server.Connection.Kept.{
  stop_later-work, done_work-closes, IsKept, stop_later-session, done_work-session,
  do_read_line-IsKept, push_line-IsKept, on_write-IsKept,
}
use clear_space.Server.Connection.Invariant.{
  IsConnection, lines_of, starts_of, reads_of, closes_of, stop_later-IsConnection,
}
use clear_space.Server.Connection.Reading.{start_reading-IsConnection, read_on-IsConnection}
use clear_space.Server.Connection.Writing.{
  push_line-IsConnection, on_write-IsConnection, writes_front,
}
use clear_space.Server.Connection.Handling.{
  done_work-IsConnection, saves_on-IsConnection, saves_on-closes,
}
use clear_space.Server.TcpServer.{
  TcpServer, Action, accepts, runs, reads, writes, works, stops, put, step, run_task, on_read_line,
  finish_write, do_send, finish_piece, do_work, on_connection, when_free,
}
use clear_space.Server.TcpServer.Invariant.{IsTcpServer}
use clear_space.Server.TcpServer.Quiet.{IsQuiet-trans, put-IsQuiet, erase-IsTcpServer}
use clear_space.Server.TcpServer.Sending.{Each, Sent, do_send-Sent}
use clear_space.Server.TcpServer.Handling.{IsNext, quiet-IsNext, stop-IsNext, line-IsNext}
use clear_space.Server.TcpServer.Accepting.{accept-IsNext}

module _ (n : TcpServer) (c : ClientId) (k : Connection) (e : n.connections c ≡ some k)
    (h : IsTcpServer n) where
  private_connection : IsConnection k
  private_connection = (h.connected c k e).0

  quiet :
      (k' : Connection)
      → IsConnection k'
      → k'.session ≡ k.session
      → closes_of k'.work ≡ closes_of k.work
      → IsNext n (put n c k')
  quiet k' i same closes =
      quiet-IsNext n (put n c k') (put-IsQuiet n c k k' e i same (λ entry. closes) h)

  -- The same when no function of the session has changed its work.
  quiet_kept :
      (k0 k' : Connection)
      → IsConnection k'
      → IsKept k0 k'
      → k0.session ≡ k.session
      → k0.work ≡ k.work
      → IsNext n (put n c k')
  quiet_kept k0 k' i kept same_session same_work =
      quiet k' i (kept.session ∙ same_session) (ap closes_of (kept.work ∙ same_work))

  run_task-IsNext :
      (ts : List Task) → k.posted ≡ ts → k.work ≡ [] → Each (IsNext n) (run_task n c k ts)
  unfolding run_task
  run_task-IsNext [] p free = tt
  run_task-IsNext (start_reading ∷ ts) p free =
      let k0 = record k { posted = ts } in
      quiet_kept k0 (do_read_line k0) (start_reading-IsConnection k ts p private_connection)
        (do_read_line-IsKept k0) refl refl
  run_task-IsNext (push line ∷ ts) p free =
      let k0 = record k { posted = ts } in
      quiet_kept k0 (push_line k0 line) (push_line-IsConnection k ts line p private_connection)
        (push_line-IsKept k0 line) refl refl
  run_task-IsNext (stop ∷ ts) p free =
      let i = private_connection in
      stop-IsNext n c k (record k { posted = ts }) e refl refl
        (i.order ∙ ap (λ x. k.written ++ (k.write_queue ++ lines_of x)) p)
        (elim i.one_write [ inl w ↦ inl w | inr (w, s) ↦ inr w ])
        (subst (λ x. k.reads + starts_of x + reads_of k.work ≤ 1) p i.one_read) free h

  on_read_line-IsNext :
      (lib : JsonLibrary) (r : ℕ) (now : TimePoint) (line : Option String)
      → k.reads ≡ r
      → k.work ≡ []
      → Each (IsNext n) (on_read_line lib n c k r now line)
  unfolding on_read_line
  on_read_line-IsNext lib zero now line count free = tt
  on_read_line-IsNext lib (suc r) now none count free =
      let i = private_connection in
      stop-IsNext n c k (record k { reads = r }) e refl refl i.order
        (elim i.one_write [ inl w ↦ inl w | inr (w, s) ↦ inr w ]) (omega (arith, i.one_read, count))
        free h
  on_read_line-IsNext lib (suc r) now (some line) count free =
      line-IsNext lib n c k r now line e count free h

  finish_write-IsNext :
      (ls : List String) (failed : Bool)
      → k.writes ≡ ls
      → k.work ≡ []
      → Each (IsNext n) (finish_write n c k ls failed)
  unfolding finish_write
  finish_write-IsNext [] failed w free = tt
  finish_write-IsNext (line ∷ ls) true w free =
      let i = private_connection in
      stop-IsNext n c k (record k { writes = ls }) e refl refl i.order
        (inr (writes_front k line ls w i).0) i.one_read free h
  finish_write-IsNext (line ∷ ls) false w free =
      let k' = record k { writes = ls; written = k.written ++ (line ∷ []) } in
      quiet_kept k' (on_write k') (on_write-IsConnection k line ls w private_connection)
        (on_write-IsKept k') refl refl

  -- A session that is being closed has stopped.
  close_stopped :
      (ws : List Work)
      → k.work ≡ close ∷ ws
      → (j : Connection) → n.connections c ≡ some j
      → j.session.stopped ≢ false
  close_stopped ws p j at s =
      let same : k ≡ j = cc (e, at) in
      omega (
        arith,
        private_connection.stays_open (ap (λ (x : Connection). x.session.stopped) same ∙ s),
        ap closes_of p,
      )

  do_work-IsNext :
      (lib : JsonLibrary) (ws : List Work) → k.work ≡ ws → Each (IsNext n) (do_work lib n c k ws)
  unfolding do_work finish_piece
  do_work-IsNext lib [] p = tt
  do_work-IsNext lib (save piece ∷ ws) p =
      let (more, given) = resume_save n.core.rooms piece in
      let longer : TcpServer = record n { enqueued = n.enqueued ++ given } in
      let h' : IsTcpServer longer = record {
        connected = h.connected;
        registered = h.registered;
        own = h.own;
        in_use = h.in_use;
      } in
      let i = saves_on-IsConnection k piece ws more p private_connection in
      let q =
        put-IsQuiet longer c k (saves_on k more) e i (saves_on-session k more)
          (λ entry. saves_on-closes k piece ws more p) h' in
      quiet-IsNext n (put longer c (saves_on k more))
        (record { server = q.server; seen = q.seen; next = q.next })
  do_work-IsNext lib (read_on ∷ ws) p =
      quiet (done_work (do_read_line k)) (read_on-IsConnection k ws p private_connection)
        (done_work-session (do_read_line k) ∙ (do_read_line-IsKept k).session)
        (done_work-closes (do_read_line k) read_on ws ((do_read_line-IsKept k).work ∙ p) refl
          ∙ ap closes_of (do_read_line-IsKept k).work)
  do_work-IsNext lib (close ∷ ws) p =
      let removed : TcpServer = record n { registry = remove n.registry c } in
      let h' = erase-IsTcpServer n c (close_stopped ws p) h in
      let i = done_work-IsConnection k close ws p refl private_connection in
      let q =
        put-IsQuiet removed c k (done_work k) e i (done_work-session k)
          (λ entry. absurd (cc (entry, erase_same n.registry.sessions c c (==_refl c)))) h' in
      quiet-IsNext n (put removed c (done_work k))
        (record { server = q.server; seen = q.seen; next = q.next })
  do_work-IsNext lib (send s ∷ ws) p = go (do_send lib n c s) (do_send-Sent lib n c s h)
    where
      go :
          (o : Option TcpServer)
          → Each (Sent lib n) o
          → Each (IsNext n) (elim o [ none ↦ none | some n' ↦ some (finish_piece n' c) ])
      go none sent = tt
      go (some n') (q, keeps) =
          let (k', at, same) = keeps c k e in
          let i =
            done_work-IsConnection k' (send s) ws (same ∙ p) refl (q.server.connected c k' at).0 in
          rw (at, finish_piece)
            (quiet-IsNext n (put n' c (done_work k')) (
              IsQuiet-trans n n' (put n' c (done_work k')) q (
                put-IsQuiet n' c k' (done_work k') at i (done_work-session k')
                  (λ entry. done_work-closes k' (send s) ws (same ∙ p) refl) q.server)))

  when_free-IsNext :
      (o : Option TcpServer) → (k.work ≡ [] → Each (IsNext n) o) → Each (IsNext n) (when_free k o)
  when_free-IsNext o step = go k.work refl
    where
      go : (ws : List Work) → k.work ≡ ws → Each (IsNext n) (elim ws [ [] ↦ o | w ∷ ws ↦ none ])
      go [] free = step free
      go (w ∷ ws) busy = tt

  on_connection-IsNext :
      (lib : JsonLibrary) (a : Action) → Each (IsNext n) (on_connection lib n c (some k) a)
  unfolding on_connection
  on_connection-IsNext lib (accepts failed) = tt
  on_connection-IsNext lib (runs d) =
      when_free-IsNext (run_task n c k k.posted) (run_task-IsNext k.posted refl)
  on_connection-IsNext lib (reads d now line) =
      when_free-IsNext (on_read_line lib n c k k.reads now line)
        (on_read_line-IsNext lib k.reads now line refl)
  on_connection-IsNext lib (writes d failed) =
      when_free-IsNext (finish_write n c k k.writes failed)
        (finish_write-IsNext k.writes failed refl)
  on_connection-IsNext lib (works d) = do_work-IsNext lib k.work refl
  on_connection-IsNext lib (stops d) =
      quiet (stop_later k) (stop_later-IsConnection k private_connection) (stop_later-session k)
        (ap closes_of (stop_later-work k))

module _ (lib : JsonLibrary) (n : TcpServer) (h : IsTcpServer n) where
  no_connection : (c : ClientId) (a : Action) → Each (IsNext n) (on_connection lib n c none a)
  unfolding on_connection
  no_connection c a = tt

  connection_step :
      (c : ClientId) (a : Action) → Each (IsNext n) (on_connection lib n c (n.connections c) a)
  connection_step c a = go (n.connections c) refl
    where
      go :
          (o : Option Connection)
          → n.connections c ≡ o
          → Each (IsNext n) (on_connection lib n c o a)
      go none e = no_connection c a
      go (some k) e = on_connection-IsNext n c k e h lib a

  pub step-IsNext : (a : Action) → n.next_client_id + 1 < u64_mod → Each (IsNext n) (step lib n a)
  unfolding step
  step-IsNext (accepts failed) small = accept-IsNext n failed small h
  step-IsNext (runs c) small = connection_step c (runs c)
  step-IsNext (reads c now line) small = connection_step c (reads c now line)
  step-IsNext (writes c failed) small = connection_step c (writes c failed)
  step-IsNext (works c) small = connection_step c (works c)
  step-IsNext (stops c) small = connection_step c (stops c)
