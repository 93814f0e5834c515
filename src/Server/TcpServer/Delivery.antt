-- ===== src/Server/TcpServer/Delivery.antt =====
-- Lines that were given to `deliver` of server/src/client_session.cpp get written.
use clear_space.Prelude.{
  ◌-◌, ◌^◌, ◌<◌, ◌≡◌, refl, sym, ap, ◌∙◌, ◌⊎◌, inl, inr, String, Bool, true, false, some, List, [],
  ◌∷◌, ◌++◌, append-nil, subst, length, take, All,
}
use clear_space.Core.Types.{ClientId}
use clear_space.Transport.Json.{JsonLibrary}
use clear_space.Server.Session.{Session}
use clear_space.Server.Connection.{
  Connection, Task, start_reading, push, stop, do_read_line, push_line, on_write, pop_front,
}
use clear_space.Server.Connection.Invariant.{IsConnection, lines_of}
use clear_space.Server.Connection.Reading.{start_reading-IsConnection}
use clear_space.Server.Connection.Writing.{push_line-IsConnection, on_write-IsConnection}
use clear_space.Server.Connection.Kept.{
  IsKept, do_read_line-IsKept, push_line-IsKept, on_write-IsKept, on_write-queue,
}
use clear_space.Server.TcpServer.{
  TcpServer, Action, runs, writes, new_server, put, step, run, on_connection, run_task,
  finish_write,
}
use clear_space.Server.TcpServer.Invariant.{put_here}
use clear_space.Server.TcpServer.Runs.{run-IsTcpServer}

-- A posted function of the session runs, or a write of it ends well.
abbrev pub IsOwnStep : ClientId → Action → Type 0
IsOwnStep c a = (a ≡ runs c) ⊎ (a ≡ writes c false)

abbrev pub has_stop : List Task → Bool
has_stop [] = false
has_stop (start_reading ∷ ts) = has_stop ts
has_stop (push line ∷ ts) = has_stop ts
has_stop (stop ∷ ts) = true

-- Steps of the session alone, after which it has written all these lines and has not stopped.
pub record IsWritten (lib : JsonLibrary) (n : TcpServer) (c : ClientId) (lines : List String)
    : Type 0 where
  pub acts : List Action
  pub own : All (IsOwnStep c) acts
  pub after : TcpServer
  pub connection : Connection
  pub reached : run lib n acts ≡ some after
  pub there : after.connections c ≡ some connection
  pub written : connection.written ≡ lines
  pub running : connection.session.stopped ≡ false

module _ (lib : JsonLibrary) (c : ClientId) where
  step-IsWritten :
      (n n' : TcpServer) (a : Action) (lines : List String)
      → IsOwnStep c a
      → step lib n a ≡ some n'
      → IsWritten lib n' c lines
      → IsWritten lib n c lines
  unfolding run
  step-IsWritten n n' a lines own e w = record {
    acts = a ∷ w.acts;
    own = (own, w.own);
    after = w.after;
    connection = w.connection;
    reached = rw (e, run) w.reached;
    there = w.there;
    written = w.written;
    running = w.running;
  }

  -- A session that can take its own steps.
  record IsFree (n : TcpServer) (k : Connection) (ts : List Task) : Type 0 where
    there : n.connections c ≡ some k
    sound : IsConnection k
    idle : k.work ≡ []
    running : k.session.stopped ≡ false
    posted : k.posted ≡ ts

  put-IsFree :
      (n : TcpServer) (k k' : Connection) (ts : List Task)
      → IsConnection k'
      → IsKept (record k { posted = ts }) k'
      → k.work ≡ []
      → k.session.stopped ≡ false
      → IsFree (put n c k') k' ts
  put-IsFree n k k' ts i kept idle running = record {
    there = put_here n c k';
    sound = i;
    idle = kept.work ∙ idle;
    running = ap (λ (s : Session). s.stopped) kept.session ∙ running;
    posted = kept.posted;
  }

  runs-step :
      (n : TcpServer) (k : Connection) (ts : List Task)
      → IsFree n k ts
      → step lib n (runs c) ≡ run_task n c k ts
  unfolding step on_connection
  runs-step n k ts f = rw (f.there, on_connection, f.idle, f.posted)

  writes-step :
      (n : TcpServer) (k : Connection) (ls : List String)
      → IsFree n k []
      → k.writes ≡ ls
      → step lib n (writes c false) ≡ finish_write n c k ls false
  unfolding step on_connection
  writes-step n k ls f w = rw (f.there, on_connection, f.idle, w)

  front-writing :
      (k : Connection) (line : String) (q : List String)
      → IsConnection k
      → k.session.stopped ≡ false
      → k.write_queue ≡ line ∷ q
      → k.writes ≡ line ∷ []
  front-writing k line q i running full = elim i.one_write [
    | inl w ↦ w ∙ ap (take 1) full
    | inr (w, s) ↦ absurd (cc (s, running))
  ]

  write_queue-IsWritten :
      (q : List String) (n : TcpServer) (k : Connection)
      → IsFree n k []
      → k.write_queue ≡ q
      → IsWritten lib n c k.delivered
  unfolding run finish_write
  write_queue-IsWritten [] n k f empty = record {
    acts = [];
    own = tt;
    after = n;
    connection = k;
    reached = refl;
    there = f.there;
    written = sym (
        f.sound.order
        ∙ ap (λ x. k.written ++ (x ++ lines_of k.posted)) empty
        ∙ ap (λ x. k.written ++ lines_of x) f.posted
        ∙ append-nil k.written);
    running = f.running;
  }
  write_queue-IsWritten (line ∷ q) n k f full =
      let w = front-writing k line q f.sound f.running full in
      let k0 : Connection = record k { writes = []; written = k.written ++ (line ∷ []) } in
      let k' = on_write k0 in
      let kept = on_write-IsKept k0 in
      let i = on_write-IsConnection k line [] w f.sound in
      let same : IsKept (record k { posted = [] }) k' = record {
        session = kept.session;
        posted = kept.posted ∙ f.posted;
        work = kept.work;
        delivered = kept.delivered;
      } in
      let f' = put-IsFree n k k' [] i same f.idle f.running in
      let rest =
        write_queue-IsWritten q (put n c k') k' f' (on_write-queue k0 ∙ ap pop_front full) in
      subst (IsWritten lib n c) kept.delivered (
        step-IsWritten n (put n c k') (writes c false) k'.delivered (inr refl)
          (writes-step n k (line ∷ []) f w) rest)

  posted-IsWritten :
      (ts : List Task) (n : TcpServer) (k : Connection)
      → IsFree n k ts
      → has_stop ts ≡ false
      → IsWritten lib n c k.delivered
  unfolding run_task
  posted-IsWritten [] n k f no_stop = write_queue-IsWritten k.write_queue n k f refl
  posted-IsWritten (stop ∷ ts) n k f no_stop = absurd (cc (no_stop))
  posted-IsWritten (start_reading ∷ ts) n k f no_stop =
      let k' = do_read_line (record k { posted = ts }) in
      let kept = do_read_line-IsKept (record k { posted = ts }) in
      let i = start_reading-IsConnection k ts f.posted f.sound in
      let f' = put-IsFree n k k' ts i kept f.idle f.running in
      let rest = posted-IsWritten ts (put n c k') k' f' no_stop in
      subst (IsWritten lib n c) kept.delivered (
        step-IsWritten n (put n c k') (runs c) k'.delivered (inl refl)
          (runs-step n k (start_reading ∷ ts) f) rest)
  posted-IsWritten (push line ∷ ts) n k f no_stop =
      let k' = push_line (record k { posted = ts }) line in
      let kept = push_line-IsKept (record k { posted = ts }) line in
      let i = push_line-IsConnection k ts line f.posted f.sound in
      let f' = put-IsFree n k k' ts i kept f.idle f.running in
      let rest = posted-IsWritten ts (put n c k') k' f' no_stop in
      subst (IsWritten lib n c) kept.delivered (
        step-IsWritten n (put n c k') (runs c) k'.delivered (inl refl)
          (runs-step n k (push line ∷ ts) f) rest)

-- From every state that a new server reaches in fewer than 2^63 - 1 steps, a session that has not stopped,
-- of which no handler is running and no stop is posted, has steps of its own, posted functions and writes
-- that end well, after which it has written every line that it was given, and has not stopped.
pub deliver-IsWritten :
    (lib : JsonLibrary) (with_sink : Bool) (acts : List Action) (n : TcpServer) (c : ClientId)
    (k : Connection)
    → length acts < 2 ^ 63 - 1
    → run lib (new_server with_sink) acts ≡ some n
    → n.connections c ≡ some k
    → k.session.stopped ≡ false
    → k.work ≡ []
    → has_stop k.posted ≡ false
    → IsWritten lib n c k.delivered
deliver-IsWritten lib b acts n c k few e there running idle no_stop =
    posted-IsWritten lib c k.posted n k
      (record {
        there = there;
        sound = ((run-IsTcpServer lib b acts n few e).connected c k there).0;
        idle = idle;
        running = running;
        posted = refl;
      })
      no_stop
