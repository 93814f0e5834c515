-- ===== src/Server/TcpServer/Quiet.antt =====
-- The steps of server/src/tcp_server.cpp and its sessions in which no handler runs: posted functions that
-- read or write, sends, and what `SessionRegistry` does.
use clear_space.Prelude.{
  ℕ, ◌+◌, ◌≡◌, ◌≢◌, refl, sym, ap, ◌∙◌, ◌⊎◌, inl, inr, Bool, true, false, not, ◌||◌, none, some,
  List, [], ◌∷◌, arith, Bool-cases, Option-cases, subst, ◌==◌, ==→eq,
}
use clear_space.Prelude.Map.{erase}
use clear_space.Prelude.Map.{find as map_find}
use clear_space.Core.Types.{ClientId}
use clear_space.Server.Session.{Session}
use clear_space.Server.SessionRegistry.{SessionRegistry, find}
use clear_space.Server.SessionRegistry.Find.{
  find_absent, find_alive, find_expired, erase_same, erase_other,
}
use clear_space.Server.Connection.{Connection, Task, Work}
use clear_space.Server.Connection.Invariant.{IsConnection, starts_of, reads_of, closes_of}
use clear_space.Server.TcpServer.{TcpServer, put, has_any, is_alive}
use clear_space.Server.TcpServer.Invariant.{IsTcpServer, put-IsTcpServer, view, view-put_same}

-- From one state of the server to another one: the core and all rooms of sessions stay.
pub record IsQuiet (n n' : TcpServer) : Type 0 where
  pub server : IsTcpServer n'
  pub seen : view n' ≡ view n
  pub next : n'.next_client_id ≡ n.next_client_id

-- Running handlers have the same left to do.
abbrev pub KeepsWork : TcpServer → TcpServer → Type 0
KeepsWork n n' =
    (d : ClientId) (k : Connection)
    → n.connections d ≡ some k
    → (k' : Connection) × (n'.connections d ≡ some k') × (k'.work ≡ k.work)

pub IsQuiet-trans : (a b d : TcpServer) → IsQuiet a b → IsQuiet b d → IsQuiet a d
IsQuiet-trans a b d p q = record {
  server = q.server;
  seen = q.seen ∙ p.seen;
  next = q.next ∙ p.next;
}

-- A session that changes and keeps its room.
pub put-IsQuiet :
    (n : TcpServer) (c : ClientId) (k k' : Connection)
    → n.connections c ≡ some k
    → IsConnection k'
    → k'.session ≡ k.session
    → (map_find n.registry.sessions c ≡ some c → closes_of k'.work ≡ closes_of k.work)
    → IsTcpServer n
    → IsQuiet n (put n c k')
put-IsQuiet n c k k' e i same closes h = record {
  server =
      put-IsTcpServer n n.core c k k' e i (ap (λ x. x.client_id) same)
        (λ r. sym (ap (λ x. x.stopped) same) ∙ r)
        (λ entry usable s. closes entry ∙ usable (sym (ap (λ (x : Session). x.stopped) same) ∙ s))
        h;
  seen = view-put_same n c k k' e same;
  next = refl;
}

pub put-KeepsWork :
    (n : TcpServer) (c : ClientId) (k k' : Connection)
    → n.connections c ≡ some k
    → k'.work ≡ k.work
    → KeepsWork n (put n c k')
put-KeepsWork n c k k' e same d j at = elim (Bool-cases (c == d)) [
  | inl s ↦ (k', rw (s), same ∙ ap (λ x. x.work) (go d j s at))
  | inr o ↦ (j, rw (o) at, refl)
]
  where
    go : (d : ClientId) (j : Connection) → (c == d) ≡ true → n.connections d ≡ some j → k ≡ j
    go d j s at = let same = ==→eq c d s in cc (e, at)

or_true : (a : Bool) → (a || true) ≡ true
or_true true = refl
or_true false = refl

held :
    (r : ℕ) (ts : List Task) (ws : List Work) (b : Bool)
    → r + starts_of ts + reads_of ws ≡ 1
    → (not (r == 0) || (has_any ts || (has_any ws || b))) ≡ true
held r (t ∷ ts) ws b e = or_true (not (r == 0))
held r [] (w ∷ ws) b e = or_true (not (r == 0))
held r [] [] b e =
    let one : r ≡ 1 = omega (arith, e) in subst (λ r. (not (r == 0) || b) ≡ true) (sym one) refl

-- A session that has not stopped is held by its read, or by what will start the next one.
pub alive :
    (n : TcpServer) (c : ClientId) (k : Connection)
    → IsTcpServer n
    → n.connections c ≡ some k
    → k.session.stopped ≡ false
    → is_alive n c ≡ true
alive n c k h e s =
    rw (e, is_alive)
      (held k.reads k.posted k.work (has_any k.writes) ((h.connected c k e).0.goes_on s))

-- Entries of the registry that are erased without harm to sessions that have not stopped.
pub erase-IsTcpServer :
    (n : TcpServer) (to : ClientId)
    → ((k : Connection) → n.connections to ≡ some k → k.session.stopped ≢ false)
    → IsTcpServer n
    → IsTcpServer (record n { registry = record { sessions = erase n.registry.sessions to } })
erase-IsTcpServer n to gone h = record {
  connected = h.connected;
  registered = λ c k e s. elim (Bool-cases (to == c)) [
    | inl q ↦ absurd (gone k (ap (λ x. n.connections x) (==→eq to c q) ∙ e) s)
    | inr o ↦ erase_other n.registry.sessions to c o ∙ h.registered c k e s
  ];
  own = λ c d at. elim (Bool-cases (to == c)) [
    | inl q ↦ absurd (cc (erase_same n.registry.sessions to c q, at))
    | inr o ↦ h.own c d (sym (erase_other n.registry.sessions to c o) ∙ at)
  ];
  in_use = λ c d at. elim (Bool-cases (to == c)) [
    | inl q ↦ absurd (cc (erase_same n.registry.sessions to c q, at))
    | inr o ↦ h.in_use c d (sym (erase_other n.registry.sessions to c o) ∙ at)
  ];
}

-- What `find` answers, and leaves in the registry.
pub found_cases :
    (n : TcpServer) (to : ClientId)
    → IsTcpServer n
    → (r : SessionRegistry) × ((find (is_alive n) n.registry to ≡ (none, r))
        ⊎ (find (is_alive n) n.registry to ≡ (some to, r)))
      × IsTcpServer (record n { registry = r })
found_cases n to h = elim (Option-cases (map_find n.registry.sessions to)) [
  | inl e ↦ (n.registry, inl (find_absent (is_alive n) n.registry to e), h)
  | inr (d, e) ↦
      let own : map_find n.registry.sessions to ≡ some to = e ∙ ap some (h.own to d e) in
      elim (Bool-cases (is_alive n to)) [
        | inl y ↦ (n.registry, inr (find_alive (is_alive n) n.registry to to own y), h)
        | inr y ↦ (
          record { sessions = erase n.registry.sessions to },
          inl (find_expired (is_alive n) n.registry to to own y),
          erase-IsTcpServer n to (λ k at s. absurd (cc (alive n to k h at s, y))) h,
        )
      ]
]
