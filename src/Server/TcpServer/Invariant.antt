-- ===== src/Server/TcpServer/Invariant.antt =====
-- What holds of the server of server/src/tcp_server.cpp and all its sessions between two steps.
use clear_space.Prelude.{
  ◌<◌, ◌≡◌, refl, sym, ap, ◌∙◌, inl, inr, Bool, true, false, Option, none, some, arith, Bool-cases,
  subst, ◌==◌, ==→eq, ==_refl, if◌then◌else◌,
}
use mathlib.Core.Path.{fun_ext}
use clear_space.Prelude.Map.{find as map_find}
use clear_space.Core.Types.{RoomId, ClientId}
use clear_space.Core.ServerCore.{ServerCore}
use clear_space.Server.Session.{Session}
use clear_space.Server.Session.Runs.{World}
use clear_space.Server.Connection.{Connection}
use clear_space.Server.Connection.Invariant.{closes_of, IsConnection}
use clear_space.Server.TcpServer.{TcpServer, put}

-- A stopped session is still to be closed by its handler.
abbrev pub IsOpen : Connection → Type 0
IsOpen k = k.session.stopped ≡ true → closes_of k.work ≡ 1

-- Sessions have their clients' ids, which the next one is above. A session that has not stopped is found
-- under its id; an entry is of the session with the same id, which has not stopped or is being closed.
pub record IsTcpServer (n : TcpServer) : Type 0 where
  pub connected :
      (c : ClientId) (k : Connection)
      → n.connections c ≡ some k
      → IsConnection k × (k.session.client_id ≡ c) × (c < n.next_client_id)
  pub registered :
      (c : ClientId) (k : Connection)
      → n.connections c ≡ some k
      → k.session.stopped ≡ false
      → map_find n.registry.sessions c ≡ some c
  pub own : (c d : ClientId) → map_find n.registry.sessions c ≡ some d → d ≡ c
  pub in_use :
      (c d : ClientId)
      → map_find n.registry.sessions c ≡ some d
      → (k : Connection) × (n.connections c ≡ some k) × IsOpen k

abbrev pub room_in : Option Connection → Option RoomId
room_in none = none
room_in (some k) = k.session.current_room

abbrev pub stopped_in : Option Connection → Bool
stopped_in none = false
stopped_in (some k) = k.session.stopped

-- The server without its sockets, strands and registry.
abbrev pub view : TcpServer → World
view n = record {
  core = n.core;
  current_room = λ c. room_in (n.connections c);
  stopped = λ c. stopped_in (n.connections c);
}

-- The connection of a client after `put`.
pub put_here : (n : TcpServer) (c : ClientId) (k : Connection) → (put n c k).connections c ≡ some k
put_here n c k = rw (==_refl c)

pub put-IsTcpServer :
    (n : TcpServer) (core : ServerCore) (c : ClientId) (k k' : Connection)
    → n.connections c ≡ some k
    → IsConnection k'
    → k'.session.client_id ≡ k.session.client_id
    → (k'.session.stopped ≡ false → k.session.stopped ≡ false)
    → (map_find n.registry.sessions c ≡ some c → IsOpen k → IsOpen k')
    → IsTcpServer n
    → IsTcpServer (put (record n { core = core }) c k')
put-IsTcpServer n core c k k' e i same running usable h = record {
  connected = λ d j at. elim (Bool-cases (c == d)) [
    | inl s ↦
        let d_is = ==→eq c d s in
        let (old, id, low) = h.connected c k e in
        let j_is : k' ≡ j = some_eq d j s at in
        (
          subst IsConnection j_is i,
          sym (ap (λ (x : Connection). x.session.client_id) j_is) ∙ same ∙ id ∙ d_is,
          subst (λ x. x < n.next_client_id) d_is low,
        )
    | inr o ↦ h.connected d j (other d j o at)
  ];
  registered = λ d j at running_j. elim (Bool-cases (c == d)) [
    | inl s ↦
        let j_is : k' ≡ j = some_eq d j s at in
        subst (λ x. map_find n.registry.sessions x ≡ some x) (==→eq c d s)
          (h.registered c k e
            (running (ap (λ (x : Connection). x.session.stopped) j_is ∙ running_j)))
    | inr o ↦ h.registered d j (other d j o at) running_j
  ];
  own = h.own;
  in_use = λ d s at.
      let (j, there, was) = h.in_use d s at in
      elim (Bool-cases (c == d)) [
        | inl q ↦
            let c_is = ==→eq c d q in
            let entry : map_find n.registry.sessions c ≡ some c = cc (at, h.own d s at, c_is) in
            let j_is : j ≡ k = cc (there, e, c_is) in
            (k', rw (q), usable entry (subst IsOpen j_is was))
        | inr o ↦ (j, rw (o) there, was)
      ];
}
  where
    some_eq :
        (d : ClientId) (j : Connection)
        → (c == d) ≡ true
        → (if c == d then some k' else n.connections d) ≡ some j
        → k' ≡ j
    some_eq d j s at = ground arith

    other :
        (d : ClientId) (j : Connection)
        → (c == d) ≡ false
        → (if c == d then some k' else n.connections d) ≡ some j
        → n.connections d ≡ some j
    other d j o at = ground arith

-- Worlds with the same parts.
pub world_ext :
    {core core' : ServerCore} {room room' : ClientId → Option RoomId}
    {stopped stopped' : ClientId → Bool}
    → core ≡ core'
    → ((c : ClientId) → room c ≡ room' c)
    → ((c : ClientId) → stopped c ≡ stopped' c)
    → ◌≡◌ {A = World}
        (record { core = core; current_room = room; stopped = stopped })
        (record { core = core'; current_room = room'; stopped = stopped' })
world_ext e rooms stops =
    λ i. record { core = e i; current_room = fun_ext rooms i; stopped = fun_ext stops i }

-- A session that changes for others only by its room and by whether it has stopped.
pub view-put_same :
    (n : TcpServer) (c : ClientId) (k k' : Connection)
    → n.connections c ≡ some k
    → k'.session ≡ k.session
    → view (put n c k') ≡ view n
view-put_same n c k k' e same = world_ext refl rooms stops
  where
    rooms :
        (d : ClientId)
        → room_in (if c == d then some k' else n.connections d) ≡ room_in (n.connections d)
    rooms d = elim (Bool-cases (c == d)) [
      | inl s ↦ rw (s) (
          ap (λ (x : Session). x.current_room) same
          ∙ sym (ap room_in (ap (λ x. n.connections x) (sym (==→eq c d s)) ∙ e)))
      | inr o ↦ rw (o)
    ]

    stops :
        (d : ClientId)
        → stopped_in (if c == d then some k' else n.connections d) ≡ stopped_in (n.connections d)
    stops d = elim (Bool-cases (c == d)) [
      | inl s ↦ rw (s) (
          ap (λ (x : Session). x.stopped) same
          ∙ sym (ap stopped_in (ap (λ x. n.connections x) (sym (==→eq c d s)) ∙ e)))
      | inr o ↦ rw (o)
    ]
