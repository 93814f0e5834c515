-- ===== src/Server/TcpServer/Accepting.antt =====
-- `onAccept` of server/src/tcp_server.cpp gives each session an id of its own.
use clear_space.Prelude.{
  ◌+◌, ◌<◌, ◌≡◌, refl, sym, ap, ◌∙◌, inl, inr, Bool, true, false, none, some, [], arith, Bool-cases,
  Option-cases, subst, ◌==◌, ==→eq, if◌then◌else◌, incr64, incr64-eq, u64_mod,
}
use clear_space.Prelude.Map.{find as map_find}
use clear_space.Core.Types.{ClientId}
use clear_space.Server.Session.{Session}
use clear_space.Server.Session.Runs.{handle_all}
use clear_space.Server.SessionRegistry.{add}
use clear_space.Server.SessionRegistry.Find.{find-add}
use clear_space.Server.Connection.{Connection, new_connection, start, start_session}
use clear_space.Server.Connection.Invariant.{IsConnection, start-IsConnection}
use clear_space.Server.TcpServer.{TcpServer, put, on_accept}
use clear_space.Server.TcpServer.Invariant.{IsTcpServer, view, room_in, stopped_in, world_ext}
use clear_space.Server.TcpServer.Handling.{IsNext, quiet-IsNext}

-- The next id is not used yet.
unused_id : (n : TcpServer) → IsTcpServer n → n.connections n.next_client_id ≡ none
unused_id n h = elim (Option-cases (n.connections n.next_client_id)) [
  | inl e ↦ e
  | inr (k, e) ↦ absurd (omega (arith, (h.connected n.next_client_id k e).2))
]

abbrev accepted : TcpServer → TcpServer
accepted n = record (put n n.next_client_id (start (new_connection n.next_client_id))) {
  registry = add n.registry n.next_client_id n.next_client_id;
  next_client_id = incr64 n.next_client_id;
}

accepted-IsTcpServer :
    (n : TcpServer) → n.next_client_id + 1 < u64_mod → IsTcpServer n → IsTcpServer (accepted n)
accepted-IsTcpServer n small h = record {
  connected = λ d j at. elim (Bool-cases (id == d)) [
    | inl s ↦
        let j_is : k ≡ j = here d j s at in
        (
          subst IsConnection j_is (start-IsConnection id),
          sym (ap (λ (x : Connection). x.session.client_id) j_is)
              ∙ ap (λ (x : Session). x.client_id) (start_session id)
              ∙ ==→eq id d s,
          omega (arith, next, ==→eq id d s),
        )
    | inr o ↦
        let (i, same, low) = h.connected d j (other d j o at) in (i, same, omega (arith, next, low))
  ];
  registered = λ d j at running. elim (Bool-cases (id == d)) [
    | inl s ↦ find-add n.registry id id d ∙ rw (s) (ap some (==→eq id d s))
    | inr o ↦ find-add n.registry id id d ∙ rw (o) (h.registered d j (other d j o at) running)
  ];
  own = λ c d at. go c d (sym (find-add n.registry id id c) ∙ at);
  in_use = λ c d at. elim (Bool-cases (id == c)) [
    | inl s ↦ (
      k,
      rw (s),
      λ stopped. absurd (cc (ap (λ (x : Session). x.stopped) (start_session id), stopped)),
    )
    | inr o ↦
        let was : map_find n.registry.sessions c ≡ some d =
          sym (find-add n.registry id id c ∙ rw (o)) ∙ at in
        let (j, there, usable) = h.in_use c d was in (j, rw (o) there, usable)
  ];
}
  where
    id : ClientId
    id = n.next_client_id

    k : Connection
    k = start (new_connection id)

    next : incr64 id ≡ id + 1
    next = incr64-eq id small

    here :
        (d : ClientId) (j : Connection)
        → (id == d) ≡ true
        → (if id == d then some k else n.connections d) ≡ some j
        → k ≡ j
    here d j s at = ground arith

    other :
        (d : ClientId) (j : Connection)
        → (id == d) ≡ false
        → (if id == d then some k else n.connections d) ≡ some j
        → n.connections d ≡ some j
    other d j o at = ground arith

    go :
        (c d : ClientId)
        → (if id == c then some id else map_find n.registry.sessions c) ≡ some d
        → d ≡ c
    go c d at = elim (Bool-cases (id == c)) [
      | inl s ↦
          cc (ap (λ b. if b then some id else map_find n.registry.sessions c) s, at, ==→eq id c s)
      | inr o ↦
          h.own c d (sym (ap (λ b. if b then some id else map_find n.registry.sessions c) o) ∙ at)
    ]

view-accepted : (n : TcpServer) → IsTcpServer n → view (accepted n) ≡ view n
view-accepted n h = world_ext refl rooms stops
  where
    id : ClientId
    id = n.next_client_id

    k : Connection
    k = start (new_connection id)

    absent : (d : ClientId) → (id == d) ≡ true → n.connections d ≡ none
    absent d s = ap (λ x. n.connections x) (sym (==→eq id d s)) ∙ unused_id n h

    rooms :
        (d : ClientId)
        → room_in (if id == d then some k else n.connections d) ≡ room_in (n.connections d)
    rooms d = elim (Bool-cases (id == d)) [
      | inl s ↦
          rw (s) (
            ap (λ (x : Session). x.current_room) (start_session id) ∙ sym (ap room_in (absent d s)))
      | inr o ↦ rw (o)
    ]

    stops :
        (d : ClientId)
        → stopped_in (if id == d then some k else n.connections d) ≡ stopped_in (n.connections d)
    stops d = elim (Bool-cases (id == d)) [
      | inl s ↦
          rw (s)
            (ap (λ (x : Session). x.stopped) (start_session id) ∙ sym (ap stopped_in (absent d s)))
      | inr o ↦ rw (o)
    ]

pub accept-IsNext :
    (n : TcpServer) (failed : Bool)
    → n.next_client_id + 1 < u64_mod
    → IsTcpServer n
    → IsNext n (on_accept n failed)
unfolding on_accept handle_all
accept-IsNext n true small h = quiet-IsNext n n (record { server = h; seen = refl; next = refl })
accept-IsNext n false small h = record {
  server = accepted-IsTcpServer n small h;
  handlers = ([], omega arith, view-accepted n h);
  ids = omega (arith, incr64-eq n.next_client_id small);
}
