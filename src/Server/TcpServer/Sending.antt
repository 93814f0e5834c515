-- ===== src/Server/TcpServer/Sending.antt =====
-- The sends of server/src/client_session.cpp, to its own client and through the registry.
use clear_space.Prelude.{◌≡◌, refl, ap, inl, inr, String, false, Option, none, some, Option-cases}
use clear_space.Core.Types.{ClientId}
use clear_space.Transport.Json.{JsonLibrary}
use clear_space.Transport.Messages.{ServerMessage}
use clear_space.Server.Session.{Send, own, through_registry}
use clear_space.Server.SessionRegistry.{SessionRegistry, find}
use clear_space.Server.SessionRegistry.Find.{find_alive}
use clear_space.Server.Connection.{deliver_session, deliver_work, Connection, deliver}
use clear_space.Server.Connection.Invariant.{closes_of, deliver-IsConnection}
use clear_space.Server.TcpServer.{
  TcpServer, put, is_alive, deliver_to, line_of, deliver_own, deliver_found, registry_deliver,
  do_send,
}
use clear_space.Server.TcpServer.Invariant.{IsTcpServer}
use clear_space.Server.TcpServer.Quiet.{
  IsQuiet, KeepsWork, put-IsQuiet, put-KeepsWork, alive, found_cases,
}

-- A session that has not stopped is found.
found_running :
    (n : TcpServer) (to : ClientId) (k : Connection)
    → IsTcpServer n
    → n.connections to ≡ some k
    → k.session.stopped ≡ false
    → find (is_alive n) n.registry to ≡ (some to, n.registry)
found_running n to k h e s =
    find_alive (is_alive n) n.registry to to (h.registered to k e s) (alive n to k h e s)

deliver_to-Sent :
    (n : TcpServer) (to : ClientId) (line : String)
    → IsTcpServer n
    → IsQuiet n (deliver_to n to line) × KeepsWork n (deliver_to n to line)
unfolding deliver_to
deliver_to-Sent n to line h = elim (Option-cases (n.connections to)) [
  | inl e ↦
      rw (e, deliver_to) (record { server = h; seen = refl; next = refl }, λ d k at. (k, at, refl))
  | inr (k, e) ↦
      rw (e, deliver_to)
        (
          put-IsQuiet n to k (deliver k line) e (deliver-IsConnection k line (h.connected to k e).0)
              (deliver_session k line) (λ entry. ap closes_of (deliver_work k line)) h,
          put-KeepsWork n to k (deliver k line) e (deliver_work k line),
        )
]

-- What an optional state of the server has, if there is one.
abbrev pub Each : (TcpServer → Type 0) → Option TcpServer → Type 0
Each P none = Unit {0}
Each P (some n) = P n

pub Each-map :
    (P Q : TcpServer → Type 0) (o : Option TcpServer)
    → ((n : TcpServer) → P n → Q n)
    → Each P o
    → Each Q o
Each-map P Q none f p = tt
Each-map P Q (some n) f p = f n p

module _ (lib : JsonLibrary) where
  abbrev pub Sent : TcpServer → TcpServer → Type 0
  Sent n n' = IsQuiet n n' × KeepsWork n n'

  deliver_own-Sent :
      (n : TcpServer) (to : ClientId) (msg : ServerMessage)
      → IsTcpServer n
      → Each (Sent n) (deliver_own lib n to msg)
  unfolding deliver_own
  deliver_own-Sent n to msg h = go (line_of lib msg)
    where
      go :
          (o : Option String)
          → Each (Sent n) (elim o [ none ↦ none | some line ↦ some (deliver_to n to line) ])
      go none = tt
      go (some line) = deliver_to-Sent n to line h

  from_registry :
      (n : TcpServer) (r : SessionRegistry) (n' : TcpServer)
      → Sent (record n { registry = r }) n'
      → Sent n n'
  from_registry n r n' (q, keeps) =
      (record { server = q.server; seen = q.seen; next = q.next }, λ d k at. keeps d k at)

  registry_deliver-Sent :
      (n : TcpServer) (to : ClientId) (msg : ServerMessage)
      → IsTcpServer n
      → Each (Sent n) (registry_deliver lib n to msg)
  unfolding registry_deliver deliver_found
  registry_deliver-Sent n to msg h =
      let (r, found, h') = found_cases n to h in
      elim found [
        | inl e ↦ rw (e) (record { server = h'; seen = refl; next = refl }, λ d k at. (k, at, refl))
        | inr e ↦ rw (e) (
            Each-map (Sent (record n { registry = r })) (Sent n)
              (deliver_own lib (record n { registry = r }) to msg) (λ n' p. from_registry n r n' p)
              (deliver_own-Sent (record n { registry = r }) to msg h'))
      ]

  pub do_send-Sent :
      (n : TcpServer) (c : ClientId) (s : Send) → IsTcpServer n → Each (Sent n) (do_send lib n c s)
  unfolding do_send
  do_send-Sent n c (own msg) h = deliver_own-Sent n c msg h
  do_send-Sent n c (through_registry to msg) h = registry_deliver-Sent n to msg h

  -- In a state that keeps the invariant, a message that can be serialized and goes through the registry
  -- to a session that has not stopped is posted to that session, once, and nothing else changes.
  pub registry_deliver_lem :
      (n : TcpServer) (to : ClientId) (msg : ServerMessage) (line : String) (k : Connection)
      → IsTcpServer n
      → n.connections to ≡ some k
      → k.session.stopped ≡ false
      → line_of lib msg ≡ some line
      → registry_deliver lib n to msg ≡ some (put n to (deliver k line))
  unfolding registry_deliver deliver_found deliver_own deliver_to
  registry_deliver_lem n to msg line k h e s text =
      rw (found_running n to k h e s, text, e, deliver_found, deliver_own, deliver_to)
