-- ===== src/Core/Room/Broadcast.antt =====
-- Room::broadcast_: who is sent an event.
use clear_space.Prelude.{
  ◌≡◌, refl, false, not, ◌&&◌, List, [], ◌∷◌, ◌++◌, arith, ◌==◌, if◌then◌else◌,
}
use clear_space.Prelude.Members.{contains, IsUnique}
use clear_space.Core.Types.{RoomId, ClientId, Seq, ServerEventPayload, OutgoingEvent, value, error}
use clear_space.Core.Room.{Room, Events, send_to, broadcast}

-- The events of a list that go to one client, in their order.
unfoldable pub addressed : ClientId → List OutgoingEvent → List OutgoingEvent
addressed c [] = []
addressed c (e ∷ es) = let rest = addressed c es in if e.to == c then e ∷ rest else rest

-- The events that a call hands over for sending.
abbrev pub sent : Events → List OutgoingEvent
sent (value es) = es
sent (error e) = []

pub addressed-append :
    (c : ClientId) (es fs : List OutgoingEvent)
    → addressed c (es ++ fs) ≡ addressed c es ++ addressed c fs
unfolding addressed
addressed-append c [] fs = refl
addressed-append c (e ∷ es) fs = ground (arith, addressed-append c es fs)

addressed-send_to_other :
    (room : RoomId) (from : ClientId) (seq : Seq) (p : ServerEventPayload) (ms : List ClientId)
    (c : ClientId)
    → contains ms c ≡ false
    → addressed c (send_to room from seq p ms) ≡ []
unfolding addressed send_to contains
addressed-send_to_other room from seq p [] c h = refl
addressed-send_to_other room from seq p (m ∷ ms) c h =
    ground (arith, addressed-send_to_other room from seq p ms c)

addressed-send_to :
    (room : RoomId) (from : ClientId) (seq : Seq) (p : ServerEventPayload) (ms : List ClientId)
    (c : ClientId)
    → IsUnique ms
    → addressed c (send_to room from seq p ms) ≡ (
        if contains ms c && not (c == from)
        then record { room = room; to = c; seq = seq; payload = p } ∷ []
        else [])
unfolding addressed send_to contains
addressed-send_to room from seq p [] c u = refl
addressed-send_to room from seq p (m ∷ ms) c u = ground (
  arith,
  addressed-send_to room from seq p ms c u.1,
  addressed-send_to_other room from seq p ms c,
)

-- A broadcast sends the event exactly once to each member but its sender, and to nobody else.
pub addressed-broadcast :
    (r : Room) (from : ClientId) (seq : Seq) (p : ServerEventPayload) (c : ClientId)
    → IsUnique r.members
    → addressed c (broadcast r from seq p) ≡ (
        if contains r.members c && not (c == from)
        then record { room = r.id; to = c; seq = seq; payload = p } ∷ []
        else [])
unfolding broadcast
addressed-broadcast r from seq p c u = addressed-send_to r.id from seq p r.members c u
