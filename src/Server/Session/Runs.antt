-- ===== src/Server/Session/Runs.antt =====
-- Any number of sessions on one server. A handler of server/src/client_session.cpp calls the core at most
-- once and alone changes its session's room, so handlers in some order stand for every interleaving, as
-- far as the core and the sessions' rooms go.
use clear_space.Prelude.{
  ◌-◌, ◌^◌, ◌<◌, ◌≡◌, inl, inr, Bool, false, Option, none, List, [], ◌∷◌, length, Bool-cases, ◌==◌,
  ==→eq, if◌then◌else◌, arith, subst,
}
use clear_space.Core.Types.{RoomId, ClientId, TimePoint}
use clear_space.Core.ServerCore.{ServerCore, new_core}
use clear_space.Core.ServerCore.Invariant.{IsCore, HasSpace, new_core-IsCore}
use clear_space.Core.ServerCore.Space.{new_core-HasSpace}
use clear_space.Transport.Messages.{ClientMessage}
use clear_space.Server.Session.{Session, Handled, handle_message, stop_impl}
use clear_space.Server.Session.Agreement.{Agrees, new_core-Agrees}
use clear_space.Server.Session.Handlers.{handle_message-Agrees, handle_message-Agrees_others}
use clear_space.Server.Session.OneCall.{
  OneCall, handle_message-OneCall, stop_impl-OneCall, stop_impl-Agrees_others, OneCall-IsCore,
  stop_impl-Agrees_own,
}

-- The core and what each session keeps.
pub record World : Type 0 where
  pub core : ServerCore
  pub current_room : ClientId → Option RoomId
  pub stopped : ClientId → Bool

pub data Handler : Type 0 where
  messages : (client : ClientId) (now : TimePoint) (m : ClientMessage) → Handler
  stops : (client : ClientId) → Handler

unfoldable pub new_world : Bool → World
new_world with_sink = record {
  core = new_core with_sink;
  current_room = λ c. none;
  stopped = λ c. false;
}

abbrev pub session_of : World → ClientId → Session
session_of w c = record { client_id = c; current_room = w.current_room c; stopped = w.stopped c }

abbrev pub settle_handled : World → ClientId → Handled → World
settle_handled w c h = record {
  core = h.core;
  current_room = λ d. if c == d then h.session.current_room else w.current_room d;
  stopped = λ d. if c == d then h.session.stopped else w.stopped d;
}

unfoldable pub handle : World → Handler → World
handle w (messages c now m) = settle_handled w c (handle_message w.core (session_of w c) now m)
handle w (stops c) = settle_handled w c (stop_impl w.core (session_of w c))

unfoldable pub handle_all : World → List Handler → World
unfolding handle
handle_all w [] = w
handle_all w (x ∷ xs) = handle_all (handle w x) xs

abbrev pub AllAgree : World → Type 0
AllAgree w = (c : ClientId) → Agrees w.core c (w.current_room c)

handled-AllAgree :
    (w : World) (c : ClientId) (h : Handled)
    → Agrees h.core c h.session.current_room
    → ((d : ClientId) → (c == d) ≡ false → Agrees h.core d (w.current_room d))
    → AllAgree (settle_handled w c h)
handled-AllAgree w c h own others d = elim (Bool-cases (c == d)) [
  | inl e ↦ rw (e) (subst (λ x. Agrees h.core x h.session.current_room) (==→eq c d e) own)
  | inr o ↦ rw (o) (others d o)
]

handle-AllAgree : (w : World) (x : Handler) → IsCore w.core → AllAgree w → AllAgree (handle w x)
unfolding handle
handle-AllAgree w (messages c now m) i v =
    handled-AllAgree w c (handle_message w.core (session_of w c) now m)
      (handle_message-Agrees w.core (session_of w c) now m i (v c))
      (λ d o.
        handle_message-Agrees_others w.core (session_of w c) now m d (w.current_room d) i o (v d))
handle-AllAgree w (stops c) i v =
    handled-AllAgree w c (stop_impl w.core (session_of w c))
      (stop_impl-Agrees_own w.core (session_of w c) (v c))
      (λ d o. stop_impl-Agrees_others w.core (session_of w c) d (w.current_room d) o (v d))

handle-OneCall : (w : World) (x : Handler) → OneCall w.core (handle w x).core
unfolding handle
handle-OneCall w (messages c now m) = handle_message-OneCall w.core (session_of w c) now m
handle-OneCall w (stops c) = stop_impl-OneCall w.core (session_of w c)

handle_all-AllAgree :
    (w : World) (xs : List Handler)
    → IsCore w.core
    → HasSpace w.core (length xs)
    → AllAgree w
    → AllAgree (handle_all w xs)
unfolding handle_all
handle_all-AllAgree w [] i h v = v
handle_all-AllAgree w (x ∷ xs) i h v =
    let (i', h') = OneCall-IsCore w.core (handle w x).core (length xs) (handle-OneCall w x) i h in
    handle_all-AllAgree (handle w x) xs i' h' (handle-AllAgree w x i v)

-- However the handlers of all sessions follow each other on a new server, for fewer than 2^63 - 1 of
-- them, each client is then a member of its session's room, which exists, and of no other room.
pub handle_all-new_world-AllAgree :
    (with_sink : Bool) (xs : List Handler)
    → length xs < 2 ^ 63 - 1
    → AllAgree (handle_all (new_world with_sink) xs)
unfolding new_world
handle_all-new_world-AllAgree b xs l =
    handle_all-AllAgree (new_world b) xs (new_core-IsCore b)
      (new_core-HasSpace b (length xs) (omega (arith, l))) (new_core-Agrees b)
