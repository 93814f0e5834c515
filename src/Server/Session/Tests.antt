-- ===== src/Server/Session/Tests.antt =====
-- Sessions on a server with one room.
use clear_space.Prelude.{List, [], ◌∷◌, ◌≡◌, refl, true, false, none, some, arith, subst}
use clear_space.Core.Types.{RoomId, ClientId}
use clear_space.Core.Room.{new_room}
use clear_space.Core.ServerCore.{ServerCore, creates, new_core, create, join_room}
use clear_space.Core.ServerCore.Invariant.{IsCore, serve-IsCore, new_core-IsCore, create_fresh}
use clear_space.Core.ServerCore.Space.{new_core-HasSpace}
use clear_space.Core.ServerCore.Answers.{serve-creates, join_room_present}
use clear_space.Transport.Messages.{
  stroke_end_request, leave_room_request, create_room_request, join_room_request,
}
use clear_space.Server.Session.{Session, Handled, handle_message, stop_impl}
use clear_space.Server.Session.Agreement.{Agrees, new_core-Agrees, create-Agrees, joined-value}
use clear_space.Server.Session.Runs.{
  Handler, messages, stops, new_world, handle_all, AllAgree, handle_all-new_world-AllAgree,
}
use clear_space.Server.Session.Handlers.{handle_message-Agrees, stop_impl-Agrees}

abbrev opened : ServerCore
opened = (create (new_core true)).0

abbrev first_room : RoomId
first_room = (create (new_core true)).1

opened-IsCore : IsCore opened
opened-IsCore = subst IsCore (serve-creates (new_core true)) (
    serve-IsCore (new_core true) creates (new_core-IsCore true)
      (new_core-HasSpace true 1 (omega arith)))

abbrev outside : ClientId → Session
outside c = record { client_id = c; current_room = none; stopped = false }

opened-Agrees : (c : ClientId) → Agrees opened c none
opened-Agrees c =
    create-Agrees (new_core true) c none (new_core-IsCore true) (new_core-Agrees true c)

abbrev joining : Handled
joining = handle_message opened (outside 4) 0 (join_room_request first_room)

joining_room : joining.session.current_room ≡ some first_room
unfolding handle_message
joining_room = joined-value (outside 4) first_room (join_room opened 4 first_room) _ (
    join_room_present opened 4 first_room (new_room first_room)
      (create_fresh (new_core true) (new_core-IsCore true)).1)

handle_message-Agrees_example : Agrees joining.core 4 joining.session.current_room
handle_message-Agrees_example =
    handle_message-Agrees opened (outside 4) 0 (join_room_request first_room) opened-IsCore
      (opened-Agrees 4)

abbrev inside : Session
inside = record { client_id = 4; current_room = some first_room; stopped = false }

joining-Agrees : Agrees joining.core 4 joining.session.current_room
joining-Agrees =
    handle_message-Agrees opened (outside 4) 0 (join_room_request first_room) opened-IsCore
      (opened-Agrees 4)

inside-Agrees : Agrees joining.core 4 (some first_room)
inside-Agrees = subst (Agrees joining.core 4) joining_room joining-Agrees

stop_impl-Agrees_example :
    Agrees (stop_impl joining.core inside).core 4 none
    × ((stop_impl joining.core inside).session.current_room ≡ none)
stop_impl-Agrees_example = stop_impl-Agrees joining.core inside refl inside-Agrees

-- A line that was being read when its session stopped is still handled: the client joins, and a second
-- stop does not take it out.
abbrev stopped_outside : Session
stopped_outside = record { client_id = 4; current_room = none; stopped = true }

abbrev late : Handled
late = handle_message opened stopped_outside 0 (join_room_request first_room)

late_joins : late.session.current_room ≡ some first_room
unfolding handle_message
late_joins = joined-value stopped_outside first_room (join_room opened 4 first_room) _ (
    join_room_present opened 4 first_room (new_room first_room)
      (create_fresh (new_core true) (new_core-IsCore true)).1)

abbrev late_session : Session
late_session = record { client_id = 4; current_room = some first_room; stopped = true }

late_stays : (stop_impl late.core late_session).core ≡ late.core
unfolding stop_impl
late_stays = refl

abbrev handlers : List Handler
handlers =
    messages 4 0 create_room_request
    ∷ messages 4 0 (join_room_request 1)
    ∷ messages 5 0 (join_room_request 1)
    ∷ messages 4 10 (stroke_end_request 1)
    ∷ stops 5
    ∷ messages 4 20 (leave_room_request 1)
    ∷ []

handle_all-new_world-AllAgree_example : AllAgree (handle_all (new_world true) handlers)
handle_all-new_world-AllAgree_example = handle_all-new_world-AllAgree true handlers (omega arith)
