-- ===== src/Lib.antt =====
-- ClearSpace: the server of a collaborative drawing board.
--
-- Clients connect over TCP, create or join rooms, draw strokes on the room's board and move cursors.
-- The server keeps the rooms, sends each change to the other members, and saves snapshots of boards.
--
-- Prelude: shared names, 64-bit counters (Words), std::vector access (Lists), std::unordered_map (Map)
--   and std::unordered_set (Members).
-- Core.Types: the data types of core/include/clearspace/core.
-- Core.Room: the class Room of core/src/room.cpp. Each public method takes the room's lock for its whole
--   length and is one step of the state, `join`, `leave` and `apply`; the private ones are
--   `apply_stroke_begin`, `apply_stroke_point`, `apply_stroke_end`, `apply_cursor_move`, `apply_clear`,
--   `broadcast` and `ensure_member`. Its children hold the invariant (Index, Active, Order, Presence,
--   Invariant, Preservation, Counters), who is sent what (Broadcast), replicas that follow the events
--   (Replay), what becomes of strokes (Strokes), errors (Outcomes), leaving (Departure), the rate limit
--   (CursorRate) and who is a member (Membership).
-- Core.RoomManager: core/src/room_manager.cpp, with the pointers to rooms that getRoom gives.
-- Core.ServerCore: core/src/server_core.cpp. `leave_room` and `handle_event` end where the room releases
--   its lock and give the pieces of the call that are left, for a snapshot of the room: others may run
--   between these. `Threads` runs calls and their pieces on any number of threads. Its other children hold
--   the invariant of all rooms (Invariant), how many calls the counters have space for (Space), what the
--   sink is given (Saving) and of when that is (Moments), what it has been given once a call returns (Due
--   and Returned, and LastLeave when a room has become empty) and when calls succeed (Answers).
-- Persistence.Codec: the byte format of snapshots in persistence/src/sqlite_snapshot_store.cpp, with the
--   layout that is written (Write), the round trip (RoundTrip) and damaged input (Damage).
-- Persistence.SqliteSnapshotStore: the class of the same file. SQLite is not in the repository: the
--   record `SqliteLibrary` (Sqlite) holds the calls that are made of it, and `IsSqlite` (Table) what is
--   documented of the statements that are run, the table being a map from ids to rows. Calls says how
--   methods end, Updates and Pruning what becomes of the table, Queries what is answered, SaveLoad the
--   round trip. Sample, SampleListing, SampleLibrary and SampleLaws are a small database that behaves so.
-- Persistence.SnapshotWriter: persistence/src/snapshot_writer.cpp over the interface ISnapshotStore
--   (SnapshotStore). An action is one stretch of a thread between two points where others may run; `step`
--   is undefined where no thread is at that point, and a run is any list of actions. Steps holds what one
--   action keeps, Drain what flush and the destructor wait for, Progress that the worker gets there.
-- Persistence.SqliteWriter: that writer over the SQLite store, as app/src/main.cpp puts them together.
--   Application: the settings that main takes from its arguments.
-- Transport.Messages: transport/include/clearspace/transport/messages.hpp. Transport.Mappers:
--   transport/src/mappers.cpp, the overloads of toCoreEvent under names of their own; std::sort is an
--   insertion sort (Sort), which agrees with it on keys that occur once. Transport.JsonProtocol:
--   transport/src/json_protocol.cpp, over the record `JsonLibrary` of the calls that it makes of
--   nlohmann::json (Json), which is not in the repository; Fields says which object describes a request,
--   Requests and Described that these are what is accepted.
-- Server.Session: handleLine, handleMessage and stopImpl of server/src/client_session.cpp, each as one
--   step of the server core and the session that gives what its call of the core has still to do and the
--   list of its sends. Agreement and Handlers relate the session's room to the members of the rooms,
--   OneCall bounds its calls of the core, Identity holds what handlers never change; Runs holds any number
--   of sessions, whose handlers follow each other in any order.
-- Server.Connection: the rest of that file, the loop that reads lines, the functions posted to the
--   strand and the queue of lines to write. Invariant says what holds of a session, Reading, Writing and
--   Handling that its functions keep it. Server.SessionRegistry: server/src/session_registry.cpp, with
--   weak pointers that expire.
-- Server.TcpServer: server/src/tcp_server.cpp, with its sessions, their sockets and strands, the
--   registry and the core. An action is a completion on a socket, the next function on a strand, the next
--   piece of a running handler, which saves or sends, a call of stop or an accepted client; a run is any
--   list of actions. Invariant, Quiet, Sending, Handling, Accepting and Steps say what one action keeps,
--   Runs what holds after any, Delivery that lines get written.
--
-- Numbers. Ids and counters are std::uint64_t and wrap: `incr64`. Theorems that need counters not to
-- wrap say so (`HasRoom`, `HasSpace`). A float coordinate is its 32-bit pattern, since the server only
-- copies coordinates. Enumerations with the underlying type std::uint8_t hold any byte. The clock is a
-- number of nanoseconds that each call is given. Bytes lie lowest first, as on the machines of the
-- build. The iteration order of unordered containers is not specified by the C++ library; the model
-- keeps insertion order, and no theorem says more of it than who is a member and what a key holds. Only
-- the loop of `list` has fuel, which bounds the rows that are read; more than the rows of the statement
-- is enough. Every other loop runs over a list or counts down.
--
-- Not modelled: the allocation failures of std::vector::reserve, the release of SQLite's handles, the
-- orders that relaxed atomics allow beyond an interleaving of steps, what Boost.Asio does with sockets,
-- the calls that open the acceptor, and the rest of app/src/main.cpp, which makes the parts and the
-- threads.
pub mod Application
pub mod Prelude
pub mod Core
pub mod Persistence
pub mod Transport
pub mod Server
