-- ===== src/Core.antt =====
-- core/: the board's state, rooms, and the server's entry points.
pub mod Types
pub mod Room
pub mod RoomManager
pub mod ServerCore
