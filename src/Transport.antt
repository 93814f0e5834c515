-- ===== src/Transport.antt =====
-- transport/: the messages between clients and the server.
pub mod Messages
pub mod Mappers
pub mod Json
pub mod JsonProtocol
