-- ===== src/Server.antt =====
-- server/: the sessions of clients.
pub mod Session
pub mod SessionRegistry
pub mod Connection
pub mod TcpServer
