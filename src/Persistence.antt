-- ===== src/Persistence.antt =====
-- persistence/: snapshots of boards as bytes.
pub mod Codec
pub mod SnapshotStore
pub mod Sqlite
pub mod SqliteSnapshotStore
pub mod SqliteWriter
pub mod SnapshotWriter
