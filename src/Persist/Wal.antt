-- ===== src/Persist/Wal.antt =====
-- src/persist/wal.rs: the write-ahead log.
pub mod Frame
pub mod Frames
pub mod Scan
pub mod Recovery
pub mod Resume
pub mod Writer
pub mod Poison
pub mod Pace
pub mod Synced
pub mod Read
pub mod Appended
