-- ===== src/Persist/Commit.antt =====
-- src/persist/commit.rs: the COMMIT sidecar.
pub mod Slot
pub mod Select
pub mod File
pub mod PingPong
pub mod Synced
