-- ===== src/Persist/Store.antt =====
-- src/persist/mod.rs: the persistent graph.
pub mod State
pub mod Recover
pub mod Batch
pub mod Compact
pub mod Calls
pub mod Gc
pub mod Create
pub mod Open
pub mod Crash
pub mod Published
pub mod Rotated
pub mod Folded
pub mod Durable
pub mod Cut
pub mod Reopened
pub mod Swept
