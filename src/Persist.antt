-- ===== src/Persist.antt =====
-- The durable store of src/persist.
pub mod Bytes
pub mod Error
pub mod Vfs
pub mod Crc
pub mod Wal
pub mod Commit
pub mod Program
pub mod Lock
pub mod Manifest
pub mod Store
pub mod Snapshot
