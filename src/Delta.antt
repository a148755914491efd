-- ===== src/Delta.antt =====
-- src/delta.rs: the mutable overlay over an immutable base graph.
pub mod Defs
pub mod Mutators
pub mod View
pub mod Apply
pub mod Index
pub mod Kills
pub mod Indexed
pub mod Merged
pub mod Materialize
pub mod Written
pub mod Nodes
pub mod Validation
pub mod Fields
pub mod Sides
pub mod Parts
pub mod Edges
pub mod Recount
pub mod Masked
pub mod Counters
pub mod Tombstones
pub mod Recounted
