-- ===== src/Overlay.antt =====
-- src/overlay.rs: the per-request overlay over a graph.
pub mod Defs
pub mod Reference
pub mod Seen
