-- ===== src/Traversal.antt =====
-- src/traversal.rs: the queries over a graph and a request's overlay.
pub mod Lists
pub mod Sort
pub mod Score
pub mod Beam
pub mod Heap
pub mod Path
pub mod Subgraph
pub mod MultiBeam
