-- ===== src/Lib.antt =====
-- A verification library for orpheusgraph, a directed property graph with a mutable overlay over an
-- immutable base and a durable log. A base graph (Graph) answers reads through an accessor (Accessor);
-- an overlay (Delta) records a batch of operations over it and merges the two in its own accessor; a
-- request adds nodes and edges for one query and filters what it sees (Overlay, Types/Visibility); the
-- queries search what the request sees of the graph (Traversal); the
-- store (Persist/Store) logs each batch (Persist/Wal), says in a sidecar how far the log counts
-- (Persist/Commit), and folds the log into snapshots that a manifest points at (Persist/Manifest).
--
-- Files
-- - src/types.rs: Types has the data of nodes and edges, Types/Acl `normalize_acl`, Types/Context the
--   request context and `is_edge_visible`, Types/Visibility what its visibility means.
-- - src/accessor.rs and src/graph.rs: Accessor has the trait `GraphAccessor` as a record of functions,
--   Graph the owned graph, its inspection calls and its accessor, with petgraph as a parameter.
-- - src/delta.rs: Delta/Defs has `GraphDelta`, Delta/Mutators its private operations, Delta/View the
--   merged `DeltaAccessor`, Delta/Apply the two passes of `apply` and the crash-recovery `replay`,
--   Delta/Recount the debug assertions, Delta/Materialize and Delta/Written `materialize`. Index, Kills and Indexed are
--   on the position indexes, Merged, Sides, Parts, Edges, Fields and Nodes on the merged view,
--   Validation on `apply`, Masked, Counters, Tombstones and Recounted on the counters.
-- - src/overlay.rs: Overlay/Defs has the index and the merged neighbours; Overlay/Reference and
--   Overlay/Seen have the scans that they are compared with.
-- - src/scoring.rs: Scoring has the formula.
-- - src/traversal.rs: Traversal/Beam has `beam_traverse`, Path `find_path` and `reconstruct_path`, Subgraph
--   `contextual_subgraph`, MultiBeam `multi_beam_intersection`; Score is what they share, Sort the
--   standard library's sort and the order of `total_cmp`, Heap the interface of its heap, Lists lemmas.
--   Beam/Level and Candidates are on one level of a beam; Path/Route says what a path is, Chain, Relax,
--   Expand and Pop are on the search, Ends and Reconstruct on the walk back, Answer on the whole;
--   Subgraph/Top is on the choice of the seeds and Subgraph/Seeds on the loop over them, MultiBeam/Heat, Kept and Edges on the three parts of the intersection.
-- - src/persist/wal.rs: Persist/Wal/Frame has the framing and the recovery scan, Persist/Wal/Writer
--   `WalWriter`, Persist/Wal/Read the reading of the file. Frames, Scan, Recovery and Resume are on the
--   scan, Poison, Pace and Synced on the writer.
-- - src/persist/commit.rs: Persist/Commit/Slot has the slots, Select the choice between them, File
--   `CommitFile` with `create`, `open` (here `open_commit`) and `advance`; PingPong is on what a reopened
--   sidecar reads, Synced on what is on the disk.
-- - src/persist/manifest.rs and src/persist/lock.rs: Persist/Manifest has the manifest, its checksum and
--   the atomic writes, Manifest/Trip is on what is read back; Persist/Lock has `acquire`.
-- - src/persist/mod.rs: Persist/Store/State has the published state, the writer and `advance_commit`,
--   Create `create_with_vfs`, Open `open_with_vfs`, Recover its replay (steps 3b and 3c), Batch steps 1
--   to 8 of `apply`, Compact `compact_locked`, Calls the other calls and the rest of `apply`, Gc the sweep.
--   Recover/Sound and Recover/Complete are on the replay, Batch/Logged and Batch/Failure on a batch,
--   Crash and Durable on what a crash leaves, Cut and Reopened on what an open makes of it, Rotated and
--   Folded on compaction, Swept on the sweep, Published on what readers see.
-- - src/builder.rs: Builder has the construction of a graph: the inputs deduplicated and in canonical order, the
--   normalisation of weights, the insertion of nodes and edges and PageRank; and the
--   rebuild from an archive. Builder/Canonical is on what a name stands for among the inputs, Builder/Nodes and
--   Builder/Built on the nodes of the built graph.
-- - src/persist/snapshot.rs: Persist/Snapshot has the CSR structure, the hash table of names and the accessor,
--   Snapshot/Buckets and Snapshot/Validate the sweep `validate_csr`; Offsets, Groups, Mirror and Read are on
--   what it proves of the reads.
-- - src/persist/vfs.rs and src/persist/error.rs: Persist/Vfs has the traits of files as records,
--   Persist/Error the error type. Persist/Bytes has the little-endian words.
-- - HashMap, HashSet and IndexMap are the maps and sets that the program uses, Prelude what the other
--   files share, Tests the runs and the properties at concrete inputs.
--
-- Conventions
-- - A fallible method of the store is a program (Persist/Program): a state that is threaded through and an
--   answer, with `?` as the bind of a do block. A handle that goes out of scope puts its bytes back on
--   the disk, on every path.
-- - A Rust `&mut self` method is a function from the state to the state; an error is a value. The text of
--   an error message is kept without the values that it formats.
-- - `HashMap` and `HashSet` of the standard library are association lists without repeated keys; nothing
--   in the modelled code depends on their order.
-- - A file has, beside its bytes, those of its last sync that succeeded. Where nothing was written since, they
--   are what a crash of the machine leaves; what a crash makes of later writes is not modelled, beyond bytes
--   without a valid checksum in a slot of the sidecar and a log that ends in part of a frame.
-- - A name of a file is one component of a path, which the file system tells; names differ where their texts do.
-- - Code of other crates is a parameter with its documented laws: `IndexMap` (IndexMap/Association meets
--   them), petgraph (its reads in Graph, the calls that build it in Builder), crc32fast, postcard,
--   serde_json, getrandom, fs2, the file system, and the arithmetic and order of `f32`, whose values are
--   their 32 bits. A byte is a number.
-- - A position is cast by `as u32`, that is, modulo 2 ^ 32; what needs the positions apart says that the
--   overlay has fewer edges. The other words wrap where the source adds to them.
-- - The four counters of the overlay are natural numbers; a subtraction stops at 0.
-- - Loops are structural recursions, but for two that run on fuel. The scan of the log has one round more
--   than the bytes, where every round but the last takes eight bytes or more. The search of `find_path`
--   has a round for each pair of a name and a cost, since a name is pushed again only at a lower cost, and
--   the walk back over the parents, which never form a cycle, as many.
--
-- Not modelled: the writing and opening of a snapshot (the rest of src/persist/snapshot.rs), which work on
-- archives of rkyv and on mapped memory; the store reaches them and the construction of a graph through
-- the interface `Snapshots`. The archive format (src/serialization.rs) and the Python bindings
-- (src/pybridge.rs) convert data for other libraries. Tests and benchmarks are left out.
pub mod Prelude
pub mod HashMap
pub mod HashSet
pub mod IndexMap
pub mod Types
pub mod Accessor
pub mod Delta
pub mod Graph
pub mod Overlay
pub mod Scoring
pub mod Persist
pub mod Tests
pub mod Traversal
pub mod Builder
