-- ===== src/Tests.antt =====
-- Runs on small inputs, and each property at a concrete input.
mod Sample
mod MemoryFile
mod DeltaRuns
mod DeltaWitnesses
mod WalWitnesses
mod CommitWitnesses
mod QueryWitnesses
mod WriterWitnesses
mod CompactionWitnesses
mod GraphWitnesses
mod MemoryDisk
mod StoreSample
mod StoreWitnesses
mod ManifestWitnesses
mod CallWitnesses
mod OpenWitnesses
mod ListHeap
mod TraversalWitnesses
mod SnapshotWitnesses
mod BuilderRuns
mod BuilderWitnesses
