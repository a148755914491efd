-- ===== src/Tests/CallWitnesses.antt =====
-- The calls of src/persist/mod.rs at a concrete store over a disk in memory.
use orpheusgraph.Prelude.{string_eq, ◌≡◌, refl, some, [], ◌∷◌, String, nat_eq, arith}
use orpheusgraph.IndexMap.Association.{association}
use orpheusgraph.HashMap
use orpheusgraph.HashSet.{contains, Distinct}
use orpheusgraph.Accessor.{NodeView}
use orpheusgraph.Delta.Defs
use orpheusgraph.Delta.Defs.{GraphDelta}
use orpheusgraph.Delta.View.{is_empty, get_node}
use orpheusgraph.Tests.Sample.{node}
use orpheusgraph.Delta.Materialize.{materialize, live_names, collect_names, emit}
use orpheusgraph.Persist.Error.{ok}
use orpheusgraph.Persist.Manifest.{
  manifest_checksum, stored_checksum, write_and_sync, write_file_atomic, write_manifest_atomic,
}
use orpheusgraph.Persist.Commit.File.{advance, write_slot}
use orpheusgraph.Persist.Wal.Writer.{FsyncPolicy, guarded, truncate}
use orpheusgraph.Persist.Store.State.{Store, as_accessor, node_names, advance_commit}
use orpheusgraph.Persist.Store.Batch.{publish}
use orpheusgraph.Persist.Store.Compact.{
  fold, fold_manifest, point_at, rebase, reload, rotate, collect, settle_base, refresh, write_fold,
  install, compact_locked, remove_snapshot_file,
}
use orpheusgraph.Persist.Store.Calls.{apply, flush, compact}
use orpheusgraph.Persist.Store.Published.{IsPublished, calls-IsPublished}
use orpheusgraph.Persist.Store.Folded.{IsNamed, IsCompacted, compact_locked-IsCompacted}
use orpheusgraph.Tests.MemoryFile.{MemoryFile, in_memory}
use orpheusgraph.Tests.MemoryDisk.{Disk, memory_disk}
use orpheusgraph.Tests.WalWitnesses.{additive, small_records}
use orpheusgraph.Tests.StoreSample.{empty_graphs, sidecar, store}
use orpheusgraph.Tests.ManifestWitnesses.{one_manifest}

abbrev lazy : Store MemoryFile Disk Unit Unit
lazy = store FsyncPolicy.on_flush

calls-IsPublished_example :
    IsPublished (apply memory_disk empty_graphs "orpheusgraph" [] (some 7) lazy).1
    × (IsPublished (flush {E = String} lazy).1
        × IsPublished (compact memory_disk empty_graphs "orpheusgraph" lazy).1)
calls-IsPublished_example =
    calls-IsPublished memory_disk empty_graphs "orpheusgraph" [] (some 7) lazy refl

one_name : Distinct {A = String} ("a" ∷ [])
unfolding contains
one_name = (refl, tt)

-- one node that was upserted since the snapshot
abbrev delta : GraphDelta
delta = record Defs.new { added_nodes = (("a", node "a") ∷ [], one_name) }

abbrev changed : Store MemoryFile Disk Unit Unit
changed = record lazy { writer = record lazy.writer { delta = delta } }

compact_runs : (compact_locked memory_disk empty_graphs "orpheusgraph" changed).0 ≡ ok tt
unfolding compact_locked is_empty install fold fold_manifest point_at rebase reload rotate collect
    settle_base refresh write_fold remove_snapshot_file materialize live_names collect_names emit
    as_accessor node_names manifest_checksum stored_checksum write_and_sync write_file_atomic
    write_manifest_atomic advance_commit advance write_slot sidecar guarded truncate publish
    HashMap.get HashMap.insert HashMap.find HashMap.put
compact_runs = refl

view-named :
    (x : String) (v : NodeView)
    → get_node (as_accessor empty_graphs changed.writer.base) delta x ≡ some v
    → v.name ≡ x
unfolding get_node as_accessor contains HashMap.find
view-named x v h = ground (arith, h, string_eq.beq_iff "a" x)

changed-IsNamed : IsNamed empty_graphs changed.writer
unfolding as_accessor node_names contains
changed-IsNamed = record { listed = λ x. refl; own = view-named }

compact_locked-IsCompacted_example :
    IsCompacted memory_disk empty_graphs changed
      (compact_locked memory_disk empty_graphs "orpheusgraph" changed).1
compact_locked-IsCompacted_example =
    compact_locked-IsCompacted memory_disk empty_graphs "orpheusgraph" changed changed-IsNamed refl
      compact_runs
