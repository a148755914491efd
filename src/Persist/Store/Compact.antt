-- ===== src/Persist/Store/Compact.antt =====
-- `compact_locked` of src/persist/mod.rs: the delta is folded into a new snapshot.
use orpheusgraph.Prelude.{string_eq, ℕ, ◌+◌, ◌%◌, ◌^◌, false, not, String, max, if◌then◌else◌, ◌==◌}
use orpheusgraph.IndexMap.{IndexMap}
use orpheusgraph.Types.{NodeData}
use orpheusgraph.Delta.Defs
use orpheusgraph.Delta.View.{is_empty}
use orpheusgraph.Delta.Materialize.{materialize}
use orpheusgraph.Persist.Bytes.{Bytes}
use orpheusgraph.Persist.Crc.{Crc32}
use orpheusgraph.Persist.Error.{ok}
use orpheusgraph.Persist.Program.{Program, gets, modify, ◌>>=◌, ◌>>◌}
use orpheusgraph.Persist.Vfs.{VfsFile, Vfs}
use orpheusgraph.Persist.Manifest.{
  Manifest, format_version, Json, write_file_atomic, write_manifest_atomic,
}
use orpheusgraph.Persist.Wal.Writer.{truncate}
use orpheusgraph.Persist.Store.State.{
  owned_mode, mmap, unchecked, BaseGraph, owned, Snapshots, as_accessor, node_names, Writer, Store,
  advance_commit, on_writer, on_disk, on_wal,
}
use orpheusgraph.Persist.Store.Batch.{publish}

-- A snapshot that was folded, and what the writer and the manifest say of it.
pub record Fold (G : Type 0) : Type 0 where
  pub folded : G
  pub bytes : Bytes
  pub new_crc : ℕ
  pub fold_seq : ℕ
  pub new_cid : ℕ
  pub new_snapshot_file : String

module _ {G : Type 0} where
  -- the manifest of step 5
  unfoldable pub fold_manifest : (created_by : String) → Fold G → (epoch : ℕ) → Manifest
  fold_manifest created_by k epoch = record {
    format_version = format_version;
    snapshot_file = k.new_snapshot_file;
    snapshot_seq = k.fold_seq;
    snapshot_crc32 = k.new_crc;
    compaction_id = k.new_cid;
    epoch = epoch;
    high_seq = k.fold_seq;
    clean_shutdown = false;
    created_by = created_by;
    checksum = 0;
  }

module _ {E F D G V : Type 0} ⦃im : IndexMap String NodeData⦄ ⦃crc : Crc32⦄ where
  -- steps 1 to 3
  unfoldable pub fold : Snapshots E D G V → Writer F G V → Fold G
  fold sn w =
      let (nodes, edges) = materialize (as_accessor sn w.base) (node_names sn w.base) w.delta in
      let folded = sn.build_graph_prenormalized nodes edges in
      let bytes = sn.to_rkyv_v2 folded in
      let new_cid = (w.compaction_id + 1) % 2 ^ 64 in
      record {
        folded = folded;
        bytes = bytes;
        new_crc = crc.checksum bytes;
        fold_seq = w.seq;
        new_cid = new_cid;
        new_snapshot_file = sn.snapshot_v2_name w.seq new_cid;
      }

module _ {F G V : Type 0} ⦃im : IndexMap String NodeData⦄ where
  -- step 5b
  unfoldable pub point_at : Fold G → Writer F G V → Writer F G V
  point_at k w = record w {
    snapshot_seq = k.fold_seq;
    snapshot_file = k.new_snapshot_file;
    snapshot_crc32 = k.new_crc;
    format_version = format_version;
    compaction_id = k.new_cid;
  }

  -- the writer's part of step 7
  unfoldable pub rebase : BaseGraph G V → Writer F G V → Writer F G V
  rebase base w = record w { base = base; delta = Defs.new; delta_ops = 0 }

module _ {E F D : Type 0} where
  -- an error is logged, and the next sweep tries again
  unfoldable pub remove_snapshot_file : Vfs E F D → String → D → D
  remove_snapshot_file vfs path d = (vfs.remove_file path d).1

module _ {E F G V : Type 0} ⦃im : IndexMap String NodeData⦄ ⦃crc : Crc32⦄ ⦃vf : VfsFile E F⦄ where
  -- step 5b from the marker on, and step 6
  unfoldable pub rotate : Fold G → Program E (Writer F G V) Unit
  rotate k = do
    modify (point_at k)
    durable_seq ← gets (λ w. w.durable_seq)
    advance_commit (max durable_seq k.fold_seq)
    on_wal truncate

module _ {E F D G V : Type 0} ⦃im : IndexMap String NodeData⦄ where
  -- the base that is published: the graph just built, or the new file mapped
  unfoldable pub reload :
      Vfs E F D → Snapshots E D G V → Fold G → Program E (Store F D G V) (BaseGraph G V)
  reload vfs sn k s = elim s.writer.mode [
    | owned_mode ↦ (ok (owned k.folded), s)
    | mmap ↦ (
      sn.open_snapshot (vfs.join s.dir k.new_snapshot_file) mmap unchecked s.writer.prefault
          k.new_crc s.disk,
      s,
    )
  ]

module _ {E F D G V : Type 0} ⦃im : IndexMap String NodeData⦄ where
  unfoldable pub collect : Vfs E F D → (old new : String) → Store F D G V → Store F D G V
  collect vfs old new s =
      if not (old == new)
      then record s { disk = remove_snapshot_file vfs (vfs.join s.dir old) s.disk }
      else s

module _ {E F D G V : Type 0} ⦃im : IndexMap String NodeData⦄ where
  -- steps 7 and 8, from the base that was loaded
  unfoldable pub settle_base :
      Vfs E F D → Fold G → (old : String) → BaseGraph G V → Store F D G V → Store F D G V
  settle_base vfs k old base s =
      collect vfs old k.new_snapshot_file (publish (record s { writer = rebase base s.writer }))

  unfoldable pub refresh :
      Vfs E F D → Snapshots E D G V → Fold G → (old : String) → Program E (Store F D G V) Unit
  refresh vfs sn k old = do base ← reload vfs sn k; modify (settle_base vfs k old base)

module _ {E F D G : Type 0} ⦃crc : Crc32⦄ ⦃js : Json⦄ ⦃vf : VfsFile E F⦄ where
  -- steps 4 and 5
  unfoldable pub write_fold :
      Vfs E F D → (dir created_by : String) → (epoch : ℕ) → Fold G → Program E D Unit
  write_fold vfs dir created_by epoch k = do
    write_file_atomic vfs dir k.new_snapshot_file k.bytes
    write_manifest_atomic vfs dir (fold_manifest created_by k epoch)

module _ {E F D G V : Type 0} ⦃im : IndexMap String NodeData⦄ ⦃crc : Crc32⦄ ⦃js : Json⦄
    ⦃vf : VfsFile E F⦄ where
  -- steps 4 to 8
  unfoldable pub install :
      Vfs E F D
      → Snapshots E D G V
      → (created_by : String) → Fold G
      → Program E (Store F D G V) Unit
  install vfs sn created_by k s =
      (on_disk (write_fold vfs s.dir created_by s.writer.epoch k)
          >> (on_writer (rotate k) >> refresh vfs sn k s.writer.snapshot_file))
        s

  unfoldable pub compact_locked :
      Vfs E F D → Snapshots E D G V → (created_by : String) → Program E (Store F D G V) Unit
  compact_locked vfs sn created_by s =
      if is_empty s.writer.delta
      then (ok tt, record s { writer = record s.writer { delta_ops = 0 } })
      else install vfs sn created_by (fold sn s.writer) s
