-- ===== src/Persist/Store/Calls.antt =====
-- The calls of `PersistentGraph` in src/persist/mod.rs, after `create` and `open`.
use orpheusgraph.Prelude.{
  string_eq, ℕ, Bool, true, false, String, Option, none, some, List, ltb, if◌then◌else◌,
}
use orpheusgraph.IndexMap.{IndexMap}
use orpheusgraph.Types.{NodeData}
use orpheusgraph.Accessor.{GraphAccessor}
use orpheusgraph.Delta.Defs.{Op}
use orpheusgraph.Persist.Crc.{Crc32}
use orpheusgraph.Persist.Error.{PersistError, Result, ok, err}
use orpheusgraph.Persist.Program.{Program, pure, gets, modify, fail_if, ◌>>=◌, ◌>>◌}
use orpheusgraph.Persist.Vfs.{VfsFile, Vfs}
use orpheusgraph.Persist.Manifest.{Manifest, Json, write_manifest_atomic}
use orpheusgraph.Persist.Wal.Frame.{Postcard}
use orpheusgraph.Persist.Wal.Writer
use orpheusgraph.Persist.Wal.Writer.{FsyncPolicy}
use orpheusgraph.Persist.Store.State.{
  GraphState, RecoveryReport, Snapshots, as_accessor, auto_compact_threshold, Store, build_manifest,
  advance_commit, on_writer, on_wal,
}
use orpheusgraph.Persist.Store.State
use orpheusgraph.Persist.Store.Batch.{commit_batch}
use orpheusgraph.Persist.Store.Compact.{compact_locked}

module _ {F D G V : Type 0} ⦃im : IndexMap String NodeData⦄ where
  unfoldable pub snapshot : Store F D G V → GraphState G V
  snapshot s = s.state

  unfoldable pub committed_seq : Store F D G V → ℕ
  committed_seq s = s.writer.durable_seq

  unfoldable pub set_fsync_policy : FsyncPolicy → Store F D G V → Store F D G V
  set_fsync_policy policy s = record s {
    writer = record s.writer { wal = Writer.set_policy policy s.writer.wal };
  }

  unfoldable pub set_auto_compact_threshold : Option ℕ → Store F D G V → Store F D G V
  set_auto_compact_threshold threshold s = record s {
    writer = record s.writer { auto_compact_override = threshold };
  }

module _ {E F G V : Type 0} ⦃im : IndexMap String NodeData⦄ ⦃crc : Crc32⦄ ⦃vf : VfsFile E F⦄ where
  -- the flush of the log, and the marker after it
  unfoldable pub flush_writer : Program E (State.Writer F G V) Unit
  flush_writer = do on_wal Writer.flush; target ← gets (λ w. w.seq); advance_commit target

module _ {E F D G V : Type 0} ⦃im : IndexMap String NodeData⦄ ⦃crc : Crc32⦄ ⦃vf : VfsFile E F⦄ where
  unfoldable pub flush : Program E (Store F D G V) Unit
  flush = do
    poisoned ← gets (λ s. s.writer.wal.poisoned)
    fail_if poisoned PersistError.poisoned
    on_writer flush_writer

module _ {E F D G V : Type 0} ⦃im : IndexMap String NodeData⦄ ⦃crc : Crc32⦄ ⦃js : Json⦄
    ⦃vf : VfsFile E F⦄ where
  unfoldable pub compact :
      Vfs E F D → Snapshots E D G V → (created_by : String) → Program E (Store F D G V) Unit
  compact vfs sn created_by = do
    poisoned ← gets (λ s. s.writer.wal.poisoned)
    fail_if poisoned PersistError.poisoned
    compact_locked vfs sn created_by

  -- the threshold of step 9 of `apply`
  unfoldable pub threshold : Snapshots E D G V → Store F D G V → ℕ
  threshold sn s = elim s.writer.auto_compact_override [
    | some n ↦ n
    | none ↦
        let base : GraphAccessor = as_accessor sn s.writer.base in
        auto_compact_threshold base.node_count
  ]

  -- step 9 of `apply`: an error is logged and the counter reset
  unfoldable pub auto_compact :
      Vfs E F D → Snapshots E D G V → (created_by : String) → Store F D G V → Store F D G V
  auto_compact vfs sn created_by s =
      if ltb (threshold sn s) s.writer.delta_ops
      then (let (r, s1) = compact_locked vfs sn created_by s in
          elim r [ ok u ↦ s1 | err e ↦ record s1 { writer = record s1.writer { delta_ops = 0 } } ])
      else s

  -- the manifest that `close` writes, and whether it answers `Poisoned`
  unfoldable pub closing_manifest :
      Vfs E F D
      → (created_by : String) → State.Writer F G V
      → (Manifest × Bool) × State.Writer F G V
  closing_manifest vfs created_by w =
      let (r, w1) = flush_writer {E = E} w in
      if w.wal.poisoned then ((build_manifest created_by false w, true), w) else elim r [
        | ok u ↦ ((build_manifest created_by true w1, false), w1)
        | err e ↦ ((build_manifest created_by false w1, true), w1)
      ]

  -- the handles of the store go out of scope
  unfoldable pub drop_store : Vfs E F D → (dir : String) → State.Writer F G V → D → D
  drop_store vfs dir w d =
      vfs.drop_handle (vfs.join dir "COMMIT") w.commit.file
        (vfs.drop_handle (vfs.join dir "wal.log") w.wal.file d)

  unfoldable pub close : Vfs E F D → (created_by : String) → Store F D G V → Result E Unit × D
  close vfs created_by s =
      let ((manifest, poisoned), w) = closing_manifest vfs created_by s.writer in
      let (r, d) = write_manifest_atomic vfs s.dir manifest s.disk in
      (
        elim r [ err e ↦ err e | ok u ↦ if poisoned then err PersistError.poisoned else ok tt ],
        drop_store vfs s.dir w d,
      )

module _ {E F D G V : Type 0} ⦃im : IndexMap String NodeData⦄ ⦃crc : Crc32⦄ ⦃pc : Postcard⦄
    ⦃js : Json⦄ ⦃vf : VfsFile E F⦄ where
  unfoldable pub apply :
      Vfs E F D
      → Snapshots E D G V
      → (created_by : String) → List Op
      → (expected_seq : Option ℕ) → Program E (Store F D G V) ℕ
  apply vfs sn created_by ops expected_seq = do
    new_seq ← commit_batch sn ops expected_seq
    modify (auto_compact vfs sn created_by)
    pure new_seq
