-- ===== src/Persist/Store/Open.antt =====
-- `open_with_vfs` of src/persist/mod.rs: the recovery of a store.
use orpheusgraph.Prelude.{
  string_eq, ℕ, Bool, true, false, not, ◌||◌, String, none, some, inl, inr, ltb, leb, max,
  if◌then◌else◌,
}
use orpheusgraph.IndexMap.{IndexMap}
use orpheusgraph.Types.{NodeData}
use orpheusgraph.Persist.Crc.{Crc32}
use orpheusgraph.Persist.Error.{PersistError, Result, ok, err}
use orpheusgraph.Persist.Program.{
  Program, pure, gets, modify, fail_if, of_result, io_call, owning, ◌>>=◌, ◌>>◌, zoom,
}
use orpheusgraph.Persist.Vfs.{VfsFile, Vfs}
use orpheusgraph.Persist.Lock.{acquire}
use orpheusgraph.Persist.Manifest.{
  Manifest, Json, format_version, mint_epoch, read_manifest, write_manifest_atomic,
}
use orpheusgraph.Persist.Commit.Slot.{CommitRecord}
use orpheusgraph.Persist.Commit.File.{CommitFile, open_commit, advance}
use orpheusgraph.Persist.Wal.Frame.{Postcard, ScanResult}
use orpheusgraph.Persist.Wal.Read.{read_and_scan}
use orpheusgraph.Persist.Wal.Writer
use orpheusgraph.Persist.Wal.Writer.{FsyncPolicy}
use orpheusgraph.Persist.Store.State.{
  BaseMode, Validate, full, crc_only, unchecked, BaseGraph, Snapshots, as_accessor, RecoveryReport,
  Store, state_of,
}
use orpheusgraph.Persist.Store.State
use orpheusgraph.Persist.Store.Recover.{Replay, recover}
use orpheusgraph.Persist.Store.Gc.{gc_orphan_snapshots}
use orpheusgraph.Persist.Store.Create.{Host, drop_commit, create_with_vfs}

-- a caller's `None` is raised to `Crc`
unfoldable pub safe_validate : Validate → Validate
safe_validate unchecked = crc_only
safe_validate full = full
safe_validate crc_only = crc_only

-- Step 5: whether the epoch is minted again.
abbrev pub forks : (truncated clean_shutdown : Bool) → Bool
forks truncated clean_shutdown = truncated || not clean_shutdown

-- Step 6: the manifest of this incarnation.
unfoldable pub reopened_manifest : Manifest → (epoch commit_hw : ℕ) → Manifest
reopened_manifest m epoch commit_hw = record m {
  epoch = epoch;
  high_seq = commit_hw;
  clean_shutdown = false;
  checksum = 0;
}

unfoldable pub report : ScanResult → (uncommitted_tail_frames : ℕ) → RecoveryReport
report scan uncommitted_tail_frames = record {
  uncommitted_tail_frames = uncommitted_tail_frames;
  torn_tail_frames = if scan.tail_truncated then scan.dropped else 0;
}

-- The options of `open_with`.
pub record Options : Type 0 where
  pub mode : BaseMode
  pub validate : Validate
  pub prefault : Bool

module _ ⦃im : IndexMap String NodeData⦄ where
  -- what the steps up to 6 have found
  pub record Recovered : Type 0 where
    pub replay : Replay
    pub epoch : ℕ
    pub commit_hw : ℕ
    pub recovery : RecoveryReport

module _ {E D G V : Type 0} where
  -- steps 1 and 2
  unfoldable pub load_base :
      Snapshots E D G V → (snap_path : String) → Options → Manifest → D → Result E (BaseGraph G V)
  load_base sn snap_path options m d =
      if ltb format_version m.format_version
      then err (PersistError.unsupported_version m.format_version format_version)
      else if leb m.format_version 2
      then err (PersistError.corrupt "legacy store format_version is no longer supported")
      else sn.open_snapshot snap_path options.mode (safe_validate options.validate) options.prefault
          m.snapshot_crc32 d

module _ {E F D : Type 0} where
  -- the log of a store with a manifest must be there
  unfoldable pub open_wal : Vfs E F D → String → Program E D F
  open_wal vfs path d =
      let (opened, d1) = vfs.open_append path d in
      elim opened [
        | inr f ↦ (ok f, d1)
        | inl e ↦ (
          err (
              if vfs.is_not_found e
              then PersistError.corrupt "MANIFEST present but wal.log missing"
              else PersistError.io e),
          d1,
        )
      ]

module _ {E F D A : Type 0} where
  -- programs on the handle of the log, and on the disk beside it
  abbrev pub on_handle : Program E F A → Program E (F × D) A
  on_handle = zoom (λ s. s.0) (λ f s. (f, s.1))

  abbrev pub beside : Program E D A → Program E (F × D) A
  beside = zoom (λ s. s.1) (λ d s. (s.0, d))

module _ {E F : Type 0} ⦃vf : VfsFile E F⦄ where
  abbrev pub file_len : Program E F ℕ
  file_len f =
      let (failed, (n, f1)) = vf.len f in
      elim failed [ some e ↦ (err (PersistError.io e), f1) | none ↦ (ok n, f1) ]

module _ {E F D : Type 0} ⦃vf : VfsFile E F⦄ where
  unfoldable pub cut_off_tail :
      Vfs E F D → (dir : String) → (committed_end : ℕ) → Program E (F × D) Bool
  cut_off_tail vfs dir committed_end = do
    on_handle (io_call (λ f. vf.set_len f committed_end))
    on_handle (io_call vf.sync_all)
    beside (io_call (vfs.fsync_dir dir))
    pure true

  -- step 4, with the answer whether bytes were cut off
  unfoldable pub cut_log : Vfs E F D → (dir : String) → (committed_end : ℕ) → Program E (F × D) Bool
  cut_log vfs dir committed_end = do
    n ← on_handle file_len
    if ltb committed_end n then cut_off_tail vfs dir committed_end else pure false

module _ {E F S : Type 0} ⦃crc : Crc32⦄ ⦃vf : VfsFile E F⦄ where
  -- step 5b
  unfoldable pub restamp : (epoch commit_hw : ℕ) → Program E (CommitFile F × S) Unit
  restamp epoch commit_hw s =
      let (failed, c) = advance s.0 epoch commit_hw in
      elim failed [ some e ↦ (err e, (c, s.1)) | none ↦ (ok tt, (c, s.1)) ]

module _ {E F D L G V : Type 0} ⦃im : IndexMap String NodeData⦄ ⦃crc : Crc32⦄ ⦃pc : Postcard⦄
    ⦃js : Json⦄ ⦃vf : VfsFile E F⦄ where
  -- steps 4 to 6b, from what the replay gave
  unfoldable pub settle :
      Host E F D L G V
      → (dir : String) → Manifest
      → ScanResult
      → (commit_hw : ℕ) → Replay
      → Program E (CommitFile F × (F × D)) Recovered
  settle host dir m scan commit_hw replay = do
    truncated ← beside (cut_log host.vfs dir replay.committed_end)
    epoch ← beside (
        beside (if forks truncated m.clean_shutdown then mint_epoch host.entropy else pure m.epoch))
    restamp epoch commit_hw
    beside (beside (write_manifest_atomic host.vfs dir (reopened_manifest m epoch commit_hw)))
    beside (beside (modify (gc_orphan_snapshots host.vfs dir m.snapshot_file)))
    pure (record {
      replay = replay;
      epoch = epoch;
      commit_hw = commit_hw;
      recovery = report scan replay.uncommitted_tail_frames;
    })

  -- steps 3a to 3c, and the rest
  unfoldable pub recover_with :
      Host E F D L G V
      → (dir : String) → BaseGraph G V
      → Manifest
      → ScanResult
      → CommitRecord
      → Program E (CommitFile F × (F × D)) Recovered
  recover_with host dir base m scan rec = do
    let commit_hw = max rec.committed_seq m.snapshot_seq
    fail_if (ltb commit_hw m.high_seq) (PersistError.corrupt "inconsistent durable pointers")
    replay ← of_result (recover (as_accessor host.snapshots base) m.snapshot_seq commit_hw scan)
    settle host dir m scan commit_hw replay

  -- step 3, the log's handle being held
  unfoldable pub recover_wal :
      Host E F D L G V
      → (dir : String) → BaseGraph G V
      → Manifest
      → Program E (F × D) (Recovered × CommitFile F)
  recover_wal host dir base m = do
    let commit_path = host.vfs.join dir "COMMIT"
    scan ← on_handle read_and_scan
    (rec, commit) ← beside (open_commit host.vfs commit_path)
    owning (λ c s. (s.0, drop_commit host.vfs commit_path c s.1)) commit
        (recover_with host dir base m scan rec)

module _ {F G V : Type 0} ⦃im : IndexMap String NodeData⦄ where
  -- step 7
  unfoldable pub reopened_writer :
      F → CommitFile F → BaseGraph G V → Manifest → Options → Recovered → State.Writer F G V
  reopened_writer wal_file commit base m options r = record {
    wal = Writer.new wal_file FsyncPolicy.on_flush r.replay.committed_end;
    commit = commit;
    seq = r.replay.last_applied;
    durable_seq = r.commit_hw;
    epoch = r.epoch;
    base = base;
    delta = r.replay.delta;
    snapshot_seq = m.snapshot_seq;
    snapshot_file = m.snapshot_file;
    snapshot_crc32 = m.snapshot_crc32;
    format_version = m.format_version;
    compaction_id = m.compaction_id;
    delta_ops = 0;
    auto_compact_override = none;
    mode = options.mode;
    prefault = options.prefault;
  }

module _ {F D G V : Type 0} ⦃im : IndexMap String NodeData⦄ where
  -- step 8, and the handle that is returned over the disk that is left
  unfoldable pub reopened_store : String → State.Writer F G V → RecoveryReport → D → Store F D G V
  reopened_store dir w recovery d = record {
    dir = dir;
    state = state_of w;
    writer = w;
    recovery = recovery;
    disk = d;
  }

module _ {E F D L G V : Type 0} ⦃im : IndexMap String NodeData⦄ ⦃crc : Crc32⦄ ⦃pc : Postcard⦄
    ⦃js : Json⦄ ⦃vf : VfsFile E F⦄ where
  -- from the manifest on
  unfoldable pub open_existing :
      Host E F D L G V → (dir : String) → Options → Program E D (Store F D G V)
  open_existing host dir options = do
    let vfs = host.vfs
    let wal_path = vfs.join dir "wal.log"
    m ← (λ d. (read_manifest vfs (vfs.join dir "MANIFEST.json") d, d))
    base ← (λ d. (load_base host.snapshots (vfs.join dir m.snapshot_file) options m d, d))
    file ← open_wal vfs wal_path
    ((r, commit), wal_file) ← owning (vfs.drop_handle wal_path) file (recover_wal host dir base m)
    gets (reopened_store dir (reopened_writer wal_file commit base m options r) r.recovery)

  unfoldable pub open_with_vfs :
      Host E F D L G V → (dir : String) → (create : Bool) → Options → Program E D (Store F D G V)
  open_with_vfs host dir create options d =
      if not (host.vfs.exists (host.vfs.join dir "MANIFEST.json") d)
      then (if create
          then create_with_vfs host dir host.snapshots.empty_inner d
          else (err (PersistError.not_found dir), d))
      else (acquire host.flock (host.vfs.join dir "LOCK") dir >> open_existing host dir options) d
