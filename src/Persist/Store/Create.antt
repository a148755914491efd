-- ===== src/Persist/Store/Create.antt =====
-- `create_with_vfs` of src/persist/mod.rs: a fresh store from a graph. The lock's handle is not kept:
-- nothing reads it, and its drop lets the lock go.
use orpheusgraph.Prelude.{string_eq, ℕ, false, String, none, some, inl, inr}
use orpheusgraph.IndexMap.{IndexMap}
use orpheusgraph.Types.{NodeData}
use orpheusgraph.Delta.Defs
use orpheusgraph.Persist.Crc.{Crc32}
use orpheusgraph.Persist.Error.{PersistError, ok, err}
use orpheusgraph.Persist.Program.{
  Program, pure, gets, fail_if, io_get, io_call, owning, ◌>>=◌, ◌>>◌, zoom,
}
use orpheusgraph.Persist.Vfs.{VfsFile, Vfs}
use orpheusgraph.Persist.Lock.{Flock, acquire}
use orpheusgraph.Persist.Manifest.{
  Manifest, Json, Entropy, format_version, mint_epoch, write_file_atomic, write_manifest_atomic,
}
use orpheusgraph.Persist.Commit.File
use orpheusgraph.Persist.Commit.File.{CommitFile}
use orpheusgraph.Persist.Wal.Writer
use orpheusgraph.Persist.Wal.Writer.{FsyncPolicy}
use orpheusgraph.Persist.Store.State.{mmap, owned, Snapshots, Store, state_of}
use orpheusgraph.Persist.Store.State

-- The rest of the world that `create` and `open` call, and the constant `CREATED_BY`.
pub record Host (E F D L G V : Type 0) : Type 0 where
  pub vfs : Vfs E F D
  pub flock : Flock E L D
  pub entropy : Entropy E D
  pub snapshots : Snapshots E D G V
  pub created_by : String

module _ {E F D : Type 0} ⦃vf : VfsFile E F⦄ where
  -- the empty log: made, synced and dropped
  unfoldable pub create_wal : Vfs E F D → String → Program E D Unit
  create_wal vfs path d =
      let (made, d1) = vfs.create path d in
      elim made [
        | inl e ↦ (err (PersistError.io e), d1)
        | inr f ↦
            let (unsynced, f1) = vf.sync_all f in
            elim unsynced [
              | some e ↦ (err (PersistError.io e), vfs.drop_handle path f1 d1)
              | none ↦ (ok tt, vfs.drop_handle path f1 d1)
            ]
      ]

  -- a handle of the sidecar goes out of scope
  abbrev pub drop_commit : Vfs E F D → String → CommitFile F → D → D
  drop_commit vfs path c d = vfs.drop_handle path c.file d

-- The manifest of a fresh store.
unfoldable pub fresh_manifest :
    (created_by snapshot_file : String) → (snapshot_crc32 epoch : ℕ) → Manifest
fresh_manifest created_by snapshot_file snapshot_crc32 epoch = record {
  format_version = format_version;
  snapshot_file = snapshot_file;
  snapshot_seq = 0;
  snapshot_crc32 = snapshot_crc32;
  compaction_id = 0;
  epoch = epoch;
  high_seq = 0;
  clean_shutdown = false;
  created_by = created_by;
  checksum = 0;
}

module _ {F G V : Type 0} ⦃im : IndexMap String NodeData⦄ where
  -- the values that a fresh store begins with
  unfoldable pub fresh_writer :
      F → CommitFile F → ℕ → G → (snapshot_file : String) → ℕ → State.Writer F G V
  fresh_writer wal_file commit epoch base_graph snapshot_file snapshot_crc32 = record {
    wal = Writer.new wal_file FsyncPolicy.on_flush 0;
    commit = commit;
    seq = 0;
    durable_seq = 0;
    epoch = epoch;
    base = owned base_graph;
    delta = Defs.new;
    snapshot_seq = 0;
    snapshot_file = snapshot_file;
    snapshot_crc32 = snapshot_crc32;
    format_version = format_version;
    compaction_id = 0;
    delta_ops = 0;
    auto_compact_override = none;
    mode = mmap;
    prefault = false;
  }

module _ {F D G V : Type 0} ⦃im : IndexMap String NodeData⦄ where
  -- the handle that is returned, over the disk that is left
  unfoldable pub fresh_store : String → State.Writer F G V → D → Store F D G V
  fresh_store dir w d = record {
    dir = dir;
    state = state_of w;
    writer = w;
    recovery = record { uncommitted_tail_frames = 0; torn_tail_frames = 0 };
    disk = d;
  }

module _ {E F D L G V : Type 0} ⦃im : IndexMap String NodeData⦄ ⦃crc : Crc32⦄ ⦃js : Json⦄
    ⦃vf : VfsFile E F⦄ where
  -- the manifest and the log's handle, while the sidecar's handle is held
  unfoldable pub create_root : Host E F D L G V → String → Manifest → Program E (CommitFile F × D) F
  create_root host dir manifest =
      zoom (λ s. s.1) (λ d s. (s.0, d))
        (do
          write_manifest_atomic host.vfs dir manifest
          io_get (host.vfs.open_append (host.vfs.join dir "wal.log")))

  unfoldable pub create_files :
      Host E F D L G V → (dir snapshot_file : String) → G → Program E D Unit
  create_files host dir snapshot_file base_graph = do
    let vfs = host.vfs
    write_file_atomic vfs dir snapshot_file (host.snapshots.to_rkyv_v2 base_graph)
    create_wal vfs (vfs.join dir "wal.log")
    io_call (vfs.fsync_dir dir)

  -- from the check of the directory on
  unfoldable pub create_in : Host E F D L G V → String → G → Program E D (State.Writer F G V)
  create_in host dir base_graph = do
    let vfs = host.vfs
    let snapshot_crc32 = crc.checksum (host.snapshots.to_rkyv_v2 base_graph)
    let snapshot_file = host.snapshots.snapshot_v2_name 0 0
    let commit_path = vfs.join dir "COMMIT"
    create_files host dir snapshot_file base_graph
    epoch ← mint_epoch host.entropy
    commit ← File.create vfs commit_path dir epoch 0
    (wal_file, held) ←
        owning (drop_commit vfs commit_path) commit
          (create_root host dir (fresh_manifest host.created_by snapshot_file snapshot_crc32 epoch))
    pure (fresh_writer wal_file held epoch base_graph snapshot_file snapshot_crc32)

  unfoldable pub create_with_vfs : Host E F D L G V → String → G → Program E D (Store F D G V)
  create_with_vfs host dir base_graph = do
    let vfs = host.vfs
    io_call (vfs.create_dir_all dir)
    lock ← acquire host.flock (vfs.join dir "LOCK") dir
    taken ← gets (vfs.exists (vfs.join dir "MANIFEST.json"))
    fail_if taken (PersistError.corrupt "refusing to clobber existing store")
    w ← create_in host dir base_graph
    gets (fresh_store dir w)
