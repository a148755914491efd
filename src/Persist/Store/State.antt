-- ===== src/Persist/Store/State.antt =====
-- The state of src/persist/mod.rs: the published graph, the writer and the disk under them, and the
-- steps of the `impl Writer`. `G` is the owned graph, `V` the mapped view of a snapshot.
use orpheusgraph.Prelude.{string_eq, ℕ, ◌/◌, Bool, true, String, Option, none, some, List, max}
use orpheusgraph.IndexMap.{IndexMap}
use orpheusgraph.Types.{NodeData, NodeInput, EdgeInput}
use orpheusgraph.Accessor.{GraphAccessor}
use orpheusgraph.Delta.Defs.{GraphDelta}
use orpheusgraph.Persist.Bytes.{Bytes}
use orpheusgraph.Persist.Crc.{Crc32}
use orpheusgraph.Persist.Error.{PersistError, Result, ok, err}
use orpheusgraph.Persist.Program.{Program, zoom}
use orpheusgraph.Persist.Vfs.{VfsFile}
use orpheusgraph.Persist.Manifest.{Manifest}
use orpheusgraph.Persist.Commit.File.{CommitFile, advance}
use orpheusgraph.Persist.Wal.Writer.{WalWriter}

pub data BaseMode : Type 0 where
  owned_mode mmap : BaseMode

pub data Validate : Type 0 where
  full crc_only unchecked : Validate

pub data BaseGraph (G V : Type 0) : Type 0 where
  owned : G → BaseGraph G V
  archived : V → BaseGraph G V

-- What the store calls in src/builder.rs and src/persist/snapshot.rs, and `format!` of a file's name.
pub record Snapshots (E D G V : Type 0) : Type 0 where
  pub owned_accessor : G → GraphAccessor
  pub owned_names : G → List String
  pub view_accessor : V → GraphAccessor
  pub view_names : V → List String
  pub empty_inner : G
  pub build_graph_prenormalized : List NodeInput → List EdgeInput → G
  pub to_rkyv_v2 : G → Bytes
  pub open_snapshot :
      String → BaseMode → Validate → (prefault : Bool) → ℕ → D → Result E (BaseGraph G V)
  pub snapshot_v2_name : (seq cid : ℕ) → String

module _ {E D G V : Type 0} where
  unfoldable pub as_accessor : Snapshots E D G V → BaseGraph G V → GraphAccessor
  as_accessor sn (owned g) = sn.owned_accessor g
  as_accessor sn (archived v) = sn.view_accessor v

  unfoldable pub node_names : Snapshots E D G V → BaseGraph G V → List String
  node_names sn (owned g) = sn.owned_names g
  node_names sn (archived v) = sn.view_names v

pub record RecoveryReport : Type 0 where
  pub uncommitted_tail_frames : ℕ
  pub torn_tail_frames : ℕ

unfoldable pub auto_compact_threshold : ℕ → ℕ
auto_compact_threshold base_node_count = max 1000 (base_node_count / 10)

module _ ⦃im : IndexMap String NodeData⦄ where
  pub record GraphState (G V : Type 0) : Type 0 where
    pub base : BaseGraph G V
    pub delta : GraphDelta
    pub seq : ℕ
    pub epoch : ℕ

  pub record Writer (F G V : Type 0) : Type 0 where
    pub wal : WalWriter F
    pub commit : CommitFile F
    pub seq : ℕ
    pub durable_seq : ℕ
    pub epoch : ℕ
    pub base : BaseGraph G V
    pub delta : GraphDelta
    pub snapshot_seq : ℕ
    pub snapshot_file : String
    pub snapshot_crc32 : ℕ
    pub format_version : ℕ
    pub compaction_id : ℕ
    pub delta_ops : ℕ
    pub auto_compact_override : Option ℕ
    pub mode : BaseMode
    pub prefault : Bool

  -- `PersistentGraph`, and the disk that its calls reach.
  pub record Store (F D G V : Type 0) : Type 0 where
    pub dir : String
    pub state : GraphState G V
    pub writer : Writer F G V
    pub recovery : RecoveryReport
    pub disk : D

module _ {F G V : Type 0} ⦃im : IndexMap String NodeData⦄ where
  -- `created_by` is the constant of src/persist/manifest.rs that names the version
  unfoldable pub build_manifest : (created_by : String) → Bool → Writer F G V → Manifest
  build_manifest created_by clean_shutdown w = record {
    format_version = w.format_version;
    snapshot_file = w.snapshot_file;
    snapshot_seq = w.snapshot_seq;
    snapshot_crc32 = w.snapshot_crc32;
    compaction_id = w.compaction_id;
    epoch = w.epoch;
    high_seq = w.durable_seq;
    clean_shutdown = clean_shutdown;
    created_by = created_by;
    checksum = 0;
  }

  -- the published state that the writer holds
  abbrev pub state_of : Writer F G V → GraphState G V
  state_of w = record { base = w.base; delta = w.delta; seq = w.seq; epoch = w.epoch }

module _ {E F G V : Type 0} ⦃im : IndexMap String NodeData⦄ where
  -- what `advance_commit` makes of the sidecar's answer
  abbrev pub marked :
      ℕ → Writer F G V → Option (PersistError E) × CommitFile F → Result E Unit × Writer F G V
  marked n w (some e, c) = (err e, record w { commit = c; wal = record w.wal { poisoned = true } })
  marked n w (none, c) = (ok tt, record w { commit = c; durable_seq = n })

module _ {E F G V : Type 0} ⦃im : IndexMap String NodeData⦄ ⦃crc : Crc32⦄ ⦃vf : VfsFile E F⦄ where
  unfoldable pub advance_commit : ℕ → Program E (Writer F G V) Unit
  advance_commit committed_seq w = marked committed_seq w (advance w.commit w.epoch committed_seq)

-- the parts of the store that its programs work on
module _ {E F D G V A : Type 0} ⦃im : IndexMap String NodeData⦄ where
  abbrev pub on_writer : Program E (Writer F G V) A → Program E (Store F D G V) A
  on_writer = zoom (λ s. s.writer) (λ w s. record s { writer = w })

  abbrev pub on_disk : Program E D A → Program E (Store F D G V) A
  on_disk = zoom (λ s. s.disk) (λ d s. record s { disk = d })

module _ {E F G V A : Type 0} ⦃im : IndexMap String NodeData⦄ where
  abbrev pub on_wal : Program E (WalWriter F) A → Program E (Writer F G V) A
  on_wal = zoom (λ w. w.wal) (λ l w. record w { wal = l })
