-- ===== src/Tests/StoreSample.antt =====
-- A small store of src/persist/mod.rs: an empty base, the snapshot at 7, the log and the delta empty.
use orpheusgraph.Prelude.{
  string_eq, refl, true, false, none, [], ◌∷◌, String, arith, ◌<◌, ℕ, nat_eq,
}
use orpheusgraph.IndexMap.Association.{association}
use orpheusgraph.Accessor.{GraphAccessor}
use orpheusgraph.Delta.Defs
use orpheusgraph.Persist.Error.{ok}
use orpheusgraph.Persist.Commit.Slot.{CommitRecord, encode_slot, decode_slot}
use orpheusgraph.Persist.Commit.Select.{select, choose, get}
use orpheusgraph.Persist.Commit.File.{CommitFile}
use orpheusgraph.Persist.Commit.PingPong.{IsPositioned}
use orpheusgraph.Persist.Wal.Writer.{FsyncPolicy, WalWriter}
use orpheusgraph.Persist.Store.State.{owned, owned_mode, Snapshots, Writer, Store, state_of}
use orpheusgraph.Persist.Store.Batch.Logged.{IsLogged, body_of}
use orpheusgraph.Persist.Store.Crash.{IsMarked}
use orpheusgraph.HashMap
use orpheusgraph.Tests.MemoryFile.{MemoryFile, in_memory}
use orpheusgraph.Tests.MemoryDisk.{Disk}
use orpheusgraph.Tests.WalWitnesses.{additive, small_records}

abbrev pub nothing : GraphAccessor
nothing = record {
  node_count = 0;
  edge_count = 0;
  get_node = λ x. none;
  outgoing_neighbors = λ x. [];
  incoming_neighbors = λ x. [];
}

-- graphs that hold nothing
abbrev pub empty_graphs : Snapshots String Disk Unit Unit
empty_graphs = record {
  owned_accessor = λ g. nothing;
  owned_names = λ g. [];
  view_accessor = λ v. nothing;
  view_names = λ v. [];
  empty_inner = tt;
  build_graph_prenormalized = λ nodes edges. tt;
  to_rkyv_v2 = λ g. 1 ∷ 2 ∷ [];
  open_snapshot = λ path mode validate prefault crc32 d. ok (owned tt);
  snapshot_v2_name = λ seq cid. "snapshot-folded.og";
}

abbrev pub marker : CommitRecord
marker = record { epoch = 3; committed_seq = 7; gen = 0 }

unfoldable pub sidecar : CommitFile MemoryFile
sidecar = record {
  file = record {
    bytes = encode_slot marker;
    on_disk = [];
    pos = 44;
    append_mode = false;
    refusals = 0;
  };
  next_slot = 1;
  next_gen = 1;
}

abbrev pub wal : FsyncPolicy → WalWriter MemoryFile
wal policy = record {
  file = record { bytes = []; on_disk = []; pos = 0; append_mode = true; refusals = 0 };
  policy = policy;
  since_fsync = 0;
  poisoned = false;
  len = 0;
}

abbrev pub writer : FsyncPolicy → Writer MemoryFile Unit Unit
writer policy = record {
  wal = wal policy;
  commit = sidecar;
  seq = 7;
  durable_seq = 7;
  epoch = 3;
  base = owned tt;
  delta = Defs.new;
  snapshot_seq = 7;
  snapshot_file = "snapshot.og";
  snapshot_crc32 = 5;
  format_version = 3;
  compaction_id = 0;
  delta_ops = 0;
  auto_compact_override = none;
  mode = owned_mode;
  prefault = false;
}

abbrev pub store : FsyncPolicy → Store MemoryFile Disk Unit Unit
store policy = record {
  dir = "store";
  state = state_of (writer policy);
  writer = writer policy;
  recovery = record { uncommitted_tail_frames = 0; torn_tail_frames = 0 };
  disk = HashMap.new;
}

pub writer-IsLogged : (p : FsyncPolicy) → IsLogged String nothing (body_of (writer p)) []
writer-IsLogged p = record {
  first = 7;
  log = [];
  logged = refl;
  holds = record { on_file = refl; append_mode = refl };
  early = omega arith;
  folded = omega arith;
  consecutive = refl;
  replayed = refl;
}

sidecar-IsPositioned : IsPositioned String sidecar marker
unfolding sidecar select choose get encode_slot decode_slot
sidecar-IsPositioned = record {
  chosen = 0;
  holds = refl;
  other = refl;
  low = omega arith;
  next = refl;
  plain = refl;
}

pub writer-IsMarked : (p : FsyncPolicy) (n : ℕ) → n < 9 → IsMarked String (writer p) n
unfolding sidecar
writer-IsMarked p n h = record {
  marker = marker;
  positioned = sidecar-IsPositioned;
  fits = record { gen = omega arith; epoch = omega arith; committed_seq = omega (arith, h) };
  room = omega arith;
}
