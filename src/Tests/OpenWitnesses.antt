-- ===== src/Tests/OpenWitnesses.antt =====
-- The recovery of src/persist/mod.rs on a log with a frame beyond the marker.
use orpheusgraph.Prelude.{
  string_eq, nat_eq, ◌≡◌, refl, true, false, none, [], ◌∷◌, ◌++◌, String, arith, inr, max, length,
}
use orpheusgraph.IndexMap.Association.{association}
use orpheusgraph.HashMap
use orpheusgraph.Delta.Defs
use orpheusgraph.Delta.Apply.{replay}
use orpheusgraph.Persist.Error.{ok}
use orpheusgraph.Persist.Manifest.{
  mint_epoch, manifest_checksum, stored_checksum, write_and_sync, write_file_atomic,
  write_manifest_atomic,
}
use orpheusgraph.Persist.Commit.File.{advance, write_slot}
use orpheusgraph.Persist.Wal.Frame.{encode_frame}
use orpheusgraph.Persist.Wal.Scan.{whole}
use orpheusgraph.Persist.Store.State.{owned, owned_mode, full, as_accessor}
use orpheusgraph.Persist.Store.Create.{Host}
use orpheusgraph.Persist.Store.Recover.{
  recover, recover_frames, recover_frame, replay_frame, start, check_recovered,
}
use orpheusgraph.Persist.Store.Recover.Sound.{IsConsecutive}
use orpheusgraph.Persist.Store.Recover.Complete.{committed}
use orpheusgraph.Persist.Store.Batch.Logged.{IsLogged, body_of}
use orpheusgraph.Persist.Store.Compact.{remove_snapshot_file}
use orpheusgraph.Persist.Store.Gc.{is_orphan, gc_orphan_snapshots, sweep}
use orpheusgraph.Persist.Store.Open.{
  Options, Recovered, cut_off_tail, cut_log, restamp, reopened_manifest, report, settle,
  recover_with, reopened_writer,
}
use orpheusgraph.Persist.Store.Swept.{IsSpared, gc_orphan_snapshots-bytes}
use orpheusgraph.Persist.Store.Reopened.{recover_with-IsLogged}
use orpheusgraph.Tests.MemoryFile.{MemoryFile, in_memory}
use orpheusgraph.Tests.MemoryDisk.{Disk, memory_disk}
use orpheusgraph.Tests.WalWitnesses.{additive, small_records, empty, frame, encode_log}
use orpheusgraph.Tests.StoreSample.{empty_graphs, marker, sidecar}
use orpheusgraph.Tests.ManifestWitnesses.{manifest, one_manifest, memory_laws}

abbrev host : Host String MemoryFile Disk Unit Unit Unit
host = record {
  vfs = memory_disk;
  flock = record {
    open_lock = λ path d. (inr tt, d);
    try_lock_exclusive = λ l d. (none, d);
    would_block = λ e. false;
  };
  entropy = record { getrandom = λ d. (inr (3 ∷ []), d) };
  snapshots = empty_graphs;
  created_by = "orpheusgraph";
}

abbrev options : Options
options = record { mode = owned_mode; validate = full; prefault = false }

abbrev log : MemoryFile
log = record { bytes = frame 7 ++ frame 8; on_disk = []; pos = 0; append_mode = true; refusals = 0 }

-- the frame 8 is dropped, the epoch minted again
abbrev recovered : Recovered
recovered = record {
  replay = record {
    delta = Defs.new;
    expected_next = 8;
    last_applied = 7;
    committed_end = 16;
    uncommitted_tail_frames = 1;
  };
  epoch = 3;
  commit_hw = 7;
  recovery = record { uncommitted_tail_frames = 1; torn_tail_frames = 0 };
}

recover_runs :
    (recover_with host "store"
      (owned tt)
      (manifest 0)
      (whole (empty 7 ∷ empty 8 ∷ []) 32)
      marker
      (sidecar, (log, HashMap.new))).0
    ≡ ok recovered
unfolding recover_with settle cut_log cut_off_tail restamp reopened_manifest report recover
    recover_frames recover_frame replay_frame start check_recovered encode_frame replay as_accessor
    advance write_slot sidecar mint_epoch manifest_checksum stored_checksum write_and_sync
    write_file_atomic write_manifest_atomic gc_orphan_snapshots sweep HashMap.get HashMap.insert
    HashMap.find HashMap.put
recover_runs = refl

numbered : IsConsecutive 6 (empty 7 ∷ empty 8 ∷ []) 8
numbered = (refl, (refl, refl))

recover_with-IsLogged_example :
    IsLogged String
      (as_accessor empty_graphs (owned tt))
      (body_of {V = Unit} (
        let s =
          (recover_with host "store"
            (owned tt)
            (manifest 0)
            (whole (empty 7 ∷ empty 8 ∷ []) (length log.bytes))
            marker
            (sidecar, (log, HashMap.new))).1 in
        reopened_writer {V = Unit} s.1.0 s.0 (owned tt) (manifest 0) options recovered))
      (committed (max 7 7) (empty 7 ∷ empty 8 ∷ []))
recover_with-IsLogged_example =
    recover_with-IsLogged host "store" (owned tt) (manifest 0) options marker 6 8
      (empty 7 ∷ empty 8 ∷ []) (frame 7 ++ frame 8) sidecar log HashMap.new recovered (omega arith)
      (omega arith) (omega arith) numbered encode_log (omega arith) refl refl recover_runs

-- a log beside the live snapshot is spared
-- the live snapshot, an older one, leftovers of two writes, and the files of the store
abbrev listed : Disk
listed = record {
  pairs =
      ("snapshot-folded.og", 1 ∷ [])
      ∷ ("snapshot-old.og", 2 ∷ [])
      ∷ ("snapshot-new.og.tmp", 3 ∷ [])
      ∷ ("MANIFEST.json.tmp", 4 ∷ [])
      ∷ ("MANIFEST.json", 5 ∷ [])
      ∷ ("COMMIT", 6 ∷ [])
      ∷ ("wal.log", 7 ∷ [])
      ∷ [];
}

sweep_run :
    (gc_orphan_snapshots memory_disk "store" "snapshot-folded.og" listed).pairs
    ≡ ("snapshot-folded.og", 1 ∷ [])
      ∷ ("MANIFEST.json", 5 ∷ [])
      ∷ ("COMMIT", 6 ∷ [])
      ∷ ("wal.log", 7 ∷ [])
      ∷ []
unfolding gc_orphan_snapshots sweep is_orphan remove_snapshot_file
sweep_run = refl

manifest_spared : IsSpared "snapshot-folded.og" "MANIFEST.json"
manifest_spared =
    IsSpared.no_prefix refl
      (λ e. ground (arith, string_eq.beq_iff "MANIFEST.json" "MANIFEST.json.tmp", e))

gc_orphan_snapshots-bytes_example :
    memory_laws.bytes_of
      (gc_orphan_snapshots memory_disk "store" "snapshot-folded.og" listed)
      "MANIFEST.json"
    ≡ memory_laws.bytes_of listed "MANIFEST.json"
gc_orphan_snapshots-bytes_example =
    gc_orphan_snapshots-bytes memory_disk memory_laws "store" "snapshot-folded.og" "MANIFEST.json"
      listed refl manifest_spared
