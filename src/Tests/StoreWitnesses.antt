-- ===== src/Tests/StoreWitnesses.antt =====
-- The store of src/persist/mod.rs at a concrete store and batch.
use orpheusgraph.Prelude.{
  string_eq, ◌≡◌, ◌+◌, refl, true, some, [], ◌∷◌, ◌++◌, String, arith, ◌<◌, ◌≤◌, ◌^◌, nat_eq,
  length,
}
use orpheusgraph.IndexMap.Association.{association}
use orpheusgraph.Delta.Apply
use orpheusgraph.Delta.Apply.{validate, replay}
use orpheusgraph.Persist.Error.{ok, err}
use orpheusgraph.Persist.Error
use orpheusgraph.Persist.Commit.File.{advance, write_slot}
use orpheusgraph.Persist.Wal.Frame.{encode_frame}
use orpheusgraph.Persist.Wal.Writer.{
  FsyncPolicy, guarded, fsync_now, sync_by_policy, append, truncate,
}
use orpheusgraph.Persist.Wal.Writer
use orpheusgraph.Persist.Store.State.{Writer, as_accessor, advance_commit}
use orpheusgraph.Persist.Store.Batch.{
  check_seq, apply_to_clone, seal, log_batch, write_batch, commit_batch, reflect,
}
use orpheusgraph.Persist.Store.Batch.Failure.{core_of, commit_batch-err}
use orpheusgraph.Persist.Store.Batch.Logged.{IsLogged, body_of, write_batch-IsLogged}
use orpheusgraph.Delta.Defs
use orpheusgraph.Persist.Wal.Scan.{whole}
use orpheusgraph.Persist.Store.Recover.{
  Replay, start, replay_frame, recover_frame, recover_frames, check_recovered, recover,
}
use orpheusgraph.Persist.Store.Recover.Sound.{IsConsecutive, replay_all, recover-IsReplayed}
use orpheusgraph.Persist.Store.Recover.Complete.{IsRecovered, recover-IsRecovered}
use orpheusgraph.Persist.Store.Calls.{flush_writer}
use orpheusgraph.Persist.Store.Crash.{
  IsMarked, Survives, flush_writer-Survives, Lossless, Reopens, IsLogged-Reopens,
}
use orpheusgraph.Persist.Store.Durable.{Marks, write_batch-Lossless}
use orpheusgraph.Tests.MemoryFile.{MemoryFile, in_memory}
use orpheusgraph.Tests.WalWitnesses.{additive, small_records, empty, frame, encode_log}
use orpheusgraph.Tests.StoreSample.{
  nothing, empty_graphs, sidecar, writer, store, writer-IsLogged, writer-IsMarked,
}

abbrev synced : Writer MemoryFile Unit Unit
synced = writer FsyncPolicy.every_batch

base_of : as_accessor empty_graphs synced.base ≡ nothing
unfolding as_accessor
base_of = refl

batch_runs : (write_batch empty_graphs [] (some 7) synced).0 ≡ ok 8
unfolding write_batch check_seq apply_to_clone as_accessor Apply.apply validate replay log_batch
    encode_frame append guarded sync_by_policy fsync_now seal advance_commit advance write_slot
    sidecar reflect
batch_runs = refl

batch_size : length (write_batch empty_graphs [] (some 7) synced).1.wal.file.bytes < 2 ^ 64
unfolding write_batch check_seq apply_to_clone as_accessor Apply.apply validate replay log_batch
    encode_frame append guarded sync_by_policy fsync_now seal advance_commit advance write_slot
    sidecar reflect
batch_size = omega arith

write_batch-IsLogged_example :
    (8 ≡ synced.seq + 1)
    × IsLogged String nothing
        (body_of (write_batch empty_graphs [] (some 7) synced).1)
        (empty 8 ∷ [])
write_batch-IsLogged_example =
    write_batch-IsLogged String empty_graphs nothing [] [] (some 7) synced 8 base_of
      (writer-IsLogged FsyncPolicy.every_batch) (omega arith) batch_runs

write_batch-Lossless_example :
    Marks String synced (write_batch empty_graphs [] (some 7) synced).1 8
    × Lossless String
        (write_batch empty_graphs [] (some 7) synced).1.wal.file.on_disk
        nothing
        (body_of (write_batch empty_graphs [] (some 7) synced).1)
        (empty 8 ∷ [])
write_batch-Lossless_example =
    write_batch-Lossless String empty_graphs nothing [] [] (some 7) synced 8 base_of
      (writer-IsLogged FsyncPolicy.every_batch) refl
      (writer-IsMarked FsyncPolicy.every_batch 8 (omega arith)) (omega arith) batch_size batch_runs

abbrev lazy : Writer MemoryFile Unit Unit
lazy = writer FsyncPolicy.on_flush

-- the frames of the records 7 and 8, none of them synced
abbrev busy : Writer MemoryFile Unit Unit
busy = record lazy {
  wal = record lazy.wal {
    file = record {
      bytes = frame 7 ++ frame 8;
      on_disk = [];
      pos = 0;
      append_mode = true;
      refusals = 0;
    };
  };
  seq = 8;
}

two_frames : IsConsecutive 6 (empty 7 ∷ empty 8 ∷ []) 8
two_frames = (refl, (refl, refl))

busy-IsLogged : IsLogged String nothing (body_of busy) (empty 7 ∷ empty 8 ∷ [])
unfolding replay
busy-IsLogged = record {
  first = 6;
  log = frame 7 ++ frame 8;
  logged = encode_log;
  holds = record { on_file = refl; append_mode = refl };
  early = omega arith;
  folded = omega arith;
  consecutive = two_frames;
  replayed = refl;
}

flush_runs : (flush_writer {E = String} busy).0 ≡ ok tt
unfolding flush_writer Writer.flush guarded fsync_now advance_commit advance write_slot sidecar
flush_runs = refl

busy-IsMarked : IsMarked String busy 8
busy-IsMarked =
    let m : IsMarked String lazy 8 = writer-IsMarked FsyncPolicy.on_flush 8 (omega arith) in
    record { marker = m.marker; positioned = m.positioned; fits = m.fits; room = m.room }

flush_writer-Survives_example :
    Survives String nothing busy (flush_writer {E = String} busy).1 (empty 7 ∷ empty 8 ∷ [])
flush_writer-Survives_example =
    flush_writer-Survives String nothing busy (empty 7 ∷ empty 8 ∷ []) busy-IsLogged busy-IsMarked
      (omega arith) (omega arith) flush_runs

conflict :
    (commit_batch empty_graphs [] (some 4) (store FsyncPolicy.on_flush)).0
    ≡ err (Error.PersistError.conflict 4 7)
unfolding commit_batch write_batch check_seq
conflict = refl

commit_batch-err_example :
    ((commit_batch empty_graphs [] (some 4) (store FsyncPolicy.on_flush)).1.state
      ≡ (store FsyncPolicy.on_flush).state)
    × (core_of (commit_batch empty_graphs [] (some 4) (store FsyncPolicy.on_flush)).1.writer
        ≡ core_of (writer FsyncPolicy.on_flush))
commit_batch-err_example =
    commit_batch-err String empty_graphs [] (some 4) (store FsyncPolicy.on_flush)
      (Error.PersistError.conflict 4 7) conflict

-- the frames of the records 7, 8 and 9, the snapshot at 7 and the marker at 8
abbrev found : Replay
found = record {
  delta = Defs.new;
  expected_next = 9;
  last_applied = 8;
  committed_end = 32;
  uncommitted_tail_frames = 1;
}

replay_runs :
    recover {E = String} nothing 7 8 (whole (empty 7 ∷ empty 8 ∷ empty 9 ∷ []) 48) ≡ ok found
unfolding recover recover_frames recover_frame replay_frame start check_recovered encode_frame
    replay
replay_runs = refl

recover-IsReplayed_example :
    (found.delta ≡ replay_all nothing (empty 8 ∷ []) Defs.new)
    × ((IsConsecutive 7 (empty 8 ∷ []) 8)
        × ((found.last_applied ≡ 8)
            × ((found.uncommitted_tail_frames ≡ 1) × (found.committed_end ≤ 48))))
recover-IsReplayed_example =
    recover-IsReplayed String nothing 7 8 (whole (empty 7 ∷ empty 8 ∷ empty 9 ∷ []) 48) found
      (omega arith) (omega arith) replay_runs

recover-IsRecovered_example :
    IsRecovered String nothing 7 8 (empty 7 ∷ empty 8 ∷ []) (frame 7 ++ frame 8)
recover-IsRecovered_example =
    recover-IsRecovered String nothing 7 8 6 8 (empty 7 ∷ empty 8 ∷ []) (frame 7 ++ frame 8)
      (omega arith) (omega arith) (omega arith) (omega arith) two_frames encode_log (omega arith)

IsLogged-Reopens_example : Reopens String [] nothing (body_of lazy) [] 7
IsLogged-Reopens_example =
    IsLogged-Reopens String nothing (body_of lazy) [] 7 (writer-IsLogged FsyncPolicy.on_flush)
      (omega arith) (omega arith) (omega arith) (omega arith)
