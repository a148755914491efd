-- ===== src/Tests/WriterWitnesses.antt =====
-- The log writer of src/persist/wal.rs on a file that refuses the first sync.
use orpheusgraph.Prelude.{ℕ, ◌≡◌, refl, true, false, String, [], ◌∷◌, arith}
use orpheusgraph.Persist.Error.{ok}
use orpheusgraph.Tests.MemoryFile.{MemoryFile, in_memory}
use orpheusgraph.Persist.Wal.Writer.{
  FsyncPolicy, WalWriter, guarded, fsync_now, sync_by_policy, append, flush, truncate,
}
use orpheusgraph.Persist.Wal.Poison.{Poisons, writer-Poisons}
use orpheusgraph.Persist.Wal.Pace.{IsPending, IsPaced, append-IsPaced}

abbrev log : ℕ → MemoryFile
log refusals = record { bytes = []; on_disk = []; pos = 0; append_mode = true; refusals = refusals }

abbrev writer : WalWriter MemoryFile
writer = record {
  file = log 1;
  policy = FsyncPolicy.every_batch;
  since_fsync = 0;
  poisoned = false;
  len = 0;
}

writer-Poisons_example :
    Poisons String writer (append {E = String} (1 ∷ []) writer)
    × (Poisons String writer (flush {E = String} writer)
        × Poisons String writer (truncate {E = String} writer))
writer-Poisons_example = writer-Poisons String (1 ∷ []) writer

refused : (append {E = String} (1 ∷ []) writer).1.poisoned ≡ true
unfolding append guarded fsync_now sync_by_policy
refused = refl

-- the second append under `EveryN(2)` syncs
abbrev paced : WalWriter MemoryFile
paced = record {
  file = record (log 0) { bytes = 5 ∷ 7 ∷ []; on_disk = 5 ∷ [] };
  policy = FsyncPolicy.every_n 2;
  since_fsync = 1;
  poisoned = false;
  len = 9;
}

synced : (append {E = String} (1 ∷ []) paced).0 ≡ ok true
unfolding append guarded fsync_now sync_by_policy
synced = refl

paced-IsPending : IsPending String paced ((7 ∷ []) ∷ [])
paced-IsPending = record { behind = refl; counted = refl; append_mode = refl }

append-IsPaced_example :
    IsPaced String 2 ((7 ∷ []) ∷ []) (1 ∷ []) true (append {E = String} (1 ∷ []) paced).1
append-IsPaced_example =
    append-IsPaced String (1 ∷ []) paced 2 ((7 ∷ []) ∷ []) true refl (omega arith) paced-IsPending
      (omega arith) synced
