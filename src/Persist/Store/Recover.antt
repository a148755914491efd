-- ===== src/Persist/Store/Recover.antt =====
-- Steps 3b and 3c of `open_with_vfs` in src/persist/mod.rs: the replay of the committed frames.
pub mod Sound
pub mod Complete
use orpheusgraph.Prelude.{
  string_eq, ℕ, ◌+◌, ◌%◌, ◌^◌, Bool, not, String, List, [], ◌∷◌, ltb, leb, length, if◌then◌else◌,
  ◌==◌, nat_eq,
}
use orpheusgraph.IndexMap.{IndexMap}
use orpheusgraph.Types.{NodeData}
use orpheusgraph.Accessor.{GraphAccessor}
use orpheusgraph.Delta.Defs
use orpheusgraph.Delta.Defs.{GraphDelta}
use orpheusgraph.Delta.Apply.{replay}
use orpheusgraph.Persist.Bytes.{Bytes}
use orpheusgraph.Persist.Crc.{Crc32}
use orpheusgraph.Persist.Error.{PersistError, Result, ok, err}
use orpheusgraph.Persist.Wal.Frame.{WalRecord, Postcard, ScanResult, encode_frame}

module _ ⦃im : IndexMap String NodeData⦄ where
  -- the variables of the loop
  pub record Replay : Type 0 where
    pub delta : GraphDelta
    pub expected_next : ℕ
    pub last_applied : ℕ
    pub committed_end : ℕ
    pub uncommitted_tail_frames : ℕ

  unfoldable pub start : (snapshot_seq : ℕ) → Replay
  start snapshot_seq = record {
    delta = Defs.new;
    expected_next = (snapshot_seq + 1) % 2 ^ 64;
    last_applied = snapshot_seq;
    committed_end = 0;
    uncommitted_tail_frames = 0;
  }

module _ {E : Type 0} ⦃im : IndexMap String NodeData⦄ ⦃crc : Crc32⦄ ⦃pc : Postcard⦄ where
  -- the body of the loop on a committed frame, its bytes counted
  unfoldable pub replay_frame :
      GraphAccessor → (snapshot_seq : ℕ) → WalRecord → Replay → Result E Replay
  replay_frame base snapshot_seq rec r =
      if leb rec.seq snapshot_seq
      then ok r
      else if not (rec.seq == r.expected_next)
      then err (PersistError.corrupt "WAL seq gap")
      else ok (record r {
        delta = replay base rec.ops r.delta;
        last_applied = rec.seq;
        expected_next = (r.expected_next + 1) % 2 ^ 64;
      })

  -- the body of the loop
  unfoldable pub recover_frame :
      GraphAccessor → (snapshot_seq commit_hw : ℕ) → WalRecord → Replay → Result E Replay
  recover_frame base snapshot_seq commit_hw rec r =
      if ltb commit_hw rec.seq
      then ok (record r { uncommitted_tail_frames = r.uncommitted_tail_frames + 1 })
      else elim (encode_frame {E = E} rec) [
        | err e ↦ err e
        | ok frame ↦
            replay_frame base snapshot_seq rec
              (record r { committed_end = (r.committed_end + length frame) % 2 ^ 64 })
      ]

  unfoldable pub recover_frames :
      GraphAccessor → (snapshot_seq commit_hw : ℕ) → List WalRecord → Replay → Result E Replay
  recover_frames base snapshot_seq commit_hw [] r = ok r
  recover_frames base snapshot_seq commit_hw (rec ∷ recs) r =
      elim (recover_frame base snapshot_seq commit_hw rec r) [
        | err e ↦ err e
        | ok r1 ↦ recover_frames base snapshot_seq commit_hw recs r1
      ]

  -- the checks after the loop
  unfoldable pub check_recovered : (commit_hw valid_end : ℕ) → Replay → Result E Replay
  check_recovered commit_hw valid_end r =
      if ltb r.last_applied commit_hw
      then err (PersistError.corrupt "WAL lost committed data")
      else if ltb valid_end r.committed_end
      then err (PersistError.corrupt "internal: committed boundary exceeds WAL valid end")
      else ok r

  unfoldable pub recover :
      GraphAccessor → (snapshot_seq commit_hw : ℕ) → ScanResult → Result E Replay
  recover base snapshot_seq commit_hw scan =
      elim (recover_frames base snapshot_seq commit_hw scan.records (start snapshot_seq)) [
        | err e ↦ err e
        | ok r ↦ check_recovered commit_hw scan.valid_end r
      ]
