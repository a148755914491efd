-- ===== src/Persist/Store/Batch.antt =====
-- Steps 1 to 8 of `apply` in src/persist/mod.rs: a batch is checked, logged, sealed and published.
pub mod Failure
pub mod Logged
use orpheusgraph.Prelude.{
  string_eq, ℕ, ◌+◌, ◌%◌, ◌^◌, Bool, not, String, Option, none, some, List, length, if◌then◌else◌,
  ◌==◌, nat_eq,
}
use orpheusgraph.IndexMap.{IndexMap}
use orpheusgraph.Types.{NodeData}
use orpheusgraph.Accessor.{GraphAccessor}
use orpheusgraph.Delta.Defs.{Op, GraphDelta}
use orpheusgraph.Delta.Apply
use orpheusgraph.Persist.Crc.{Crc32}
use orpheusgraph.Persist.Error.{PersistError, Result, ok, err}
use orpheusgraph.Persist.Program.{Program, pure, gets, modify, fail_if, of_result, ◌>>=◌, ◌>>◌}
use orpheusgraph.Persist.Vfs.{VfsFile}
use orpheusgraph.Persist.Wal.Frame.{WalRecord, Postcard, encode_frame}
use orpheusgraph.Persist.Wal.Writer.{append}
use orpheusgraph.Persist.Store.State.{
  Snapshots, as_accessor, Writer, Store, state_of, advance_commit, on_writer, on_wal,
}

module _ {E : Type 0} where
  -- the compare-and-swap of step 2
  unfoldable pub check_seq : (expected_seq : Option ℕ) → (seq : ℕ) → Result E Unit
  check_seq none seq = ok tt
  check_seq (some e) seq = if not (e == seq) then err (PersistError.conflict e seq) else ok tt

module _ {E : Type 0} ⦃im : IndexMap String NodeData⦄ where
  -- step 3: the batch on a clone of the delta
  unfoldable pub apply_to_clone : GraphAccessor → List Op → GraphDelta → Result E GraphDelta
  apply_to_clone base ops delta =
      let (outcome, d) = Apply.apply base ops delta in
      elim outcome [ Apply.ok ↦ ok d | Apply.err e ↦ err (PersistError.delta e) ]

module _ {F G V : Type 0} ⦃im : IndexMap String NodeData⦄ where
  -- step 7
  unfoldable pub reflect : ℕ → (op_count : ℕ) → GraphDelta → Writer F G V → Writer F G V
  reflect new_seq op_count d w = record w {
    seq = new_seq;
    delta_ops = (w.delta_ops + op_count) % 2 ^ 64;
    delta = d;
  }

module _ {F D G V : Type 0} ⦃im : IndexMap String NodeData⦄ where
  -- step 8
  unfoldable pub publish : Store F D G V → Store F D G V
  publish s = record s { state = state_of s.writer }

module _ {E F G V : Type 0} ⦃im : IndexMap String NodeData⦄ ⦃crc : Crc32⦄ ⦃pc : Postcard⦄
    ⦃vf : VfsFile E F⦄ where
  -- step 6: the marker follows a frame that was synced
  unfoldable pub seal : (fsynced : Bool) → ℕ → Program E (Writer F G V) Unit
  seal fsynced new_seq w = if fsynced then advance_commit new_seq w else (ok tt, w)

  -- steps 4 to 7
  unfoldable pub log_batch : List Op → GraphDelta → Program E (Writer F G V) ℕ
  log_batch ops d = do
    seq ← gets (λ w. w.seq)
    let new_seq = (seq + 1) % 2 ^ 64
    frame ← of_result (encode_frame (record { seq = new_seq; ops = ops }))
    fsynced ← on_wal (append frame)
    seal fsynced new_seq
    modify (reflect new_seq (length ops) d)
    pure new_seq

module _ {E F D G V : Type 0} ⦃im : IndexMap String NodeData⦄ ⦃crc : Crc32⦄ ⦃pc : Postcard⦄
    ⦃vf : VfsFile E F⦄ where
  -- steps 1 to 3, and the rest
  unfoldable pub write_batch : Snapshots E D G V → List Op → Option ℕ → Program E (Writer F G V) ℕ
  write_batch sn ops expected_seq = do
    w ← gets (λ w. w)
    fail_if w.wal.poisoned PersistError.poisoned
    of_result (check_seq expected_seq w.seq)
    d ← of_result (apply_to_clone (as_accessor sn w.base) ops w.delta)
    log_batch ops d

  unfoldable pub commit_batch : Snapshots E D G V → List Op → Option ℕ → Program E (Store F D G V) ℕ
  commit_batch sn ops expected_seq = do
    new_seq ← on_writer (write_batch sn ops expected_seq)
    modify publish
    pure new_seq
