-- ===== src/Persist/Store/Batch/Failure.antt =====
-- A batch that `apply` of src/persist/mod.rs refuses.
use orpheusgraph.Prelude.{
  string_eq, ℕ, Bool, true, false, ◌+◌, ◌%◌, ◌^◌, ◌∙◌, ◌≡◌, refl, Option, none, some, List, String,
  arith,
}
use orpheusgraph.IndexMap.{IndexMap}
use orpheusgraph.Types.{NodeData}
use orpheusgraph.Delta.Defs.{Op, GraphDelta}
use orpheusgraph.Persist.Crc.{Crc32}
use orpheusgraph.Persist.Error.{PersistError, err}
use orpheusgraph.Persist.Program.{fail_if, and_then-err}
use orpheusgraph.Persist.Vfs.{VfsFile}
use orpheusgraph.Persist.Commit.File.{CommitFile, advance}
use orpheusgraph.Persist.Wal.Frame.{WalRecord, Postcard, encode_frame}
use orpheusgraph.Persist.Wal.Writer.{append}
use orpheusgraph.Persist.Store.State.{
  BaseGraph, Snapshots, as_accessor, Writer, Store, advance_commit, on_wal, on_writer, marked,
}
use orpheusgraph.Persist.Store.Batch.{
  check_seq, apply_to_clone, seal, log_batch, write_batch, commit_batch,
}

-- The graph that a writer holds, and its numbers.
pub record Core (G V : Type 0) ⦃im : IndexMap String NodeData⦄ : Type 0 where
  pub seq : ℕ
  pub durable_seq : ℕ
  pub epoch : ℕ
  pub base : BaseGraph G V
  pub delta : GraphDelta
  pub snapshot_seq : ℕ
  pub delta_ops : ℕ

module _ {F G V : Type 0} ⦃im : IndexMap String NodeData⦄ where
  abbrev pub core_of : Writer F G V → Core G V
  core_of w = record {
    seq = w.seq;
    durable_seq = w.durable_seq;
    epoch = w.epoch;
    base = w.base;
    delta = w.delta;
    snapshot_seq = w.snapshot_seq;
    delta_ops = w.delta_ops;
  }

module _ {E F G V : Type 0} ⦃im : IndexMap String NodeData⦄ where
  pub marked-err :
      (n : ℕ) (w : Writer F G V) (out : Option (PersistError E) × CommitFile F) (e : PersistError E)
      → (marked n w out).0 ≡ err e
      → core_of (marked n w out).1 ≡ core_of w
  marked-err n w (some x, c) e h = refl
  marked-err n w (none, c) e h = ground (arith, h)

module _ (E : Type 0) {F G V : Type 0} ⦃im : IndexMap String NodeData⦄ ⦃crc : Crc32⦄ ⦃pc : Postcard⦄
    ⦃vf : VfsFile E F⦄ where
  seal-err :
      (fsynced : Bool) (n : ℕ) (w : Writer F G V) (e : PersistError E)
      → (seal {E = E} fsynced n w).0 ≡ err e
      → core_of (seal {E = E} fsynced n w).1 ≡ core_of w
  unfolding seal advance_commit
  seal-err true n w e h = marked-err n w (advance w.commit w.epoch n) e h
  seal-err false n w e h = refl

  log_batch-err :
      (ops : List Op) (d : GraphDelta) (w : Writer F G V) (e : PersistError E)
      → (log_batch {E = E} ops d w).0 ≡ err e
      → core_of (log_batch {E = E} ops d w).1 ≡ core_of w
  unfolding log_batch
  log_batch-err ops d w e h =
      let P : Writer F G V → Type 0 = λ v. core_of v ≡ core_of w in
      let rec : WalRecord = record { seq = (w.seq + 1) % 2 ^ 64; ops = ops } in
      and_then-err P P (encode_frame {E = E} rec, w) _ e (λ x h0. refl) (λ a h0. refl)
        (λ frame w1 p h1.
          and_then-err P P (on_wal (append {E = E} frame) w1) _ e (λ x h0. p) (λ a h0. p)
            (λ fsynced w2 q h2.
              and_then-err P (λ v. Unit) (seal {E = E} fsynced rec.seq w2) _ e
                (λ x h3. seal-err fsynced rec.seq w2 x h3 ∙ q) (λ a h3. tt)
                (λ u w3 k h4. ground (arith, h4)) h2)
            h1)
        h

  write_batch-err :
      {D : Type 0} (sn : Snapshots E D G V) (ops : List Op) (expected : Option ℕ) (w : Writer F G V)
      (e : PersistError E)
      → (write_batch sn ops expected w).0 ≡ err e
      → core_of (write_batch sn ops expected w).1 ≡ core_of w
  unfolding write_batch
  write_batch-err sn ops expected w e h =
      let P : Writer F G V → Type 0 = λ v. core_of v ≡ core_of w in
      and_then-err P P (fail_if w.wal.poisoned PersistError.poisoned w) _ e (λ x h0. refl)
        (λ a h0. refl)
        (λ u w1 p h1.
          and_then-err P P (check_seq expected w.seq, w1) _ e (λ x h0. p) (λ a h0. p)
            (λ u2 w2 q h2.
              and_then-err P P (apply_to_clone (as_accessor sn w.base) ops w.delta, w2) _ e
                (λ x h3. q) (λ a h3. q) (λ d w3 k h4. log_batch-err ops d w3 e h4 ∙ k) h2)
            h1)
        h

  -- A batch that is refused, for whatever reason, leaves what readers see as it was, and the graph
  -- and the numbers that the writer holds too: at most the log, the sidecar and the poison have
  -- changed.
  pub commit_batch-err :
      {D : Type 0} (sn : Snapshots E D G V) (ops : List Op) (expected : Option ℕ)
      (s : Store F D G V) (e : PersistError E)
      → (commit_batch sn ops expected s).0 ≡ err e
      → ((commit_batch sn ops expected s).1.state ≡ s.state)
        × (core_of (commit_batch sn ops expected s).1.writer ≡ core_of s.writer)
  unfolding commit_batch
  commit_batch-err {D} sn ops expected s e h =
      and_then-err {S = Store F D G V}
        (λ t. (t.state ≡ s.state) × (core_of t.writer ≡ core_of s.writer)) (λ t. Unit)
        (on_writer (write_batch sn ops expected) s) _ e
        (λ x h0. (refl, write_batch-err sn ops expected s.writer x h0)) (λ a h0. tt)
        (λ n t k h1. ground (arith, h1)) h
