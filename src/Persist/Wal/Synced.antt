-- ===== src/Persist/Wal/Synced.antt =====
-- What the log writer of src/persist/wal.rs has on the disk when it answers.
use orpheusgraph.Prelude.{
  ◌+◌, ◌%◌, ◌^◌, length, ◌≡◌, sym, ap, ◌∙◌, Bool, true, arith, Bool-cases, Option-cases, inl, inr,
}
use orpheusgraph.Persist.Bytes.{Bytes}
use orpheusgraph.Persist.Vfs.{VfsFile}
use orpheusgraph.Persist.Error.{ok}
use orpheusgraph.Persist.Wal.Writer.{
  FsyncPolicy, WalWriter, guarded, fsync_now, sync_by_policy, append, flush,
}

module _ (E : Type 0) {F : Type 0} ⦃vf : VfsFile E F⦄ where
  -- nothing of the log is only in memory
  abbrev pub IsSynced : WalWriter F → Type 0
  IsSynced w = vf.synced w.file ≡ vf.contents w.file

  pub fsync_now-IsSynced :
      {A : Type 0} (a b : A) (w : WalWriter F)
      → (fsync_now {E = E} a w).0 ≡ ok b
      → IsSynced (fsync_now {E = E} a w).1
  unfolding fsync_now guarded
  fsync_now-IsSynced a b w h = elim (Option-cases (vf.sync_all w.file).0) [
    | inr (e, r) ↦ ground (arith, h, r)
    | inl r ↦ ground (arith, r, vf.sync_all-synced w.file r, vf.sync_all-contents w.file r)
  ]

  pub flush-IsSynced :
      (w : WalWriter F) → (flush {E = E} w).0 ≡ ok tt → IsSynced (flush {E = E} w).1
  unfolding flush
  flush-IsSynced w h = elim (Bool-cases w.poisoned) [
    | inl t ↦ ground (arith, h, t)
    | inr t ↦
        let e : flush {E = E} w ≡ fsync_now tt w = ground (arith, t) in
        rw e (fsync_now-IsSynced tt tt w (ap (λ o. o.0) (sym e) ∙ h))
  ]

  -- Under `EveryBatch` an append that succeeds has synced its frame, and says so.
  pub append-IsSynced :
      (frame : Bytes) (w : WalWriter F) (b : Bool)
      → w.policy ≡ FsyncPolicy.every_batch
      → (append {E = E} frame w).0 ≡ ok b
      → IsSynced (append {E = E} frame w).1
  unfolding append guarded sync_by_policy
  append-IsSynced frame w b p h = elim (Option-cases (vf.write_all w.file frame).0) [
    | inr (e, r) ↦ ground (arith, h, r)
    | inl r ↦
        let w1 : WalWriter F = record w {
          file = (vf.write_all w.file frame).1;
          len = (w.len + length frame) % 2 ^ 64;
        } in
        let e : append {E = E} frame w ≡ fsync_now true w1 = ground (arith, r, p) in
        rw e (fsync_now-IsSynced true b w1 (ap (λ o. o.0) (sym e) ∙ h))
  ]
