-- ===== src/Persist/Wal/Poison.antt =====
-- Failures in the log writer of src/persist/wal.rs.
use orpheusgraph.Prelude.{
  ◌+◌, ◌%◌, ◌^◌, ◌≡◌, Bool, true, false, ◌||◌, Option, none, some, arith, Bool-cases, inl, inr,
}
use orpheusgraph.Persist.Bytes.{Bytes}
use orpheusgraph.Persist.Vfs.{VfsFile}
use orpheusgraph.Persist.Error.{Result, ok, err}
use orpheusgraph.Persist.Wal.Writer.{
  FsyncPolicy, WalWriter, guarded, fsync_now, sync_by_policy, append, flush, truncate,
}

abbrev pub is_err : {E A : Type 0} → Result E A → Bool
is_err (ok a) = false
is_err (err e) = true

module _ (E : Type 0) {F : Type 0} ⦃vf : VfsFile E F⦄ where
  -- An outcome poisons the writer exactly when it is an error, and a poisoned writer stays so.
  abbrev pub Poisons : {A : Type 0} → WalWriter F → Result E A × WalWriter F → Type 0
  Poisons w out = out.1.poisoned ≡ (w.poisoned || is_err out.0)

  guarded-Poisons :
      {A : Type 0} (call : Option E × F) (w : WalWriter F)
      (go : WalWriter F → Result E A × WalWriter F)
      → ((f : F) → Poisons (record w { file = f }) (go (record w { file = f })))
      → Poisons w (guarded call w go)
  unfolding guarded
  guarded-Poisons (some e, f) w go h = ground arith
  guarded-Poisons (none, f) w go h = h f

  fsync_now-Poisons : {A : Type 0} (a : A) (w : WalWriter F) → Poisons w (fsync_now {E = E} a w)
  unfolding fsync_now
  fsync_now-Poisons a w = guarded-Poisons (vf.sync_all w.file) w _ (λ f. ground arith)

  sync_by_policy-Poisons :
      (p : FsyncPolicy) (w : WalWriter F) → Poisons w (sync_by_policy {E = E} p w)
  unfolding sync_by_policy
  sync_by_policy-Poisons FsyncPolicy.on_flush w = ground arith
  sync_by_policy-Poisons FsyncPolicy.every_batch w = fsync_now-Poisons true w
  sync_by_policy-Poisons (FsyncPolicy.every_n n) w =
      let w1 : WalWriter F = record w { since_fsync = (w.since_fsync + 1) % 2 ^ 32 } in
      ground (arith, fsync_now-Poisons true w1)

  -- Every operation of the writer that touches the file poisons it exactly when it answers with an
  -- error, and a writer that is poisoned stays so.
  pub writer-Poisons :
      (frame : Bytes) (w : WalWriter F)
      → Poisons w (append {E = E} frame w)
        × (Poisons w (flush {E = E} w) × Poisons w (truncate {E = E} w))
  unfolding append flush truncate
  writer-Poisons frame w = (
    guarded-Poisons (vf.write_all w.file frame) w _ (λ f. sync_by_policy-Poisons w.policy _),
    (
      ground (arith, fsync_now-Poisons tt w),
      elim (Bool-cases w.poisoned) [
        | inl r ↦ ground (arith, r)
        | inr r ↦
            let w0 : WalWriter F = record w { poisoned = false } in
            rw r (
              guarded-Poisons (vf.set_len w.file 0) w0 _ (λ f.
                guarded-Poisons (vf.seek f 0) (record w0 { file = f }) _
                  (λ g.
                    guarded-Poisons (vf.sync_all g)
                      (record w0 { file = g; len = 0; since_fsync = 0 }) _ (λ k. ground arith))))
      ],
    ),
  )
