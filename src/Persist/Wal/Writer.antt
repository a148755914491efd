-- ===== src/Persist/Wal/Writer.antt =====
-- `WalWriter` of src/persist/wal.rs and `FsyncPolicy` of src/persist/mod.rs. The file is reached by the
-- calls that the writer makes, each with the file that it leaves; `none` is success.
use orpheusgraph.Prelude.{
  ℕ, ◌+◌, ◌%◌, ◌^◌, Bool, true, false, Option, none, some, leb, length, if◌then◌else◌, max,
}
use orpheusgraph.Persist.Bytes.{Bytes}
use orpheusgraph.Persist.Vfs.{VfsFile}
use orpheusgraph.Persist.Error.{PersistError, Result, ok, err}

pub data FsyncPolicy : Type 0 where
  on_flush : FsyncPolicy
  every_batch : FsyncPolicy
  every_n : ℕ → FsyncPolicy

pub record WalWriter (F : Type 0) : Type 0 where
  pub file : F
  pub policy : FsyncPolicy
  pub since_fsync : ℕ
  pub poisoned : Bool
  pub len : ℕ

module _ {F : Type 0} where
  unfoldable pub new : F → FsyncPolicy → ℕ → WalWriter F
  new file policy len = record {
    file = file;
    policy = policy;
    since_fsync = 0;
    poisoned = false;
    len = len;
  }

  unfoldable pub set_policy : FsyncPolicy → WalWriter F → WalWriter F
  set_policy policy w = record w { policy = policy }

module _ {E F : Type 0} ⦃vf : VfsFile E F⦄ where
  -- A call on the file that poisons the writer when it fails.
  unfoldable pub guarded :
      {A : Type 0}
      → Option E × F
      → WalWriter F
      → (WalWriter F → Result E A × WalWriter F)
      → Result E A × WalWriter F
  guarded (some e, f) w go = (err (PersistError.io e), record w { file = f; poisoned = true })
  guarded (none, f) w go = go (record w { file = f })

  -- `fsync_now`, and what the caller answers after it
  unfoldable pub fsync_now : {A : Type 0} → A → WalWriter F → Result E A × WalWriter F
  fsync_now a w = guarded (vf.sync_all w.file) w (λ w1. (ok a, record w1 { since_fsync = 0 }))

  -- the `match self.policy` of `append`
  unfoldable pub sync_by_policy : FsyncPolicy → WalWriter F → Result E Bool × WalWriter F
  sync_by_policy FsyncPolicy.on_flush w = (ok false, w)
  sync_by_policy FsyncPolicy.every_batch w = fsync_now true w
  sync_by_policy (FsyncPolicy.every_n n) w =
      let w1 : WalWriter F = record w { since_fsync = (w.since_fsync + 1) % 2 ^ 32 } in
      if leb (max n 1) w1.since_fsync then fsync_now true w1 else (ok false, w1)

  unfoldable pub append : Bytes → WalWriter F → Result E Bool × WalWriter F
  append frame w =
      guarded (vf.write_all w.file frame) w
        (λ w1. sync_by_policy w1.policy (record w1 { len = (w1.len + length frame) % 2 ^ 64 }))

  unfoldable pub flush : WalWriter F → Result E Unit × WalWriter F
  flush w = if w.poisoned then (err PersistError.poisoned, w) else fsync_now tt w

  unfoldable pub truncate : WalWriter F → Result E Unit × WalWriter F
  truncate w =
      if w.poisoned
      then (err PersistError.poisoned, w)
      else guarded (vf.set_len w.file 0) w (λ w1. guarded (vf.seek w1.file 0) w1 (λ w2.
        let w3 = record w2 { len = 0; since_fsync = 0 } in
        guarded (vf.sync_all w3.file) w3 (λ w4. (ok tt, w4))))
