-- ===== src/Persist/Lock.antt =====
-- src/persist/lock.rs: the lock that keeps a second process out of the store's directory.
use orpheusgraph.Prelude.{Bool, Option, none, some, String, ◌⊎◌, inl, inr, if◌then◌else◌}
use orpheusgraph.Persist.Error.{PersistError, ok, err}
use orpheusgraph.Persist.Program.{Program}

-- The calls of `std::fs` and of the crate fs2. `L` is the open lock file, and holding it is the lock.
pub record Flock (E L D : Type 0) : Type 0 where
  pub open_lock : String → D → (E ⊎ L) × D
  pub try_lock_exclusive : L → D → Option E × D
  -- `e.kind() == ErrorKind::WouldBlock`
  pub would_block : E → Bool

module _ {E L D : Type 0} where
  unfoldable pub acquire : Flock E L D → (lock_path dir : String) → Program E D L
  acquire fl lock_path dir d =
      let (opened, d1) = fl.open_lock lock_path d in
      elim opened [
        | inl e ↦ (err (PersistError.io e), d1)
        | inr file ↦
            let (refused, d2) = fl.try_lock_exclusive file d1 in
            elim refused [
              | none ↦ (ok file, d2)
              | some e ↦ (
                err (if fl.would_block e then PersistError.lock_held dir else PersistError.io e),
                d2,
              )
            ]
      ]
