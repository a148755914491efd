-- ===== src/Persist/Error.antt =====
-- src/persist/error.rs. The I/O error and the text that a message formats are not read by the program;
-- the error type `E` of the file system is a parameter.
use orpheusgraph.Prelude.{ℕ, String, ◌≡◌, refl, ◌⊎◌, inl, inr}
use orpheusgraph.Delta.Defs.{DeltaError}

pub data PersistError (E : Type 0) : Type 0 where
  io : E → PersistError E
  poisoned : PersistError E
  conflict : (expected actual : ℕ) → PersistError E
  delta : DeltaError → PersistError E
  corrupt : String → PersistError E
  unsupported_version : (found max : ℕ) → PersistError E
  lock_held : String → PersistError E
  not_found : String → PersistError E

-- `Result<A, PersistError>`
pub data Result (E A : Type 0) : Type 0 where
  ok : A → Result E A
  err : PersistError E → Result E A

pub Result-cases :
    {E A : Type 0} (r : Result E A) → ((e : PersistError E) × (r ≡ err e)) ⊎ ((a : A) × (r ≡ ok a))
Result-cases (ok a) = inr (a, refl)
Result-cases (err e) = inl (e, refl)
