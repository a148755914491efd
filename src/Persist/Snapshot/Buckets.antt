-- ===== src/Persist/Snapshot/Buckets.antt =====
-- The checks of `validate_csr` on the names and on their hash table.
use Prim.Native.Nat.{bit_and, zero, suc}
use Prim.Native.String.{compare}
use text.Mathlib.Text.{is_lt}
use orpheusgraph.Prelude.{
  ℕ, ◌+◌, ◌-◌, ◌^◌, Bool, true, false, not, ◌||◌, String, Option, none, some, List, [], ◌∷◌, ◌++◌,
  length, leb, get_elem?, set, replicate, if◌then◌else◌, ◌==◌, nat_eq,
}
use orpheusgraph.Persist.Error.{PersistError, Result, ok, err}
use orpheusgraph.Persist.Snapshot.{
  CsrNode, SerializableGraphV2, empty_bucket, fnv1a, bucket_capacity,
}

-- `Err(corrupt(...))`, without the values that the message formats
abbrev pub corrupt_csr : {E A : Type 0} → String → Result E A
corrupt_csr msg = err (PersistError.corrupt msg)

-- `?`
unfoldable pub after : {E A B : Type 0} → Result E A → (A → Result E B) → Result E B
after (ok a) f = f a
after (err e) f = err e

unfoldable pub check_sorted : {E : Type 0} → List CsrNode → Result E Unit
check_sorted [] = ok tt
check_sorted (a ∷ []) = ok tt
check_sorted (a ∷ b ∷ nodes) =
    let rest = check_sorted (b ∷ nodes) in
    if is_lt (compare a.name b.name)
    then rest
    else corrupt_csr "V2 CSR invalid: nodes not strictly name-sorted"

-- `.is_power_of_two()` of a word of 64 bits
unfoldable pub is_power_of_two : ℕ → ℕ → Bool
is_power_of_two zero m = false
is_power_of_two (suc bits) m = m == 2 ^ bits || is_power_of_two bits m

unfoldable pub check_capacity : {E : Type 0} → ℕ → ℕ → Result E Unit
check_capacity n m =
    if not (m == bucket_capacity n)
    then corrupt_csr "V2 CSR invalid: name_buckets len is not the canonical bucket_capacity"
    else if not (is_power_of_two 64 m) || leb m n
    then corrupt_csr "V2 CSR invalid: name_buckets len is not a power of two > N"
    else ok tt

pub record Occupancy : Type 0 where
  pub seen : List Bool
  pub slot_of : List ℕ
  pub empties : List ℕ
  pub occupied : ℕ

abbrev pub or_zero : Option ℕ → ℕ
or_zero none = 0
or_zero (some n) = n

-- one slot; `empties` grows by the count of the empty slots up to it
unfoldable pub read_bucket : {E : Type 0} → ℕ → ℕ → ℕ → Occupancy → Result E Occupancy
read_bucket n slot b s =
    let before = or_zero (get_elem? s.empties slot) in
    if b == empty_bucket
    then ok (record s { empties = s.empties ++ ((before + 1) ∷ []) })
    else (elim (get_elem? s.seen b) [
      | none ↦ corrupt_csr "V2 CSR invalid: name_buckets slot holds an idx >= N"
      | some true ↦ corrupt_csr "V2 CSR invalid: name_buckets maps an idx more than once"
      | some false ↦ ok (record {
        seen = set s.seen b true;
        slot_of = set s.slot_of b slot;
        empties = s.empties ++ (before ∷ []);
        occupied = s.occupied + 1;
      })
    ])

unfoldable pub read_buckets : {E : Type 0} → ℕ → ℕ → List ℕ → Occupancy → Result E Occupancy
read_buckets n slot [] s = ok s
read_buckets n slot (b ∷ buckets) s =
    after (read_bucket n slot b s) (λ t. read_buckets n (slot + 1) buckets t)

-- the empty slots on the cyclic path from `home` to `slot`
unfoldable pub empties_on_path : List ℕ → ℕ → ℕ → ℕ → ℕ
empties_on_path empties m home slot =
    let upto : ℕ → ℕ = λ i. or_zero (get_elem? empties i) in
    if leb home slot then upto slot - upto home else upto m - upto home + upto slot

unfoldable pub check_reachable :
    {E : Type 0} → (String → List ℕ) → List ℕ → ℕ → List CsrNode → List ℕ → Result E Unit
check_reachable as_bytes empties m nodes [] = ok tt
check_reachable as_bytes empties m [] (slot ∷ slots) =
    corrupt_csr "V2 CSR invalid: nodes short (reachability)"
check_reachable as_bytes empties m (node ∷ nodes) (slot ∷ slots) =
    let rest = check_reachable as_bytes empties m nodes slots in
    let home = bit_and (fnv1a (as_bytes node.name)) (m - 1) in
    if empties_on_path empties m home slot == 0
    then rest
    else corrupt_csr "V2 CSR invalid: node is unreachable by its own hash probe"

unfoldable pub check_buckets :
    {E : Type 0} → (String → List ℕ) → SerializableGraphV2 → Result E Unit
check_buckets as_bytes a =
    let n = length a.nodes in
    let m = length a.name_buckets in
    after (check_capacity n m) (λ _.
      after
        (read_buckets n 0 a.name_buckets (record {
          seen = replicate n false;
          slot_of = replicate n 0;
          empties = 0 ∷ [];
          occupied = 0;
        }))
        (λ s.
          if s.occupied == n
          then check_reachable as_bytes s.empties m a.nodes s.slot_of
          else corrupt_csr "V2 CSR invalid: name_buckets entries != node count"))
