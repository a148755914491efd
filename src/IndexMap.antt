-- ===== src/IndexMap.antt =====
-- The crate `indexmap` is not part of the repository: what the program calls of `IndexMap` is a
-- parameter, with its documented behaviour as laws. A key is looked up, inserted (a new key goes to
-- the end, an old one keeps its place) and taken out by `shift_remove` (the others keep their order).
pub mod Association
use orpheusgraph.Prelude.{
  ◌≡◌, not, Option, none, some, List, [], ◌∷◌, ◌++◌, Eq, ◌==◌, if◌then◌else◌, is_some, filter,
}
use orpheusgraph.HashSet.{contains, Distinct}

pub record IndexMap {ℓ} (K V : Type ℓ) ⦃e : Eq K⦄ : Type (ℓ + 1) where
  pub Map : Type ℓ
  pub default : Map
  pub keys : Map → List K
  pub get : Map → K → Option V
  pub insert : Map → K → V → Map
  pub shift_remove : Map → K → Map
  pub keys-default : keys default ≡ []
  pub is_some-get : (m : Map) (k : K) → is_some (get m k) ≡ contains (keys m) k
  pub keys-Distinct : (m : Map) → Distinct (keys m)
  pub get-insert :
      (m : Map) (k : K) (v : V) (j : K)
      → get (insert m k v) j ≡ (if k == j then some v else get m j)
  pub keys-insert :
      (m : Map) (k : K) (v : V)
      → keys (insert m k v) ≡ (if contains (keys m) k then keys m else keys m ++ (k ∷ []))
  pub get-shift_remove :
      (m : Map) (k j : K) → get (shift_remove m k) j ≡ (if k == j then none else get m j)
  pub keys-shift_remove :
      (m : Map) (k : K) → keys (shift_remove m k) ≡ filter (λ j. not (j == k)) (keys m)
