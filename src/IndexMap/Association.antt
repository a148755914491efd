-- ===== src/IndexMap/Association.antt =====
-- An association list that meets the laws asked of `IndexMap`: they can hold, and tests can run.
use orpheusgraph.Prelude.{
  ◌≡◌, refl, not, ◌&&◌, ◌||◌, none, List, [], ◌∷◌, ◌++◌, arith, Eq, ◌==◌, if◌then◌else◌, is_some,
  filter,
}
use orpheusgraph.HashMap.{find, put, find-put}
use orpheusgraph.HashSet.{contains, Distinct}
use orpheusgraph.IndexMap.{IndexMap}

module _ {ℓ} {K V : Type ℓ} ⦃e : Eq K⦄ where
  abbrev pub keys_of : List (K × V) → List K
  keys_of [] = []
  keys_of ((k, v) ∷ l) = k ∷ keys_of l

  unfoldable pub without : K → List (K × V) → List (K × V)
  without k [] = []
  without k ((j, v) ∷ l) = let rest = without k l in if j == k then rest else (j, v) ∷ rest

  pub is_some-find : (l : List (K × V)) (k : K) → is_some (find k l) ≡ contains (keys_of l) k
  unfolding find contains
  is_some-find [] k = refl
  is_some-find ((j, v) ∷ l) k = ground (arith, is_some-find l k)

  pub keys-put :
      (l : List (K × V)) (k : K) (v : V)
      → keys_of (put k v l) ≡ (if contains (keys_of l) k then keys_of l else keys_of l ++ (k ∷ []))
  unfolding put contains
  keys-put [] k v = refl
  keys-put ((j, w) ∷ l) k v = ground (arith, keys-put l k v, e.beq_iff j k)

  pub keys-without :
      (l : List (K × V)) (k : K) → keys_of (without k l) ≡ filter (λ j. not (j == k)) (keys_of l)
  unfolding without
  keys-without [] k = refl
  keys-without ((j, v) ∷ l) k = ground (arith, keys-without l k)

  pub find-without :
      (l : List (K × V)) (k j : K) → find j (without k l) ≡ (if k == j then none else find j l)
  unfolding find without
  find-without [] k j = ground arith
  find-without ((i, v) ∷ l) k j =
      ground (arith, find-without l k j, e.beq_iff i k, e.beq_iff i j, e.beq_iff k j)

  contains-put :
      (l : List (K × V)) (k j : K) (v : V)
      → contains (keys_of (put k v l)) j ≡ (k == j || contains (keys_of l) j)
  contains-put l k j v =
      ground (arith, find-put k j v l, is_some-find l j, is_some-find (put k v l) j)

  pub put-Distinct :
      (l : List (K × V)) (k : K) (v : V) → Distinct (keys_of l) → Distinct (keys_of (put k v l))
  unfolding put contains
  put-Distinct [] k v d = (refl, tt)
  put-Distinct ((j, w) ∷ l) k v d =
      ground (arith, put-Distinct l k v d.1, contains-put l k j v, e.beq_iff j k, e.beq_iff k j)

  contains-without :
      (l : List (K × V)) (k j : K)
      → contains (keys_of (without k l)) j ≡ (not (k == j) && contains (keys_of l) j)
  contains-without l k j =
      ground (arith, find-without l k j, is_some-find l j, is_some-find (without k l) j)

  pub without-Distinct :
      (l : List (K × V)) (k : K) → Distinct (keys_of l) → Distinct (keys_of (without k l))
  unfolding without
  without-Distinct [] k d = tt
  without-Distinct ((j, w) ∷ l) k d =
      ground (arith, without-Distinct l k d.1, contains-without l k j)

  instance abbrev pub association : IndexMap K V
  association = record {
    Map = (l : List (K × V)) × Distinct (keys_of l);
    default = ([], tt);
    keys = λ m. keys_of m.0;
    get = λ m k. find k m.0;
    insert = λ m k v. (put k v m.0, put-Distinct m.0 k v m.1);
    shift_remove = λ m k. (without k m.0, without-Distinct m.0 k m.1);
    keys-default = refl;
    is_some-get = λ m k. is_some-find m.0 k;
    keys-Distinct = λ m. m.1;
    get-insert = λ m k v j. find-put k j v m.0;
    keys-insert = λ m k v. keys-put m.0 k v;
    get-shift_remove = λ m k j. find-without m.0 k j;
    keys-shift_remove = λ m k. keys-without m.0 k;
  }
