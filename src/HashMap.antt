-- ===== src/HashMap.antt =====
-- The standard library's `HashMap`, as far as the program uses it: `get`, `contains_key`,
-- `insert`, and `entry(k).or_default().push(v)`. The iteration order is not modelled.
use orpheusgraph.Prelude.{
  ◌≡◌, refl, Option, none, some, List, [], ◌∷◌, ◌++◌, arith, Eq, ◌==◌, if◌then◌else◌, map, ◌||◌,
  Bool-cases, inl, inr,
}
use orpheusgraph.HashSet.{contains, Distinct}

pub record HashMap {ℓ κ} (K : Type ℓ) (V : Type κ) : Type (ℓ ⊔ κ) where
  pub pairs : List (K × V)

module _ {ℓ κ} {K : Type ℓ} {V : Type κ} where
  abbrev pub new : HashMap K V
  new = record { pairs = [] }

module _ {ℓ κ} {K : Type ℓ} {V : Type κ} ⦃e : Eq K⦄ where
  unfoldable pub find : K → List (K × V) → Option V
  find k [] = none
  find k ((j, v) ∷ m) = if j == k then some v else find k m

  unfoldable pub put : K → V → List (K × V) → List (K × V)
  put k v [] = (k, v) ∷ []
  put k v ((j, w) ∷ m) = if j == k then (k, v) ∷ m else (j, w) ∷ put k v m

  unfoldable pub get : HashMap K V → K → Option V
  unfolding find
  get m k = find k m.pairs

  unfoldable pub insert : HashMap K V → K → V → HashMap K V
  unfolding put
  insert m k v = record { pairs = put k v m.pairs }

  pub get-new : (k : K) → get new k ≡ none
  unfolding get
  get-new k = refl

  pub find-put :
      (k j : K) (v : V) (m : List (K × V))
      → find j (put k v m) ≡ (if k == j then some v else find j m)
  unfolding find put
  find-put k j v [] = refl
  find-put k j v ((i, w) ∷ m) =
      ground (arith, e.beq_iff k j, e.beq_iff i k, e.beq_iff i j, find-put k j v m)

  pub get-insert :
      (m : HashMap K V) (k : K) (v : V) (j : K)
      → get (insert m k v) j ≡ (if k == j then some v else get m j)
  unfolding get insert
  get-insert m k v j = find-put k j v m.pairs

module _ {ℓ κ} {K : Type ℓ} {V : Type κ} ⦃e : Eq K⦄ where
  -- `.get(k)` of a map of vectors, read as the empty slice where the key is missing.
  unfoldable pub get_or_empty : HashMap K (List V) → K → List V
  unfolding get
  get_or_empty m k = elim (get m k) [ none ↦ [] | some vs ↦ vs ]

  -- `.entry(k).or_default().push(v)`
  unfoldable pub push_at : HashMap K (List V) → K → V → HashMap K (List V)
  unfolding insert get_or_empty
  push_at m k v = insert m k (get_or_empty m k ++ (v ∷ []))

  pub get_or_empty-new : (k : K) → get_or_empty new k ≡ []
  unfolding get_or_empty
  get_or_empty-new k = refl

  pub get_or_empty-push_at :
      (m : HashMap K (List V)) (k : K) (v : V) (j : K)
      → get_or_empty (push_at m k v) j
        ≡ (if k == j then get_or_empty m j ++ (v ∷ []) else get_or_empty m j)
  unfolding get_or_empty push_at
  get_or_empty-push_at m k v j =
      ground (arith, e.beq_iff k j, find-put k j (get_or_empty m k ++ (v ∷ [])) m.pairs)

module _ {ℓ κ} {K : Type ℓ} {V : Type κ} ⦃e : Eq K⦄ where
  pub contains-put :
      (k : K) (v : V) (m : List (K × V)) (x : K)
      → contains (map (λ p. p.0) (put k v m)) x ≡ (k == x || contains (map (λ p. p.0) m) x)
  unfolding put contains
  contains-put k v [] x = refl
  contains-put k v ((j, w) ∷ m) x =
      ground (arith, contains-put k v m x, e.beq_iff j k, e.beq_iff j x, e.beq_iff k x)

  -- No key stands twice.
  pub put-Distinct :
      (k : K) (v : V) (m : List (K × V))
      → Distinct (map (λ p. p.0) m)
      → Distinct (map (λ p. p.0) (put k v m))
  unfolding put contains
  put-Distinct k v [] d = (refl, tt)
  put-Distinct k v ((j, w) ∷ m) (h, d) = elim (Bool-cases (j == k)) [
    | inl t ↦ rw (t, put) (ground (arith, h, (e.beq_iff j k).0 t), d)
    | inr t ↦
        rw (t, put)
          (
            ground (arith, contains-put k v m j, h, t, e.beq_iff j k, e.beq_iff k j),
            put-Distinct k v m d,
          )
  ]
