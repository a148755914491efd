-- ===== src/Traversal/Sort.antt =====
-- `sort_by` of the standard library and the order of `f32::total_cmp`.
use orpheusgraph.Prelude.{
  ℕ, suc, ◌≡◌, ◌≤◌, ◌+◌, ◌-◌, ◌%◌, ◌^◌, refl, Bool, true, false, ◌||◌, List, [], ◌∷◌, map, length,
  ltb, if◌then◌else◌, arith, Eq, ◌==◌, Bool-cases, inl, inr,
}
use orpheusgraph.HashSet.{contains, Distinct}
use orpheusgraph.Types.{F32}
use orpheusgraph.Traversal.Lists.{All}

-- `total_cmp` orders the bits as signed numbers, those of a negative float turned around.
unfoldable pub total_key : F32 → ℕ
total_key bits = let b = bits % 2 ^ 32 in if ltb b (2 ^ 31) then 2 ^ 31 + b else 2 ^ 32 - 1 - b

module _ {ℓ} {A : Type ℓ} where
  -- `leb a b` where the comparison of `a` with `b` is not `Greater`
  unfoldable pub insert_by : (A → A → Bool) → A → List A → List A
  insert_by leb x [] = x ∷ []
  insert_by leb x (y ∷ ys) = if leb x y then x ∷ y ∷ ys else y ∷ insert_by leb x ys

  -- The sort is stable: what compares equal keeps its order.
  unfoldable pub sort_by : (A → A → Bool) → List A → List A
  unfolding insert_by
  sort_by leb [] = []
  sort_by leb (x ∷ xs) = insert_by leb x (sort_by leb xs)

  -- the keys never rise
  abbrev pub IsDescending : (A → ℕ) → List A → Type 0
  IsDescending k [] = Unit
  IsDescending k (x ∷ xs) = All (λ y. k y ≤ k x) xs × IsDescending k xs

  module _ (leb : A → A → Bool) where
    length-insert_by : (x : A) (xs : List A) → length (insert_by leb x xs) ≡ suc (length xs)
    unfolding insert_by
    length-insert_by x [] = refl
    length-insert_by x (y ∷ ys) = ground (arith, length-insert_by x ys)

    pub length-sort_by : (xs : List A) → length (sort_by leb xs) ≡ length xs
    unfolding sort_by
    length-sort_by [] = refl
    length-sort_by (x ∷ xs) = ground (arith, length-insert_by x (sort_by leb xs), length-sort_by xs)

    All-insert_by {κ} :
        (P : A → Type κ) (x : A) (xs : List A) → P x → All P xs → All P (insert_by leb x xs)
    unfolding insert_by
    All-insert_by P x [] p h = (p, tt)
    All-insert_by P x (y ∷ ys) p (q, h) = elim (Bool-cases (leb x y)) [
      | inl r ↦ rw (r, insert_by) (p, (q, h))
      | inr r ↦ rw (r, insert_by) (q, All-insert_by P x ys p h)
    ]

    pub All-sort_by {κ} : (P : A → Type κ) (xs : List A) → All P xs → All P (sort_by leb xs)
    unfolding sort_by
    All-sort_by P [] h = tt
    All-sort_by P (x ∷ xs) (p, h) = All-insert_by P x (sort_by leb xs) p (All-sort_by P xs h)

    module _ (k : A → ℕ) (follows : (x y : A) → leb x y ≡ true → k y ≤ k x)
        (precedes : (x y : A) → leb x y ≡ false → k x ≤ k y) where
      All-le :
          (x y : A) (ys : List A) → k y ≤ k x → All (λ z. k z ≤ k y) ys → All (λ z. k z ≤ k x) ys
      All-le x y [] h g = tt
      All-le x y (z ∷ zs) h (g, gs) = (omega arith, All-le x y zs h gs)

      insert_by-IsDescending :
          (x : A) (xs : List A) → IsDescending k xs → IsDescending k (insert_by leb x xs)
      unfolding insert_by
      insert_by-IsDescending x [] d = (tt, tt)
      insert_by-IsDescending x (y ∷ ys) (h, d) = elim (Bool-cases (leb x y)) [
        | inl r ↦ rw (r, insert_by) ((follows x y r, All-le x y ys (follows x y r) h), (h, d))
        | inr r ↦
            rw (r, insert_by)
              (
                All-insert_by (λ z. k z ≤ k y) x ys (precedes x y r) h,
                insert_by-IsDescending x ys d,
              )
      ]

      pub sort_by-IsDescending : (xs : List A) → IsDescending k (sort_by leb xs)
      unfolding sort_by
      sort_by-IsDescending [] = tt
      sort_by-IsDescending (x ∷ xs) =
          insert_by-IsDescending x (sort_by leb xs) (sort_by-IsDescending xs)

    module _ {κ} {B : Type κ} ⦃e : Eq B⦄ (f : A → B) where
      contains-insert_by :
          (x : A) (xs : List A) (b : B)
          → contains (map f (insert_by leb x xs)) b ≡ (f x == b || contains (map f xs) b)
      unfolding insert_by contains
      contains-insert_by x [] b = refl
      contains-insert_by x (y ∷ ys) b = ground (arith, contains-insert_by x ys b)

      pub contains-sort_by :
          (xs : List A) (b : B) → contains (map f (sort_by leb xs)) b ≡ contains (map f xs) b
      unfolding sort_by contains
      contains-sort_by [] b = refl
      contains-sort_by (x ∷ xs) b =
          ground (arith, contains-insert_by x (sort_by leb xs) b, contains-sort_by xs b)

      insert_by-Distinct :
          (x : A) (xs : List A)
          → contains (map f xs) (f x) ≡ false
          → Distinct (map f xs)
          → Distinct (map f (insert_by leb x xs))
      unfolding insert_by contains
      insert_by-Distinct x [] h d = (h, tt)
      insert_by-Distinct x (y ∷ ys) h (g, d) = elim (Bool-cases (leb x y)) [
        | inl r ↦ rw (r, insert_by) (h, (g, d))
        | inr r ↦
            rw (r, insert_by)
              (
                ground (
                  arith,
                  contains-insert_by x ys (f y),
                  h,
                  g,
                  e.beq_iff (f x) (f y),
                  e.beq_iff (f y) (f x),
                ),
                insert_by-Distinct x ys (ground (arith, h)) d,
              )
      ]

      pub sort_by-Distinct : (xs : List A) → Distinct (map f xs) → Distinct (map f (sort_by leb xs))
      unfolding sort_by
      sort_by-Distinct [] d = tt
      sort_by-Distinct (x ∷ xs) (h, d) =
          insert_by-Distinct x (sort_by leb xs) (ground (arith, contains-sort_by xs (f x), h))
            (sort_by-Distinct xs d)
