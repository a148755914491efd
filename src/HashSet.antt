-- ===== src/HashSet.antt =====
-- The standard library's `HashSet`: `contains`, `insert` and `remove`, each with its Boolean answer,
-- and iteration in an order that nothing depends on.
use orpheusgraph.Prelude.{
  ℕ, ◌+◌, ◌≡◌, refl, Bool, false, not, ◌&&◌, ◌||◌, List, [], ◌∷◌, arith, Eq, ◌==◌, if◌then◌else◌,
  count, sum_over, filter,
}

module _ {ℓ} {A : Type ℓ} ⦃e : Eq A⦄ where
  unfoldable pub contains : List A → A → Bool
  contains [] a = false
  contains (x ∷ xs) a = x == a || contains xs a

  -- no member twice: the representation invariant
  abbrev pub Distinct : List A → Type 0
  Distinct [] = Unit
  Distinct (x ∷ xs) = (contains xs x ≡ false) × Distinct xs

  unfoldable pub insert : List A → A → List A
  insert s a = if contains s a then s else a ∷ s

  unfoldable pub remove : List A → A → List A
  remove s a = filter (λ x. not (x == a)) s

  pub contains-insert : (s : List A) (a b : A) → contains (insert s a) b ≡ (a == b || contains s b)
  unfolding insert contains
  contains-insert s a b = ground (arith, e.beq_iff a b)

  contains-filter :
      (s : List A) (a b : A)
      → contains (filter (λ x. not (x == a)) s) b ≡ (not (a == b) && contains s b)
  unfolding contains
  contains-filter [] a b = ground arith
  contains-filter (x ∷ s) a b =
      ground (arith, contains-filter s a b, e.beq_iff a b, e.beq_iff x b, e.beq_iff x a)

  pub contains-remove :
      (s : List A) (a b : A) → contains (remove s a) b ≡ (not (a == b) && contains s b)
  unfolding remove
  contains-remove s a b = contains-filter s a b

  pub insert-Distinct : (s : List A) (a : A) → Distinct s → Distinct (insert s a)
  unfolding insert
  insert-Distinct s a d = ground arith

  pub remove-Distinct : (s : List A) (a : A) → Distinct s → Distinct (remove s a)
  unfolding remove
  remove-Distinct [] a d = tt
  remove-Distinct (x ∷ s) a d = ground (arith, remove-Distinct s a d.1, contains-filter s a x)

  pub sum_over-insert :
      (f : A → ℕ) (s : List A) (a : A)
      → contains s a ≡ false
      → sum_over f (insert s a) ≡ f a + sum_over f s
  unfolding insert
  sum_over-insert f s a h = ground arith

  -- Taking a member out takes its part out of a sum.
  pub sum_over-remove :
      (f : A → ℕ) (s : List A) (a : A)
      → Distinct s
      → sum_over f s ≡ (if contains s a then f a else 0) + sum_over f (remove s a)
  unfolding contains remove
  sum_over-remove f [] a d = refl
  sum_over-remove f (x ∷ s) a d = ground (arith, sum_over-remove f s a d.1, e.beq_iff x a)

  count-cons :
      {B : Type ℓ} (key : B → A) (q : B → Bool) (m : A) (s : List A)
      → contains s m ≡ false
      → (xs : List B)
      → count (λ x. q x && contains (m ∷ s) (key x)) xs
        ≡ count (λ x. q x && m == key x) xs + count (λ x. q x && contains s (key x)) xs
  unfolding contains
  count-cons key q m s h [] = refl
  count-cons key q m s h (x ∷ xs) = ground (arith, count-cons key q m s h xs, e.beq_iff m (key x))

  -- The members' shares of a list add up to what the whole set selects.
  pub sum_over-count :
      {B : Type ℓ} (key : B → A) (q : B → Bool) (xs : List B) (s : List A)
      → Distinct s
      → sum_over (λ m. count (λ x. q x && m == key x) xs) s
        ≡ count (λ x. q x && contains s (key x)) xs
  unfolding contains
  sum_over-count key q [] [] d = refl
  sum_over-count key q (x ∷ xs) [] d = ground (arith, sum_over-count key q xs [] d)
  sum_over-count key q xs (m ∷ s) d =
      omega (arith, sum_over-count key q xs s d.1, count-cons key q m s d.0 xs)

  -- Taking a member out takes it out of a count.
  pub count-remove :
      (p : A → Bool) (s : List A) (a : A)
      → Distinct s
      → count p s ≡ (if contains s a && p a then 1 else 0) + count p (remove s a)
  unfolding contains remove
  count-remove p [] a d = refl
  count-remove p (x ∷ s) a d = ground (arith, count-remove p s a d.1, e.beq_iff x a)

  pub remove-absent : (s : List A) (a : A) → contains s a ≡ false → remove s a ≡ s
  unfolding contains remove
  remove-absent [] a h = refl
  remove-absent (x ∷ s) a h = ground (arith, remove-absent s a)
