-- ===== src/Prelude/Counting.antt =====
-- Counting the members of a list that pass a test, and sums over a list.
use Prim.Native.Nat.{ℕ, ◌+◌}
use mathlib.Core.Path.{◌≡◌, refl}
use mathlib.Core.Bool.{Bool, true, false, not, ◌&&◌}
use mathlib.Core.List.{List, [], ◌∷◌, ◌++◌}
use native.Mathlib.Omega.{arith}
use package.orpheusgraph.Prelude.Tests.{if◌then◌else◌}
use package.orpheusgraph.Prelude.Lists.{length, filter}

module _ {ℓ} {A : Type ℓ} where
  -- `.iter().filter(p).count()`
  abbrev pub count : (A → Bool) → List A → ℕ
  count p [] = 0
  count p (x ∷ xs) = (if p x then 1 else 0) + count p xs

  -- a loop `for x in xs { total += f(x) }`
  abbrev pub sum_over : (A → ℕ) → List A → ℕ
  sum_over f [] = 0
  sum_over f (x ∷ xs) = f x + sum_over f xs

  pub count-append : (p : A → Bool) (xs ys : List A) → count p (xs ++ ys) ≡ count p xs + count p ys
  count-append p [] ys = omega arith
  count-append p (x ∷ xs) ys = omega (arith, count-append p xs ys)

  pub count-ext : (p q : A → Bool) → ((x : A) → p x ≡ q x) → (xs : List A) → count p xs ≡ count q xs
  count-ext p q h [] = refl
  count-ext p q h (x ∷ xs) = ground (arith, h x, count-ext p q h xs)

  -- A list is split by any test.
  pub count-split :
      (p q : A → Bool) (xs : List A)
      → count (λ x. p x && q x) xs + count (λ x. p x && not (q x)) xs ≡ count p xs
  count-split p q [] = refl
  count-split p q (x ∷ xs) = ground (arith, count-split p q xs)

  pub count-filter :
      (p q : A → Bool) (xs : List A) → count p (filter q xs) ≡ count (λ x. q x && p x) xs
  count-filter p q [] = refl
  count-filter p q (x ∷ xs) = ground (arith, count-filter p q xs)

  pub length-filter : (p : A → Bool) (xs : List A) → length (filter p xs) ≡ count p xs
  length-filter p [] = refl
  length-filter p (x ∷ xs) = ground (arith, length-filter p xs)

  pub count-none : (p : A → Bool) → ((x : A) → p x ≡ false) → (xs : List A) → count p xs ≡ 0
  count-none p h [] = refl
  count-none p h (x ∷ xs) = ground (arith, h x, count-none p h xs)

  pub count-true : (xs : List A) → count (λ x. true) xs ≡ length xs
  count-true [] = refl
  count-true (x ∷ xs) = omega (arith, count-true xs)

  pub sum_over-add :
      (f g : A → ℕ) (xs : List A) → sum_over (λ x. f x + g x) xs ≡ sum_over f xs + sum_over g xs
  sum_over-add f g [] = refl
  sum_over-add f g (x ∷ xs) = omega (arith, sum_over-add f g xs)

  pub sum_over-ext :
      (f g : A → ℕ) → ((x : A) → f x ≡ g x) → (xs : List A) → sum_over f xs ≡ sum_over g xs
  sum_over-ext f g h [] = refl
  sum_over-ext f g h (x ∷ xs) = omega (arith, h x, sum_over-ext f g h xs)

  pub sum_over-append :
      (f : A → ℕ) (xs ys : List A) → sum_over f (xs ++ ys) ≡ sum_over f xs + sum_over f ys
  sum_over-append f [] ys = omega arith
  sum_over-append f (x ∷ xs) ys = omega (arith, sum_over-append f xs ys)
