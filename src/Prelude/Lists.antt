-- ===== src/Prelude/Lists.antt =====
-- Lists measured and indexed by native numbers, under the library's names.
use Prim.Native.Nat.{ℕ, zero, suc, ◌+◌, ◌-◌, ◌≤◌}
use mathlib.Core.Path.{◌≡◌, refl, sym, ap, ◌∙◌}
use mathlib.Core.Bool.{Bool, true, false, ◌&&◌}
use mathlib.Core.List.{List, [], ◌∷◌, ◌++◌}
use mathlib.Core.Option.{Option, none, some}
use native.Mathlib.Omega.{arith}
use package.orpheusgraph.Prelude.Tests.{if◌then◌else◌}

module _ {ℓ} {A : Type ℓ} where
  abbrev pub length : List A → ℕ
  length [] = 0
  length (x ∷ xs) = suc (length xs)

  abbrev pub get_elem? : List A → ℕ → Option A
  get_elem? [] i = none
  get_elem? (x ∷ xs) zero = some x
  get_elem? (x ∷ xs) (suc i) = get_elem? xs i

  -- A write out of bounds changes nothing.
  abbrev pub set : List A → ℕ → A → List A
  set [] i v = []
  set (x ∷ xs) zero v = v ∷ xs
  set (x ∷ xs) (suc i) v = x ∷ set xs i v

  abbrev pub take : ℕ → List A → List A
  take zero xs = []
  take (suc n) [] = []
  take (suc n) (x ∷ xs) = x ∷ take n xs

  abbrev pub drop : ℕ → List A → List A
  drop zero xs = xs
  drop (suc n) [] = []
  drop (suc n) (x ∷ xs) = drop n xs

  abbrev pub replicate : ℕ → A → List A
  replicate zero a = []
  replicate (suc n) a = a ∷ replicate n a

  -- `retain`, and `filter` on an iterator.
  abbrev pub filter : (A → Bool) → List A → List A
  filter p [] = []
  filter p (x ∷ xs) = if p x then x ∷ filter p xs else filter p xs

  pub length-append : (xs ys : List A) → length (xs ++ ys) ≡ length xs + length ys
  length-append [] ys = omega arith
  length-append (x ∷ xs) ys = omega (arith, length-append xs ys)

  pub length-snoc : (xs : List A) (x : A) → length (xs ++ (x ∷ [])) ≡ suc (length xs)
  length-snoc xs x = omega (arith, length-append xs (x ∷ []))

  pub filter-append :
      (p : A → Bool) (xs ys : List A) → filter p (xs ++ ys) ≡ filter p xs ++ filter p ys
  filter-append p [] ys = refl
  filter-append p (x ∷ xs) ys = ground (arith, filter-append p xs ys)

  pub filter-filter :
      (p q : A → Bool) (xs : List A) → filter p (filter q xs) ≡ filter (λ x. q x && p x) xs
  filter-filter p q [] = refl
  filter-filter p q (x ∷ xs) = ground (arith, filter-filter p q xs)

  pub filter-ext :
      (p q : A → Bool) → ((x : A) → p x ≡ q x) → (xs : List A) → filter p xs ≡ filter q xs
  filter-ext p q h [] = refl
  filter-ext p q h (x ∷ xs) = ground (arith, h x, filter-ext p q h xs)

  pub filter-all : (p : A → Bool) → ((x : A) → p x ≡ true) → (xs : List A) → filter p xs ≡ xs
  filter-all p h [] = refl
  filter-all p h (x ∷ xs) = ground (arith, h x, filter-all p h xs)

  pub filter-none : (p : A → Bool) → ((x : A) → p x ≡ false) → (xs : List A) → filter p xs ≡ []
  filter-none p h [] = refl
  filter-none p h (x ∷ xs) = ground (arith, h x, filter-none p h xs)

module _ {ℓ} {A : Type ℓ} where
  pub length-set : (xs : List A) (i : ℕ) (v : A) → length (set xs i v) ≡ length xs
  length-set [] i v = refl
  length-set (x ∷ xs) zero v = refl
  length-set (x ∷ xs) (suc i) v = ap suc (length-set xs i v)

  pub get_elem?-length :
      (pre : List A) (x : A) (xs : List A) → get_elem? (pre ++ (x ∷ xs)) (length pre) ≡ some x
  get_elem?-length [] x xs = refl
  get_elem?-length (y ∷ pre) x xs = get_elem?-length pre x xs

  pub set-length :
      (pre : List A) (x v : A) (xs : List A)
      → set (pre ++ (x ∷ xs)) (length pre) v ≡ pre ++ (v ∷ xs)
  set-length [] x v xs = refl
  set-length (y ∷ pre) x v xs = ap (λ l. y ∷ l) (set-length pre x v xs)

  pub take-length : (xs ys : List A) → take (length xs) (xs ++ ys) ≡ xs
  take-length [] ys = refl
  take-length (x ∷ xs) ys = ap (λ l. x ∷ l) (take-length xs ys)

  pub drop-length : (xs ys : List A) → drop (length xs) (xs ++ ys) ≡ ys
  drop-length [] ys = refl
  drop-length (x ∷ xs) ys = drop-length xs ys

  pub length-take : (n : ℕ) (xs : List A) → n ≤ length xs → length (take n xs) ≡ n
  length-take zero xs h = refl
  length-take (suc n) [] h = omega (arith, h)
  length-take (suc n) (x ∷ xs) h = ap suc (length-take n xs (omega (arith, h)))

  pub length-drop : (n : ℕ) (xs : List A) → length (drop n xs) ≡ length xs - n
  length-drop zero xs = omega arith
  length-drop (suc n) [] = omega arith
  length-drop (suc n) (x ∷ xs) = omega (arith, length-drop n xs)

  -- what a prefix leaves to read when other members follow it
  pub take_prefix :
      (m n : ℕ) (xs ys : List A) → m ≤ n → n ≤ length xs → take m (take n xs ++ ys) ≡ take m xs
  take_prefix zero n xs ys le h = refl
  take_prefix (suc m) zero xs ys le h = ground (arith, le)
  take_prefix (suc m) (suc n) [] ys le h = ground (arith, h)
  take_prefix (suc m) (suc n) (x ∷ xs) ys le h =
      ap (λ l. x ∷ l) (take_prefix m n xs ys (omega (arith, le)) (omega (arith, h)))

  pub drop_prefix :
      (m n : ℕ) (xs ys : List A)
      → m ≤ n
      → n ≤ length xs
      → drop m (take n xs ++ ys) ≡ take (n - m) (drop m xs) ++ ys
  drop_prefix zero n xs ys le h = ap (λ k. take k xs ++ ys) (omega arith)
  drop_prefix (suc m) zero xs ys le h = ground (arith, le)
  drop_prefix (suc m) (suc n) [] ys le h = ground (arith, h)
  drop_prefix (suc m) (suc n) (x ∷ xs) ys le h =
      drop_prefix m n xs ys (omega (arith, le)) (omega (arith, h))
      ∙ ap (λ k. take k (drop m xs) ++ ys) (omega arith)

  pub take_all : (xs : List A) → take (length xs) xs ≡ xs
  take_all [] = refl
  take_all (x ∷ xs) = ap (λ l. x ∷ l) (take_all xs)

  -- A prefix is a shorter prefix and a prefix of the rest.
  pub take-add :
      (n m : ℕ) (xs : List A) → n ≤ length xs → take (n + m) xs ≡ take n xs ++ take m (drop n xs)
  take-add zero m xs h = ap (λ k. take k xs) (omega arith)
  take-add (suc n) m [] h = ground (arith, h)
  take-add (suc n) m (x ∷ xs) h =
      let e : suc n + m ≡ suc (n + m) = omega arith in
      rw e (ap (λ l. x ∷ l) (take-add n m xs (omega (arith, h))))

  pub drop-take : (n : ℕ) (xs ys : List A) → n ≤ length xs → drop n (take n xs ++ ys) ≡ ys
  drop-take n xs ys h =
      ap (λ k. drop k (take n xs ++ ys)) (sym (length-take n xs h)) ∙ drop-length (take n xs) ys
