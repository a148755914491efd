-- ===== src/Persist/Snapshot/Mirror.antt =====
-- A mirror that passed `validate_csr` lists every position of an edge once.
use Prim.Native.Nat.{zero, suc}
use orpheusgraph.Prelude.{
  ℕ, ◌+◌, ◌≡◌, ◌≤◌, ◌<◌, refl, subst, ◌∙◌, Bool, true, false, Option, none, some, List, [], ◌∷◌,
  length, length-set, get_elem?, set, replicate, count, arith, if◌then◌else◌, ◌==◌, nat_eq,
  Bool-cases, Option-cases, inl, inr,
}
use orpheusgraph.Persist.Error.{ok}
use orpheusgraph.Persist.Snapshot.Validate.{check_mirror_from, check_mirror}

get-set :
    (xs : List Bool) (m : ℕ) (b c : Bool) (k : ℕ)
    → get_elem? xs m ≡ some c
    → get_elem? (set xs m b) k ≡ (if m == k then some b else get_elem? xs k)
get-set [] m b c k h = ground (arith, h)
get-set (x ∷ xs) zero b c zero h = ground arith
get-set (x ∷ xs) zero b c (suc k) h = ground arith
get-set (x ∷ xs) (suc m) b c zero h = ground arith
get-set (x ∷ xs) (suc m) b c (suc k) h = ground (arith, get-set xs m b c k h)

length-replicate : (e : ℕ) → length (replicate e false) ≡ e
length-replicate zero = refl
length-replicate (suc e) = omega (arith, length-replicate e)

some_lt : (xs : List Bool) (k : ℕ) (b : Bool) → get_elem? xs k ≡ some b → k < length xs
some_lt [] k b h = ground (arith, h)
some_lt (y ∷ xs) zero b h = omega arith
some_lt (y ∷ xs) (suc k) b h = omega (arith, some_lt xs k b h)

-- how often a mirror may still name a position
abbrev room : Option Bool → ℕ
room (some false) = 1
room _ = 0

abbrev times : List ℕ → ℕ → ℕ
times mirror k = count (λ m. m == k) mirror

-- the sum of a function below a bound
sum_to : (ℕ → ℕ) → ℕ → ℕ
sum_to f zero = 0
sum_to f (suc n) = f n + sum_to f n

sum_to-none : (m n : ℕ) → n ≤ m → sum_to (λ k. if m == k then 1 else 0) n ≡ 0
unfolding sum_to
sum_to-none m zero h = refl
sum_to-none m (suc n) h = ground (arith, sum_to-none m n, h)

sum_to-one : (m n : ℕ) → m < n → sum_to (λ k. if m == k then 1 else 0) n ≡ 1
unfolding sum_to
sum_to-one m zero h = absurd (omega arith)
sum_to-one m (suc n) h = ground (arith, sum_to-one m n, sum_to-none m n, h)

sum_to-add : (f g : ℕ → ℕ) (n : ℕ) → sum_to (λ k. f k + g k) n ≡ sum_to f n + sum_to g n
unfolding sum_to
sum_to-add f g zero = refl
sum_to-add f g (suc n) = omega (arith, sum_to-add f g n)

sum_to-zero : (n : ℕ) → sum_to (λ k. 0) n ≡ 0
unfolding sum_to
sum_to-zero zero = refl
sum_to-zero (suc n) = omega (arith, sum_to-zero n)

sum_to_le : (f : ℕ → ℕ) → ((k : ℕ) → f k ≤ 1) → (n : ℕ) → sum_to f n ≤ n
unfolding sum_to
sum_to_le f h zero = omega arith
sum_to_le f h (suc n) = omega (arith, h n, sum_to_le f h n)

-- A sum of as many ones and zeros as there are terms has no zero.
sum_to_full :
    (f : ℕ → ℕ) → ((k : ℕ) → f k ≤ 1) → (n : ℕ) → sum_to f n ≡ n → (k : ℕ) → k < n → f k ≡ 1
unfolding sum_to
sum_to_full f h zero e k lt = absurd (omega arith)
sum_to_full f h (suc n) e k lt = elim (Bool-cases (n == k)) [
  | inl t ↦
      let same : n ≡ k = (nat_eq.beq_iff n k).0 t in
      subst (λ x. f x ≡ 1) same (omega (arith, e, h n, sum_to_le f h n))
  | inr t ↦
      let less : k < n = ground (arith, lt, t) in
      sum_to_full f h n (omega (arith, e, h n, sum_to_le f h n)) k less
]

module _ (E : Type 0) where
  check_mirror_from-times :
      (mirror : List ℕ) (seen : List Bool)
      → check_mirror_from {E = E} mirror seen ≡ ok tt
      → ((k : ℕ) → times mirror k ≤ room (get_elem? seen k))
        × (sum_to (times mirror) (length seen) ≡ length mirror)
  unfolding check_mirror_from
  check_mirror_from-times [] seen h = (λ k. omega arith, sum_to-zero (length seen))
  check_mirror_from-times (m ∷ mirror) seen h = elim (Option-cases (get_elem? seen m)) [
    | inl e ↦ ground (arith, h, e)
    | inr (true, e) ↦ ground (arith, h, e)
    | inr (false, e) ↦
        let (few, total) =
          check_mirror_from-times mirror (set seen m true) (ground (arith, h, e)) in
        (
          λ k. ground (arith, few k, get-set seen m true false k e, nat_eq.beq_iff m k, e),
          omega (
            arith,
            sum_to-add (λ k. if m == k then 1 else 0) (times mirror) (length seen),
            sum_to-one m (length seen) (some_lt seen m false e),
            subst (λ n. sum_to (times mirror) n ≡ length mirror) (length-set seen m true) total,
          ),
        )
  ]

  room_le : (o : Option Bool) → room o ≤ 1
  room_le none = omega arith
  room_le (some true) = omega arith
  room_le (some false) = omega arith

  pub check_mirror-once :
      (e : ℕ) (mirror : List ℕ)
      → check_mirror {E = E} e mirror ≡ ok tt
      → (k : ℕ) → k < e
      → count (λ m. m == k) mirror ≡ 1
  unfolding check_mirror
  check_mirror-once e mirror h k lt = elim (Bool-cases (length mirror == e)) [
    | inr t ↦ ground (arith, h, t)
    | inl t ↦
        let (few, total) =
          check_mirror_from-times mirror (replicate e false) (ground (arith, h, t)) in
        let size : length mirror ≡ e = (nat_eq.beq_iff (length mirror) e).0 t in
        let all : sum_to (times mirror) e ≡ e =
          subst (λ n. sum_to (times mirror) n ≡ length mirror) (length-replicate e) total ∙ size in
        sum_to_full (times mirror)
          (λ i. omega (arith, few i, room_le (get_elem? (replicate e false) i))) e all k lt
  ]
