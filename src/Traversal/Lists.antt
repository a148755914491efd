-- ===== src/Traversal/Lists.antt =====
-- Lists without repeated members and predicates on all members, for the queries.
use orpheusgraph.Prelude.{
  Bool, count, ◌≤◌, ℕ, zero, suc, ◌≡◌, refl, true, false, ◌||◌, List, [], ◌∷◌, ◌++◌, map, take,
  arith, Eq, ◌==◌, Bool-cases, inl, inr,
}
use orpheusgraph.HashSet.{contains, Distinct}

module _ {ℓ κ} {A : Type ℓ} where
  abbrev pub All : (A → Type κ) → List A → Type κ
  All P [] = Unit
  All P (x ∷ xs) = P x × All P xs

  pub All-append : (P : A → Type κ) (xs ys : List A) → All P xs → All P ys → All P (xs ++ ys)
  All-append P [] ys h g = g
  All-append P (x ∷ xs) ys (h, hs) g = (h, All-append P xs ys hs g)

  pub All-take : (P : A → Type κ) (n : ℕ) (xs : List A) → All P xs → All P (take n xs)
  All-take P zero xs h = tt
  All-take P (suc n) [] h = tt
  All-take P (suc n) (x ∷ xs) (h, hs) = (h, All-take P n xs hs)

module _ {ℓ κ μ} {A : Type ℓ} where
  pub All-mono :
      (P : A → Type κ) (Q : A → Type μ)
      → ((x : A) → P x → Q x)
      → (xs : List A) → All P xs
      → All Q xs
  All-mono P Q f [] h = tt
  All-mono P Q f (x ∷ xs) (h, hs) = (f x h, All-mono P Q f xs hs)

module _ {ℓ} {A : Type ℓ} ⦃e : Eq A⦄ where
  pub contains-append :
      (xs ys : List A) (a : A) → contains (xs ++ ys) a ≡ (contains xs a || contains ys a)
  unfolding contains
  contains-append [] ys a = refl
  contains-append (x ∷ xs) ys a = ground (arith, contains-append xs ys a)

  pub Distinct-append :
      (xs ys : List A)
      → Distinct xs
      → Distinct ys
      → ((a : A) → contains ys a ≡ true → contains xs a ≡ false)
      → Distinct (xs ++ ys)
  unfolding contains
  Distinct-append [] ys d g apart = g
  Distinct-append (x ∷ xs) ys (h, d) g apart = (
    ground (arith, contains-append xs ys x, h, apart x, e.beq_iff x x),
    Distinct-append xs ys d g (λ a m. ground (arith, apart a m)),
  )

  module _ {κ} {B : Type κ} (f : B → A) where
    pub contains-take :
        (n : ℕ) (xs : List B) (a : A)
        → contains (map f (take n xs)) a ≡ true
        → contains (map f xs) a ≡ true
    unfolding contains
    contains-take zero xs a h = ground (arith, h)
    contains-take (suc n) [] a h = h
    contains-take (suc n) (x ∷ xs) a h = ground (arith, h, contains-take n xs a)

    pub Distinct-take : (n : ℕ) (xs : List B) → Distinct (map f xs) → Distinct (map f (take n xs))
    Distinct-take zero xs d = tt
    Distinct-take (suc n) [] d = tt
    Distinct-take (suc n) (x ∷ xs) (h, d) =
        (ground (arith, h, contains-take n xs (f x)), Distinct-take n xs d)

    -- A predicate that holds of all members holds of the one that has a key.
    pub All-contains {μ} :
        (P : B → Type μ) (xs : List B)
        → All P xs
        → (a : A) → contains (map f xs) a ≡ true
        → (b : B) × (P b × (f b ≡ a))
    unfolding contains
    All-contains P [] h a m = ground (arith, m)
    All-contains P (x ∷ xs) (h, hs) a m = elim (Bool-cases (f x == a)) [
      | inl r ↦ (x, (h, (e.beq_iff (f x) a).0 r))
      | inr r ↦ All-contains P xs hs a (ground (arith, r, m))
    ]

    -- What holds of every key holds at every member.
    pub All-keys {μ} :
        (Q : A → Type μ) (xs : List B)
        → ((a : A) → contains (map f xs) a ≡ true → Q a)
        → All (λ x. Q (f x)) xs
    unfolding contains
    All-keys Q [] h = tt
    All-keys Q (x ∷ xs) h = (
      h (f x) (ground (arith, e.beq_iff (f x) (f x))),
      All-keys Q xs (λ a m. h a (ground (arith, m))),
    )

-- membership with its position, for members without a test of equality
pub data Among {ℓ} {A : Type ℓ} (x : A) : List A → Type ℓ where
  here : {xs : List A} → Among x (x ∷ xs)
  there : {y : A} {xs : List A} → Among x xs → Among x (y ∷ xs)

pub All-Among {ℓ κ} :
    {A : Type ℓ} (P : A → Type κ) (xs : List A) → All P xs → (x : A) → Among x xs → P x
All-Among P [] h x m = elim m [ ]
All-Among P (y ∷ xs) (h, hs) x Among.here = h
All-Among P (y ∷ xs) (h, hs) x (Among.there m) = All-Among P xs hs x m

pub All-of_Among {ℓ κ} :
    {A : Type ℓ} (P : A → Type κ) (xs : List A) → ((x : A) → Among x xs → P x) → All P xs
All-of_Among P [] f = tt
All-of_Among P (x ∷ xs) f = (f x Among.here, All-of_Among P xs (λ y m. f y (Among.there m)))

-- where a test counts a member, one passes it
pub All-count {ℓ κ} :
    {A : Type ℓ} (P : A → Type κ) (q : A → Bool) (xs : List A)
    → All P xs
    → 1 ≤ count q xs
    → (x : A) × (P x × (q x ≡ true))
All-count P q [] h some_one = absurd (omega arith)
All-count P q (x ∷ xs) (h, hs) some_one = elim (Bool-cases (q x)) [
  | inl t ↦ (x, (h, t))
  | inr t ↦ All-count P q xs hs (ground (arith, t, some_one))
]
