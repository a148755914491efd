-- ===== src/Persist/Snapshot/Offsets.antt =====
-- Offsets that pass the checks of `validate_csr` cut the positions of the edges into the groups of the nodes.
use Prim.Native.Nat.{zero, suc}
use orpheusgraph.Prelude.{
  ℕ, ◌+◌, ◌-◌, ◌≡◌, ◌≤◌, ◌<◌, refl, subst, false, some, List, length, leb, ltb, get_elem?, ◌&&◌,
  arith, if◌then◌else◌, ◌==◌, nat_eq, Bool-cases, Option-cases, inl, inr,
}
use orpheusgraph.Persist.Error.{Result, ok, err}
use orpheusgraph.Persist.Snapshot.Buckets.{corrupt_csr, after, or_zero}
use orpheusgraph.Persist.Snapshot.Validate.{check_rising, check_offsets}

abbrev pub off : List ℕ → ℕ → ℕ
off offsets i = or_zero (get_elem? offsets i)

-- the offsets of `n` nodes into `e` edges
pub record IsOffsets (n e : ℕ) (offsets : List ℕ) : Type 0 where
  pub there : (i : ℕ) → i ≤ n → get_elem? offsets i ≡ some (off offsets i)
  pub base : off offsets 0 ≡ 0
  pub rising : (i : ℕ) → i < n → off offsets i ≤ off offsets (i + 1)
  pub sentinel : off offsets n ≡ e

suc_plus : (i : ℕ) → suc i ≡ i + 1
suc_plus i = omega arith

plus_zero : (i : ℕ) → i ≡ i + zero
plus_zero i = omega arith

plus_suc : (i d : ℕ) → i + d + 1 ≡ i + suc d
plus_suc i d = omega arith

pub after_ok :
    {E A B : Type 0} (r : Result E A) (f : A → Result E B) (b : B)
    → after r f ≡ ok b
    → (a : A) × ((r ≡ ok a) × (f a ≡ ok b))
unfolding after
after_ok (ok a) f b h = (a, (refl, h))
after_ok (err e) f b h = ground (arith, h)

-- what the loop over the offsets found
record IsRising (offsets : List ℕ) (count i prev last : ℕ) : Type 0 where
  pub there : (j : ℕ) → i ≤ j → j < i + count → get_elem? offsets j ≡ some (off offsets j)
  pub first : 0 < count → prev ≤ off offsets i
  pub rising : (j : ℕ) → i ≤ j → j + 1 < i + count → off offsets j ≤ off offsets (j + 1)
  pub empty : count ≡ 0 → prev ≡ last
  pub last_off : (j : ℕ) → j + 1 ≡ i + count → i ≤ j → off offsets j ≡ last

module _ (E : Type 0) where
  check_rising-IsRising :
      (offsets : List ℕ) (e count i prev last : ℕ)
      → check_rising {E = E} offsets e count i prev ≡ ok last
      → IsRising offsets count i prev last
  unfolding check_rising
  check_rising-IsRising offsets e zero i prev last h = record {
    there = λ j a b. absurd (omega arith);
    first = λ b. absurd (omega arith);
    rising = λ j a b. absurd (omega arith);
    empty = λ z. ground (arith, h);
    last_off = λ j a b. absurd (omega arith);
  }
  check_rising-IsRising offsets e (suc count) i prev last h =
      elim (Option-cases (get_elem? offsets i)) [
        | inl n ↦ ground (arith, h, n)
        | inr (cur, s) ↦
            let value : off offsets i ≡ cur = ground (arith, s) in
            elim (Bool-cases (ltb cur prev)) [
              | inl t ↦ ground (arith, h, s, t)
              | inr t ↦ elim (Bool-cases (ltb e cur)) [
                | inl t' ↦ ground (arith, h, s, t, t')
                | inr t' ↦
                    let rest : check_rising {E = E} offsets e count (i + 1) cur ≡ ok last =
                      ground (arith, h, s, t, t') in
                    let r = check_rising-IsRising offsets e count (i + 1) cur last rest in
                    let at : (j : ℕ) → i ≤ j → ltb i j ≡ false → i ≡ j =
                      λ j a b. ground (arith, a, b) in
                    record {
                      there = λ j a b. elim (Bool-cases (ltb i j)) [
                        | inl u ↦ r.there j (ground (arith, u)) (omega arith)
                        | inr u ↦
                            subst (λ x. get_elem? offsets x ≡ some (off offsets x)) (at j a u)
                              (ground (arith, s, value))
                      ];
                      first = λ b. ground (arith, value, t);
                      rising = λ j a b. elim (Bool-cases (ltb i j)) [
                        | inl u ↦ r.rising j (ground (arith, u)) (omega arith)
                        | inr u ↦
                            subst (λ x. off offsets x ≤ off offsets (x + 1)) (at j a u)
                              (omega (arith, value, r.first (omega (arith, at j a u))))
                      ];
                      empty = λ z. absurd (omega arith);
                      last_off = λ j a b. elim (Bool-cases (ltb i j)) [
                        | inl u ↦ r.last_off j (omega arith) (ground (arith, u))
                        | inr u ↦
                            subst (λ x. off offsets x ≡ last) (at j b u)
                              (omega (arith, value, r.empty (omega (arith, at j b u))))
                      ];
                    }
              ]
            ]
      ]

  pub check_offsets-IsOffsets :
      (n e : ℕ) (offsets : List ℕ)
      → check_offsets {E = E} n e offsets ≡ ok tt
      → IsOffsets n e offsets
  unfolding check_offsets
  check_offsets-IsOffsets n e offsets h = elim (Bool-cases (length offsets == n + 1)) [
    | inr t ↦ ground (arith, h, t)
    | inl t ↦ elim (Option-cases (get_elem? offsets 0)) [
      | inl o ↦ ground (arith, h, t, o)
      | inr (first, o) ↦ elim (Bool-cases (first == 0)) [
        | inr z ↦ ground (arith, h, t, o, z)
        | inl z ↦
            let (last, (looped, ended)) =
              after_ok (check_rising {E = E} offsets e (n + 1) 0 0)
                (λ last.
                  if last == e then ok tt else corrupt_csr "V2 CSR invalid: offsets sentinel != E")
                tt (ground (arith, h, t, o, z)) in
            let r = check_rising-IsRising offsets e (n + 1) 0 0 last looped in
            record {
              there = λ i le. r.there i (omega arith) (omega arith);
              base = ground (arith, o, z);
              rising = λ i lt. r.rising i (omega arith) (omega arith);
              sentinel = ground (arith, r.last_off n (omega arith) (omega arith), ended);
            }
      ]
    ]
  ]

module _ (n e : ℕ) (offsets : List ℕ) (h : IsOffsets n e offsets) where
  -- Every position lies in the group of some node.
  pub group_of :
      (i : ℕ)
      → i ≤ n
      → (k : ℕ) → k < off offsets i
      → (j : ℕ) × ((j < i) × ((off offsets j ≤ k) × (k < off offsets (j + 1))))
  group_of zero le k lt = absurd (omega (arith, h.base))
  group_of (suc i) le k lt = elim (Bool-cases (ltb k (off offsets i))) [
    | inl t ↦
        let (j, (a, (b, c))) = group_of i (omega arith) k (ground (arith, t)) in
        (j, (omega arith, (b, c)))
    | inr t ↦
        (i, (omega arith, (ground (arith, t), subst (λ x. k < off offsets x) (suc_plus i) lt)))
  ]

  -- The offsets rise over any distance.
  pub off_mono : (d i : ℕ) → i + d ≤ n → off offsets i ≤ off offsets (i + d)
  off_mono zero i le = subst (λ x. off offsets i ≤ off offsets x) (plus_zero i) (omega arith)
  off_mono (suc d) i le =
      subst (λ x. off offsets i ≤ off offsets x) (plus_suc i d)
        (omega (arith, off_mono d i (omega arith), h.rising (i + d) (omega arith)))

  pub off_le : (i j : ℕ) → i ≤ j → j ≤ n → off offsets i ≤ off offsets j
  off_le i j le top =
      let reach : i + (j - i) ≡ j = omega arith in
      subst (λ x. off offsets i ≤ off offsets x) reach (off_mono (j - i) i (omega arith))

  -- A position has the owner `i` exactly when it lies between the offsets of `i`.
  pub owner_range :
      (k owner i : ℕ)
      → k < e
      → ((j : ℕ) → j < n → off offsets j ≤ k → k < off offsets (j + 1) → owner ≡ j)
      → i < n
      → (owner == i)
        ≡ (leb (off offsets i) k && ltb k (off offsets i + (off offsets (i + 1) - off offsets i)))
  owner_range k owner i lt owns top =
      let (j, (jn, (lo, hi))) = group_of n (omega arith) k (omega (arith, h.sentinel)) in
      let same : owner ≡ j = owns j jn lo hi in
      elim (Bool-cases (ltb j i)) [
        | inl t ↦
            ground (arith, same, t, lo, hi, off_le (j + 1) i (ground (arith, t)) (omega arith))
        | inr t ↦ elim (Bool-cases (ltb i j)) [
          | inl u ↦ ground (
            arith,
            same,
            u,
            lo,
            hi,
            off_le (i + 1) j (ground (arith, u)) (omega arith),
            h.rising i top,
          )
          | inr u ↦
              let at : j ≡ i = ground (arith, t, u) in
              let lo' : off offsets i ≤ k = subst (λ x. off offsets x ≤ k) at lo in
              let hi' : k < off offsets (i + 1) = subst (λ x. k < off offsets (x + 1)) at hi in
              ground (arith, same, at, lo', hi')
        ]
      ]
