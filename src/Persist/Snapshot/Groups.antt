-- ===== src/Persist/Snapshot/Groups.antt =====
-- What the accessor over a snapshot that passed `validate_csr` reads for a node.
use Prim.Native.Nat.{zero, suc, bit_and}
use orpheusgraph.Prelude.{
  ℕ, ◌+◌, ◌-◌, ◌≡◌, ◌≤◌, ◌<◌, refl, sym, subst, ap, ◌∙◌, Bool, false, ◌&&◌, String, none, some,
  List, [], ◌∷◌, length, leb, ltb, get_elem?, take, drop, filter, arith, ◌==◌, nat_eq, string_eq,
  Bool-cases, Option-cases, inl, inr,
}
use orpheusgraph.Accessor.{NeighborView}
use orpheusgraph.Persist.Error.{Result, ok}
use orpheusgraph.Persist.Snapshot.{
  CsrNode, CsrEdge, SerializableGraphV2, empty_bucket, fnv1a, neighbor_to, probe, idx_of,
  outgoing_range, incoming_range,
}
use orpheusgraph.Persist.Snapshot.Validate.{check_group, check_in_group, check_groups}
use orpheusgraph.Persist.Snapshot.Offsets.{off, after_ok}

-- the edges that have a target, as their source sees them
pub outgoing_views : SerializableGraphV2 → List CsrEdge → List NeighborView
outgoing_views a [] = []
outgoing_views a (edge ∷ edges) = elim (get_elem? a.nodes edge.to_idx) [
  | none ↦ outgoing_views a edges
  | some target ↦ neighbor_to target edge ∷ outgoing_views a edges
]

-- the edges at some positions that have a source, as their target sees them
pub incoming_views : SerializableGraphV2 → List ℕ → List NeighborView
incoming_views a [] = []
incoming_views a (m ∷ ms) = elim (get_elem? a.edges m) [
  | none ↦ incoming_views a ms
  | some edge ↦ elim (get_elem? a.nodes edge.from_idx) [
    | none ↦ incoming_views a ms
    | some source ↦ neighbor_to source edge ∷ incoming_views a ms
  ]
]

-- whether the edge at a position leads to a node
unfoldable pub leads_to : SerializableGraphV2 → ℕ → ℕ → Bool
leads_to a idx m = elim (get_elem? a.edges m) [ none ↦ false | some edge ↦ edge.to_idx == idx ]

drop-get {ℓ} :
    {A : Type ℓ} (xs : List A) (k : ℕ) (x : A)
    → get_elem? xs k ≡ some x
    → drop k xs ≡ x ∷ drop (suc k) xs
drop-get [] k x h = ground (arith, h)
drop-get (y ∷ xs) zero x h = ground (arith, h)
drop-get (y ∷ xs) (suc k) x h = drop-get xs k x h

drop-none {ℓ} : {A : Type ℓ} (xs : List A) (k : ℕ) → get_elem? xs k ≡ none → drop k xs ≡ []
drop-none [] zero h = refl
drop-none [] (suc k) h = refl
drop-none (y ∷ xs) zero h = ground (arith, h)
drop-none (y ∷ xs) (suc k) h = drop-none xs k h

plus_one : (k : ℕ) → suc k ≡ k + 1
plus_one k = omega arith

-- A test that holds exactly at the positions of a range selects the range.
pub filter-range {ℓ} :
    {A : Type ℓ} (p : A → Bool) (xs : List A) (lo count : ℕ)
    → ((k : ℕ) (x : A) → get_elem? xs k ≡ some x → p x ≡ (leb lo k && ltb k (lo + count)))
    → filter p xs ≡ take count (drop lo xs)
filter-range p [] zero zero h = refl
filter-range p [] zero (suc count) h = refl
filter-range p [] (suc lo) zero h = refl
filter-range p [] (suc lo) (suc count) h = refl
filter-range p (x ∷ xs) zero zero h =
    let here = h 0 x refl in
    let rest = filter-range p xs zero zero (λ k y g. ground (arith, h (suc k) y g)) in
    let none_left : filter p xs ≡ [] = rest in ground (arith, here, none_left)
filter-range p (x ∷ xs) zero (suc count) h =
    let here = h 0 x refl in
    let rest : filter p xs ≡ take count xs =
      filter-range p xs zero count (λ k y g. ground (arith, h (suc k) y g)) in
    ground (arith, here, rest)
filter-range p (x ∷ xs) (suc lo) count h =
    let here = h 0 x refl in
    let rest : filter p xs ≡ take count (drop lo xs) =
      filter-range p xs lo count (λ k y g. ground (arith, h (suc k) y g)) in
    ground (arith, here, rest)

pub outgoing_range-views :
    (a : SerializableGraphV2) (count k : ℕ)
    → outgoing_range a count k ≡ outgoing_views a (take count (drop k a.edges))
unfolding outgoing_range outgoing_views
outgoing_range-views a zero k = refl
outgoing_range-views a (suc count) k = elim (Option-cases (get_elem? a.edges k)) [
  | inl e ↦ rw (e, drop-none a.edges k e, outgoing_range) refl
  | inr (edge, e) ↦
      let rest : outgoing_range a count (k + 1)
          ≡ outgoing_views a (take count (drop (suc k) a.edges)) =
        outgoing_range-views a count (k + 1)
        ∙ ap (λ x. outgoing_views a (take count (drop x a.edges))) (sym (plus_one k)) in
      elim (Option-cases (get_elem? a.nodes edge.to_idx)) [
        | inl t ↦ rw (e, drop-get a.edges k edge e, t, outgoing_range, outgoing_views) rest
        | inr (target, t) ↦
            rw (e, drop-get a.edges k edge e, t, outgoing_range, outgoing_views)
              (ap (◌∷◌ (neighbor_to target edge)) rest)
      ]
]

pub incoming_range-views :
    (a : SerializableGraphV2) (count k : ℕ)
    → incoming_range a count k ≡ incoming_views a (take count (drop k a.in_mirror))
unfolding incoming_range incoming_views
incoming_range-views a zero k = refl
incoming_range-views a (suc count) k = elim (Option-cases (get_elem? a.in_mirror k)) [
  | inl e ↦ rw (e, drop-none a.in_mirror k e, incoming_range) refl
  | inr (m, e) ↦
      let rest : incoming_range a count (k + 1)
          ≡ incoming_views a (take count (drop (suc k) a.in_mirror)) =
        incoming_range-views a count (k + 1)
        ∙ ap (λ x. incoming_views a (take count (drop x a.in_mirror))) (sym (plus_one k)) in
      elim (Option-cases (get_elem? a.edges m)) [
        | inl o ↦ rw (e, drop-get a.in_mirror k m e, o, incoming_range, incoming_views) rest
        | inr (edge, o) ↦ elim (Option-cases (get_elem? a.nodes edge.from_idx)) [
          | inl t ↦ rw (e, drop-get a.in_mirror k m e, o, t, incoming_range, incoming_views) rest
          | inr (source, t) ↦
              rw (e, drop-get a.in_mirror k m e, o, t, incoming_range, incoming_views)
                (ap (◌∷◌ (neighbor_to source edge)) rest)
        ]
      ]
]

-- The probe answers with the position of a node of that name.
probe_lem :
    (as_bytes : String → List ℕ) (a : SerializableGraphV2) (name : String)
    (mask rounds slot idx : ℕ)
    → probe as_bytes a name mask rounds slot ≡ some idx
    → (node : CsrNode) × ((get_elem? a.nodes idx ≡ some node) × (node.name ≡ name))
unfolding probe
probe_lem as_bytes a name mask zero slot idx h = ground (arith, h)
probe_lem as_bytes a name mask (suc rounds) slot idx h =
    elim (Option-cases (get_elem? a.name_buckets slot)) [
      | inl e ↦ ground (arith, h, e)
      | inr (b, e) ↦ elim (Bool-cases (b == empty_bucket)) [
        | inl t ↦ ground (arith, h, e, t)
        | inr t ↦ elim (Option-cases (get_elem? a.nodes b)) [
          | inl o ↦ ground (arith, h, e, t, o)
          | inr (node, o) ↦ elim (Bool-cases (node.name == name)) [
            | inl u ↦
                let same : b ≡ idx = ground (arith, h, e, t, o, u) in
                (
                  node,
                  (
                    subst (λ x. get_elem? a.nodes x ≡ some node) same o,
                    (string_eq.beq_iff node.name name).0 u,
                  ),
                )
            | inr u ↦
                probe_lem as_bytes a name mask rounds (bit_and (slot + 1) mask) idx
                  (ground (arith, h, e, t, o, u))
          ]
        ]
      ]
    ]

pub idx_of_lem :
    (as_bytes : String → List ℕ) (a : SerializableGraphV2) (name : String) (idx : ℕ)
    → idx_of as_bytes a name ≡ some idx
    → (node : CsrNode) × ((get_elem? a.nodes idx ≡ some node) × (node.name ≡ name))
unfolding idx_of
idx_of_lem as_bytes a name idx h = elim (Bool-cases (length a.name_buckets == 0)) [
  | inl t ↦ ground (arith, h, t)
  | inr t ↦
      probe_lem as_bytes a name (length a.name_buckets - 1) (length a.name_buckets)
        (bit_and (fnv1a (as_bytes name)) (length a.name_buckets - 1)) idx (ground (arith, h, t))
]

pub get_lt {ℓ} :
    {A : Type ℓ} (xs : List A) (k : ℕ) (x : A) → get_elem? xs k ≡ some x → k < length xs
get_lt [] k x h = ground (arith, h)
get_lt (y ∷ xs) zero x h = omega arith
get_lt (y ∷ xs) (suc k) x h = omega (arith, get_lt xs k x h)

module _ (E : Type 0) where
  pub check_groups-each :
      (group : ℕ → ℕ → ℕ → Result E Unit) (offsets : List ℕ) (count i : ℕ)
      → check_groups group offsets count i ≡ ok tt
      → (j : ℕ) → i ≤ j
      → j < i + count
      → group j (off offsets (j + 1) - off offsets j) (off offsets j) ≡ ok tt
  unfolding check_groups
  check_groups-each group offsets zero i h j le lt = absurd (omega arith)
  check_groups-each group offsets (suc count) i h j le lt =
      elim (Option-cases (get_elem? offsets i)) [
        | inl e ↦ ground (arith, h, e)
        | inr (lo, e) ↦ elim (Option-cases (get_elem? offsets (i + 1))) [
          | inl f ↦ ground (arith, h, e, f)
          | inr (hi, f) ↦
              let (u, (now, rest)) =
                after_ok (group i (hi - lo) lo) (λ _. check_groups group offsets count (i + 1)) tt
                  (ground (arith, h, e, f)) in
              elim (Bool-cases (ltb i j)) [
                | inl t ↦
                    check_groups-each group offsets count (i + 1) rest j (ground (arith, t))
                      (omega arith)
                | inr t ↦
                    let same : i ≡ j = ground (arith, t, le) in
                    subst
                      (λ x. group x (off offsets (x + 1) - off offsets x) (off offsets x) ≡ ok tt)
                      same (ground (arith, e, f, now))
              ]
        ]
      ]

  pub check_group-each :
      (edges : List CsrEdge) (i count k : ℕ)
      → check_group {E = E} edges i count k ≡ ok tt
      → (x : ℕ) → k ≤ x
      → x < k + count
      → (edge : CsrEdge) → get_elem? edges x ≡ some edge
      → edge.from_idx ≡ i
  unfolding check_group
  check_group-each edges i zero k h x le lt edge g = absurd (omega arith)
  check_group-each edges i (suc count) k h x le lt edge g =
      elim (Option-cases (get_elem? edges k)) [
        | inl e ↦ ground (arith, h, e)
        | inr (first, e) ↦ elim (Bool-cases (first.from_idx == i)) [
          | inr t ↦ ground (arith, h, e, t)
          | inl t ↦ elim (Bool-cases (ltb k x)) [
            | inl u ↦
                check_group-each edges i count (k + 1) (ground (arith, h, e, t)) x
                  (ground (arith, u)) (omega arith) edge g
            | inr u ↦
                let same : k ≡ x = ground (arith, u, le) in
                let one : first ≡ edge =
                  ground (arith, e, subst (λ y. get_elem? edges y ≡ some edge) (sym same) g) in
                ground (arith, t, one)
          ]
        ]
      ]

  pub check_in_group-each :
      (a : SerializableGraphV2) (j count k : ℕ)
      → check_in_group {E = E} a.edges a.in_mirror j count k ≡ ok tt
      → (x : ℕ) → k ≤ x
      → x < k + count
      → (m : ℕ) → get_elem? a.in_mirror x ≡ some m
      → (edge : CsrEdge) × ((get_elem? a.edges m ≡ some edge) × (edge.to_idx ≡ j))
  unfolding check_in_group
  check_in_group-each a j zero k h x le lt m g = absurd (omega arith)
  check_in_group-each a j (suc count) k h x le lt m g =
      elim (Option-cases (get_elem? a.in_mirror k)) [
        | inl e ↦ ground (arith, h, e)
        | inr (first, e) ↦ elim (Option-cases (get_elem? a.edges first)) [
          | inl o ↦ ground (arith, h, e, o)
          | inr (edge, o) ↦ elim (Bool-cases (edge.to_idx == j)) [
            | inr t ↦ ground (arith, h, e, o, t)
            | inl t ↦ elim (Bool-cases (ltb k x)) [
              | inl u ↦
                  check_in_group-each a j count (k + 1) (ground (arith, h, e, o, t)) x
                    (ground (arith, u)) (omega arith) m g
              | inr u ↦
                  let same : k ≡ x = ground (arith, u, le) in
                  let one : first ≡ m =
                    ground (arith, e, subst (λ y. get_elem? a.in_mirror y ≡ some m) (sym same) g) in
                  (edge, (subst (λ y. get_elem? a.edges y ≡ some edge) one o, ground (arith, t)))
            ]
          ]
        ]
      ]
