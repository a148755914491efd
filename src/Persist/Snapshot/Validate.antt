-- ===== src/Persist/Snapshot/Validate.antt =====
-- `validate_csr` and `validate_v2`: what is checked of a snapshot before it is used.
use Prim.Native.Nat.{zero, suc}
use orpheusgraph.Prelude.{
  ℕ, ◌+◌, ◌-◌, Bool, true, false, not, ◌||◌, String, none, some, List, [], ◌∷◌, length, leb, ltb,
  get_elem?, set, replicate, if◌then◌else◌, ◌==◌, nat_eq,
}
use orpheusgraph.Persist.Bytes.{Bytes}
use orpheusgraph.Persist.Crc.{Crc32}
use orpheusgraph.Persist.Store.State.{Validate, full, crc_only, unchecked}
use orpheusgraph.Persist.Error.{Result, ok}
use orpheusgraph.Persist.Snapshot.{CsrEdge, SerializableGraphV2}
use orpheusgraph.Persist.Snapshot.Buckets.{corrupt_csr, after, check_sorted, check_buckets}

unfoldable pub check_endpoints : {E : Type 0} → ℕ → List CsrEdge → Result E Unit
check_endpoints n [] = ok tt
check_endpoints n (edge ∷ edges) =
    let rest = check_endpoints n edges in
    if leb n edge.from_idx || leb n edge.to_idx
    then corrupt_csr "V2 CSR invalid: edge endpoint out of range"
    else rest

-- The loop over the offsets, `count` of them from position `i` on, each against the one before it.
unfoldable pub check_rising : {E : Type 0} → List ℕ → ℕ → ℕ → ℕ → ℕ → Result E ℕ
check_rising offsets e zero i prev = ok prev
check_rising offsets e (suc count) i prev = elim (get_elem? offsets i) [
  | none ↦ corrupt_csr "V2 CSR invalid: offsets short"
  | some cur ↦
      let rest = check_rising offsets e count (i + 1) cur in
      if ltb cur prev
      then corrupt_csr "V2 CSR invalid: offsets not monotonic"
      else if ltb e cur
      then corrupt_csr "V2 CSR invalid: offset > E"
      else rest
]

-- Shape, base, order and sentinel of an array of offsets. The messages for the two arrays differ by its name.
unfoldable pub check_offsets : {E : Type 0} → ℕ → ℕ → List ℕ → Result E Unit
check_offsets n e offsets =
    if not (length offsets == n + 1)
    then corrupt_csr "V2 CSR invalid: offsets len != n+1"
    else (elim (get_elem? offsets 0) [
      | none ↦ corrupt_csr "V2 CSR invalid: offsets[0] must be 0 (canonical CSR base)"
      | some first ↦
          if first == 0
          then after (check_rising offsets e (n + 1) 0 0) (λ last.
            if last == e then ok tt else corrupt_csr "V2 CSR invalid: offsets sentinel != E")
          else corrupt_csr "V2 CSR invalid: offsets[0] must be 0 (canonical CSR base)"
    ])

-- The loop over one group: `count` edges from position `k` on leave the node `i`.
unfoldable pub check_group : {E : Type 0} → List CsrEdge → ℕ → ℕ → ℕ → Result E Unit
check_group edges i zero k = ok tt
check_group edges i (suc count) k =
    let rest = check_group edges i count (k + 1) in
    elim (get_elem? edges k) [
      | none ↦ corrupt_csr "V2 CSR invalid: node_offsets slice OOB"
      | some edge ↦
          if edge.from_idx == i
          then rest
          else corrupt_csr "V2 CSR invalid: node_offsets group holds an edge of another node"
    ]

-- The same for the edges that the mirror names, and the node that they lead to.
unfoldable pub check_in_group : {E : Type 0} → List CsrEdge → List ℕ → ℕ → ℕ → ℕ → Result E Unit
check_in_group edges mirror j zero k = ok tt
check_in_group edges mirror j (suc count) k =
    let rest = check_in_group edges mirror j count (k + 1) in
    elim (get_elem? mirror k) [
      | none ↦ corrupt_csr "V2 CSR invalid: in_mirror short (strong)"
      | some m ↦ elim (get_elem? edges m) [
        | none ↦ corrupt_csr "V2 CSR invalid: in_mirror target OOB"
        | some edge ↦
            if edge.to_idx == j
            then rest
            else corrupt_csr "V2 CSR invalid: in_offsets group holds an edge to another node"
      ]
    ]

-- The loop over the groups, `count` of them from node `i` on.
unfoldable pub check_groups :
    {E : Type 0} → (ℕ → ℕ → ℕ → Result E Unit) → List ℕ → ℕ → ℕ → Result E Unit
check_groups group offsets zero i = ok tt
check_groups group offsets (suc count) i = elim (get_elem? offsets i) [
  | none ↦ corrupt_csr "V2 CSR invalid: offsets short (strong)"
  | some lo ↦ elim (get_elem? offsets (i + 1)) [
    | none ↦ corrupt_csr "V2 CSR invalid: offsets short (strong)"
    | some hi ↦ after (group i (hi - lo) lo) (λ _. check_groups group offsets count (i + 1))
  ]
]

-- no position twice, and each of an edge
unfoldable pub check_mirror_from : {E : Type 0} → List ℕ → List Bool → Result E Unit
check_mirror_from [] seen = ok tt
check_mirror_from (m ∷ mirror) seen =
    let rest = check_mirror_from mirror (set seen m true) in
    elim (get_elem? seen m) [
      | none ↦ corrupt_csr "V2 CSR invalid: in_mirror entry >= E"
      | some true ↦ corrupt_csr "V2 CSR invalid: in_mirror duplicate entry"
      | some false ↦ rest
    ]

unfoldable pub check_mirror : {E : Type 0} → ℕ → List ℕ → Result E Unit
check_mirror e mirror =
    if length mirror == e
    then check_mirror_from mirror (replicate e false)
    else corrupt_csr "V2 CSR invalid: in_mirror len != E"

unfoldable pub validate_csr : {E : Type 0} → (String → List ℕ) → SerializableGraphV2 → Result E Unit
validate_csr as_bytes a =
    let n = length a.nodes in
    let e = length a.edges in
    after (check_sorted a.nodes) (λ _. after (check_buckets as_bytes a) (λ _.
      after (check_endpoints n a.edges) (λ _. after (check_offsets n e a.node_offsets) (λ _.
        after (check_groups (check_group a.edges) a.node_offsets n 0) (λ _.
          after (check_offsets n e a.in_offsets) (λ _.
            after (check_mirror e a.in_mirror)
              (λ _. check_groups (check_in_group a.edges a.in_mirror) a.in_offsets n 0)))))))

module _ {E : Type 0} ⦃c : Crc32⦄ where
  unfoldable pub check_crc : Bytes → ℕ → Result E Unit
  check_crc bytes expected_crc =
      if c.checksum bytes == expected_crc then ok tt else corrupt_csr "V2 snapshot crc mismatch"

  -- `access_checked` is rkyv's reading of the bytes, with its check of the structure.
  unfoldable pub validate_v2 :
      (access_checked : Bytes → Result E SerializableGraphV2)
      → (as_bytes : String → List ℕ) → Bytes
      → Validate
      → ℕ
      → Result E Unit
  validate_v2 access_checked as_bytes bytes unchecked expected_crc = ok tt
  validate_v2 access_checked as_bytes bytes crc_only expected_crc =
      after (check_crc bytes expected_crc) (λ _. after (access_checked bytes) (λ _. ok tt))
  validate_v2 access_checked as_bytes bytes full expected_crc =
      after (check_crc bytes expected_crc)
        (λ _. after (access_checked bytes) (λ a. validate_csr as_bytes a))
