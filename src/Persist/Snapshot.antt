-- ===== src/Persist/Snapshot.antt =====
-- src/persist/snapshot.rs: the CSR snapshot and the accessor over it. The archive is read as the record
-- that it encodes; the format rkyv and the mapping of the file are not modelled.
pub mod Validate
pub mod Buckets
pub mod Offsets
pub mod Groups
pub mod Mirror
pub mod Read
use Prim.Native.Nat.{bit_and, bit_xor, zero, suc}
use orpheusgraph.Prelude.{
  ℕ, ◌+◌, ◌-◌, ◌*◌, ◌/◌, ◌%◌, ◌^◌, max, Bool, true, false, String, Option, none, some, List, [],
  ◌∷◌, length, map, leb, get_elem?, set, replicate, if◌then◌else◌, ◌==◌, string_eq, nat_eq,
}
use orpheusgraph.Types.{NodeData, F32, Metadata}
use orpheusgraph.Accessor.{GraphAccessor, NodeView, NeighborView}

pub record CsrNode : Type 0 where
  pub name : String
  pub kind : String
  pub metadata : Metadata
  pub base_weight : F32
  pub noise_penalty : F32
  pub pagerank_weight : F32

pub record CsrEdge : Type 0 where
  pub from_idx : ℕ
  pub to_idx : ℕ
  pub kind : String
  pub field_name : Option String
  pub base_weight : F32
  pub valid_from : Option ℕ
  pub valid_to : Option ℕ
  pub acl : List String

pub record SerializableGraphV2 : Type 0 where
  pub nodes : List CsrNode
  pub edges : List CsrEdge
  pub node_offsets : List ℕ
  pub in_offsets : List ℕ
  pub in_mirror : List ℕ
  pub name_buckets : List ℕ

-- `u32::MAX`
abbrev pub empty_bucket : ℕ
empty_bucket = 4294967295

-- one round of the hash: 64 bits that wrap around
unfoldable pub fnv1a_from : ℕ → List ℕ → ℕ
fnv1a_from h [] = h
fnv1a_from h (b ∷ bytes) = fnv1a_from ((bit_xor h b * 1099511628211) % 2 ^ 64) bytes

unfoldable pub fnv1a : List ℕ → ℕ
fnv1a bytes = fnv1a_from 14695981039346656037 bytes

-- `checked_next_power_of_two`, from the power `p`: 64 bits hold `rounds` more
unfoldable pub next_power_of_two : ℕ → ℕ → ℕ → Option ℕ
next_power_of_two zero p want = none
next_power_of_two (suc rounds) p want =
    let rest = next_power_of_two rounds (2 * p) want in if leb want p then some p else rest

-- Counts of nodes fit in 32 bits, so the saturating operations do not saturate.
unfoldable pub bucket_capacity : ℕ → ℕ
bucket_capacity n =
    let want = max (n * 10 / 7 + 1) (n + 1) in
    max (elim (next_power_of_two 64 1 want) [ none ↦ want | some p ↦ p ]) 2

abbrev pub view_of_csr : CsrNode → NodeView
view_of_csr node = record {
  name = node.name;
  kind = node.kind;
  base_weight = node.base_weight;
  noise_penalty = node.noise_penalty;
  pagerank_weight = node.pagerank_weight;
  metadata = node.metadata;
}

abbrev pub neighbor_to : CsrNode → CsrEdge → NeighborView
neighbor_to other edge = record {
  target_name = other.name;
  edge_kind = edge.kind;
  field_name = edge.field_name;
  edge_weight = edge.base_weight;
  valid_from = edge.valid_from;
  valid_to = edge.valid_to;
  acl = edge.acl;
}

-- The `while` that looks for an empty slot, in at most as many rounds as there are slots.
unfoldable pub free_slot : List ℕ → ℕ → ℕ → ℕ → ℕ
free_slot buckets mask zero slot = slot
free_slot buckets mask (suc rounds) slot =
    let next = free_slot buckets mask rounds (bit_and (slot + 1) mask) in
    elim (get_elem? buckets slot) [
      | none ↦ slot
      | some b ↦ if b == empty_bucket then slot else next
    ]

module _ (as_bytes : String → List ℕ) where
  unfoldable pub fill_buckets : ℕ → ℕ → List NodeData → List ℕ → List ℕ
  fill_buckets mask i [] buckets = buckets
  fill_buckets mask i (node ∷ nodes) buckets =
      let home = bit_and (fnv1a (as_bytes node.name)) mask in
      fill_buckets mask (i + 1) nodes
        (set buckets (free_slot buckets mask (length buckets) home) (i % 2 ^ 32))

  unfoldable pub build_name_buckets : List NodeData → List ℕ
  build_name_buckets nodes =
      let m = bucket_capacity (length nodes) in
      fill_buckets (m - 1) 0 nodes (replicate m empty_bucket)

  -- the probe: `rounds` slots from `slot` on
  unfoldable pub probe : SerializableGraphV2 → String → ℕ → ℕ → ℕ → Option ℕ
  probe a name mask zero slot = none
  probe a name mask (suc rounds) slot =
      let next = probe a name mask rounds (bit_and (slot + 1) mask) in
      elim (get_elem? a.name_buckets slot) [
        | none ↦ none
        | some bucket ↦ if bucket == empty_bucket then none else (elim (get_elem? a.nodes bucket) [
          | none ↦ none
          | some node ↦ if node.name == name then some bucket else next
        ])
      ]

  unfoldable pub idx_of : SerializableGraphV2 → String → Option ℕ
  idx_of a name =
      let m = length a.name_buckets in
      if m == 0 then none else probe a name (m - 1) m (bit_and (fnv1a (as_bytes name)) (m - 1))

-- The loop over the positions from `k` on: a position without an edge ends it, an edge without a node
-- is left out.
unfoldable pub outgoing_range : SerializableGraphV2 → ℕ → ℕ → List NeighborView
outgoing_range a zero k = []
outgoing_range a (suc count) k =
    let rest = outgoing_range a count (k + 1) in
    elim (get_elem? a.edges k) [
      | none ↦ []
      | some edge ↦ elim (get_elem? a.nodes edge.to_idx) [
        | none ↦ rest
        | some target ↦ neighbor_to target edge ∷ rest
      ]
    ]

unfoldable pub incoming_range : SerializableGraphV2 → ℕ → ℕ → List NeighborView
incoming_range a zero k = []
incoming_range a (suc count) k =
    let rest = incoming_range a count (k + 1) in
    elim (get_elem? a.in_mirror k) [
      | none ↦ []
      | some m ↦ elim (get_elem? a.edges m) [
        | none ↦ rest
        | some edge ↦ elim (get_elem? a.nodes edge.from_idx) [
          | none ↦ rest
          | some source ↦ neighbor_to source edge ∷ rest
        ]
      ]
    ]

-- The two offsets of a node, if both are there, and what lies between them.
unfoldable pub between : (ℕ → ℕ → List NeighborView) → List ℕ → ℕ → List NeighborView
between range offsets idx = elim (get_elem? offsets idx) [
  | none ↦ []
  | some lo ↦ elim (get_elem? offsets (idx + 1)) [ none ↦ [] | some hi ↦ range (hi - lo) lo ]
]

module _ (as_bytes : String → List ℕ) where
  -- `impl GraphAccessor for ArchivedCsrView`
  unfoldable pub csr_accessor : SerializableGraphV2 → GraphAccessor
  csr_accessor a = record {
    node_count = length a.nodes;
    edge_count = length a.edges;
    get_node = λ name. elim (idx_of as_bytes a name) [
      | none ↦ none
      | some idx ↦ elim (get_elem? a.nodes idx) [
        | none ↦ none
        | some node ↦ some (view_of_csr node)
      ]
    ];
    outgoing_neighbors = λ name. elim (idx_of as_bytes a name) [
      | none ↦ []
      | some idx ↦ between (outgoing_range a) a.node_offsets idx
    ];
    incoming_neighbors = λ name. elim (idx_of as_bytes a name) [
      | none ↦ []
      | some idx ↦ between (incoming_range a) a.in_offsets idx
    ];
  }

unfoldable pub csr_names : SerializableGraphV2 → List String
csr_names a = map (λ n. n.name) a.nodes
