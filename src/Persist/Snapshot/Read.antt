-- ===== src/Persist/Snapshot/Read.antt =====
-- The accessor over a snapshot that passed `validate_csr` reads the edges of a node.
use orpheusgraph.Prelude.{
  ℕ, ◌+◌, ◌-◌, ◌≡◌, ◌<◌, sym, ap, ◌∙◌, ◌&&◌, String, some, List, length, leb, ltb, get_elem?,
  filter, count, arith, ◌==◌, nat_eq, Option-cases, inl, inr,
}
use orpheusgraph.Persist.Error.{Result, ok}
use orpheusgraph.Persist.Snapshot.{
  CsrNode, CsrEdge, SerializableGraphV2, idx_of, outgoing_range, incoming_range, between,
  csr_accessor,
}
use orpheusgraph.Persist.Snapshot.Buckets.{check_sorted, check_buckets}
use orpheusgraph.Persist.Snapshot.Validate.{
  check_endpoints, check_offsets, check_group, check_in_group, check_groups, check_mirror,
  validate_csr,
}
use orpheusgraph.Persist.Snapshot.Mirror.{check_mirror-once}
use orpheusgraph.Persist.Snapshot.Offsets.{
  off, IsOffsets, after_ok, check_offsets-IsOffsets, owner_range, group_of,
}
use orpheusgraph.Persist.Snapshot.Groups.{
  outgoing_views, incoming_views, leads_to, filter-range, outgoing_range-views,
  incoming_range-views, idx_of_lem, get_lt, check_groups-each, check_group-each,
  check_in_group-each,
}

module _ (E : Type 0) (as_bytes : String → List ℕ) (a : SerializableGraphV2) where
  -- what the checks of offsets and groups say of an array of offsets
  record IsGrouped (group : ℕ → ℕ → ℕ → Result E Unit) (e : ℕ) (offsets : List ℕ) : Type 0 where
    pub cut : IsOffsets (length a.nodes) e offsets
    pub each :
        (j : ℕ)
        → j < length a.nodes
        → group j (off offsets (j + 1) - off offsets j) (off offsets j) ≡ ok tt

  record IsValid : Type 0 where
    pub outgoing : IsGrouped (check_group a.edges) (length a.edges) a.node_offsets
    pub incoming : IsGrouped (check_in_group a.edges a.in_mirror) (length a.edges) a.in_offsets
    pub mirror : length a.in_mirror ≡ length a.edges
    pub once : (k : ℕ) → k < length a.edges → count (λ m. m == k) a.in_mirror ≡ 1

  validate_csr-IsValid : validate_csr {E = E} as_bytes a ≡ ok tt → IsValid
  unfolding validate_csr check_mirror
  validate_csr-IsValid h =
      let n = length a.nodes in
      let e = length a.edges in
      let (_, (_, h1)) = after_ok (check_sorted a.nodes) _ tt h in
      let (_, (_, h2)) = after_ok (check_buckets as_bytes a) _ tt h1 in
      let (_, (_, h3)) = after_ok (check_endpoints n a.edges) _ tt h2 in
      let (_, (out, h4)) = after_ok (check_offsets n e a.node_offsets) _ tt h3 in
      let (_, (groups, h5)) =
        after_ok (check_groups (check_group a.edges) a.node_offsets n 0) _ tt h4 in
      let (_, (inc, h6)) = after_ok (check_offsets n e a.in_offsets) _ tt h5 in
      let (_, (mir, h7)) = after_ok (check_mirror e a.in_mirror) _ tt h6 in
      record {
        outgoing = record {
          cut = check_offsets-IsOffsets E n e a.node_offsets out;
          each = λ j lt.
              check_groups-each E (check_group a.edges) a.node_offsets n 0 groups j (omega arith)
                (omega arith);
        };
        incoming = record {
          cut = check_offsets-IsOffsets E n e a.in_offsets inc;
          each = λ j lt.
              check_groups-each E (check_in_group a.edges a.in_mirror) a.in_offsets n 0 h7 j
                (omega arith) (omega arith);
        };
        mirror = ground (arith, mir);
        once = check_mirror-once E e a.in_mirror mir;
      }

  edge_owner :
      IsValid
      → (idx : ℕ) → idx < length a.nodes
      → (k : ℕ) (edge : CsrEdge) → get_elem? a.edges k ≡ some edge
      → (edge.from_idx == idx) ≡ (
          leb (off a.node_offsets idx) k
          && ltb k
              (off a.node_offsets idx + (off a.node_offsets (idx + 1) - off a.node_offsets idx)))
  edge_owner v idx lt k edge g =
      owner_range (length a.nodes) (length a.edges) a.node_offsets v.outgoing.cut k edge.from_idx
        idx (get_lt a.edges k edge g)
        (λ j jn lo hi.
          check_group-each E a.edges j (off a.node_offsets (j + 1) - off a.node_offsets j)
            (off a.node_offsets j) (v.outgoing.each j jn) k lo (omega arith) edge g)
        lt

  mirror_owner :
      IsValid
      → (idx : ℕ) → idx < length a.nodes
      → (k m : ℕ) → get_elem? a.in_mirror k ≡ some m
      → leads_to a idx m ≡ (
          leb (off a.in_offsets idx) k
          && ltb k (off a.in_offsets idx + (off a.in_offsets (idx + 1) - off a.in_offsets idx)))
  unfolding leads_to
  mirror_owner v idx lt k m g =
      let inside : k < length a.edges = omega (arith, get_lt a.in_mirror k m g, v.mirror) in
      let group = check_in_group-each E a in
      elim (Option-cases (get_elem? a.edges m)) [
        | inl o ↦
            let (j, (jn, (lo, hi))) =
              group_of (length a.nodes) (length a.edges) a.in_offsets v.incoming.cut
                (length a.nodes) (omega arith) k (omega (arith, v.incoming.cut.sentinel)) in
            let (edge, (there, _)) =
              group j (off a.in_offsets (j + 1) - off a.in_offsets j) (off a.in_offsets j)
                (v.incoming.each j jn) k lo (omega arith) m g in
            ground (arith, o, there)
        | inr (edge, o) ↦
            let owned =
              owner_range (length a.nodes) (length a.edges) a.in_offsets v.incoming.cut k
                edge.to_idx idx inside
                (λ j jn lo hi.
                  let (other, (there, leads)) =
                    group j (off a.in_offsets (j + 1) - off a.in_offsets j) (off a.in_offsets j)
                      (v.incoming.each j jn) k lo (omega arith) m g in
                  ground (arith, o, there, leads))
                lt in
            ground (arith, o, owned)
      ]

  -- what the accessor reads of the node at a position
  pub record IsRead (name : String) (idx : ℕ) : Type 0 where
    pub node : CsrNode
    pub stored : get_elem? a.nodes idx ≡ some node
    pub named : node.name ≡ name
    pub outgoing :
        (csr_accessor as_bytes a).outgoing_neighbors name
        ≡ outgoing_views a (filter (λ edge. edge.from_idx == idx) a.edges)
    pub incoming :
        (csr_accessor as_bytes a).incoming_neighbors name
        ≡ incoming_views a (filter (leads_to a idx) a.in_mirror)
    pub once : (k : ℕ) → k < length a.edges → count (λ m. m == k) a.in_mirror ≡ 1

  -- In a snapshot that passed the sweep, a name that the hash table leads to a position is the name of the
  -- node there; its outgoing neighbours are read from exactly the edges with that source, in the order of
  -- the file, and its incoming neighbours from exactly the positions of the mirror whose edges have it as
  -- target; the
  -- mirror has each position of an edge once.
  pub validate_csr-IsRead :
      validate_csr {E = E} as_bytes a ≡ ok tt
      → (name : String) (idx : ℕ) → idx_of as_bytes a name ≡ some idx
      → IsRead name idx
  unfolding csr_accessor between
  validate_csr-IsRead h name idx found =
      let v = validate_csr-IsValid h in
      let (node, (there, named)) = idx_of_lem as_bytes a name idx found in
      let lt = get_lt a.nodes idx node there in
      let outs = v.outgoing.cut.there in
      let ins = v.incoming.cut.there in
      let lo = off a.node_offsets idx in
      let in_lo = off a.in_offsets idx in
      record {
        node = node;
        stored = there;
        named = named;
        once = v.once;
        outgoing =
            let at : (csr_accessor as_bytes a).outgoing_neighbors name
                ≡ outgoing_range a (off a.node_offsets (idx + 1) - lo) lo =
              ground (arith, found, outs idx (omega arith), outs (idx + 1) (omega arith)) in
            at
            ∙ (outgoing_range-views a (off a.node_offsets (idx + 1) - lo) lo
                ∙ ap (outgoing_views a) (
                    sym (
                      filter-range (λ edge. edge.from_idx == idx) a.edges lo
                        (off a.node_offsets (idx + 1) - lo) (edge_owner v idx lt))));
        incoming =
            let at : (csr_accessor as_bytes a).incoming_neighbors name
                ≡ incoming_range a (off a.in_offsets (idx + 1) - in_lo) in_lo =
              ground (arith, found, ins idx (omega arith), ins (idx + 1) (omega arith)) in
            at
            ∙ (incoming_range-views a (off a.in_offsets (idx + 1) - in_lo) in_lo
                ∙ ap (incoming_views a) (
                    sym (
                      filter-range (leads_to a idx) a.in_mirror in_lo
                        (off a.in_offsets (idx + 1) - in_lo) (mirror_owner v idx lt))));
      }
