-- ===== src/Delta/Recounted.antt =====
-- `debug_check_invariants` of src/delta.rs after a `replay` from the empty overlay.
use orpheusgraph.Prelude.{
  ◌+◌, ◌≡◌, refl, Bool, true, false, not, ◌&&◌, String, List, [], ◌∷◌, if◌then◌else◌, is_some,
  length, arith, sum_over-ext, sum_over-add, Option-cases, inl, inr, string_eq,
}
use orpheusgraph.HashSet.{contains}
use orpheusgraph.IndexMap.{IndexMap}
use orpheusgraph.Types.{NodeData}
use orpheusgraph.Accessor.{GraphAccessor}
use orpheusgraph.Delta.Defs.{Op, key_eq, GraphDelta, new}
use orpheusgraph.Delta.Mutators.{count_live_base_edges_matching}
use orpheusgraph.Delta.Apply.{step, replay}
use orpheusgraph.Delta.Recount.{
  node_masked, edge_only_masked, recompute_counts, all_of, debug_check_invariants,
}
use orpheusgraph.Delta.Masked.{IsConsistent, masked_by, into_from_alive}
use orpheusgraph.Delta.Counters.{IsCounted}
use orpheusgraph.Delta.Tombstones.{step-IsCounted}

module _ ⦃im : IndexMap String NodeData⦄ (base : GraphAccessor) (c : IsConsistent base) where
  -- a name that is no node of the base adds nothing, tested for or not
  node_term :
      (r : List String) (n : String)
      → (if not (is_some (base.get_node n))
          then 0
          else (length (base.outgoing_neighbors n) + into_from_alive base r n))
        ≡ length (base.outgoing_neighbors n) + into_from_alive base r n
  node_term r n = elim (Option-cases (base.get_node n)) [
    | inl e ↦ rw (e, c.out_of_node n e, c.into_node n e)
    | inr (v, e) ↦ rw e
  ]

  masked-recount :
      (d : GraphDelta)
      → node_masked base d.removed_nodes + edge_only_masked base d
        ≡ masked_by base d.removed_nodes d.removed_edges
  unfolding node_masked edge_only_masked count_live_base_edges_matching
  masked-recount d =
      let r = d.removed_nodes in
      let leave = λ (n : String). length (base.outgoing_neighbors n) in
      omega (
        arith,
        sum_over-ext _ (λ n. leave n + into_from_alive base r n) (node_term r) r,
        sum_over-add leave (into_from_alive base r) r,
      )

  all_of-contains :
      (q : String → Bool) (ks : List String)
      → ((k : String) → (contains ks k && q k) ≡ false)
      → all_of (λ k. not (q k)) ks ≡ true
  unfolding contains
  all_of-contains q [] h = refl
  all_of-contains q (k ∷ ks) h =
      ground (arith, h k, string_eq.beq_iff k k, all_of-contains q ks (λ j. ground (arith, h j)))

  IsCounted-check : (d : GraphDelta) → IsCounted base d → debug_check_invariants base d ≡ true
  unfolding debug_check_invariants recompute_counts
  IsCounted-check d h = ground (
    arith,
    all_of-contains (contains d.removed_nodes) (im.keys d.added_nodes) h.disjoint,
    h.tbh,
    h.anb,
    h.masked,
    masked-recount d,
    h.live,
  )

  new-IsCounted : IsCounted base new
  unfolding contains
  new-IsCounted = record {
    nodes_distinct = tt;
    edges_distinct = tt;
    disjoint = λ k. rw im.keys-default;
    tbh = refl;
    anb = rw im.keys-default;
    masked = refl;
    live = refl;
  }

  -- Any replay keeps what the counters promise.
  pub replay-IsCounted :
      (ops : List Op) (d : GraphDelta) → IsCounted base d → IsCounted base (replay base ops d)
  unfolding replay
  replay-IsCounted [] d h = h
  replay-IsCounted (op ∷ ops) d h =
      replay-IsCounted ops (step base op d) (step-IsCounted base c op d h)

  -- Over a base whose edges are listed at both ends, after any replay from the empty overlay every counter is what the full recount gives and no name is
  -- both shadowed and tombstoned: none of the debug assertions fails.
  pub debug_check_invariants-replay :
      (ops : List Op) → debug_check_invariants base (replay base ops new) ≡ true
  debug_check_invariants-replay ops =
      IsCounted-check (replay base ops new) (replay-IsCounted ops new new-IsCounted)
