-- ===== src/Delta/Recount.antt =====
-- The cross-check of src/delta.rs: `recompute_counts` and `debug_check_invariants`, which a debug
-- build runs after every `apply` and `replay`.
use orpheusgraph.Prelude.{
  ℕ, ◌+◌, Bool, true, not, ◌&&◌, String, List, [], ◌∷◌, if◌then◌else◌, is_some, length, count,
  sum_over, nat_beq, string_eq,
}
use orpheusgraph.HashSet.{contains}
use orpheusgraph.IndexMap.{IndexMap}
use orpheusgraph.Types.{NodeData}
use orpheusgraph.Accessor.{GraphAccessor}
use orpheusgraph.Delta.Defs.{key_eq, GraphDelta}
use orpheusgraph.Delta.Mutators.{count_live_base_edges_matching}
use orpheusgraph.Delta.Kills.{count_live}

pub record Counts : Type 0 where
  pub tbh : ℕ
  pub anb : ℕ
  pub masked : ℕ
  pub live : ℕ

abbrev pub all_of {ℓ} : {A : Type ℓ} → (A → Bool) → List A → Bool
all_of p [] = true
all_of p (x ∷ xs) = p x && all_of p xs

module _ ⦃im : IndexMap String NodeData⦄ where
  -- The base edges under a node tombstone, each once: all that leave a tombstoned node of the base,
  -- and those that enter it from a node with no tombstone.
  unfoldable pub node_masked : GraphAccessor → List String → ℕ
  node_masked base removed =
      sum_over
        (λ n.
          if not (is_some (base.get_node n))
          then 0
          else (length (base.outgoing_neighbors n)
              + count (λ nb. not (contains removed nb.target_name)) (base.incoming_neighbors n)))
        removed

  unfoldable pub edge_only_masked : GraphAccessor → GraphDelta → ℕ
  edge_only_masked base d =
      sum_over (λ key. count_live_base_edges_matching base d key.from key.to key.kind)
        d.removed_edges

  unfoldable pub recompute_counts : GraphAccessor → GraphDelta → Counts
  recompute_counts base d = record {
    tbh = count (λ n. is_some (base.get_node n)) d.removed_nodes;
    anb = count (λ n. not (is_some (base.get_node n))) (im.keys d.added_nodes);
    masked = node_masked base d.removed_nodes + edge_only_masked base d;
    live = count_live d.added_edges;
  }

  -- The conjunction of the five assertions.
  unfoldable pub debug_check_invariants : GraphAccessor → GraphDelta → Bool
  debug_check_invariants base d =
      let counts = recompute_counts base d in
      all_of (λ k. not (contains d.removed_nodes k)) (im.keys d.added_nodes)
      && nat_beq d.tombstone_base_hits counts.tbh
      && nat_beq d.added_non_base counts.anb
      && nat_beq d.masked_base_edge_count counts.masked
      && nat_beq d.live_delta_edge_count counts.live
