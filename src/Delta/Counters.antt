-- ===== src/Delta/Counters.antt =====
-- The counters of the overlay of src/delta.rs as a full recount gives them, and the operations that
-- lay or clear no tombstone.
use orpheusgraph.Prelude.{
  ℕ, ◌+◌, ◌-◌, ◌≡◌, Bool, false, not, ◌&&◌, String, List, [], ◌∷◌, if◌then◌else◌, is_some, count,
  arith, string_eq, count-append, Bool-cases, inl, inr,
}
use orpheusgraph.HashSet.{contains, insert, remove, Distinct, contains-remove, count-remove}
use orpheusgraph.IndexMap.{IndexMap}
use orpheusgraph.Types.{NodeData, EdgeData}
use orpheusgraph.Accessor.{GraphAccessor, NeighborView}
use orpheusgraph.Delta.Defs.{key_eq, GraphDelta}
use orpheusgraph.Delta.Mutators.{
  edge_key, mask_each, unmask_each, drop_shadow, kill_incident, add_edge, kill_matching,
  remove_edge, count_live_base_edges_matching,
}
use orpheusgraph.Delta.Kills.{count_live, kill_each-live}
use orpheusgraph.Delta.Masked.{masked_by}

pub mask_each-count :
    (skip : NeighborView → Bool) (nbs : List NeighborView) (n : ℕ)
    → mask_each skip nbs n ≡ n + count (λ nb. not (skip nb)) nbs
unfolding mask_each
mask_each-count skip [] n = omega arith
mask_each-count skip (nb ∷ nbs) n =
    ground (arith, mask_each-count skip nbs (if skip nb then n else n + 1))

pub unmask_each-count :
    (skip : NeighborView → Bool) (nbs : List NeighborView) (n : ℕ)
    → unmask_each skip nbs n ≡ n - count (λ nb. not (skip nb)) nbs
unfolding unmask_each
unmask_each-count skip [] n = omega arith
unmask_each-count skip (nb ∷ nbs) n =
    ground (arith, unmask_each-count skip nbs (if skip nb then n else n - 1))

module _ ⦃im : IndexMap String NodeData⦄ where
  abbrev pub in_base : GraphAccessor → String → Bool
  in_base base x = is_some (base.get_node x)

  pub record IsCounted (base : GraphAccessor) (d : GraphDelta) : Type 0 where
    pub nodes_distinct : Distinct d.removed_nodes
    pub edges_distinct : Distinct d.removed_edges
    pub disjoint :
        (k : String) → (contains (im.keys d.added_nodes) k && contains d.removed_nodes k) ≡ false
    pub tbh : d.tombstone_base_hits ≡ count (in_base base) d.removed_nodes
    pub anb : d.added_non_base ≡ count (λ k. not (in_base base k)) (im.keys d.added_nodes)
    pub masked : d.masked_base_edge_count ≡ masked_by base d.removed_nodes d.removed_edges
    pub live : d.live_delta_edge_count ≡ count_live d.added_edges

  module _ (base : GraphAccessor) where
    pub kill_incident-IsCounted :
        (name : String) (d : GraphDelta) → IsCounted base d → IsCounted base (kill_incident name d)
    unfolding kill_incident
    kill_incident-IsCounted name d h = record {
      nodes_distinct = h.nodes_distinct;
      edges_distinct = h.edges_distinct;
      disjoint = h.disjoint;
      tbh = h.tbh;
      anb = h.anb;
      masked = h.masked;
      live = kill_each-live _ _ d.added_edges d.live_delta_edge_count h.live;
    }

    kill_matching-IsCounted :
        (from to kind : String) (d : GraphDelta)
        → IsCounted base d
        → IsCounted base (kill_matching from to kind d)
    unfolding kill_matching
    kill_matching-IsCounted from to kind d h = record {
      nodes_distinct = h.nodes_distinct;
      edges_distinct = h.edges_distinct;
      disjoint = h.disjoint;
      tbh = h.tbh;
      anb = h.anb;
      masked = h.masked;
      live = kill_each-live _ _ d.added_edges d.live_delta_edge_count h.live;
    }

    pub add_edge-IsCounted :
        (from to : String) (edge : EdgeData) (d : GraphDelta)
        → IsCounted base d
        → IsCounted base (add_edge from to edge d)
    unfolding add_edge
    add_edge-IsCounted from to edge d h = record {
      nodes_distinct = h.nodes_distinct;
      edges_distinct = h.edges_distinct;
      disjoint = h.disjoint;
      tbh = h.tbh;
      anb = h.anb;
      masked = h.masked;
      live = omega (arith, h.live, count-append (λ e. not e.dead) d.added_edges _);
    }

    masked-cut :
        (from to kind : String) (d : GraphDelta)
        → IsCounted base d
        → contains d.removed_edges (edge_key from to kind) ≡ false
        → d.masked_base_edge_count + count_live_base_edges_matching base d from to kind
          ≡ masked_by base d.removed_nodes (edge_key from to kind ∷ d.removed_edges)
    unfolding count_live_base_edges_matching
    masked-cut from to kind d h e = ground (arith, h.masked)

    pub remove_edge-IsCounted :
        (from to kind : String) (d : GraphDelta)
        → IsCounted base d
        → IsCounted base (remove_edge base from to kind d)
    unfolding remove_edge insert
    remove_edge-IsCounted from to kind d h =
        let d1 = kill_matching from to kind d in
        let h1 = kill_matching-IsCounted from to kind d h in
        elim (Bool-cases (contains d1.removed_edges (edge_key from to kind))) [
          | inl r ↦ rw r h1
          | inr r ↦ rw r (record {
            nodes_distinct = h1.nodes_distinct;
            edges_distinct = (r, h1.edges_distinct);
            disjoint = h1.disjoint;
            tbh = h1.tbh;
            anb = h1.anb;
            masked = masked-cut from to kind d1 h1 r;
            live = h1.live;
          })
        ]

    pub drop_shadow-IsCounted :
        (name : String) (d : GraphDelta)
        → IsCounted base d
        → IsCounted base (drop_shadow base name d)
    unfolding drop_shadow remove
    drop_shadow-IsCounted name d h =
        let keys = im.keys d.added_nodes in
        record {
          nodes_distinct = h.nodes_distinct;
          edges_distinct = h.edges_distinct;
          disjoint = λ k.
              rw im.keys-shift_remove (ground (arith, contains-remove keys name k, h.disjoint k));
          tbh = h.tbh;
          anb = rw im.keys-shift_remove (
              ground (
                arith,
                h.anb,
                count-remove (λ k. not (in_base base k)) keys name (im.keys-Distinct d.added_nodes),
                im.is_some-get d.added_nodes name,
              ));
          masked = h.masked;
          live = h.live;
        }

    pub shadow_dropped :
        (name : String) (d : GraphDelta)
        → contains (im.keys (drop_shadow base name d).added_nodes) name ≡ false
    unfolding drop_shadow remove
    shadow_dropped name d = rw im.keys-shift_remove (
        ground
          (arith, contains-remove (im.keys d.added_nodes) name name, string_eq.beq_iff name name))
