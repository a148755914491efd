-- ===== src/Delta/View.antt =====
-- `DeltaAccessor` of src/delta.rs: the merged view of a base graph and an overlay.
use orpheusgraph.Prelude.{
  ℕ, ◌+◌, ◌-◌, Bool, true, false, not, ◌&&◌, ◌||◌, String, Option, none, some, List, [], ◌∷◌, ◌++◌,
  if◌then◌else◌, get_elem?, filter, string_eq,
}
use orpheusgraph.HashMap.{get_or_empty}
use orpheusgraph.HashSet.{contains}
use orpheusgraph.IndexMap.{IndexMap}
use orpheusgraph.Types.{NodeData}
use orpheusgraph.Accessor.{GraphAccessor, NodeView, NeighborView, view_of_node}
use orpheusgraph.Delta.Defs.{DeltaEdge, EdgeKey, key_eq, GraphDelta}
use orpheusgraph.Delta.Mutators.{edge_key}

abbrev pub is_nil {ℓ} : {A : Type ℓ} → List A → Bool
is_nil [] = true
is_nil (x ∷ xs) = false

-- The view of a delta edge from its source, and from its target.
abbrev pub outgoing_view : DeltaEdge → NeighborView
outgoing_view e = record {
  target_name = e.to;
  edge_kind = e.edge.kind;
  field_name = e.edge.field_name;
  edge_weight = e.edge.base_weight;
  valid_from = e.edge.valid_from;
  valid_to = e.edge.valid_to;
  acl = e.edge.acl;
}

abbrev pub incoming_view : DeltaEdge → NeighborView
incoming_view e = record {
  target_name = e.from;
  edge_kind = e.edge.kind;
  field_name = e.edge.field_name;
  edge_weight = e.edge.base_weight;
  valid_from = e.edge.valid_from;
  valid_to = e.edge.valid_to;
  acl = e.edge.acl;
}

-- The loop over the positions of an index: what is skipped is left out, the rest is pushed.
unfoldable pub push_each :
    (DeltaEdge → Bool) → (DeltaEdge → NeighborView) → List DeltaEdge → List ℕ → List NeighborView
push_each skip view edges [] = []
push_each skip view edges (p ∷ ps) =
    let rest = push_each skip view edges ps in
    elim (get_elem? edges p) [ none ↦ rest | some e ↦ if skip e then rest else view e ∷ rest ]

module _ ⦃im : IndexMap String NodeData⦄ where
  unfoldable pub is_empty : GraphDelta → Bool
  is_empty d =
      is_nil (im.keys d.added_nodes)
      && is_nil d.added_edges
      && is_nil d.removed_nodes
      && is_nil d.removed_edges

  unfoldable pub node_count : GraphAccessor → GraphDelta → ℕ
  node_count base d = (base.node_count + d.added_non_base) - d.tombstone_base_hits

  unfoldable pub edge_count : GraphAccessor → GraphDelta → ℕ
  edge_count base d = (base.edge_count + d.live_delta_edge_count) - d.masked_base_edge_count

  get_shadow : GraphDelta → String → Option NodeData
  get_shadow d name =
      if not (is_nil (im.keys d.added_nodes)) then im.get d.added_nodes name else none

  unfoldable pub get_node : GraphAccessor → GraphDelta → String → Option NodeView
  unfolding get_shadow
  get_node base d name = elim (get_shadow d name) [
    | some nd ↦ some (view_of_node nd)
    | none ↦
        if not (is_nil d.removed_nodes) && contains d.removed_nodes name
        then none
        else base.get_node name
  ]

  -- the closure of `retain`, by the key of the edge that a neighbour stands for
  unfoldable pub keeps : GraphDelta → (NeighborView → EdgeKey) → NeighborView → Bool
  keeps d key nb =
      if not (is_nil d.removed_nodes) && contains d.removed_nodes nb.target_name
      then false
      else not (not (is_nil d.removed_edges) && contains d.removed_edges (key nb))

  unfoldable pub retain_base :
      GraphDelta → (NeighborView → EdgeKey) → List NeighborView → List NeighborView
  unfolding keeps
  retain_base d key nbs =
      if not (is_nil d.removed_nodes) || not (is_nil d.removed_edges)
      then filter (keeps d key) nbs
      else nbs

  unfoldable pub outgoing_neighbors : GraphAccessor → GraphDelta → String → List NeighborView
  outgoing_neighbors base d name =
      if is_empty d
      then base.outgoing_neighbors name
      else if not (is_nil d.removed_nodes) && contains d.removed_nodes name
      then []
      else (retain_base d (λ nb. edge_key name nb.target_name nb.edge_kind)
            (base.outgoing_neighbors name)
          ++ push_each
              (λ e. e.dead || (not (is_nil d.removed_nodes) && contains d.removed_nodes e.to))
              outgoing_view d.added_edges (get_or_empty d.out_index name))

  unfoldable pub incoming_neighbors : GraphAccessor → GraphDelta → String → List NeighborView
  incoming_neighbors base d name =
      if is_empty d
      then base.incoming_neighbors name
      else if not (is_nil d.removed_nodes) && contains d.removed_nodes name
      then []
      else (retain_base d (λ nb. edge_key nb.target_name name nb.edge_kind)
            (base.incoming_neighbors name)
          ++ push_each
              (λ e. e.dead || (not (is_nil d.removed_nodes) && contains d.removed_nodes e.from))
              incoming_view d.added_edges (get_or_empty d.in_index name))

  -- `DeltaAccessor::new(base, delta)` as the trait object that traversals take
  unfoldable pub accessor : GraphAccessor → GraphDelta → GraphAccessor
  accessor base d = record {
    node_count = node_count base d;
    edge_count = edge_count base d;
    get_node = get_node base d;
    outgoing_neighbors = outgoing_neighbors base d;
    incoming_neighbors = incoming_neighbors base d;
  }
