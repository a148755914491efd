-- ===== src/Overlay/Defs.antt =====
-- src/overlay.rs: the index over a request's overlay and the neighbours that a query sees.
use orpheusgraph.Prelude.{
  ℕ, Bool, true, false, not, ◌&&◌, String, Option, none, some, List, [], ◌∷◌, ◌++◌, ltb, length,
  filter, map, if◌then◌else◌, ◌==◌, string_eq,
}
use orpheusgraph.HashMap
use orpheusgraph.HashMap.{HashMap, get_or_empty, push_at}
use orpheusgraph.Types.{NodeData, EdgeData, F32}
use orpheusgraph.Types.Context.{DynamicContext, is_edge_visible}
use orpheusgraph.Accessor.{NodeView, view_of_node, NeighborView, GraphAccessor}

-- `a > b` on `f32`, and the zero that a boost is compared with.
pub record FloatOrder : Type 0 where
  pub gt : F32 → F32 → Bool
  pub zero : F32

pub record NeighborEntry : Type 0 where
  pub name : String
  pub edge_kind : String
  pub field_name : Option String
  pub edge_weight : F32
  pub is_overlay : Bool
  pub valid_from : Option ℕ
  pub valid_to : Option ℕ
  pub acl : List String

abbrev pub OverlayEdge : Type 0
OverlayEdge = String × (String × EdgeData)

pub record OverlayIndex : Type 0 where
  pub edges : HashMap String (List OverlayEdge)
  pub nodes : HashMap String NodeData

-- the loop of `build` over the edges
unfoldable pub index_edges :
    List OverlayEdge → HashMap String (List OverlayEdge) → HashMap String (List OverlayEdge)
index_edges [] m = m
index_edges (e ∷ es) m = index_edges es (push_at m e.0 e)

-- `.map(|n| (n.name, n)).collect()`: the pairs are inserted in order
unfoldable pub index_nodes : List NodeData → HashMap String NodeData → HashMap String NodeData
index_nodes [] m = m
index_nodes (n ∷ ns) m = index_nodes ns (HashMap.insert m n.name n)

unfoldable pub build : DynamicContext → OverlayIndex
build ctx = record {
  edges = index_edges ctx.overlay_edges HashMap.new;
  nodes = index_nodes ctx.overlay_nodes HashMap.new;
}

unfoldable pub edges_from : OverlayIndex → String → List OverlayEdge
edges_from index name = get_or_empty index.edges name

abbrev pub entry_of_base : NeighborView → NeighborEntry
entry_of_base neighbor = record {
  name = neighbor.target_name;
  edge_kind = neighbor.edge_kind;
  field_name = neighbor.field_name;
  edge_weight = neighbor.edge_weight;
  is_overlay = false;
  valid_from = neighbor.valid_from;
  valid_to = neighbor.valid_to;
  acl = neighbor.acl;
}

abbrev pub entry_of_overlay : OverlayEdge → NeighborEntry
entry_of_overlay e = record {
  name = e.1.0;
  edge_kind = e.1.1.kind;
  field_name = e.1.1.field_name;
  edge_weight = e.1.1.base_weight;
  is_overlay = true;
  valid_from = e.1.1.valid_from;
  valid_to = e.1.1.valid_to;
  acl = e.1.1.acl;
}

unfoldable pub collect_overlay_edges :
    OverlayIndex → String → List NeighborEntry → List NeighborEntry
collect_overlay_edges index name result = result ++ map entry_of_overlay (edges_from index name)

module _ ⦃fl : FloatOrder⦄ where
  -- Whether the cutoff skips the base edges of a node with the view `v` and the neighbours `nbs`.
  unfoldable pub is_cut : DynamicContext → String → NodeView → List NeighborView → Bool
  is_cut ctx name v nbs = elim ctx.max_fan_out [
    | none ↦ false
    | some max_fan_out ↦
        if ltb max_fan_out (length nbs)
        then (let has_semantic_boost : Bool = elim (HashMap.get ctx.semantic_boosts name) [
          | none ↦ false
          | some b ↦ fl.gt b fl.zero
        ] in
            let has_high_pagerank : Bool = elim ctx.fan_out_pagerank_bypass [
              | none ↦ false
              | some t ↦ fl.gt v.pagerank_weight t
            ] in
            not has_semantic_boost && not has_high_pagerank)
        else false
  ]

  unfoldable pub neighbors_with_overlay_unfiltered :
      GraphAccessor → DynamicContext → OverlayIndex → String → List NeighborEntry
  neighbors_with_overlay_unfiltered graph ctx index name = elim (graph.get_node name) [
    | none ↦ collect_overlay_edges index name []
    | some v ↦
        let base_neighbors = graph.outgoing_neighbors name in
        if is_cut ctx name v base_neighbors
        then collect_overlay_edges index name []
        else collect_overlay_edges index name (map entry_of_base base_neighbors)
  ]

  unfoldable pub neighbors_with_overlay_indexed :
      GraphAccessor → DynamicContext → OverlayIndex → String → List NeighborEntry
  neighbors_with_overlay_indexed graph ctx index name =
      filter (λ n. is_edge_visible ctx n.valid_from n.valid_to n.acl)
        (neighbors_with_overlay_unfiltered graph ctx index name)

  unfoldable pub neighbors_with_overlay :
      GraphAccessor → DynamicContext → String → List NeighborEntry
  neighbors_with_overlay graph ctx name = neighbors_with_overlay_indexed graph ctx (build ctx) name

-- `.iter().find(|n| n.name == name)`
unfoldable pub find_node : String → List NodeData → Option NodeData
find_node name [] = none
find_node name (n ∷ ns) = if n.name == name then some n else find_node name ns

abbrev pub as_view : Option NodeData → Option NodeView
as_view none = none
as_view (some n) = some (view_of_node n)

unfoldable pub resolve_overlay_node : String → DynamicContext → Option NodeView
resolve_overlay_node name ctx = as_view (find_node name ctx.overlay_nodes)

unfoldable pub resolve_overlay_node_indexed : String → OverlayIndex → Option NodeView
resolve_overlay_node_indexed name index = as_view (HashMap.get index.nodes name)
