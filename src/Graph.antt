-- ===== src/Graph.antt =====
-- src/graph.rs and the accessor of src/accessor.rs over it. The crate petgraph is a parameter.
use orpheusgraph.Prelude.{
  ℕ, ◌≡◌, refl, sym, String, Option, none, some, List, [], ◌∷◌, map, arith, Option-cases, inl, inr,
  string_eq,
}
use orpheusgraph.HashMap
use orpheusgraph.HashMap.{HashMap}
use orpheusgraph.Types.{NodeData, EdgeData, F32}
use orpheusgraph.Accessor.{NodeView, view_of_node, NeighborView, GraphAccessor}

pub data Direction : Type 0 where
  outgoing : Direction
  incoming : Direction

pub record EdgeRef : Type 0 where
  pub source : ℕ
  pub target : ℕ
  pub weight : EdgeData

-- `DiGraph<NodeData, EdgeData>`: `node_at` is the indexing `graph[idx]`, with indices that the graph gave.
pub record DiGraph (G : Type 0) : Type 0 where
  pub node_count : G → ℕ
  pub edge_count : G → ℕ
  pub node_at : G → ℕ → NodeData
  pub edges_directed : G → ℕ → Direction → List EdgeRef

pub record EdgeResult : Type 0 where
  pub source : String
  pub target : String
  pub kind : String
  pub field_name : Option String
  pub weight : F32
  pub valid_from : Option ℕ
  pub valid_to : Option ℕ
  pub acl : List String

pub record OrpheusGraphInner (G : Type 0) : Type 0 where
  pub graph : G
  pub index_map : HashMap String ℕ

abbrev pub edge_result : String → String → EdgeData → EdgeResult
edge_result source target edge_data = record {
  source = source;
  target = target;
  kind = edge_data.kind;
  field_name = edge_data.field_name;
  weight = edge_data.base_weight;
  valid_from = edge_data.valid_from;
  valid_to = edge_data.valid_to;
  acl = edge_data.acl;
}

abbrev pub other_end : Direction → EdgeRef → ℕ
other_end Direction.outgoing e = e.target
other_end Direction.incoming e = e.source

abbrev pub view_of : Option NodeData → Option NodeView
view_of none = none
view_of (some n) = some (view_of_node n)

-- An edge as its source sees it, and as its target does.
abbrev pub from_source : EdgeResult → NeighborView
from_source r = record {
  target_name = r.target;
  edge_kind = r.kind;
  field_name = r.field_name;
  edge_weight = r.weight;
  valid_from = r.valid_from;
  valid_to = r.valid_to;
  acl = r.acl;
}

abbrev pub from_target : EdgeResult → NeighborView
from_target r = record (from_source r) { target_name = r.source }

map-map :
    {A B C : Type 0} (f : B → C) (k : A → B) (h : A → C)
    → ((a : A) → f (k a) ≡ h a)
    → (xs : List A) → map f (map k xs) ≡ map h xs
map-map f k h e [] = refl
map-map f k h e (x ∷ xs) = rw (e x, map-map f k h e xs) refl

module _ {G : Type 0} ⦃dg : DiGraph G⦄ where
  unfoldable pub get_index : OrpheusGraphInner G → String → Option ℕ
  get_index g name = HashMap.get g.index_map name

  unfoldable pub get_node : OrpheusGraphInner G → String → Option NodeData
  get_node g name = elim (HashMap.get g.index_map name) [
    | none ↦ none
    | some idx ↦ some (dg.node_at g.graph idx)
  ]

  unfoldable pub outgoing_edges : OrpheusGraphInner G → String → List EdgeResult
  outgoing_edges g name = elim (HashMap.get g.index_map name) [
    | none ↦ []
    | some idx ↦
        map
          (λ e.
            edge_result (dg.node_at g.graph idx).name (dg.node_at g.graph e.target).name e.weight)
          (dg.edges_directed g.graph idx Direction.outgoing)
  ]

  unfoldable pub incoming_edges : OrpheusGraphInner G → String → List EdgeResult
  incoming_edges g name = elim (HashMap.get g.index_map name) [
    | none ↦ []
    | some idx ↦
        map
          (λ e.
            edge_result (dg.node_at g.graph e.source).name (dg.node_at g.graph idx).name e.weight)
          (dg.edges_directed g.graph idx Direction.incoming)
  ]

  abbrev pub neighbor_of : G → Direction → EdgeRef → NeighborView
  neighbor_of graph direction e = record {
    target_name = (dg.node_at graph (other_end direction e)).name;
    edge_kind = e.weight.kind;
    field_name = e.weight.field_name;
    edge_weight = e.weight.base_weight;
    valid_from = e.weight.valid_from;
    valid_to = e.weight.valid_to;
    acl = e.weight.acl;
  }

  unfoldable pub graph_neighbors : G → HashMap String ℕ → String → Direction → List NeighborView
  graph_neighbors graph index_map name direction = elim (HashMap.get index_map name) [
    | none ↦ []
    | some idx ↦ map (neighbor_of graph direction) (dg.edges_directed graph idx direction)
  ]

  -- `impl GraphAccessor for OrpheusGraphInner`
  unfoldable pub inner_accessor : OrpheusGraphInner G → GraphAccessor
  inner_accessor g = record {
    node_count = dg.node_count g.graph;
    edge_count = dg.edge_count g.graph;
    get_node = λ name. elim (get_index g name) [
      | none ↦ none
      | some idx ↦ some (view_of_node (dg.node_at g.graph idx))
    ];
    outgoing_neighbors = λ name. graph_neighbors g.graph g.index_map name Direction.outgoing;
    incoming_neighbors = λ name. graph_neighbors g.graph g.index_map name Direction.incoming;
  }

  -- What traversals read of a graph is what the inspection calls answer: its neighbours are the edges of
  -- either direction seen from the node, in the same order, and its nodes the same.
  pub inner_accessor_lem :
      (g : OrpheusGraphInner G) (name : String)
      → ((inner_accessor g).outgoing_neighbors name ≡ map from_source (outgoing_edges g name))
        × (((inner_accessor g).incoming_neighbors name ≡ map from_target (incoming_edges g name))
            × ((inner_accessor g).get_node name ≡ view_of (get_node g name)))
  unfolding inner_accessor graph_neighbors outgoing_edges incoming_edges get_node get_index
  inner_accessor_lem g name = elim (Option-cases (HashMap.get g.index_map name)) [
    | inl r ↦ (ground (arith, r), (ground (arith, r), ground (arith, r)))
    | inr (idx, r) ↦ (
      rw (r, graph_neighbors, outgoing_edges)
          (sym (
            map-map from_source _ (neighbor_of g.graph Direction.outgoing) (λ e. refl)
              (dg.edges_directed g.graph idx Direction.outgoing))),
      (
        rw (r, graph_neighbors, incoming_edges)
            (sym (
              map-map from_target _ (neighbor_of g.graph Direction.incoming) (λ e. refl)
                (dg.edges_directed g.graph idx Direction.incoming))),
        ground (arith, r),
      ),
    )
  ]
