-- ===== src/Accessor.antt =====
-- src/accessor.rs: the read-only view of a graph that every traversal and the delta consume. The
-- trait object is a record of functions. Graph has the implementation over `petgraph`.
use orpheusgraph.Prelude.{ℕ, String, Option, List}
use orpheusgraph.Types.{F32, Metadata, NodeData}

pub record NodeView : Type 0 where
  pub name : String
  pub kind : String
  pub base_weight : F32
  pub noise_penalty : F32
  pub pagerank_weight : F32
  pub metadata : Metadata

-- `NodeView::from`
abbrev pub view_of_node : NodeData → NodeView
view_of_node n = record {
  name = n.name;
  kind = n.kind;
  base_weight = n.base_weight;
  noise_penalty = n.noise_penalty;
  pagerank_weight = n.pagerank_weight;
  metadata = n.metadata;
}

pub record NeighborView : Type 0 where
  pub target_name : String
  pub edge_kind : String
  pub field_name : Option String
  pub edge_weight : F32
  pub valid_from : Option ℕ
  pub valid_to : Option ℕ
  pub acl : List String

pub record GraphAccessor : Type 0 where
  pub node_count : ℕ
  pub edge_count : ℕ
  pub get_node : String → Option NodeView
  pub outgoing_neighbors : String → List NeighborView
  pub incoming_neighbors : String → List NeighborView
