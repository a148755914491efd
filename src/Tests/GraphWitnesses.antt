-- ===== src/Tests/GraphWitnesses.antt =====
-- The accessor of src/accessor.rs over a graph of lists: two nodes and an edge between them.
use orpheusgraph.Prelude.{
  ℕ, ◌≡◌, Bool, Option, none, some, List, [], ◌∷◌, length, get_elem?, filter, map, ◌==◌, nat_eq,
  string_eq,
}
use orpheusgraph.Types.{NodeData}
use orpheusgraph.Graph.{
  Direction, EdgeRef, DiGraph, OrpheusGraphInner, get_node, outgoing_edges, incoming_edges,
  inner_accessor, view_of, from_source, from_target, inner_accessor_lem,
}
use orpheusgraph.Tests.Sample.{node, edge}

abbrev Listed : Type 0
Listed = List NodeData × List EdgeRef

abbrev node_or : Option NodeData → NodeData
node_or none = node ""
node_or (some n) = n

abbrev leaves : ℕ → Direction → EdgeRef → Bool
leaves idx Direction.outgoing e = e.source == idx
leaves idx Direction.incoming e = e.target == idx

instance abbrev listed : DiGraph Listed
listed = record {
  node_count = λ g. length g.0;
  edge_count = λ g. length g.1;
  node_at = λ g idx. node_or (get_elem? g.0 idx);
  edges_directed = λ g idx direction. filter (leaves idx direction) g.1;
}

abbrev pair : OrpheusGraphInner Listed
pair = record {
  graph = (node "a" ∷ node "b" ∷ [], record { source = 0; target = 1; weight = edge [] } ∷ []);
  index_map = record { pairs = ("a", 0) ∷ ("b", 1) ∷ [] };
}

inner_accessor_lem_example :
    ((inner_accessor pair).outgoing_neighbors "a" ≡ map from_source (outgoing_edges pair "a"))
    × (((inner_accessor pair).incoming_neighbors "a" ≡ map from_target (incoming_edges pair "a"))
        × ((inner_accessor pair).get_node "a" ≡ view_of (get_node pair "a")))
inner_accessor_lem_example = inner_accessor_lem pair "a"
