-- ===== src/Tests/Sample.antt =====
-- A small base graph and a batch of operations: a → b, b → b, c → a, with one kind of edge.
use orpheusgraph.Prelude.{String, Option, none, some, List, [], ◌∷◌, ◌==◌, string_eq, if◌then◌else◌}
use orpheusgraph.IndexMap.Association.{association}
use orpheusgraph.Types.{NodeData, EdgeData}
use orpheusgraph.Accessor.{GraphAccessor, NodeView, NeighborView, view_of_node}
use orpheusgraph.Delta.Defs.{Op}

abbrev pub node : String → NodeData
node name = record {
  name = name;
  kind = "model";
  metadata = [];
  base_weight = 7;
  noise_penalty = 0;
  pagerank_weight = 0;
}

abbrev pub edge : List String → EdgeData
edge acl = record {
  kind = "rel";
  field_name = none;
  base_weight = 1;
  valid_from = none;
  valid_to = none;
  acl = acl;
}

abbrev pub neighbor : String → NeighborView
neighbor name = record {
  target_name = name;
  edge_kind = "rel";
  field_name = none;
  edge_weight = 1;
  valid_from = none;
  valid_to = none;
  acl = [];
}

abbrev pub sample_nodes : String → Option NodeView
sample_nodes x =
    if x == "a"
    then some (view_of_node (node "a"))
    else if x == "b"
    then some (view_of_node (node "b"))
    else if x == "c"
    then some (view_of_node (node "c"))
    else none

-- The edges of one kind, by their ends, as the lists of neighbours that each end sees.
abbrev pub targets : String → List (String × String) → List NeighborView
targets x [] = []
targets x ((from, to) ∷ ends) =
    let rest = targets x ends in if from == x then neighbor to ∷ rest else rest

abbrev pub sources : String → List (String × String) → List NeighborView
sources x [] = []
sources x ((from, to) ∷ ends) =
    let rest = sources x ends in if to == x then neighbor from ∷ rest else rest

abbrev pub sample_ends : List (String × String)
sample_ends = ("a", "b") ∷ ("b", "b") ∷ ("c", "a") ∷ []

abbrev pub sample : GraphAccessor
sample = record {
  node_count = 3;
  edge_count = 3;
  get_node = sample_nodes;
  outgoing_neighbors = λ x. targets x sample_ends;
  incoming_neighbors = λ x. sources x sample_ends;
}

-- A new node with an edge to it, a base node removed, a base edge removed.
abbrev pub batch : List Op
batch =
    Op.upsert_node (node "d")
    ∷ Op.add_edge "a" "d" (edge ("y" ∷ "x" ∷ "y" ∷ []))
    ∷ Op.remove_node "b"
    ∷ Op.remove_edge "c" "a" "rel"
    ∷ []
