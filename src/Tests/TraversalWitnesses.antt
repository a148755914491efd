-- ===== src/Tests/TraversalWitnesses.antt =====
-- The queries of src/traversal.rs on a small graph, and each of their properties there.
use orpheusgraph.Prelude.{
  ◌+◌, ◌-◌, ◌*◌, ◌≡◌, refl, true, String, none, some, List, [], ◌∷◌, ◌==◌, ltb, max, map, arith,
  if◌then◌else◌, string_eq, Bool-cases, inl, inr,
}
use Prim.Native.Nat.{min}
use orpheusgraph.HashMap
use orpheusgraph.HashMap.{get_or_empty, find, put}
use orpheusgraph.HashSet.{contains, insert}
use orpheusgraph.Types.Context.{DynamicContext, is_edge_visible, temporal_ok}
use orpheusgraph.Accessor.{GraphAccessor, view_of_node}
use orpheusgraph.Scoring.{Float, compute_score, is_noisy_domain}
use orpheusgraph.Overlay.Defs.{
  FloatOrder, build, index_edges, index_nodes, neighbors_with_overlay,
  neighbors_with_overlay_indexed, neighbors_with_overlay_unfiltered, collect_overlay_edges,
  edges_from, is_cut,
}
use orpheusgraph.Traversal.Lists.{All, All-Among}
use orpheusgraph.Traversal.Sort.{total_key, IsDescending, sort_by, insert_by}
use orpheusgraph.Traversal.Heap.{DijkstraEntry}
use orpheusgraph.Traversal.Score.{IsNamed, score_of}
use orpheusgraph.Traversal.Beam.{
  beam_traverse, levels, expand_level, level_candidates, collect_level, offer_each, offer, mark,
  result_leb,
}
use orpheusgraph.Traversal.Beam.Laws.{IsBeam, beam_traverse-IsBeam}
use orpheusgraph.Traversal.Path.{
  FloatDivision, PathOutcome, start_step, find_path, search, start_search, relax_each, relax,
  is_better, is_stale, edge_cost, reconstruct_path, walk_back, reverse,
}
use orpheusgraph.Traversal.Path.Route.{infinity_bits, FloatLaws, IsAnswer}
use orpheusgraph.Traversal.Path.Ends.{IsListed}
use orpheusgraph.Traversal.Path.Answer.{find_path-IsAnswer}
use orpheusgraph.Traversal.Subgraph.{
  contextual_subgraph, collect_seeds, add_seeds, add_seed, add_neighbors, seeds, boost_leb,
  edge_leb, retain_present,
}
use orpheusgraph.Traversal.Subgraph.Laws.{IsContextual, contextual_subgraph-IsContextual}
use orpheusgraph.Traversal.MultiBeam.{multi_beam_intersection}
use orpheusgraph.Traversal.MultiBeam.Laws.{IsIntersection, multi_beam_intersection-IsIntersection}
use orpheusgraph.Tests.Sample.{node, neighbor}
use orpheusgraph.Tests.ListHeap.{take_least, extract, list_heap, list_heap_laws}

-- Arithmetic that stays below infinity, in place of `f32`.
instance abbrev small : Float
small = record {
  add = λ a b. min (a + b) infinity_bits;
  sub = λ a b. a - b;
  mul = λ a b. a * b;
  maximum = max;
  clamp = λ a low high. min (max a low) high;
  zero = 0;
  one = 1;
  nine_tenths = 1;
}

instance abbrev by_bits : FloatOrder
by_bits = record { gt = λ a b. ltb b a; zero = 0 }

instance abbrev division : FloatDivision
division = record { div = λ a b. a; thousandth = 1 }

small_laws : FloatLaws
small_laws = record {
  zero_bits = refl;
  gt_bits = λ a b h g. refl;
  add_grows = λ a score h. omega arith;
  add_bound = λ a score h. omega arith;
  add_mono = λ a b score h g. omega arith;
}

-- Every name is a node; `a` leads to `b`, and every other node to `c` and `b`.
abbrev graph : GraphAccessor
graph = record {
  node_count = 3;
  edge_count = 5;
  get_node = λ x. some (view_of_node (node x));
  outgoing_neighbors =
      λ x. if x == "a" then neighbor "b" ∷ [] else neighbor "c" ∷ neighbor "b" ∷ [];
  incoming_neighbors = λ x. [];
}

abbrev request : DynamicContext
request = record {
  semantic_boosts = record { pairs = ("b", 3) ∷ ("a", 2) ∷ [] };
  overlay_nodes = [];
  overlay_edges = [];
  weight_bonuses = HashMap.new;
  w_base = 1;
  w_semantic = 1;
  w_noise = 1;
  w_bonus = 1;
  noise_tags = [];
  max_fan_out = none;
  fan_out_pagerank_bypass = none;
  as_of = none;
  principals = [];
}

abbrev all_names : List String
all_names = "a" ∷ "b" ∷ "c" ∷ []

graph-IsNamed : IsNamed graph
graph-IsNamed name v h = ground (arith, h)

graph_targets :
    (x : String)
    → All (λ nb. contains all_names nb.name ≡ true) (neighbors_with_overlay graph request x)
unfolding neighbors_with_overlay neighbors_with_overlay_indexed neighbors_with_overlay_unfiltered
    collect_overlay_edges edges_from is_cut get_or_empty HashMap.get find build index_edges
    is_edge_visible temporal_ok contains
graph_targets x = elim (Bool-cases (x == "a")) [
  | inl t ↦ rw t (refl, tt)
  | inr t ↦ rw t (refl, (refl, tt))
]

graph-IsListed : IsListed graph request "a" all_names
unfolding contains
graph-IsListed = record {
  origin = refl;
  targets = λ x nb m. All-Among _ (neighbors_with_overlay graph request x) (graph_targets x) nb m;
}

beam_traverse-IsBeam_example :
    IsBeam graph request "a" 2 3 (beam_traverse graph request "a" 2 3)
    × IsDescending (λ r. total_key r.weight) (beam_traverse graph request "a" 2 3)
beam_traverse-IsBeam_example = beam_traverse-IsBeam graph request "a" 2 3 graph-IsNamed

find_path-IsAnswer_example :
    IsAnswer graph request "a" "c"
      (find_path (List DijkstraEntry) 10_000_000_000 graph request "a" "c")
find_path-IsAnswer_example =
    find_path-IsAnswer small_laws list_heap_laws graph request "a" "c" all_names graph-IsListed
      10_000_000_000 (omega arith)

contextual_subgraph-IsContextual_example :
    IsContextual graph request 1 (contextual_subgraph graph request 1)
contextual_subgraph-IsContextual_example =
    contextual_subgraph-IsContextual graph request 1 graph-IsNamed

multi_beam_intersection-IsIntersection_example :
    IsIntersection graph request
      ("a" ∷ "b" ∷ [])
      2
      2
      2
      (multi_beam_intersection graph request ("a" ∷ "b" ∷ []) 2 2 2)
multi_beam_intersection-IsIntersection_example =
    multi_beam_intersection-IsIntersection graph request ("a" ∷ "b" ∷ []) 2 2 2 graph-IsNamed

-- From `a` to `c` over `b`.
path_run :
    find_path (List DijkstraEntry) 10_000_000_000 graph request "a" "c"
    ≡ PathOutcome.found (
        start_step "a"
        ∷ record { node = "b"; edge_kind = "rel"; field_name = ""; direction = "outgoing" }
        ∷ record { node = "c"; edge_kind = "rel"; field_name = ""; direction = "outgoing" }
        ∷ [])
unfolding find_path search start_search relax_each relax is_better is_stale edge_cost score_of
    compute_score reconstruct_path walk_back reverse take_least extract HashMap.get HashMap.insert
    find put total_key neighbors_with_overlay_indexed neighbors_with_overlay_unfiltered
    collect_overlay_edges edges_from is_cut get_or_empty build index_edges index_nodes
    is_edge_visible temporal_ok contains
path_run = refl

beam_run : map (λ r. r.name) (beam_traverse graph request "a" 2 3) ≡ "b" ∷ "c" ∷ []
unfolding beam_traverse levels expand_level level_candidates collect_level offer_each offer mark
    result_leb sort_by insert_by score_of compute_score HashMap.get HashMap.insert find put
    total_key is_noisy_domain neighbors_with_overlay_indexed neighbors_with_overlay_unfiltered
    collect_overlay_edges edges_from is_cut get_or_empty build index_edges index_nodes
    is_edge_visible temporal_ok contains insert
beam_run = refl

subgraph_run : map (λ r. r.name) (contextual_subgraph graph request 1).nodes ≡ "b" ∷ "c" ∷ []
unfolding contextual_subgraph collect_seeds add_seeds add_seed add_neighbors seeds boost_leb
    result_leb edge_leb retain_present sort_by insert_by score_of compute_score HashMap.get find put
    total_key is_noisy_domain neighbors_with_overlay_indexed neighbors_with_overlay_unfiltered
    collect_overlay_edges edges_from is_cut get_or_empty build index_edges index_nodes
    is_edge_visible temporal_ok contains insert
subgraph_run = refl
