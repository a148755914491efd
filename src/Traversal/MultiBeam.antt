-- ===== src/Traversal/MultiBeam.antt =====
-- `multi_beam_intersection` of src/traversal.rs. The beams run one after the other: each is a function
-- of the graph and the request, so running them in parallel gives the same.
pub mod Heat
pub mod Kept
pub mod Edges
pub mod Laws
use orpheusgraph.Prelude.{
  ℕ, zero, suc, ◌+◌, Bool, true, false, not, ◌||◌, ◌&&◌, String, Option, none, some, List, [], ◌∷◌,
  ◌++◌, map, filter, ltb, leb, nat_beq, if◌then◌else◌, ◌==◌, string_eq,
}
use orpheusgraph.HashMap
use orpheusgraph.HashMap.{HashMap}
use orpheusgraph.HashSet.{contains, insert}
use orpheusgraph.Types.{F32, EdgeData}
use orpheusgraph.Types.Acl.{str_leb}
use orpheusgraph.Types.Context.{DynamicContext, is_edge_visible}
use orpheusgraph.Accessor.{GraphAccessor, NeighborView}
use orpheusgraph.Graph.{EdgeResult, edge_result}
use orpheusgraph.Delta.Defs.{EdgeKey, key_eq}
use orpheusgraph.Scoring.{Float, NodeResult}
use orpheusgraph.Overlay.Defs.{FloatOrder, OverlayIndex, OverlayEdge, build}
use orpheusgraph.Traversal.Sort.{total_key, sort_by}
use orpheusgraph.Traversal.Score.{score_of}
use orpheusgraph.Traversal.Beam.{offer, beam_traverse}
use orpheusgraph.Traversal.Subgraph.{SubGraph, edge_leb, push_scored}

-- `.entry(k).or_insert(d)`, read; `.get(k).copied().unwrap_or(d)`
unfoldable pub get_or : {V : Type 0} → HashMap String V → String → V → V
get_or m k d = elim (HashMap.get m k) [ none ↦ d | some v ↦ v ]

-- `.remove(k)` of a map
unfoldable pub remove_key : {V : Type 0} → HashMap String V → String → HashMap String V
remove_key m k = record { pairs = filter (λ p. not (p.0 == k)) m.pairs }

pub record Heatmap : Type 0 where
  pub hit_count : HashMap String ℕ
  pub weight_sum : HashMap String F32
  pub best_result : HashMap String NodeResult

module _ ⦃fl : Float⦄ ⦃fo : FloatOrder⦄ where
  -- the loop over the results of one beam
  unfoldable pub heat_beam : List NodeResult → List String → Heatmap → Heatmap
  heat_beam [] seen_this_beam m = m
  heat_beam (nr ∷ results) seen_this_beam m =
      heat_beam results (insert seen_this_beam nr.name) (record {
        hit_count =
            if contains seen_this_beam nr.name
            then m.hit_count
            else HashMap.insert m.hit_count nr.name (get_or m.hit_count nr.name 0 + 1);
        weight_sum =
            HashMap.insert m.weight_sum nr.name
              (fl.add (get_or m.weight_sum nr.name fl.zero) nr.weight);
        best_result = offer m.best_result nr.name nr;
      })

  unfoldable pub heat_beams : List (List NodeResult) → Heatmap → Heatmap
  heat_beams [] m = m
  heat_beams (results ∷ rest) m = heat_beams rest (heat_beam results [] m)

  -- by accumulated weight descending, then by name
  unfoldable pub heat_leb : HashMap String F32 → NodeResult → NodeResult → Bool
  heat_leb weight_sum a b =
      let ka = total_key (get_or weight_sum a.name fl.zero) in
      let kb = total_key (get_or weight_sum b.name fl.zero) in
      ltb kb ka || (nat_beq ka kb && str_leb a.name b.name)

pub record Filtered : Type 0 where
  pub best_result : HashMap String NodeResult
  pub filtered_nodes : List NodeResult
  pub filtered_set : List String

module _ ⦃fl : Float⦄ (graph : GraphAccessor) (ctx : DynamicContext) (overlay : OverlayIndex) where
  -- the loop over the start nodes
  unfoldable pub add_starts : List String → Filtered → Filtered
  add_starts [] s = s
  add_starts (start ∷ rest) s = add_starts rest (
      if contains s.filtered_set start then s else record {
        best_result = remove_key s.best_result start;
        filtered_nodes = elim (HashMap.get s.best_result start) [
          | some nr ↦ s.filtered_nodes ++ (nr ∷ [])
          | none ↦ push_scored s.filtered_nodes (score_of graph ctx overlay start)
        ];
        filtered_set = insert s.filtered_set start;
      })

-- The loop over the hit counts. Its order shows nowhere: the nodes are sorted by weight and name.
unfoldable pub add_hits : ℕ → List String → List (String × ℕ) → Filtered → Filtered
add_hits threshold start_set [] s = s
add_hits threshold start_set ((name, count) ∷ rest) s = add_hits threshold start_set rest (
    if leb threshold count && not (contains start_set name)
    then (elim (HashMap.get s.best_result name) [
      | none ↦ s
      | some nr ↦ record {
        best_result = remove_key s.best_result name;
        filtered_nodes =
            if contains s.filtered_set name
            then s.filtered_nodes
            else s.filtered_nodes ++ (nr ∷ []);
        filtered_set = insert s.filtered_set name;
      }
    ])
    else s)

pub record EdgeList : Type 0 where
  pub seen_edges : List EdgeKey
  pub edges : List EdgeResult

abbrev pub key_of : EdgeResult → EdgeKey
key_of e = record { from = e.source; to = e.target; kind = e.kind }

unfoldable pub push_edge : EdgeResult → EdgeList → EdgeList
push_edge e s =
    if contains s.seen_edges (key_of e)
    then s
    else record { seen_edges = insert s.seen_edges (key_of e); edges = s.edges ++ (e ∷ []) }

abbrev pub edge_of_view : String → NeighborView → EdgeResult
edge_of_view source neighbor = record {
  source = source;
  target = neighbor.target_name;
  kind = neighbor.edge_kind;
  field_name = neighbor.field_name;
  weight = neighbor.edge_weight;
  valid_from = neighbor.valid_from;
  valid_to = neighbor.valid_to;
  acl = neighbor.acl;
}

module _ (graph : GraphAccessor) (ctx : DynamicContext) (filtered_set : List String) where
  unfoldable pub push_base : String → List NeighborView → EdgeList → EdgeList
  push_base node_name [] s = s
  push_base node_name (neighbor ∷ neighbors) s = push_base node_name neighbors (
      if is_edge_visible ctx neighbor.valid_from neighbor.valid_to neighbor.acl
        && contains filtered_set neighbor.target_name
      then push_edge (edge_of_view node_name neighbor) s
      else s)

  unfoldable pub push_overlay : String → List OverlayEdge → EdgeList → EdgeList
  push_overlay node_name [] s = s
  push_overlay node_name ((from, (to, edge)) ∷ rest) s = push_overlay node_name rest (
      if is_edge_visible ctx edge.valid_from edge.valid_to edge.acl
        && (from == node_name && contains filtered_set to)
      then push_edge (edge_result from to edge) s
      else s)

  -- The loop over the set. Its order shows nowhere but in the order of equal keys, which are seen once.
  unfoldable pub push_edges : List String → EdgeList → EdgeList
  push_edges [] s = s
  push_edges (node_name ∷ rest) s = push_edges rest (
      push_overlay node_name ctx.overlay_edges
        (push_base node_name (graph.outgoing_neighbors node_name) s))

module _ ⦃fl : Float⦄ ⦃fo : FloatOrder⦄ (graph : GraphAccessor) (ctx : DynamicContext) where
  unfoldable pub beam_results : List String → ℕ → ℕ → List (List NodeResult)
  beam_results start_nodes k depth =
      map (λ start. beam_traverse graph ctx start k depth) start_nodes

  unfoldable pub heatmap : List String → ℕ → ℕ → Heatmap
  heatmap start_nodes k depth =
      heat_beams (beam_results start_nodes k depth)
        (record { hit_count = HashMap.new; weight_sum = HashMap.new; best_result = HashMap.new })

  unfoldable pub filtered : List String → ℕ → Heatmap → Filtered
  filtered start_nodes threshold m = add_hits threshold start_nodes m.hit_count.pairs (
      add_starts graph ctx (build ctx) start_nodes
        (record { best_result = m.best_result; filtered_nodes = []; filtered_set = [] }))

  unfoldable pub multi_beam_intersection : List String → ℕ → ℕ → ℕ → SubGraph
  multi_beam_intersection start_nodes k depth threshold =
      let m = heatmap start_nodes k depth in
      let s = filtered start_nodes threshold m in
      record {
        nodes = sort_by (heat_leb m.weight_sum) s.filtered_nodes;
        edges =
            sort_by edge_leb
              (push_edges graph ctx s.filtered_set s.filtered_set
                (record { seen_edges = []; edges = [] })).edges;
      }
