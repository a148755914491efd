-- ===== src/Traversal/Subgraph.antt =====
-- `contextual_subgraph` of src/traversal.rs.
pub mod Seeds
pub mod Top
pub mod Laws
use Prim.Native.Nat.{Ordering}
use Prim.Native.String.{compare}
use orpheusgraph.Prelude.{
  ℕ, Bool, true, false, ◌||◌, ◌&&◌, String, Option, none, some, List, [], ◌∷◌, ◌++◌, map, take, ltb,
  nat_beq, filter, if◌then◌else◌, string_eq,
}
use orpheusgraph.HashMap.{HashMap}
use orpheusgraph.HashSet.{contains, insert}
use orpheusgraph.Types.{F32}
use orpheusgraph.Types.Acl.{str_leb}
use orpheusgraph.Types.Context.{DynamicContext}
use orpheusgraph.Accessor.{GraphAccessor}
use orpheusgraph.Graph.{EdgeResult}
use orpheusgraph.Scoring.{Float, NodeResult}
use orpheusgraph.Overlay.Defs.{
  FloatOrder, OverlayIndex, NeighborEntry, neighbors_with_overlay_indexed, build,
}
use orpheusgraph.Traversal.Sort.{total_key, sort_by}
use orpheusgraph.Traversal.Score.{score_of}
use orpheusgraph.Traversal.Beam.{result_leb}

pub record SubGraph : Type 0 where
  pub nodes : List NodeResult
  pub edges : List EdgeResult

-- by boost descending, then by name
unfoldable pub boost_leb : String × F32 → String × F32 → Bool
boost_leb a b =
    let ka = total_key a.1 in
    let kb = total_key b.1 in ltb kb ka || (nat_beq ka kb && str_leb a.0 b.0)

-- `.cmp(...).then_with(...)`
abbrev pub then_leb : Ordering → Bool → Bool
then_leb Ordering.lt rest = true
then_leb Ordering.eq rest = rest
then_leb Ordering.gt rest = false

-- by source, target and kind
unfoldable pub edge_leb : EdgeResult → EdgeResult → Bool
edge_leb a b =
    then_leb (compare a.source b.source)
      (then_leb (compare a.target b.target) (str_leb a.kind b.kind))

abbrev pub edge_to : String → NeighborEntry → EdgeResult
edge_to source neighbor = record {
  source = source;
  target = neighbor.name;
  kind = neighbor.edge_kind;
  field_name = neighbor.field_name;
  weight = neighbor.edge_weight;
  valid_from = neighbor.valid_from;
  valid_to = neighbor.valid_to;
  acl = neighbor.acl;
}

unfoldable pub seeds : DynamicContext → ℕ → List String
seeds ctx k = map (λ p. p.0) (take k (sort_by boost_leb ctx.semantic_boosts.pairs))

pub record Collected : Type 0 where
  pub node_set : List String
  pub nodes : List NodeResult
  pub edges : List EdgeResult

abbrev pub push_scored : List NodeResult → Option NodeResult → List NodeResult
push_scored nodes none = nodes
push_scored nodes (some result) = nodes ++ (result ∷ [])

module _ ⦃fl : Float⦄ ⦃fo : FloatOrder⦄ (graph : GraphAccessor) (ctx : DynamicContext)
    (overlay : OverlayIndex) where
  -- the loop over the neighbours of a seed
  unfoldable pub add_neighbors : String → List NeighborEntry → Collected → Collected
  add_neighbors seed_name [] s = s
  add_neighbors seed_name (neighbor ∷ neighbors) s = add_neighbors seed_name neighbors (record {
    node_set = insert s.node_set neighbor.name;
    nodes =
        if contains s.node_set neighbor.name
        then s.nodes
        else push_scored s.nodes (score_of graph ctx overlay neighbor.name);
    edges = s.edges ++ (edge_to seed_name neighbor ∷ []);
  })

  unfoldable pub add_seed : String → Collected → Collected
  add_seed seed_name s =
      if contains s.node_set seed_name then s else (elim (score_of graph ctx overlay seed_name) [
        | none ↦ s
        | some result ↦
            add_neighbors seed_name (neighbors_with_overlay_indexed graph ctx overlay seed_name)
              (record {
                node_set = insert s.node_set seed_name;
                nodes = s.nodes ++ (result ∷ []);
                edges = s.edges;
              })
      ])

  -- the loop over the seeds
  unfoldable pub add_seeds : List String → Collected → Collected
  add_seeds [] s = s
  add_seeds (seed_name ∷ rest) s = add_seeds rest (add_seed seed_name s)

  unfoldable pub collect_seeds : ℕ → Collected
  collect_seeds k = add_seeds (seeds ctx k) (record { node_set = []; nodes = []; edges = [] })

-- the edges whose two ends are among the nodes
unfoldable pub retain_present : List NodeResult → List EdgeResult → List EdgeResult
retain_present nodes edges =
    let present = map (λ n. n.name) nodes in
    filter (λ e. contains present e.source && contains present e.target) edges

module _ ⦃fl : Float⦄ ⦃fo : FloatOrder⦄ where
  unfoldable pub contextual_subgraph : GraphAccessor → DynamicContext → ℕ → SubGraph
  contextual_subgraph graph ctx k =
      let s = collect_seeds graph ctx (build ctx) k in
      let nodes = sort_by result_leb s.nodes in
      record { nodes = nodes; edges = sort_by edge_leb (retain_present nodes s.edges) }
