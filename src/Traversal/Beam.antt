-- ===== src/Traversal/Beam.antt =====
-- `beam_traverse` of src/traversal.rs.
pub mod Level
pub mod Candidates
pub mod Laws
use orpheusgraph.Prelude.{
  ℕ, zero, suc, Bool, ◌||◌, ◌&&◌, String, Option, none, some, List, [], ◌∷◌, ◌++◌, map, take, ltb,
  nat_beq, if◌then◌else◌, string_eq,
}
use orpheusgraph.HashMap
use orpheusgraph.HashMap.{HashMap}
use orpheusgraph.HashSet.{contains, insert}
use orpheusgraph.Types.Acl.{str_leb}
use orpheusgraph.Types.Context.{DynamicContext}
use orpheusgraph.Accessor.{GraphAccessor}
use orpheusgraph.Scoring.{Float, NodeResult}
use orpheusgraph.Overlay.Defs.{
  FloatOrder, OverlayIndex, NeighborEntry, neighbors_with_overlay_indexed, build,
}
use orpheusgraph.Traversal.Sort.{total_key, sort_by}
use orpheusgraph.Traversal.Score.{score_of}

-- by weight descending, then by name
unfoldable pub result_leb : NodeResult → NodeResult → Bool
result_leb a b =
    let ka = total_key a.weight in
    let kb = total_key b.weight in ltb kb ka || (nat_beq ka kb && str_leb a.name b.name)

pub record Beam : Type 0 where
  pub visited : List String
  pub frontier : List String
  pub all_results : List NodeResult

-- The loop that builds the next frontier.
unfoldable pub mark : List NodeResult → List String → List String → List String × List String
mark [] visited frontier = (visited, frontier)
mark (r ∷ rs) visited frontier =
    mark rs (insert visited r.name)
      (if contains visited r.name then frontier else frontier ++ (r.name ∷ []))

module _ ⦃fo : FloatOrder⦄ where
  -- `.entry(name).and_modify(...).or_insert(result)`
  unfoldable pub offer : HashMap String NodeResult → String → NodeResult → HashMap String NodeResult
  offer level_map name result = HashMap.insert level_map name (elim (HashMap.get level_map name) [
    | none ↦ result
    | some existing ↦ if fo.gt result.weight existing.weight then result else existing
  ])

module _ ⦃fl : Float⦄ ⦃fo : FloatOrder⦄ (graph : GraphAccessor) (ctx : DynamicContext)
    (overlay : OverlayIndex) where
  -- the loop over the neighbours of one node
  unfoldable pub offer_each :
      List String → List NeighborEntry → HashMap String NodeResult → HashMap String NodeResult
  offer_each visited [] level_map = level_map
  offer_each visited (neighbor ∷ neighbors) level_map = offer_each visited neighbors (
      if contains visited neighbor.name
      then level_map
      else (elim (score_of graph ctx overlay neighbor.name) [
        | none ↦ level_map
        | some result ↦ offer level_map neighbor.name result
      ]))

  -- the loop over the frontier
  unfoldable pub collect_level :
      List String → List String → HashMap String NodeResult → HashMap String NodeResult
  collect_level visited [] level_map = level_map
  collect_level visited (node_name ∷ frontier) level_map =
      collect_level visited frontier
        (offer_each visited (neighbors_with_overlay_indexed graph ctx overlay node_name) level_map)

  -- The values come in an order that the sort by weight and name makes irrelevant.
  unfoldable pub level_candidates : ℕ → Beam → List NodeResult
  level_candidates k b =
      take k
        (sort_by result_leb (map (λ p. p.1) (collect_level b.visited b.frontier HashMap.new).pairs))

  -- the body of the loop over the levels
  unfoldable pub expand_level : ℕ → Beam → Beam
  expand_level k b =
      let level_candidates = level_candidates k b in
      let (visited, frontier) = mark level_candidates b.visited [] in
      record {
        visited = visited;
        frontier = frontier;
        all_results = b.all_results ++ level_candidates;
      }

  unfoldable pub levels : ℕ → ℕ → Beam → Beam
  levels k zero b = b
  levels k (suc depth) b = elim b.frontier [ [] ↦ b | _ ∷ _ ↦ levels k depth (expand_level k b) ]

abbrev pub start_beam : String → Beam
start_beam start = record { visited = start ∷ []; frontier = start ∷ []; all_results = [] }

module _ ⦃fl : Float⦄ ⦃fo : FloatOrder⦄ where
  unfoldable pub beam_traverse : GraphAccessor → DynamicContext → String → ℕ → ℕ → List NodeResult
  beam_traverse graph ctx start k depth =
      sort_by result_leb (levels graph ctx (build ctx) k depth (start_beam start)).all_results
