-- ===== src/Tests/QueryWitnesses.antt =====
-- What a query sees of src/overlay.rs and src/types.rs, at a concrete request.
use orpheusgraph.Prelude.{◌≡◌, ◌↔◌, ◌⊎◌, refl, true, none, some, [], ◌∷◌, ltb, string_eq}
use orpheusgraph.HashMap
use orpheusgraph.HashMap.{find, put}
use orpheusgraph.HashSet.{contains, Distinct}
use orpheusgraph.Types.Context.{DynamicContext, is_edge_visible, temporal_ok}
use orpheusgraph.Types.Visibility.{IsOpenAt, IsShared, is_edge_visible_lem}
use orpheusgraph.Accessor.{view_of_node}
use orpheusgraph.Overlay.Defs.{
  FloatOrder, build, index_nodes, find_node, resolve_overlay_node, resolve_overlay_node_indexed,
  neighbors_with_overlay,
}
use orpheusgraph.Overlay.Reference.{names, resolve_overlay_node-build}
use orpheusgraph.Overlay.Seen.{IsSeen, neighbors_with_overlay-IsSeen}
use orpheusgraph.Tests.Sample.{sample, node, edge}

instance abbrev by_bits : FloatOrder
by_bits = record { gt = λ a b. ltb b a; zero = 0 }

abbrev request : DynamicContext
request = record {
  semantic_boosts = HashMap.new;
  overlay_nodes = node "v" ∷ node "w" ∷ [];
  overlay_edges =
      ("a", ("v", edge ("team" ∷ [])))
      ∷ ("b", ("v", edge []))
      ∷ ("a", ("w", edge ("other" ∷ [])))
      ∷ [];
  weight_bonuses = HashMap.new;
  w_base = 1;
  w_semantic = 1;
  w_noise = 1;
  w_bonus = 1;
  noise_tags = [];
  max_fan_out = some 3;
  fan_out_pagerank_bypass = none;
  as_of = some 5;
  principals = "team" ∷ [];
}

is_edge_visible_lem_example :
    (is_edge_visible request (some 5) (some 6) request.principals ≡ true) ↔ (
      IsOpenAt (some 5) (some 5) (some 6)
      × ((request.principals ≡ []) ⊎ IsShared request.principals request.principals))
is_edge_visible_lem_example = is_edge_visible_lem request (some 5) (some 6) request.principals

visible_run : is_edge_visible request (some 5) (some 6) ("team" ∷ []) ≡ true
unfolding is_edge_visible temporal_ok
visible_run = refl

neighbors_with_overlay-IsSeen_example :
    IsSeen sample request "a" (neighbors_with_overlay sample request "a")
neighbors_with_overlay-IsSeen_example = neighbors_with_overlay-IsSeen sample request "a"

names-Distinct : Distinct (names request.overlay_nodes)
unfolding contains
names-Distinct = (refl, (refl, tt))

resolve_overlay_node-build_example :
    resolve_overlay_node_indexed "v" (build request) ≡ resolve_overlay_node "v" request
resolve_overlay_node-build_example = resolve_overlay_node-build request "v" names-Distinct

-- Two nodes with one name: the scan takes the first, the index the last.
abbrev twice : DynamicContext
twice = record request { overlay_nodes = node "v" ∷ record (node "v") { kind = "later" } ∷ [] }

first_by_scan : resolve_overlay_node "v" twice ≡ some (view_of_node (node "v"))
unfolding resolve_overlay_node find_node
first_by_scan = refl

last_by_index :
    resolve_overlay_node_indexed "v" (build twice)
    ≡ some (view_of_node (record (node "v") { kind = "later" }))
unfolding resolve_overlay_node_indexed build index_nodes HashMap.insert HashMap.get find put
last_by_index = refl
