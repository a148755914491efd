-- ===== src/Tests/DeltaRuns.antt =====
-- The overlay of src/delta.rs on the sample graph, and its properties there.
use orpheusgraph.Prelude.{true, ◌≡◌, refl, [], ◌∷◌, map, string_eq}
use orpheusgraph.HashMap
use orpheusgraph.HashMap.{find, put, get, get_or_empty, push_at}
use orpheusgraph.HashSet.{contains}
use orpheusgraph.HashSet
use orpheusgraph.IndexMap.Association.{association, without}
use orpheusgraph.Types.Acl.{normalize_acl}
use orpheusgraph.Accessor.{NeighborView}
use orpheusgraph.Delta.Defs.{Op, missing_endpoint, key_eq, new}
use orpheusgraph.Delta.Mutators.{upsert_node, remove_node, add_edge, remove_edge}
use orpheusgraph.Delta.Mutators
use orpheusgraph.Delta.View
use orpheusgraph.Delta.Apply.{
  ok, err, apply, replay, step, validate, check_edge, is_present, is_tombstoned, bad_window,
}
use orpheusgraph.Tests.Sample.{sample, batch, edge}

run_batch : (apply sample batch new).0 ≡ ok
unfolding apply validate check_edge is_present is_tombstoned bad_window get contains find
    HashMap.insert put
run_batch = refl

late_edge :
    (apply sample (Op.remove_node "b" ∷ Op.add_edge "a" "b" (edge []) ∷ []) new).0
    ≡ err (missing_endpoint 1 "a" "b" "b" true)
unfolding apply validate check_edge is_present is_tombstoned bad_window get contains find
    HashMap.insert put
late_edge = refl

counts :
    (View.node_count sample (replay sample batch new) ≡ 3)
    × (View.edge_count sample (replay sample batch new) ≡ 1)
    × (map
          (λ (nb : NeighborView). nb.target_name)
          (View.outgoing_neighbors sample (replay sample batch new) "a")
        ≡ "d" ∷ [])
unfolding replay step upsert_node Mutators.clear_tombstone Mutators.unmask_incident_base_edges
    Mutators.unmask_each remove_node Mutators.drop_shadow Mutators.lay_tombstone
    Mutators.mask_incident_base_edges Mutators.mask_each Mutators.kill_incident Mutators.kill_each
    Mutators.kill_at add_edge remove_edge Mutators.kill_matching
    Mutators.count_live_base_edges_matching get_or_empty push_at get contains HashSet.insert
    HashSet.remove find put without normalize_acl View.node_count View.edge_count
    View.outgoing_neighbors View.is_empty View.retain_base View.keeps View.push_each
counts = (refl, refl, refl)
