-- ===== src/Delta/Fields.antt =====
-- What each operation of src/delta.rs does to the edges and the edge tombstones of the overlay.
use orpheusgraph.Prelude.{
  ◌≡◌, refl, ap, ◌∙◌, true, false, ◌&&◌, ◌||◌, String, List, [], ◌∷◌, ◌++◌, map, arith, ◌==◌,
  string_eq,
}
use orpheusgraph.HashSet.{contains, contains-insert}
use orpheusgraph.IndexMap.{IndexMap}
use orpheusgraph.Types.{NodeData, EdgeData}
use orpheusgraph.Types.Acl.{normalize_acl}
use orpheusgraph.Accessor.{GraphAccessor}
use orpheusgraph.Delta.Defs.{Op, DeltaEdge, EdgeKey, key_eq, GraphDelta}
use orpheusgraph.Delta.Mutators.{
  edge_key, mask_incident_base_edges, unmask_incident_base_edges, clear_tombstone, upsert_node,
  drop_shadow, lay_tombstone, kill_each, kill_incident, remove_node, add_edge, kill_matching,
  remove_edge,
}
use orpheusgraph.Delta.Apply.{step}
use orpheusgraph.Delta.Index.{IsIndexed, positions}
use orpheusgraph.Delta.Indexed.{
  upsert_node-SameEdges, lay_tombstone-SameEdges, remove_edge-SameEdges, SameEdges-IsIndexed,
}
use orpheusgraph.Delta.Kills.{die_if, kill_each-append, kill_each-edges, kill_each-positions}

-- The edge that `AddEdge` appends.
abbrev pub new_edge : String → String → EdgeData → DeltaEdge
new_edge from to edge = record {
  from = from;
  to = to;
  edge = record edge { acl = normalize_acl edge.acl };
  dead = false;
}

module _ ⦃im : IndexMap String NodeData⦄ where
  abbrev pub edges_after : Op → List DeltaEdge → List DeltaEdge
  edges_after (Op.upsert_node nd) es = es
  edges_after (Op.remove_node name) es =
      map (die_if (λ e. e.to == name && true)) (map (die_if (λ e. e.from == name && true)) es)
  edges_after (Op.add_edge from to edge) es = es ++ (new_edge from to edge ∷ [])
  edges_after (Op.remove_edge from to kind) es =
      map (die_if (λ e. e.from == from && (e.to == to && e.edge.kind == kind))) es

  kill_incident-edges :
      (name : String) (d : GraphDelta)
      → IsIndexed d
      → (kill_incident name d).added_edges ≡ edges_after (Op.remove_node name) d.added_edges
  unfolding kill_incident
  kill_incident-edges name d h =
      let n = d.live_delta_edge_count in
      let es = d.added_edges in
      let after = kill_each (λ e. true) (positions (λ e. e.from) name 0 es) es n in
      rw (h.out_indexed name, h.in_indexed name, kill_each-append)
        (rw
          (← kill_each-positions (λ e. e.to) (λ e. refl) name (λ e. true)
            (positions (λ e. e.from) name 0 es) es n)
          (kill_each-edges (λ e. true) (λ e. e.to) name after.0 after.1
            ∙ ap (map (die_if (λ e. e.to == name && true)))
                (kill_each-edges (λ e. true) (λ e. e.from) name es n)))

  kill_matching-edges :
      (from to kind : String) (d : GraphDelta)
      → IsIndexed d
      → (kill_matching from to kind d).added_edges
        ≡ edges_after (Op.remove_edge from to kind) d.added_edges
  unfolding kill_matching
  kill_matching-edges from to kind d h =
      rw (h.out_indexed from) (kill_each-edges _ (λ e. e.from) from d.added_edges _)

  pub added_edges-step :
      (base : GraphAccessor) (op : Op) (d : GraphDelta)
      → IsIndexed d
      → (step base op d).added_edges ≡ edges_after op d.added_edges
  unfolding step remove_node add_edge
  added_edges-step base (Op.upsert_node nd) d h = (upsert_node-SameEdges base nd d).edges
  added_edges-step base (Op.remove_node name) d h =
      let same = lay_tombstone-SameEdges base name d in
      kill_incident-edges name _ (SameEdges-IsIndexed d _ same h)
      ∙ ap (edges_after (Op.remove_node name)) same.edges
  added_edges-step base (Op.add_edge from to edge) d h = refl
  added_edges-step base (Op.remove_edge from to kind) d h =
      (remove_edge-SameEdges base from to kind d).edges ∙ kill_matching-edges from to kind d h

  pub edge_tombstones-step :
      (base : GraphAccessor) (op : Op) (d : GraphDelta) (key : EdgeKey)
      → contains (step base op d).removed_edges key ≡ elim op [
        | Op.remove_edge from to kind ↦ edge_key from to kind == key || contains d.removed_edges key
        | _ ↦ contains d.removed_edges key
      ]
  unfolding step upsert_node clear_tombstone unmask_incident_base_edges remove_node drop_shadow
      lay_tombstone mask_incident_base_edges kill_incident add_edge remove_edge kill_matching
  edge_tombstones-step base (Op.upsert_node nd) d key = ground arith
  edge_tombstones-step base (Op.remove_node name) d key = ground arith
  edge_tombstones-step base (Op.add_edge from to edge) d key = ground arith
  edge_tombstones-step base (Op.remove_edge from to kind) d key = ground (
    arith,
    contains-insert d.removed_edges (edge_key from to kind) key,
    key_eq.beq_iff (edge_key from to kind) key,
  )
