-- ===== src/Delta/Parts.antt =====
-- The base part and the overlay part of a list of neighbours of src/delta.rs under the operations.
use orpheusgraph.Prelude.{
  ◌≡◌, sym, ◌∙◌, Bool, true, false, not, ◌&&◌, ◌||◌, String, [], ◌∷◌, ◌++◌, map, arith, ◌==◌,
  string_eq, if◌then◌else◌, filter, filter-filter, filter-ext,
}
use orpheusgraph.HashSet.{contains}
use orpheusgraph.IndexMap.{IndexMap}
use orpheusgraph.Types.{NodeData, EdgeData}
use orpheusgraph.Accessor.{GraphAccessor, NeighborView}
use orpheusgraph.Delta.Defs.{Op, DeltaEdge, key_eq, GraphDelta}
use orpheusgraph.Delta.Mutators.{edge_key}
use orpheusgraph.Delta.Apply.{step}
use orpheusgraph.Delta.Index.{IsIndexed}
use orpheusgraph.Delta.Nodes.{tombstones-step}
use orpheusgraph.Delta.Fields.{new_edge, added_edges-step, edge_tombstones-step}
use orpheusgraph.Delta.Kills.{die_if}
use orpheusgraph.Delta.Merged.{unmasked}
use orpheusgraph.Delta.Sides.{
  Side, outgoing, incoming, near_of, far_of, near, far, view, triple, base_neighbors, hidden,
  base_part, delta_part, select-append, select-ext, select-die, filter-select,
}

-- The test of a triple, read from one side.
triple_beq :
    (s : Side) (from to kind x : String) (nb : NeighborView)
    → (edge_key from to kind == triple s x nb)
      ≡ (near_of s from to == x && (nb.target_name == far_of s from to && nb.edge_kind == kind))
triple_beq outgoing from to kind x nb = ground (
  arith,
  string_eq.beq_iff to nb.target_name,
  string_eq.beq_iff nb.target_name to,
  string_eq.beq_iff kind nb.edge_kind,
  string_eq.beq_iff nb.edge_kind kind,
)
triple_beq incoming from to kind x nb = ground (
  arith,
  string_eq.beq_iff from nb.target_name,
  string_eq.beq_iff nb.target_name from,
  string_eq.beq_iff kind nb.edge_kind,
  string_eq.beq_iff nb.edge_kind kind,
)

-- The neighbours that `RemoveEdge` and `RemoveNode` leave in the list of `x`.
abbrev pub uncut : Side → String → String → String → String → NeighborView → Bool
uncut s from to kind x nb =
    not (near_of s from to == x && (nb.target_name == far_of s from to && nb.edge_kind == kind))

abbrev pub leads_elsewhere : String → NeighborView → Bool
leads_elsewhere name nb = not (nb.target_name == name)

module _ ⦃im : IndexMap String NodeData⦄ where
  -- Which delta edges of `x` an operation hides, edge by edge.
  cut_seen :
      (s : Side) (base : GraphAccessor) (d : GraphDelta) (x from to kind : String) (e : DeltaEdge)
      → (near s e == x
          && not (
              e.dead
              || ((e.from == from && (e.to == to && e.edge.kind == kind))
                  || contains (step base (Op.remove_edge from to kind) d).removed_nodes (far s e))))
        ≡ (near s e == x && not (hidden s d e || not (uncut s from to kind x (view s e))))
  cut_seen outgoing base d x from to kind e = ground (
    arith,
    tombstones-step base (Op.remove_edge from to kind) d e.to,
    string_eq.beq_iff e.from from,
    string_eq.beq_iff e.from x,
    string_eq.beq_iff from x,
  )
  cut_seen incoming base d x from to kind e = ground (
    arith,
    tombstones-step base (Op.remove_edge from to kind) d e.from,
    string_eq.beq_iff e.to to,
    string_eq.beq_iff e.to x,
    string_eq.beq_iff to x,
  )

  removal_seen :
      (s : Side) (base : GraphAccessor) (d : GraphDelta) (x name : String)
      → name == x ≡ false
      → (e : DeltaEdge)
      → (near s e == x
          && not (
              e.dead
              || ((e.from == name && true)
                  || ((e.to == name && true)
                      || contains (step base (Op.remove_node name) d).removed_nodes (far s e)))))
        ≡ (near s e == x && not (hidden s d e || not (leads_elsewhere name (view s e))))
  removal_seen outgoing base d x name ne e = ground (
    arith,
    tombstones-step base (Op.remove_node name) d e.to,
    string_eq.beq_iff e.from name,
    string_eq.beq_iff e.from x,
    string_eq.beq_iff name x,
    string_eq.beq_iff e.to name,
    string_eq.beq_iff name e.to,
  )
  removal_seen incoming base d x name ne e = ground (
    arith,
    tombstones-step base (Op.remove_node name) d e.from,
    string_eq.beq_iff e.to name,
    string_eq.beq_iff e.to x,
    string_eq.beq_iff name x,
    string_eq.beq_iff e.from name,
    string_eq.beq_iff name e.from,
  )

  pub tombstone_alive :
      (base : GraphAccessor) (nd : NodeData) (d : GraphDelta) (x : String)
      → contains d.removed_nodes nd.name ≡ false
      → contains (step base (Op.upsert_node nd) d).removed_nodes x ≡ contains d.removed_nodes x
  tombstone_alive base nd d x alive =
      ground (arith, tombstones-step base (Op.upsert_node nd) d x, string_eq.beq_iff nd.name x)

  module _ (s : Side) (base : GraphAccessor) (d : GraphDelta) (x : String) where
    pub base_part-add :
        (from to : String) (edge : EdgeData)
        → base_part s base (step base (Op.add_edge from to edge) d) x ≡ base_part s base d x
    unfolding base_part
    base_part-add from to edge =
        filter-ext _ _
          (λ nb. ground (
            arith,
            tombstones-step base (Op.add_edge from to edge) d nb.target_name,
            edge_tombstones-step base (Op.add_edge from to edge) d (triple s x nb),
          ))
          (base_neighbors s base x)

    pub base_part-cut :
        (from to kind : String)
        → base_part s base (step base (Op.remove_edge from to kind) d) x
          ≡ filter (uncut s from to kind x) (base_part s base d x)
    unfolding base_part
    base_part-cut from to kind =
        filter-ext _ (λ nb. unmasked d (triple s x) nb && uncut s from to kind x nb)
          (λ nb. ground (
            arith,
            tombstones-step base (Op.remove_edge from to kind) d nb.target_name,
            edge_tombstones-step base (Op.remove_edge from to kind) d (triple s x nb),
            triple_beq s from to kind x nb,
          ))
          (base_neighbors s base x)
        ∙ sym (filter-filter _ _ (base_neighbors s base x))

    pub base_part-remove :
        (name : String)
        → base_part s base (step base (Op.remove_node name) d) x
          ≡ filter (leads_elsewhere name) (base_part s base d x)
    unfolding base_part
    base_part-remove name =
        filter-ext _ (λ nb. unmasked d (triple s x) nb && leads_elsewhere name nb)
          (λ nb. ground (
            arith,
            tombstones-step base (Op.remove_node name) d nb.target_name,
            edge_tombstones-step base (Op.remove_node name) d (triple s x nb),
            string_eq.beq_iff name nb.target_name,
            string_eq.beq_iff nb.target_name name,
          ))
          (base_neighbors s base x)
        ∙ sym (filter-filter _ _ (base_neighbors s base x))

    pub base_part-upsert :
        (nd : NodeData)
        → contains d.removed_nodes nd.name ≡ false
        → base_part s base (step base (Op.upsert_node nd) d) x ≡ base_part s base d x
    unfolding base_part
    base_part-upsert nd alive =
        filter-ext _ (unmasked d (triple s x))
          (λ nb. ground (
            arith,
            tombstone_alive base nd d nb.target_name alive,
            edge_tombstones-step base (Op.upsert_node nd) d (triple s x nb),
          ))
          (base_neighbors s base x)

    pub delta_part-upsert :
        (nd : NodeData)
        → IsIndexed d
        → contains d.removed_nodes nd.name ≡ false
        → delta_part s (step base (Op.upsert_node nd) d) x ≡ delta_part s d x
    unfolding delta_part
    delta_part-upsert nd h alive =
        let op = Op.upsert_node nd in
        rw (added_edges-step base op d h) (
          select-ext (view s) (near s) x (hidden s (step base op d)) (hidden s d)
            (λ e. ground (arith, tombstone_alive base nd d (far s e) alive)) d.added_edges)

    pub delta_part-add :
        (from to : String) (edge : EdgeData)
        → IsIndexed d
        → contains d.removed_nodes (far_of s from to) ≡ false
        → delta_part s (step base (Op.add_edge from to edge) d) x
          ≡ delta_part s d x
            ++ (if near_of s from to == x then view s (new_edge from to edge) ∷ [] else [])
    unfolding delta_part
    delta_part-add from to edge h alive =
        let op = Op.add_edge from to edge in
        rw (added_edges-step base op d h) (
          select-ext (view s) (near s) x (hidden s (step base op d)) (hidden s d)
            (λ e. ground (arith, tombstones-step base op d (far s e)))
            (d.added_edges ++ (new_edge from to edge ∷ []))
          ∙ (select-append (view s) (near s) x (hidden s d) d.added_edges (new_edge from to edge)
              ∙ ground arith))

    pub delta_part-cut :
        (from to kind : String)
        → IsIndexed d
        → delta_part s (step base (Op.remove_edge from to kind) d) x
          ≡ filter (uncut s from to kind x) (delta_part s d x)
    unfolding delta_part
    delta_part-cut from to kind h =
        let op = Op.remove_edge from to kind in
        let meant : DeltaEdge → Bool = λ e. e.from == from && (e.to == to && e.edge.kind == kind) in
        let far_gone : DeltaEdge → Bool = λ e. contains (step base op d).removed_nodes (far s e) in
        rw (added_edges-step base op d h) (
          select-die (view s) (near s) x far_gone meant d.added_edges
          ∙ (select-ext (view s) (near s) x (λ e. e.dead || (meant e || far_gone e))
                (λ e. hidden s d e || not (uncut s from to kind x (view s e)))
                (cut_seen s base d x from to kind) d.added_edges
              ∙ sym (
                  filter-select (view s) (near s) x (uncut s from to kind x) (hidden s d)
                    d.added_edges)))

    pub delta_part-remove :
        (name : String)
        → IsIndexed d
        → name == x ≡ false
        → delta_part s (step base (Op.remove_node name) d) x
          ≡ filter (leads_elsewhere name) (delta_part s d x)
    unfolding delta_part
    delta_part-remove name h ne =
        let op = Op.remove_node name in
        let from_it : DeltaEdge → Bool = λ e. e.from == name && true in
        let to_it : DeltaEdge → Bool = λ e. e.to == name && true in
        let far_gone : DeltaEdge → Bool = λ e. contains (step base op d).removed_nodes (far s e) in
        rw (added_edges-step base op d h) (
          select-die (view s) (near s) x far_gone to_it (map (die_if from_it) d.added_edges)
          ∙ (select-die (view s) (near s) x (λ e. to_it e || far_gone e) from_it d.added_edges
              ∙ (select-ext (view s) (near s) x
                    (λ e. e.dead || (from_it e || (to_it e || far_gone e)))
                    (λ e. hidden s d e || not (leads_elsewhere name (view s e)))
                    (removal_seen s base d x name ne) d.added_edges
                  ∙ sym (
                      filter-select (view s) (near s) x (leads_elsewhere name) (hidden s d)
                        d.added_edges))))
