-- ===== src/Delta/Edges.antt =====
-- The edges of the merged graph under the operations of src/delta.rs, on both sides at once.
use orpheusgraph.Prelude.{
  ◌≡◌, sym, false, String, [], ◌∷◌, ◌++◌, append_assoc, arith, ◌==◌, string_eq, if◌then◌else◌,
  filter, filter-append, Bool-cases, inl, inr,
}
use orpheusgraph.HashSet.{contains}
use orpheusgraph.IndexMap.{IndexMap}
use orpheusgraph.Types.{NodeData, EdgeData}
use orpheusgraph.Accessor.{GraphAccessor}
use orpheusgraph.Delta.Defs.{Op, key_eq, GraphDelta}
use orpheusgraph.Delta.Apply.{step}
use orpheusgraph.Delta.Index.{IsIndexed}
use orpheusgraph.Delta.Indexed.{Room, step-IsIndexed}
use orpheusgraph.Delta.Nodes.{tombstones-step}
use orpheusgraph.Delta.Fields.{new_edge}
use orpheusgraph.Delta.Sides.{
  Side, outgoing, incoming, near_of, far_of, view, neighbors, base_part, delta_part,
  neighbors-parts,
}
use orpheusgraph.Delta.Parts.{
  uncut, leads_elsewhere, tombstone_alive, base_part-add, base_part-cut, base_part-remove,
  base_part-upsert, delta_part-add, delta_part-cut, delta_part-remove, delta_part-upsert,
}

module _ ⦃im : IndexMap String NodeData⦄ where
  ends_alive :
      (s : Side) (from to : String) (d : GraphDelta)
      → contains d.removed_nodes from ≡ false
      → contains d.removed_nodes to ≡ false
      → (contains d.removed_nodes (near_of s from to) ≡ false)
        × (contains d.removed_nodes (far_of s from to) ≡ false)
  ends_alive outgoing from to d hf ht = (hf, ht)
  ends_alive incoming from to d hf ht = (ht, hf)

  -- In an overlay with correct indexes and room for a position, `AddEdge` between two nodes with no tombstone puts the new edge last in the list of each of its
  -- ends, its tags normalised, and changes no other list; on both sides.
  pub neighbors-add :
      (s : Side) (base : GraphAccessor) (from to : String) (edge : EdgeData) (d : GraphDelta)
      (x : String)
      → IsIndexed d
      → Room (Op.add_edge from to edge) d
      → contains d.removed_nodes from ≡ false
      → contains d.removed_nodes to ≡ false
      → neighbors s base (step base (Op.add_edge from to edge) d) x
        ≡ neighbors s base d x
          ++ (if near_of s from to == x then view s (new_edge from to edge) ∷ [] else [])
  neighbors-add s base from to edge d x h room hf ht =
      let op = Op.add_edge from to edge in
      let alive = ends_alive s from to d hf ht in
      rw
        (
          neighbors-parts s base (step base op d) x (step-IsIndexed base op d room h),
          neighbors-parts s base d x h,
          tombstones-step base op d x,
        )
        (elim (Bool-cases (contains d.removed_nodes x)) [
          | inl r ↦ rw r (ground (arith, alive.0, string_eq.beq_iff (near_of s from to) x))
          | inr r ↦
              rw
                (
                  r,
                  base_part-add s base d x from to edge,
                  delta_part-add s base d x from to edge h alive.1,
                )
                (sym (
                  append_assoc (base_part s base d x) (delta_part s d x)
                    (if near_of s from to == x then view s (new_edge from to edge) ∷ [] else [])))
        ])

  -- In an overlay with correct indexes, `RemoveEdge` takes exactly the edges with the triple, of the base and of the overlay, out of the
  -- lists of both ends.
  pub neighbors-cut :
      (s : Side) (base : GraphAccessor) (from to kind : String) (d : GraphDelta) (x : String)
      → IsIndexed d
      → neighbors s base (step base (Op.remove_edge from to kind) d) x
        ≡ filter (uncut s from to kind x) (neighbors s base d x)
  neighbors-cut s base from to kind d x h =
      let op = Op.remove_edge from to kind in
      rw
        (
          neighbors-parts s base (step base op d) x (step-IsIndexed base op d tt h),
          neighbors-parts s base d x h,
          tombstones-step base op d x,
        )
        (elim (Bool-cases (contains d.removed_nodes x)) [
          | inl r ↦ rw r
          | inr r ↦
              rw
                (r, base_part-cut s base d x from to kind, delta_part-cut s base d x from to kind h)
                (sym (
                  filter-append (uncut s from to kind x) (base_part s base d x) (delta_part s d x)))
        ])

  -- In an overlay with correct indexes, `RemoveNode` empties the node's own lists and takes it out of every other list.
  pub neighbors-remove :
      (s : Side) (base : GraphAccessor) (name : String) (d : GraphDelta) (x : String)
      → IsIndexed d
      → neighbors s base (step base (Op.remove_node name) d) x
        ≡ (if name == x then [] else filter (leads_elsewhere name) (neighbors s base d x))
  neighbors-remove s base name d x h =
      let op = Op.remove_node name in
      rw
        (
          neighbors-parts s base (step base op d) x (step-IsIndexed base op d tt h),
          neighbors-parts s base d x h,
          tombstones-step base op d x,
        )
        (elim (Bool-cases (name == x)) [
          | inl e ↦ rw e
          | inr e ↦ rw e (elim (Bool-cases (contains d.removed_nodes x)) [
            | inl r ↦ rw r
            | inr r ↦
                rw (r, base_part-remove s base d x name, delta_part-remove s base d x name h e)
                  (sym (
                    filter-append (leads_elsewhere name) (base_part s base d x) (delta_part s d x)))
          ])
        ])

  -- In an overlay with correct indexes, `UpsertNode` of a node with no tombstone changes no list of neighbours.
  pub neighbors-upsert :
      (s : Side) (base : GraphAccessor) (nd : NodeData) (d : GraphDelta) (x : String)
      → IsIndexed d
      → contains d.removed_nodes nd.name ≡ false
      → neighbors s base (step base (Op.upsert_node nd) d) x ≡ neighbors s base d x
  neighbors-upsert s base nd d x h alive =
      let op = Op.upsert_node nd in
      rw
        (
          neighbors-parts s base (step base op d) x (step-IsIndexed base op d tt h),
          neighbors-parts s base d x h,
        )
        (ground (
          arith,
          tombstone_alive base nd d x alive,
          base_part-upsert s base d x nd alive,
          delta_part-upsert s base d x nd h alive,
        ))
