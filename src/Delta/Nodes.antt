-- ===== src/Delta/Nodes.antt =====
-- The nodes of the merged graph under the operations of src/delta.rs.
use orpheusgraph.Prelude.{
  ◌≡◌, refl, ap, ◌∙◌, not, ◌&&◌, ◌||◌, String, Option, none, some, List, [], ◌∷◌, arith, ◌==◌,
  string_eq, if◌then◌else◌, fun_ext,
}
use orpheusgraph.HashSet.{contains, contains-insert, contains-remove}
use orpheusgraph.IndexMap.{IndexMap}
use orpheusgraph.Types.{NodeData}
use orpheusgraph.Accessor.{GraphAccessor, NodeView, view_of_node}
use orpheusgraph.Delta.Defs.{Op, GraphDelta}
use orpheusgraph.Delta.Mutators.{
  mask_incident_base_edges, unmask_incident_base_edges, clear_tombstone, upsert_node, drop_shadow,
  lay_tombstone, kill_incident, remove_node, add_edge, kill_matching, remove_edge,
}
use orpheusgraph.Delta.View.{get_node}
use orpheusgraph.Delta.Apply.{step, replay}
use orpheusgraph.Delta.Merged.{get_node-merged}

module _ ⦃im : IndexMap String NodeData⦄ where
  -- the tombstones and the shadows after each operation
  pub tombstones-step :
      (base : GraphAccessor) (op : Op) (d : GraphDelta) (x : String)
      → contains (step base op d).removed_nodes x ≡ elim op [
        | Op.upsert_node nd ↦ not (nd.name == x) && contains d.removed_nodes x
        | Op.remove_node name ↦ name == x || contains d.removed_nodes x
        | _ ↦ contains d.removed_nodes x
      ]
  unfolding step upsert_node clear_tombstone unmask_incident_base_edges remove_node drop_shadow
      lay_tombstone mask_incident_base_edges kill_incident add_edge remove_edge kill_matching
  tombstones-step base (Op.upsert_node nd) d x =
      ground (arith, contains-remove d.removed_nodes nd.name x)
  tombstones-step base (Op.remove_node name) d x =
      ground (arith, contains-insert d.removed_nodes name x)
  tombstones-step base (Op.add_edge from to edge) d x = ground arith
  tombstones-step base (Op.remove_edge from to kind) d x = ground arith

  pub shadows-step :
      (base : GraphAccessor) (op : Op) (d : GraphDelta) (x : String)
      → im.get (step base op d).added_nodes x ≡ elim op [
        | Op.upsert_node nd ↦ if nd.name == x then some nd else im.get d.added_nodes x
        | Op.remove_node name ↦ if name == x then none else im.get d.added_nodes x
        | _ ↦ im.get d.added_nodes x
      ]
  unfolding step upsert_node clear_tombstone unmask_incident_base_edges remove_node drop_shadow
      lay_tombstone mask_incident_base_edges kill_incident add_edge remove_edge kill_matching
  shadows-step base (Op.upsert_node nd) d x =
      ground (arith, im.get-insert d.added_nodes nd.name nd x)
  shadows-step base (Op.remove_node name) d x =
      ground (arith, im.get-shift_remove d.added_nodes name x)
  shadows-step base (Op.add_edge from to edge) d x = ground arith
  shadows-step base (Op.remove_edge from to kind) d x = ground arith

  -- What an operation means for the nodes: the last write wins, a removal hides.
  abbrev pub write_node : Op → (String → Option NodeView) → String → Option NodeView
  write_node (Op.upsert_node nd) f x = if nd.name == x then some (view_of_node nd) else f x
  write_node (Op.remove_node name) f x = if name == x then none else f x
  write_node _ f x = f x

  abbrev pub write_nodes : List Op → (String → Option NodeView) → String → Option NodeView
  write_nodes [] f = f
  write_nodes (op ∷ ops) f = write_nodes ops (write_node op f)

  pub get_node-step :
      (base : GraphAccessor) (op : Op) (d : GraphDelta) (x : String)
      → get_node base (step base op d) x ≡ write_node op (get_node base d) x
  get_node-step base (Op.upsert_node nd) d x =
      let op = Op.upsert_node nd in
      simp get_node-merged (ground (arith, tombstones-step base op d x, shadows-step base op d x))
  get_node-step base (Op.remove_node name) d x =
      let op = Op.remove_node name in
      simp get_node-merged (ground (arith, tombstones-step base op d x, shadows-step base op d x))
  get_node-step base (Op.add_edge from to edge) d x =
      let op = Op.add_edge from to edge in
      simp get_node-merged (ground (arith, tombstones-step base op d x, shadows-step base op d x))
  get_node-step base (Op.remove_edge from to kind) d x =
      let op = Op.remove_edge from to kind in
      simp get_node-merged (ground (arith, tombstones-step base op d x, shadows-step base op d x))

  -- After any operations, replayed in order on any overlay, a node reads as the last upsert or
  -- removal of its name left it, and as before where no operation names it.
  pub get_node-replay :
      (base : GraphAccessor) (ops : List Op) (d : GraphDelta)
      → get_node base (replay base ops d) ≡ write_nodes ops (get_node base d)
  unfolding replay
  get_node-replay base [] d = refl
  get_node-replay base (op ∷ ops) d =
      get_node-replay base ops (step base op d)
      ∙ ap (write_nodes ops) (fun_ext (get_node-step base op d))
