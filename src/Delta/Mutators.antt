-- ===== src/Delta/Mutators.antt =====
-- The private mutators of `GraphDelta` in src/delta.rs. A counter that the source takes down by one
-- stops at 0 here.
use orpheusgraph.Prelude.{
  ℕ, ◌+◌, ◌-◌, ◌%◌, ◌^◌, Bool, true, false, not, ◌&&◌, ◌||◌, String, none, some, List, [], ◌∷◌,
  ◌++◌, ◌==◌, string_eq, if◌then◌else◌, is_some, length, get_elem?, set, count,
}
use orpheusgraph.HashMap.{get_or_empty, push_at}
use orpheusgraph.HashSet.{contains, insert, remove}
use orpheusgraph.IndexMap.{IndexMap}
use orpheusgraph.Types.{NodeData, EdgeData}
use orpheusgraph.Types.Acl.{normalize_acl}
use orpheusgraph.Accessor.{GraphAccessor, NeighborView}
use orpheusgraph.Delta.Defs.{DeltaEdge, EdgeKey, key_eq, GraphDelta}

abbrev pub edge_key : String → String → String → EdgeKey
edge_key from to kind = record { from = from; to = to; kind = kind }

-- `x as u32`
abbrev pub as_u32 : ℕ → ℕ
as_u32 x = x % 2 ^ 32

-- The loops `for nb in … { if skip(nb) { continue; } counter += 1; }`.
unfoldable pub mask_each : (NeighborView → Bool) → List NeighborView → ℕ → ℕ
mask_each skip [] n = n
mask_each skip (nb ∷ nbs) n = mask_each skip nbs (if skip nb then n else n + 1)

-- The same with `counter -= 1`.
unfoldable pub unmask_each : (NeighborView → Bool) → List NeighborView → ℕ → ℕ
unmask_each skip [] n = n
unmask_each skip (nb ∷ nbs) n = unmask_each skip nbs (if skip nb then n else n - 1)

-- One round of the loops that mark edges dead: the edge at `p`, if it is alive and is meant.
unfoldable pub kill_at : (DeltaEdge → Bool) → ℕ → List DeltaEdge → ℕ → List DeltaEdge × ℕ
kill_at meant p edges live = elim (get_elem? edges p) [
  | none ↦ (edges, live)
  | some e ↦
      if not e.dead && meant e
      then (set edges p (record e { dead = true }), live - 1)
      else (edges, live)
]

unfoldable pub kill_each : (DeltaEdge → Bool) → List ℕ → List DeltaEdge → ℕ → List DeltaEdge × ℕ
kill_each meant [] edges live = (edges, live)
kill_each meant (p ∷ ps) edges live =
    let (edges', live') = kill_at meant p edges live in kill_each meant ps edges' live'

module _ ⦃im : IndexMap String NodeData⦄ where
  -- What the two passes of the mask and unmask helpers skip.
  abbrev pub skip_outgoing : GraphDelta → String → NeighborView → Bool
  skip_outgoing d name nb =
      contains d.removed_nodes nb.target_name
      || contains d.removed_edges (edge_key name nb.target_name nb.edge_kind)

  abbrev pub skip_incoming : GraphDelta → String → NeighborView → Bool
  skip_incoming d name nb =
      nb.target_name == name
      || contains d.removed_nodes nb.target_name
      || contains d.removed_edges (edge_key nb.target_name name nb.edge_kind)

  unfoldable pub mask_incident_base_edges : GraphAccessor → String → GraphDelta → GraphDelta
  mask_incident_base_edges base name d = record d {
    masked_base_edge_count =
        mask_each (skip_incoming d name) (base.incoming_neighbors name) (
          mask_each (skip_outgoing d name) (base.outgoing_neighbors name) d.masked_base_edge_count);
  }

  unfoldable pub unmask_incident_base_edges : GraphAccessor → String → GraphDelta → GraphDelta
  unmask_incident_base_edges base name d = record d {
    masked_base_edge_count = unmask_each (skip_incoming d name) (base.incoming_neighbors name) (
        unmask_each (skip_outgoing d name) (base.outgoing_neighbors name) d.masked_base_edge_count);
  }

  -- `removed_nodes.remove(&name)` answers whether the name was in; the branch reads the set after.
  unfoldable pub clear_tombstone : GraphAccessor → String → GraphDelta → GraphDelta
  clear_tombstone base name d =
      let d' = record d { removed_nodes = remove d.removed_nodes name } in
      if contains d.removed_nodes name && is_some (base.get_node name)
      then unmask_incident_base_edges base name
          (record d' { tombstone_base_hits = d.tombstone_base_hits - 1 })
      else d'

  unfoldable pub upsert_node : GraphAccessor → NodeData → GraphDelta → GraphDelta
  upsert_node base nd d =
      let in_base = is_some (base.get_node nd.name) in
      let d1 = clear_tombstone base nd.name d in
      let newly = not (is_some (im.get d1.added_nodes nd.name)) in
      record d1 {
        added_nodes = im.insert d1.added_nodes nd.name nd;
        added_non_base = if newly && not in_base then d1.added_non_base + 1 else d1.added_non_base;
      }

  -- the first step of `remove_node`: the shadow goes
  unfoldable pub drop_shadow : GraphAccessor → String → GraphDelta → GraphDelta
  drop_shadow base name d = record d {
    added_nodes = im.shift_remove d.added_nodes name;
    added_non_base =
        if is_some (im.get d.added_nodes name) && not (is_some (base.get_node name))
        then d.added_non_base - 1
        else d.added_non_base;
  }

  -- the second: base edges are masked while the node still reads as present, then the tombstone
  unfoldable pub lay_tombstone : GraphAccessor → String → GraphDelta → GraphDelta
  lay_tombstone base name d =
      let d1 =
        if not (contains d.removed_nodes name) && is_some (base.get_node name)
        then (let d' = mask_incident_base_edges base name d in
            record d' { tombstone_base_hits = d'.tombstone_base_hits + 1 })
        else d in
      record d1 { removed_nodes = insert d1.removed_nodes name }

  -- the third: incident delta edges die in place
  unfoldable pub kill_incident : String → GraphDelta → GraphDelta
  kill_incident name d =
      let positions = get_or_empty d.out_index name ++ get_or_empty d.in_index name in
      let (edges, live) = kill_each (λ e. true) positions d.added_edges d.live_delta_edge_count in
      record d { added_edges = edges; live_delta_edge_count = live }

  unfoldable pub remove_node : GraphAccessor → String → GraphDelta → GraphDelta
  remove_node base name d = kill_incident name (lay_tombstone base name (drop_shadow base name d))

  unfoldable pub add_edge : String → String → EdgeData → GraphDelta → GraphDelta
  add_edge from to edge d =
      let p = as_u32 (length d.added_edges) in
      record d {
        out_index = push_at d.out_index from p;
        in_index = push_at d.in_index to p;
        added_edges =
            d.added_edges
            ++ (record {
              from = from;
              to = to;
              edge = record edge { acl = normalize_acl edge.acl };
              dead = false;
            }
                ∷ []);
        live_delta_edge_count = d.live_delta_edge_count + 1;
      }

  unfoldable pub count_live_base_edges_matching :
      GraphAccessor → GraphDelta → String → String → String → ℕ
  count_live_base_edges_matching base d from to kind =
      if contains d.removed_nodes from || contains d.removed_nodes to
      then 0
      else count (λ nb. nb.target_name == to && nb.edge_kind == kind) (base.outgoing_neighbors from)

  -- the first step of `remove_edge`: every live delta edge with the triple dies
  unfoldable pub kill_matching : String → String → String → GraphDelta → GraphDelta
  kill_matching from to kind d =
      let (edges, live) =
        kill_each (λ e. e.to == to && e.edge.kind == kind) (get_or_empty d.out_index from)
          d.added_edges d.live_delta_edge_count in
      record d { added_edges = edges; live_delta_edge_count = live }

  unfoldable pub remove_edge : GraphAccessor → String → String → String → GraphDelta → GraphDelta
  remove_edge base from to kind d =
      let d1 = kill_matching from to kind d in
      let key = edge_key from to kind in
      if contains d1.removed_edges key then d1 else record d1 {
        removed_edges = insert d1.removed_edges key;
        masked_base_edge_count =
            d1.masked_base_edge_count + count_live_base_edges_matching base d1 from to kind;
      }
