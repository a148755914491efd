-- ===== src/Delta/Indexed.antt =====
-- The position indexes of src/delta.rs under the operations.
use orpheusgraph.Prelude.{◌<◌, ◌^◌, ◌≡◌, refl, sym, ◌∙◌, String, arith, string_eq, length}
use native.Mathlib.Nat.{mod-eq_of_lt, zero-add}
use orpheusgraph.HashMap.{get_or_empty-push_at, get_or_empty-new}
use orpheusgraph.IndexMap.{IndexMap}
use orpheusgraph.Types.{NodeData, EdgeData}
use orpheusgraph.Accessor.{GraphAccessor}
use orpheusgraph.Delta.Defs.{Op, GraphDelta, new}
use orpheusgraph.Delta.Mutators.{
  mask_incident_base_edges, unmask_incident_base_edges, clear_tombstone, upsert_node, drop_shadow,
  lay_tombstone, kill_incident, remove_node, add_edge, kill_matching, remove_edge,
}
use orpheusgraph.Delta.Apply.{step}
use orpheusgraph.Delta.Index.{positions, positions-append, IsIndexed}
use orpheusgraph.Delta.Kills.{kill_each-positions}

module _ ⦃im : IndexMap String NodeData⦄ where
  -- an operation that leaves the edges and the indexes alone
  pub record SameEdges (d d' : GraphDelta) : Type 0 where
    pub edges : d'.added_edges ≡ d.added_edges
    pub out : d'.out_index ≡ d.out_index
    pub inc : d'.in_index ≡ d.in_index

  pub SameEdges-IsIndexed : (d d' : GraphDelta) → SameEdges d d' → IsIndexed d → IsIndexed d'
  SameEdges-IsIndexed d d' same h = record {
    out_indexed = λ name. rw same.out (rw same.edges (h.out_indexed name));
    in_indexed = λ name. rw same.inc (rw same.edges (h.in_indexed name));
  }

  pub upsert_node-SameEdges :
      (base : GraphAccessor) (nd : NodeData) (d : GraphDelta) → SameEdges d (upsert_node base nd d)
  unfolding upsert_node clear_tombstone unmask_incident_base_edges
  upsert_node-SameEdges base nd d = ground arith

  pub lay_tombstone-SameEdges :
      (base : GraphAccessor) (name : String) (d : GraphDelta)
      → SameEdges d (lay_tombstone base name (drop_shadow base name d))
  unfolding lay_tombstone drop_shadow mask_incident_base_edges
  lay_tombstone-SameEdges base name d = ground arith

  kill_incident-IsIndexed :
      (name : String) (d : GraphDelta) → IsIndexed d → IsIndexed (kill_incident name d)
  unfolding kill_incident
  kill_incident-IsIndexed name d h = record {
    out_indexed = λ x.
        h.out_indexed x ∙ sym (kill_each-positions (λ e. e.from) (λ e. refl) x _ _ d.added_edges _);
    in_indexed = λ x.
        h.in_indexed x ∙ sym (kill_each-positions (λ e. e.to) (λ e. refl) x _ _ d.added_edges _);
  }

  kill_matching-IsIndexed :
      (from to kind : String) (d : GraphDelta)
      → IsIndexed d
      → IsIndexed (kill_matching from to kind d)
  unfolding kill_matching
  kill_matching-IsIndexed from to kind d h = record {
    out_indexed = λ x.
        h.out_indexed x ∙ sym (kill_each-positions (λ e. e.from) (λ e. refl) x _ _ d.added_edges _);
    in_indexed = λ x.
        h.in_indexed x ∙ sym (kill_each-positions (λ e. e.to) (λ e. refl) x _ _ d.added_edges _);
  }

  pub remove_edge-SameEdges :
      (base : GraphAccessor) (from to kind : String) (d : GraphDelta)
      → SameEdges (kill_matching from to kind d) (remove_edge base from to kind d)
  unfolding remove_edge
  remove_edge-SameEdges base from to kind d = ground arith

  add_edge-IsIndexed :
      (from to : String) (edge : EdgeData) (d : GraphDelta)
      → length d.added_edges < 2 ^ 32
      → IsIndexed d
      → IsIndexed (add_edge from to edge d)
  unfolding add_edge
  add_edge-IsIndexed from to edge d room h = record {
    out_indexed = λ x.
        rw (get_or_empty-push_at, positions-append, mod-eq_of_lt room, zero-add)
          (rw (h.out_indexed x));
    in_indexed = λ x.
        rw (get_or_empty-push_at, positions-append, mod-eq_of_lt room, zero-add)
          (rw (h.in_indexed x));
  }

  pub new-IsIndexed : IsIndexed new
  unfolding positions
  new-IsIndexed = record {
    out_indexed = λ name. get_or_empty-new name;
    in_indexed = λ name. get_or_empty-new name;
  }

  -- what an operation asks of the overlay: an added edge finds a position that fits a `u32`
  abbrev pub Room : Op → GraphDelta → Type 0
  Room (Op.add_edge from to edge) d = length d.added_edges < 2 ^ 32
  Room _ d = Unit

  -- Every operation keeps the indexes: each holds exactly the positions of its name's edges, in
  -- order, provided an added edge finds a position that fits a `u32`.
  pub step-IsIndexed :
      (base : GraphAccessor) (op : Op) (d : GraphDelta)
      → Room op d
      → IsIndexed d
      → IsIndexed (step base op d)
  unfolding step remove_node
  step-IsIndexed base (Op.upsert_node nd) d room h =
      SameEdges-IsIndexed d _ (upsert_node-SameEdges base nd d) h
  step-IsIndexed base (Op.remove_node name) d room h =
      kill_incident-IsIndexed name _
        (SameEdges-IsIndexed d _ (lay_tombstone-SameEdges base name d) h)
  step-IsIndexed base (Op.add_edge from to edge) d room h = add_edge-IsIndexed from to edge d room h
  step-IsIndexed base (Op.remove_edge from to kind) d room h =
      SameEdges-IsIndexed _ _ (remove_edge-SameEdges base from to kind d)
        (kill_matching-IsIndexed from to kind d h)
