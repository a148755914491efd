-- ===== src/Delta/Merged.antt =====
-- The merged view without its fast paths: what `DeltaAccessor` shows is what the tombstones leave of
-- the base, then the live overlay edges.
use orpheusgraph.Prelude.{
  ◌≡◌, refl, sym, Eq, Bool, true, false, not, ◌&&◌, ◌||◌, String, Option, none, some, List, [], ◌∷◌,
  ◌++◌, append-nil, arith, string_eq, if◌then◌else◌, filter, Bool-cases, inl, inr, filter-all,
  filter-ext,
}
use orpheusgraph.HashSet.{contains}
use orpheusgraph.IndexMap.{IndexMap}
use orpheusgraph.Types.{NodeData}
use orpheusgraph.Accessor.{GraphAccessor, NodeView, NeighborView, view_of_node}
use orpheusgraph.Delta.Defs.{EdgeKey, key_eq, GraphDelta}
use orpheusgraph.Delta.Mutators.{edge_key}
use orpheusgraph.Delta.View.{
  is_nil, is_empty, keeps, retain_base, get_node, outgoing_neighbors, incoming_neighbors,
  outgoing_view, incoming_view,
}
use orpheusgraph.Delta.Index.{IsIndexed, select, push_each-positions}

module _ ⦃im : IndexMap String NodeData⦄ where
  -- A base edge is seen from its neighbour's side unless a tombstone lies on that node or the edge.
  abbrev pub unmasked : GraphDelta → (NeighborView → EdgeKey) → NeighborView → Bool
  unmasked d key nb =
      not (contains d.removed_nodes nb.target_name) && not (contains d.removed_edges (key nb))

  abbrev pub out_key : String → NeighborView → EdgeKey
  out_key name nb = edge_key name nb.target_name nb.edge_kind

  abbrev pub in_key : String → NeighborView → EdgeKey
  in_key name nb = edge_key nb.target_name name nb.edge_kind

  -- The edges that leave and enter a node in the merged graph, with no fast path.
  abbrev pub merged_out : GraphAccessor → GraphDelta → String → List NeighborView
  merged_out base d name =
      if contains d.removed_nodes name
      then []
      else (filter (unmasked d (out_key name)) (base.outgoing_neighbors name)
          ++ select (λ e. e.dead || contains d.removed_nodes e.to) outgoing_view (λ e. e.from) name
              d.added_edges)

  abbrev pub merged_in : GraphAccessor → GraphDelta → String → List NeighborView
  merged_in base d name =
      if contains d.removed_nodes name
      then []
      else (filter (unmasked d (in_key name)) (base.incoming_neighbors name)
          ++ select (λ e. e.dead || contains d.removed_nodes e.from) incoming_view (λ e. e.to) name
              d.added_edges)

  -- The test of emptiness before a lookup changes nothing.
  guard_removed :
      {A : Type 0} ⦃e : Eq A⦄ (s : List A) (a : A) → (not (is_nil s) && contains s a) ≡ contains s a
  unfolding contains
  guard_removed [] a = refl
  guard_removed (x ∷ s) a = refl

  keeps-unmasked :
      (d : GraphDelta) (key : NeighborView → EdgeKey) (nb : NeighborView)
      → keeps d key nb ≡ unmasked d key nb
  unfolding keeps
  keeps-unmasked d key nb =
      ground (
        arith,
        guard_removed d.removed_nodes nb.target_name,
        guard_removed d.removed_edges (key nb),
      )

  unmasked_of_nil :
      (d : GraphDelta) (key : NeighborView → EdgeKey)
      → (not (is_nil d.removed_nodes) || not (is_nil d.removed_edges)) ≡ false
      → (nb : NeighborView) → unmasked d key nb ≡ true
  unmasked_of_nil d key h nb =
      ground (
        arith,
        guard_removed d.removed_nodes nb.target_name,
        guard_removed d.removed_edges (key nb),
      )

  retain_base-filter :
      (d : GraphDelta) (key : NeighborView → EdgeKey) (nbs : List NeighborView)
      → retain_base d key nbs ≡ filter (unmasked d key) nbs
  unfolding retain_base
  retain_base-filter d key nbs =
      elim (Bool-cases (not (is_nil d.removed_nodes) || not (is_nil d.removed_edges))) [
        | inl h ↦ rw h (filter-ext _ _ (keeps-unmasked d key) nbs)
        | inr h ↦ rw h (sym (filter-all _ (unmasked_of_nil d key h) nbs))
      ]

  record IsBlank (d : GraphDelta) : Type 0 where
    edges : d.added_edges ≡ []
    nodes : d.removed_nodes ≡ []
    keys : d.removed_edges ≡ []

  is_empty-IsBlank : (d : GraphDelta) → is_empty d ≡ true → IsBlank d
  unfolding is_empty
  is_empty-IsBlank d h = ground arith

  unmasked_of_blank :
      (d : GraphDelta) (key : NeighborView → EdgeKey)
      → IsBlank d
      → (nb : NeighborView) → unmasked d key nb ≡ true
  unmasked_of_blank d key blank = unmasked_of_nil d key (simp (blank.nodes, blank.keys))

  pub outgoing_neighbors-merged :
      (base : GraphAccessor) (d : GraphDelta) (name : String)
      → IsIndexed d
      → outgoing_neighbors base d name ≡ merged_out base d name
  unfolding outgoing_neighbors contains
  outgoing_neighbors-merged base d name h = elim (Bool-cases (is_empty d)) [
    | inl e ↦
        let blank = is_empty-IsBlank d e in
        simp (e, blank.edges, blank.nodes, append-nil)
          (sym (
            filter-all _ (unmasked_of_blank d (out_key name) blank) (base.outgoing_neighbors name)))
    | inr e ↦ simp (e, guard_removed, retain_base-filter, h.out_indexed, push_each-positions)
  ]

  pub incoming_neighbors-merged :
      (base : GraphAccessor) (d : GraphDelta) (name : String)
      → IsIndexed d
      → incoming_neighbors base d name ≡ merged_in base d name
  unfolding incoming_neighbors contains
  incoming_neighbors-merged base d name h = elim (Bool-cases (is_empty d)) [
    | inl e ↦
        let blank = is_empty-IsBlank d e in
        simp (e, blank.edges, blank.nodes, append-nil)
          (sym
            (filter-all _ (unmasked_of_blank d (in_key name) blank) (base.incoming_neighbors name)))
    | inr e ↦ simp (e, guard_removed, retain_base-filter, h.in_indexed, push_each-positions)
  ]

  -- A node of the merged graph: its shadow, or what the tombstones leave of the base.
  abbrev pub merged_node : GraphAccessor → GraphDelta → String → Option NodeView
  merged_node base d name = elim (im.get d.added_nodes name) [
    | some nd ↦ some (view_of_node nd)
    | none ↦ if contains d.removed_nodes name then none else base.get_node name
  ]

  pub get_node-merged :
      (base : GraphAccessor) (d : GraphDelta) (name : String)
      → get_node base d name ≡ merged_node base d name
  unfolding get_node contains
  get_node-merged base d name =
      ground (arith, guard_removed d.removed_nodes name, im.is_some-get d.added_nodes name)
