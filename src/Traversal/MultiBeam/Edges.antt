-- ===== src/Traversal/MultiBeam/Edges.antt =====
-- The edges that `multi_beam_intersection` reconstructs over a set of names.
use orpheusgraph.Prelude.{
  ◌≡◌, ◌⊎◌, inl, inr, refl, subst, sym, true, ◌||◌, ◌&&◌, String, List, [], ◌∷◌, ◌++◌, map, arith,
  Bool-cases, string_eq, ◌==◌, ap,
}
use orpheusgraph.HashSet.{contains, Distinct, contains-insert}
use orpheusgraph.Types.{EdgeData}
use orpheusgraph.Types.Context.{DynamicContext, is_edge_visible}
use orpheusgraph.Accessor.{GraphAccessor, NeighborView}
use orpheusgraph.Graph.{EdgeResult, edge_result}
use orpheusgraph.Delta.Defs.{EdgeKey, key_eq}
use orpheusgraph.Overlay.Defs.{OverlayEdge}
use orpheusgraph.Traversal.Lists.{
  All, All-append, Among, All-of_Among, contains-append, Distinct-append,
}
use orpheusgraph.Traversal.MultiBeam.{
  EdgeList, key_of, push_edge, edge_of_view, push_base, push_overlay, push_edges,
}

abbrev pub keys : List EdgeResult → List EdgeKey
keys es = map (λ e. key_of e) es

keys-append : (xs ys : List EdgeResult) → keys (xs ++ ys) ≡ keys xs ++ keys ys
keys-append [] ys = refl
keys-append (x ∷ xs) ys = ap (◌∷◌ (key_of x)) (keys-append xs ys)

contains-keys :
    (xs : List EdgeResult) (e : EdgeResult) (k : EdgeKey)
    → contains (keys (xs ++ (e ∷ []))) k ≡ (contains (keys xs) k || key_of e == k)
unfolding contains
contains-keys xs e k =
    rw (keys-append xs (e ∷ [])) (ground (arith, contains-append (keys xs) (key_of e ∷ []) k))

module _ (P : EdgeResult → Type 0) where
  -- every edge is good, and no source, target and kind stand twice
  pub record IsPushed (s : EdgeList) : Type 0 where
    pub good : All P s.edges
    pub seen : (k : EdgeKey) → contains s.seen_edges k ≡ contains (keys s.edges) k
    pub distinct : Distinct (keys s.edges)

  pub push_edge-IsPushed :
      (e : EdgeResult) → P e → (s : EdgeList) → IsPushed s → IsPushed (push_edge e s)
  unfolding push_edge contains
  push_edge-IsPushed e p s h = elim (Bool-cases (contains s.seen_edges (key_of e))) [
    | inl t ↦ rw (t, push_edge) h
    | inr t ↦
        rw (t, push_edge)
          (record {
            good = All-append P s.edges (e ∷ []) h.good (p, tt);
            seen = λ k. ground (
              arith,
              contains-insert s.seen_edges (key_of e) k,
              contains-keys s.edges e k,
              h.seen k,
            );
            distinct = subst Distinct (sym (keys-append s.edges (e ∷ []))) (
                Distinct-append (keys s.edges) (key_of e ∷ []) h.distinct (refl, tt)
                  (λ k m. ground (arith, h.seen k, t, key_eq.beq_iff (key_of e) k, m)));
          })
  ]

module _ (graph : GraphAccessor) (ctx : DynamicContext) (kept : List String) where
  -- an edge of the graph or of the overlay that the request sees, between names that are kept
  pub record IsEdge (e : EdgeResult) : Type 0 where
    pub visible : is_edge_visible ctx e.valid_from e.valid_to e.acl ≡ true
    pub source : contains kept e.source ≡ true
    pub target : contains kept e.target ≡ true
    pub origin :
        ((nb : NeighborView) × (Among nb (graph.outgoing_neighbors e.source)
            × (e ≡ edge_of_view e.source nb)))
        ⊎ ((d : EdgeData) × (Among (e.source, (e.target, d)) ctx.overlay_edges
              × (e ≡ edge_result e.source e.target d)))

  push_base-IsPushed :
      (name : String)
      → contains kept name ≡ true
      → (ns : List NeighborView) → All (λ nb. Among nb (graph.outgoing_neighbors name)) ns
      → (s : EdgeList) → IsPushed IsEdge s
      → IsPushed IsEdge (push_base graph ctx kept name ns s)
  unfolding push_base
  push_base-IsPushed name k [] among s h = h
  push_base-IsPushed name k (nb ∷ ns) (a, among) s h =
      elim (Bool-cases
        (is_edge_visible ctx nb.valid_from nb.valid_to nb.acl && contains kept nb.target_name)) [
          | inr t ↦ rw (t, push_base) (push_base-IsPushed name k ns among s h)
          | inl t ↦
              rw (t, push_base)
                (push_base-IsPushed name k ns among _ (
                  push_edge-IsPushed IsEdge (edge_of_view name nb)
                    (record {
                      visible = ground (arith, t);
                      source = k;
                      target = ground (arith, t);
                      origin = inl (nb, (a, refl));
                    })
                    s h))
        ]

  push_overlay-IsPushed :
      (name : String)
      → contains kept name ≡ true
      → (os : List OverlayEdge) → All (λ o. Among o ctx.overlay_edges) os
      → (s : EdgeList) → IsPushed IsEdge s
      → IsPushed IsEdge (push_overlay graph ctx kept name os s)
  unfolding push_overlay
  push_overlay-IsPushed name k [] among s h = h
  push_overlay-IsPushed name k ((from, (to, d)) ∷ os) (a, among) s h =
      elim (Bool-cases
        (is_edge_visible ctx d.valid_from d.valid_to d.acl && (from == name && contains kept to))) [
          | inr t ↦ rw (t, push_overlay) (push_overlay-IsPushed name k os among s h)
          | inl t ↦
              let same : name ≡ from = sym ((string_eq.beq_iff from name).0 (ground (arith, t))) in
              rw (t, push_overlay)
                (push_overlay-IsPushed name k os among _ (
                  push_edge-IsPushed IsEdge (edge_result from to d)
                    (record {
                      visible = ground (arith, t);
                      source = subst (λ n. contains kept n ≡ true) same k;
                      target = ground (arith, t);
                      origin = inr (d, (a, refl));
                    })
                    s h))
        ]

  pub push_edges-IsPushed :
      (ns : List String)
      → All (λ n. contains kept n ≡ true) ns
      → (s : EdgeList) → IsPushed IsEdge s
      → IsPushed IsEdge (push_edges graph ctx kept ns s)
  unfolding push_edges
  push_edges-IsPushed [] known s h = h
  push_edges-IsPushed (name ∷ ns) (k, known) s h = push_edges-IsPushed ns known _ (
      push_overlay-IsPushed name k ctx.overlay_edges (All-of_Among _ _ (λ o m. m)) _ (
        push_base-IsPushed name k (graph.outgoing_neighbors name) (All-of_Among _ _ (λ nb m. m)) s
          h))
