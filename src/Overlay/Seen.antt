-- ===== src/Overlay/Seen.antt =====
-- The neighbours that a query of src/overlay.rs sees, told edge by edge of the graph and of the request.
use orpheusgraph.Prelude.{
  ℕ, ◌≡◌, ◌<◌, refl, ap, ◌∙◌, Bool, true, false, ◌&&◌, String, none, some, List, [], ◌∷◌, ◌++◌,
  filter, map, length, ◌==◌, string_eq, Bool-cases, Option-cases, inl, inr, arith,
}
use orpheusgraph.HashMap
use orpheusgraph.Types.{F32}
use orpheusgraph.Types.Context.{DynamicContext, is_edge_visible}
use orpheusgraph.Accessor.{GraphAccessor, NodeView, NeighborView}
use orpheusgraph.Overlay.Defs.{
  FloatOrder, NeighborEntry, OverlayEdge, build, entry_of_base, entry_of_overlay,
  collect_overlay_edges, is_cut, neighbors_with_overlay_unfiltered, neighbors_with_overlay_indexed,
  neighbors_with_overlay,
}
use orpheusgraph.Overlay.Reference.{leaving, edges_from-build}

filter-append :
    {A : Type 0} (p : A → Bool) (xs ys : List A) → filter p (xs ++ ys) ≡ filter p xs ++ filter p ys
filter-append p [] ys = refl
filter-append p (x ∷ xs) ys = ground (arith, filter-append p xs ys)

-- the edges of the graph that the request may see
abbrev pub base_part : DynamicContext → List NeighborView → List NeighborEntry
base_part ctx nbs =
    map
      (λ nb. record {
        name = nb.target_name;
        edge_kind = nb.edge_kind;
        field_name = nb.field_name;
        edge_weight = nb.edge_weight;
        is_overlay = false;
        valid_from = nb.valid_from;
        valid_to = nb.valid_to;
        acl = nb.acl;
      })
      (filter (λ nb. is_edge_visible ctx nb.valid_from nb.valid_to nb.acl) nbs)

-- the edges of the request that leave `name` and that it may see
abbrev pub overlay_part : DynamicContext → String → List OverlayEdge → List NeighborEntry
overlay_part ctx name es =
    map
      (λ e. record {
        name = e.1.0;
        edge_kind = e.1.1.kind;
        field_name = e.1.1.field_name;
        edge_weight = e.1.1.base_weight;
        is_overlay = true;
        valid_from = e.1.1.valid_from;
        valid_to = e.1.1.valid_to;
        acl = e.1.1.acl;
      })
      (filter (λ e. e.0 == name && is_edge_visible ctx e.1.1.valid_from e.1.1.valid_to e.1.1.acl)
        es)

base_part_lem :
    (ctx : DynamicContext) (nbs : List NeighborView)
    → filter (λ n. is_edge_visible ctx n.valid_from n.valid_to n.acl) (map entry_of_base nbs)
      ≡ base_part ctx nbs
base_part_lem ctx [] = refl
base_part_lem ctx (nb ∷ nbs) = ground (arith, base_part_lem ctx nbs)

overlay_part_lem :
    (ctx : DynamicContext) (name : String) (es : List OverlayEdge)
    → filter
        (λ n. is_edge_visible ctx n.valid_from n.valid_to n.acl)
        (map entry_of_overlay (leaving name es))
      ≡ overlay_part ctx name es
overlay_part_lem ctx name [] = refl
overlay_part_lem ctx name (e ∷ es) = ground (arith, overlay_part_lem ctx name es)

module _ ⦃fl : FloatOrder⦄ where
  -- The cutoff of a request: a node has more neighbours than it allows, no boost above zero, and no rank
  -- above the bypass.
  pub record Skips (ctx : DynamicContext) (name : String) (rank : F32) (n : ℕ) : Type 0 where
    pub limit : ℕ
    pub given : ctx.max_fan_out ≡ some limit
    pub exceeded : limit < n
    pub no_boost :
        (b : F32) → HashMap.get ctx.semantic_boosts name ≡ some b → fl.gt b fl.zero ≡ false
    pub no_bypass : (t : F32) → ctx.fan_out_pagerank_bypass ≡ some t → fl.gt rank t ≡ false

  Skips-is_cut :
      (ctx : DynamicContext) (name : String) (v : NodeView) (nbs : List NeighborView)
      → Skips ctx name v.pagerank_weight (length nbs)
      → is_cut ctx name v nbs ≡ true
  unfolding is_cut
  Skips-is_cut ctx name v nbs s = elim (Option-cases (HashMap.get ctx.semantic_boosts name)) [
    | inl r ↦ elim (Option-cases ctx.fan_out_pagerank_bypass) [
      | inl q ↦ ground (arith, s.given, s.exceeded, r, q)
      | inr (t, q) ↦ ground (arith, s.given, s.exceeded, r, q, s.no_bypass t q)
    ]
    | inr (b, r) ↦ elim (Option-cases ctx.fan_out_pagerank_bypass) [
      | inl q ↦ ground (arith, s.given, s.exceeded, r, q, s.no_boost b r)
      | inr (t, q) ↦ ground (arith, s.given, s.exceeded, r, q, s.no_boost b r, s.no_bypass t q)
    ]
  ]

  is_cut-Skips :
      (ctx : DynamicContext) (name : String) (v : NodeView) (nbs : List NeighborView)
      → is_cut ctx name v nbs ≡ true
      → Skips ctx name v.pagerank_weight (length nbs)
  unfolding is_cut
  is_cut-Skips ctx name v nbs h = elim (Option-cases ctx.max_fan_out) [
    | inl r ↦ ground (arith, h, r)
    | inr (limit, r) ↦ record {
      limit = limit;
      given = r;
      exceeded = ground (arith, h, r);
      no_boost = λ b e. ground (arith, h, r, e);
      no_bypass = λ t e. ground (arith, h, r, e);
    }
  ]

  -- what the neighbours of `name` are, by whether the graph has it and the cutoff skips it
  pub record IsSeen (graph : GraphAccessor) (ctx : DynamicContext) (name : String)
      (found : List NeighborEntry) : Type 0 where
    pub absent : graph.get_node name ≡ none → found ≡ overlay_part ctx name ctx.overlay_edges
    pub skipped :
        (v : NodeView)
        → graph.get_node name ≡ some v
        → Skips ctx name v.pagerank_weight (length (graph.outgoing_neighbors name))
        → found ≡ overlay_part ctx name ctx.overlay_edges
    pub whole :
        (v : NodeView)
        → graph.get_node name ≡ some v
        → ¬ Skips ctx name v.pagerank_weight (length (graph.outgoing_neighbors name))
        → found
          ≡ base_part ctx (graph.outgoing_neighbors name) ++ overlay_part ctx name ctx.overlay_edges

  overlaid :
      (ctx : DynamicContext) (name : String) (es : List NeighborEntry)
      → filter
          (λ n. is_edge_visible ctx n.valid_from n.valid_to n.acl)
          (collect_overlay_edges (build ctx) name es)
        ≡ filter (λ n. is_edge_visible ctx n.valid_from n.valid_to n.acl) es
          ++ overlay_part ctx name ctx.overlay_edges
  unfolding collect_overlay_edges
  overlaid ctx name es =
      ap
        (λ l.
          filter (λ n. is_edge_visible ctx n.valid_from n.valid_to n.acl)
            (es ++ map entry_of_overlay l))
        (edges_from-build ctx name)
      ∙ (filter-append (λ n. is_edge_visible ctx n.valid_from n.valid_to n.acl) es _
          ∙ ap (λ l. filter (λ n. is_edge_visible ctx n.valid_from n.valid_to n.acl) es ++ l)
              (overlay_part_lem ctx name ctx.overlay_edges))

  pub neighbors_with_overlay-IsSeen :
      (graph : GraphAccessor) (ctx : DynamicContext) (name : String)
      → IsSeen graph ctx name (neighbors_with_overlay graph ctx name)
  unfolding neighbors_with_overlay neighbors_with_overlay_indexed neighbors_with_overlay_unfiltered
  neighbors_with_overlay-IsSeen graph ctx name = record {
    absent = λ r. rw (r, neighbors_with_overlay_unfiltered) (overlaid ctx name []);
    skipped = λ v r s.
        let cut = Skips-is_cut ctx name v (graph.outgoing_neighbors name) s in
        rw (r, neighbors_with_overlay_unfiltered, cut) (overlaid ctx name []);
    whole = λ v r none_skipped.
        elim (Bool-cases (is_cut ctx name v (graph.outgoing_neighbors name))) [
          | inl t ↦
              absurd (none_skipped (is_cut-Skips ctx name v (graph.outgoing_neighbors name) t))
          | inr t ↦
              rw (r, neighbors_with_overlay_unfiltered, t)
                (overlaid ctx name (map entry_of_base (graph.outgoing_neighbors name))
                  ∙ ap (λ l. l ++ overlay_part ctx name ctx.overlay_edges)
                      (base_part_lem ctx (graph.outgoing_neighbors name)))
        ];
  }
