-- ===== src/Traversal/Score.antt =====
-- What the queries share: the score of a name, and the edges that a request sees.
use orpheusgraph.Prelude.{
  ℕ, suc, ◌≡◌, inl, inr, true, String, Option, none, some, List, [], ◌∷◌, map, arith, Option-cases,
  string_eq,
}
use orpheusgraph.HashMap
use orpheusgraph.HashMap.{HashMap, get-insert, get-new}
use orpheusgraph.HashSet.{contains}
use orpheusgraph.Types.{NodeData}
use orpheusgraph.Types.Context.{DynamicContext}
use orpheusgraph.Accessor.{GraphAccessor, NodeView}
use orpheusgraph.Scoring.{Float, NodeResult, compute_score}
use orpheusgraph.Overlay.Defs.{
  FloatOrder, OverlayIndex, neighbors_with_overlay, resolve_overlay_node_indexed, index_nodes,
  build,
}

module _ ⦃fl : Float⦄ where
  -- The node of the graph, else the one of the overlay, else none.
  unfoldable pub score_of :
      GraphAccessor → DynamicContext → OverlayIndex → String → Option NodeResult
  score_of graph ctx overlay name = elim (graph.get_node name) [
    | some node_view ↦ some (compute_score node_view ctx)
    | none ↦ elim (resolve_overlay_node_indexed name overlay) [
      | some overlay_view ↦ some (compute_score overlay_view ctx)
      | none ↦ none
    ]
  ]

-- a graph whose nodes answer to their own names
abbrev pub IsNamed : GraphAccessor → Type 0
IsNamed graph = (name : String) (v : NodeView) → graph.get_node name ≡ some v → v.name ≡ name

index_nodes-named :
    (ns : List NodeData) (m : HashMap String NodeData)
    → ((k : String) (n : NodeData) → HashMap.get m k ≡ some n → n.name ≡ k)
    → (k : String) (n : NodeData) → HashMap.get (index_nodes ns m) k ≡ some n
    → n.name ≡ k
unfolding index_nodes
index_nodes-named [] m h k n r = h k n r
index_nodes-named (d ∷ ns) m h k n r =
    index_nodes-named ns (HashMap.insert m d.name d)
      (λ k n r. ground (arith, get-insert m d.name d k, string_eq.beq_iff d.name k, h k n)) k n r

module _ ⦃fl : Float⦄ where
  pub score_of-named :
      (graph : GraphAccessor) (ctx : DynamicContext)
      → IsNamed graph
      → (name : String) (r : NodeResult) → score_of graph ctx (build ctx) name ≡ some r
      → r.name ≡ name
  unfolding score_of compute_score build resolve_overlay_node_indexed
  score_of-named graph ctx h name r e = elim (Option-cases (graph.get_node name)) [
    | inr (v, g) ↦ ground (arith, g, h name v g)
    | inl g ↦ elim (Option-cases (HashMap.get (build ctx).nodes name)) [
      | inl o ↦ ground (arith, g, o)
      | inr (n, o) ↦
          let named =
            index_nodes-named ctx.overlay_nodes HashMap.new
              (λ k m z. ground (arith, z, get-new {V = NodeData} k)) name n o in
          ground (arith, g, o, named)
    ]
  ]

module _ ⦃fl : FloatOrder⦄ where
  -- a visible edge of the merged graph
  abbrev pub Leads : GraphAccessor → DynamicContext → String → String → Type 0
  Leads graph ctx a b = contains (map (λ n. n.name) (neighbors_with_overlay graph ctx a)) b ≡ true

  -- `b` lies at the end of a walk over `n` visible edges
  pub data Walk (graph : GraphAccessor) (ctx : DynamicContext) (start : String)
      : ℕ → String → Type 0 where
    stay : Walk graph ctx start 0 start
    step :
        {n : ℕ} {a b : String}
        → Walk graph ctx start n a
        → Leads graph ctx a b
        → Walk graph ctx start (suc n) b
