-- ===== src/Builder/Built.antt =====
-- The nodes of a graph that src/builder.rs built, found by name.
use orpheusgraph.Prelude.{
  ℕ, ◌≡◌, refl, subst, ap, ◌∙◌, Bool, String, Option, none, some, List, [], ◌∷◌, map, Bool-cases,
  Option-cases, inl, inr, ◌==◌, string_eq, nat_eq,
}
use orpheusgraph.HashMap
use orpheusgraph.HashMap.{HashMap, get-insert, get-new}
use orpheusgraph.Types.{NodeData, NodeInput, EdgeInput, F32}
use orpheusgraph.Graph.{DiGraph, OrpheusGraphInner}
use orpheusgraph.Scoring.{Float}
use orpheusgraph.Overlay.Defs.{FloatOrder}
use orpheusgraph.Builder.{
  GraphBuilder, FloatBuild, node_of_input, insert_nodes, insert_edge, insert_edges, store_scores,
  compute_pagerank, build_graph_inner, canonical_nodes, is_malformed, edge_data_of,
}
use orpheusgraph.Builder.Canonical.{last_named}
use orpheusgraph.Builder.Nodes.{
  BuilderLaws, StoresNode, unranked, weighed, weighed-name, last_named-canonical,
  insert_nodes-StoresNode,
}

module _ ⦃fl : Float⦄ {G : Type 0} ⦃dg : DiGraph G⦄ where
  -- the node that a name leads to in the built graph, up to its rank
  abbrev pub FindsNode :
      (NodeInput → NodeData) → OrpheusGraphInner G → String → Option NodeInput → Type 0
  FindsNode f built x none = HashMap.get built.index_map x ≡ none
  FindsNode f built x (some n) =
      (i : ℕ) × ((HashMap.get built.index_map x ≡ some i)
        × (unranked fl.zero (dg.node_at built.graph i) ≡ f n))

module _ ⦃fl : Float⦄ ⦃fo : FloatOrder⦄ ⦃fb : FloatBuild⦄ {G : Type 0} ⦃dg : DiGraph G⦄
    ⦃gb : GraphBuilder G⦄ (laws : BuilderLaws G) where
  -- edges and ranks leave the nodes as they are
  node_at-insert_edge :
      (m : HashMap String ℕ) (e : EdgeInput) (g : G) (k : ℕ)
      → dg.node_at (insert_edge m g e) k ≡ dg.node_at g k
  unfolding insert_edge
  node_at-insert_edge m e g k = elim (Option-cases (HashMap.get m e.from)) [
    | inl r ↦ rw (r, insert_edge) refl
    | inr (i, r) ↦ elim (Option-cases (HashMap.get m e.to)) [
      | inl t ↦ rw (r, insert_edge, t) refl
      | inr (j, t) ↦ elim (Bool-cases (is_malformed e)) [
        | inl q ↦ rw (r, insert_edge, t, q) refl
        | inr q ↦ rw (r, insert_edge, t, q) (laws.node_at-add_edge g i j (edge_data_of e) k)
      ]
    ]
  ]

  node_at-insert_edges :
      (m : HashMap String ℕ) (es : List EdgeInput) (g : G) (k : ℕ)
      → dg.node_at (insert_edges m es g) k ≡ dg.node_at g k
  unfolding insert_edges
  node_at-insert_edges m [] g k = refl
  node_at-insert_edges m (e ∷ es) g k =
      node_at-insert_edges m es (insert_edge m g e) k ∙ node_at-insert_edge m e g k

  unranked-store_scores :
      (norm v : F32) (is : List ℕ) (scores : List F32) (g : G) (k : ℕ)
      → unranked v (dg.node_at (store_scores norm is scores g) k) ≡ unranked v (dg.node_at g k)
  unfolding store_scores
  unranked-store_scores norm v [] scores g k = refl
  unranked-store_scores norm v (i ∷ is) scores g k =
      unranked-store_scores norm v is scores _ k ∙ laws.node_at-set_pagerank_weight g i _ v k

  unranked-compute_pagerank :
      (n : ℕ) (v : F32) (g : G) (k : ℕ)
      → unranked v (dg.node_at (compute_pagerank n g) k) ≡ unranked v (dg.node_at g k)
  unfolding compute_pagerank
  unranked-compute_pagerank n v g k = elim (Bool-cases (dg.node_count g == 0)) [
    | inl r ↦ rw (r) refl
    | inr r ↦ rw (r) (unranked-store_scores _ v _ _ g k)
  ]

  FindsNode-built :
      (nodes : List NodeInput) (edges : List EdgeInput) (normalize : Bool) (x : String)
      (o : Option NodeInput)
      → StoresNode
          (weighed nodes normalize)
          (insert_nodes
            (map (weighed nodes normalize) (canonical_nodes nodes))
            gb.empty
            HashMap.new).graph
          (insert_nodes
            (map (weighed nodes normalize) (canonical_nodes nodes))
            gb.empty
            HashMap.new).index_map
          x
          o
      → FindsNode {G = G} (weighed nodes normalize) (build_graph_inner nodes edges normalize) x o
  unfolding build_graph_inner node_of_input
  FindsNode-built nodes edges normalize x none h = h
  FindsNode-built nodes edges normalize x (some n) (i, (at, (inside, eq))) = (
    i,
    (
      at,
      unranked-compute_pagerank 20 fl.zero _ i
          ∙ (ap (unranked fl.zero) (node_at-insert_edges _ edges _ i ∙ eq) ∙ refl),
    ),
  )

  pub build_graph_inner-FindsNode :
      (nodes : List NodeInput) (edges : List EdgeInput) (normalize : Bool) (x : String)
      → FindsNode {G = G}
          (weighed nodes normalize)
          (build_graph_inner nodes edges normalize)
          x
          (last_named x none nodes)
  build_graph_inner-FindsNode nodes edges normalize x =
      FindsNode-built nodes edges normalize x (last_named x none nodes) (
        subst
          (StoresNode (weighed nodes normalize)
            (insert_nodes (map (weighed nodes normalize) (canonical_nodes nodes)) gb.empty
              HashMap.new).graph
            (insert_nodes (map (weighed nodes normalize) (canonical_nodes nodes)) gb.empty
              HashMap.new).index_map
            x)
          (last_named-canonical x nodes)
          (insert_nodes-StoresNode laws (weighed nodes normalize) (weighed-name nodes normalize)
            (canonical_nodes nodes) gb.empty HashMap.new x none (get-new x)))
