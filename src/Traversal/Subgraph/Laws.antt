-- ===== src/Traversal/Subgraph/Laws.antt =====
-- What `contextual_subgraph` answers with.
use orpheusgraph.Prelude.{ℕ, ◌≡◌, refl, true, ◌&&◌, String, List, some, arith, string_eq, is_some}
use orpheusgraph.HashSet.{contains, Distinct}
use orpheusgraph.Types.Context.{DynamicContext}
use orpheusgraph.Accessor.{GraphAccessor}
use orpheusgraph.Scoring.{Float}
use orpheusgraph.Overlay.Defs.{FloatOrder, build}
use orpheusgraph.Traversal.Lists.{All, All-mono}
use orpheusgraph.Traversal.Sort.{
  total_key, sort_by, All-sort_by, IsDescending, sort_by-IsDescending, contains-sort_by,
  sort_by-Distinct,
}
use orpheusgraph.Traversal.Score.{score_of, IsNamed}
use orpheusgraph.Traversal.Beam.{result_leb}
use orpheusgraph.Traversal.Beam.Candidates.{names, follows, precedes}
use orpheusgraph.Traversal.Subgraph.{
  SubGraph, edge_leb, seeds, collect_seeds, retain_present, contextual_subgraph,
}
use orpheusgraph.Traversal.Subgraph.Top.{IsTop, seeds-IsTop}
use orpheusgraph.Traversal.Subgraph.Seeds.{
  All-known, All-filter, score, IsCollected, IsVisible, IsReached, add_seeds-IsCollected,
  add_seeds-seeds,
}

module _ ⦃fl : Float⦄ ⦃fo : FloatOrder⦄ (graph : GraphAccessor) (ctx : DynamicContext) where
  collect_seeds-IsCollected :
      (k : ℕ)
      → IsNamed graph
      → IsCollected graph ctx (seeds ctx k) (collect_seeds graph ctx (build ctx) k)
  unfolding collect_seeds contains
  collect_seeds-IsCollected k named =
      add_seeds-IsCollected graph ctx named (seeds ctx k) (seeds ctx k)
        (All-known (seeds ctx k) (seeds ctx k) (λ x m. m)) _
        (record { distinct = tt; agree = λ x. refl; scored = tt; reached = tt; visible = tt })

  collect_seeds-seeds :
      (k : ℕ) (x : String)
      → contains (seeds ctx k) x ≡ true
      → is_some (score graph ctx x) ≡ true
      → contains (collect_seeds graph ctx (build ctx) k).node_set x ≡ true
  unfolding collect_seeds
  collect_seeds-seeds k x m has = add_seeds-seeds graph ctx (seeds ctx k) _ x m has

  -- what the answer to a request for `k` seeds has
  pub record IsContextual (k : ℕ) (g : SubGraph) : Type 0 where
    pub roots : List String
    pub top : IsTop k ctx.semantic_boosts.pairs roots
    pub distinct : Distinct (names g.nodes)
    pub falling : IsDescending (λ r. total_key r.weight) g.nodes
    pub scored : All (λ r. score_of graph ctx (build ctx) r.name ≡ some r) g.nodes
    pub reached : All (λ r. IsReached graph ctx roots r.name) g.nodes
    pub seeded :
        (x : String)
        → contains roots x ≡ true
        → is_some (score_of graph ctx (build ctx) x) ≡ true
        → contains (names g.nodes) x ≡ true
    pub visible : All (IsVisible graph ctx) g.edges
    pub closed :
        All
          (λ e.
            (contains (names g.nodes) e.source ≡ true) × (contains (names g.nodes) e.target ≡ true))
          g.edges

  -- Over a graph whose nodes answer to their own names, the subgraph for `k` seeds has no node twice, the
  -- weights never rise, every node has the score that the request gives it and is a seed or the target of a
  -- visible edge of one, and each seed that has a node is there, where the seeds are the names of `k` boosts of
  -- the request, or of all where there are fewer, and no other boost of it is higher than one of those; every edge is one that the request sees, and both its ends are among the nodes.
  pub contextual_subgraph-IsContextual :
      (k : ℕ) → IsNamed graph → IsContextual k (contextual_subgraph graph ctx k)
  unfolding contextual_subgraph retain_present
  contextual_subgraph-IsContextual k named =
      let s = collect_seeds graph ctx (build ctx) k in
      let h = collect_seeds-IsCollected k named in
      let nodes = sort_by result_leb s.nodes in
      let kept = All-sort_by edge_leb _ _ (
        All-filter (IsVisible graph ctx)
          (λ e. contains (names nodes) e.source && contains (names nodes) e.target) s.edges
          h.visible) in
      record {
        roots = seeds ctx k;
        top = seeds-IsTop ctx k;
        distinct = sort_by-Distinct result_leb (λ r. r.name) s.nodes h.distinct;
        falling =
            sort_by-IsDescending result_leb (λ r. total_key r.weight) follows precedes s.nodes;
        scored = All-sort_by result_leb _ s.nodes h.scored;
        reached = All-sort_by result_leb _ s.nodes h.reached;
        seeded = λ x m has. ground (
          arith,
          contains-sort_by result_leb (λ r. r.name) s.nodes x,
          h.agree x,
          collect_seeds-seeds k x m has,
          has,
        );
        visible = All-mono _ (IsVisible graph ctx) (λ e p. p.0) _ kept;
        closed =
            All-mono _
              (λ e.
                (contains (names nodes) e.source ≡ true) × (contains (names nodes) e.target ≡ true))
              (λ e p. (ground (arith, p.1), ground (arith, p.1))) _ kept;
      }
