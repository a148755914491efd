-- ===== src/Traversal/MultiBeam/Laws.antt =====
-- What `multi_beam_intersection` answers with.
use orpheusgraph.Prelude.{
  ℕ, ◌≡◌, refl, ◌∙◌, subst, Bool, true, false, not, ◌||◌, ◌&&◌, String, some, List, [], ◌∷◌, map,
  filter, leb, arith, Bool-cases, inl, inr, string_eq, ◌==◌, is_some,
}
use orpheusgraph.HashMap
use orpheusgraph.HashMap.{HashMap, find}
use orpheusgraph.HashSet.{contains, Distinct}
use orpheusgraph.Types.Context.{DynamicContext}
use orpheusgraph.Accessor.{GraphAccessor}
use orpheusgraph.Delta.Defs.{key_eq}
use orpheusgraph.Scoring.{Float, NodeResult}
use orpheusgraph.Overlay.Defs.{FloatOrder, build}
use orpheusgraph.Traversal.Lists.{All, All-mono}
use orpheusgraph.Traversal.Sort.{All-sort_by, contains-sort_by, sort_by-Distinct}
use orpheusgraph.Traversal.Score.{score_of, IsNamed}
use orpheusgraph.Traversal.Beam.Candidates.{names}
use orpheusgraph.Traversal.Subgraph.{SubGraph, edge_leb}
use orpheusgraph.Traversal.Subgraph.Seeds.{All-known}
use orpheusgraph.Traversal.MultiBeam.{
  get_or, heat_leb, beam_results, heatmap, filtered, key_of, multi_beam_intersection,
}
use orpheusgraph.Traversal.MultiBeam.Heat.{hits, IsHeat, heat_beams-hits}
use orpheusgraph.Traversal.MultiBeam.Kept.{IsKept, IsKept-ext, add_starts-IsKept, add_hits-IsKept}
use orpheusgraph.Traversal.MultiBeam.Edges.{keys, IsEdge, push_edges-IsPushed}

find-All :
    (P : String → NodeResult → Type 0) (m : List (String × NodeResult))
    → All (λ p. P p.0 p.1) m
    → (k : String) (r : NodeResult) → find k m ≡ some r
    → P k r
unfolding find
find-All P [] h k r e = ground (arith, e)
find-All P ((j, v) ∷ m) (h, hs) k r e = elim (Bool-cases (j == k)) [
  | inl t ↦
      let same : v ≡ r = ground (arith, t, e) in
      subst (λ x. P x r) ((string_eq.beq_iff j k).0 t) (subst (P j) same h)
  | inr t ↦ find-All P m hs k r (ground (arith, t, e))
]

-- With keys that stand once each pair is found under its key.
find-keys :
    (ps qs : List (String × ℕ))
    → Distinct (map (λ p. p.0) ps)
    → ((p : String × ℕ) → contains (map (λ p. p.0) ps) p.0 ≡ true → find p.0 qs ≡ find p.0 ps)
    → All (λ p. find p.0 qs ≡ some p.1) ps
unfolding find contains
find-keys [] qs d same = tt
find-keys ((k, n) ∷ ps) qs (fresh, d) same = (
  ground (arith, same (k, n), string_eq.beq_iff k k),
  find-keys ps qs d (λ p m. ground (arith, same p, m, fresh, string_eq.beq_iff k p.0)),
)

contains-find :
    (ps : List (String × ℕ)) (x : String) → contains (map (λ p. p.0) ps) x ≡ is_some (find x ps)
unfolding find contains
contains-find [] x = refl
contains-find ((k, n) ∷ ps) x = ground (arith, contains-find ps x)

contains-passes :
    (h : String → ℕ) (threshold : ℕ) (starts : List String) (ps : List (String × ℕ))
    → All (λ p. p.1 ≡ h p.0) ps
    → (x : String)
    → contains (map (λ p. p.0) (filter (λ p. leb threshold p.1 && not (contains starts p.0)) ps)) x
      ≡ (contains (map (λ p. p.0) ps) x && (leb threshold (h x) && not (contains starts x)))
unfolding contains
contains-passes h threshold starts [] e x = refl
contains-passes h threshold starts ((k, n) ∷ ps) (e, es) x =
    ground (arith, e, contains-passes h threshold starts ps es x, string_eq.beq_iff k x)

module _ ⦃fl : Float⦄ ⦃fo : FloatOrder⦄ (graph : GraphAccessor) (ctx : DynamicContext)
    (start_nodes : List String) (k depth threshold : ℕ) where
  abbrev beams : List (List NodeResult)
  beams = beam_results graph ctx start_nodes k depth

  -- a start node, or a node that enough beams visit, and one at least
  pub kept : String → Bool
  kept x = contains start_nodes x || (leb threshold (hits beams x) && leb 1 (hits beams x))

  pub record IsIntersection (g : SubGraph) : Type 0 where
    pub nodes :
        (x : String)
        → contains (names g.nodes) x
          ≡ (kept x && (leb 1 (hits beams x) || is_some (score_of graph ctx (build ctx) x)))
    pub distinct : Distinct (names g.nodes)
    pub set : List String
    pub agree : (x : String) → contains set x ≡ kept x
    pub edges : All (IsEdge graph ctx set) g.edges
    pub edges_distinct : Distinct (keys g.edges)

  heatmap-IsHeat : IsHeat (hits beams) (heatmap graph ctx start_nodes k depth)
  unfolding heatmap
  heatmap-IsHeat = heat_beams-hits beams

  best_keyed :
      (n : String) (r : NodeResult)
      → HashMap.get (heatmap graph ctx start_nodes k depth).best_result n ≡ some r
      → r.name ≡ n
  unfolding HashMap.get
  best_keyed n r e =
      find-All (λ n r. r.name ≡ n) (heatmap graph ctx start_nodes k depth).best_result.pairs
        heatmap-IsHeat.good.good n r e

  counted :
      All
        (λ p. HashMap.get (heatmap graph ctx start_nodes k depth).hit_count p.0 ≡ some p.1)
        (heatmap graph ctx start_nodes k depth).hit_count.pairs
  unfolding HashMap.get
  counted =
      find-keys (heatmap graph ctx start_nodes k depth).hit_count.pairs
        (heatmap graph ctx start_nodes k depth).hit_count.pairs heatmap-IsHeat.keys (λ p m. refl)

  has_key :
      (x : String)
      → contains (map (λ p. p.0) (heatmap graph ctx start_nodes k depth).hit_count.pairs) x
        ≡ leb 1 (hits beams x)
  unfolding HashMap.get
  has_key x =
      contains-find (heatmap graph ctx start_nodes k depth).hit_count.pairs x
      ∙ heatmap-IsHeat.positive x

  filtered-IsKept :
      (named : IsNamed graph)
      → IsKept graph ctx named
          (heatmap graph ctx start_nodes k depth).best_result
          best_keyed
          kept
          (filtered graph ctx start_nodes threshold (heatmap graph ctx start_nodes k depth))
  unfolding filtered kept get_or contains
  filtered-IsKept named =
      let m = heatmap graph ctx start_nodes k depth in
      let known : All (λ p. is_some (HashMap.get m.best_result p.0) ≡ true) m.hit_count.pairs =
        All-mono (λ p. HashMap.get m.hit_count p.0 ≡ some p.1)
          (λ p. is_some (HashMap.get m.best_result p.0) ≡ true)
          (λ p e. ground (arith, e, heatmap-IsHeat.positive p.0, heatmap-IsHeat.best p.0))
          m.hit_count.pairs counted in
      let values : All (λ p. p.1 ≡ hits beams p.0) m.hit_count.pairs =
        All-mono (λ p. HashMap.get m.hit_count p.0 ≡ some p.1) (λ p. p.1 ≡ hits beams p.0)
          (λ p e. ground (arith, e, heatmap-IsHeat.counted p.0)) m.hit_count.pairs counted in
      let begun =
        add_starts-IsKept graph ctx named m.best_result best_keyed start_nodes (λ x. false) _
          (record { kept = λ x. refl; left = λ x. refl; agree = λ x. refl; distinct = tt }) in
      IsKept-ext graph ctx named m.best_result best_keyed _ kept _
        (λ x. ground (
          arith,
          contains-passes (hits beams) threshold start_nodes m.hit_count.pairs values x,
          has_key x,
        ))
        (add_hits-IsKept graph ctx named m.best_result best_keyed threshold start_nodes
          m.hit_count.pairs known _ _ begun)

  -- Over a graph whose nodes answer to their own names, the intersection of the beams from the start
  -- nodes keeps a name exactly when it is a start node or as many beams as asked for, and one at
  -- least, visit it; its nodes are those of the names kept that a beam visits or that have a node, each
  -- once. Every edge is an edge of the graph or the overlay between kept names, which the request sees,
  -- and no two edges agree in source, target and kind.
  pub multi_beam_intersection-IsIntersection :
      IsNamed graph
      → IsIntersection (multi_beam_intersection graph ctx start_nodes k depth threshold)
  unfolding multi_beam_intersection contains
  multi_beam_intersection-IsIntersection named =
      let m = heatmap graph ctx start_nodes k depth in
      let s = filtered graph ctx start_nodes threshold m in
      let h = filtered-IsKept named in
      let pushed =
        push_edges-IsPushed graph ctx s.filtered_set s.filtered_set
          (All-known s.filtered_set s.filtered_set (λ x c. c))
          (record { seen_edges = []; edges = [] })
          (record { good = tt; seen = λ e. refl; distinct = tt }) in
      record {
        nodes = λ x. ground (
          arith,
          contains-sort_by (heat_leb m.weight_sum) (λ r. r.name) s.filtered_nodes x,
          h.agree x,
          heatmap-IsHeat.best x,
        );
        distinct =
            sort_by-Distinct (heat_leb m.weight_sum) (λ r. r.name) s.filtered_nodes h.distinct;
        set = s.filtered_set;
        agree = h.kept;
        edges = All-sort_by edge_leb (IsEdge graph ctx s.filtered_set) _ pushed.good;
        edges_distinct = sort_by-Distinct edge_leb (λ e. key_of e) _ pushed.distinct;
      }
