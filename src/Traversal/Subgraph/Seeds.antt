-- ===== src/Traversal/Subgraph/Seeds.antt =====
-- The loop of `contextual_subgraph` over the seeds and their neighbours.
use orpheusgraph.Prelude.{
  ◌≡◌, ◌⊎◌, inl, inr, refl, sym, subst, Bool, true, false, ◌&&◌, String, Option, some, List, [],
  ◌∷◌, ◌++◌, arith, Bool-cases, Option-cases, string_eq, ◌==◌, is_some, filter,
}
use orpheusgraph.HashSet.{contains, insert, Distinct, contains-insert}
use orpheusgraph.Types.Context.{DynamicContext}
use orpheusgraph.Accessor.{GraphAccessor}
use orpheusgraph.Graph.{EdgeResult}
use orpheusgraph.Scoring.{Float, NodeResult}
use orpheusgraph.Overlay.Defs.{
  FloatOrder, NeighborEntry, neighbors_with_overlay, neighbors_with_overlay_indexed, build,
}
use orpheusgraph.Traversal.Lists.{All, All-append, All-of_Among, Among, Distinct-append}
use orpheusgraph.Traversal.Score.{score_of, IsNamed, score_of-named}
use orpheusgraph.Traversal.Beam.Candidates.{names, names-append, contains-names}
use orpheusgraph.Traversal.Subgraph.{
  Collected, edge_to, push_scored, add_neighbors, add_seed, add_seeds,
}

fresh_insert : (s : List String) (a : String) → contains s a ≡ false → insert s a ≡ a ∷ s
unfolding insert
fresh_insert s a h = ground (arith, h)

pub All-known :
    (roots xs : List String)
    → ((x : String) → contains xs x ≡ true → contains roots x ≡ true)
    → All (λ x. contains roots x ≡ true) xs
unfolding contains
All-known roots [] h = tt
All-known roots (x ∷ xs) h = (
  h x (ground (arith, string_eq.beq_iff x x)),
  All-known roots xs (λ y m. h y (ground (arith, m))),
)

pub All-filter {ℓ κ} :
    {A : Type ℓ} (P : A → Type κ) (p : A → Bool) (xs : List A)
    → All P xs
    → All (λ x. P x × (p x ≡ true)) (filter p xs)
All-filter P p [] h = tt
All-filter P p (x ∷ xs) (h, hs) = elim (Bool-cases (p x)) [
  | inl t ↦ rw t ((h, t), All-filter P p xs hs)
  | inr t ↦ rw t (All-filter P p xs hs)
]

module _ ⦃fl : Float⦄ ⦃fo : FloatOrder⦄ (graph : GraphAccessor) (ctx : DynamicContext) where
  abbrev pub score : String → Option NodeResult
  score name = score_of graph ctx (build ctx) name

  -- an edge that the request sees
  abbrev pub IsVisible : EdgeResult → Type 0
  IsVisible e =
      (nb : NeighborEntry) × (Among nb (neighbors_with_overlay graph ctx e.source)
        × (e ≡ edge_to e.source nb))

  -- a seed, or the target of an edge of one
  abbrev pub IsReached : List String → String → Type 0
  IsReached roots x =
      (contains roots x ≡ true)
      ⊎ ((a : String) × ((contains roots a ≡ true)
            × ((nb : NeighborEntry) × (Among nb (neighbors_with_overlay graph ctx a)
                  × (nb.name ≡ x)))))

  pub record IsCollected (roots : List String) (s : Collected) : Type 0 where
    pub distinct : Distinct (names s.nodes)
    pub agree :
        (x : String) → contains (names s.nodes) x ≡ (contains s.node_set x && is_some (score x))
    pub scored : All (λ r. score r.name ≡ some r) s.nodes
    pub reached : All (λ r. IsReached roots r.name) s.nodes
    pub visible : All IsVisible s.edges

  module _ (named : IsNamed graph) (roots : List String) where
    -- One name is put into the set, with its node if it has one.
    put_name :
        (name : String)
        → IsReached roots name
        → (s : Collected) → contains s.node_set name ≡ false
        → (edges : List EdgeResult) → All IsVisible edges
        → IsCollected roots s
        → IsCollected roots (record {
          node_set = name ∷ s.node_set;
          nodes = push_scored s.nodes (score name);
          edges = edges;
        })
    unfolding contains
    put_name name origin s fresh edges visible h = elim (Option-cases (score name)) [
      | inl e ↦
          rw (e, push_scored)
            (record {
              distinct = h.distinct;
              agree = λ x. ground (arith, h.agree x, e, string_eq.beq_iff name x);
              scored = h.scored;
              reached = h.reached;
              visible = visible;
            })
      | inr (r, e) ↦
          let same : r.name ≡ name = score_of-named graph ctx named name r e in
          rw (e, push_scored)
            (record {
              distinct = subst Distinct (sym (names-append s.nodes (r ∷ []))) (
                  Distinct-append (names s.nodes) (r.name ∷ []) h.distinct (refl, tt)
                    (λ a m. ground (arith, h.agree a, fresh, same, string_eq.beq_iff r.name a, m)));
              agree = λ x. ground (
                arith,
                contains-names s.nodes (r ∷ []) x,
                h.agree x,
                e,
                same,
                string_eq.beq_iff name x,
              );
              scored =
                  All-append _ s.nodes (r ∷ []) h.scored
                    (subst (λ n. score n ≡ some r) (sym same) e, tt);
              reached =
                  All-append _ s.nodes (r ∷ []) h.reached
                    (subst (IsReached roots) (sym same) origin, tt);
              visible = visible;
            })
    ]

    add_neighbors-IsCollected :
        (seed : String)
        → contains roots seed ≡ true
        → (ns : List NeighborEntry)
        → All (λ nb. Among nb (neighbors_with_overlay graph ctx seed)) ns
        → (s : Collected) → IsCollected roots s
        → IsCollected roots (add_neighbors graph ctx (build ctx) seed ns s)
    unfolding add_neighbors insert
    add_neighbors-IsCollected seed root [] among s h = h
    add_neighbors-IsCollected seed root (nb ∷ ns) (among, rest) s h =
        let edges = s.edges ++ (edge_to seed nb ∷ []) in
        let visible : All IsVisible edges =
          All-append IsVisible s.edges (edge_to seed nb ∷ []) h.visible ((nb, (among, refl)), tt) in
        elim (Bool-cases (contains s.node_set nb.name)) [
          | inl t ↦
              rw (t, add_neighbors, insert)
                (add_neighbors-IsCollected seed root ns rest (record s { edges = edges })
                  (record {
                    distinct = h.distinct;
                    agree = h.agree;
                    scored = h.scored;
                    reached = h.reached;
                    visible = visible;
                  }))
          | inr t ↦
              let next : Collected = record {
                node_set = nb.name ∷ s.node_set;
                nodes = push_scored s.nodes (score nb.name);
                edges = edges;
              } in
              rw (t, add_neighbors, insert)
                (add_neighbors-IsCollected seed root ns rest next
                  (put_name nb.name (inr (seed, (root, (nb, (among, refl))))) s t edges visible h))
        ]

    known_neighbors :
        (seed : String)
        → All
            (λ nb. Among nb (neighbors_with_overlay graph ctx seed))
            (neighbors_with_overlay_indexed graph ctx (build ctx) seed)
    unfolding neighbors_with_overlay
    known_neighbors seed =
        All-of_Among (λ nb. Among nb (neighbors_with_overlay graph ctx seed))
          (neighbors_with_overlay graph ctx seed) (λ nb m. m)

    add_seed-IsCollected :
        (seed : String)
        → contains roots seed ≡ true
        → (s : Collected) → IsCollected roots s
        → IsCollected roots (add_seed graph ctx (build ctx) seed s)
    unfolding add_seed insert
    add_seed-IsCollected seed root s h = elim (Bool-cases (contains s.node_set seed)) [
      | inl t ↦ rw (t, add_seed) h
      | inr t ↦ elim (Option-cases (score seed)) [
        | inl e ↦ rw (t, e, add_seed) h
        | inr (r, e) ↦
            let put = put_name seed (inl root) s t s.edges h.visible h in
            rw (t, e, add_seed, insert)
              (add_neighbors-IsCollected seed root
                (neighbors_with_overlay_indexed graph ctx (build ctx) seed) (known_neighbors seed) _
                (rw (e, ← fresh_insert s.node_set seed t) at put))
      ]
    ]

    pub add_seeds-IsCollected :
        (rest : List String)
        → All (λ seed. contains roots seed ≡ true) rest
        → (s : Collected) → IsCollected roots s
        → IsCollected roots (add_seeds graph ctx (build ctx) rest s)
    unfolding add_seeds
    add_seeds-IsCollected [] known s h = h
    add_seeds-IsCollected (seed ∷ rest) (k, known) s h =
        add_seeds-IsCollected rest known (add_seed graph ctx (build ctx) seed s)
          (add_seed-IsCollected seed k s h)

  -- The set only grows, and every seed with a node gets into it.
  add_neighbors-grows :
      (seed : String) (ns : List NeighborEntry) (s : Collected) (x : String)
      → contains s.node_set x ≡ true
      → contains (add_neighbors graph ctx (build ctx) seed ns s).node_set x ≡ true
  unfolding add_neighbors
  add_neighbors-grows seed [] s x h = h
  add_neighbors-grows seed (nb ∷ ns) s x h =
      add_neighbors-grows seed ns _ x (ground (arith, contains-insert s.node_set nb.name x, h))

  add_seed-grows :
      (seed : String) (s : Collected) (x : String)
      → contains s.node_set x ≡ true
      → contains (add_seed graph ctx (build ctx) seed s).node_set x ≡ true
  unfolding add_seed
  add_seed-grows seed s x h = elim (Bool-cases (contains s.node_set seed)) [
    | inl t ↦ rw (t, add_seed) h
    | inr t ↦ elim (Option-cases (score seed)) [
      | inl e ↦ rw (t, e, add_seed) h
      | inr (r, e) ↦
          rw (t, e, add_seed)
            (add_neighbors-grows seed _ _ x (ground (arith, contains-insert s.node_set seed x, h)))
    ]
  ]

  add_seed-seed :
      (seed : String) (s : Collected)
      → is_some (score seed) ≡ true
      → contains (add_seed graph ctx (build ctx) seed s).node_set seed ≡ true
  unfolding add_seed
  add_seed-seed seed s h = elim (Bool-cases (contains s.node_set seed)) [
    | inl t ↦ rw (t, add_seed) t
    | inr t ↦ elim (Option-cases (score seed)) [
      | inl e ↦ ground (arith, e, h)
      | inr (r, e) ↦
          rw (t, e, add_seed)
            (add_neighbors-grows seed _ _ seed
              (ground (arith, contains-insert s.node_set seed seed, string_eq.beq_iff seed seed)))
    ]
  ]

  add_seeds-grows :
      (rest : List String) (s : Collected) (x : String)
      → contains s.node_set x ≡ true
      → contains (add_seeds graph ctx (build ctx) rest s).node_set x ≡ true
  unfolding add_seeds
  add_seeds-grows [] s x h = h
  add_seeds-grows (seed ∷ rest) s x h =
      add_seeds-grows rest (add_seed graph ctx (build ctx) seed s) x (add_seed-grows seed s x h)

  pub add_seeds-seeds :
      (rest : List String) (s : Collected) (x : String)
      → contains rest x ≡ true
      → is_some (score x) ≡ true
      → contains (add_seeds graph ctx (build ctx) rest s).node_set x ≡ true
  unfolding add_seeds contains
  add_seeds-seeds [] s x m h = ground (arith, m)
  add_seeds-seeds (seed ∷ rest) s x m h = elim (Bool-cases (seed == x)) [
    | inl t ↦
        let there =
          add_seed-seed seed s
            (subst (λ n. is_some (score n) ≡ true) (sym ((string_eq.beq_iff seed x).0 t)) h) in
        add_seeds-grows rest (add_seed graph ctx (build ctx) seed s) x (
          subst (λ n. contains (add_seed graph ctx (build ctx) seed s).node_set n ≡ true)
            ((string_eq.beq_iff seed x).0 t) there)
    | inr t ↦
        add_seeds-seeds rest (add_seed graph ctx (build ctx) seed s) x (ground (arith, t, m)) h
  ]
