-- ===== src/Delta/Written.antt =====
-- What `materialize` of src/delta.rs writes out for each name.
use orpheusgraph.Prelude.{
  ◌≡◌, refl, sym, subst, ap, ◌∙◌, Bool, true, false, String, Option, none, some, List, [], ◌∷◌,
  ◌++◌, map, filter, is_some, arith, string_eq, ◌==◌, append-nil, Bool-cases, Option-cases, inl,
  inr,
}
use orpheusgraph.HashSet.{contains, Distinct}
use orpheusgraph.IndexMap.{IndexMap}
use orpheusgraph.Types.{NodeData, NodeInput, EdgeInput}
use orpheusgraph.Accessor.{GraphAccessor, NodeView, NeighborView}
use orpheusgraph.Delta.Defs.{GraphDelta}
use orpheusgraph.Delta.View.{get_node, outgoing_neighbors}
use orpheusgraph.Delta.Materialize.{
  node_input, edge_input, live_names, emit, materialize, live_names-get_node,
}

filter-append :
    {A : Type 0} (p : A → Bool) (xs ys : List A) → filter p (xs ++ ys) ≡ filter p xs ++ filter p ys
filter-append p [] ys = refl
filter-append p (x ∷ xs) ys = ground (arith, filter-append p xs ys)

-- the inputs of the name
abbrev pub nodes_named : String → List NodeInput → List NodeInput
nodes_named name nodes = filter (λ n. n.name == name) nodes

abbrev pub edges_leaving : String → List EdgeInput → List EdgeInput
edges_leaving name edges = filter (λ e. e.from == name) edges

-- the node as a builder takes it, its rank left out
abbrev pub input_of : Option NodeView → List NodeInput
input_of none = []
input_of (some v) =
    record {
      name = v.name;
      kind = v.kind;
      metadata = v.metadata;
      base_weight = v.base_weight;
      noise_penalty = v.noise_penalty;
    }
    ∷ []

abbrev pub inputs_of : String → List NeighborView → List EdgeInput
inputs_of name nbs =
    map
      (λ nb. record {
        from = name;
        to = nb.target_name;
        kind = nb.edge_kind;
        field_name = nb.field_name;
        base_weight = nb.edge_weight;
        valid_from = nb.valid_from;
        valid_to = nb.valid_to;
        acl = nb.acl;
      })
      nbs

edges_same :
    (name : String) (nbs : List NeighborView)
    → edges_leaving name (map (edge_input name) nbs) ≡ inputs_of name nbs
edges_same name [] = refl
edges_same name (nb ∷ nbs) = ground (arith, edges_same name nbs, string_eq.beq_iff name name)

edges_other :
    (name other : String) (nbs : List NeighborView)
    → (other == name) ≡ false
    → edges_leaving name (map (edge_input other) nbs) ≡ []
edges_other name other [] h = refl
edges_other name other (nb ∷ nbs) h = ground (arith, h, edges_other name other nbs h)

module _ ⦃im : IndexMap String NodeData⦄ where
  -- What is written out for a name: the node that the merged view shows, if any, once, and the edges
  -- that leave it in the merged view, in their order.
  pub record IsWritten (base : GraphAccessor) (d : GraphDelta) (nodes : List NodeInput)
      (edges : List EdgeInput) (name : String) : Type 0 where
    pub node : nodes_named name nodes ≡ input_of (get_node base d name)
    pub out :
        is_some (get_node base d name) ≡ true
        → edges_leaving name edges ≡ inputs_of name (outgoing_neighbors base d name)
    pub no_out : get_node base d name ≡ none → edges_leaving name edges ≡ []

  module _ (base : GraphAccessor) (d : GraphDelta)
      (named : (x : String) (v : NodeView) → get_node base d x ≡ some v → v.name ≡ x) where
    emit-other :
        (name : String) (names : List String)
        → contains names name ≡ false
        → (nodes_named name (emit base d names).0 ≡ [])
          × (edges_leaving name (emit base d names).1 ≡ [])
    unfolding emit contains
    emit-other name [] h = (refl, refl)
    emit-other name (n ∷ names) h =
        let other : (n == name) ≡ false = ground (arith, h) in
        let (i, j) = emit-other name names (ground (arith, h)) in
        let edges =
          filter-append (λ e. e.from == name) (map (edge_input n) (outgoing_neighbors base d n))
            (emit base d names).1
          ∙ (ap (λ l. l ++ edges_leaving name (emit base d names).1)
                (edges_other name n (outgoing_neighbors base d n) other)
              ∙ j) in
        elim (Option-cases (get_node base d n)) [
          | inl r ↦ rw (r, emit) (i, edges)
          | inr (v, r) ↦
              let own : v.name ≡ n = named n v r in
              rw (r, emit) (ground (arith, i, own, other), edges)
        ]

    emit-IsWritten :
        (name : String) (names : List String)
        → Distinct names
        → contains names name ≡ true
        → (nodes_named name (emit base d names).0 ≡ input_of (get_node base d name))
          × (edges_leaving name (emit base d names).1
              ≡ inputs_of name (outgoing_neighbors base d name))
    unfolding emit contains
    emit-IsWritten name [] u h = ground (arith, h)
    emit-IsWritten name (n ∷ names) (fresh, u) h = elim (Bool-cases (n == name)) [
      | inr t ↦
          let (i, j) = emit-IsWritten name names u (ground (arith, h, t)) in
          let edges =
            filter-append (λ e. e.from == name) (map (edge_input n) (outgoing_neighbors base d n))
              (emit base d names).1
            ∙ (ap (λ l. l ++ edges_leaving name (emit base d names).1)
                  (edges_other name n (outgoing_neighbors base d n) t)
                ∙ j) in
          elim (Option-cases (get_node base d n)) [
            | inl r ↦ rw (r, emit) (i, edges)
            | inr (v, r) ↦
                let own : v.name ≡ n = named n v r in
                rw (r, emit) (ground (arith, i, own, t), edges)
          ]
      | inl t ↦
          let e : n ≡ name = (string_eq.beq_iff n name).0 t in
          let (i, j) = emit-other name names (subst (λ x. contains names x ≡ false) e fresh) in
          let edges =
            filter-append (λ e. e.from == name) (map (edge_input n) (outgoing_neighbors base d n))
              (emit base d names).1
            ∙ (ap (λ l. edges_leaving name (map (edge_input n) (outgoing_neighbors base d n)) ++ l)
                  j
                ∙ (append-nil _
                    ∙ (ap
                          (λ x.
                            edges_leaving name (map (edge_input x) (outgoing_neighbors base d x)))
                          e
                        ∙ edges_same name (outgoing_neighbors base d name)))) in
          let same = ap (get_node base d) e in
          elim (Option-cases (get_node base d n)) [
            | inl r ↦ rw (r, emit) (i ∙ ap input_of (sym r ∙ same), edges)
            | inr (v, r) ↦
                let own : v.name ≡ n = named n v r in
                let node : nodes_named name (node_input v ∷ (emit base d names).0)
                    ≡ input_of (some v) =
                  ground (arith, i, own, t) in
                rw (r, emit) (node ∙ ap input_of (sym r ∙ same), edges)
          ]
    ]

    pub materialize-IsWritten :
        (base_node_names : List String)
        → ((x : String) → contains base_node_names x ≡ is_some (base.get_node x))
        → (name : String)
        → IsWritten base d
            (materialize base base_node_names d).0
            (materialize base base_node_names d).1
            name
    unfolding materialize
    materialize-IsWritten base_node_names h name =
        let (u, c) = live_names-get_node base base_node_names d h in
        let names = live_names base_node_names d in
        elim (Option-cases (get_node base d name)) [
          | inl r ↦
              let absent : contains names name ≡ false = c name ∙ ap is_some r in
              let (i, j) = emit-other name names absent in
              record {
                node = i ∙ sym (ap input_of r);
                out = λ t. ground (arith, t, r);
                no_out = λ t. j;
              }
          | inr (v, r) ↦
              let present : contains names name ≡ true = c name ∙ ap is_some r in
              let (i, j) = emit-IsWritten name names u present in
              record { node = i; out = λ t. j; no_out = λ t. ground (arith, t, r) }
        ]
