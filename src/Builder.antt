-- ===== src/Builder.antt =====
-- src/builder.rs: a graph from its inputs. petgraph and the arithmetic of `f32` are parameters.
pub mod Canonical
pub mod Nodes
pub mod Built
use orpheusgraph.Prelude.{
  ℕ, zero, suc, ◌+◌, Bool, true, false, ◌&&◌, String, none, some, List, [], ◌∷◌, ◌++◌, map, filter,
  length, get_elem?, set, replicate, ltb, if◌then◌else◌, ◌==◌, string_eq, nat_eq,
}
use orpheusgraph.HashMap
use orpheusgraph.HashMap.{HashMap}
use orpheusgraph.Types.{NodeData, EdgeData, NodeInput, EdgeInput, F32}
use orpheusgraph.Types.Acl.{str_leb, normalize_acl}
use orpheusgraph.Graph.{DiGraph, OrpheusGraphInner, Direction}
use orpheusgraph.Scoring.{Float}
use orpheusgraph.Overlay.Defs.{FloatOrder}
use orpheusgraph.Traversal.Sort.{sort_by}

-- The calls of `DiGraph` that build one: `add_node` answers with the index of the new node.
pub record GraphBuilder (G : Type 0) : Type 0 where
  pub empty : G
  pub add_node : G → NodeData → G × ℕ
  pub add_edge : G → ℕ → ℕ → EdgeData → G
  pub set_pagerank_weight : G → ℕ → F32 → G

-- `n as f32`, the tests and the literals of the builder; `sum` is that of an iterator.
pub record FloatBuild : Type 0 where
  pub is_finite : F32 → Bool
  pub div : F32 → F32 → F32
  pub of_count : ℕ → F32
  pub sum : List F32 → F32
  pub epsilon : F32
  pub damping : F32

-- `Some(&pos) => deduped[pos] = input`, else a push: the last input of a name, at the first one's place
unfoldable pub dedup_from : List NodeInput → List NodeInput → HashMap String ℕ → List NodeInput
unfolding HashMap.get HashMap.insert
dedup_from [] deduped name_pos = deduped
dedup_from (input ∷ nodes) deduped name_pos = elim (HashMap.get name_pos input.name) [
  | some pos ↦ dedup_from nodes (set deduped pos input) name_pos
  | none ↦
      dedup_from nodes (deduped ++ (input ∷ []))
        (HashMap.insert name_pos input.name (length deduped))
]

abbrev pub input_leb : NodeInput → NodeInput → Bool
input_leb a b = str_leb a.name b.name

unfoldable pub canonical_nodes : List NodeInput → List NodeInput
unfolding dedup_from sort_by
canonical_nodes nodes = sort_by input_leb (dedup_from nodes [] HashMap.new)

abbrev pub value_at : F32 → List F32 → ℕ → F32
value_at d xs i = elim (get_elem? xs i) [ none ↦ d | some x ↦ x ]

abbrev pub count_at : List ℕ → ℕ → ℕ
count_at xs i = elim (get_elem? xs i) [ none ↦ 0 | some n ↦ n ]

-- `valid_from > valid_to`, both given
unfoldable pub is_malformed : EdgeInput → Bool
is_malformed edge = elim edge.valid_from [
  | none ↦ false
  | some vf ↦ elim edge.valid_to [ none ↦ false | some vt ↦ ltb vt vf ]
]

abbrev pub edge_data_of : EdgeInput → EdgeData
edge_data_of edge = record {
  kind = edge.kind;
  field_name = edge.field_name;
  base_weight = edge.base_weight;
  valid_from = edge.valid_from;
  valid_to = edge.valid_to;
  acl = normalize_acl edge.acl;
}

-- `0..n`
unfoldable pub indices_from : ℕ → ℕ → List ℕ
indices_from i zero = []
indices_from i (suc n) = i ∷ indices_from (i + 1) n

module _ ⦃fl : Float⦄ ⦃fo : FloatOrder⦄ ⦃fb : FloatBuild⦄ where
  unfoldable pub sanitize : F32 → F32
  sanitize w = if fb.is_finite w then fl.maximum w fl.zero else fl.zero

  -- `.fold(0.0, f32::max)`
  unfoldable pub fold_max : F32 → List F32 → F32
  fold_max m [] = m
  fold_max m (w ∷ ws) = fold_max (fl.maximum m w) ws

  unfoldable pub norm_divisor : Bool → List NodeInput → F32
  norm_divisor normalize deduped =
      let max_weight = fold_max fl.zero (map (λ n. sanitize n.base_weight) deduped) in
      if normalize && (fb.is_finite max_weight && fo.gt max_weight fb.epsilon)
      then max_weight
      else fl.one

  unfoldable pub node_of_input : Bool → F32 → NodeInput → NodeData
  node_of_input normalize divisor input = record {
    name = input.name;
    kind = input.kind;
    metadata = input.metadata;
    base_weight =
        if normalize then fb.div (sanitize input.base_weight) divisor else input.base_weight;
    noise_penalty =
        if normalize
        then fl.clamp (sanitize input.noise_penalty) fl.zero fl.one
        else input.noise_penalty;
    pagerank_weight = fl.zero;
  }

  -- `new_scores[neighbor] += share` for each neighbour
  unfoldable pub spread : F32 → List ℕ → List F32 → List F32
  spread share [] scores = scores
  spread share (neighbor ∷ rest) scores =
      spread share rest (set scores neighbor (fl.add (value_at fl.zero scores neighbor) share))

  module _ {G : Type 0} ⦃dg : DiGraph G⦄ ⦃gb : GraphBuilder G⦄ where
    -- the graph, and the map from names to indices
    unfoldable pub insert_nodes : List NodeData → G → HashMap String ℕ → OrpheusGraphInner G
    insert_nodes [] graph index_map = record { graph = graph; index_map = index_map }
    insert_nodes (node ∷ nodes) graph index_map =
        let (graph', idx) = gb.add_node graph node in
        insert_nodes nodes graph' (HashMap.insert index_map node.name idx)

    unfoldable pub insert_edge : HashMap String ℕ → G → EdgeInput → G
    insert_edge index_map graph edge = elim (HashMap.get index_map edge.from) [
      | none ↦ graph
      | some from_idx ↦ elim (HashMap.get index_map edge.to) [
        | none ↦ graph
        | some to_idx ↦
            if is_malformed edge
            then graph
            else gb.add_edge graph from_idx to_idx (edge_data_of edge)
      ]
    ]

    unfoldable pub insert_edges : HashMap String ℕ → List EdgeInput → G → G
    insert_edges index_map [] graph = graph
    insert_edges index_map (edge ∷ edges) graph =
        insert_edges index_map edges (insert_edge index_map graph edge)

    unfoldable pub successors : G → ℕ → List ℕ
    successors graph idx = map (λ e. e.target) (dg.edges_directed graph idx Direction.outgoing)

    -- the loop over the nodes that share out their scores
    unfoldable pub share_out : G → List ℕ → List F32 → List ℕ → List F32 → List F32
    share_out graph out_degree scores [] new_scores = new_scores
    share_out graph out_degree scores (idx ∷ rest) new_scores =
        let od = count_at out_degree idx in
        share_out graph out_degree scores rest (
          if od == 0
          then new_scores
          else spread (fb.div (fl.mul fb.damping (value_at fl.zero scores idx)) (fb.of_count od))
              (successors graph idx) new_scores)

    -- one iteration
    unfoldable pub pagerank_round : G → ℕ → List ℕ → List F32 → List F32
    pagerank_round graph n out_degree scores =
        let teleport = fb.div (fl.sub fl.one fb.damping) (fb.of_count n) in
        let dangling =
          map (value_at fl.zero scores)
            (filter (λ i. count_at out_degree i == 0) (indices_from 0 n)) in
        let base = fl.add teleport (fb.div (fl.mul fb.damping (fb.sum dangling)) (fb.of_count n)) in
        share_out graph out_degree scores (indices_from 0 n) (replicate n base)

    unfoldable pub pagerank_rounds : ℕ → G → ℕ → List ℕ → List F32 → List F32
    pagerank_rounds zero graph n out_degree scores = scores
    pagerank_rounds (suc iterations) graph n out_degree scores =
        pagerank_rounds iterations graph n out_degree (pagerank_round graph n out_degree scores)

    unfoldable pub store_scores : F32 → List ℕ → List F32 → G → G
    store_scores norm [] scores graph = graph
    store_scores norm (idx ∷ rest) scores graph =
        store_scores norm rest scores
          (gb.set_pagerank_weight graph idx (fb.div (value_at fl.zero scores idx) norm))

    unfoldable pub compute_pagerank : ℕ → G → G
    compute_pagerank iterations graph =
        let n = dg.node_count graph in
        if n == 0
        then graph
        else (let out_degree = map (λ i. length (successors graph i)) (indices_from 0 n) in
            let initial = replicate n (fb.div fl.one (fb.of_count n)) in
            let scores = pagerank_rounds iterations graph n out_degree initial in
            let max_score = fold_max fl.zero scores in
            store_scores (if fo.gt max_score fb.epsilon then max_score else fl.one)
              (indices_from 0 n) scores graph)

    unfoldable pub build_graph_inner : List NodeInput → List EdgeInput → Bool → OrpheusGraphInner G
    build_graph_inner nodes edges normalize =
        let deduped = canonical_nodes nodes in
        let divisor = norm_divisor normalize deduped in
        let g = insert_nodes (map (node_of_input normalize divisor) deduped) gb.empty HashMap.new in
        record g { graph = compute_pagerank 20 (insert_edges g.index_map edges g.graph) }

    unfoldable pub build_graph : List NodeInput → List EdgeInput → OrpheusGraphInner G
    build_graph nodes edges = build_graph_inner nodes edges true

    unfoldable pub build_graph_prenormalized : List NodeInput → List EdgeInput → OrpheusGraphInner G
    build_graph_prenormalized nodes edges = build_graph_inner nodes edges false

    -- the graph, the map from names to indices, and the indices in the order of the nodes
    unfoldable pub add_nodes :
        List NodeData → G → HashMap String ℕ → List ℕ → (G × HashMap String ℕ) × List ℕ
    add_nodes [] graph index_map idx_vec = ((graph, index_map), idx_vec)
    add_nodes (node ∷ nodes) graph index_map idx_vec =
        let (graph', idx) = gb.add_node graph node in
        add_nodes nodes graph' (HashMap.insert index_map node.name idx) (idx_vec ++ (idx ∷ []))

    unfoldable pub add_edges : List ℕ → List ((ℕ × ℕ) × EdgeData) → G → G
    add_edges idx_vec [] graph = graph
    add_edges idx_vec (((from_idx, to_idx), edge_data) ∷ edges) graph =
        let graph' =
          if ltb from_idx (length idx_vec) && ltb to_idx (length idx_vec)
          then gb.add_edge graph (count_at idx_vec from_idx) (count_at idx_vec to_idx) edge_data
          else graph in
        add_edges idx_vec edges graph'

    unfoldable pub rebuild_from_serialized :
        List NodeData → List ((ℕ × ℕ) × EdgeData) → OrpheusGraphInner G
    rebuild_from_serialized nodes edges =
        let ((graph, index_map), idx_vec) = add_nodes nodes gb.empty HashMap.new [] in
        record { graph = add_edges idx_vec edges graph; index_map = index_map }
