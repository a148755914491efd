-- ===== src/Delta/Materialize.antt =====
-- `materialize` of src/delta.rs: the merged graph written out as builder inputs.
use orpheusgraph.Prelude.{
  ◌≡◌, refl, Bool, false, not, ◌&&◌, ◌||◌, String, none, some, List, [], ◌∷◌, ◌++◌, map, is_some,
  if◌then◌else◌, arith, string_eq, Bool-cases, inl, inr,
}
use orpheusgraph.HashSet.{contains, insert, Distinct, contains-insert}
use orpheusgraph.IndexMap.{IndexMap}
use orpheusgraph.Types.{NodeData, NodeInput, EdgeInput}
use orpheusgraph.Accessor.{GraphAccessor, NodeView, NeighborView}
use orpheusgraph.Delta.Defs.{GraphDelta}
use orpheusgraph.Delta.View.{get_node, outgoing_neighbors}
use orpheusgraph.Delta.Merged.{get_node-merged}

-- One of the two loops that collect names: what is skipped or seen is left out.
unfoldable pub collect_names :
    (String → Bool) → List String → List String → List String → List String × List String
collect_names skip [] names seen = (names, seen)
collect_names skip (n ∷ ns) names seen =
    let fresh = not (skip n) && not (contains seen n) in
    collect_names skip ns (if fresh then names ++ (n ∷ []) else names)
      (if fresh then insert seen n else seen)

abbrev pub node_input : NodeView → NodeInput
node_input nv = record {
  name = nv.name;
  kind = nv.kind;
  metadata = nv.metadata;
  base_weight = nv.base_weight;
  noise_penalty = nv.noise_penalty;
}

abbrev pub edge_input : String → NeighborView → EdgeInput
edge_input name nb = record {
  from = name;
  to = nb.target_name;
  kind = nb.edge_kind;
  field_name = nb.field_name;
  base_weight = nb.edge_weight;
  valid_from = nb.valid_from;
  valid_to = nb.valid_to;
  acl = nb.acl;
}

module _ ⦃im : IndexMap String NodeData⦄ where
  unfoldable pub live_names : List String → GraphDelta → List String
  live_names base_node_names d =
      let (names, seen) =
        collect_names (λ n. is_some (im.get d.added_nodes n) || contains d.removed_nodes n)
          base_node_names [] [] in
      (collect_names (λ n. false) (im.keys d.added_nodes) names seen).0

  -- the loop that emits the nodes and the edges of the names
  unfoldable pub emit : GraphAccessor → GraphDelta → List String → List NodeInput × List EdgeInput
  emit base d [] = ([], [])
  emit base d (name ∷ names) =
      let (nodes, edges) = emit base d names in
      (
        elim (get_node base d name) [ none ↦ nodes | some nv ↦ node_input nv ∷ nodes ],
        map (edge_input name) (outgoing_neighbors base d name) ++ edges,
      )

  unfoldable pub materialize :
      GraphAccessor → List String → GraphDelta → List NodeInput × List EdgeInput
  materialize base base_node_names d = emit base d (live_names base_node_names d)

contains-append :
    (xs ys : List String) (a : String) → contains (xs ++ ys) a ≡ (contains xs a || contains ys a)
unfolding contains
contains-append [] ys a = refl
contains-append (x ∷ xs) ys a = ground (arith, contains-append xs ys a)

Distinct-snoc :
    (xs : List String) (a : String)
    → Distinct xs
    → contains xs a ≡ false
    → Distinct (xs ++ (a ∷ []))
unfolding contains
Distinct-snoc [] a h fresh = (refl, tt)
Distinct-snoc (x ∷ xs) a (hx, h) fresh = (
  ground (
    arith,
    contains-append xs (a ∷ []) x,
    hx,
    fresh,
    string_eq.beq_iff x a,
    string_eq.beq_iff a x,
  ),
  Distinct-snoc xs a h (ground (arith, fresh)),
)

-- the names so far: none twice, and the ones seen
record IsCollected (names seen : List String) : Type 0 where
  pub distinct : Distinct names
  pub agree : (x : String) → contains names x ≡ contains seen x

collect_names_lem :
    (skip : String → Bool) (ns names seen : List String)
    → IsCollected names seen
    → IsCollected (collect_names skip ns names seen).0 (collect_names skip ns names seen).1
      × ((x : String)
          → contains (collect_names skip ns names seen).0 x
            ≡ (contains names x || (contains ns x && not (skip x))))
unfolding collect_names contains
collect_names_lem skip [] names seen h = (h, λ x. ground arith)
collect_names_lem skip (n ∷ ns) names seen h =
    elim (Bool-cases (not (skip n) && not (contains seen n))) [
      | inl r ↦
          let h' : IsCollected (names ++ (n ∷ [])) (insert seen n) = record {
            distinct = Distinct-snoc names n h.distinct (ground (arith, h.agree n, r));
            agree = λ x.
                ground
                  (arith, h.agree x, contains-append names (n ∷ []) x, contains-insert seen n x);
          } in
          let (i, c) = collect_names_lem skip ns (names ++ (n ∷ [])) (insert seen n) h' in
          rw (r, collect_names)
            (
              i,
              λ x. ground (arith, c x, contains-append names (n ∷ []) x, r, string_eq.beq_iff n x),
            )
      | inr r ↦
          let (i, c) = collect_names_lem skip ns names seen h in
          rw (r, collect_names) (i, λ x. ground (arith, c x, h.agree n, r, string_eq.beq_iff n x))
    ]

module _ ⦃im : IndexMap String NodeData⦄ where
  -- The names that are written out are those of the nodes of the merged view, each once, when the
  -- names given are those of the nodes of the base.
  pub live_names-get_node :
      (base : GraphAccessor) (base_node_names : List String) (d : GraphDelta)
      → ((x : String) → contains base_node_names x ≡ is_some (base.get_node x))
      → Distinct (live_names base_node_names d)
        × ((x : String) → contains (live_names base_node_names d) x ≡ is_some (get_node base d x))
  unfolding live_names contains
  live_names-get_node base base_node_names d h =
      let skip : String → Bool =
        λ n. is_some (im.get d.added_nodes n) || contains d.removed_nodes n in
      let (i, c) =
        collect_names_lem skip base_node_names [] []
          (record { distinct = tt; agree = λ x. refl }) in
      let first = collect_names skip base_node_names [] [] in
      let (j, e) = collect_names_lem (λ n. false) (im.keys d.added_nodes) first.0 first.1 i in
      (
        j.distinct,
        λ x. simp get_node-merged (ground (arith, e x, c x, h x, im.is_some-get d.added_nodes x)),
      )
