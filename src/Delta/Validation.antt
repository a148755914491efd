-- ===== src/Delta/Validation.antt =====
-- Pass 1 of `GraphDelta::apply` in src/delta.rs against the sequential reading of a batch: each
-- operation checked in the overlay that the operations before it leave.
use orpheusgraph.Prelude.{
  ℕ, ◌+◌, ◌≡◌, refl, sym, ap, ◌∙◌, Bool, true, false, not, String, Option, none, some, List, [],
  ◌∷◌, arith, string_eq, if◌then◌else◌, is_some,
}
use orpheusgraph.HashMap
use orpheusgraph.HashMap.{HashMap}
use orpheusgraph.HashSet.{contains}
use orpheusgraph.IndexMap.{IndexMap}
use orpheusgraph.Types.{NodeData, EdgeData}
use orpheusgraph.Accessor.{GraphAccessor}
use orpheusgraph.Delta.Defs.{Op, DeltaError, missing_endpoint, invalid_edge_validity, GraphDelta}
use orpheusgraph.Delta.View.{get_node}
use orpheusgraph.Delta.Apply.{
  ok, err, bad_window, is_present, is_tombstoned, check_edge, validate, step, replay, apply,
}
use orpheusgraph.Delta.Merged.{get_node-merged}
use orpheusgraph.Delta.Nodes.{get_node-step, tombstones-step}

module _ ⦃im : IndexMap String NodeData⦄ where
  -- One operation against the overlay as it stands: an edge wants a window that is not reversed and
  -- two nodes that the merged graph shows.
  abbrev pub check_at : GraphAccessor → ℕ → Op → GraphDelta → Option DeltaError
  check_at base i (Op.add_edge from to edge) d = elim (bad_window edge) [
    | some (vf, vt) ↦ some (invalid_edge_validity i from to vf vt)
    | none ↦
        if not (is_some (get_node base d from))
        then some (missing_endpoint i from to from (contains d.removed_nodes from))
        else if not (is_some (get_node base d to))
        then some (missing_endpoint i from to to (contains d.removed_nodes to))
        else none
  ]
  check_at base i _ d = none

  -- The first failure of the batch, each operation run before the next is checked.
  unfoldable pub check : GraphAccessor → ℕ → List Op → GraphDelta → Option DeltaError
  check base i [] d = none
  check base i (op ∷ ops) d =
      let rest = check base (i + 1) ops (step base op d) in
      elim (check_at base i op d) [ some e ↦ some e | none ↦ rest ]

  -- The simulated state of pass 1 agrees with an overlay.
  record Agrees (base : GraphAccessor) (d0 : GraphDelta) (scratch : HashMap String Bool)
      (d : GraphDelta) : Type 0 where
    present : (x : String) → is_present d0 scratch base x ≡ is_some (get_node base d x)
    tombstoned : (x : String) → is_tombstoned d0 scratch x ≡ contains d.removed_nodes x

  new-Agrees : (base : GraphAccessor) (d : GraphDelta) → Agrees base d HashMap.new d
  unfolding is_present is_tombstoned
  new-Agrees base d = record {
    present = λ x. rw get_node-merged (ground (arith, HashMap.get-new {V = Bool} x));
    tombstoned = λ x. ground (arith, HashMap.get-new {V = Bool} x);
  }

  upsert-Agrees :
      (base : GraphAccessor) (d0 : GraphDelta) (scratch : HashMap String Bool) (d : GraphDelta)
      (nd : NodeData)
      → Agrees base d0 scratch d
      → Agrees base d0 (HashMap.insert scratch nd.name true) (step base (Op.upsert_node nd) d)
  unfolding is_present is_tombstoned
  upsert-Agrees base d0 scratch d nd h = record {
    present = λ x. ground (
      arith,
      h.present x,
      get_node-step base (Op.upsert_node nd) d x,
      HashMap.get-insert scratch nd.name true x,
    );
    tombstoned = λ x. ground (
      arith,
      h.tombstoned x,
      tombstones-step base (Op.upsert_node nd) d x,
      HashMap.get-insert scratch nd.name true x,
    );
  }

  remove-Agrees :
      (base : GraphAccessor) (d0 : GraphDelta) (scratch : HashMap String Bool) (d : GraphDelta)
      (name : String)
      → Agrees base d0 scratch d
      → Agrees base d0 (HashMap.insert scratch name false) (step base (Op.remove_node name) d)
  unfolding is_present is_tombstoned
  remove-Agrees base d0 scratch d name h = record {
    present = λ x. ground (
      arith,
      h.present x,
      get_node-step base (Op.remove_node name) d x,
      HashMap.get-insert scratch name false x,
    );
    tombstoned = λ x. ground (
      arith,
      h.tombstoned x,
      tombstones-step base (Op.remove_node name) d x,
      HashMap.get-insert scratch name false x,
    );
  }

  add-Agrees :
      (base : GraphAccessor) (d0 : GraphDelta) (scratch : HashMap String Bool) (d : GraphDelta)
      (from to : String) (edge : EdgeData)
      → Agrees base d0 scratch d
      → Agrees base d0 scratch (step base (Op.add_edge from to edge) d)
  add-Agrees base d0 scratch d from to edge h = record {
    present =
        λ x. h.present x ∙ ap is_some (sym (get_node-step base (Op.add_edge from to edge) d x));
    tombstoned = λ x. h.tombstoned x ∙ sym (tombstones-step base (Op.add_edge from to edge) d x);
  }

  cut-Agrees :
      (base : GraphAccessor) (d0 : GraphDelta) (scratch : HashMap String Bool) (d : GraphDelta)
      (from to kind : String)
      → Agrees base d0 scratch d
      → Agrees base d0 scratch (step base (Op.remove_edge from to kind) d)
  cut-Agrees base d0 scratch d from to kind h = record {
    present =
        λ x. h.present x ∙ ap is_some (sym (get_node-step base (Op.remove_edge from to kind) d x));
    tombstoned = λ x. h.tombstoned x ∙ sym (tombstones-step base (Op.remove_edge from to kind) d x);
  }

  check_edge-check_at :
      (base : GraphAccessor) (d0 : GraphDelta) (scratch : HashMap String Bool) (d : GraphDelta)
      (i : ℕ) (from to : String) (edge : EdgeData)
      → Agrees base d0 scratch d
      → check_edge d0 scratch base i from to edge ≡ check_at base i (Op.add_edge from to edge) d
  unfolding check_edge
  check_edge-check_at base d0 scratch d i from to edge h =
      ground (arith, h.present from, h.present to, h.tombstoned from, h.tombstoned to)

  validate-check :
      (base : GraphAccessor) (d0 : GraphDelta) (scratch : HashMap String Bool) (i : ℕ)
      (ops : List Op) (d : GraphDelta)
      → Agrees base d0 scratch d
      → validate d0 base scratch i ops ≡ check base i ops d
  unfolding validate check
  validate-check base d0 scratch i [] d h = refl
  validate-check base d0 scratch i (Op.upsert_node nd ∷ ops) d h =
      validate-check base d0 (HashMap.insert scratch nd.name true) (i + 1) ops
        (step base (Op.upsert_node nd) d) (upsert-Agrees base d0 scratch d nd h)
  validate-check base d0 scratch i (Op.remove_node name ∷ ops) d h =
      validate-check base d0 (HashMap.insert scratch name false) (i + 1) ops
        (step base (Op.remove_node name) d) (remove-Agrees base d0 scratch d name h)
  validate-check base d0 scratch i (Op.add_edge from to edge ∷ ops) d h = ground (
    arith,
    check_edge-check_at base d0 scratch d i from to edge h,
    validate-check base d0 scratch (i + 1) ops (step base (Op.add_edge from to edge) d)
        (add-Agrees base d0 scratch d from to edge h),
  )
  validate-check base d0 scratch i (Op.remove_edge from to kind ∷ ops) d h =
      validate-check base d0 scratch (i + 1) ops (step base (Op.remove_edge from to kind) d)
        (cut-Agrees base d0 scratch d from to kind h)

  -- A batch is accepted exactly when each of its operations passes its check in the overlay that the
  -- ones before it leave; then the overlay is the replay of the batch. Otherwise the error is that of
  -- the first operation that fails, with its place in the batch, and the overlay is as it was.
  pub apply-check :
      (base : GraphAccessor) (ops : List Op) (d : GraphDelta)
      → apply base ops d
        ≡ elim (check base 0 ops d) [ some e ↦ (err e, d) | none ↦ (ok, replay base ops d) ]
  unfolding apply
  apply-check base ops d = rw (validate-check base d HashMap.new 0 ops d (new-Agrees base d), apply)
