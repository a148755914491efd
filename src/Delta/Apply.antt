-- ===== src/Delta/Apply.antt =====
-- `GraphDelta::apply` and `GraphDelta::replay` of src/delta.rs.
use orpheusgraph.Prelude.{
  ℕ, ◌+◌, Bool, true, false, not, ◌&&◌, ◌||◌, String, Option, none, some, List, [], ◌∷◌, string_eq,
  if◌then◌else◌, is_some, ltb,
}
use orpheusgraph.HashMap
use orpheusgraph.HashMap.{HashMap}
use orpheusgraph.HashSet.{contains}
use orpheusgraph.IndexMap.{IndexMap}
use orpheusgraph.Types.{NodeData, EdgeData}
use orpheusgraph.Accessor.{GraphAccessor}
use orpheusgraph.Delta.Defs.{Op, DeltaError, missing_endpoint, invalid_edge_validity, GraphDelta}
use orpheusgraph.Delta.Mutators

-- `Result<(), DeltaError>`, beside the overlay that the call leaves.
pub data Outcome : Type 0 where
  ok : Outcome
  err : DeltaError → Outcome

-- The guard `vf > vt` of an edge whose window has both ends.
unfoldable pub bad_window : EdgeData → Option (ℕ × ℕ)
bad_window edge = elim edge.valid_from [
  | none ↦ none
  | some vf ↦ elim edge.valid_to [
    | none ↦ none
    | some vt ↦ if ltb vt vf then some (vf, vt) else none
  ]
]

module _ ⦃im : IndexMap String NodeData⦄ where
  unfoldable pub is_present : GraphDelta → HashMap String Bool → GraphAccessor → String → Bool
  is_present d scratch base x = elim (HashMap.get scratch x) [
    | some p ↦ p
    | none ↦
        is_some (im.get d.added_nodes x)
        || (not (contains d.removed_nodes x) && is_some (base.get_node x))
  ]

  unfoldable pub is_tombstoned : GraphDelta → HashMap String Bool → String → Bool
  is_tombstoned d scratch x = elim (HashMap.get scratch x) [
    | some present ↦ not present
    | none ↦ contains d.removed_nodes x
  ]

  -- the body of the `AddEdge` arm of pass 1
  unfoldable pub check_edge :
      GraphDelta
      → HashMap String Bool
      → GraphAccessor
      → ℕ
      → String
      → String
      → EdgeData
      → Option DeltaError
  check_edge d scratch base i from to edge = elim (bad_window edge) [
    | some (vf, vt) ↦ some (invalid_edge_validity i from to vf vt)
    | none ↦
        if not (is_present d scratch base from)
        then some (missing_endpoint i from to from (is_tombstoned d scratch from))
        else if not (is_present d scratch base to)
        then some (missing_endpoint i from to to (is_tombstoned d scratch to))
        else none
  ]

  -- pass 1, from op number `i` on
  unfoldable pub validate :
      GraphDelta → GraphAccessor → HashMap String Bool → ℕ → List Op → Option DeltaError
  validate d base scratch i [] = none
  validate d base scratch i (Op.upsert_node nd ∷ ops) =
      validate d base (HashMap.insert scratch nd.name true) (i + 1) ops
  validate d base scratch i (Op.remove_node name ∷ ops) =
      validate d base (HashMap.insert scratch name false) (i + 1) ops
  validate d base scratch i (Op.add_edge from to edge ∷ ops) =
      let rest = validate d base scratch (i + 1) ops in
      elim (check_edge d scratch base i from to edge) [ some e ↦ some e | none ↦ rest ]
  validate d base scratch i (Op.remove_edge from to kind ∷ ops) =
      validate d base scratch (i + 1) ops

  -- the arms of pass 2 and of `replay`
  unfoldable pub step : GraphAccessor → Op → GraphDelta → GraphDelta
  step base (Op.upsert_node nd) d = Mutators.upsert_node base nd d
  step base (Op.remove_node name) d = Mutators.remove_node base name d
  step base (Op.add_edge from to edge) d = Mutators.add_edge from to edge d
  step base (Op.remove_edge from to kind) d = Mutators.remove_edge base from to kind d

  unfoldable pub replay : GraphAccessor → List Op → GraphDelta → GraphDelta
  replay base [] d = d
  replay base (op ∷ ops) d = replay base ops (step base op d)

  unfoldable pub apply : GraphAccessor → List Op → GraphDelta → Outcome × GraphDelta
  apply base ops d = elim (validate d base HashMap.new 0 ops) [
    | some e ↦ (err e, d)
    | none ↦ (ok, replay base ops d)
  ]
