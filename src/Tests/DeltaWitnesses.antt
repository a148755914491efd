-- ===== src/Tests/DeltaWitnesses.antt =====
-- The properties of the overlay at concrete inputs.
use orpheusgraph.Prelude.{
  ◌≡◌, refl, Bool, true, false, ◌&&◌, String, none, some, List, [], ◌∷◌, ◌++◌, arith, ◌==◌,
  string_eq, filter, count,
}
use orpheusgraph.HashSet.{contains}
use orpheusgraph.IndexMap.Association.{association}
use orpheusgraph.Delta.Defs.{Op, new}
use orpheusgraph.Delta.View.{get_node, outgoing_neighbors}
use orpheusgraph.Delta.Apply.{ok, err, apply, replay, step}
use orpheusgraph.Delta.Index.{IsIndexed}
use orpheusgraph.Delta.Indexed.{new-IsIndexed, step-IsIndexed}
use orpheusgraph.Delta.Nodes.{write_nodes, get_node-replay}
use orpheusgraph.Delta.Validation.{check, apply-check}
use orpheusgraph.Delta.Fields.{new_edge}
use orpheusgraph.Delta.Sides.{outgoing, incoming, neighbors, view}
use orpheusgraph.Delta.Parts.{uncut, leads_elsewhere}
use orpheusgraph.Delta.Edges.{neighbors-add, neighbors-cut, neighbors-remove}
use orpheusgraph.Delta.Masked.{IsConsistent}
use orpheusgraph.Delta.Recount.{debug_check_invariants}
use orpheusgraph.Delta.Recounted.{debug_check_invariants-replay}
use orpheusgraph.Tests.Sample.{sample, sample_ends, targets, sources, batch, edge}

targets-sources :
    (ends : List (String × String)) (a b : String) (q : String → Bool)
    → count (λ nb. nb.target_name == b && q nb.edge_kind) (targets a ends)
      ≡ count (λ nb. nb.target_name == a && q nb.edge_kind) (sources b ends)
targets-sources [] a b q = refl
targets-sources ((from, to) ∷ ends) a b q = ground (arith, targets-sources ends a b q)

sample-IsConsistent : IsConsistent sample
sample-IsConsistent = record {
  both_ends = targets-sources sample_ends;
  out_of_node = λ a h. ground (
    arith,
    string_eq.beq_iff a "a",
    string_eq.beq_iff "a" a,
    string_eq.beq_iff a "b",
    string_eq.beq_iff "b" a,
    string_eq.beq_iff a "c",
    string_eq.beq_iff "c" a,
  );
  into_node = λ a h. ground (
    arith,
    string_eq.beq_iff a "a",
    string_eq.beq_iff "a" a,
    string_eq.beq_iff a "b",
    string_eq.beq_iff "b" a,
  );
}

apply-check_example : apply sample batch new ≡ elim (check sample 0 batch new) [
  | some e ↦ (err e, new)
  | none ↦ (ok, replay sample batch new)
]
apply-check_example = apply-check sample batch new

debug_check_invariants-replay_example :
    debug_check_invariants sample (replay sample batch new) ≡ true
debug_check_invariants-replay_example =
    debug_check_invariants-replay sample sample-IsConsistent batch

get_node-replay_example :
    get_node sample (replay sample batch new) ≡ write_nodes batch (get_node sample new)
get_node-replay_example = get_node-replay sample batch new

no_tombstone : (x : String) → contains [] x ≡ false
unfolding contains
no_tombstone x = refl

step-IsIndexed_example : IsIndexed (step sample (Op.add_edge "a" "c" (edge [])) new)
step-IsIndexed_example =
    step-IsIndexed sample (Op.add_edge "a" "c" (edge [])) new (omega arith) new-IsIndexed

neighbors-add_example :
    outgoing_neighbors sample (step sample (Op.add_edge "a" "c" (edge [])) new) "a"
    ≡ outgoing_neighbors sample new "a" ++ (view outgoing (new_edge "a" "c" (edge [])) ∷ [])
neighbors-add_example =
    neighbors-add outgoing sample "a" "c" (edge []) new "a" new-IsIndexed (omega arith)
      (no_tombstone "a") (no_tombstone "c")

neighbors-cut_example :
    neighbors incoming sample (step sample (Op.remove_edge "a" "b" "rel") new) "b"
    ≡ filter (uncut incoming "a" "b" "rel" "b") (neighbors incoming sample new "b")
neighbors-cut_example = neighbors-cut incoming sample "a" "b" "rel" new "b" new-IsIndexed

neighbors-remove_example :
    neighbors outgoing sample (step sample (Op.remove_node "b") new) "a"
    ≡ filter (leads_elsewhere "b") (neighbors outgoing sample new "a")
neighbors-remove_example = neighbors-remove outgoing sample "b" new "a" new-IsIndexed
