-- ===== src/Tests/CompactionWitnesses.antt =====
-- The names that `materialize` of src/delta.rs writes out, for the sample graph after its batch.
use orpheusgraph.Prelude.{◌≡◌, String, [], ◌∷◌, is_some, arith, string_eq}
use orpheusgraph.HashSet.{contains, Distinct}
use orpheusgraph.IndexMap.Association.{association}
use orpheusgraph.Delta.Defs.{new}
use orpheusgraph.Delta.View.{get_node}
use orpheusgraph.Delta.Apply.{replay}
use orpheusgraph.Delta.Materialize.{live_names, live_names-get_node}
use orpheusgraph.Tests.Sample.{sample, batch}

sample_complete : (x : String) → contains ("a" ∷ "b" ∷ "c" ∷ []) x ≡ is_some (sample.get_node x)
unfolding contains
sample_complete x = ground (
  arith,
  string_eq.beq_iff "a" x,
  string_eq.beq_iff "b" x,
  string_eq.beq_iff "c" x,
  string_eq.beq_iff x "a",
  string_eq.beq_iff x "b",
  string_eq.beq_iff x "c",
)

live_names-get_node_example :
    Distinct (live_names ("a" ∷ "b" ∷ "c" ∷ []) (replay sample batch new))
    × ((x : String)
        → contains (live_names ("a" ∷ "b" ∷ "c" ∷ []) (replay sample batch new)) x
          ≡ is_some (get_node sample (replay sample batch new) x))
live_names-get_node_example =
    live_names-get_node sample ("a" ∷ "b" ∷ "c" ∷ []) (replay sample batch new) sample_complete
