-- ===== src/Tests/BuilderRuns.antt =====
-- Runs of src/builder.rs: the inputs in canonical order, and the temporal ranges that are refused.
use orpheusgraph.Prelude.{ℕ, ◌≡◌, refl, true, false, String, Option, none, some, [], ◌∷◌}
use orpheusgraph.Types.{NodeInput, EdgeInput}
use orpheusgraph.Builder.{canonical_nodes, is_malformed}

abbrev input : String → ℕ → NodeInput
input name weight = record {
  name = name;
  kind = "model";
  metadata = [];
  base_weight = weight;
  noise_penalty = 0;
}

-- the last input of a name counts
canonical_nodes_run :
    canonical_nodes (input "b" 1 ∷ input "a" 2 ∷ input "b" 3 ∷ []) ≡ input "a" 2 ∷ input "b" 3 ∷ []
unfolding canonical_nodes
canonical_nodes_run = refl

abbrev between : Option ℕ → Option ℕ → EdgeInput
between valid_from valid_to = record {
  from = "a";
  to = "b";
  kind = "rel";
  field_name = none;
  base_weight = 1;
  valid_from = valid_from;
  valid_to = valid_to;
  acl = [];
}

malformed_run : is_malformed (between (some 4) (some 3)) ≡ true
unfolding is_malformed
malformed_run = refl

empty_run : is_malformed (between (some 3) (some 3)) ≡ false
unfolding is_malformed
empty_run = refl
