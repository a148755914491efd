-- ===== src/Tests/BuilderWitnesses.antt =====
-- The construction of src/builder.rs over a graph of lists.
use orpheusgraph.Prelude.{
  ℕ, zero, suc, ◌+◌, ◌-◌, ◌*◌, ◌/◌, ◌≡◌, ◌<◌, refl, ap, Bool, true, String, Option, none, some,
  List, [], ◌∷◌, ◌++◌, length, get_elem?, set, filter, ltb, max, arith, if◌then◌else◌, ◌==◌, nat_eq,
}
use orpheusgraph.Types.{NodeData, NodeInput, EdgeInput, F32}
use orpheusgraph.Graph.{Direction, EdgeRef, DiGraph}
use orpheusgraph.Scoring.{Float}
use orpheusgraph.Overlay.Defs.{FloatOrder}
use orpheusgraph.Builder.{GraphBuilder, FloatBuild, build_graph_inner}
use orpheusgraph.Builder.Canonical.{last_named}
use orpheusgraph.Builder.Nodes.{BuilderLaws, unranked, weighed}
use orpheusgraph.Builder.Built.{FindsNode, build_graph_inner-FindsNode}
use orpheusgraph.Tests.Sample.{node}

abbrev Listed : Type 0
Listed = List NodeData × List EdgeRef

abbrev node_or : Option NodeData → NodeData
node_or none = node ""
node_or (some n) = n

abbrev leaves : ℕ → Direction → EdgeRef → Bool
leaves idx Direction.outgoing e = e.source == idx
leaves idx Direction.incoming e = e.target == idx

instance abbrev listed : DiGraph Listed
listed = record {
  node_count = λ g. length g.0;
  edge_count = λ g. length g.1;
  node_at = λ g idx. node_or (get_elem? g.0 idx);
  edges_directed = λ g idx direction. filter (leaves idx direction) g.1;
}

instance abbrev growing : GraphBuilder Listed
growing = record {
  empty = ([], []);
  add_node = λ g n. ((g.0 ++ (n ∷ []), g.1), length g.0);
  add_edge = λ g from to e. (g.0, record { source = from; target = to; weight = e } ∷ g.1);
  set_pagerank_weight = λ g idx w. (set g.0 idx (unranked w (node_or (get_elem? g.0 idx))), g.1);
}

-- whole numbers in place of floats
instance abbrev whole : Float
whole = record {
  add = λ a b. a + b;
  sub = λ a b. a - b;
  mul = λ a b. a * b;
  maximum = max;
  clamp = λ a low high. if ltb a low then low else if ltb high a then high else a;
  zero = 0;
  one = 1;
  nine_tenths = 1;
}

instance abbrev whole_order : FloatOrder
whole_order = record { gt = λ a b. ltb b a; zero = 0 }

abbrev total : List ℕ → ℕ
total [] = 0
total (x ∷ xs) = x + total xs

instance abbrev whole_build : FloatBuild
whole_build = record {
  is_finite = λ a. true;
  div = λ a b. a / b;
  of_count = λ n. n;
  sum = total;
  epsilon = 0;
  damping = 1;
}

length-snoc : (xs : List NodeData) (n : NodeData) → length (xs ++ (n ∷ [])) ≡ suc (length xs)
length-snoc [] n = refl
length-snoc (x ∷ xs) n = ap suc (length-snoc xs n)

get_elem?-snoc :
    (xs : List NodeData) (n : NodeData) → get_elem? (xs ++ (n ∷ [])) (length xs) ≡ some n
get_elem?-snoc [] n = refl
get_elem?-snoc (x ∷ xs) n = get_elem?-snoc xs n

get_elem?-before :
    (xs : List NodeData) (n : NodeData) (i : ℕ)
    → i < length xs
    → get_elem? (xs ++ (n ∷ [])) i ≡ get_elem? xs i
get_elem?-before [] n i h = ground (arith, h)
get_elem?-before (x ∷ xs) n zero h = refl
get_elem?-before (x ∷ xs) n (suc i) h = get_elem?-before xs n i (omega arith)

unranked-set :
    (xs : List NodeData) (i : ℕ) (w v : F32) (k : ℕ)
    → unranked v (node_or (get_elem? (set xs i (unranked w (node_or (get_elem? xs i)))) k))
      ≡ unranked v (node_or (get_elem? xs k))
unranked-set [] i w v k = refl
unranked-set (x ∷ xs) zero w v zero = refl
unranked-set (x ∷ xs) zero w v (suc k) = refl
unranked-set (x ∷ xs) (suc i) w v zero = refl
unranked-set (x ∷ xs) (suc i) w v (suc k) = unranked-set xs i w v k

listed_laws : BuilderLaws Listed
listed_laws = record {
  index-add_node = λ g n. refl;
  node_count-add_node = λ g n. length-snoc g.0 n;
  node_at-added = λ g n. ap node_or (get_elem?-snoc g.0 n);
  node_at-add_node = λ g n i h. ap node_or (get_elem?-before g.0 n i h);
  node_at-add_edge = λ g i j e k. refl;
  node_at-set_pagerank_weight = λ g i w v k. unranked-set g.0 i w v k;
}

abbrev input : String → ℕ → NodeInput
input name weight = record {
  name = name;
  kind = "model";
  metadata = [];
  base_weight = weight;
  noise_penalty = 0;
}

abbrev inputs : List NodeInput
inputs = input "b" 1 ∷ input "a" 2 ∷ input "b" 3 ∷ []

abbrev links : List EdgeInput
links =
    record {
      from = "a";
      to = "b";
      kind = "rel";
      field_name = none;
      base_weight = 1;
      valid_from = none;
      valid_to = none;
      acl = [];
    }
    ∷ []

build_graph_inner-FindsNode_example :
    FindsNode
      (weighed inputs true)
      (build_graph_inner {G = Listed} inputs links true)
      "b"
      (last_named "b" none inputs)
build_graph_inner-FindsNode_example = build_graph_inner-FindsNode listed_laws inputs links true "b"
