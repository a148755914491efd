-- ===== src/Builder/Nodes.antt =====
-- The nodes that src/builder.rs inserts, found by name.
use orpheusgraph.Prelude.{
  ℕ, suc, ◌≡◌, ◌<◌, refl, subst, sym, ◌∙◌, Bool, true, false, String, Option, none, some, List, [],
  ◌∷◌, map, if◌then◌else◌, arith, Bool-cases, inl, inr, ◌==◌, string_eq, nat_eq,
}
use orpheusgraph.HashMap
use orpheusgraph.HashMap.{HashMap, get-insert, get-new}
use orpheusgraph.HashSet.{contains, Distinct}
use orpheusgraph.Types.{NodeData, EdgeData, NodeInput, F32}
use orpheusgraph.Graph.{DiGraph}
use orpheusgraph.Scoring.{Float}
use orpheusgraph.Overlay.Defs.{FloatOrder}
use orpheusgraph.Builder.{
  GraphBuilder, FloatBuild, node_of_input, norm_divisor, sanitize, insert_nodes, canonical_nodes,
}
use orpheusgraph.Builder.Canonical.{named, names, last_named, canonical_nodes-Distinct}

-- all but the rank
abbrev pub unranked : F32 → NodeData → NodeData
unranked w n = record n { pagerank_weight = w }

-- What the calls do to the nodes: a new node is the one past the last, the others stay as they are; an edge
-- changes no node, and a rank nothing else of a node.
pub record BuilderLaws (G : Type 0) ⦃dg : DiGraph G⦄ ⦃gb : GraphBuilder G⦄ : Type 0 where
  pub index-add_node : (g : G) (n : NodeData) → (gb.add_node g n).1 ≡ dg.node_count g
  pub node_count-add_node :
      (g : G) (n : NodeData) → dg.node_count (gb.add_node g n).0 ≡ suc (dg.node_count g)
  pub node_at-added : (g : G) (n : NodeData) → dg.node_at (gb.add_node g n).0 (dg.node_count g) ≡ n
  pub node_at-add_node :
      (g : G) (n : NodeData) (i : ℕ)
      → i < dg.node_count g
      → dg.node_at (gb.add_node g n).0 i ≡ dg.node_at g i
  pub node_at-add_edge :
      (g : G) (i j : ℕ) (e : EdgeData) (k : ℕ) → dg.node_at (gb.add_edge g i j e) k ≡ dg.node_at g k
  pub node_at-set_pagerank_weight :
      (g : G) (i : ℕ) (w v : F32) (k : ℕ)
      → unranked v (dg.node_at (gb.set_pagerank_weight g i w) k) ≡ unranked v (dg.node_at g k)

named-absent :
    (x : String) (ns : List NodeInput) → contains (names ns) x ≡ false → named x ns ≡ none
unfolding named contains
named-absent x [] h = refl
named-absent x (n ∷ ns) h =
    ground (arith, h, named-absent x ns, string_eq.beq_iff n.name x, string_eq.beq_iff x n.name)

last_named-named :
    (x : String) (o : Option NodeInput) (ns : List NodeInput)
    → Distinct (names ns)
    → last_named x o ns ≡ elim (named x ns) [ none ↦ o | some n ↦ some n ]
unfolding last_named named
last_named-named x o [] d = refl
last_named-named x o (n ∷ ns) (h, d) = ground (
  arith,
  h,
  last_named-named x (if n.name == x then some n else o) ns d,
  named-absent x ns,
  string_eq.beq_iff n.name x,
)

pub last_named-canonical :
    (x : String) (nodes : List NodeInput)
    → last_named x none (canonical_nodes nodes) ≡ last_named x none nodes
last_named-canonical x nodes =
    let (d, l) = canonical_nodes-Distinct nodes in
    let same : named x (canonical_nodes nodes) ≡ last_named x none nodes = l x in
    ground (arith, last_named-named x none (canonical_nodes nodes) d, same)

module _ ⦃fl : Float⦄ ⦃fo : FloatOrder⦄ ⦃fb : FloatBuild⦄ where
  -- the node that an input becomes, with the weights of all inputs in view
  abbrev pub weighed : List NodeInput → Bool → NodeInput → NodeData
  weighed nodes normalize n = record {
    name = n.name;
    kind = n.kind;
    metadata = n.metadata;
    base_weight =
        if normalize
        then fb.div (sanitize n.base_weight) (norm_divisor normalize (canonical_nodes nodes))
        else n.base_weight;
    noise_penalty =
        if normalize then fl.clamp (sanitize n.noise_penalty) fl.zero fl.one else n.noise_penalty;
    pagerank_weight = fl.zero;
  }

  pub weighed-name :
      (nodes : List NodeInput) (normalize : Bool) (n : NodeInput)
      → (weighed nodes normalize n).name ≡ n.name
  unfolding node_of_input
  weighed-name nodes normalize n = refl

module _ ⦃fl : Float⦄ {G : Type 0} ⦃dg : DiGraph G⦄ where
  -- the node that a name leads to
  abbrev pub StoresNode :
      (NodeInput → NodeData) → G → HashMap String ℕ → String → Option NodeInput → Type 0
  StoresNode f g m x none = HashMap.get m x ≡ none
  StoresNode f g m x (some n) =
      (i : ℕ) × ((HashMap.get m x ≡ some i) × ((i < dg.node_count g) × (dg.node_at g i ≡ f n)))

module _ ⦃fl : Float⦄ ⦃fo : FloatOrder⦄ ⦃fb : FloatBuild⦄ {G : Type 0} ⦃dg : DiGraph G⦄
    ⦃gb : GraphBuilder G⦄ (laws : BuilderLaws G) where
  module _ (f : NodeInput → NodeData) (names_kept : (n : NodeInput) → (f n).name ≡ n.name) where
    StoresNode-old :
        (g : G) (m : HashMap String ℕ) (n : NodeInput) (x : String) (o : Option NodeInput)
        → (n.name == x) ≡ false
        → StoresNode f g m x o
        → StoresNode f (gb.add_node g (f n)).0 (HashMap.insert m n.name (gb.add_node g (f n)).1) x o
    StoresNode-old g m n x none r h =
        ground (arith, r, h, get-insert m n.name (gb.add_node g (f n)).1 x)
    StoresNode-old g m n x (some d) r (i, (at, (inside, eq))) = (
      i,
      (
        ground (arith, r, at, get-insert m n.name (gb.add_node g (f n)).1 x),
        (
          ground (arith, inside, laws.node_count-add_node g (f n)),
          laws.node_at-add_node g (f n) i inside ∙ eq,
        ),
      ),
    )

    StoresNode-new :
        (g : G) (m : HashMap String ℕ) (n : NodeInput) (x : String)
        → (n.name == x) ≡ true
        → StoresNode f
            (gb.add_node g (f n)).0
            (HashMap.insert m n.name (gb.add_node g (f n)).1)
            x
            (some n)
    StoresNode-new g m n x r = (
      dg.node_count g,
      (
        ground
            (arith, r, get-insert m n.name (gb.add_node g (f n)).1 x, laws.index-add_node g (f n)),
        (ground (arith, laws.node_count-add_node g (f n)), laws.node_at-added g (f n)),
      ),
    )

    StoresNode-add_node :
        (g : G) (m : HashMap String ℕ) (n : NodeInput) (x : String) (o : Option NodeInput)
        → StoresNode f g m x o
        → StoresNode f
            (gb.add_node g (f n)).0
            (HashMap.insert m n.name (gb.add_node g (f n)).1)
            x
            (if n.name == x then some n else o)
    StoresNode-add_node g m n x o h = elim (Bool-cases (n.name == x)) [
      | inl r ↦ rw (r) (StoresNode-new g m n x r)
      | inr r ↦ rw (r) (StoresNode-old g m n x o r h)
    ]

    pub insert_nodes-StoresNode :
        (ns : List NodeInput) (g : G) (m : HashMap String ℕ) (x : String) (o : Option NodeInput)
        → StoresNode f g m x o
        → StoresNode f
            (insert_nodes (map f ns) g m).graph
            (insert_nodes (map f ns) g m).index_map
            x
            (last_named x o ns)
    unfolding insert_nodes last_named
    insert_nodes-StoresNode [] g m x o h = h
    insert_nodes-StoresNode (n ∷ ns) g m x o h =
        insert_nodes-StoresNode ns (gb.add_node g (f n)).0
          (HashMap.insert m (f n).name (gb.add_node g (f n)).1) x
          (if n.name == x then some n else o)
          (subst
            (λ k.
              StoresNode f (gb.add_node g (f n)).0 (HashMap.insert m k (gb.add_node g (f n)).1) x
                (if n.name == x then some n else o))
            (sym (names_kept n)) (StoresNode-add_node g m n x o h))
