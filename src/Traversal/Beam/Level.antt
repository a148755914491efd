-- ===== src/Traversal/Beam/Level.antt =====
-- The map of one level of `beam_traverse`: what is in it, and under which names.
use orpheusgraph.Prelude.{
  ◌≡◌, subst, Bool, true, false, String, some, List, [], ◌∷◌, map, arith, Bool-cases, Option-cases,
  inl, inr, string_eq, ◌==◌, if◌then◌else◌,
}
use orpheusgraph.HashMap
use orpheusgraph.HashMap.{HashMap, find, put, put-Distinct}
use orpheusgraph.HashSet.{contains, Distinct}
use orpheusgraph.Types.Context.{DynamicContext}
use orpheusgraph.Accessor.{GraphAccessor}
use orpheusgraph.Scoring.{Float, NodeResult}
use orpheusgraph.Overlay.Defs.{
  FloatOrder, OverlayIndex, NeighborEntry, neighbors_with_overlay_indexed,
}
use orpheusgraph.Traversal.Lists.{All}
use orpheusgraph.Traversal.Score.{score_of}
use orpheusgraph.Traversal.Beam.{offer, offer_each, collect_level}

abbrev pub Pairs : Type 0
Pairs = List (String × NodeResult)

module _ (P : String → NodeResult → Type 0) where
  -- every pair is good, and no key stands twice
  pub record IsGood (m : Pairs) : Type 0 where
    pub good : All (λ p. P p.0 p.1) m
    pub keys : Distinct (map (λ p. p.0) m)

  find-good :
      (k : String) (m : Pairs)
      → All (λ p. P p.0 p.1) m
      → (r : NodeResult) → find k m ≡ some r
      → P k r
  unfolding find
  find-good k [] h r e = ground (arith, e)
  find-good k ((j, v) ∷ m) (h, hs) r e = elim (Bool-cases (j == k)) [
    | inl t ↦
        let same : v ≡ r = ground (arith, t, e) in
        subst (λ x. P x r) ((string_eq.beq_iff j k).0 t) (subst (P j) same h)
    | inr t ↦ find-good k m hs r (ground (arith, t, e))
  ]

  put-All :
      (k : String) (v : NodeResult) (m : Pairs)
      → P k v
      → All (λ p. P p.0 p.1) m
      → All (λ p. P p.0 p.1) (put k v m)
  unfolding put
  put-All k v [] p h = (p, tt)
  put-All k v ((j, w) ∷ m) p (h, hs) = elim (Bool-cases (j == k)) [
    | inl t ↦ rw (t, put) (p, hs)
    | inr t ↦ rw (t, put) (h, put-All k v m p hs)
  ]

module _ ⦃fo : FloatOrder⦄ (P : String → NodeResult → Type 0) where
  chosen : (b : Bool) (k : String) (x y : NodeResult) → P k x → P k y → P k (if b then x else y)
  chosen true k x y p q = p
  chosen false k x y p q = q

  pub offer-IsGood :
      (m : HashMap String NodeResult) (k : String) (r : NodeResult)
      → P k r
      → IsGood P m.pairs
      → IsGood P (offer m k r).pairs
  unfolding offer HashMap.insert HashMap.get
  offer-IsGood m k r p h = record {
    good = elim (Option-cases (find k m.pairs)) [
      | inl e ↦ rw (e, offer) (put-All P k r m.pairs p h.good)
      | inr (w, e) ↦
          rw (e, offer)
            (put-All P k _ m.pairs
              (chosen (fo.gt r.weight w.weight) k r w p (find-good P k m.pairs h.good w e)) h.good)
    ];
    keys = put-Distinct k _ m.pairs h.keys;
  }

module _ ⦃fl : Float⦄ ⦃fo : FloatOrder⦄ (graph : GraphAccessor) (ctx : DynamicContext)
    (overlay : OverlayIndex) (visited : List String) where
  -- what the map holds under a name, after some frontier nodes
  pub record IsOffered (From : String → Type 0) (name : String) (r : NodeResult) : Type 0 where
    pub score : score_of graph ctx overlay name ≡ some r
    pub fresh : contains visited name ≡ false
    pub found : From name

  module _ (From : String → Type 0) where
    offer_each-IsGood :
        (ns : List NeighborEntry)
        → All (λ n. From n.name) ns
        → (m : HashMap String NodeResult) → IsGood (IsOffered From) m.pairs
        → IsGood (IsOffered From) (offer_each graph ctx overlay visited ns m).pairs
    unfolding offer_each
    offer_each-IsGood [] from m h = h
    offer_each-IsGood (n ∷ ns) (f, fs) m h = elim (Bool-cases (contains visited n.name)) [
      | inl t ↦ rw (t, offer_each) (offer_each-IsGood ns fs m h)
      | inr t ↦ elim (Option-cases (score_of graph ctx overlay n.name)) [
        | inl e ↦ rw (t, e, offer_each) (offer_each-IsGood ns fs m h)
        | inr (r, e) ↦
            rw (t, e, offer_each)
              (offer_each-IsGood ns fs (offer m n.name r) (
                offer-IsGood (IsOffered From) m n.name r
                  (record { score = e; fresh = t; found = f }) h))
      ]
    ]

    pub collect_level-IsGood :
        (frontier : List String)
        → All
            (λ a. All (λ n. From n.name) (neighbors_with_overlay_indexed graph ctx overlay a))
            frontier
        → (m : HashMap String NodeResult) → IsGood (IsOffered From) m.pairs
        → IsGood (IsOffered From) (collect_level graph ctx overlay visited frontier m).pairs
    unfolding collect_level
    collect_level-IsGood [] from m h = h
    collect_level-IsGood (a ∷ frontier) (f, fs) m h =
        collect_level-IsGood frontier fs
          (offer_each graph ctx overlay visited (neighbors_with_overlay_indexed graph ctx overlay a)
            m)
          (offer_each-IsGood (neighbors_with_overlay_indexed graph ctx overlay a) f m h)
