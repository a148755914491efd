-- ===== src/Traversal/Path/Expand.antt =====
-- The loop over the neighbours of the node that was taken from the heap.
use orpheusgraph.Prelude.{
  ℕ, suc, ◌+◌, ◌≡◌, ◌≤◌, ◌<◌, inl, inr, true, String, none, some, ◌==◌, List, [], ◌∷◌, arith,
  Bool-cases, Option-cases, string_eq, nat_eq, subst, sym, count, sum_over,
}
use orpheusgraph.HashMap
use orpheusgraph.HashMap.{HashMap, get-insert}
use orpheusgraph.HashSet.{contains}
use orpheusgraph.Types.{F32}
use orpheusgraph.Types.Context.{DynamicContext}
use orpheusgraph.Accessor.{GraphAccessor}
use orpheusgraph.Scoring.{Float}
use orpheusgraph.Overlay.Defs.{FloatOrder, NeighborEntry, build}
use orpheusgraph.Traversal.Lists.{Among, All}
use orpheusgraph.Traversal.Heap.{BinaryHeap, HeapLaws}
use orpheusgraph.Traversal.Path.{FloatDivision, Search, is_better, relax, relax_each}
use orpheusgraph.Traversal.Path.Route.{infinity_bits, FloatLaws, neighbors, cost_to, cost_to-bound}
use orpheusgraph.Traversal.Path.Chain.{Dist, Within}
use orpheusgraph.Traversal.Path.Relax.{
  Inv, improved, improved-Inv, kept, Within-improved, new_bound,
}

-- What a node weighs in the count of the rounds that are left, and how a smaller weight shows in a sum.
unfoldable pub weight : Dist → String → ℕ
weight dist n = elim (HashMap.get dist n) [ none ↦ suc infinity_bits | some d ↦ d ]

sum_over-le :
    (f g : String → ℕ)
    → ((n : String) → f n ≤ g n)
    → (ns : List String) → sum_over f ns ≤ sum_over g ns
sum_over-le f g h [] = omega arith
sum_over-le f g h (n ∷ ns) = omega (arith, h n, sum_over-le f g h ns)

sum_over-lt :
    (f g : String → ℕ)
    → ((n : String) → f n ≤ g n)
    → (b : String) → f b < g b
    → (ns : List String) → contains ns b ≡ true
    → sum_over f ns < sum_over g ns
unfolding contains
sum_over-lt f g h b less [] m = ground (arith, m)
sum_over-lt f g h b less (n ∷ ns) m = elim (Bool-cases (n == b)) [
  | inl t ↦
      let less' : f n < g n = subst (λ x. f x < g x) (sym ((string_eq.beq_iff n b).0 t)) less in
      omega (arith, less', sum_over-le f g h ns)
  | inr t ↦ omega (arith, h n, sum_over-lt f g h b less ns (ground (arith, t, m)))
]

-- a bound on the rounds that are left
unfoldable pub potential :
    {H : Type 0} ⦃bh : BinaryHeap H⦄ → HeapLaws bh → List String → Search H → ℕ
potential hl names s = sum_over (weight s.dist) names + count (λ e. true) (hl.into_vec s.heap)

module _ {H : Type 0} ⦃fl : Float⦄ ⦃fo : FloatOrder⦄ ⦃fd : FloatDivision⦄ ⦃bh : BinaryHeap H⦄
    (lw : FloatLaws) (hl : HeapLaws bh) (graph : GraphAccessor) (ctx : DynamicContext)
    (start end : String) (names : List String) where
  -- what the offers of one node's neighbours keep
  pub record Keeps (X : String → F32 → Type 0) (a : String) (c : F32) (s t : Search H)
      : Type 0 where
    pub inv : Inv lw hl graph ctx start end X t
    pub own : HashMap.get t.dist a ≡ some c
    pub nearer : (n : String) (x : F32) → Within s.dist n x → Within t.dist n x
    pub bounded : potential hl names t ≤ potential hl names s

  module _ (a : String) (c : F32) (bound : c ≤ infinity_bits) (X : String → F32 → Type 0) where
    relax_improved :
        (s : Search H) (nb : NeighborEntry) (among : Among nb (neighbors graph ctx a))
        → contains names nb.name ≡ true
        → Inv lw hl graph ctx start end X s
        → HashMap.get s.dist a ≡ some c
        → ((d : F32) → HashMap.get s.dist nb.name ≡ some d → cost_to graph ctx c nb.name < d)
        → Keeps X a c s (improved lw hl graph ctx start end a c bound s nb among)
    unfolding potential weight
    relax_improved s nb among known inv own better =
        let new = cost_to graph ctx c nb.name in
        let dist' = HashMap.insert s.dist nb.name new in
        let (up, le) = new_bound lw hl graph ctx start end a c bound s nb among X inv own better in
        let lighter : (n : String) → weight dist' n ≤ weight s.dist n = λ n.
          elim (Bool-cases (nb.name == n)) [
            | inl t ↦ elim (Option-cases (HashMap.get s.dist n)) [
              | inl e ↦ ground (arith, get-insert s.dist nb.name new n, t, e, le)
              | inr (d, e) ↦ ground (
                arith,
                get-insert s.dist nb.name new n,
                t,
                e,
                better d,
                (string_eq.beq_iff nb.name n).0 t,
              )
            ]
            | inr t ↦ ground (arith, get-insert s.dist nb.name new n, t)
          ] in
        let less : weight dist' nb.name < weight s.dist nb.name =
          elim (Option-cases (HashMap.get s.dist nb.name)) [
            | inl e ↦ ground (
              arith,
              get-insert s.dist nb.name new nb.name,
              string_eq.beq_iff nb.name nb.name,
              e,
              le,
            )
            | inr (d, e) ↦ ground (
              arith,
              get-insert s.dist nb.name new nb.name,
              string_eq.beq_iff nb.name nb.name,
              e,
              better d e,
            )
          ] in
        record {
          inv = improved-Inv lw hl graph ctx start end a c bound s nb among X inv own better;
          own = kept lw hl graph ctx start end a c bound s nb among X inv own better a c own up;
          nearer = Within-improved lw hl graph ctx start end a c bound s nb among X inv own better;
          bounded = omega (
            arith,
            sum_over-lt (weight dist') (weight s.dist) lighter nb.name less names known,
            hl.count-push (λ e. true) s.heap (record { cost = new; node = nb.name }),
          );
        }

    relax-Keeps :
        (s : Search H) (nb : NeighborEntry)
        → Among nb (neighbors graph ctx a)
        → contains names nb.name ≡ true
        → Inv lw hl graph ctx start end X s
        → HashMap.get s.dist a ≡ some c
        → Keeps X a c s (relax graph ctx (build ctx) a c s nb)
          × Within (relax graph ctx (build ctx) a c s nb).dist nb.name (cost_to graph ctx c nb.name)
    unfolding relax is_better
    relax-Keeps s nb among known inv own =
        let new = cost_to graph ctx c nb.name in
        let le : cost_to graph ctx c nb.name ≤ infinity_bits =
          cost_to-bound graph ctx lw c nb.name bound in
        elim (Bool-cases (is_better s nb.name new)) [
          | inl t ↦
              let better : (d : F32) → HashMap.get s.dist nb.name ≡ some d → new < d =
                λ d e. ground (arith, t, e, lw.gt_bits d new (inv.parents nb.name d e).0 le) in
              rw (t, relax)
                (
                  relax_improved s nb among known inv own better,
                  (
                    new,
                    (
                      ground (
                        arith,
                        get-insert s.dist nb.name new nb.name,
                        string_eq.beq_iff nb.name nb.name,
                      ),
                      omega arith,
                    ),
                  ),
                )
          | inr t ↦ elim (Option-cases (HashMap.get s.dist nb.name)) [
            | inl e ↦ ground (arith, t, e)
            | inr (d, e) ↦
                rw (t, relax)
                  (
                    record { inv = inv; own = own; nearer = λ n x w. w; bounded = omega arith },
                    (d, (e, ground (arith, t, e, lw.gt_bits d new (inv.parents nb.name d e).0 le))),
                  )
          ]
        ]

    pub relax_each-Keeps :
        (ns : List NeighborEntry)
        → All (λ nb. Among nb (neighbors graph ctx a) × (contains names nb.name ≡ true)) ns
        → (s : Search H) → Inv lw hl graph ctx start end X s
        → HashMap.get s.dist a ≡ some c
        → Keeps X a c s (relax_each graph ctx (build ctx) a c ns s)
          × All
              (λ nb.
                Within
                  (relax_each graph ctx (build ctx) a c ns s).dist
                  nb.name
                  (cost_to graph ctx c nb.name))
              ns
    unfolding relax_each
    relax_each-Keeps [] h s inv own =
        (record { inv = inv; own = own; nearer = λ n x w. w; bounded = omega arith }, tt)
    relax_each-Keeps (nb ∷ ns) ((among, known), hs) s inv own =
        let (k, w) = relax-Keeps s nb among known inv own in
        let (r, ws) = relax_each-Keeps ns hs (relax graph ctx (build ctx) a c s nb) k.inv k.own in
        (
          record {
            inv = r.inv;
            own = r.own;
            nearer = λ n x v. r.nearer n x (k.nearer n x v);
            bounded = omega (arith, k.bounded, r.bounded);
          },
          (r.nearer nb.name (cost_to graph ctx c nb.name) w, ws),
        )
