-- ===== src/Traversal/Path/Pop.antt =====
-- One entry taken from the heap of `find_path`.
use orpheusgraph.Prelude.{
  suc, ◌+◌, ◌≡◌, ◌≤◌, ◌^◌, ◌⊎◌, inl, inr, refl, true, false, String, some, ◌==◌, List, arith,
  Bool-cases, string_eq, nat_eq, subst, sym,
}
use orpheusgraph.HashMap
use orpheusgraph.HashMap.{HashMap}
use orpheusgraph.HashSet.{contains}
use orpheusgraph.Types.{F32}
use orpheusgraph.Types.Context.{DynamicContext}
use orpheusgraph.Accessor.{GraphAccessor}
use orpheusgraph.Scoring.{Float}
use orpheusgraph.Overlay.Defs.{FloatOrder, build, neighbors_with_overlay}
use orpheusgraph.Traversal.Sort.{total_key}
use orpheusgraph.Traversal.Lists.{Among, All, All-Among, All-of_Among, All-count}
use orpheusgraph.Traversal.Heap.{DijkstraEntry, BinaryHeap, HeapLaws}
use orpheusgraph.Traversal.Path.{FloatDivision, PathStep, Search, is_stale, relax_each}
use orpheusgraph.Traversal.Path.Route.{
  infinity_bits, FloatLaws, neighbors, cost_to, cost_to-grows, cost_to_mono, Route, Route-bound,
}
use orpheusgraph.Traversal.Path.Chain.{Within}
use orpheusgraph.Traversal.Path.Relax.{is_entry, InHeap, Inv}
use orpheusgraph.Traversal.Path.Expand.{potential, relax_each-Keeps}
use orpheusgraph.Traversal.Path.Ends.{IsListed}

-- outside an expansion
abbrev pub NoNode : String → F32 → Type 0
NoNode n d = ⊥

abbrev pub IsNode : String → F32 → String → F32 → Type 0
IsNode a c n d = (n ≡ a) × (d ≡ c)

total_key_bits : (c : F32) → c ≤ infinity_bits → total_key c ≡ 2 ^ 31 + c
unfolding total_key
total_key_bits c h = ground arith

module _ {H : Type 0} ⦃fl : Float⦄ ⦃fo : FloatOrder⦄ ⦃fd : FloatDivision⦄ ⦃bh : BinaryHeap H⦄
    (lw : FloatLaws) (hl : HeapLaws bh) (graph : GraphAccessor) (ctx : DynamicContext)
    (start end : String) (s : Search H) (inv : Inv lw hl graph ctx start end NoNode s) where
  -- Every route ends at a node that is reached as cheaply, or costs as much as the heap's least entry.
  pub reach_or_least :
      (least : F32)
      → ((d : F32) (n : String) → InHeap lw hl graph ctx start end s d n → least ≤ d)
      → {q : List PathStep} {a : String} {c : F32} → Route graph ctx start q a c
      → Within s.dist a c ⊎ (least ≤ c)
  reach_or_least least h Route.begin = inl (0, (inv.origin, omega arith))
  reach_or_least least h (Route.extend {a} {c} r nb m) =
      let top : c ≤ infinity_bits = Route-bound graph ctx lw start r in
      elim (reach_or_least least h r) [
        | inr le ↦ inr (omega (arith, le, cost_to-grows graph ctx lw c nb.name top))
        | inl (d, (e, le)) ↦ elim (inv.covered a d e) [
          | inl inside ↦
              inr (omega (arith, h d a inside, le, cost_to-grows graph ctx lw c nb.name top))
          | inr (inl expanded) ↦
              let (x, (ex, near)) =
                All-Among (λ m. Within s.dist m.name (cost_to graph ctx d m.name))
                  (neighbors graph ctx a) expanded nb m in
              inl (x, (ex, omega (arith, near, cost_to_mono graph ctx lw d c nb.name le top)))
          | inr (inr bad) ↦ absurd bad
        ]
      ]

  module _ (e : DijkstraEntry) (rest : H) (popped : bh.pop s.heap ≡ some (e, rest)) where
    pub popped_InHeap : InHeap lw hl graph ctx start end s e.cost e.node
    popped_InHeap = ground (
      arith,
      hl.count-pop (is_entry e.cost e.node) s.heap e rest popped,
      string_eq.beq_iff e.node e.node,
      nat_eq.beq_iff e.cost e.cost,
    )

    pub popped_least : (d : F32) (n : String) → InHeap lw hl graph ctx start end s d n → e.cost ≤ d
    popped_least d n h = elim (Bool-cases (is_entry d n e)) [
      | inl t ↦
          let same : e.cost ≡ d = (nat_eq.beq_iff e.cost d).0 (ground (arith, t)) in
          omega (arith, same)
      | inr t ↦
          let (f, (le, found)) =
            All-count (λ f. total_key e.cost ≤ total_key f.cost) (is_entry d n) (hl.into_vec rest)
              (hl.pop_least s.heap e rest popped)
              (ground (arith, hl.count-pop (is_entry d n) s.heap e rest popped, t, h)) in
          let same : f.cost ≡ d = (nat_eq.beq_iff f.cost d).0 (ground (arith, found)) in
          omega (
            arith,
            le,
            same,
            total_key_bits e.cost (inv.entries e.cost e.node popped_InHeap).0,
            total_key_bits f.cost (subst (λ x. x ≤ infinity_bits) (sym same) (inv.entries d n h).0),
          )
    ]

    abbrev pub left : Search H
    left = record s { heap = rest }

    left_InHeap :
        (d : F32) (n : String)
        → InHeap lw hl graph ctx start end left d n
        → InHeap lw hl graph ctx start end s d n
    left_InHeap d n h = ground (arith, hl.count-pop (is_entry d n) s.heap e rest popped, h)

    still_InHeap :
        (d : F32) (n : String)
        → is_entry d n e ≡ false
        → InHeap lw hl graph ctx start end s d n
        → InHeap lw hl graph ctx start end left d n
    still_InHeap d n other h =
        ground (arith, hl.count-pop (is_entry d n) s.heap e rest popped, h, other)

    pub left-potential :
        (names : List String) → suc (potential hl names left) ≡ potential hl names s
    unfolding potential
    left-potential names = omega (arith, hl.count-pop (λ e. true) s.heap e rest popped)

    module _ (other : (e.node == end) ≡ false) where
      left-Inv :
          (X : String → F32 → Type 0)
          → ((d : F32) → HashMap.get s.dist e.node ≡ some d → d ≡ e.cost → X e.node d)
          → Inv lw hl graph ctx start end X left
      left-Inv X excused = record {
        origin = inv.origin;
        entries = λ d n h. inv.entries d n (left_InHeap d n h);
        covered = λ n d r. elim (inv.covered n d r) [
          | inl h ↦ elim (Bool-cases (is_entry d n e)) [
            | inl t ↦
                let name : e.node ≡ n = (string_eq.beq_iff e.node n).0 (ground (arith, t)) in
                let same : e.cost ≡ d = (nat_eq.beq_iff e.cost d).0 (ground (arith, t)) in
                inr (
                  inr (
                    subst (λ m. X m d) name
                      (excused d (subst (λ m. HashMap.get s.dist m ≡ some d) (sym name) r)
                        (sym same))))
            | inr t ↦ inl (still_InHeap d n t h)
          ]
          | inr (inl x) ↦ inr (inl x)
          | inr (inr bad) ↦ absurd bad
        ];
        target = λ d r. still_InHeap d end (ground (arith, other)) (inv.target d r);
        parents = inv.parents;
        chains = inv.chains;
      }

      pub stale-Inv : is_stale s e ≡ true → Inv lw hl graph ctx start end NoNode left
      unfolding is_stale
      stale-Inv stale =
          let (top, (best, (r, le))) = inv.entries e.cost e.node popped_InHeap in
          let worse = lw.gt_bits e.cost best top (inv.parents e.node best r).0 in
          left-Inv NoNode (λ d r' same. ground (arith, stale, r, r', worse, same))

      pub fresh_own : is_stale s e ≡ false → HashMap.get s.dist e.node ≡ some e.cost
      unfolding is_stale
      fresh_own fresh =
          let (top, (best, (r, le))) = inv.entries e.cost e.node popped_InHeap in
          let worse = lw.gt_bits e.cost best top (inv.parents e.node best r).0 in
          let same : best ≡ e.cost = ground (arith, fresh, r, worse, le) in
          subst (λ c. HashMap.get s.dist e.node ≡ some c) same r

      -- The node of a fresh entry is expanded.
      pub fresh-Inv :
          (names : List String)
          → IsListed graph ctx start names
          → is_stale s e ≡ false
          → (t : Search H)
          → relax_each graph ctx (build ctx) e.node e.cost (neighbors graph ctx e.node) left ≡ t
          → Inv lw hl graph ctx start end NoNode t
            × (potential hl names t ≤ potential hl names left)
      unfolding neighbors_with_overlay
      fresh-Inv names listed fresh t made =
          let own = fresh_own fresh in
          let X = IsNode e.node e.cost in
          let moved =
            relax_each graph ctx (build ctx) e.node e.cost (neighbors graph ctx e.node) left in
          let near =
            All-of_Among
              (λ nb. Among nb (neighbors graph ctx e.node) × (contains names nb.name ≡ true))
              (neighbors graph ctx e.node) (λ nb m. (m, listed.targets e.node nb m)) in
          let (k, offered) =
            relax_each-Keeps lw hl graph ctx start end names e.node e.cost
              (inv.entries e.cost e.node popped_InHeap).0 X (neighbors graph ctx e.node) near left
              (left-Inv X (λ d r same. (refl, same))) own in
          subst
            (λ t.
              Inv lw hl graph ctx start end NoNode t
              × (potential hl names t ≤ potential hl names left))
            made
            (
              record {
                origin = k.inv.origin;
                entries = k.inv.entries;
                covered = λ n d r. elim (k.inv.covered n d r) [
                  | inl h ↦ inl h
                  | inr (inl h) ↦ inr (inl h)
                  | inr (inr (name, cost)) ↦ inr (
                      inl (
                        subst
                          (λ m.
                            All (λ nb. Within moved.dist nb.name (cost_to graph ctx d nb.name))
                              (neighbors graph ctx m))
                          (sym name)
                          (subst
                            (λ c.
                              All (λ nb. Within moved.dist nb.name (cost_to graph ctx c nb.name))
                                (neighbors graph ctx e.node))
                            (sym cost) offered)))
                ];
                target = k.inv.target;
                parents = k.inv.parents;
                chains = k.inv.chains;
              },
              k.bounded,
            )
