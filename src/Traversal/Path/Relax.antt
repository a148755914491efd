-- ===== src/Traversal/Path/Relax.antt =====
-- The invariant of the search of `find_path`, and one neighbour offered to it.
use orpheusgraph.Prelude.{
  ℕ, suc, ◌≡◌, ◌≤◌, ◌<◌, ◌⊎◌, inl, inr, Bool, false, ◌&&◌, String, some, ◌==◌, if◌then◌else◌, arith,
  Bool-cases, string_eq, nat_eq, subst, sym, count,
}
use orpheusgraph.HashMap
use orpheusgraph.HashMap.{HashMap, get-insert}
use orpheusgraph.Types.{F32}
use orpheusgraph.Types.Context.{DynamicContext}
use orpheusgraph.Accessor.{GraphAccessor}
use orpheusgraph.Scoring.{Float}
use orpheusgraph.Overlay.Defs.{FloatOrder, NeighborEntry}
use orpheusgraph.Traversal.Lists.{Among, All, All-mono}
use orpheusgraph.Traversal.Heap.{DijkstraEntry, BinaryHeap, HeapLaws}
use orpheusgraph.Traversal.Path.{FloatDivision, Search}
use orpheusgraph.Traversal.Path.Route.{
  infinity_bits, FloatLaws, info_of, neighbors, cost_to, cost_to-grows, cost_to-bound, cost_to_mono,
}
use orpheusgraph.Traversal.Path.Chain.{
  Dist, Back, Within, HasParent, HasParents, Back-insert, Back-new,
}

abbrev pub is_entry : F32 → String → DijkstraEntry → Bool
is_entry d n e = e.node == n && e.cost == d

module _ {H : Type 0} ⦃fl : Float⦄ ⦃fo : FloatOrder⦄ ⦃fd : FloatDivision⦄ ⦃bh : BinaryHeap H⦄
    (lw : FloatLaws) (hl : HeapLaws bh) (graph : GraphAccessor) (ctx : DynamicContext)
    (start end : String) where
  abbrev pub InHeap : Search H → F32 → String → Type 0
  InHeap s d n = 1 ≤ count (is_entry d n) (hl.into_vec s.heap)

  -- every neighbour was offered the way over this node
  abbrev pub Expanded : Dist → String → F32 → Type 0
  Expanded dist n d =
      All (λ nb. Within dist nb.name (cost_to graph ctx d nb.name)) (neighbors graph ctx n)

  -- `X` names the node that is being expanded.
  pub record Inv (X : String → F32 → Type 0) (s : Search H) : Type 0 where
    pub origin : HashMap.get s.dist start ≡ some 0
    pub entries : (d : F32) (n : String) → InHeap s d n → (d ≤ infinity_bits) × Within s.dist n d
    pub covered :
        (n : String) (d : F32)
        → HashMap.get s.dist n ≡ some d
        → InHeap s d n ⊎ (Expanded s.dist n d ⊎ X n d)
    pub target : (d : F32) → HashMap.get s.dist end ≡ some d → InHeap s d end
    pub parents : HasParents graph ctx s.dist s.parent start
    pub chains :
        (n : String) (d : F32) → HashMap.get s.dist n ≡ some d → (l : ℕ) × Back s.parent start l n

  module _ (a : String) (c : F32) (bound : c ≤ infinity_bits) (s : Search H) (nb : NeighborEntry)
      (among : Among nb (neighbors graph ctx a)) where
    abbrev pub new_cost : F32
    new_cost = cost_to graph ctx c nb.name

    abbrev pub improved : Search H
    improved = record {
      dist = HashMap.insert s.dist nb.name new_cost;
      parent = HashMap.insert s.parent nb.name (info_of a nb);
      heap = bh.push s.heap (record { cost = new_cost; node = nb.name });
    }

    module _ (X : String → F32 → Type 0) (inv : Inv X s) (own : HashMap.get s.dist a ≡ some c)
        (better : (d : F32) → HashMap.get s.dist nb.name ≡ some d → new_cost < d) where
      dist_of :
          (n : String)
          → HashMap.get improved.dist n
            ≡ (if nb.name == n then some new_cost else HashMap.get s.dist n)
      dist_of n = get-insert s.dist nb.name new_cost n

      pub new_bound : (c ≤ new_cost) × (new_cost ≤ infinity_bits)
      new_bound =
          (cost_to-grows graph ctx lw c nb.name bound, cost_to-bound graph ctx lw c nb.name bound)

      away : (nb.name == start) ≡ false
      away = elim (Bool-cases (nb.name == start)) [
        | inr t ↦ t
        | inl t ↦ absurd (
            omega (
              arith,
              better 0 (
                  subst (λ n. HashMap.get s.dist n ≡ some 0)
                    (sym ((string_eq.beq_iff nb.name start).0 t)) inv.origin),
            ))
      ]

      pub kept :
          (n : String) (d : F32)
          → HashMap.get s.dist n ≡ some d
          → d ≤ new_cost
          → HashMap.get improved.dist n ≡ some d
      kept n d e le = elim (Bool-cases (nb.name == n)) [
        | inl t ↦ absurd (
            omega (
              arith,
              better d (
                  subst (λ x. HashMap.get s.dist x ≡ some d)
                    (sym ((string_eq.beq_iff nb.name n).0 t)) e),
            ))
        | inr t ↦ ground (arith, dist_of n, t, e)
      ]

      pub Within-improved : (n : String) (x : F32) → Within s.dist n x → Within improved.dist n x
      Within-improved n x (d, (e, le)) = elim (Bool-cases (nb.name == n)) [
        | inl t ↦
            let old = better d (
              subst (λ x. HashMap.get s.dist x ≡ some d) (sym ((string_eq.beq_iff nb.name n).0 t))
                e) in
            (new_cost, (ground (arith, dist_of n, t), omega (arith, old)))
        | inr t ↦ (d, (ground (arith, dist_of n, t, e), le))
      ]

      InHeap-improved : (d : F32) (n : String) → InHeap s d n → InHeap improved d n
      InHeap-improved d n h = ground (
        arith,
        hl.count-push (is_entry d n) s.heap (record { cost = new_cost; node = nb.name }),
        h,
      )

      pub InHeap-new : InHeap improved new_cost nb.name
      InHeap-new = ground (
        arith,
        hl.count-push (is_entry new_cost nb.name) s.heap
            (record { cost = new_cost; node = nb.name }),
        string_eq.beq_iff nb.name nb.name,
        nat_eq.beq_iff new_cost new_cost,
      )

      entries_improved :
          (d : F32) (n : String)
          → InHeap improved d n
          → (d ≤ infinity_bits) × Within improved.dist n d
      entries_improved d n h =
          let pushed =
            hl.count-push (is_entry d n) s.heap (record { cost = new_cost; node = nb.name }) in
          elim (Bool-cases (nb.name == n && new_cost == d)) [
            | inl t ↦
                let same : new_cost ≡ d = (nat_eq.beq_iff new_cost d).0 (ground (arith, t)) in
                (
                  omega (arith, same, new_bound),
                  (new_cost, (ground (arith, dist_of n, t), omega (arith, same))),
                )
            | inr t ↦
                let (le, w) = inv.entries d n (ground (arith, pushed, t, h)) in
                (le, Within-improved n d w)
          ]

      covered_improved :
          (n : String) (d : F32)
          → HashMap.get improved.dist n ≡ some d
          → InHeap improved d n ⊎ (Expanded improved.dist n d ⊎ X n d)
      covered_improved n d e = elim (Bool-cases (nb.name == n)) [
        | inl t ↦
            let same : new_cost ≡ d = ground (arith, dist_of n, t, e) in
            inl (
              subst (λ x. InHeap improved x n) same
                (subst (InHeap improved new_cost) ((string_eq.beq_iff nb.name n).0 t) InHeap-new))
        | inr t ↦ elim (inv.covered n d (ground (arith, dist_of n, t, e))) [
          | inl h ↦ inl (InHeap-improved d n h)
          | inr (inl h) ↦ inr (
              inl (
                All-mono (λ m. Within s.dist m.name (cost_to graph ctx d m.name))
                  (λ m. Within improved.dist m.name (cost_to graph ctx d m.name))
                  (λ m w. Within-improved m.name (cost_to graph ctx d m.name) w)
                  (neighbors graph ctx n) h))
          | inr (inr x) ↦ inr (inr x)
        ]
      ]

      target_improved : (d : F32) → HashMap.get improved.dist end ≡ some d → InHeap improved d end
      target_improved d e = elim (Bool-cases (nb.name == end)) [
        | inl t ↦
            let same : new_cost ≡ d = ground (arith, dist_of end, t, e) in
            subst (λ x. InHeap improved x end) same
              (subst (InHeap improved new_cost) ((string_eq.beq_iff nb.name end).0 t) InHeap-new)
        | inr t ↦ InHeap-improved d end (inv.target d (ground (arith, dist_of end, t, e)))
      ]

      parent_improved :
          (n : String) (d : F32)
          → (nb.name == n) ≡ false
          → HasParent graph ctx s.dist s.parent n d
          → HasParent graph ctx improved.dist improved.parent n d
      parent_improved n d t p =
          let (near, (e, le)) =
            Within-improved p.from p.near_cost (p.near_cost, (p.near, omega arith)) in
          record {
            from = p.from;
            nb = p.nb;
            among = p.among;
            named = p.named;
            stored = ground (arith, get-insert s.parent nb.name (info_of a nb) n, t, p.stored);
            near_cost = near;
            near = e;
            apart = omega (
              arith,
              p.apart,
              cost_to_mono graph ctx lw near p.near_cost n le
                  (inv.parents p.from p.near_cost p.near).0,
            );
          }

      parents_improved : HasParents graph ctx improved.dist improved.parent start
      parents_improved n d e = elim (Bool-cases (nb.name == n)) [
        | inl t ↦
            let same : new_cost ≡ d = ground (arith, dist_of n, t, e) in
            let name : nb.name ≡ n = (string_eq.beq_iff nb.name n).0 t in
            (
              omega (arith, same, new_bound),
              inr (record {
                from = a;
                nb = nb;
                among = among;
                named = name;
                stored = ground (arith, get-insert s.parent nb.name (info_of a nb) n, t);
                near_cost = c;
                near = kept a c own new_bound.0;
                apart = subst (λ m. cost_to graph ctx c m ≤ d) name (omega (arith, same));
              }),
            )
        | inr t ↦
            let (le, p) = inv.parents n d (ground (arith, dist_of n, t, e)) in
            (le, elim p [ inl h ↦ inl h | inr h ↦ inr (parent_improved n d t h) ])
      ]

      chains_improved :
          (n : String) (d : F32)
          → HashMap.get improved.dist n ≡ some d
          → (l : ℕ) × Back improved.parent start l n
      chains_improved n d e =
          let (m, chain) = inv.chains a c own in
          let here : Within s.dist a new_cost = (c, (own, new_bound.0)) in
          elim (Bool-cases (nb.name == n)) [
            | inl t ↦ (
              suc m,
              subst (Back improved.parent start (suc m)) ((string_eq.beq_iff nb.name n).0 t) (
                  Back-new graph ctx lw start s.dist s.parent inv.parents nb.name new_cost
                    (info_of a nb) away better m chain here),
            )
            | inr t ↦
                let (l, old) = inv.chains n d (ground (arith, dist_of n, t, e)) in
                Back-insert graph ctx lw start s.dist s.parent inv.parents nb.name new_cost
                  (info_of a nb) away better m chain here l n old
          ]

      pub improved-Inv : Inv X improved
      improved-Inv = record {
        origin = kept start 0 inv.origin (omega arith);
        entries = entries_improved;
        covered = covered_improved;
        target = target_improved;
        parents = parents_improved;
        chains = chains_improved;
      }
