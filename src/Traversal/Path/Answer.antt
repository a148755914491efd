-- ===== src/Traversal/Path/Answer.antt =====
-- `find_path` ends, with a cheapest route where there is one.
use orpheusgraph.Prelude.{
  ℕ, zero, suc, ◌+◌, ◌*◌, ◌≡◌, ◌≤◌, ◌<◌, inl, inr, refl, Bool, true, false, String, none, some,
  ◌==◌, List, [], ◌∷◌, if◌then◌else◌, arith, Bool-cases, Option-cases, string_eq, nat_eq, subst,
  sym, ap, count, length, sum_over,
}
use orpheusgraph.HashMap
use orpheusgraph.HashMap.{HashMap, get-insert, get-new}
use orpheusgraph.Types.{F32}
use orpheusgraph.Types.Context.{DynamicContext}
use orpheusgraph.Accessor.{GraphAccessor}
use orpheusgraph.Scoring.{Float}
use orpheusgraph.Overlay.Defs.{FloatOrder, build}
use orpheusgraph.Traversal.Heap.{DijkstraEntry, BinaryHeap, HeapLaws}
use orpheusgraph.Traversal.Path.{
  FloatDivision, PathOutcome, Search, start_step, is_stale, relax_each, search, start_search,
  find_path, reconstruct_path,
}
use orpheusgraph.Traversal.Path.Route.{
  infinity_bits, FloatLaws, neighbors, Route, Route-bound, IsAnswer,
}
use orpheusgraph.Traversal.Path.Chain.{Back}
use orpheusgraph.Traversal.Path.Relax.{is_entry, InHeap, Inv}
use orpheusgraph.Traversal.Path.Expand.{potential, weight}
use orpheusgraph.Traversal.Path.Ends.{IsListed}
use orpheusgraph.Traversal.Path.Reconstruct.{reconstruct_path-Route}
use orpheusgraph.Traversal.Path.Pop.{
  NoNode, reach_or_least, popped_InHeap, popped_least, left-potential, stale-Inv, fresh-Inv,
}

module _ {H : Type 0} ⦃fl : Float⦄ ⦃fo : FloatOrder⦄ ⦃fd : FloatDivision⦄ ⦃bh : BinaryHeap H⦄
    (lw : FloatLaws) (hl : HeapLaws bh) (graph : GraphAccessor) (ctx : DynamicContext)
    (start end : String) (names : List String) (listed : IsListed graph ctx start names) where
  empty-IsAnswer :
      (s : Search H)
      → Inv lw hl graph ctx start end NoNode s
      → bh.pop s.heap ≡ none
      → IsAnswer graph ctx start end PathOutcome.no_path
  unfolding IsAnswer
  empty-IsAnswer s inv popped q d r =
      let nothing : hl.into_vec s.heap ≡ [] = hl.pop_none s.heap popped in
      let bare : (x : F32) (n : String) → ¬ InHeap lw hl graph ctx start end s x n =
        λ x n h. ground (arith, nothing, h) in
      elim (reach_or_least lw hl graph ctx start end s inv (suc infinity_bits)
        (λ x n h. absurd (bare x n h)) r) [
          | inl (x, (e, le)) ↦ bare x end (inv.target x e)
          | inr le ↦ omega (arith, le, Route-bound graph ctx lw start r)
        ]

  end-IsAnswer :
      (s : Search H)
      → Inv lw hl graph ctx start end NoNode s
      → (e : DijkstraEntry) (rest : H) → bh.pop s.heap ≡ some (e, rest)
      → e.node ≡ end
      → (limit : ℕ) → length names < limit
      → IsAnswer graph ctx start end (reconstruct_path limit start end s.parent)
  unfolding IsAnswer
  end-IsAnswer s inv e rest popped at_end limit room =
      let (_, (d, (r, le))) =
        inv.entries e.cost e.node (popped_InHeap lw hl graph ctx start end s inv e rest popped) in
      let r' = subst (λ n. HashMap.get s.dist n ≡ some d) at_end r in
      let (l, chain) = inv.chains end d r' in
      let (p, (made, (c, (route, cheap)))) =
        reconstruct_path-Route graph ctx lw start s.dist s.parent inv.parents names listed limit
          room l end d chain r' in
      rw made (
        c,
        (
          route,
          λ q x other.
              elim (reach_or_least lw hl graph ctx start end s inv e.cost
                (popped_least lw hl graph ctx start end s inv e rest popped) other) [
                  | inl (y, (z, near)) ↦
                      let same : y ≡ d = ground (arith, z, r') in omega (arith, near, cheap, same)
                  | inr far ↦ omega (arith, far, le, cheap)
                ],
        ),
      )

  search-IsAnswer :
      (limit : ℕ)
      → length names < limit
      → (fuel : ℕ) (s : Search H) → Inv lw hl graph ctx start end NoNode s
      → potential hl names s < fuel
      → IsAnswer graph ctx start end (search graph ctx (build ctx) start end limit fuel s)
  unfolding search
  search-IsAnswer limit room zero s inv h = absurd (omega arith)
  search-IsAnswer limit room (suc fuel) s inv h = elim (Option-cases (bh.pop s.heap)) [
    | inl popped ↦ rw (popped, search) (empty-IsAnswer s inv popped)
    | inr ((e, rest), popped) ↦
        let less = left-potential lw hl graph ctx start end s inv e rest popped names in
        elim (Bool-cases (e.node == end)) [
          | inl t ↦
              rw (popped, t, search)
                (end-IsAnswer s inv e rest popped ((string_eq.beq_iff e.node end).0 t) limit room)
          | inr t ↦ elim (Bool-cases (is_stale s e)) [
            | inl stale ↦
                rw (popped, t, stale, search)
                  (search-IsAnswer limit room fuel (record s { heap = rest })
                    (stale-Inv lw hl graph ctx start end s inv e rest popped t stale)
                    (omega (arith, less)))
            | inr fresh ↦
                let next =
                  relax_each graph ctx (build ctx) e.node e.cost (neighbors graph ctx e.node)
                    (record s { heap = rest }) in
                let (inv', le) =
                  fresh-Inv lw hl graph ctx start end s inv e rest popped t names listed fresh next
                    refl in
                rw (popped, t, fresh, search)
                  (search-IsAnswer limit room fuel next inv' (omega (arith, less, le)))
          ]
        ]
  ]

  begin_Inv : (start == end) ≡ false → Inv lw hl graph ctx start end NoNode (start_search H start)
  unfolding start_search
  begin_Inv other =
      let at : (n : String)
          → HashMap.get (start_search H start).dist n
            ≡ (if start == n then some fl.zero else none) =
        λ n. ground (arith, get-insert HashMap.new start fl.zero n, get-new {V = F32} n) in
      let first : DijkstraEntry = record { cost = fl.zero; node = start } in
      let pushed : (p : DijkstraEntry → Bool)
          → count p (hl.into_vec (start_search H start).heap) ≡ (if p first then 1 else 0) =
        λ p. ground (arith, hl.count-push p bh.new first, hl.into_vec-new) in
      let named : (n : String) (d : F32)
          → HashMap.get (start_search H start).dist n ≡ some d
          → start ≡ n =
        λ n d e. ground (arith, at n, e, string_eq.beq_iff start n) in
      record {
        origin = ground (arith, at start, string_eq.beq_iff start start, lw.zero_bits);
        entries = λ d n h. elim (Bool-cases (is_entry d n first)) [
          | inl t ↦
              let same : fl.zero ≡ d = (nat_eq.beq_iff fl.zero d).0 (ground (arith, t)) in
              (
                omega (arith, same, lw.zero_bits),
                (fl.zero, (ground (arith, at n, t), omega (arith, same))),
              )
          | inr t ↦ ground (arith, pushed (is_entry d n), t, h)
        ];
        covered = λ n d e.
            let name : start ≡ n = named n d e in
            let same : fl.zero ≡ d = ground (arith, at n, e, string_eq.beq_iff start n) in
            inl (
              ground (
                arith,
                pushed (is_entry d n),
                string_eq.beq_iff start n,
                nat_eq.beq_iff fl.zero d,
                name,
                same,
              ));
        target = λ d e. ground (arith, at end, other, e);
        parents = λ n d e. (ground (arith, at n, e, lw.zero_bits), inl (sym (named n d e)));
        chains = λ n d e. (0, subst (Back HashMap.new start 0) (named n d e) Back.home);
      }

  weight_le :
      (ns : List String)
      → sum_over (weight (start_search H start).dist) ns ≤ length ns * suc infinity_bits
  unfolding weight start_search
  weight_le [] = omega arith
  weight_le (n ∷ ns) =
      let one : weight (start_search H start).dist n ≤ suc infinity_bits =
        ground (arith, get-insert HashMap.new start fl.zero n, get-new {V = F32} n, lw.zero_bits) in
      omega (arith, one, weight_le ns)

  -- Whichever least entry the heap gives, with fuel for every cost that a name can have `find_path` ends:
  -- with the steps of a route from the start to the end over edges that the request sees, which costs
  -- no more than any other, or with no path when no route leads there. The names are those that an
  -- edge can lead to, and the floats that are neither negative nor NaN obey the laws of IEEE 754.
  pub find_path-IsAnswer :
      (fuel : ℕ)
      → length names * suc infinity_bits + 1 < fuel
      → IsAnswer graph ctx start end (find_path H fuel graph ctx start end)
  unfolding find_path IsAnswer potential start_search
  find_path-IsAnswer fuel enough = elim (Bool-cases (start == end)) [
    | inl t ↦
        rw (t, find_path)
          (
            fl.zero,
            (
              subst (λ n. Route graph ctx start (start_step start ∷ []) n fl.zero)
                  ((string_eq.beq_iff start end).0 t) Route.begin,
              λ q d r. omega (arith, lw.zero_bits),
            ),
          )
    | inr t ↦
        rw (t, find_path)
          (search-IsAnswer fuel (omega arith) fuel (start_search H start) (begin_Inv t) (
            omega (
              arith,
              weight_le names,
              hl.count-push (λ e. true) bh.new (record { cost = fl.zero; node = start }),
              ap (count (λ e. true)) hl.into_vec-new,
            )))
  ]
