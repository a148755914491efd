-- ===== src/Traversal/Path/Reconstruct.antt =====
-- `reconstruct_path` walks a chain of stored parents, and what it gives is a route.
use orpheusgraph.Prelude.{
  ℕ, zero, suc, ◌≡◌, ◌≤◌, ◌<◌, false, String, some, ◌==◌, List, [], ◌∷◌, ◌++◌, arith, string_eq,
  subst, sym, append-nil, append_assoc, length,
}
use orpheusgraph.HashMap
use orpheusgraph.Types.{F32}
use orpheusgraph.Types.Context.{DynamicContext}
use orpheusgraph.Accessor.{GraphAccessor}
use orpheusgraph.Scoring.{Float}
use orpheusgraph.Overlay.Defs.{FloatOrder}
use orpheusgraph.Traversal.Path.{
  FloatDivision, PathStep, ParentInfo, PathOutcome, start_step, outgoing_step, reverse, walk_back,
  reconstruct_path,
}
use orpheusgraph.Traversal.Path.Route.{FloatLaws, Route, info_of, cost_to, cost_to_mono}
use orpheusgraph.Traversal.Path.Chain.{Dist, Parents, Back, HasParents, parent_of}
use orpheusgraph.Traversal.Path.Ends.{IsListed, Back-length}

module _ (parent : Parents) (start : String) where
  walk_home :
      (fuel : ℕ) (acc : List PathStep)
      → 0 < fuel
      → walk_back parent start fuel start acc ≡ some (acc ++ [])
  unfolding walk_back
  walk_home zero acc h = absurd (omega arith)
  walk_home (suc fuel) acc h =
      rw (append-nil, walk_back) (ground (arith, string_eq.beq_iff start start))

  walk_step :
      (fuel l : ℕ) (n : String) (info : ParentInfo) (acc rs : List PathStep)
      → (n == start) ≡ false
      → HashMap.get parent n ≡ some info
      → ((f : ℕ) (a : List PathStep)
          → l < f
          → walk_back parent start f info.from a ≡ some (a ++ rs))
      → suc l < fuel
      → walk_back parent start fuel n acc ≡ some (acc ++ (outgoing_step n info ∷ rs))
  unfolding walk_back
  walk_step zero l n info acc rs ne st go h = absurd (omega arith)
  walk_step (suc fuel) l n info acc rs ne st go h =
      let next = go fuel (acc ++ (outgoing_step n info ∷ [])) (omega arith) in
      rw (ne, st, walk_back) (rw append_assoc at next)

module _ ⦃fl : Float⦄ ⦃fo : FloatOrder⦄ ⦃fd : FloatDivision⦄ (graph : GraphAccessor)
    (ctx : DynamicContext) (lw : FloatLaws) (start : String) (dist : Dist) (parent : Parents)
    (parents : HasParents graph ctx dist parent start) where
  -- the steps that a walk back over a chain pushes
  record Traced (l : ℕ) (n : String) (d : F32) : Type 0 where
    pub steps : List PathStep
    pub cost : F32
    pub route : Route graph ctx start (reverse (steps ++ (start_step start ∷ []))) n cost
    pub cheap : cost ≤ d
    pub walked :
        (fuel : ℕ) (acc : List PathStep)
        → l < fuel
        → walk_back parent start fuel n acc ≡ some (acc ++ steps)

  trace :
      (l : ℕ) (n : String) (d : F32)
      → Back parent start l n
      → HashMap.get dist n ≡ some d
      → Traced l n d
  unfolding reverse
  trace l n d Back.home e = record {
    steps = [];
    cost = fl.zero;
    route = Route.begin;
    cheap = omega (arith, lw.zero_bits);
    walked = λ fuel acc h. walk_home parent start fuel acc h;
  }
  trace (suc l) n d (Back.back info ne st rest) e =
      let near = parent_of graph ctx lw start dist parent parents n d info ne st e in
      let t = trace l info.from near.near_cost rest near.near in
      let le =
        cost_to_mono graph ctx lw t.cost near.near_cost n t.cheap
          (parents info.from near.near_cost near.near).0 in
      record {
        steps = outgoing_step n info ∷ t.steps;
        cost = cost_to graph ctx t.cost n;
        route =
            subst
              (λ i.
                Route graph ctx start
                  (reverse (t.steps ++ (start_step start ∷ [])) ++ (outgoing_step n i ∷ [])) n
                  (cost_to graph ctx t.cost n))
              (sym near.same)
              (subst
                (λ m.
                  Route graph ctx start
                    (reverse (t.steps ++ (start_step start ∷ []))
                      ++ (outgoing_step m (info_of info.from near.nb) ∷ []))
                    m (cost_to graph ctx t.cost m))
                near.named (Route.extend t.route near.nb near.among));
        cheap = omega (arith, le, near.apart);
        walked = λ fuel acc h. walk_step parent start fuel l n info acc t.steps ne st t.walked h;
      }

  -- With a round for every name the walk back ends, with a route that costs at most the distance.
  pub reconstruct_path-Route :
      (names : List String)
      → IsListed graph ctx start names
      → (limit : ℕ) → length names < limit
      → (l : ℕ) (n : String) (d : F32) → Back parent start l n
      → HashMap.get dist n ≡ some d
      → (p : List PathStep) × ((reconstruct_path limit start n parent ≡ PathOutcome.found p)
          × ((c : F32) × (Route graph ctx start p n c × (c ≤ d))))
  unfolding reconstruct_path
  reconstruct_path-Route names listed limit room l n d h e =
      let t = trace l n d h e in
      let short = Back-length graph ctx lw start dist parent parents names listed l n d h e in
      (
        reverse (t.steps ++ (start_step start ∷ [])),
        (ground (arith, t.walked limit [] (omega (arith, short))), (t.cost, (t.route, t.cheap))),
      )
