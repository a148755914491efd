-- ===== src/Traversal/Path/Route.antt =====
-- What `find_path` promises, without its search: routes over visible edges and what they cost.
use orpheusgraph.Prelude.{◌≡◌, ◌≤◌, String, List, [], ◌∷◌, ◌++◌, ltb, arith}
use orpheusgraph.Types.{F32}
use orpheusgraph.Types.Context.{DynamicContext}
use orpheusgraph.Accessor.{GraphAccessor}
use orpheusgraph.Scoring.{Float}
use orpheusgraph.Overlay.Defs.{FloatOrder, NeighborEntry, neighbors_with_overlay_indexed, build}
use orpheusgraph.Traversal.Lists.{Among}
use orpheusgraph.Traversal.Path.{
  FloatDivision, PathStep, ParentInfo, PathOutcome, start_step, outgoing_step, edge_cost,
}

-- the bits of positive infinity, the greatest of the floats that are neither negative nor NaN
abbrev pub infinity_bits : F32
infinity_bits = 2139095040

-- What IEEE 754 says of floats that are neither negative nor NaN: they compare as their bits do, and
-- adding such a float rounds to one that is no smaller, in the order of the summands. A length is one.
pub record FloatLaws ⦃fl : Float⦄ ⦃fo : FloatOrder⦄ ⦃fd : FloatDivision⦄ : Type 0 where
  pub zero_bits : fl.zero ≡ 0
  pub gt_bits : (a b : F32) → a ≤ infinity_bits → b ≤ infinity_bits → fo.gt a b ≡ ltb b a
  pub add_grows :
      (a score : F32)
      → a ≤ infinity_bits
      → a ≤ fl.add a (fd.div fl.one (fl.maximum score fd.thousandth))
  pub add_bound :
      (a score : F32)
      → a ≤ infinity_bits
      → fl.add a (fd.div fl.one (fl.maximum score fd.thousandth)) ≤ infinity_bits
  pub add_mono :
      (a b score : F32)
      → a ≤ b
      → b ≤ infinity_bits
      → fl.add a (fd.div fl.one (fl.maximum score fd.thousandth))
        ≤ fl.add b (fd.div fl.one (fl.maximum score fd.thousandth))

abbrev pub info_of : String → NeighborEntry → ParentInfo
info_of from nb = record { from = from; edge_kind = nb.edge_kind; field_name = nb.field_name }

module _ ⦃fl : Float⦄ ⦃fo : FloatOrder⦄ ⦃fd : FloatDivision⦄ (graph : GraphAccessor)
    (ctx : DynamicContext) where
  abbrev pub neighbors : String → List NeighborEntry
  neighbors name = neighbors_with_overlay_indexed graph ctx (build ctx) name

  -- the cost of a way to `name` whose last node before it is reached at `cost`
  abbrev pub cost_to : F32 → String → F32
  cost_to cost name = fl.add cost (edge_cost graph ctx (build ctx) name)

  -- the steps of a way over visible edges, its last node, and what the edges cost, summed from the start
  pub data Route (start : String) : List PathStep → String → F32 → Type 0 where
    begin : Route start (start_step start ∷ []) start fl.zero
    extend :
        {p : List PathStep} {a : String} {c : F32}
        → Route start p a c
        → (nb : NeighborEntry) → Among nb (neighbors a)
        → Route start (p ++ (outgoing_step nb.name (info_of a nb) ∷ [])) nb.name (cost_to c nb.name)

  -- a cheapest route, or none where there is none
  unfoldable pub IsAnswer : String → String → PathOutcome → Type 0
  IsAnswer start end (PathOutcome.found p) =
      (c : F32) × (Route start p end c
        × ((q : List PathStep) (d : F32) → Route start q end d → c ≤ d))
  IsAnswer start end PathOutcome.no_path = (q : List PathStep) (d : F32) → ¬ Route start q end d
  IsAnswer start end PathOutcome.out_of_fuel = ⊥

  module _ (lw : FloatLaws) where
    pub cost_to-grows : (c : F32) (name : String) → c ≤ infinity_bits → c ≤ cost_to c name
    unfolding edge_cost
    cost_to-grows c name h = lw.add_grows c _ h

    pub cost_to-bound :
        (c : F32) (name : String) → c ≤ infinity_bits → cost_to c name ≤ infinity_bits
    unfolding edge_cost
    cost_to-bound c name h = lw.add_bound c _ h

    pub cost_to_mono :
        (c d : F32) (name : String) → c ≤ d → d ≤ infinity_bits → cost_to c name ≤ cost_to d name
    unfolding edge_cost
    cost_to_mono c d name le h = lw.add_mono c d _ le h

    pub Route-bound :
        (start : String) {p : List PathStep} {a : String} {c : F32}
        → Route start p a c
        → c ≤ infinity_bits
    Route-bound start Route.begin = omega (arith, lw.zero_bits)
    Route-bound start (Route.extend {c} r nb m) = cost_to-bound c nb.name (Route-bound start r)
