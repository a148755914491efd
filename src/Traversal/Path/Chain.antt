-- ===== src/Traversal/Path/Chain.antt =====
-- The parents that `find_path` stores lead back to the start, and a better way to a node closes no cycle.
use orpheusgraph.Prelude.{
  ℕ, suc, ◌≡◌, ◌≤◌, ◌<◌, ◌⊎◌, inl, inr, refl, false, String, some, ◌==◌, arith, Bool-cases,
  string_eq, subst, sym,
}
use orpheusgraph.HashMap
use orpheusgraph.HashMap.{HashMap, get-insert}
use orpheusgraph.Types.{F32}
use orpheusgraph.Types.Context.{DynamicContext}
use orpheusgraph.Accessor.{GraphAccessor}
use orpheusgraph.Scoring.{Float}
use orpheusgraph.Overlay.Defs.{FloatOrder, NeighborEntry}
use orpheusgraph.Traversal.Lists.{Among}
use orpheusgraph.Traversal.Path.{FloatDivision, ParentInfo}
use orpheusgraph.Traversal.Path.Route.{
  infinity_bits, FloatLaws, info_of, neighbors, cost_to, cost_to-grows,
}

abbrev pub Dist : Type 0
Dist = HashMap String F32

abbrev pub Parents : Type 0
Parents = HashMap String ParentInfo

-- `n` is reached from the start over `l` stored parents
pub data Back (parent : Parents) (start : String) : ℕ → String → Type 0 where
  home : Back parent start 0 start
  back :
      {l : ℕ} {n : String} (info : ParentInfo)
      → (n == start) ≡ false
      → HashMap.get parent n ≡ some info
      → Back parent start l info.from
      → Back parent start (suc l) n

-- a distance of at most `x`
abbrev pub Within : Dist → String → F32 → Type 0
Within dist n x = (d : F32) × ((HashMap.get dist n ≡ some d) × (d ≤ x))

module _ ⦃fl : Float⦄ ⦃fo : FloatOrder⦄ ⦃fd : FloatDivision⦄ (graph : GraphAccessor)
    (ctx : DynamicContext) where
  -- the stored parent of a node is the source of a visible edge, and no farther away
  pub record HasParent (dist : Dist) (parent : Parents) (n : String) (d : F32) : Type 0 where
    pub from : String
    pub nb : NeighborEntry
    pub among : Among nb (neighbors graph ctx from)
    pub named : nb.name ≡ n
    pub stored : HashMap.get parent n ≡ some (info_of from nb)
    pub near_cost : F32
    pub near : HashMap.get dist from ≡ some near_cost
    pub apart : cost_to graph ctx near_cost n ≤ d

  abbrev pub HasParents : Dist → Parents → String → Type 0
  HasParents dist parent start =
      (n : String) (d : F32)
      → HashMap.get dist n ≡ some d
      → (d ≤ infinity_bits) × ((n ≡ start) ⊎ HasParent dist parent n d)

  module _ (lw : FloatLaws) (start : String) (dist : Dist) (parent : Parents)
      (parents : HasParents dist parent start) where
    -- the parent that a chain goes through
    pub record IsNear (info : ParentInfo) (n : String) (d : F32) : Type 0 where
      pub near_cost : F32
      pub near : HashMap.get dist info.from ≡ some near_cost
      pub apart : cost_to graph ctx near_cost n ≤ d
      pub nb : NeighborEntry
      pub among : Among nb (neighbors graph ctx info.from)
      pub named : nb.name ≡ n
      pub same : info ≡ info_of info.from nb

    pub parent_of :
        (n : String) (d : F32) (info : ParentInfo)
        → (n == start) ≡ false
        → HashMap.get parent n ≡ some info
        → HashMap.get dist n ≡ some d
        → IsNear info n d
    parent_of n d info ne st e = elim (parents n d e).1 [
      | inl s ↦ ground (arith, s, ne, string_eq.beq_iff n start)
      | inr p ↦
          let same : info_of p.from p.nb ≡ info = ground (arith, p.stored, st) in
          subst (λ i. IsNear i n d) same
            (record {
              near_cost = p.near_cost;
              near = p.near;
              apart = p.apart;
              nb = p.nb;
              among = p.among;
              named = p.named;
              same = refl;
            })
    ]

    pub near_le : (n : String) (d : F32) (info : ParentInfo) (i : IsNear info n d) → i.near_cost ≤ d
    near_le n d info i = omega (
      arith,
      i.apart,
      cost_to-grows graph ctx lw i.near_cost n (parents info.from i.near_cost i.near).0,
    )

    module _ (b : String) (new : F32) (info : ParentInfo) (away : (b == start) ≡ false)
        (better : (d : F32) → HashMap.get dist b ≡ some d → new < d) where
      -- A chain to a node that is no farther than the new way does not go through `b`.
      pub Back-avoids :
          (l : ℕ) (n : String)
          → Back parent start l n
          → Within dist n new
          → Back (HashMap.insert parent b info) start l n
      Back-avoids l n Back.home w = Back.home
      Back-avoids (suc l) n (Back.back i ne st rest) (d, (e, le)) = elim (Bool-cases (b == n)) [
        | inl t ↦
            let same = (string_eq.beq_iff b n).0 t in
            absurd (omega (arith, better d (subst (λ x. HashMap.get dist x ≡ some d) (sym same) e)))
        | inr t ↦
            let near = parent_of n d i ne st e in
            Back.back i ne (ground (arith, get-insert parent b info n, t, st)) (
              Back-avoids l i.from rest
                (near.near_cost, (near.near, omega (arith, near_le n d i near))))
      ]

      -- Every chain is still one, over the new parent of `b` where it goes through `b`.
      pub Back-insert :
          (m : ℕ)
          → Back parent start m info.from
          → Within dist info.from new
          → (l : ℕ) (n : String) → Back parent start l n
          → (k : ℕ) × Back (HashMap.insert parent b info) start k n
      Back-insert m chain w l n Back.home = (0, Back.home)
      Back-insert m chain w (suc l) n (Back.back i ne st rest) = elim (Bool-cases (b == n)) [
        | inl t ↦ (
          suc m,
          Back.back info ne (ground (arith, get-insert parent b info n, t))
              (Back-avoids m info.from chain w),
        )
        | inr t ↦
            let (k, r) = Back-insert m chain w l i.from rest in
            (suc k, Back.back i ne (ground (arith, get-insert parent b info n, t, st)) r)
      ]

      pub Back-new :
          (m : ℕ)
          → Back parent start m info.from
          → Within dist info.from new
          → Back (HashMap.insert parent b info) start (suc m) b
      Back-new m chain w =
          Back.back info away (ground (arith, get-insert parent b info b, string_eq.beq_iff b b))
            (Back-avoids m info.from chain w)
