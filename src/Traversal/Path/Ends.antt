-- ===== src/Traversal/Path/Ends.antt =====
-- A chain of stored parents is no longer than the list of the names, so the walk back ends.
use orpheusgraph.Prelude.{
  ℕ, suc, ◌≡◌, ◌≤◌, ◌<◌, inl, inr, refl, true, String, some, ◌==◌, List, [], ◌∷◌, arith, Bool-cases,
  string_eq, subst, ◌∙◌, ap, length,
}
use orpheusgraph.HashMap
use orpheusgraph.HashSet.{contains, remove, Distinct, contains-remove}
use orpheusgraph.Types.{F32}
use orpheusgraph.Types.Context.{DynamicContext}
use orpheusgraph.Accessor.{GraphAccessor}
use orpheusgraph.Scoring.{Float}
use orpheusgraph.Overlay.Defs.{FloatOrder, NeighborEntry, neighbors_with_overlay}
use orpheusgraph.Traversal.Lists.{Among}
use orpheusgraph.Traversal.Path.{FloatDivision}
use orpheusgraph.Traversal.Path.Route.{FloatLaws}
use orpheusgraph.Traversal.Path.Chain.{Dist, Parents, Back, HasParents, parent_of}

length-remove_le : (ys : List String) (x : String) → length (remove ys x) ≤ length ys
unfolding remove
length-remove_le [] x = omega arith
length-remove_le (y ∷ ys) x = ground (arith, length-remove_le ys x)

length-remove_lt :
    (ys : List String) (x : String) → contains ys x ≡ true → length (remove ys x) < length ys
unfolding remove contains
length-remove_lt [] x h = ground (arith, h)
length-remove_lt (y ∷ ys) x h = ground (arith, length-remove_lt ys x, length-remove_le ys x)

-- Different members of a list are no more than the list is long.
pigeonhole :
    (xs ys : List String)
    → Distinct xs
    → ((x : String) → contains xs x ≡ true → contains ys x ≡ true)
    → length xs ≤ length ys
unfolding contains
pigeonhole [] ys d h = omega arith
pigeonhole (x ∷ xs) ys (fresh, d) h =
    let there : contains ys x ≡ true = h x (ground (arith, string_eq.beq_iff x x)) in
    let within : (y : String) → contains xs y ≡ true → contains (remove ys x) y ≡ true =
      λ y m. ground (arith, contains-remove ys x y, h y, m, fresh, string_eq.beq_iff x y) in
    omega (arith, pigeonhole xs (remove ys x) d within, length-remove_lt ys x there)

module _ (parent : Parents) (start : String) where
  -- the nodes of a chain but for the start
  trail : {l : ℕ} {n : String} → Back parent start l n → List String
  trail Back.home = []
  trail (Back.back {n} info ne st rest) = n ∷ trail rest

  length-trail : {l : ℕ} {n : String} (h : Back parent start l n) → length (trail h) ≡ l
  unfolding trail
  length-trail Back.home = refl
  length-trail (Back.back info ne st rest) = ap suc (length-trail rest)

  -- One node has chains of one length only.
  Back-unique :
      {l m : ℕ} {n o : String} → n ≡ o → Back parent start l n → Back parent start m o → l ≡ m
  Back-unique e Back.home Back.home = refl
  Back-unique e Back.home (Back.back {n} info ne st rest) =
      absurd (ground (arith, e, ne, string_eq.beq_iff n start))
  Back-unique e (Back.back {n} info ne st rest) Back.home =
      absurd (ground (arith, e, ne, string_eq.beq_iff n start))
  Back-unique e (Back.back info ne st rest) (Back.back other ne' st' rest') =
      ap suc (Back-unique (ground (arith, st, st', e)) rest rest')

  -- A node of a chain has a chain that is no longer.
  trail-Back :
      {l : ℕ} {n : String} (h : Back parent start l n) (x : String)
      → contains (trail h) x ≡ true
      → (k : ℕ) × ((k ≤ l) × Back parent start k x)
  unfolding trail contains
  trail-Back Back.home x m = ground (arith, m)
  trail-Back (Back.back {l} {n} info ne st rest) x m = elim (Bool-cases (n == x)) [
    | inl t ↦ (
      suc l,
      (
        omega arith,
        subst (Back parent start (suc l)) ((string_eq.beq_iff n x).0 t) (Back.back info ne st rest),
      ),
    )
    | inr t ↦ let (k, (le, b)) = trail-Back rest x (ground (arith, t, m)) in (k, (omega arith, b))
  ]

  trail-Distinct : {l : ℕ} {n : String} (h : Back parent start l n) → Distinct (trail h)
  unfolding trail
  trail-Distinct Back.home = tt
  trail-Distinct (Back.back {l} {n} info ne st rest) = (
    elim (Bool-cases (contains (trail rest) n)) [
      | inl t ↦
          let (k, (le, b)) = trail-Back rest n t in
          absurd (omega (arith, Back-unique refl b (Back.back info ne st rest)))
      | inr t ↦ t
    ],
    trail-Distinct rest,
  )

-- every name that a search can meet
pub record IsListed ⦃fo : FloatOrder⦄ (graph : GraphAccessor) (ctx : DynamicContext)
    (start : String) (names : List String) : Type 0 where
  pub origin : contains names start ≡ true
  pub targets :
      (a : String) (nb : NeighborEntry)
      → Among nb (neighbors_with_overlay graph ctx a)
      → contains names nb.name ≡ true

module _ ⦃fl : Float⦄ ⦃fo : FloatOrder⦄ ⦃fd : FloatDivision⦄ (graph : GraphAccessor)
    (ctx : DynamicContext) (lw : FloatLaws) (start : String) (dist : Dist) (parent : Parents)
    (parents : HasParents graph ctx dist parent start) (names : List String)
    (listed : IsListed graph ctx start names) where
  on_trail :
      {l : ℕ} {n : String} (h : Back parent start l n) (d : F32)
      → HashMap.get dist n ≡ some d
      → (x : String) → contains (trail parent start h) x ≡ true
      → contains names x ≡ true
  unfolding trail contains neighbors_with_overlay
  on_trail Back.home d e x m = ground (arith, m)
  on_trail (Back.back {l} {n} info ne st rest) d e x m =
      let near = parent_of graph ctx lw start dist parent parents n d info ne st e in
      elim (Bool-cases (n == x)) [
        | inl t ↦
            let name : near.nb.name ≡ x = near.named ∙ (string_eq.beq_iff n x).0 t in
            subst (λ y. contains names y ≡ true) name (listed.targets info.from near.nb near.among)
        | inr t ↦ on_trail rest near.near_cost near.near x (ground (arith, t, m))
      ]

  pub Back-length :
      (l : ℕ) (n : String) (d : F32)
      → Back parent start l n
      → HashMap.get dist n ≡ some d
      → l ≤ length names
  Back-length l n d h e = omega (
    arith,
    length-trail parent start h,
    pigeonhole (trail parent start h) names (trail-Distinct parent start h) (on_trail h d e),
  )
