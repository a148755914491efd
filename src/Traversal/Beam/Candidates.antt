-- ===== src/Traversal/Beam/Candidates.antt =====
-- The candidates of a level of `beam_traverse`, and the marking of the nodes that were seen.
use orpheusgraph.Prelude.{
  ℕ, zero, suc, ◌≡◌, ◌≤◌, refl, sym, ap, subst, true, false, ◌||◌, String, some, List, [], ◌∷◌,
  ◌++◌, map, take, length, arith, Bool-cases, inl, inr, string_eq, if◌then◌else◌,
}
use orpheusgraph.HashMap
use orpheusgraph.HashMap.{HashMap}
use orpheusgraph.HashSet.{contains, insert, Distinct, contains-insert}
use orpheusgraph.Types.Context.{DynamicContext}
use orpheusgraph.Accessor.{GraphAccessor}
use orpheusgraph.Scoring.{Float, NodeResult}
use orpheusgraph.Overlay.Defs.{
  FloatOrder, neighbors_with_overlay, neighbors_with_overlay_indexed, build,
}
use orpheusgraph.Traversal.Lists.{
  All, All-append, All-take, All-mono, All-contains, All-keys, Distinct-take, contains-append,
}
use orpheusgraph.Traversal.Sort.{total_key, sort_by, All-sort_by, sort_by-Distinct}
use orpheusgraph.Traversal.Score.{score_of, IsNamed, score_of-named, Walk}
use orpheusgraph.Traversal.Beam.{result_leb, Beam, mark, level_candidates}
use orpheusgraph.Traversal.Beam.Level.{Pairs, IsGood, IsOffered, collect_level-IsGood}

abbrev pub names : List NodeResult → List String
names rs = map (λ r. r.name) rs

pub names-append : (xs ys : List NodeResult) → names (xs ++ ys) ≡ names xs ++ names ys
names-append [] ys = refl
names-append (x ∷ xs) ys = ap (◌∷◌ x.name) (names-append xs ys)

pub contains-names :
    (xs ys : List NodeResult) (x : String)
    → contains (names (xs ++ ys)) x ≡ (contains (names xs) x || contains (names ys) x)
contains-names xs ys x = rw (names-append xs ys) (contains-append (names xs) (names ys) x)

pub mark-visited :
    (rs : List NodeResult) (visited frontier : List String) (x : String)
    → contains (mark rs visited frontier).0 x ≡ (contains visited x || contains (names rs) x)
unfolding mark contains
mark-visited [] visited frontier x = ground arith
mark-visited (r ∷ rs) visited frontier x = ground (
  arith,
  mark-visited rs (insert visited r.name)
      (if contains visited r.name then frontier else frontier ++ (r.name ∷ [])) x,
  contains-insert visited r.name x,
)

pub mark-frontier :
    (P : String → Type 0) (rs : List NodeResult) (visited frontier : List String)
    → All (λ r. P r.name) rs
    → All P frontier
    → All P (mark rs visited frontier).1
unfolding mark
mark-frontier P [] visited frontier h g = g
mark-frontier P (r ∷ rs) visited frontier (h, hs) g = elim (Bool-cases (contains visited r.name)) [
  | inl t ↦ rw (t, mark) (mark-frontier P rs _ frontier hs g)
  | inr t ↦
      rw (t, mark)
        (mark-frontier P rs _ (frontier ++ (r.name ∷ [])) hs
          (All-append P frontier (r.name ∷ []) g (h, tt)))
]

length-take_le {ℓ} : {A : Type ℓ} (n : ℕ) (xs : List A) → length (take n xs) ≤ n
length-take_le zero xs = omega arith
length-take_le (suc n) [] = omega arith
length-take_le (suc n) (x ∷ xs) = omega (arith, length-take_le n xs)

keys-names : (m : Pairs) → All (λ p. p.1.name ≡ p.0) m → names (map (λ p. p.1) m) ≡ map (λ p. p.0) m
keys-names [] h = refl
keys-names ((k, r) ∷ m) (h, hs) = ground (arith, h, keys-names m hs)

All-values : (P : NodeResult → Type 0) (m : Pairs) → All (λ p. P p.1) m → All P (map (λ p. p.1) m)
All-values P [] h = tt
All-values P (p ∷ m) (h, hs) = (h, All-values P m hs)

pub follows : (x y : NodeResult) → result_leb x y ≡ true → total_key y.weight ≤ total_key x.weight
unfolding result_leb
follows x y h = ground arith

pub precedes : (x y : NodeResult) → result_leb x y ≡ false → total_key x.weight ≤ total_key y.weight
unfolding result_leb
precedes x y h = ground arith

module _ ⦃fl : Float⦄ ⦃fo : FloatOrder⦄ (graph : GraphAccessor) (ctx : DynamicContext)
    (start : String) where
  -- the candidates of a level
  pub record IsNext (k i : ℕ) (visited : List String) (rs : List NodeResult) : Type 0 where
    pub distinct : Distinct (names rs)
    pub fresh : (x : String) → contains (names rs) x ≡ true → contains visited x ≡ false
    pub size : length rs ≤ k
    pub scores : All (λ r. score_of graph ctx (build ctx) r.name ≡ some r) rs
    pub walks : All (λ r. Walk graph ctx start i r.name) rs

  module _ (named : IsNamed graph) where
    leads_on :
        (i : ℕ) (frontier : List String)
        → All (Walk graph ctx start i) frontier
        → All
            (λ a.
              All
                (λ n. Walk graph ctx start (suc i) n.name)
                (neighbors_with_overlay_indexed graph ctx (build ctx) a))
            frontier
    unfolding neighbors_with_overlay
    leads_on i [] h = tt
    leads_on i (a ∷ rest) (h, hs) = (
      All-keys (λ n. n.name) (Walk graph ctx start (suc i))
          (neighbors_with_overlay_indexed graph ctx (build ctx) a) (λ b m. Walk.step h m),
      leads_on i rest hs,
    )

    values-IsNext :
        (k i : ℕ) (visited : List String) (m : Pairs)
        → IsGood (IsOffered graph ctx (build ctx) visited (Walk graph ctx start i)) m
        → IsNext k i visited (take k (sort_by result_leb (map (λ p. p.1) m)))
    values-IsNext k i visited m h =
        let name_of : (p : String × NodeResult)
            → IsOffered graph ctx (build ctx) visited (Walk graph ctx start i) p.0 p.1
            → p.1.name ≡ p.0 =
          λ p o. score_of-named graph ctx named p.0 p.1 o.score in
        let rs : List NodeResult = map (λ p. p.1) m in
        let keys : names rs ≡ map (λ p. p.0) m =
          keys-names m (All-mono _ (λ p. p.1.name ≡ p.0) name_of m h.good) in
        let kept : (P : NodeResult → Type 0)
            → ((p : String × NodeResult)
                → IsOffered graph ctx (build ctx) visited (Walk graph ctx start i) p.0 p.1
                → P p.1)
            → All P (take k (sort_by result_leb rs)) =
          λ P f.
            All-take P k _
              (All-sort_by result_leb P rs (All-values P m (All-mono _ (λ p. P p.1) f m h.good))) in
        record {
          distinct =
              Distinct-take (λ r. r.name) k _
                (sort_by-Distinct result_leb (λ r. r.name) rs (subst Distinct (sym keys) h.keys));
          fresh = λ x c.
              let (r, (o, e)) =
                All-contains (λ r. r.name) (λ r. contains visited r.name ≡ false) _
                  (kept _
                    (λ p o. subst (λ n. contains visited n ≡ false) (sym (name_of p o)) o.fresh))
                  x c in
              subst (λ n. contains visited n ≡ false) e o;
          size = length-take_le k _;
          scores = kept _ (λ p o.
              subst (λ n. score_of graph ctx (build ctx) n ≡ some p.1) (sym (name_of p o)) o.score);
          walks = kept _ (λ p o. subst (Walk graph ctx start i) (sym (name_of p o)) o.found);
        }

    pub level_candidates-IsNext :
        (k i : ℕ) (b : Beam)
        → All (Walk graph ctx start i) b.frontier
        → IsNext k (suc i) b.visited (level_candidates graph ctx (build ctx) k b)
    unfolding level_candidates
    level_candidates-IsNext k i b h = values-IsNext k (suc i) b.visited _ (
        collect_level-IsGood graph ctx (build ctx) b.visited (Walk graph ctx start (suc i))
          b.frontier (leads_on i b.frontier h) HashMap.new (record { good = tt; keys = tt }))
