-- ===== src/Traversal/MultiBeam/Heat.antt =====
-- The heatmap of `multi_beam_intersection` counts the beams that visit a node.
use orpheusgraph.Prelude.{
  ℕ, ◌+◌, ◌≡◌, refl, subst, Bool, true, false, ◌||◌, String, none, some, List, [], ◌∷◌, map, leb,
  arith, Bool-cases, inl, inr, string_eq, ◌==◌, is_some, if◌then◌else◌, count,
}
use orpheusgraph.HashMap
use orpheusgraph.HashMap.{HashMap, find, get-insert, get-new, put-Distinct}
use orpheusgraph.HashSet.{contains, insert, Distinct, contains-insert}
use orpheusgraph.Types.{F32}
use orpheusgraph.Scoring.{Float, NodeResult}
use orpheusgraph.Overlay.Defs.{FloatOrder}
use orpheusgraph.Traversal.Beam.{offer}
use orpheusgraph.Traversal.Beam.Level.{IsGood, offer-IsGood}
use orpheusgraph.Traversal.Beam.Candidates.{names}
use orpheusgraph.Traversal.MultiBeam.{get_or, Heatmap, heat_beam, heat_beams}

-- the number of beams that visit a node
unfoldable pub hits : List (List NodeResult) → String → ℕ
hits beams x = count (λ results. contains (names results) x) beams

abbrev to_nat : Bool → ℕ
to_nat true = 1
to_nat false = 0

pub record IsHeat (h : String → ℕ) (m : Heatmap) : Type 0 where
  pub counted : (x : String) → get_or m.hit_count x 0 ≡ h x
  pub positive : (x : String) → is_some (HashMap.get m.hit_count x) ≡ leb 1 (h x)
  pub best : (x : String) → is_some (HashMap.get m.best_result x) ≡ leb 1 (h x)
  pub keys : Distinct (map (λ p. p.0) m.hit_count.pairs)
  pub good : IsGood (λ k r. r.name ≡ k) m.best_result.pairs

IsHeat-ext : (h g : String → ℕ) (m : Heatmap) → ((x : String) → h x ≡ g x) → IsHeat h m → IsHeat g m
IsHeat-ext h g m same i = record {
  counted = λ x. ground (arith, i.counted x, same x);
  positive = λ x. ground (arith, i.positive x, same x);
  best = λ x. ground (arith, i.best x, same x);
  keys = i.keys;
  good = i.good;
}

module _ ⦃fl : Float⦄ ⦃fo : FloatOrder⦄ where
  is_some-offer :
      (m : HashMap String NodeResult) (k : String) (r : NodeResult) (x : String)
      → is_some (HashMap.get (offer m k r) x) ≡ (k == x || is_some (HashMap.get m x))
  unfolding offer
  is_some-offer m k r x =
      let value : NodeResult = elim (HashMap.get m k) [
        | none ↦ r
        | some existing ↦ if fo.gt r.weight existing.weight then r else existing
      ] in
      ground (arith, get-insert m k value x)

  IsHeat-one :
      (h : String → ℕ) (r : NodeResult) (seen : List String) (m : Heatmap)
      → IsHeat (λ x. h x + to_nat (contains seen x)) m
      → (counts : HashMap String ℕ)
      → (if contains seen r.name
          then m.hit_count
          else HashMap.insert m.hit_count r.name (get_or m.hit_count r.name 0 + 1))
        ≡ counts
      → (sums : HashMap String F32)
      → IsHeat
          (λ x. h x + to_nat (contains (insert seen r.name) x))
          (record {
            hit_count = counts;
            weight_sum = sums;
            best_result = offer m.best_result r.name r;
          })
  unfolding get_or HashMap.insert
  IsHeat-one h r seen m i counts e sums = elim (Bool-cases (contains seen r.name)) [
    | inl t ↦
        let same : m.hit_count ≡ counts = ground (arith, e, t) in
        subst
          (λ c.
            IsHeat (λ x. h x + to_nat (contains (insert seen r.name) x))
              (record {
                hit_count = c;
                weight_sum = sums;
                best_result = offer m.best_result r.name r;
              }))
          same
          (record {
            counted = λ x.
                ground (
                  arith,
                  i.counted x,
                  contains-insert seen r.name x,
                  t,
                  string_eq.beq_iff r.name x,
                );
            positive = λ x.
                ground (
                  arith,
                  i.positive x,
                  contains-insert seen r.name x,
                  t,
                  string_eq.beq_iff r.name x,
                );
            best = λ x. ground (
              arith,
              i.best x,
              is_some-offer m.best_result r.name r x,
              contains-insert seen r.name x,
              t,
              string_eq.beq_iff r.name x,
            );
            keys = i.keys;
            good = offer-IsGood (λ k r. r.name ≡ k) m.best_result r.name r refl i.good;
          })
    | inr t ↦
        let next : HashMap String ℕ =
          HashMap.insert m.hit_count r.name (get_or m.hit_count r.name 0 + 1) in
        let same : next ≡ counts = ground (arith, e, t) in
        let at : (x : String)
            → HashMap.get next x ≡ (
                if r.name == x
                then some (get_or m.hit_count r.name 0 + 1)
                else HashMap.get m.hit_count x) =
          λ x. get-insert m.hit_count r.name (get_or m.hit_count r.name 0 + 1) x in
        subst
          (λ c.
            IsHeat (λ x. h x + to_nat (contains (insert seen r.name) x))
              (record {
                hit_count = c;
                weight_sum = sums;
                best_result = offer m.best_result r.name r;
              }))
          same
          (record {
            counted = λ x. ground (
              arith,
              at x,
              i.counted x,
              i.counted r.name,
              contains-insert seen r.name x,
              t,
              string_eq.beq_iff r.name x,
            );
            positive = λ x. ground (
              arith,
              at x,
              i.positive x,
              contains-insert seen r.name x,
              t,
              string_eq.beq_iff r.name x,
            );
            best = λ x. ground (
              arith,
              i.best x,
              is_some-offer m.best_result r.name r x,
              contains-insert seen r.name x,
              t,
              string_eq.beq_iff r.name x,
            );
            keys = put-Distinct r.name (get_or m.hit_count r.name 0 + 1) m.hit_count.pairs i.keys;
            good = offer-IsGood (λ k r. r.name ≡ k) m.best_result r.name r refl i.good;
          })
  ]

  heat_beam-IsHeat :
      (h : String → ℕ) (rs : List NodeResult) (seen : List String) (m : Heatmap)
      → IsHeat (λ x. h x + to_nat (contains seen x)) m
      → IsHeat (λ x. h x + to_nat (contains seen x || contains (names rs) x)) (heat_beam rs seen m)
  unfolding heat_beam contains
  heat_beam-IsHeat h [] seen m i = IsHeat-ext _ _ m (λ x. ground arith) i
  heat_beam-IsHeat h (r ∷ rs) seen m i =
      IsHeat-ext _ _ _ (λ x. ground (arith, contains-insert seen r.name x))
        (heat_beam-IsHeat h rs (insert seen r.name) _ (IsHeat-one h r seen m i _ refl _))

  heat_beams-IsHeat :
      (h : String → ℕ) (beams : List (List NodeResult)) (m : Heatmap)
      → IsHeat h m
      → IsHeat (λ x. h x + hits beams x) (heat_beams beams m)
  unfolding heat_beams hits contains
  heat_beams-IsHeat h [] m i = IsHeat-ext _ _ m (λ x. ground arith) i
  heat_beams-IsHeat h (rs ∷ beams) m i =
      IsHeat-ext _ _ _ (λ x. ground arith)
        (heat_beams-IsHeat (λ x. h x + to_nat (contains (names rs) x)) beams (heat_beam rs [] m)
          (heat_beam-IsHeat h rs [] m (IsHeat-ext _ _ m (λ x. ground arith) i)))

  -- The heatmap of some beams counts, for each name, the beams that visit it.
  pub heat_beams-hits :
      (beams : List (List NodeResult))
      → IsHeat (hits beams) (
          heat_beams beams (record {
            hit_count = HashMap.new;
            weight_sum = HashMap.new;
            best_result = HashMap.new;
          }))
  unfolding get_or
  heat_beams-hits beams =
      IsHeat-ext _ _ _ (λ x. ground arith)
        (heat_beams-IsHeat (λ x. 0) beams _
          (record {
            counted = λ x. ground (arith, get-new {V = ℕ} x);
            positive = λ x. ground (arith, get-new {V = ℕ} x);
            best = λ x. ground (arith, get-new {V = NodeResult} x);
            keys = tt;
            good = record { good = tt; keys = tt };
          }))
