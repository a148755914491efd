-- ===== src/Traversal/Beam/Laws.antt =====
-- What `beam_traverse` answers with.
use orpheusgraph.Prelude.{
  ℕ, zero, suc, ◌+◌, ◌*◌, ◌≡◌, ◌≤◌, refl, sym, subst, true, false, ◌||◌, String, some, List, [],
  ◌∷◌, length, arith, inl, inr, string_eq, ◌==◌, length-append, ◌⊎◌,
}
use orpheusgraph.HashSet.{contains, Distinct}
use orpheusgraph.Types.Context.{DynamicContext}
use orpheusgraph.Accessor.{GraphAccessor}
use orpheusgraph.Scoring.{Float, NodeResult}
use orpheusgraph.Overlay.Defs.{FloatOrder, build}
use orpheusgraph.Traversal.Lists.{All, All-append, All-mono, Distinct-append}
use orpheusgraph.Traversal.Sort.{
  total_key, length-sort_by, All-sort_by, IsDescending, sort_by-IsDescending, contains-sort_by,
  sort_by-Distinct,
}
use orpheusgraph.Traversal.Score.{score_of, IsNamed, Walk}
use orpheusgraph.Traversal.Beam.{
  result_leb, Beam, level_candidates, expand_level, levels, start_beam, beam_traverse,
}
use orpheusgraph.Traversal.Beam.Candidates.{
  names, names-append, contains-names, mark-visited, mark-frontier, follows, precedes,
  level_candidates-IsNext,
}

List-cases : (xs : List String) → (xs ≡ []) ⊎ ((x : String) × ((ys : List String) × (xs ≡ x ∷ ys)))
List-cases [] = inl refl
List-cases (x ∷ xs) = inr (x, (xs, refl))

module _ ⦃fl : Float⦄ ⦃fo : FloatOrder⦄ (graph : GraphAccessor) (ctx : DynamicContext)
    (start : String) where
  -- a node with its score, at the end of a walk of at most `n` visible edges
  pub record IsFound (n : ℕ) (r : NodeResult) : Type 0 where
    pub score : score_of graph ctx (build ctx) r.name ≡ some r
    pub walk : (j : ℕ) × ((j ≤ n) × Walk graph ctx start j r.name)

  -- what a beam of width `k` and some depth answers with
  pub record IsBeam (k depth : ℕ) (rs : List NodeResult) : Type 0 where
    pub distinct : Distinct (names rs)
    pub apart : contains (names rs) start ≡ false
    pub size : length rs ≤ k * depth
    pub found : All (IsFound depth) rs

  record IsAt (k i : ℕ) (b : Beam) : Type 0 where
    pub results : IsBeam k i b.all_results
    pub visited :
        (x : String) → contains b.visited x ≡ (start == x || contains (names b.all_results) x)
    pub frontier : All (Walk graph ctx start i) b.frontier

  weaken : (n : ℕ) (r : NodeResult) → IsFound n r → IsFound (suc n) r
  weaken n r h = record { score = h.score; walk = (h.walk.0, (omega arith, h.walk.1.1)) }

  found_now :
      (n : ℕ) (rs : List NodeResult)
      → All (λ r. score_of graph ctx (build ctx) r.name ≡ some r) rs
      → All (λ r. Walk graph ctx start n r.name) rs
      → All (IsFound n) rs
  found_now n [] h g = tt
  found_now n (r ∷ rs) (h, hs) (g, gs) =
      (record { score = h; walk = (n, (omega arith, g)) }, found_now n rs hs gs)

  expand_level-IsAt :
      (named : IsNamed graph) (k i : ℕ) (b : Beam)
      → IsAt k i b
      → IsAt k (suc i) (expand_level graph ctx (build ctx) k b)
  unfolding expand_level
  expand_level-IsAt named k i b h =
      let rs = level_candidates graph ctx (build ctx) k b in
      let n = level_candidates-IsNext graph ctx start named k i b h.frontier in
      let old = names b.all_results in
      let disjoint : (x : String) → contains (names rs) x ≡ true → contains old x ≡ false =
        λ x c. ground (arith, n.fresh x c, h.visited x) in
      record {
        results = record {
          distinct =
              subst Distinct (sym (names-append b.all_results rs))
                (Distinct-append old (names rs) h.results.distinct n.distinct disjoint);
          apart = ground (
            arith,
            contains-names b.all_results rs start,
            h.results.apart,
            h.visited start,
            n.fresh start,
            string_eq.beq_iff start start,
          );
          size = grind (arith, length-append b.all_results rs, h.results.size, n.size);
          found =
              All-append _ b.all_results rs
                (All-mono (IsFound i) (IsFound (suc i)) (weaken i) b.all_results h.results.found)
                (found_now (suc i) rs n.scores n.walks);
        };
        visited = λ x.
            ground (
              arith,
              contains-names b.all_results rs x,
              h.visited x,
              mark-visited rs b.visited [] x,
            );
        frontier = mark-frontier (Walk graph ctx start (suc i)) rs b.visited [] n.walks tt;
      }

  lengthen : (k i j : ℕ) (rs : List NodeResult) → i ≤ j → IsBeam k i rs → IsBeam k j rs
  lengthen k i j rs le h = record {
    distinct = h.distinct;
    apart = h.apart;
    size = grind (arith, h.size);
    found =
        All-mono (IsFound i) (IsFound j)
          (λ r f. record { score = f.score; walk = (f.walk.0, (omega arith, f.walk.1.1)) }) rs
          h.found;
  }

  levels-IsBeam :
      (named : IsNamed graph) (k depth i : ℕ) (b : Beam)
      → IsAt k i b
      → IsBeam k (depth + i) (levels graph ctx (build ctx) k depth b).all_results
  unfolding levels
  levels-IsBeam named k zero i b h = lengthen k i (zero + i) b.all_results (omega arith) h.results
  levels-IsBeam named k (suc depth) i b h = elim (List-cases b.frontier) [
    | inl e ↦ rw (e, levels) (lengthen k i (suc depth + i) b.all_results (omega arith) h.results)
    | inr (a, (rest, e)) ↦
        let next =
          levels-IsBeam named k depth (suc i) (expand_level graph ctx (build ctx) k b)
            (expand_level-IsAt named k i b h) in
        rw (e, levels) (lengthen k (depth + suc i) (suc depth + i) _ (omega arith) next)
  ]

  -- Over a graph whose nodes answer to their own names, a beam of width `k` and some depth answers with
  -- at most `k * depth` nodes, none twice and not the start, with weights that never rise in the total
  -- order of floats; each has the score that the request gives it and lies at the end of a walk of at
  -- most that many visible edges.
  pub beam_traverse-IsBeam :
      (k depth : ℕ)
      → IsNamed graph
      → IsBeam k depth (beam_traverse graph ctx start k depth)
        × IsDescending (λ r. total_key r.weight) (beam_traverse graph ctx start k depth)
  unfolding beam_traverse contains
  beam_traverse-IsBeam k depth named =
      let at_start : IsAt k 0 (start_beam start) = record {
        results = record { distinct = tt; apart = refl; size = omega arith; found = tt };
        visited = λ x. refl;
        frontier = (Walk.stay, tt);
      } in
      let all = (levels graph ctx (build ctx) k depth (start_beam start)).all_results in
      let h =
        lengthen k (depth + 0) depth all (omega arith)
          (levels-IsBeam named k depth 0 (start_beam start) at_start) in
      (
        record {
          distinct = sort_by-Distinct result_leb (λ r. r.name) all h.distinct;
          apart = ground (arith, contains-sort_by result_leb (λ r. r.name) all start, h.apart);
          size = ground (arith, length-sort_by result_leb all, h.size);
          found = All-sort_by result_leb (IsFound depth) all h.found;
        },
        sort_by-IsDescending result_leb (λ r. total_key r.weight) follows precedes all,
      )
