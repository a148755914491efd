-- ===== src/Traversal/MultiBeam/Kept.antt =====
-- The nodes that `multi_beam_intersection` keeps: the start nodes, and what enough beams visit.
use orpheusgraph.Prelude.{
  ℕ, ◌≡◌, refl, sym, subst, Bool, true, false, not, ◌||◌, ◌&&◌, String, none, some, List, [], ◌∷◌,
  ◌++◌, map, filter, leb, arith, Bool-cases, Option-cases, inl, inr, string_eq, ◌==◌, is_some,
  if◌then◌else◌,
}
use orpheusgraph.HashMap
use orpheusgraph.HashMap.{HashMap, find}
use orpheusgraph.HashSet.{contains, insert, Distinct, contains-insert}
use orpheusgraph.Types.Context.{DynamicContext}
use orpheusgraph.Accessor.{GraphAccessor}
use orpheusgraph.Scoring.{Float, NodeResult}
use orpheusgraph.Overlay.Defs.{build}
use orpheusgraph.Traversal.Lists.{All, Distinct-append}
use orpheusgraph.Traversal.Score.{score_of, IsNamed, score_of-named}
use orpheusgraph.Traversal.Beam.Candidates.{names, names-append, contains-names}
use orpheusgraph.Traversal.MultiBeam.{remove_key, Filtered, add_starts, add_hits}

find-filter :
    (k x : String) (m : List (String × NodeResult))
    → find x (filter (λ p. not (p.0 == k)) m) ≡ (if k == x then none else find x m)
unfolding find
find-filter k x [] = ground arith
find-filter k x ((j, r) ∷ m) =
    ground (
      arith,
      find-filter k x m,
      string_eq.beq_iff j k,
      string_eq.beq_iff k x,
      string_eq.beq_iff j x,
    )

get-remove_key :
    (m : HashMap String NodeResult) (k x : String)
    → HashMap.get (remove_key m k) x ≡ (if k == x then none else HashMap.get m x)
unfolding remove_key HashMap.get
get-remove_key m k x = find-filter k x m.pairs

module _ ⦃fl : Float⦄ (graph : GraphAccessor) (ctx : DynamicContext) (named : IsNamed graph)
    (best : HashMap String NodeResult)
    (keyed : (k : String) (r : NodeResult) → HashMap.get best k ≡ some r → r.name ≡ k) where
  -- whether a name that is kept has a node to show
  abbrev pub has : String → Bool
  has x = is_some (HashMap.get best x) || is_some (score_of graph ctx (build ctx) x)

  pub record IsKept (q : String → Bool) (s : Filtered) : Type 0 where
    pub kept : (x : String) → contains s.filtered_set x ≡ q x
    pub left :
        (x : String) → HashMap.get s.best_result x ≡ (if q x then none else HashMap.get best x)
    pub agree : (x : String) → contains (names s.filtered_nodes) x ≡ (q x && has x)
    pub distinct : Distinct (names s.filtered_nodes)

  pub IsKept-ext :
      (q p : String → Bool) (s : Filtered) → ((x : String) → q x ≡ p x) → IsKept q s → IsKept p s
  IsKept-ext q p s same h = record {
    kept = λ x. ground (arith, h.kept x, same x);
    left = λ x. ground (arith, h.left x, same x);
    agree = λ x. ground (arith, h.agree x, same x);
    distinct = h.distinct;
  }

  -- One more name is kept, with its node if it has one.
  keep_node :
      (q : String → Bool) (s : Filtered) (name : String) (r : NodeResult)
      → q name ≡ false
      → r.name ≡ name
      → has name ≡ true
      → IsKept q s
      → IsKept
          (λ x. name == x || q x)
          (record {
            best_result = remove_key s.best_result name;
            filtered_nodes = s.filtered_nodes ++ (r ∷ []);
            filtered_set = insert s.filtered_set name;
          })
  unfolding contains
  keep_node q s name r fresh same there h = record {
    kept = λ x. ground (arith, h.kept x, contains-insert s.filtered_set name x);
    left = λ x. ground (arith, h.left x, get-remove_key s.best_result name x);
    agree = λ x. ground (
      arith,
      contains-names s.filtered_nodes (r ∷ []) x,
      h.agree x,
      same,
      there,
      string_eq.beq_iff name x,
    );
    distinct = subst Distinct (sym (names-append s.filtered_nodes (r ∷ []))) (
        Distinct-append (names s.filtered_nodes) (r.name ∷ []) h.distinct (refl, tt)
          (λ a m. ground (arith, h.agree a, fresh, same, string_eq.beq_iff r.name a, m)));
  }

  keep_name :
      (q : String → Bool) (s : Filtered) (name : String)
      → has name ≡ false
      → IsKept q s
      → IsKept
          (λ x. name == x || q x)
          (record {
            best_result = remove_key s.best_result name;
            filtered_nodes = s.filtered_nodes;
            filtered_set = insert s.filtered_set name;
          })
  keep_name q s name bare h = record {
    kept = λ x. ground (arith, h.kept x, contains-insert s.filtered_set name x);
    left = λ x. ground (arith, h.left x, get-remove_key s.best_result name x);
    agree = λ x. ground (arith, h.agree x, bare, string_eq.beq_iff name x);
    distinct = h.distinct;
  }

  pub add_starts-IsKept :
      (starts : List String) (q : String → Bool) (s : Filtered)
      → IsKept q s
      → IsKept (λ x. q x || contains starts x) (add_starts graph ctx (build ctx) starts s)
  unfolding add_starts contains
  add_starts-IsKept [] q s h = IsKept-ext _ _ s (λ x. ground arith) h
  add_starts-IsKept (start ∷ rest) q s h = elim (Bool-cases (contains s.filtered_set start)) [
    | inl t ↦
        rw (t, add_starts)
          (IsKept-ext _ _ _ (λ x. ground (arith, h.kept start, t, string_eq.beq_iff start x))
            (add_starts-IsKept rest q s h))
    | inr t ↦
        let fresh : q start ≡ false = ground (arith, h.kept start, t) in
        let on : (s' : Filtered)
            → IsKept (λ x. start == x || q x) s'
            → IsKept (λ x. q x || (start == x || contains rest x))
                (add_starts graph ctx (build ctx) rest s') =
          λ s' k.
            IsKept-ext _ _ _ (λ x. ground arith)
              (add_starts-IsKept rest (λ x. start == x || q x) s' k) in
        elim (Option-cases (HashMap.get s.best_result start)) [
          | inr (nr, e) ↦
              let there : HashMap.get best start ≡ some nr =
                ground (arith, h.left start, e, fresh) in
              rw (t, e, add_starts)
                (on _
                  (keep_node q s start nr fresh (keyed start nr there) (ground (arith, there)) h))
          | inl e ↦
              let bare : HashMap.get best start ≡ none = ground (arith, h.left start, e, fresh) in
              elim (Option-cases (score_of graph ctx (build ctx) start)) [
                | inl o ↦
                    rw (t, e, o, add_starts)
                      (on _ (keep_name q s start (ground (arith, bare, o)) h))
                | inr (nr, o) ↦
                    rw (t, e, o, add_starts)
                      (on _ (
                        keep_node q s start nr fresh (score_of-named graph ctx named start nr o)
                          (ground (arith, o)) h))
              ]
        ]
  ]

  abbrev pub passes : ℕ → List String → String × ℕ → Bool
  passes threshold starts p = leb threshold p.1 && not (contains starts p.0)

  pub add_hits-IsKept :
      (threshold : ℕ) (starts : List String) (ps : List (String × ℕ))
      → All (λ p. is_some (HashMap.get best p.0) ≡ true) ps
      → (q : String → Bool) (s : Filtered) → IsKept q s
      → IsKept
          (λ x. q x || contains (map (λ p. p.0) (filter (passes threshold starts) ps)) x)
          (add_hits threshold starts ps s)
  unfolding add_hits contains
  add_hits-IsKept threshold starts [] known q s h = IsKept-ext _ _ s (λ x. ground arith) h
  add_hits-IsKept threshold starts ((name, n) ∷ ps) (k, known) q s h =
      elim (Bool-cases (leb threshold n && not (contains starts name))) [
        | inr t ↦ rw (t, add_hits) (add_hits-IsKept threshold starts ps known q s h)
        | inl t ↦ elim (Option-cases (HashMap.get s.best_result name)) [
          | inl e ↦
              rw (t, e, add_hits)
                (IsKept-ext _ _ _ (λ x. ground (arith, h.left name, e, k, string_eq.beq_iff name x))
                  (add_hits-IsKept threshold starts ps known q s h))
          | inr (nr, e) ↦
              let fresh : q name ≡ false = ground (arith, h.left name, e) in
              let there : HashMap.get best name ≡ some nr = ground (arith, h.left name, e, fresh) in
              let absent : contains s.filtered_set name ≡ false =
                ground (arith, h.kept name, fresh) in
              rw (t, e, absent, add_hits)
                (IsKept-ext _ _ _ (λ x. ground arith)
                  (add_hits-IsKept threshold starts ps known (λ x. name == x || q x) _
                    (keep_node q s name nr fresh (keyed name nr there) (ground (arith, there)) h)))
        ]
      ]
