-- ===== src/Delta/Masked.antt =====
-- The count of masked base edges: what one more node tombstone adds to it.
use orpheusgraph.Prelude.{
  ℕ, ◌+◌, ◌≡◌, ap, ◌∙◌, Bool, true, false, not, ◌&&◌, ◌||◌, String, none, List, [], ◌∷◌,
  if◌then◌else◌, length, count, sum_over, arith, ◌==◌, string_eq, count-ext, count-split,
  sum_over-add, sum_over-ext, count-true, count-none, Bool-cases, inl, inr,
}
use orpheusgraph.HashSet.{
  contains, remove, Distinct, sum_over-count, sum_over-remove, contains-remove,
}
use orpheusgraph.Accessor.{GraphAccessor, NeighborView}
use orpheusgraph.Delta.Defs.{EdgeKey, key_eq}
use orpheusgraph.Delta.Mutators.{edge_key}

-- What a base graph promises: each edge shows at both of its ends, with the same kinds as often, and
-- a name with no node has no edges.
pub record IsConsistent (base : GraphAccessor) : Type 0 where
  pub both_ends :
      (a b : String) (q : String → Bool)
      → count (λ nb. nb.target_name == b && q nb.edge_kind) (base.outgoing_neighbors a)
        ≡ count (λ nb. nb.target_name == a && q nb.edge_kind) (base.incoming_neighbors b)
  pub out_of_node : (a : String) → base.get_node a ≡ none → base.outgoing_neighbors a ≡ []
  pub into_node : (a : String) → base.get_node a ≡ none → base.incoming_neighbors a ≡ []

sum_over-member :
    (f : String → ℕ) (n : String) (r : List String)
    → Distinct r
    → contains r n ≡ true
    → sum_over f r ≡ sum_over f (n ∷ remove r n)
sum_over-member f n r d h = ground (arith, sum_over-remove f r n d)

module _ (base : GraphAccessor) where
  -- The masked edges, as `recompute_counts` adds them up, for a set of node tombstones and one of edge
  -- tombstones; the test for a base node is left out, since other names have no edges.
  abbrev pub into_from_alive : List String → String → ℕ
  into_from_alive r n = count (λ nb. not (contains r nb.target_name)) (base.incoming_neighbors n)

  abbrev pub live_matching : List String → EdgeKey → ℕ
  live_matching r key =
      if contains r key.from || contains r key.to
      then 0
      else count (λ nb. nb.target_name == key.to && nb.edge_kind == key.kind)
          (base.outgoing_neighbors key.from)

  abbrev pub masked_by : List String → List EdgeKey → ℕ
  masked_by r es =
      sum_over (λ n. length (base.outgoing_neighbors n)) r
      + sum_over (into_from_alive r) r
      + sum_over (live_matching r) es

  module _ (c : IsConsistent base) (n : String) (r : List String)
      (fresh : contains r n ≡ false) where
    -- the edges into tombstoned nodes that come from `n`
    from_fresh :
        (m : String)
        → into_from_alive r m
          ≡ into_from_alive (n ∷ r) m
            + count (λ nb. true && m == nb.target_name) (base.outgoing_neighbors n)
    unfolding contains
    from_fresh m =
        let ins = base.incoming_neighbors m in
        let alive : NeighborView → Bool = λ nb. not (contains r nb.target_name) in
        let other : NeighborView → Bool = λ nb. not (n == nb.target_name) in
        omega (
          arith,
          count-split alive other ins,
          count-ext (λ nb. alive nb && other nb) (λ nb. not (contains (n ∷ r) nb.target_name))
              (λ nb. ground arith) ins,
          count-ext (λ nb. alive nb && not (other nb)) (λ nb. nb.target_name == n && true)
              (λ nb.
                ground
                  (arith, string_eq.beq_iff n nb.target_name, string_eq.beq_iff nb.target_name n))
              ins,
          c.both_ends n m (λ k. true),
          count-ext (λ nb. nb.target_name == m && true) (λ nb. true && m == nb.target_name)
              (λ nb.
                ground
                  (arith, string_eq.beq_iff m nb.target_name, string_eq.beq_iff nb.target_name m))
              (base.outgoing_neighbors n),
        )

    into-cons :
        Distinct r
        → sum_over (into_from_alive r) r
          ≡ sum_over (into_from_alive (n ∷ r)) r
            + count (λ nb. contains r nb.target_name) (base.outgoing_neighbors n)
    into-cons d =
        sum_over-ext (into_from_alive r) _ from_fresh r
        ∙ (sum_over-add (into_from_alive (n ∷ r))
              (λ m. count (λ nb. true && m == nb.target_name) (base.outgoing_neighbors n)) r
            ∙ ap (λ k. sum_over (into_from_alive (n ∷ r)) r + k)
                (sum_over-count (λ nb. nb.target_name) (λ nb. true) (base.outgoing_neighbors n) r
                  d))

    -- The base edges of one triple that leave `n`, and those that enter it.
    out_share :
        (key : EdgeKey)
        → count
            (λ nb. not (contains r nb.target_name) && key == edge_key n nb.target_name nb.edge_kind)
            (base.outgoing_neighbors n)
          ≡ (if key.from == n && not (contains r key.to)
              then count
                  (λ nb. nb.target_name == key.to && nb.edge_kind == key.kind)
                  (base.outgoing_neighbors n)
              else 0)
    out_share key = elim (Bool-cases (key.from == n && not (contains r key.to))) [
      | inl h ↦ rw h (
          count-ext _ (λ nb. nb.target_name == key.to && nb.edge_kind == key.kind)
            (λ nb. ground (
              arith,
              string_eq.beq_iff key.to nb.target_name,
              string_eq.beq_iff nb.target_name key.to,
              string_eq.beq_iff key.kind nb.edge_kind,
              string_eq.beq_iff nb.edge_kind key.kind,
            ))
            (base.outgoing_neighbors n))
      | inr h ↦ rw h (
          count-none _ (λ nb. ground (arith, string_eq.beq_iff key.to nb.target_name))
            (base.outgoing_neighbors n))
    ]

    in_share :
        (key : EdgeKey)
        → count
            (λ nb.
              (not (nb.target_name == n) && not (contains r nb.target_name))
              && key == edge_key nb.target_name n nb.edge_kind)
            (base.incoming_neighbors n)
          ≡ (if key.to == n && (not (key.from == n) && not (contains r key.from))
              then count
                  (λ nb. nb.target_name == key.from && nb.edge_kind == key.kind)
                  (base.incoming_neighbors n)
              else 0)
    in_share key =
        elim (Bool-cases (key.to == n && (not (key.from == n) && not (contains r key.from)))) [
          | inl h ↦ rw h (
              count-ext _ (λ nb. nb.target_name == key.from && nb.edge_kind == key.kind)
                (λ nb. ground (
                  arith,
                  string_eq.beq_iff key.from nb.target_name,
                  string_eq.beq_iff nb.target_name key.from,
                  string_eq.beq_iff key.kind nb.edge_kind,
                  string_eq.beq_iff nb.edge_kind key.kind,
                ))
                (base.incoming_neighbors n))
          | inr h ↦ rw h (
              count-none _ (λ nb. ground (arith, string_eq.beq_iff key.from nb.target_name))
                (base.incoming_neighbors n))
        ]

    live-cons :
        (key : EdgeKey)
        → live_matching r key
          ≡ live_matching (n ∷ r) key
            + (count
                  (λ nb.
                    not (contains r nb.target_name)
                    && key == edge_key n nb.target_name nb.edge_kind)
                  (base.outgoing_neighbors n)
                + count
                    (λ nb.
                      (not (nb.target_name == n) && not (contains r nb.target_name))
                      && key == edge_key nb.target_name n nb.edge_kind)
                    (base.incoming_neighbors n))
    unfolding contains
    live-cons key = ground (
      arith,
      out_share key,
      in_share key,
      fresh,
      c.both_ends key.from n (λ k. k == key.kind),
      string_eq.beq_iff n key.from,
      string_eq.beq_iff key.from n,
      string_eq.beq_iff n key.to,
      string_eq.beq_iff key.to n,
    )

    -- the share of an edge tombstone set in the edges at `n`
    cut_out : (es : List EdgeKey) → NeighborView → Bool
    cut_out es nb = contains es (edge_key n nb.target_name nb.edge_kind)

    cut_in : (es : List EdgeKey) → NeighborView → Bool
    cut_in es nb = contains es (edge_key nb.target_name n nb.edge_kind)

    alive_out : NeighborView → Bool
    alive_out nb = not (contains r nb.target_name)

    alive_in : NeighborView → Bool
    alive_in nb = not (nb.target_name == n) && not (contains r nb.target_name)

    lives-cons :
        (es : List EdgeKey)
        → Distinct es
        → sum_over (live_matching r) es
          ≡ sum_over (live_matching (n ∷ r)) es
            + (count (λ nb. alive_out nb && cut_out es nb) (base.outgoing_neighbors n)
                + count (λ nb. alive_in nb && cut_in es nb) (base.incoming_neighbors n))
    unfolding cut_out cut_in alive_out alive_in
    lives-cons es d =
        let outs = base.outgoing_neighbors n in
        let ins = base.incoming_neighbors n in
        let share_out : EdgeKey → ℕ =
          λ key. count (λ nb. alive_out nb && key == edge_key n nb.target_name nb.edge_kind) outs in
        let share_in : EdgeKey → ℕ =
          λ key. count (λ nb. alive_in nb && key == edge_key nb.target_name n nb.edge_kind) ins in
        omega (
          arith,
          sum_over-ext (live_matching r)
              (λ key. live_matching (n ∷ r) key + (share_out key + share_in key)) live-cons es,
          sum_over-add (live_matching (n ∷ r)) (λ key. share_out key + share_in key) es,
          sum_over-add share_out share_in es,
          sum_over-count (λ nb. edge_key n nb.target_name nb.edge_kind) alive_out outs es d,
          sum_over-count (λ nb. edge_key nb.target_name n nb.edge_kind) alive_in ins es d,
        )

    -- One more node tombstone masks the edges at that node that nothing masked before.
    pub masked_by-cons :
        (es : List EdgeKey)
        → Distinct r
        → Distinct es
        → masked_by (n ∷ r) es
          ≡ masked_by r es
            + count
                (λ nb. not (
                  contains r nb.target_name
                  || contains es (edge_key n nb.target_name nb.edge_kind)))
                (base.outgoing_neighbors n)
            + count
                (λ nb. not (
                  nb.target_name == n
                  || contains r nb.target_name
                  || contains es (edge_key nb.target_name n nb.edge_kind)))
                (base.incoming_neighbors n)
    unfolding cut_out cut_in alive_out alive_in contains
    masked_by-cons es dr de =
        let outs = base.outgoing_neighbors n in
        let ins = base.incoming_neighbors n in
        omega (
          arith,
          into-cons dr,
          lives-cons es de,
          count-true outs,
          count-split (λ nb. true) (λ nb. contains r nb.target_name) outs,
          count-split alive_out (cut_out es) outs,
          count-split alive_in (cut_in es) ins,
          count-ext (λ nb. alive_out nb && not (cut_out es nb))
              (λ nb.
                not (
                  contains r nb.target_name
                  || contains es (edge_key n nb.target_name nb.edge_kind)))
              (λ nb. ground arith) outs,
          count-ext (λ nb. alive_in nb && not (cut_in es nb))
              (λ nb. not (
                nb.target_name == n
                || contains r nb.target_name
                || contains es (edge_key nb.target_name n nb.edge_kind)))
              (λ nb. ground arith) ins,
          count-ext (λ nb. not (contains (n ∷ r) nb.target_name)) alive_in
              (λ nb.
                ground
                  (arith, string_eq.beq_iff n nb.target_name, string_eq.beq_iff nb.target_name n))
              ins,
        )

  -- Only the members of the tombstone set matter, not their order.
  pub masked_by-member :
      (n : String) (r : List String) (es : List EdgeKey)
      → Distinct r
      → contains r n ≡ true
      → masked_by r es ≡ masked_by (n ∷ remove r n) es
  unfolding contains
  masked_by-member n r es d h =
      let same : (x : String) → contains r x ≡ contains (n ∷ remove r n) x =
        λ x. ground (arith, contains-remove r n x, string_eq.beq_iff n x) in
      omega (
        arith,
        sum_over-member (λ m. length (base.outgoing_neighbors m)) n r d h,
        sum_over-member (into_from_alive r) n r d h,
        sum_over-ext (into_from_alive r) (into_from_alive (n ∷ remove r n))
            (λ m.
              count-ext _ (λ nb. not (contains (n ∷ remove r n) nb.target_name))
                (λ nb. ap not (same nb.target_name)) (base.incoming_neighbors m))
            (n ∷ remove r n),
        sum_over-ext (live_matching r) (live_matching (n ∷ remove r n))
            (λ key. ground (arith, same key.from, same key.to)) es,
      )
