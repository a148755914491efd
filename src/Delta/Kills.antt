-- ===== src/Delta/Kills.antt =====
-- The loops of src/delta.rs that mark delta edges dead: the edges and the
-- live counter after them.
use orpheusgraph.Prelude.{
  ℕ, zero, suc, ◌+◌, ◌≡◌, refl, ◌∙◌, Bool, true, false, not, ◌&&◌, String, some, Option-cases, inl,
  inr, List, [], ◌∷◌, ◌++◌, map, arith, append_assoc, ◌==◌, string_eq, if◌then◌else◌, length,
  get_elem?, set, length-snoc, get_elem?-length, set-length, count,
}
use orpheusgraph.Delta.Defs.{DeltaEdge}
use orpheusgraph.Delta.Mutators.{kill_at, kill_each}
use orpheusgraph.Delta.Index.{positions, positions-set}

-- `.filter(|e| !e.dead).count()`
abbrev pub count_live : List DeltaEdge → ℕ
count_live es = count (λ e. not e.dead) es

-- What one round does to the edge that it reaches.
abbrev pub die_if : (DeltaEdge → Bool) → DeltaEdge → DeltaEdge
die_if meant e = if not e.dead && meant e then record e { dead = true } else e

count_live-set :
    (es : List DeltaEdge) (p : ℕ) (e : DeltaEdge)
    → get_elem? es p ≡ some e
    → e.dead ≡ false
    → count_live es ≡ count_live (set es p (record e { dead = true })) + 1
count_live-set [] p e h d = cc
count_live-set (x ∷ es) zero e h d = ground arith
count_live-set (x ∷ es) (suc p) e h d = omega (arith, count_live-set es p e h d)

kill_at-live :
    (meant : DeltaEdge → Bool) (p : ℕ) (es : List DeltaEdge)
    → (kill_at meant p es (count_live es)).1 ≡ count_live (kill_at meant p es (count_live es)).0
unfolding kill_at
kill_at-live meant p es = elim (Option-cases (get_elem? es p)) [
  | inl h ↦ rw (h, kill_at)
  | inr (e, h) ↦ ground (arith, count_live-set es p e h)
]

-- The live counter stays the number of live edges, whatever positions the loop visits.
pub kill_each-live :
    (meant : DeltaEdge → Bool) (ps : List ℕ) (es : List DeltaEdge) (n : ℕ)
    → n ≡ count_live es
    → (kill_each meant ps es n).1 ≡ count_live (kill_each meant ps es n).0
unfolding kill_each
kill_each-live meant [] es n h = h
kill_each-live meant (p ∷ ps) es n h =
    kill_each-live meant ps (kill_at meant p es n).0 (kill_at meant p es n).1
      (rw h (kill_at-live meant p es))

kill_at-positions :
    (key : DeltaEdge → String)
    → ((e : DeltaEdge) → key (record e { dead = true }) ≡ key e)
    → (name : String) (meant : DeltaEdge → Bool) (p : ℕ) (es : List DeltaEdge) (n : ℕ)
    → positions key name 0 (kill_at meant p es n).0 ≡ positions key name 0 es
unfolding kill_at
kill_at-positions key keeps name meant p es n = elim (Option-cases (get_elem? es p)) [
  | inl h ↦ rw (h, kill_at)
  | inr (e, h) ↦
      ground (arith, positions-set key name 0 p es e (record e { dead = true }) h (keeps e))
]

-- No position of either index moves.
pub kill_each-positions :
    (key : DeltaEdge → String)
    → ((e : DeltaEdge) → key (record e { dead = true }) ≡ key e)
    → (name : String) (meant : DeltaEdge → Bool) (ps : List ℕ) (es : List DeltaEdge) (n : ℕ)
    → positions key name 0 (kill_each meant ps es n).0 ≡ positions key name 0 es
unfolding kill_each
kill_each-positions key keeps name meant [] es n = refl
kill_each-positions key keeps name meant (p ∷ ps) es n =
    kill_each-positions key keeps name meant ps (kill_at meant p es n).0 (kill_at meant p es n).1
    ∙ kill_at-positions key keeps name meant p es n

pub kill_each-append :
    (meant : DeltaEdge → Bool) (ps qs : List ℕ) (es : List DeltaEdge) (n : ℕ)
    → kill_each meant (ps ++ qs) es n
      ≡ kill_each meant qs (kill_each meant ps es n).0 (kill_each meant ps es n).1
unfolding kill_each
kill_each-append meant [] qs es n = refl
kill_each-append meant (p ∷ ps) qs es n =
    kill_each-append meant ps qs (kill_at meant p es n).0 (kill_at meant p es n).1

kill_at-length :
    (meant : DeltaEdge → Bool) (pre : List DeltaEdge) (e : DeltaEdge) (es : List DeltaEdge) (n : ℕ)
    → (kill_at meant (length pre) (pre ++ (e ∷ es)) n).0 ≡ pre ++ (die_if meant e ∷ es)
unfolding kill_at
kill_at-length meant pre e es n =
    ground (arith, get_elem?-length pre e es, set-length pre e (record e { dead = true }) es)

kill_each-suffix :
    (meant : DeltaEdge → Bool) (key : DeltaEdge → String) (name : String) (pre es : List DeltaEdge)
    (n : ℕ)
    → (kill_each meant (positions key name (length pre) es) (pre ++ es) n).0
      ≡ pre ++ map (die_if (λ e. key e == name && meant e)) es
unfolding positions kill_each
kill_each-suffix meant key name pre [] n = refl
kill_each-suffix meant key name pre (e ∷ es) n =
    let dies = λ (x : DeltaEdge). die_if (λ e'. key e' == name && meant e') x in
    let next : (x : DeltaEdge) (m : ℕ)
        → (kill_each meant (positions key name (suc (length pre)) es) (pre ++ (x ∷ es)) m).0
          ≡ pre ++ (x ∷ map dies es) =
      λ x m.
        simp (append_assoc, length-snoc) at
          (kill_each-suffix meant key name (pre ++ (x ∷ [])) es m) in
    ground (
      arith,
      kill_at-length meant pre e es n,
      next (die_if meant e) (kill_at meant (length pre) (pre ++ (e ∷ es)) n).1,
      next e n,
    )

-- A walk over an index kills exactly the edges with that end that are meant.
pub kill_each-edges :
    (meant : DeltaEdge → Bool) (key : DeltaEdge → String) (name : String) (es : List DeltaEdge)
    (n : ℕ)
    → (kill_each meant (positions key name 0 es) es n).0
      ≡ map (die_if (λ e. key e == name && meant e)) es
kill_each-edges meant key name es n = kill_each-suffix meant key name [] es n
