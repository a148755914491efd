-- ===== src/Traversal/Subgraph/Top.antt =====
-- The seeds of `contextual_subgraph` of src/traversal.rs: the names of highest boost.
use Prim.Native.Nat.{min}
use mathlib.Core.List.{Perm}
use mathlib.Core.List.Perm
use orpheusgraph.Prelude.{
  ℕ, zero, suc, ◌≡◌, ◌≤◌, refl, sym, subst, ap, ◌∙◌, Bool, true, false, String, List, [], ◌∷◌, ◌++◌,
  map, take, drop, length, arith, Bool-cases, inl, inr,
}
use orpheusgraph.Types.{F32}
use orpheusgraph.Types.Context.{DynamicContext}
use orpheusgraph.Traversal.Lists.{All}
use orpheusgraph.Traversal.Sort.{
  total_key, insert_by, sort_by, length-sort_by, IsDescending, sort_by-IsDescending,
}
use orpheusgraph.Traversal.Subgraph.{boost_leb, seeds}

take-drop : {A : Type 0} (k : ℕ) (xs : List A) → take k xs ++ drop k xs ≡ xs
take-drop zero xs = refl
take-drop (suc k) [] = refl
take-drop (suc k) (x ∷ xs) = ap (λ l. x ∷ l) (take-drop k xs)

length-taken : {A : Type 0} (k : ℕ) (xs : List A) → length (take k xs) ≡ min k (length xs)
length-taken zero xs = ground arith
length-taken (suc k) [] = ground arith
length-taken (suc k) (x ∷ xs) = ground (arith, length-taken k xs)

insert_by-Perm :
    {A : Type 0} (leb : A → A → Bool) (x : A) (xs : List A) → Perm (insert_by leb x xs) (x ∷ xs)
unfolding insert_by
insert_by-Perm leb x [] = Perm.refl (x ∷ [])
insert_by-Perm leb x (y ∷ ys) = elim (Bool-cases (leb x y)) [
  | inl r ↦ rw (r, insert_by) (Perm.refl (x ∷ y ∷ ys))
  | inr r ↦
      rw (r, insert_by) (Perm.trans (Perm.cons y (insert_by-Perm leb x ys)) (Perm.swap x y ys))
]

sort_by-Perm : {A : Type 0} (leb : A → A → Bool) (xs : List A) → Perm (sort_by leb xs) xs
unfolding sort_by
sort_by-Perm leb [] = Perm.refl []
sort_by-Perm leb (x ∷ xs) =
    Perm.trans (insert_by-Perm leb x (sort_by leb xs)) (Perm.cons x (sort_by-Perm leb xs))

-- The names are those of `k` of the boosts, or of all where there are fewer, and none of the others is
-- higher than one of them.
pub record IsTop (k : ℕ) (boosts : List (String × F32)) (roots : List String) : Type 0 where
  pub chosen : List (String × F32)
  pub left : List (String × F32)
  pub named : roots ≡ map (λ p. p.0) chosen
  pub size : length chosen ≡ min k (length boosts)
  pub split : Perm (chosen ++ left) boosts
  pub highest : All (λ p. All (λ q. total_key q.1 ≤ total_key p.1) left) chosen

All-drop : {A : Type 0} (P : A → Type 0) (k : ℕ) (xs : List A) → All P xs → All P (drop k xs)
All-drop P zero xs h = h
All-drop P (suc k) [] h = tt
All-drop P (suc k) (x ∷ xs) (h, hs) = All-drop P k xs hs

descending_split :
    {A : Type 0} (key : A → ℕ) (k : ℕ) (xs : List A)
    → IsDescending key xs
    → All (λ p. All (λ q. key q ≤ key p) (drop k xs)) (take k xs)
descending_split key zero xs h = tt
descending_split key (suc k) [] h = tt
descending_split key (suc k) (x ∷ xs) (h, hs) =
    (All-drop (λ q. key q ≤ key x) k xs h, descending_split key k xs hs)

boost_follows : (x y : String × F32) → boost_leb x y ≡ true → total_key y.1 ≤ total_key x.1
unfolding boost_leb
boost_follows x y h = ground arith

boost_precedes : (x y : String × F32) → boost_leb x y ≡ false → total_key x.1 ≤ total_key y.1
unfolding boost_leb
boost_precedes x y h = ground arith

pub seeds-IsTop : (ctx : DynamicContext) (k : ℕ) → IsTop k ctx.semantic_boosts.pairs (seeds ctx k)
unfolding seeds
seeds-IsTop ctx k =
    let sorted = sort_by boost_leb ctx.semantic_boosts.pairs in
    record {
      chosen = take k sorted;
      left = drop k sorted;
      named = refl;
      size =
          length-taken k sorted ∙ ap (min k) (length-sort_by boost_leb ctx.semantic_boosts.pairs);
      split =
          subst (λ l. Perm l ctx.semantic_boosts.pairs) (sym (take-drop k sorted))
            (sort_by-Perm boost_leb ctx.semantic_boosts.pairs);
      highest =
          descending_split (λ p. total_key p.1) k sorted
            (sort_by-IsDescending boost_leb (λ p. total_key p.1) boost_follows boost_precedes
              ctx.semantic_boosts.pairs);
    }
