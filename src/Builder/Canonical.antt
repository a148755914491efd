-- ===== src/Builder/Canonical.antt =====
-- The inputs of src/builder.rs deduplicated and sorted: what a name stands for afterwards.
use orpheusgraph.Prelude.{
  ℕ, zero, suc, ◌≡◌, refl, subst, sym, ap, Bool, false, String, Option, none, some, List, [], ◌∷◌,
  ◌++◌, map, length, set, if◌then◌else◌, arith, Option-cases, inl, inr, ◌==◌, string_eq, ◌∙◌,
}
use orpheusgraph.HashMap
use orpheusgraph.HashMap.{HashMap, get-insert, get-new}
use orpheusgraph.HashSet.{contains, Distinct}
use orpheusgraph.Types.{NodeInput}
use orpheusgraph.Traversal.Lists.{Distinct-append}
use orpheusgraph.Traversal.Sort.{sort_by, insert_by, contains-sort_by, sort_by-Distinct}
use orpheusgraph.Builder.{dedup_from, canonical_nodes, input_leb}

abbrev pub names : List NodeInput → List String
names ns = map (λ n. n.name) ns

unfoldable pub named : String → List NodeInput → Option NodeInput
named x [] = none
named x (n ∷ ns) = if n.name == x then some n else named x ns

-- the last input of a name, `before` where there is none
unfoldable pub last_named : String → Option NodeInput → List NodeInput → Option NodeInput
last_named x before [] = before
last_named x before (n ∷ ns) = last_named x (if n.name == x then some n else before) ns

abbrev later : Option ℕ → Option ℕ
later none = none
later (some i) = some (suc i)

unfoldable place : String → List NodeInput → Option ℕ
place x [] = none
place x (n ∷ ns) = if n.name == x then some 0 else later (place x ns)

abbrev or_else {ℓ} : {A : Type ℓ} → Option A → Option A → Option A
or_else none b = b
or_else (some a) b = some a

place-append :
    (x : String) (ds : List NodeInput) (n : NodeInput)
    → place x (ds ++ (n ∷ []))
      ≡ or_else (place x ds) (if n.name == x then some (length ds) else none)
unfolding place
place-append x [] n = ground arith
place-append x (d ∷ ds) n = ground (arith, place-append x ds n)

named-append :
    (x : String) (ds : List NodeInput) (n : NodeInput)
    → place n.name ds ≡ none
    → named x (ds ++ (n ∷ [])) ≡ (if n.name == x then some n else named x ds)
unfolding named place
named-append x [] n h = refl
named-append x (d ∷ ds) n h = ground (
  arith,
  named-append x ds n,
  h,
  string_eq.beq_iff d.name n.name,
  string_eq.beq_iff d.name x,
  string_eq.beq_iff n.name x,
)

contains-place :
    (x : String) (ds : List NodeInput) → place x ds ≡ none → contains (names ds) x ≡ false
unfolding place contains
contains-place x [] h = refl
contains-place x (d ∷ ds) h =
    ground (arith, contains-place x ds, h, string_eq.beq_iff d.name x, string_eq.beq_iff x d.name)

-- the input at the place of its name is replaced
module _ (n : NodeInput) where
  names-set :
      (ds : List NodeInput) (p : ℕ) → place n.name ds ≡ some p → names (set ds p n) ≡ names ds
  unfolding place
  names-set [] p h = refl
  names-set (d ∷ ds) zero h = ground (arith, h, string_eq.beq_iff d.name n.name)
  names-set (d ∷ ds) (suc p) h = ground (arith, h, names-set ds p, string_eq.beq_iff d.name n.name)

  place-set :
      (x : String) (ds : List NodeInput) (p : ℕ)
      → place n.name ds ≡ some p
      → place x (set ds p n) ≡ place x ds
  unfolding place
  place-set x [] p h = refl
  place-set x (d ∷ ds) zero h = ground (arith, h, string_eq.beq_iff d.name n.name)
  place-set x (d ∷ ds) (suc p) h =
      ground (arith, h, place-set x ds p, string_eq.beq_iff d.name n.name)

  named-set :
      (x : String) (ds : List NodeInput) (p : ℕ)
      → place n.name ds ≡ some p
      → named x (set ds p n) ≡ (if n.name == x then some n else named x ds)
  unfolding place named
  named-set x [] p h = ground (arith, h)
  named-set x (d ∷ ds) zero h = ground (arith, h, string_eq.beq_iff d.name n.name)
  named-set x (d ∷ ds) (suc p) h = ground (
    arith,
    h,
    named-set x ds p,
    string_eq.beq_iff d.name n.name,
    string_eq.beq_iff d.name x,
    string_eq.beq_iff n.name x,
  )

-- what the map of the loop says of its list
record IsPlaced (ds : List NodeInput) (name_pos : HashMap String ℕ) : Type 0 where
  pub places : (x : String) → HashMap.get name_pos x ≡ place x ds
  pub distinct : Distinct (names ds)

IsPlaced-set :
    (n : NodeInput) (ds : List NodeInput) (m : HashMap String ℕ) (p : ℕ)
    → IsPlaced ds m
    → place n.name ds ≡ some p
    → IsPlaced (set ds p n) m
IsPlaced-set n ds m p h at = record {
  places = λ x. h.places x ∙ sym (place-set n x ds p at);
  distinct = subst Distinct (sym (names-set n ds p at)) h.distinct;
}

names-append :
    (ds : List NodeInput) (n : NodeInput) → names (ds ++ (n ∷ [])) ≡ names ds ++ (n.name ∷ [])
names-append [] n = refl
names-append (d ∷ ds) n = ap (λ l. d.name ∷ l) (names-append ds n)

IsPlaced-append :
    (n : NodeInput) (ds : List NodeInput) (m : HashMap String ℕ)
    → IsPlaced ds m
    → place n.name ds ≡ none
    → IsPlaced (ds ++ (n ∷ [])) (HashMap.insert m n.name (length ds))
unfolding contains
IsPlaced-append n ds m h at = record {
  places = λ x.
      let got : HashMap.get m x ≡ place x ds = h.places x in
      ground (
        arith,
        get-insert m n.name (length ds) x,
        got,
        place-append x ds n,
        at,
        string_eq.beq_iff n.name x,
      );
  distinct = subst Distinct (sym (names-append ds n)) (
      Distinct-append (names ds) (n.name ∷ []) h.distinct (refl, tt)
        (λ a e.
          subst (λ x. contains (names ds) x ≡ false)
            ((string_eq.beq_iff n.name a).0 (ground (arith, e))) (contains-place n.name ds at)));
}

named-dedup_from :
    (nodes ds : List NodeInput) (m : HashMap String ℕ)
    → IsPlaced ds m
    → Distinct (names (dedup_from nodes ds m))
      × ((x : String) → named x (dedup_from nodes ds m) ≡ last_named x (named x ds) nodes)
unfolding dedup_from last_named
named-dedup_from [] ds m h = (h.distinct, λ x. refl)
named-dedup_from (n ∷ nodes) ds m h = elim (Option-cases (HashMap.get m n.name)) [
  | inr (p, r) ↦
      let at : place n.name ds ≡ some p = sym (h.places n.name) ∙ r in
      let (d, l) = named-dedup_from nodes (set ds p n) m (IsPlaced-set n ds m p h at) in
      rw (r, dedup_from) (d, λ x. l x ∙ ap (λ o. last_named x o nodes) (named-set n x ds p at))
  | inl r ↦
      let at : place n.name ds ≡ none = sym (h.places n.name) ∙ r in
      let (d, l) =
        named-dedup_from nodes (ds ++ (n ∷ [])) (HashMap.insert m n.name (length ds))
          (IsPlaced-append n ds m h at) in
      rw (r, dedup_from) (d, λ x. l x ∙ ap (λ o. last_named x o nodes) (named-append x ds n at))
]

named-insert_by :
    (leb : NodeInput → NodeInput → Bool) (x : String) (n : NodeInput) (ns : List NodeInput)
    → contains (names ns) n.name ≡ false
    → named x (insert_by leb n ns) ≡ (if n.name == x then some n else named x ns)
unfolding insert_by named contains
named-insert_by leb x n [] h = refl
named-insert_by leb x n (d ∷ ns) h = ground (
  arith,
  h,
  named-insert_by leb x n ns,
  string_eq.beq_iff d.name n.name,
  string_eq.beq_iff n.name d.name,
  string_eq.beq_iff d.name x,
  string_eq.beq_iff n.name x,
)

named-sort_by :
    (leb : NodeInput → NodeInput → Bool) (x : String) (ns : List NodeInput)
    → Distinct (names ns)
    → named x (sort_by leb ns) ≡ named x ns
unfolding sort_by named
named-sort_by leb x [] d = refl
named-sort_by leb x (n ∷ ns) (h, d) = ground (
  arith,
  named-insert_by leb x n (sort_by leb ns) (contains-sort_by leb (λ m. m.name) ns n.name ∙ h),
  named-sort_by leb x ns d,
)

pub canonical_nodes-Distinct :
    (nodes : List NodeInput)
    → Distinct (names (canonical_nodes nodes))
      × ((x : String) → named x (canonical_nodes nodes) ≡ last_named x none nodes)
unfolding canonical_nodes named place
canonical_nodes-Distinct nodes =
    let start : IsPlaced [] HashMap.new = record { places = λ x. get-new x; distinct = tt } in
    let (d, l) = named-dedup_from nodes [] HashMap.new start in
    (
      sort_by-Distinct input_leb (λ n. n.name) (dedup_from nodes [] HashMap.new) d,
      λ x. named-sort_by input_leb x (dedup_from nodes [] HashMap.new) d ∙ l x,
    )
