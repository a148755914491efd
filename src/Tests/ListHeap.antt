-- ===== src/Tests/ListHeap.antt =====
-- A binary heap by a list: a push puts in front, a pop takes out an entry of least cost.
use orpheusgraph.Prelude.{
  ◌+◌, ◌≡◌, ◌≤◌, refl, Bool, Option, none, some, List, [], ◌∷◌, arith, Bool-cases, inl, inr,
  if◌then◌else◌, count, leb, subst,
}
use orpheusgraph.Traversal.Lists.{All}
use orpheusgraph.Traversal.Sort.{total_key}
use orpheusgraph.Traversal.Heap.{DijkstraEntry, BinaryHeap, HeapLaws}

-- the least entry and the others, from a first entry and more
unfoldable pub extract : DijkstraEntry → List DijkstraEntry → DijkstraEntry × List DijkstraEntry
extract e [] = (e, [])
extract e (f ∷ rest) =
    if leb (total_key e.cost) (total_key f.cost)
    then (let (m, others) = extract e rest in (m, f ∷ others))
    else (let (m, others) = extract f rest in (m, e ∷ others))

unfoldable pub take_least : List DijkstraEntry → Option (DijkstraEntry × List DijkstraEntry)
take_least [] = none
take_least (e ∷ rest) = some (extract e rest)

instance abbrev pub list_heap : BinaryHeap (List DijkstraEntry)
list_heap = record { new = []; push = λ h e. e ∷ h; pop = take_least }

count-extract :
    (p : DijkstraEntry → Bool) (e : DijkstraEntry) (rest : List DijkstraEntry)
    → (if p e then 1 else 0) + count p rest
      ≡ (if p (extract e rest).0 then 1 else 0) + count p (extract e rest).1
unfolding extract
count-extract p e [] = refl
count-extract p e (f ∷ rest) = elim (Bool-cases (leb (total_key e.cost) (total_key f.cost))) [
  | inl t ↦ rw (t, extract) (omega (arith, count-extract p e rest))
  | inr t ↦ rw (t, extract) (omega (arith, count-extract p f rest))
]

extract_least :
    (e : DijkstraEntry) (rest : List DijkstraEntry)
    → (total_key (extract e rest).0.cost ≤ total_key e.cost)
      × All (λ f. total_key (extract e rest).0.cost ≤ total_key f.cost) (extract e rest).1
unfolding extract
extract_least e [] = (omega arith, tt)
extract_least e (f ∷ rest) = elim (Bool-cases (leb (total_key e.cost) (total_key f.cost))) [
  | inl t ↦
      let (le, all) = extract_least e rest in rw (t, extract) (le, (ground (arith, le, t), all))
  | inr t ↦
      let (le, all) = extract_least f rest in
      rw (t, extract) (ground (arith, le, t), (ground (arith, le, t), all))
]

count_taken :
    (p : DijkstraEntry → Bool) (h : List DijkstraEntry) (e : DijkstraEntry)
    (rest : List DijkstraEntry)
    → take_least h ≡ some (e, rest)
    → count p h ≡ (if p e then 1 else 0) + count p rest
unfolding take_least
count_taken p [] e rest r = ground (arith, r)
count_taken p (f ∷ h) e rest r = ground (arith, count-extract p f h, r)

least_taken :
    (h : List DijkstraEntry) (e : DijkstraEntry) (rest : List DijkstraEntry)
    → take_least h ≡ some (e, rest)
    → All (λ f. total_key e.cost ≤ total_key f.cost) rest
unfolding take_least
least_taken [] e rest r = ground (arith, r)
least_taken (f ∷ h) e rest r =
    let same : extract f h ≡ (e, rest) = ground (arith, r) in
    subst (λ p. All (λ g. total_key p.0.cost ≤ total_key g.cost) p.1) same (extract_least f h).1

none_taken : (h : List DijkstraEntry) → take_least h ≡ none → h ≡ []
unfolding take_least
none_taken [] r = refl
none_taken (e ∷ h) r = ground (arith, r)

pub list_heap_laws : HeapLaws list_heap
list_heap_laws = record {
  into_vec = λ h. h;
  into_vec-new = refl;
  count-push = λ p h e. refl;
  pop_none = none_taken;
  count-pop = count_taken;
  pop_least = least_taken;
}
