-- ===== src/Traversal/Heap.antt =====
-- `std::collections::BinaryHeap` under the order of `DijkstraEntry` in src/traversal.rs: the entry of
-- least cost is the greatest.
use orpheusgraph.Prelude.{
  ◌+◌, ◌≡◌, ◌≤◌, Bool, String, Option, none, some, List, [], if◌then◌else◌, count,
}
use orpheusgraph.Types.{F32}
use orpheusgraph.Traversal.Lists.{All}
use orpheusgraph.Traversal.Sort.{total_key}

pub record DijkstraEntry : Type 0 where
  pub cost : F32
  pub node : String

pub record BinaryHeap (H : Type 0) : Type 0 where
  pub new : H
  pub push : H → DijkstraEntry → H
  pub pop : H → Option (DijkstraEntry × H)

-- What the documentation says of the heap: `into_vec` lists what it holds, in some order, and `pop`
-- takes out an entry that no other is greater than.
pub record HeapLaws {H : Type 0} (bh : BinaryHeap H) : Type 0 where
  pub into_vec : H → List DijkstraEntry
  pub into_vec-new : into_vec bh.new ≡ []
  pub count-push :
      (p : DijkstraEntry → Bool) (h : H) (e : DijkstraEntry)
      → count p (into_vec (bh.push h e)) ≡ (if p e then 1 else 0) + count p (into_vec h)
  pub pop_none : (h : H) → bh.pop h ≡ none → into_vec h ≡ []
  pub count-pop :
      (p : DijkstraEntry → Bool) (h : H) (e : DijkstraEntry) (rest : H)
      → bh.pop h ≡ some (e, rest)
      → count p (into_vec h) ≡ (if p e then 1 else 0) + count p (into_vec rest)
  pub pop_least :
      (h : H) (e : DijkstraEntry) (rest : H)
      → bh.pop h ≡ some (e, rest)
      → All (λ f. total_key e.cost ≤ total_key f.cost) (into_vec rest)
