-- ===== src/Delta/Index.antt =====
-- What the two position indexes of the overlay of src/delta.rs are to hold: for a name, the positions
-- of the edges with that end, in insertion order.
use orpheusgraph.Prelude.{
  ℕ, zero, suc, ◌+◌, ◌≡◌, refl, Bool, not, ◌&&◌, String, some, List, [], ◌∷◌, ◌++◌, map, arith,
  append_assoc, ◌==◌, string_eq, if◌then◌else◌, length, get_elem?, set, filter, length-snoc,
  get_elem?-length,
}
use orpheusgraph.HashMap.{get_or_empty}
use orpheusgraph.IndexMap.{IndexMap}
use orpheusgraph.Types.{NodeData}
use orpheusgraph.Accessor.{NeighborView}
use orpheusgraph.Delta.Defs.{DeltaEdge, GraphDelta}
use orpheusgraph.Delta.View.{push_each}

-- The positions, counted from `k`, of the edges whose end `key` is `name`.
unfoldable pub positions : (DeltaEdge → String) → String → ℕ → List DeltaEdge → List ℕ
positions key name k [] = []
positions key name k (e ∷ es) =
    let rest = positions key name (suc k) es in if key e == name then k ∷ rest else rest

pub positions-append :
    (key : DeltaEdge → String) (name : String) (k : ℕ) (es : List DeltaEdge) (e : DeltaEdge)
    → positions key name k (es ++ (e ∷ [])) ≡ (
        if key e == name
        then positions key name k es ++ ((k + length es) ∷ [])
        else positions key name k es)
unfolding positions
positions-append key name k [] e = ground arith
positions-append key name k (x ∷ es) e = ground (arith, positions-append key name (suc k) es e)

-- Marking an edge dead moves no position.
pub positions-set :
    (key : DeltaEdge → String) (name : String) (k p : ℕ) (es : List DeltaEdge) (e e' : DeltaEdge)
    → get_elem? es p ≡ some e
    → key e' ≡ key e
    → positions key name k (set es p e') ≡ positions key name k es
unfolding positions
positions-set key name k p [] e e' h q = refl
positions-set key name k zero (x ∷ es) e e' h q = ground arith
positions-set key name k (suc p) (x ∷ es) e e' h q =
    ground (arith, positions-set key name (suc k) p es e e' h q)

-- What a walk over the index must give.
abbrev pub select :
    (DeltaEdge → Bool)
    → (DeltaEdge → NeighborView)
    → (DeltaEdge → String)
    → String
    → List DeltaEdge
    → List NeighborView
select skip view key name es = map view (filter (λ e. key e == name && not (skip e)) es)

push_each-suffix :
    (skip : DeltaEdge → Bool) (view : DeltaEdge → NeighborView) (key : DeltaEdge → String)
    (name : String) (pre es : List DeltaEdge)
    → push_each skip view (pre ++ es) (positions key name (length pre) es)
      ≡ select skip view key name es
unfolding push_each positions
push_each-suffix skip view key name pre [] = refl
push_each-suffix skip view key name pre (e ∷ es) = ground (
  arith,
  get_elem?-length pre e es,
  simp (append_assoc, length-snoc) at (push_each-suffix skip view key name (pre ++ (e ∷ [])) es),
)

pub push_each-positions :
    (skip : DeltaEdge → Bool) (view : DeltaEdge → NeighborView) (key : DeltaEdge → String)
    (name : String) (es : List DeltaEdge)
    → push_each skip view es (positions key name 0 es) ≡ select skip view key name es
push_each-positions skip view key name es = push_each-suffix skip view key name [] es

module _ ⦃im : IndexMap String NodeData⦄ where
  pub record IsIndexed (d : GraphDelta) : Type 0 where
    pub out_indexed :
        (name : String)
        → get_or_empty d.out_index name ≡ positions (λ e. e.from) name 0 d.added_edges
    pub in_indexed :
        (name : String) → get_or_empty d.in_index name ≡ positions (λ e. e.to) name 0 d.added_edges
