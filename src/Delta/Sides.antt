-- ===== src/Delta/Sides.antt =====
-- The outgoing and the incoming side of the merged graph of src/delta.rs in one form, and the algebra
-- of the selections that a side is made of.
use orpheusgraph.Prelude.{
  ◌≡◌, refl, Bool, not, ◌&&◌, ◌||◌, String, List, [], ◌∷◌, ◌++◌, map, arith, ◌==◌, string_eq,
  if◌then◌else◌, filter,
}
use orpheusgraph.HashSet.{contains}
use orpheusgraph.IndexMap.{IndexMap}
use orpheusgraph.Types.{NodeData}
use orpheusgraph.Accessor.{GraphAccessor, NeighborView}
use orpheusgraph.Delta.Defs.{DeltaEdge, EdgeKey, GraphDelta}
use orpheusgraph.Delta.Mutators.{edge_key}
use orpheusgraph.Delta.View.{outgoing_view, incoming_view, outgoing_neighbors, incoming_neighbors}
use orpheusgraph.Delta.Index.{IsIndexed, select}
use orpheusgraph.Delta.Kills.{die_if}
use orpheusgraph.Delta.Merged.{unmasked, outgoing_neighbors-merged, incoming_neighbors-merged}

pub data Side : Type 0 where
  outgoing incoming : Side

-- Of an edge's two ends, the one whose neighbours are listed and the one that is listed.
abbrev pub near_of : Side → String → String → String
near_of outgoing from to = from
near_of incoming from to = to

abbrev pub far_of : Side → String → String → String
far_of outgoing from to = to
far_of incoming from to = from

abbrev pub near : Side → DeltaEdge → String
near s e = near_of s e.from e.to

abbrev pub far : Side → DeltaEdge → String
far s e = far_of s e.from e.to

abbrev pub view : Side → DeltaEdge → NeighborView
view outgoing e = outgoing_view e
view incoming e = incoming_view e

-- The triple of the base edge that a neighbour of `x` stands for.
abbrev pub triple : Side → String → NeighborView → EdgeKey
triple outgoing x nb = edge_key x nb.target_name nb.edge_kind
triple incoming x nb = edge_key nb.target_name x nb.edge_kind

abbrev pub base_neighbors : Side → GraphAccessor → String → List NeighborView
base_neighbors outgoing base x = base.outgoing_neighbors x
base_neighbors incoming base x = base.incoming_neighbors x

module _ ⦃im : IndexMap String NodeData⦄ where
  abbrev pub neighbors : Side → GraphAccessor → GraphDelta → String → List NeighborView
  neighbors outgoing base d x = outgoing_neighbors base d x
  neighbors incoming base d x = incoming_neighbors base d x

  abbrev pub hidden : Side → GraphDelta → DeltaEdge → Bool
  hidden s d e = e.dead || contains d.removed_nodes (far s e)

  unfoldable pub base_part : Side → GraphAccessor → GraphDelta → String → List NeighborView
  base_part s base d x = filter (unmasked d (triple s x)) (base_neighbors s base x)

  unfoldable pub delta_part : Side → GraphDelta → String → List NeighborView
  delta_part s d x = select (hidden s d) (view s) (near s) x d.added_edges

  pub neighbors-parts :
      (s : Side) (base : GraphAccessor) (d : GraphDelta) (x : String)
      → IsIndexed d
      → neighbors s base d x
        ≡ (if contains d.removed_nodes x then [] else (base_part s base d x ++ delta_part s d x))
  unfolding base_part delta_part
  neighbors-parts outgoing base d x h = outgoing_neighbors-merged base d x h
  neighbors-parts incoming base d x h = incoming_neighbors-merged base d x h

module _ (view : DeltaEdge → NeighborView) (key : DeltaEdge → String) (name : String) where
  pub select-append :
      (skip : DeltaEdge → Bool) (es : List DeltaEdge) (e : DeltaEdge)
      → select skip view key name (es ++ (e ∷ []))
        ≡ select skip view key name es
          ++ (if key e == name && not (skip e) then view e ∷ [] else [])
  select-append skip [] e = ground arith
  select-append skip (x ∷ es) e = ground (arith, select-append skip es e)

  pub select-ext :
      (skip skip' : DeltaEdge → Bool)
      → ((e : DeltaEdge) → (key e == name && not (skip e)) ≡ (key e == name && not (skip' e)))
      → (es : List DeltaEdge) → select skip view key name es ≡ select skip' view key name es
  select-ext skip skip' h [] = refl
  select-ext skip skip' h (e ∷ es) = ground (arith, h e, select-ext skip skip' h es)

  -- Edges that died are not seen.
  pub select-die :
      (veiled meant : DeltaEdge → Bool) (es : List DeltaEdge)
      → select (λ e. e.dead || veiled e) view key name (map (die_if meant) es)
        ≡ select (λ e. e.dead || (meant e || veiled e)) view key name es
  select-die veiled meant [] = refl
  select-die veiled meant (e ∷ es) = ground (arith, select-die veiled meant es)

  pub filter-select :
      (keep : NeighborView → Bool) (skip : DeltaEdge → Bool) (es : List DeltaEdge)
      → filter keep (select skip view key name es)
        ≡ select (λ e. skip e || not (keep (view e))) view key name es
  filter-select keep skip [] = refl
  filter-select keep skip (e ∷ es) = ground (arith, filter-select keep skip es)
