-- ===== src/Traversal/Path.antt =====
-- `find_path` of src/traversal.rs: Dijkstra's search with scores for lengths. `H` is the heap.
pub mod Route
pub mod Relax
pub mod Chain
pub mod Expand
pub mod Ends
pub mod Reconstruct
pub mod Pop
pub mod Answer
use orpheusgraph.Prelude.{
  ℕ, zero, suc, Bool, true, false, String, Option, none, some, List, [], ◌∷◌, ◌++◌, ◌==◌,
  if◌then◌else◌, string_eq,
}
use orpheusgraph.HashMap
use orpheusgraph.HashMap.{HashMap}
use orpheusgraph.Types.{F32}
use orpheusgraph.Types.Context.{DynamicContext}
use orpheusgraph.Accessor.{GraphAccessor}
use orpheusgraph.Scoring.{Float}
use orpheusgraph.Overlay.Defs.{
  FloatOrder, OverlayIndex, NeighborEntry, neighbors_with_overlay_indexed, build,
}
use orpheusgraph.Traversal.Score.{score_of}
use orpheusgraph.Traversal.Heap.{DijkstraEntry, BinaryHeap}

-- `a / b`, and the literal that keeps a score from being zero.
pub record FloatDivision : Type 0 where
  pub div : F32 → F32 → F32
  pub thousandth : F32

pub record PathStep : Type 0 where
  pub node : String
  pub edge_kind : String
  pub field_name : String
  pub direction : String

pub record ParentInfo : Type 0 where
  pub from : String
  pub edge_kind : String
  pub field_name : Option String

pub data PathOutcome : Type 0 where
  found : List PathStep → PathOutcome
  no_path out_of_fuel : PathOutcome

abbrev pub start_step : String → PathStep
start_step start = record { node = start; edge_kind = ""; field_name = ""; direction = "" }

-- `.unwrap_or_default()`
abbrev pub text_or_empty : Option String → String
text_or_empty none = ""
text_or_empty (some s) = s

abbrev pub outgoing_step : String → ParentInfo → PathStep
outgoing_step current info = record {
  node = current;
  edge_kind = info.edge_kind;
  field_name = text_or_empty info.field_name;
  direction = "outgoing";
}

unfoldable pub reverse : List PathStep → List PathStep
reverse [] = []
reverse (x ∷ xs) = reverse xs ++ (x ∷ [])

-- The `while` of `reconstruct_path`, on fuel: `none` where the fuel is used up.
unfoldable pub walk_back :
    HashMap String ParentInfo → String → ℕ → String → List PathStep → Option (List PathStep)
walk_back parent start zero current path = none
walk_back parent start (suc fuel) current path = elim (current == start) [
  | true ↦ some path
  | false ↦ elim (HashMap.get parent current) [
    | none ↦ some path
    | some info ↦ walk_back parent start fuel info.from (path ++ (outgoing_step current info ∷ []))
  ]
]

unfoldable pub reconstruct_path : ℕ → String → String → HashMap String ParentInfo → PathOutcome
reconstruct_path fuel start end parent = elim (walk_back parent start fuel end []) [
  | none ↦ out_of_fuel
  | some steps ↦ found (reverse (steps ++ (start_step start ∷ [])))
]

pub record Search (H : Type 0) : Type 0 where
  pub dist : HashMap String F32
  pub parent : HashMap String ParentInfo
  pub heap : H

module _ ⦃fl : Float⦄ ⦃fd : FloatDivision⦄ (graph : GraphAccessor) (ctx : DynamicContext)
    (overlay : OverlayIndex) where
  unfoldable pub edge_cost : String → F32
  edge_cost name =
      let target_score : F32 = elim (score_of graph ctx overlay name) [
        | some result ↦ result.weight
        | none ↦ fd.thousandth
      ] in
      fd.div fl.one (fl.maximum target_score fd.thousandth)

module _ {H : Type 0} ⦃fo : FloatOrder⦄ where
  unfoldable pub is_better : Search H → String → F32 → Bool
  is_better s name new_cost = elim (HashMap.get s.dist name) [
    | none ↦ true
    | some existing ↦ fo.gt existing new_cost
  ]

  -- whether a shorter way was found since the entry was pushed
  unfoldable pub is_stale : Search H → DijkstraEntry → Bool
  is_stale s e = elim (HashMap.get s.dist e.node) [ none ↦ false | some best ↦ fo.gt e.cost best ]

module _ {H : Type 0} ⦃fl : Float⦄ ⦃fo : FloatOrder⦄ ⦃fd : FloatDivision⦄ ⦃bh : BinaryHeap H⦄
    (graph : GraphAccessor) (ctx : DynamicContext) (overlay : OverlayIndex) where
  -- one neighbour of the node that was taken from the heap
  unfoldable pub relax : String → F32 → Search H → NeighborEntry → Search H
  relax node cost s neighbor =
      let new_cost = fl.add cost (edge_cost graph ctx overlay neighbor.name) in
      if is_better s neighbor.name new_cost
      then record {
        dist = HashMap.insert s.dist neighbor.name new_cost;
        parent = HashMap.insert s.parent neighbor.name (record {
          from = node;
          edge_kind = neighbor.edge_kind;
          field_name = neighbor.field_name;
        });
        heap = bh.push s.heap (record { cost = new_cost; node = neighbor.name });
      }
      else s

  unfoldable pub relax_each : String → F32 → List NeighborEntry → Search H → Search H
  relax_each node cost [] s = s
  relax_each node cost (neighbor ∷ neighbors) s =
      relax_each node cost neighbors (relax node cost s neighbor)

  -- The `while` loop, with `limit` rounds for the walk back.
  unfoldable pub search : String → String → ℕ → ℕ → Search H → PathOutcome
  search start end limit zero s = out_of_fuel
  search start end limit (suc fuel) s = elim (bh.pop s.heap) [
    | none ↦ no_path
    | some (e, heap) ↦ elim (e.node == end) [
      | true ↦ reconstruct_path limit start end s.parent
      | false ↦ elim (is_stale s e) [
        | true ↦ search start end limit fuel (record s { heap = heap })
        | false ↦ search start end limit fuel (
            relax_each e.node e.cost (neighbors_with_overlay_indexed graph ctx overlay e.node)
              (record s { heap = heap }))
      ]
    ]
  ]

module _ (H : Type 0) ⦃fl : Float⦄ ⦃fo : FloatOrder⦄ ⦃fd : FloatDivision⦄ ⦃bh : BinaryHeap H⦄ where
  unfoldable pub start_search : String → Search H
  start_search start = record {
    dist = HashMap.insert HashMap.new start fl.zero;
    parent = HashMap.new;
    heap = bh.push bh.new (record { cost = fl.zero; node = start });
  }

  unfoldable pub find_path : ℕ → GraphAccessor → DynamicContext → String → String → PathOutcome
  find_path fuel graph ctx start end =
      let overlay = build ctx in
      elim (start == end) [
        | true ↦ found (start_step start ∷ [])
        | false ↦ search graph ctx overlay start end fuel fuel (start_search start)
      ]
