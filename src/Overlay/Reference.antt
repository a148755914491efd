-- ===== src/Overlay/Reference.antt =====
-- The index of src/overlay.rs against scans of the request's lists.
use orpheusgraph.Prelude.{
  ◌≡◌, refl, sym, ap, ◌∙◌, false, String, Option, none, some, List, [], ◌∷◌, ◌++◌, filter, map,
  if◌then◌else◌, ◌==◌, string_eq, Bool-cases, inl, inr, arith, append_assoc, append-nil,
}
use orpheusgraph.HashMap
use orpheusgraph.HashMap.{
  HashMap, get_or_empty, push_at, get_or_empty-push_at, get_or_empty-new, get-insert, get-new,
}
use orpheusgraph.HashSet.{contains, Distinct}
use orpheusgraph.Types.{NodeData}
use orpheusgraph.Types.Context.{DynamicContext}
use orpheusgraph.Overlay.Defs.{
  OverlayEdge, index_edges, index_nodes, build, edges_from, find_node, as_view,
  resolve_overlay_node, resolve_overlay_node_indexed,
}

-- the edges of the request that leave `name`, in the request's order
abbrev pub leaving : String → List OverlayEdge → List OverlayEdge
leaving name es = filter (λ e. e.0 == name) es

index_edges_lem :
    (name : String) (es : List OverlayEdge) (m : HashMap String (List OverlayEdge))
    → get_or_empty (index_edges es m) name ≡ get_or_empty m name ++ leaving name es
unfolding index_edges
index_edges_lem name [] m = sym (append-nil (get_or_empty m name))
index_edges_lem name (e ∷ es) m =
    index_edges_lem name es (push_at m e.0 e)
    ∙ ground (
      arith,
      get_or_empty-push_at m e.0 e name,
      append_assoc (get_or_empty m name) (e ∷ []) (leaving name es),
    )

-- the last node of the request with the name, or what the index had
abbrev last_named : String → List NodeData → Option NodeData → Option NodeData
last_named name [] o = o
last_named name (n ∷ ns) o = last_named name ns (if n.name == name then some n else o)

index_nodes_lem :
    (name : String) (ns : List NodeData) (m : HashMap String NodeData)
    → HashMap.get (index_nodes ns m) name ≡ last_named name ns (HashMap.get m name)
unfolding index_nodes
index_nodes_lem name [] m = refl
index_nodes_lem name (n ∷ ns) m =
    index_nodes_lem name ns (HashMap.insert m n.name n)
    ∙ ap (last_named name ns) (get-insert m n.name n name)

abbrev pub names : List NodeData → List String
names ns = map (λ n. n.name) ns

last_absent :
    (name : String) (ns : List NodeData) (o : Option NodeData)
    → contains (names ns) name ≡ false
    → last_named name ns o ≡ o
unfolding contains
last_absent name [] o h = refl
last_absent name (n ∷ ns) o h = ground (arith, h, last_absent name ns o (ground (arith, h)))

last-find_node :
    (name : String) (ns : List NodeData)
    → Distinct (names ns)
    → last_named name ns none ≡ find_node name ns
unfolding find_node
last-find_node name [] h = refl
last-find_node name (n ∷ ns) (fresh, h) = elim (Bool-cases (n.name == name)) [
  | inl r ↦
      let e : n.name ≡ name = (string_eq.beq_iff n.name name).0 r in
      rw r (last_absent name ns (some n) (ap (contains (names ns)) (sym e) ∙ fresh))
  | inr r ↦ rw r (last-find_node name ns h)
]

pub edges_from-build :
    (ctx : DynamicContext) (name : String)
    → edges_from (build ctx) name ≡ leaving name ctx.overlay_edges
unfolding edges_from build
edges_from-build ctx name =
    index_edges_lem name ctx.overlay_edges HashMap.new
    ∙ ap (λ l. l ++ leaving name ctx.overlay_edges) (get_or_empty-new name)

-- A node found through the index is the last one of the request with its name.
get_node-build :
    (ctx : DynamicContext) (name : String)
    → HashMap.get (build ctx).nodes name ≡ last_named name ctx.overlay_nodes none
unfolding build
get_node-build ctx name =
    index_nodes_lem name ctx.overlay_nodes HashMap.new
    ∙ ap (last_named name ctx.overlay_nodes) (get-new name)

-- Where no name is given twice, both lookups of an overlay node give the same view.
pub resolve_overlay_node-build :
    (ctx : DynamicContext) (name : String)
    → Distinct (names ctx.overlay_nodes)
    → resolve_overlay_node_indexed name (build ctx) ≡ resolve_overlay_node name ctx
unfolding resolve_overlay_node_indexed resolve_overlay_node
resolve_overlay_node-build ctx name h =
    ap as_view (get_node-build ctx name ∙ last-find_node name ctx.overlay_nodes h)
