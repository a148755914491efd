-- ===== src/Delta/Defs.antt =====
-- The data of src/delta.rs: operations, errors, the edges of the overlay and the overlay itself.
use orpheusgraph.Prelude.{
  ℕ, ◌≡◌, ◌↔◌, Bool, true, ◌&&◌, String, List, [], arith, Eq, ◌==◌, string_eq,
}
use orpheusgraph.HashMap
use orpheusgraph.HashMap.{HashMap}
use orpheusgraph.IndexMap.{IndexMap}
use orpheusgraph.Types.{NodeData, EdgeData}

pub data Op : Type 0 where
  upsert_node : NodeData → Op
  remove_node : String → Op
  add_edge : (from to : String) → EdgeData → Op
  remove_edge : (from to kind : String) → Op

pub data DeltaError : Type 0 where
  missing_endpoint : (op_index : ℕ) (from to endpoint : String) (tombstoned : Bool) → DeltaError
  invalid_edge_validity : (op_index : ℕ) (from to : String) (valid_from valid_to : ℕ) → DeltaError

pub record DeltaEdge : Type 0 where
  pub from : String
  pub to : String
  pub edge : EdgeData
  pub dead : Bool

-- `(from, to, kind)`, the key of an edge tombstone.
pub record EdgeKey : Type 0 where
  pub from : String
  pub to : String
  pub kind : String

abbrev pub key_beq : EdgeKey → EdgeKey → Bool
key_beq a b = a.from == b.from && a.to == b.to && a.kind == b.kind

pub key_beq_iff : (a b : EdgeKey) → (key_beq a b ≡ true) ↔ (a ≡ b)
key_beq_iff a b = ground (
  arith,
  string_eq.beq_iff a.from b.from,
  string_eq.beq_iff a.to b.to,
  string_eq.beq_iff a.kind b.kind,
)

instance abbrev pub key_eq : Eq EdgeKey
key_eq = record { beq = key_beq; beq_iff = key_beq_iff }

module _ ⦃im : IndexMap String NodeData⦄ where
  pub record GraphDelta : Type 0 where
    pub added_nodes : im.Map
    pub added_edges : List DeltaEdge
    pub removed_nodes : List String
    pub removed_edges : List EdgeKey
    pub out_index : HashMap String (List ℕ)
    pub in_index : HashMap String (List ℕ)
    pub tombstone_base_hits : ℕ
    pub added_non_base : ℕ
    pub masked_base_edge_count : ℕ
    pub live_delta_edge_count : ℕ

  -- `GraphDelta::new`
  abbrev pub new : GraphDelta
  new = record {
    added_nodes = im.default;
    added_edges = [];
    removed_nodes = [];
    removed_edges = [];
    out_index = HashMap.new;
    in_index = HashMap.new;
    tombstone_base_hits = 0;
    added_non_base = 0;
    masked_base_edge_count = 0;
    live_delta_edge_count = 0;
  }
