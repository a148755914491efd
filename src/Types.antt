-- ===== src/Types.antt =====
-- src/types.rs: the data of nodes and edges, the request context, and what it lets a query see.
-- A float is its 32 bits; a comparison of floats is a parameter.
pub mod Acl
pub mod Context
pub mod Visibility
use orpheusgraph.Prelude.{
  ℕ, Bool, true, false, ◌&&◌, ◌||◌, String, Option, none, some, List, [], ◌∷◌, ◌==◌, ltb, leb,
  if◌then◌else◌,
}

-- The 32 bits of an `f32`.
abbrev pub F32 : Type 0
F32 = ℕ

-- `HashMap<String, String>`, carried along and looked up only.
abbrev pub Metadata : Type 0
Metadata = List (String × String)

pub record NodeData : Type 0 where
  pub name : String
  pub kind : String
  pub metadata : Metadata
  pub base_weight : F32
  pub noise_penalty : F32
  pub pagerank_weight : F32

pub record EdgeData : Type 0 where
  pub kind : String
  pub field_name : Option String
  pub base_weight : F32
  pub valid_from : Option ℕ
  pub valid_to : Option ℕ
  pub acl : List String

pub record NodeInput : Type 0 where
  pub name : String
  pub kind : String
  pub metadata : Metadata
  pub base_weight : F32
  pub noise_penalty : F32

pub record EdgeInput : Type 0 where
  pub from : String
  pub to : String
  pub kind : String
  pub field_name : Option String
  pub base_weight : F32
  pub valid_from : Option ℕ
  pub valid_to : Option ℕ
  pub acl : List String
