-- ===== src/Types/Context.antt =====
-- The per-request context of src/types.rs and the visibility of an edge in it.
use orpheusgraph.Prelude.{
  ℕ, Bool, true, false, not, ◌&&◌, ◌||◌, String, Option, none, some, List, [], ◌∷◌, leb, ltb,
  if◌then◌else◌, ◌==◌, string_eq,
}
use orpheusgraph.HashMap.{HashMap}
use orpheusgraph.Types.{NodeData, EdgeData, F32}

pub record DynamicContext : Type 0 where
  pub semantic_boosts : HashMap String F32
  pub overlay_nodes : List NodeData
  pub overlay_edges : List (String × (String × EdgeData))
  pub weight_bonuses : HashMap String F32
  pub w_base : F32
  pub w_semantic : F32
  pub w_noise : F32
  pub w_bonus : F32
  pub noise_tags : List String
  pub max_fan_out : Option ℕ
  pub fan_out_pagerank_bypass : Option F32
  pub as_of : Option ℕ
  pub principals : List String

-- `Option::is_none_or`
abbrev pub is_none_or {ℓ} : {A : Type ℓ} → Option A → (A → Bool) → Bool
is_none_or none p = true
is_none_or (some a) p = p a

-- `.iter().any(p)`
abbrev pub any {ℓ} : {A : Type ℓ} → (A → Bool) → List A → Bool
any p [] = false
any p (x ∷ xs) = p x || any p xs

-- `.is_empty()`
abbrev pub is_nil {ℓ} : {A : Type ℓ} → List A → Bool
is_nil [] = true
is_nil (x ∷ xs) = false

unfoldable pub temporal_ok : Option ℕ → Option ℕ → Option ℕ → Bool
temporal_ok none valid_from valid_to = true
temporal_ok (some t) valid_from valid_to =
    is_none_or valid_from (λ vf. leb vf t) && is_none_or valid_to (λ vt. ltb t vt)

unfoldable pub is_edge_visible : DynamicContext → Option ℕ → Option ℕ → List String → Bool
is_edge_visible ctx valid_from valid_to acl =
    if not (temporal_ok ctx.as_of valid_from valid_to)
    then false
    else is_nil acl || any (λ tag. any (λ p. p == tag) ctx.principals) acl
