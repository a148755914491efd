-- ===== src/Scoring.antt =====
-- src/scoring.rs: the score of a node. The arithmetic of `f32` is a parameter.
use orpheusgraph.Prelude.{Bool, false, not, String, Option, none, some, if◌then◌else◌, string_eq}
use orpheusgraph.HashMap
use orpheusgraph.HashMap.{HashMap, find}
use orpheusgraph.HashSet.{contains}
use orpheusgraph.Types.{F32}
use orpheusgraph.Types.Context.{DynamicContext, is_nil}
use orpheusgraph.Accessor.{NodeView}

-- The operations of `f32` and the literals of the formula.
pub record Float : Type 0 where
  pub add : F32 → F32 → F32
  pub sub : F32 → F32 → F32
  pub mul : F32 → F32 → F32
  pub maximum : F32 → F32 → F32
  pub clamp : F32 → F32 → F32 → F32
  pub zero : F32
  pub one : F32
  pub nine_tenths : F32

pub record NodeResult : Type 0 where
  pub name : String
  pub kind : String
  pub weight : F32
  pub base_component : F32
  pub semantic_component : F32
  pub noise_component : F32
  pub bonus_component : F32

abbrev pub unwrap_or : Option F32 → F32 → F32
unwrap_or none a = a
unwrap_or (some b) a = b

module _ ⦃fl : Float⦄ where
  -- whether the node's domain is among the tags
  unfoldable pub is_noisy_domain : NodeView → DynamicContext → Bool
  is_noisy_domain node ctx =
      if not (is_nil ctx.noise_tags)
      then (elim (find "domain" node.metadata) [
        | none ↦ false
        | some domain ↦ contains ctx.noise_tags domain
      ])
      else false

  unfoldable pub compute_score : NodeView → DynamicContext → NodeResult
  compute_score node ctx =
      let base_component = fl.mul ctx.w_base node.base_weight in
      let semantic_boost = unwrap_or (HashMap.get ctx.semantic_boosts node.name) fl.zero in
      let semantic_component = fl.mul ctx.w_semantic semantic_boost in
      let weight_bonus = unwrap_or (HashMap.get ctx.weight_bonuses node.name) fl.zero in
      let bonus_component = fl.mul ctx.w_bonus weight_bonus in
      let clamped = fl.clamp (fl.mul ctx.w_noise node.noise_penalty) fl.zero fl.one in
      let effective_noise =
        if is_noisy_domain node ctx then fl.maximum clamped fl.nine_tenths else clamped in
      let raw = fl.add (fl.add base_component semantic_component) bonus_component in
      record {
        name = node.name;
        kind = node.kind;
        weight = fl.mul raw (fl.sub fl.one effective_noise);
        base_component = base_component;
        semantic_component = semantic_component;
        noise_component = effective_noise;
        bonus_component = bonus_component;
      }

-- `HashMap::from` of the five components
unfoldable pub explain_score : NodeResult → HashMap String F32
explain_score r =
    HashMap.insert
      (HashMap.insert
        (HashMap.insert
          (HashMap.insert (HashMap.insert HashMap.new "base" r.base_component) "semantic"
            r.semantic_component)
          "noise" r.noise_component)
        "bonus" r.bonus_component)
      "total" r.weight
