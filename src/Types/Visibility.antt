-- ===== src/Types/Visibility.antt =====
-- What `DynamicContext::is_edge_visible` of src/types.rs lets through.
use orpheusgraph.Prelude.{
  ℕ, ◌≡◌, ◌≤◌, ◌<◌, refl, ◌↔◌, ◌⊎◌, inl, inr, true, String, Option, none, some, List, [], ◌∷◌, ◌==◌,
  string_eq, arith, Bool-cases,
}
use orpheusgraph.HashSet.{contains}
use orpheusgraph.Types.Context.{DynamicContext, any, temporal_ok, is_edge_visible}

-- a window `[valid_from, valid_to)` and an instant, where one is asked for
pub IsOpenAt : Option ℕ → Option ℕ → Option ℕ → Type 0
IsOpenAt none valid_from valid_to = Unit
IsOpenAt (some t) valid_from valid_to =
    ((vf : ℕ) → valid_from ≡ some vf → vf ≤ t) × ((vt : ℕ) → valid_to ≡ some vt → t < vt)

-- a tag that the principals hold
pub IsShared : List String → List String → Type 0
IsShared principals acl =
    (tag : String) × ((contains principals tag ≡ true) × (contains acl tag ≡ true))

temporal_ok_lem :
    (as_of valid_from valid_to : Option ℕ)
    → (temporal_ok as_of valid_from valid_to ≡ true) ↔ IsOpenAt as_of valid_from valid_to
unfolding temporal_ok IsOpenAt
temporal_ok_lem none valid_from valid_to = (λ h. tt, λ h. refl)
temporal_ok_lem (some t) none none =
    (λ h. (λ vf e. ground (arith, e), λ vt e. ground (arith, e)), λ h. refl)
temporal_ok_lem (some t) (some vf) none = (
  λ h. (λ v e. ground (arith, e, h), λ vt e. ground (arith, e)),
  λ h. ground (arith, h.0 vf refl),
)
temporal_ok_lem (some t) none (some vt) = (
  λ h. (λ vf e. ground (arith, e), λ v e. ground (arith, e, h)),
  λ h. ground (arith, h.1 vt refl),
)
temporal_ok_lem (some t) (some vf) (some vt) = (
  λ h. (λ v e. ground (arith, e, h), λ v e. ground (arith, e, h)),
  λ h. ground (arith, h.0 vf refl, h.1 vt refl),
)

any-contains :
    (principals : List String) (tag : String)
    → any (λ p. p == tag) principals ≡ contains principals tag
unfolding contains
any-contains [] tag = refl
any-contains (p ∷ ps) tag = ground (arith, any-contains ps tag)

any-IsShared :
    (principals acl : List String)
    → any (λ tag. any (λ p. p == tag) principals) acl ≡ true
    → IsShared principals acl
unfolding IsShared contains
any-IsShared principals [] h = ground (arith, h)
any-IsShared principals (tag ∷ acl) h = elim (Bool-cases (any (λ p. p == tag) principals)) [
  | inl r ↦ (
    tag,
    (ground (arith, any-contains principals tag, r), ground (arith, string_eq.beq_iff tag tag)),
  )
  | inr r ↦
      let (t, (held, there)) = any-IsShared principals acl (ground (arith, h, r)) in
      (t, (held, ground (arith, there)))
]

shared_any :
    (principals acl : List String) (tag : String)
    → contains principals tag ≡ true
    → contains acl tag ≡ true
    → any (λ tag. any (λ p. p == tag) principals) acl ≡ true
unfolding contains
shared_any principals [] tag held there = ground (arith, there)
shared_any principals (t ∷ acl) tag held there = elim (Bool-cases (t == tag)) [
  | inl r ↦ rw ((string_eq.beq_iff t tag).0 r) (ground (arith, any-contains principals tag, held))
  | inr r ↦ ground (arith, shared_any principals acl tag held (ground (arith, there, r)))
]

-- An edge is visible exactly when the instant that is asked for, if any, lies in its half-open window
-- and its tags are empty or share one with the principals.
pub is_edge_visible_lem :
    (ctx : DynamicContext) (valid_from valid_to : Option ℕ) (acl : List String)
    → (is_edge_visible ctx valid_from valid_to acl ≡ true)
      ↔ (IsOpenAt ctx.as_of valid_from valid_to × ((acl ≡ []) ⊎ IsShared ctx.principals acl))
unfolding is_edge_visible IsShared
is_edge_visible_lem ctx valid_from valid_to [] =
    let open_at = temporal_ok_lem ctx.as_of valid_from valid_to in
    (λ h. (open_at.0 (ground (arith, h)), inl refl), λ s. ground (arith, open_at.1 s.0))
is_edge_visible_lem ctx valid_from valid_to (a ∷ acl) =
    let open_at = temporal_ok_lem ctx.as_of valid_from valid_to in
    (
      λ h. (
        open_at.0 (ground (arith, h)),
        inr (any-IsShared ctx.principals (a ∷ acl) (ground (arith, h))),
      ),
      λ s. elim s.1 [
        | inl e ↦ ground (arith, e)
        | inr (tag, (held, there)) ↦
            ground (arith, open_at.1 s.0, shared_any ctx.principals (a ∷ acl) tag held there)
      ],
    )
