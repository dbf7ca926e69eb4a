-- ===== src/Auth/Rbac/Enforce.antt =====
-- pkg/auth/rbac.go: EnforcePermission and EnforceRole. The context is the id of its user, if it has one,
-- which is all that they read of it.
use mcp_sdk_go.Base.Text.{Text, text_eq, text_eq_iff, text_eq_refl}
use mcp_sdk_go.Base.{
  ◌≡◌, ◌⊎◌, inl, inr, refl, sym, subst, Bool, true, false, List, [], ◌∷◌, In, Option, none, some,
  arith, Bool-cases, if◌then◌else◌,
}
use mcp_sdk_go.Auth.Rbac.{RbacProvider, string_slice_contains, get_user_roles, has_permission}
use mcp_sdk_go.Auth.Rbac.Search.{Granted}
use mcp_sdk_go.Auth.Rbac.Access.{Refused, has_permission-decides}

-- `out_of_fuel` is the search without an answer, which does not happen.
pub data Enforced : Type 0 where
  allowed auth_required access_denied out_of_fuel : Enforced

unfoldable pub enforce_permission : RbacProvider → Text → Option Text → Enforced
enforce_permission p permission none = auth_required
enforce_permission p permission (some user_id) = elim (has_permission p user_id permission) [
  | none ↦ out_of_fuel
  | some true ↦ allowed
  | some false ↦ access_denied
]

-- The loop over the required roles.
unfoldable pub holds_one : List Text → List Text → Bool
holds_one user_roles [] = false
holds_one user_roles (r ∷ required) =
    let rest = holds_one user_roles required in
    if string_slice_contains user_roles r then true else rest

unfoldable pub enforce_role : RbacProvider → List Text → Option Text → Enforced
enforce_role p required none = auth_required
enforce_role p required (some user_id) =
    if holds_one (get_user_roles p user_id) required then allowed else access_denied

-- EnforcePermission lets a user pass exactly if one of the user's roles is granted the permission, and
-- denies the access otherwise.
pub enforce_permission-decides :
    (p : RbacProvider) (permission user_id : Text)
    → ((enforce_permission p permission (some user_id) ≡ allowed)
        × ((r : Text) × In r (get_user_roles p user_id) × Granted p.roles permission r))
      ⊎ ((enforce_permission p permission (some user_id) ≡ access_denied)
          × ((r : Text) → In r (get_user_roles p user_id) → Refused p.roles permission r))
unfolding enforce_permission
enforce_permission-decides p permission user_id =
    elim (has_permission-decides p user_id permission) [
      | inl (e, g) ↦ inl (rw (e, enforce_permission) refl, g)
      | inr (e, g) ↦ inr (rw (e, enforce_permission) refl, g)
    ]

contains-In : (rs : List Text) (r : Text) → string_slice_contains rs r ≡ true → In r rs
unfolding string_slice_contains
contains-In [] r h = absurd (cc)
contains-In (s ∷ rs) r h = elim (Bool-cases (text_eq s r)) [
  | inl same ↦ inl (sym ((text_eq_iff s r).0 same))
  | inr other ↦ inr (contains-In rs r (rw other at h))
]

In-contains : (rs : List Text) (r : Text) → In r rs → string_slice_contains rs r ≡ true
unfolding string_slice_contains
In-contains [] r h = absurd h
In-contains (s ∷ rs) r (inl e) = rw (sym e, text_eq_refl r) refl
In-contains (s ∷ rs) r (inr h) = rw (In-contains rs r h) (ground arith)

holds_one_to :
    (rs required : List Text) → holds_one rs required ≡ true → (r : Text) × In r required × In r rs
unfolding holds_one
holds_one_to rs [] h = absurd (cc)
holds_one_to rs (r ∷ required) h = elim (Bool-cases (string_slice_contains rs r)) [
  | inl held ↦ (r, inl refl, contains-In rs r held)
  | inr lacks ↦ let (q, k, m) = holds_one_to rs required (rw lacks at h) in (q, inr k, m)
]

holds_one_from :
    (rs required : List Text) (r : Text) → In r required → In r rs → holds_one rs required ≡ true
unfolding holds_one
holds_one_from rs [] r k m = absurd k
holds_one_from rs (q ∷ required) r (inl e) m = rw (In-contains rs q (subst (λ s. In s rs) e m)) refl
holds_one_from rs (q ∷ required) r (inr k) m = ground (arith, holds_one_from rs required r k m)

-- EnforceRole lets a user pass exactly if the user has one of the required roles, and denies the
-- access otherwise.
pub enforce_role-decides :
    (p : RbacProvider) (required : List Text) (user_id : Text)
    → ((enforce_role p required (some user_id) ≡ allowed)
        × ((r : Text) × In r required × In r (get_user_roles p user_id)))
      ⊎ ((enforce_role p required (some user_id) ≡ access_denied)
          × ((r : Text) → In r required → In r (get_user_roles p user_id) → ⊥))
unfolding enforce_role
enforce_role-decides p required user_id =
    elim (Bool-cases (holds_one (get_user_roles p user_id) required)) [
      | inl held ↦
          inl (rw (held, enforce_role) refl, holds_one_to (get_user_roles p user_id) required held)
      | inr lacks ↦ inr (
        rw (lacks, enforce_role) refl,
        λ r k m. let held = holds_one_from (get_user_roles p user_id) required r k m in cc,
      )
    ]
