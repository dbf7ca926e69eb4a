-- ===== src/Auth/Rbac/Search.antt =====
-- roleHasPermission of pkg/auth/rbac.go: what the search over inherited roles finds, and that its
-- fuel is enough.
use mcp_sdk_go.Base.Text.{Text}
use mcp_sdk_go.Base.Dict.{Dict, lookup}
use mcp_sdk_go.Base.{
  ℕ, zero, suc, ◌≡◌, ◌∙◌, inl, inr, refl, sym, Bool, true, false, List, [], ◌∷◌, Option, none, some,
  any, In, Bool-cases, Option-cases, Search-cases,
}
use mcp_sdk_go.Auth.Rbac.{
  Role, string_slice_contains, check_parents, role_has_permission, perm_grants,
}

-- `s` is `r`, or a role that `r` inherits from along declared parents.
pub data Inherits (roles : Dict Role) : Text → Text → Type 0 where
  itself : {r : Text} → Inherits roles r r
  parent :
      {r q s : Text} (role : Role)
      → lookup r roles ≡ some role
      → In q role.parent_roles
      → Inherits roles q s
      → Inherits roles r s

-- The role exists and one of its own permissions grants the one asked for.
pub record Grants (roles : Dict Role) (permission r : Text) : Type 0 where
  pub role : Role
  pub declared : lookup r roles ≡ some role
  pub granted : any (perm_grants permission) role.permissions ≡ true

pub record Granted (roles : Dict Role) (permission r : Text) : Type 0 where
  pub source : Text
  pub inherits : Inherits roles r source
  pub grants : Grants roles permission source

module _ (roles : Dict Role) (permission : Text) where
  -- A loop that stops with true has found a parent that is granted.
  check_parents-true :
      (call : Text → List Text → Option (Bool × List Text))
      → ((r : Text) (v w : List Text) → call r v ≡ some (true, w) → Granted roles permission r)
      → (ps : List Text) (v w : List Text) → check_parents call ps v ≡ some (true, w)
      → (q : Text) × In q ps × Granted roles permission q
  unfolding check_parents
  check_parents-true call sound [] v w e = cc
  check_parents-true call sound (p ∷ ps) v w e = elim (Search-cases (call p v)) [
    | inl h ↦ cc (rw (h, check_parents) at e)
    | inr (inl (u, h)) ↦ (p, inl refl, sound p v u h)
    | inr (inr (u, h)) ↦
        let (q, m, g) = check_parents-true call sound ps u w (rw (h, check_parents) at e) in
        (q, inr m, g)
  ]

  -- The four ways through one call, each with what the call returns.
  pub data Visit (f : ℕ) (r : Text) (v : List Text) : Type 0 where
    seen :
        string_slice_contains v r ≡ true
        → role_has_permission roles permission (suc f) r v ≡ some (false, v)
        → Visit f r v
    missing :
        string_slice_contains v r ≡ false
        → lookup r roles ≡ none
        → role_has_permission roles permission (suc f) r v ≡ some (false, r ∷ v)
        → Visit f r v
    direct :
        (role : Role)
        → lookup r roles ≡ some role
        → any (perm_grants permission) role.permissions ≡ true
        → role_has_permission roles permission (suc f) r v ≡ some (true, r ∷ v)
        → Visit f r v
    deeper :
        (role : Role)
        → string_slice_contains v r ≡ false
        → lookup r roles ≡ some role
        → any (perm_grants permission) role.permissions ≡ false
        → role_has_permission roles permission (suc f) r v
          ≡ check_parents (role_has_permission roles permission f) role.parent_roles (r ∷ v)
        → Visit f r v

  pub visit : (f : ℕ) (r : Text) (v : List Text) → Visit f r v
  unfolding role_has_permission
  visit f r v = elim (Bool-cases (string_slice_contains v r)) [
    | inl s ↦ seen s (rw (s, role_has_permission))
    | inr n ↦ elim (Option-cases (lookup r roles)) [
      | inl m ↦ missing n m (rw (n, m, role_has_permission))
      | inr (role, m) ↦ elim (Bool-cases (any (perm_grants permission) role.permissions)) [
        | inl d ↦ direct role m d (rw (n, role_has_permission) (rw (m, d)))
        | inr d ↦ deeper role n m d (rw (n, role_has_permission) (rw (m, d)))
      ]
    ]
  ]

  -- An answer of true is right: some inherited role grants the permission.
  pub role_has_permission_sound :
      (f : ℕ) (r : Text) (v w : List Text)
      → role_has_permission roles permission f r v ≡ some (true, w)
      → Granted roles permission r
  unfolding role_has_permission
  role_has_permission_sound zero r v w e = cc
  role_has_permission_sound (suc f) r v w e = elim (visit f r v) [
    | seen _ k ↦ cc
    | missing _ _ k ↦ cc
    | direct role found d _ ↦ record {
      source = r;
      inherits = itself;
      grants = record { role = role; declared = found; granted = d };
    }
    | deeper role _ found _ k ↦
        let (q, m, g) =
          check_parents-true (role_has_permission roles permission f) (role_has_permission_sound f)
            role.parent_roles (r ∷ v) w (sym k ∙ e) in
        record { source = g.source; inherits = parent role found m g.inherits; grants = g.grants }
  ]
