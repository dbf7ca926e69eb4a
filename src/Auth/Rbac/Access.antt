-- ===== src/Auth/Rbac/Access.antt =====
-- HasPermission and CanAccessResource of pkg/auth/rbac.go: the fuel of the search is enough, and
-- the answers are those of the declared inheritance.
use mcp_sdk_go.Base.Text.{Text, text_eq_iff}
use mcp_sdk_go.Base.Dict.{Dict, lookup}
use mcp_sdk_go.Base.{
  ℕ, zero, suc, ◌+◌, ◌≤◌, ◌<◌, ◌≡◌, ◌⊎◌, ◌∙◌, inl, inr, refl, sym, subst, Bool, true, false, List,
  [], ◌∷◌, Option, some, arith, In, length, if◌then◌else◌, Search-cases,
}
use mcp_sdk_go.Auth.Rbac.{
  Role, RbacProvider, string_slice_contains, check_parents, role_has_permission, any_role_has,
  search_fuel, get_user_roles, has_permission,
}
use mcp_sdk_go.Auth.Rbac.Search.{
  Inherits, Grants, Granted, seen, missing, direct, deeper, visit, role_has_permission_sound,
}
use mcp_sdk_go.Auth.Rbac.Complete.{
  Marked, Marked-keep, role_has_permission-Sweep, role_has_permission_complete,
}

-- The declared roles that are not visited yet.
unmarked : Dict Role → List Text → ℕ
unmarked [] v = 0
unmarked ((k, role) ∷ m) v = (if string_slice_contains v k then 0 else 1) + unmarked m v

unmarked-le-length : (m : Dict Role) (v : List Text) → unmarked m v ≤ length m
unfolding unmarked
unmarked-le-length [] v = omega arith
unmarked-le-length ((k, role) ∷ m) v = ground (arith, unmarked-le-length m v)

unmarked-antitone :
    (m : Dict Role) (v w : List Text)
    → ((x : Text) → Marked v x → Marked w x)
    → unmarked m w ≤ unmarked m v
unfolding unmarked
unmarked-antitone [] v w h = omega arith
unmarked-antitone ((k, role) ∷ m) v w h = ground (arith, h k, unmarked-antitone m v w h)

-- Marking a declared role that is not visited lowers the count.
unmarked-lt :
    (m : Dict Role) (v : List Text) (r : Text) (role : Role)
    → lookup r m ≡ some role
    → string_slice_contains v r ≡ false
    → unmarked m (r ∷ v) < unmarked m v
unfolding unmarked lookup string_slice_contains
unmarked-lt [] v r role e n = cc
unmarked-lt ((k, x) ∷ m) v r role e n = ground (
  arith,
  text_eq_iff k r,
  text_eq_iff r k,
  unmarked-lt m v r role,
  unmarked-antitone m v (r ∷ v) (Marked-keep v r),
)

module _ (roles : Dict Role) (permission : Text) where
  check_parents-returns :
      (f : ℕ)
      → ((r : Text) (v : List Text)
          → unmarked roles v < f
          → (a : Bool × List Text) × (role_has_permission roles permission f r v ≡ some a))
      → (ps : List Text) (v : List Text) → unmarked roles v < f
      → (a : Bool × List Text) × (check_parents (role_has_permission roles permission f) ps v
          ≡ some a)
  unfolding check_parents
  check_parents-returns f returns [] v h = ((false, v), refl)
  check_parents-returns f returns (p ∷ ps) v h =
      elim (Search-cases (role_has_permission roles permission f p v)) [
        | inl e ↦ cc ((returns p v h).1)
        | inr (inl (u, e)) ↦ ((true, u), rw (e, check_parents))
        | inr (inr (u, e)) ↦
            let keeps = (role_has_permission-Sweep roles permission f p v u e).0.keeps in
            let rest =
              check_parents-returns f returns ps u
                (omega (arith, unmarked-antitone roles v u keeps)) in
            (rest.0, rw (e, check_parents) rest.1)
      ]

  -- With more fuel than roles left to visit the search answers.
  role_has_permission-returns :
      (f : ℕ) (r : Text) (v : List Text)
      → unmarked roles v < f
      → (a : Bool × List Text) × (role_has_permission roles permission f r v ≡ some a)
  role_has_permission-returns zero r v h = absurd (omega arith)
  role_has_permission-returns (suc f) r v h = elim (visit roles permission f r v) [
    | seen _ k ↦ ((false, v), k)
    | missing _ _ k ↦ ((false, r ∷ v), k)
    | direct _ _ _ k ↦ ((true, r ∷ v), k)
    | deeper role new found _ k ↦
        let rest =
          check_parents-returns f (role_has_permission-returns f) role.parent_roles (r ∷ v)
            (omega (arith, unmarked-lt roles v r role found new)) in
        (rest.0, k ∙ rest.1)
  ]

-- What a search from a fresh visited set answers.
abbrev pub Refused : Dict Role → Text → Text → Type 0
Refused roles permission r = (s : Text) → Inherits roles r s → ¬ Grants roles permission s

module _ (roles : Dict Role) (permission : Text) where
  abbrev search : Text → Option (Bool × List Text)
  search r = role_has_permission roles permission (search_fuel roles) r []

  search-returns : (r : Text) → (a : Bool × List Text) × (search r ≡ some a)
  search-returns r =
      role_has_permission-returns roles permission (search_fuel roles) r []
        (omega (arith, unmarked-le-length roles []))

  any_role_has-decides :
      (rs : List Text)
      → ((any_role_has search rs ≡ some true) × ((r : Text) × In r rs × Granted roles permission r))
        ⊎ ((any_role_has search rs ≡ some false)
            × ((r : Text) → In r rs → Refused roles permission r))
  unfolding any_role_has
  any_role_has-decides [] = inr (refl, λ r m. absurd m)
  any_role_has-decides (r ∷ rs) = elim (Search-cases (search r)) [
    | inl e ↦ cc ((search-returns r).1)
    | inr (inl (u, e)) ↦ inl (
      rw (e, any_role_has),
      (r, inl refl, role_has_permission_sound roles permission (search_fuel roles) r [] u e),
    )
    | inr (inr (u, e)) ↦ elim (any_role_has-decides rs) [
      | inl (t, (q, m, g)) ↦ inl (rw (e, any_role_has) t, (q, inr m, g))
      | inr (t, none_granted) ↦ inr (
        rw (e, any_role_has) t,
        λ q m. elim m [
          | inl i ↦
              subst (Refused roles permission) (sym i)
                (role_has_permission_complete roles permission (search_fuel roles) r u e)
          | inr n ↦ none_granted q n
        ],
      )
    ]
  ]

-- HasPermission always answers. It says yes exactly when one of the user's roles, or a role that
-- it inherits along declared parents, exists and grants the permission, whatever cycles the
-- hierarchy has.
pub has_permission-decides :
    (p : RbacProvider) (user_id permission : Text)
    → ((has_permission p user_id permission ≡ some true)
        × ((r : Text) × In r (get_user_roles p user_id) × Granted p.roles permission r))
      ⊎ ((has_permission p user_id permission ≡ some false)
          × ((r : Text) → In r (get_user_roles p user_id) → Refused p.roles permission r))
unfolding has_permission
has_permission-decides p user_id permission =
    any_role_has-decides p.roles permission (get_user_roles p user_id)
