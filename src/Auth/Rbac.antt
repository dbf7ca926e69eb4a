-- ===== src/Auth/Rbac.antt =====
-- pkg/auth/rbac.go, and RBACConfig of pkg/auth/auth.go. A method that changes the provider returns
-- the new one with its error. The locks are left out: each method runs as one step.
pub mod Search
pub mod Complete
pub mod Access
pub mod Roles
pub mod History
pub mod Enforce
use mcp_sdk_go.Base.Text.{Text, codes, text_eq, has_prefix}
use mcp_sdk_go.Base.Dict.{Dict, lookup, insert, remove}
use mcp_sdk_go.Base.{
  ℕ, zero, suc, ◌≡◌, Bool, true, false, ◌||◌, List, [], ◌∷◌, ◌++◌, Option, none, some, arith, any,
  length, if◌then◌else◌, ◌==◌,
}

pub record Role : Type 0 where
  pub name : Text
  pub description : Text
  pub permissions : List Text
  pub parent_roles : List Text

pub record RbacConfig : Type 0 where
  pub default_role : Text
  pub role_hierarchy : Dict (List Text)
  -- `none` is Go's nil map.
  pub resource_permissions : Option (Dict (List Text))

pub record RbacProvider : Type 0 where
  pub roles : Dict Role
  pub user_roles : Dict (List Text)
  pub resource_perms : Option (Dict (List Text))
  pub default_role : Text

pub data RbacError : Type 0 where
  role_exists no_such_role : Text → RbacError
  default_role_deleted : RbacError

-- A missing key reads as the nil slice.
abbrev pub entry : Text → Dict (List Text) → List Text
entry k m = elim (lookup k m) [ none ↦ [] | some v ↦ v ]

unfoldable pub string_slice_contains : List Text → Text → Bool
string_slice_contains [] str = false
string_slice_contains (s ∷ slice) str = text_eq s str || string_slice_contains slice str

unfoldable pub remove_string_from_slice : List Text → Text → List Text
remove_string_from_slice [] str = []
remove_string_from_slice (s ∷ slice) str =
    let rest = remove_string_from_slice slice str in if text_eq s str then rest else s ∷ rest

-- A text without its last byte, and that byte.
unfoldable pub unsnoc : Text → Option (Text × ℕ)
unsnoc [] = none
unsnoc (x ∷ xs) = elim (unsnoc xs) [ none ↦ some ([], x) | some (p, c) ↦ some (x ∷ p, c) ]

unfoldable pub match_permission : Text → Text → Bool
match_permission pattern_ permission = elim (unsnoc pattern_) [
  | none ↦ text_eq pattern_ permission
  | some (prefix, c) ↦
      if c == b'*' then has_prefix permission prefix else text_eq pattern_ permission
]

-- The body of the loop over a role's direct permissions.
unfoldable pub perm_grants : Text → Text → Bool
perm_grants permission perm =
    (text_eq perm (codes "*") || text_eq perm permission) || match_permission perm permission

-- The loop over the parents: the set of visited roles is shared by the calls.
unfoldable pub check_parents :
    (Text → List Text → Option (Bool × List Text))
    → List Text
    → List Text
    → Option (Bool × List Text)
check_parents call [] visited = some (false, visited)
check_parents call (p ∷ ps) visited = elim (call p visited) [
  | none ↦ none
  | some (true, v) ↦ some (true, v)
  | some (false, v) ↦ check_parents call ps v
]

-- `none` means that the fuel, a bound on the depth of the calls, ran out.
unfoldable pub role_has_permission :
    Dict Role → Text → ℕ → Text → List Text → Option (Bool × List Text)
role_has_permission roles permission zero name visited = none
role_has_permission roles permission (suc f) name visited =
    elim (string_slice_contains visited name) [
      | true ↦ some (false, visited)
      | false ↦ elim (lookup name roles) [
        | none ↦ some (false, name ∷ visited)
        | some role ↦
            let rest =
              check_parents (role_has_permission roles permission f) role.parent_roles
                (name ∷ visited) in
            if any (perm_grants permission) role.permissions
            then some (true, name ∷ visited)
            else rest
      ]
    ]

unfoldable pub get_user_roles : RbacProvider → Text → List Text
get_user_roles p user_id =
    let roles = entry user_id p.user_roles in
    if length roles == 0
    then (if text_eq p.default_role [] then roles else p.default_role ∷ [])
    else roles

-- The loop of HasPermission: each role is searched with a visited set of its own.
unfoldable pub any_role_has : (Text → Option (Bool × List Text)) → List Text → Option Bool
any_role_has call [] = some false
any_role_has call (r ∷ rs) = elim (call r) [
  | none ↦ none
  | some (true, v) ↦ some true
  | some (false, v) ↦ any_role_has call rs
]

-- One level of calls for each role, and one for a name that is no role.
abbrev pub search_fuel : Dict Role → ℕ
search_fuel roles = suc (suc (length roles))

unfoldable pub has_permission : RbacProvider → Text → Text → Option Bool
has_permission p user_id permission =
    any_role_has (λ r. role_has_permission p.roles permission (search_fuel p.roles) r [])
      (get_user_roles p user_id)

unfoldable pub any_permission : (Text → Option Bool) → List Text → Option Bool
any_permission call [] = some false
any_permission call (q ∷ qs) = elim (call q) [
  | none ↦ none
  | some true ↦ some true
  | some false ↦ any_permission call qs
]

-- A read of a nil map finds nothing.
abbrev pub lookup_nil {ℓ} : {V : Type ℓ} → Text → Option (Dict V) → Option V
lookup_nil k none = none
lookup_nil k (some m) = lookup k m

unfoldable pub can_access_resource : RbacProvider → Text → Text → Option Bool
can_access_resource p user_id resource = elim (lookup_nil resource p.resource_perms) [
  | none ↦ some true
  | some required ↦ any_permission (has_permission p user_id) required
]

unfoldable pub create_role :
    RbacProvider → Text → Text → List Text → List Text → RbacProvider × Option RbacError
create_role p name description permissions parent_roles = elim (lookup name p.roles) [
  | some _ ↦ (p, some (role_exists name))
  | none ↦ (record p { roles = insert name role p.roles }, none)
]
  where
    role : Role
    role = record {
      name = name;
      description = description;
      permissions = permissions;
      parent_roles = parent_roles;
    }

unfoldable pub drop_role_of_users : Text → Dict (List Text) → Dict (List Text)
drop_role_of_users name [] = []
drop_role_of_users name ((u, rs) ∷ m) =
    (u, remove_string_from_slice rs name) ∷ drop_role_of_users name m

unfoldable pub delete_role : RbacProvider → Text → RbacProvider × Option RbacError
delete_role p name = if text_eq name p.default_role then (p, some default_role_deleted) else (
  record p { roles = remove name p.roles; user_roles = drop_role_of_users name p.user_roles },
  none,
)

unfoldable pub assign_role : RbacProvider → Text → Text → RbacProvider × Option RbacError
assign_role p user_id role_name = elim (lookup role_name p.roles) [
  | none ↦ (p, some (no_such_role role_name))
  | some _ ↦
      let roles = entry user_id p.user_roles in
      if string_slice_contains roles role_name
      then (p, none)
      else (record p { user_roles = insert user_id (roles ++ role_name ∷ []) p.user_roles }, none)
]

unfoldable pub remove_role : RbacProvider → Text → Text → RbacProvider × Option RbacError
remove_role p user_id role_name = (
  record p {
    user_roles =
        insert user_id (remove_string_from_slice (entry user_id p.user_roles) role_name)
          p.user_roles;
  },
  none,
)

-- `none` is the panic of a write to a nil map.
unfoldable pub set_resource_permissions : RbacProvider → Text → List Text → Option RbacProvider
set_resource_permissions p resource permissions = elim p.resource_perms [
  | none ↦ none
  | some m ↦ some (record p { resource_perms = some (insert resource permissions m) })
]

unfoldable pub get_resource_permissions : RbacProvider → Text → List Text
get_resource_permissions p resource = elim (lookup_nil resource p.resource_perms) [
  | none ↦ []
  | some perms ↦ perms
]

-- The loop over the configured hierarchy.
unfoldable pub hierarchy_roles : Dict (List Text) → Dict Role → Dict Role
hierarchy_roles [] roles = roles
hierarchy_roles ((role_name, parents) ∷ rest) roles = hierarchy_roles rest (
    insert role_name
      (record { name = role_name; description = []; permissions = []; parent_roles = parents })
      roles)

unfoldable pub initialize_default_roles : RbacProvider → RbacProvider
initialize_default_roles p =
    let p1 =
      (create_role p (codes "admin") (codes "Administrator with full access") (codes "*" ∷ [])
        []).0 in
    let p2 =
      (create_role p1 (codes "user") (codes "Standard user")
        (codes "read" ∷ codes "list" ∷ codes "create" ∷ codes "update" ∷ []) []).0 in
    let p3 =
      (create_role p2 (codes "guest") (codes "Guest user") (codes "read" ∷ codes "list" ∷ [])
        []).0 in
    (create_role p3 (codes "service") (codes "Service account")
      (codes "read" ∷ codes "write" ∷ codes "execute" ∷ []) []).0

unfoldable pub new_rbac_provider : Option RbacConfig → RbacProvider
unfolding hierarchy_roles initialize_default_roles
new_rbac_provider none =
    initialize_default_roles (record {
      roles = [];
      user_roles = [];
      resource_perms = some [];
      default_role = codes "user";
    })
new_rbac_provider (some config) = initialize_default_roles (record {
  roles = hierarchy_roles config.role_hierarchy [];
  user_roles = [];
  resource_perms = config.resource_permissions;
  default_role = config.default_role;
})
