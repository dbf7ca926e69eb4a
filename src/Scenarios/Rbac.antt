-- ===== src/Scenarios/Rbac.antt =====
-- pkg/auth/rbac.go on a small hierarchy with a cycle.
use mcp_sdk_go.Base.Text.{Text, codes, text_eq, has_prefix}
use mcp_sdk_go.Base.Dict.{lookup, insert}
use mcp_sdk_go.Base.{◌≡◌, refl, ◌≢◌, ◌⊎◌, true, false, List, [], ◌∷◌, Option, none, some, In}
use mcp_sdk_go.Auth.Rbac.{
  RbacConfig, RbacProvider, string_slice_contains, match_permission, perm_grants, check_parents,
  role_has_permission, get_user_roles, any_role_has, has_permission, create_role, assign_role,
  delete_role, new_rbac_provider, unsnoc,
}
use mcp_sdk_go.Auth.Rbac.Search.{Granted}
use mcp_sdk_go.Auth.Rbac.Access.{Refused, has_permission-decides}
use mcp_sdk_go.Auth.Rbac.Roles.{IsConsistent}
use mcp_sdk_go.Auth.Rbac.History.{
  RbacCall, creates, assigns, run, step, run_new-IsConsistent, delete_role_revokes,
}

-- Two roles that inherit from one another, one of which may do all that begins with `tools:`.
abbrev config : RbacConfig
config = record {
  default_role = codes "guest";
  role_hierarchy = (codes "dev", codes "ops" ∷ []) ∷ (codes "admin", []) ∷ [];
  resource_permissions = some ((codes "logs", codes "tools:read" ∷ []) ∷ []);
}

abbrev calls : List RbacCall
calls =
    creates (codes "ops") [] (codes "tools:*" ∷ []) (codes "dev" ∷ [])
    ∷ assigns (codes "ann") (codes "dev")
    ∷ []

abbrev provider : RbacProvider
provider = record {
  roles =
      (
        codes "dev",
        record {
          name = codes "dev";
          description = [];
          permissions = [];
          parent_roles = codes "ops" ∷ [];
        },
      )
      ∷ (
        codes "ops",
        record {
          name = codes "ops";
          description = [];
          permissions = codes "tools:*" ∷ [];
          parent_roles = codes "dev" ∷ [];
        },
      )
      ∷ [];
  user_roles = (codes "ann", codes "dev" ∷ []) ∷ [];
  resource_perms = some ((codes "logs", codes "tools:read" ∷ []) ∷ []);
  default_role = codes "guest";
}

ann_reads : has_permission provider (codes "ann") (codes "tools:read") ≡ some true
unfolding has_permission any_role_has get_user_roles role_has_permission check_parents
    string_slice_contains perm_grants match_permission unsnoc has_prefix lookup text_eq
ann_reads = refl

ann_writes_not : has_permission provider (codes "ann") (codes "files:read") ≡ some false
unfolding has_permission any_role_has get_user_roles role_has_permission check_parents
    string_slice_contains perm_grants match_permission unsnoc has_prefix lookup text_eq
ann_writes_not = refl

has_permission-decides_example :
    ((has_permission provider (codes "ann") (codes "tools:read") ≡ some true)
      × ((r : Text) × In r (get_user_roles provider (codes "ann"))
          × Granted provider.roles (codes "tools:read") r))
    ⊎ ((has_permission provider (codes "ann") (codes "tools:read") ≡ some false)
        × ((r : Text)
            → In r (get_user_roles provider (codes "ann"))
            → Refused provider.roles (codes "tools:read") r))
has_permission-decides_example = has_permission-decides provider (codes "ann") (codes "tools:read")

abbrev grown : Option RbacProvider
grown = run (new_rbac_provider (some config)) calls

history : (p : RbacProvider) × (run (new_rbac_provider (some config)) calls ≡ some p)
unfolding run step new_rbac_provider create_role assign_role string_slice_contains insert lookup
    text_eq
history = (_, refl)

run_new-IsConsistent_example : IsConsistent history.0
run_new-IsConsistent_example = run_new-IsConsistent (some config) calls history.0 history.1

delete_role_revokes_example :
    ((codes "dev" ≡ codes "guest")
      × ((delete_role provider (codes "dev")).0 ≡ provider)
      × ((delete_role provider (codes "dev")).1 ≢ none))
    ⊎ ((codes "dev" ≢ codes "guest")
        × (lookup (codes "dev") (delete_role provider (codes "dev")).0.roles ≡ none)
        × (string_slice_contains
              (get_user_roles (delete_role provider (codes "dev")).0 (codes "ann"))
              (codes "dev")
            ≡ false)
        × ((delete_role provider (codes "dev")).1 ≡ none))
delete_role_revokes_example = delete_role_revokes provider (codes "dev") (codes "ann")

admin_configured : lookup (codes "admin") config.role_hierarchy ≢ none
unfolding lookup text_eq
admin_configured = λ e. cc
