-- ===== src/Auth/Rbac/History.antt =====
-- pkg/auth/rbac.go: histories of calls on one provider, from its construction on.
use mcp_sdk_go.Base.Text.{Text, text_eq, text_eq_iff, text_eq_refl}
use mcp_sdk_go.Base.Dict.{
  Dict, lookup, remove, insert-keeps, lookup-insert_eq, lookup-insert_ne, lookup-remove,
}
use mcp_sdk_go.Base.{
  ◌≡◌, ◌≢◌, ◌⊎◌, inl, inr, refl, sym, ◌∙◌, subst, false, List, [], ◌∷◌, Option, none, some, arith,
  Option-cases, Bool-cases,
}
use mcp_sdk_go.Auth.Rbac.{
  Role, RbacConfig, RbacProvider, string_slice_contains, entry, create_role, delete_role,
  assign_role, remove_role, set_resource_permissions, hierarchy_roles, initialize_default_roles,
  new_rbac_provider, get_user_roles, drop_role_of_users,
}
use mcp_sdk_go.Auth.Rbac.Roles.{
  IsConsistent, create_role-IsConsistent, delete_role-IsConsistent, assign_role-IsConsistent,
  remove_role-IsConsistent, contains-remove, lookup-drop_role_of_users,
}

pub data RbacCall : Type 0 where
  creates : Text → Text → List Text → List Text → RbacCall
  deletes : Text → RbacCall
  assigns removes : Text → Text → RbacCall
  sets : Text → List Text → RbacCall

-- `none` is a panic.
unfoldable pub step : RbacProvider → RbacCall → Option RbacProvider
step p (creates name description perms parents) =
    some (create_role p name description perms parents).0
step p (deletes name) = some (delete_role p name).0
step p (assigns user_id name) = some (assign_role p user_id name).0
step p (removes user_id name) = some (remove_role p user_id name).0
step p (sets resource perms) = set_resource_permissions p resource perms

unfoldable pub run : RbacProvider → List RbacCall → Option RbacProvider
run p [] = some p
run p (c ∷ cs) = elim (step p c) [ none ↦ none | some q ↦ run q cs ]

set_resource_permissions-keeps :
    (p q : RbacProvider) (resource : Text) (perms : List Text)
    → set_resource_permissions p resource perms ≡ some q
    → (q.roles ≡ p.roles) × (q.user_roles ≡ p.user_roles)
unfolding set_resource_permissions
set_resource_permissions-keeps p q resource perms e = ground arith

set_resource_permissions-IsConsistent :
    (p q : RbacProvider) (resource : Text) (perms : List Text)
    → IsConsistent p
    → set_resource_permissions p resource perms ≡ some q
    → IsConsistent q
set_resource_permissions-IsConsistent p q resource perms c e = record {
  held = λ u r h.
      let (same_roles, same_users) = set_resource_permissions-keeps p q resource perms e in
      let h' = rw same_users at h in
      subst (λ m. lookup r m ≢ none) (sym same_roles) (c.held u r h');
}

step-IsConsistent :
    (p q : RbacProvider) (c : RbacCall) → IsConsistent p → step p c ≡ some q → IsConsistent q
unfolding step
step-IsConsistent p q (creates name description perms parents) h e =
    subst IsConsistent (cc) (create_role-IsConsistent p name description perms parents h)
step-IsConsistent p q (deletes name) h e =
    subst IsConsistent (cc) (delete_role-IsConsistent p name h)
step-IsConsistent p q (assigns u name) h e =
    subst IsConsistent (cc) (assign_role-IsConsistent p u name h)
step-IsConsistent p q (removes u name) h e =
    subst IsConsistent (cc) (remove_role-IsConsistent p u name h)
step-IsConsistent p q (sets resource perms) h e =
    set_resource_permissions-IsConsistent p q resource perms h e

run-IsConsistent :
    (p q : RbacProvider) (cs : List RbacCall) → IsConsistent p → run p cs ≡ some q → IsConsistent q
unfolding run
run-IsConsistent p q [] h e = subst IsConsistent (cc) h
run-IsConsistent p q (c ∷ cs) h e = elim (Option-cases (step p c)) [
  | inl n ↦ cc (rw (n, run) at e)
  | inr (r, n) ↦ run-IsConsistent r q cs (step-IsConsistent p r c h n) (rw (n, run) at e)
]

initialize_default_roles-IsConsistent :
    (p : RbacProvider) → IsConsistent p → IsConsistent (initialize_default_roles p)
unfolding initialize_default_roles
initialize_default_roles-IsConsistent p c = create_role-IsConsistent _ _ _ _ _ (
    create_role-IsConsistent _ _ _ _ _
      (create_role-IsConsistent _ _ _ _ _ (create_role-IsConsistent _ _ _ _ _ c)))

no_users-IsConsistent : (p : RbacProvider) → p.user_roles ≡ [] → IsConsistent p
unfolding string_slice_contains lookup
no_users-IsConsistent p e = record { held = λ u r h. absurd (cc (rw e at h)) }

new_rbac_provider-IsConsistent :
    (config : Option RbacConfig) → IsConsistent (new_rbac_provider config)
unfolding new_rbac_provider
new_rbac_provider-IsConsistent none =
    initialize_default_roles-IsConsistent _ (no_users-IsConsistent _ refl)
new_rbac_provider-IsConsistent (some config) =
    initialize_default_roles-IsConsistent _ (no_users-IsConsistent _ refl)

-- Whatever the configuration and the calls, and in whatever order, every role that a user holds
-- is declared, as long as no call panics.
pub run_new-IsConsistent :
    (config : Option RbacConfig) (cs : List RbacCall) (p : RbacProvider)
    → run (new_rbac_provider config) cs ≡ some p
    → IsConsistent p
run_new-IsConsistent config cs p = run-IsConsistent _ p cs (new_rbac_provider-IsConsistent config)

get_user_roles-without :
    (q : RbacProvider) (name user_id : Text)
    → name ≢ q.default_role
    → string_slice_contains (entry user_id q.user_roles) name ≡ false
    → string_slice_contains (get_user_roles q user_id) name ≡ false
unfolding get_user_roles string_slice_contains
get_user_roles-without q name user_id d h = ground (arith, text_eq_iff q.default_role name)

removed_of_users :
    (p : RbacProvider) (name u : Text)
    → string_slice_contains (entry u (drop_role_of_users name p.user_roles)) name ≡ false
removed_of_users p name u = rw (
  lookup-drop_role_of_users name u p.user_roles,
  contains-remove (entry u p.user_roles) name name,
  text_eq_refl name,
)

removed_of_roles : (p : RbacProvider) (name : Text) → lookup name (remove name p.roles) ≡ none
removed_of_roles p name = rw (lookup-remove name name p.roles, text_eq_refl name)

-- A role that DeleteRole deletes is declared no more, and no user has it any more, by default
-- either; the default role cannot be deleted and the provider is then as it was.
pub delete_role_revokes :
    (p : RbacProvider) (name user_id : Text)
    → let (q, e) = delete_role p name in
      ((name ≡ p.default_role) × (q ≡ p) × (e ≢ none))
      ⊎ ((name ≢ p.default_role)
          × (lookup name q.roles ≡ none)
          × (string_slice_contains (get_user_roles q user_id) name ≡ false)
          × (e ≡ none))
unfolding delete_role
delete_role_revokes p name user_id = elim (Bool-cases (text_eq name p.default_role)) [
  | inl d ↦ inl ((text_eq_iff name p.default_role).0 d, rw d, rw d (λ e. cc))
  | inr d ↦
      let differs : name ≢ p.default_role = λ e. cc (d, (text_eq_iff name p.default_role).1 e) in
      inr (
        differs,
        rw d (removed_of_roles p name),
        rw d (get_user_roles-without _ name user_id differs (removed_of_users p name user_id)),
        rw d,
      )
]

-- The loop over the hierarchy leaves each configured role with no permission of its own.
abbrev NoPermissions : Option Role → Type 0
NoPermissions o = (role : Role) × (o ≡ some role) × (role.permissions ≡ [])

hierarchy_roles-NoPermissions :
    (h : Dict (List Text)) (roles : Dict Role) (name : Text)
    → (lookup name h ≢ none) ⊎ NoPermissions (lookup name roles)
    → NoPermissions (lookup name (hierarchy_roles h roles))
unfolding hierarchy_roles lookup
hierarchy_roles-NoPermissions [] roles name (inl h) = absurd (h refl)
hierarchy_roles-NoPermissions [] roles name (inr h) = h
hierarchy_roles-NoPermissions ((k, parents) ∷ rest) roles name h =
    hierarchy_roles-NoPermissions rest _ name (elim (Bool-cases (text_eq k name)) [
      | inl same ↦ inr (_, lookup-insert_eq k name _ roles same, refl)
      | inr other ↦ elim h [
        | inl d ↦ inl (rw other at d)
        | inr (role, e, n) ↦ inr (role, lookup-insert_ne k name _ roles other ∙ e, n)
      ]
    ])

create_role-NoPermissions :
    (p : RbacProvider) (name n description : Text) (perms parents : List Text)
    → NoPermissions (lookup name p.roles)
    → NoPermissions (lookup name (create_role p n description perms parents).0.roles)
unfolding create_role
create_role-NoPermissions p name n description perms parents (role, e, h) =
    elim (Option-cases (lookup n p.roles)) [
      | inr (_, k) ↦ rw (k, create_role) (role, e, h)
      | inl k ↦ rw (k, create_role) (role, insert-keeps n name _ role p.roles k e, h)
    ]

initialize_default_roles-NoPermissions :
    (p : RbacProvider) (name : Text)
    → NoPermissions (lookup name p.roles)
    → NoPermissions (lookup name (initialize_default_roles p).roles)
unfolding initialize_default_roles
initialize_default_roles-NoPermissions p name h = create_role-NoPermissions _ name _ _ _ _ (
    create_role-NoPermissions _ name _ _ _ _
      (create_role-NoPermissions _ name _ _ _ _ (create_role-NoPermissions _ name _ _ _ _ h)))

-- A role that the configured hierarchy names has no permission of its own, also if it is one of the
-- four that get theirs by default: CreateRole refuses a role that is there.
pub configured_role_powerless :
    (config : RbacConfig) (name : Text)
    → lookup name config.role_hierarchy ≢ none
    → (role : Role) × (lookup name (new_rbac_provider (some config)).roles ≡ some role)
      × (role.permissions ≡ [])
unfolding new_rbac_provider
configured_role_powerless config name h =
    initialize_default_roles-NoPermissions _ name
      (hierarchy_roles-NoPermissions config.role_hierarchy [] name (inl h))
