-- ===== src/Auth/Rbac/Roles.antt =====
-- pkg/auth/rbac.go: which permissions a pattern matches, and what the operations on roles and
-- users keep.
use mcp_sdk_go.Base.Text.{
  Text, codes, text_eq, text_eq_iff, has_prefix, has_prefix-append, has_prefix→append,
}
use mcp_sdk_go.Base.Dict.{Dict, lookup, insert, remove, lookup-insert, lookup-remove}
use mcp_sdk_go.Base.{
  ℕ, ◌≡◌, ◌≢◌, ◌⊎◌, ◌↔◌, ◌∙◌, inl, inr, refl, ap, true, false, List, [], ◌∷◌, ◌++◌, none, some,
  arith, if◌then◌else◌, ◌==◌, Option-cases, Bool-cases,
}
use mcp_sdk_go.Auth.Rbac.{
  Role, RbacProvider, string_slice_contains, remove_string_from_slice, unsnoc, match_permission,
  perm_grants, entry, create_role, delete_role, drop_role_of_users, assign_role, remove_role,
}

unsnoc-append : (p : Text) (c : ℕ) → unsnoc (p ++ c ∷ []) ≡ some (p, c)
unfolding unsnoc
unsnoc-append [] c = refl
unsnoc-append (x ∷ p) c = rw (unsnoc-append p c, unsnoc)

unsnoc-cases :
    (s : Text)
    → ((s ≡ []) × (unsnoc s ≡ none))
      ⊎ ((p : Text) × (c : ℕ) × (s ≡ p ++ c ∷ []) × (unsnoc s ≡ some (p, c)))
unfolding unsnoc
unsnoc-cases [] = inl (refl, refl)
unsnoc-cases (x ∷ xs) = elim (unsnoc-cases xs) [
  | inl (e, h) ↦ inr ([], x, ap (◌∷◌ x) e, rw (h, unsnoc))
  | inr (p, c, e, h) ↦ inr (x ∷ p, c, ap (◌∷◌ x) e, rw (h, unsnoc))
]

-- `perm` is the permission itself, or a pattern `prefix*` of which it continues the prefix.
abbrev pub Matches : Text → Text → Type 0
Matches perm permission =
    (perm ≡ permission)
    ⊎ ((prefix : Text) × (t : Text) × (perm ≡ prefix ++ codes "*") × (permission ≡ prefix ++ t))

match_permission_sound :
    (perm permission : Text) → match_permission perm permission ≡ true → Matches perm permission
unfolding match_permission
match_permission_sound perm permission e = elim (unsnoc-cases perm) [
  | inl (_, h) ↦ inl ((text_eq_iff perm permission).0 (rw (h, match_permission) at e))
  | inr (p, c, s, h) ↦ star p c s (rw (h, match_permission) at e)
]
  where
    star :
        (p : Text) (c : ℕ)
        → perm ≡ p ++ c ∷ []
        → (if c == b'*' then has_prefix permission p else text_eq perm permission) ≡ true
        → Matches perm permission
    star p c s h = elim (Bool-cases (c == b'*')) [
      | inr plain ↦ inl ((text_eq_iff perm permission).0 (ground arith))
      | inl hit ↦
          let (t, continues) = has_prefix→append permission p (ground arith) in
          let byte : c ≡ b'*' = ground arith in
          inr (p, t, s ∙ ap (λ b. p ++ b ∷ []) byte, continues)
    ]

match_permission-star :
    (prefix t : Text) → match_permission (prefix ++ codes "*") (prefix ++ t) ≡ true
unfolding match_permission
match_permission-star prefix t =
    rw (unsnoc-append prefix b'*', match_permission) (has_prefix-append prefix t)

-- The test of a role's permission holds exactly for the permission itself and for a pattern that
-- ends in a star, whose prefix the permission continues.
pub perm_grants_iff :
    (permission perm : Text) → (perm_grants permission perm ≡ true) ↔ Matches perm permission
unfolding perm_grants
perm_grants_iff permission perm = (sound, complete)
  where
    sound : perm_grants permission perm ≡ true → Matches perm permission
    sound e = elim (Bool-cases (text_eq perm (codes "*"))) [
      | inl all ↦ inr ([], permission, (text_eq_iff perm (codes "*")).0 all, refl)
      | inr not_all ↦ elim (Bool-cases (text_eq perm permission)) [
        | inl same ↦ inl ((text_eq_iff perm permission).0 same)
        | inr other ↦ match_permission_sound perm permission (ground arith)
      ]
    ]

    complete : Matches perm permission → perm_grants permission perm ≡ true
    complete (inl e) = ground (arith, text_eq_iff perm permission)
    complete (inr (p, t, e, k)) =
        let hit : match_permission perm permission ≡ true = rw (e, k) (match_permission-star p t) in
        ground arith

-- Every role that a user holds is declared.
pub record IsConsistent (p : RbacProvider) : Type 0 where
  pub held :
      (u r : Text) → string_slice_contains (entry u p.user_roles) r ≡ true → lookup r p.roles ≢ none

contains-append :
    (xs : List Text) (y x : Text)
    → string_slice_contains (xs ++ y ∷ []) x ≡ true
    → (x ≡ y) ⊎ (string_slice_contains xs x ≡ true)
unfolding string_slice_contains
contains-append [] y x e = ground (arith, text_eq_iff y x)
contains-append (z ∷ xs) y x e = ground (arith, contains-append xs y x)

pub contains-remove :
    (xs : List Text) (y x : Text)
    → string_slice_contains (remove_string_from_slice xs y) x
      ≡ (if text_eq y x then false else string_slice_contains xs x)
unfolding string_slice_contains remove_string_from_slice
contains-remove [] y x = ground arith
contains-remove (z ∷ xs) y x =
    ground (arith, contains-remove xs y x, text_eq_iff y x, text_eq_iff z y, text_eq_iff z x)

pub lookup-drop_role_of_users :
    (name u : Text) (m : Dict (List Text))
    → entry u (drop_role_of_users name m) ≡ remove_string_from_slice (entry u m) name
unfolding drop_role_of_users lookup remove_string_from_slice
lookup-drop_role_of_users name u [] = refl
lookup-drop_role_of_users name u ((j, rs) ∷ m) = ground (arith, lookup-drop_role_of_users name u m)

lookup-insert-ne_none :
    (k j : Text) (v : Role) (m : Dict Role) → lookup j m ≢ none → lookup j (insert k v m) ≢ none
lookup-insert-ne_none k j v m h e =
    ground (arith, lookup-insert k j v m, h (ground (arith, lookup-insert k j v m)))

pub create_role-IsConsistent :
    (p : RbacProvider) (name description : Text) (perms parents : List Text)
    → IsConsistent p
    → IsConsistent (create_role p name description perms parents).0
unfolding create_role
create_role-IsConsistent p name description perms parents c =
    elim (Option-cases (lookup name p.roles)) [
      | inr (role, e) ↦ rw (e, create_role) c
      | inl e ↦
          rw (e, create_role)
            (record { held = λ u r h. lookup-insert-ne_none name r _ p.roles (c.held u r h) })
    ]

delete_role-held :
    (p : RbacProvider) (name u r : Text)
    → IsConsistent p
    → string_slice_contains (entry u (drop_role_of_users name p.user_roles)) r ≡ true
    → lookup r (remove name p.roles) ≢ none
delete_role-held p name u r c h =
    let kept : (if text_eq name r then false else string_slice_contains (entry u p.user_roles) r)
        ≡ true =
      rw
        (
          lookup-drop_role_of_users name u p.user_roles,
          contains-remove (entry u p.user_roles) name r,
        )
        at h in
    λ e. c.held u r (ground arith) (ground (arith, lookup-remove name r p.roles))

pub delete_role-IsConsistent :
    (p : RbacProvider) (name : Text) → IsConsistent p → IsConsistent (delete_role p name).0
unfolding delete_role
delete_role-IsConsistent p name c = elim (Bool-cases (text_eq name p.default_role)) [
  | inl d ↦ rw d c
  | inr d ↦ rw d (record { held = λ u r h. delete_role-held p name u r c h })
]

entry-insert :
    (k u : Text) (v : List Text) (m : Dict (List Text))
    → entry u (insert k v m) ≡ (if text_eq k u then v else entry u m)
entry-insert k u v m = ground (arith, lookup-insert k u v m)

assign_role-held :
    (p : RbacProvider) (user_id name u r : Text)
    → IsConsistent p
    → lookup name p.roles ≢ none
    → string_slice_contains
        (entry u (insert user_id (entry user_id p.user_roles ++ name ∷ []) p.user_roles))
        r
      ≡ true
    → lookup r p.roles ≢ none
assign_role-held p user_id name u r c declared h = elim (Bool-cases (text_eq user_id u)) [
  | inr other ↦ c.held u r (rw (entry-insert user_id u _ p.user_roles, other) at h)
  | inl same ↦
      elim (contains-append (entry user_id p.user_roles) name r
        (rw (entry-insert user_id u _ p.user_roles, same) at h)) [
          | inl e ↦ rw e declared
          | inr k ↦ c.held user_id r k
        ]
]

pub assign_role-IsConsistent :
    (p : RbacProvider) (user_id name : Text)
    → IsConsistent p
    → IsConsistent (assign_role p user_id name).0
unfolding assign_role
assign_role-IsConsistent p user_id name c = elim (Option-cases (lookup name p.roles)) [
  | inl e ↦ rw (e, assign_role) c
  | inr (role, e) ↦ elim (Bool-cases (string_slice_contains (entry user_id p.user_roles) name)) [
    | inl d ↦ rw (e, assign_role) (rw d c)
    | inr d ↦
        rw (e, assign_role)
          (rw d (record { held = λ u r h. assign_role-held p user_id name u r c (λ k. cc) h }))
  ]
]

remove_role-held :
    (p : RbacProvider) (user_id name u r : Text)
    → IsConsistent p
    → string_slice_contains
        (entry u (
          insert user_id (remove_string_from_slice (entry user_id p.user_roles) name) p.user_roles))
        r
      ≡ true
    → lookup r p.roles ≢ none
remove_role-held p user_id name u r c h = elim (Bool-cases (text_eq user_id u)) [
  | inr other ↦ c.held u r (rw (entry-insert user_id u _ p.user_roles, other) at h)
  | inl same ↦
      let kept = rw (entry-insert user_id u _ p.user_roles, same) at h in
      let e = contains-remove (entry user_id p.user_roles) name r in c.held user_id r (ground arith)
]

pub remove_role-IsConsistent :
    (p : RbacProvider) (user_id name : Text)
    → IsConsistent p
    → IsConsistent (remove_role p user_id name).0
unfolding remove_role
remove_role-IsConsistent p user_id name c = record {
  held = λ u r h. remove_role-held p user_id name u r c h;
}
