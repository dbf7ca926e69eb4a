-- ===== src/Auth/Rbac/Complete.antt =====
-- roleHasPermission of pkg/auth/rbac.go: a search that answers false has seen every inherited role.
use mcp_sdk_go.Base.Text.{Text, text_eq_iff}
use mcp_sdk_go.Base.Dict.{Dict, lookup}
use mcp_sdk_go.Base.{
  ℕ, zero, suc, ◌≡◌, ◌⊎◌, ◌∙◌, inl, inr, sym, subst, Bool, true, false, List, [], ◌∷◌, Option, none,
  some, arith, any, In, Search-cases,
}
use mcp_sdk_go.Auth.Rbac.{
  Role, string_slice_contains, check_parents, role_has_permission, perm_grants,
}
use mcp_sdk_go.Auth.Rbac.Search.{
  Inherits, itself, parent, Grants, seen, missing, direct, deeper, visit,
}

abbrev pub Marked : List Text → Text → Type 0
Marked v x = string_slice_contains v x ≡ true

pub Marked-cons : (v : List Text) (y x : Text) → Marked (y ∷ v) x → (x ≡ y) ⊎ Marked v x
unfolding string_slice_contains
Marked-cons v y x m = ground (arith, text_eq_iff y x)

pub Marked-keep : (v : List Text) (y x : Text) → Marked v x → Marked (y ∷ v) x
unfolding string_slice_contains
Marked-keep v y x m = ground arith

pub Marked-head : (v : List Text) (y : Text) → Marked (y ∷ v) y
unfolding string_slice_contains
Marked-head v y = ground (arith, text_eq_iff y y)

pub not-Marked-nil : (x : Text) → ¬ Marked [] x
unfolding string_slice_contains
not-Marked-nil x m = cc

module _ (roles : Dict Role) (permission : Text) where
  -- A role that a search has left behind: it grants nothing, and its parents are marked too.
  pub record Done (v : List Text) (x : Text) : Type 0 where
    pub refuses : ¬ Grants roles permission x
    pub closed :
        (role : Role) (q : Text) → lookup x roles ≡ some role → In q role.parent_roles → Marked v q

  -- What a search that answers false does to the visited set.
  pub record Sweep (v w : List Text) : Type 0 where
    pub keeps : (x : Text) → Marked v x → Marked w x
    pub adds : (x : Text) → Marked w x → Marked v x ⊎ Done w x

  Sweep-refl : (v : List Text) → Sweep v v
  Sweep-refl v = record { keeps = λ x m. m; adds = λ x m. inl m }

  Done-mono :
      (v w : List Text) (x : Text) → ((y : Text) → Marked v y → Marked w y) → Done v x → Done w x
  Done-mono v w x keeps d = record {
    refuses = d.refuses;
    closed = λ role q e m. keeps q (d.closed role q e m);
  }

  Sweep-trans : (u v w : List Text) → Sweep u v → Sweep v w → Sweep u w
  Sweep-trans u v w a b = record {
    keeps = λ x m. b.keeps x (a.keeps x m);
    adds = λ x m. elim (b.adds x m) [
      | inr d ↦ inr d
      | inl n ↦ elim (a.adds x n) [ inl k ↦ inl k | inr d ↦ inr (Done-mono v w x b.keeps d) ]
    ];
  }

  check_parents-Sweep :
      (call : Text → List Text → Option (Bool × List Text))
      → ((r : Text) (v w : List Text) → call r v ≡ some (false, w) → Sweep v w × Marked w r)
      → (ps : List Text) (v w : List Text) → check_parents call ps v ≡ some (false, w)
      → Sweep v w × ((q : Text) → In q ps → Marked w q)
  unfolding check_parents
  check_parents-Sweep call sweeps [] v w e =
      let same : v ≡ w = cc in
      subst (λ x. Sweep v x × ((q : Text) → ⊥ → Marked x q)) same (Sweep-refl v, λ q m. absurd m)
  check_parents-Sweep call sweeps (p ∷ ps) v w e = elim (Search-cases (call p v)) [
    | inl h ↦ cc (rw (h, check_parents) at e)
    | inr (inl (u, h)) ↦ cc (rw (h, check_parents) at e)
    | inr (inr (u, h)) ↦
        let (first, marked) = sweeps p v u h in
        let (rest, all) = check_parents-Sweep call sweeps ps u w (rw (h, check_parents) at e) in
        (
          Sweep-trans v u w first rest,
          λ q m. elim m [ inl i ↦ rw i (rest.keeps p marked) | inr n ↦ all q n ],
        )
  ]

  -- A sweep that starts with `r` marked is one from before, once `r` is left behind.
  extend : (r : Text) (v w : List Text) → Sweep (r ∷ v) w → Done w r → Sweep v w
  extend r v w s d = record {
    keeps = λ x m. s.keeps x (Marked-keep v r x m);
    adds = λ x m. elim (s.adds x m) [
      | inr k ↦ inr k
      | inl n ↦ elim (Marked-cons v r x n) [
        | inl i ↦ inr (subst (Done w) (sym i) d)
        | inr k ↦ inl k
      ]
    ];
  }

  missing-Done : (v : List Text) (r : Text) → lookup r roles ≡ none → Done v r
  missing-Done v r absent = record { refuses = λ g. cc (g.declared); closed = λ role q e m. cc }

  same_set :
      (u w : List Text)
      → ◌≡◌ {A = Option (Bool × List Text)} (some (false, u)) (some (false, w))
      → u ≡ w
  same_set u w e = cc

  -- The node itself is left behind once its parents are.
  deeper-Sweep :
      (r : Text) (role : Role) (v w : List Text)
      → lookup r roles ≡ some role
      → any (perm_grants permission) role.permissions ≡ false
      → Sweep (r ∷ v) w
      → ((q : Text) → In q role.parent_roles → Marked w q)
      → Sweep v w × Marked w r
  deeper-Sweep r role v w found d s all = (extend r v w s left, s.keeps r (Marked-head v r))
    where
      left : Done w r
      left = record {
        refuses = λ g. cc (g.declared, g.granted);
        closed = λ role' q e m.
            all q (subst {A = Role} (λ x. In q x.parent_roles) {x = role'} {y = role} (cc) m);
      }

  pub role_has_permission-Sweep :
      (f : ℕ) (r : Text) (v w : List Text)
      → role_has_permission roles permission f r v ≡ some (false, w)
      → Sweep v w × Marked w r
  unfolding role_has_permission
  role_has_permission-Sweep zero r v w e = cc
  role_has_permission-Sweep (suc f) r v w e = elim (visit roles permission f r v) [
    | seen m k ↦ subst (λ x. Sweep v x × Marked x r) (same_set v w (sym k ∙ e)) (Sweep-refl v, m)
    | missing _ absent k ↦
        subst (λ x. Sweep v x × Marked x r) (same_set (r ∷ v) w (sym k ∙ e))
          (extend r v (r ∷ v) (Sweep-refl (r ∷ v)) (missing-Done (r ∷ v) r absent), Marked-head v r)
    | direct role found d k ↦ cc
    | deeper role _ found d k ↦
        let (s, all) =
          check_parents-Sweep (role_has_permission roles permission f) (role_has_permission-Sweep f)
            role.parent_roles (r ∷ v) w (sym k ∙ e) in
        deeper-Sweep r role v w found d s all
  ]

  -- A search from no visited role that answers false: nothing that the role inherits grants.
  pub role_has_permission_complete :
      (f : ℕ) (r : Text) (w : List Text)
      → role_has_permission roles permission f r [] ≡ some (false, w)
      → (s : Text) → Inherits roles r s
      → ¬ Grants roles permission s
  role_has_permission_complete f r w e s path = reach r s path marked
    where
      sweep : Sweep [] w
      sweep = (role_has_permission-Sweep f r [] w e).0

      marked : Marked w r
      marked = (role_has_permission-Sweep f r [] w e).1

      done : (x : Text) → Marked w x → Done w x
      done x m = elim (sweep.adds x m) [ inl n ↦ absurd (not-Marked-nil x n) | inr d ↦ d ]

      reach : (a b : Text) → Inherits roles a b → Marked w a → ¬ Grants roles permission b
      reach a b itself m = (done a m).refuses
      reach a b (parent {q = q} role found i rest) m =
          reach q b rest ((done a m).closed role q found i)
