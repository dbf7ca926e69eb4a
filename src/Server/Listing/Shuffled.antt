-- ===== src/Server/Listing/Shuffled.antt =====
-- The listings of pkg/server/providers.go when a range meets the map in another order: the same items in
-- another order.
use mathlib.Core.List.{Permᴰ}
use mathlib.Core.List.Permᴰ
use mcp_sdk_go.Base.Text.{Text, text_eq}
use mcp_sdk_go.Base.{
  suc, ◌≡◌, ◌∙◌, inl, inr, refl, sym, ap, subst, Bool, any, ◌||◌, List, [], ◌∷◌, length, All, In,
  if◌then◌else◌, arith, Bool-cases,
}
use mcp_sdk_go.Server.Listing.{select}

pub Permᴰ-length : {A : Type 0} {xs ys : List A} → Permᴰ xs ys → length xs ≡ length ys
Permᴰ-length Permᴰ.nil = refl
Permᴰ-length (Permᴰ.cons e p) = ap suc (Permᴰ-length p)
Permᴰ-length (Permᴰ.swap e f) = refl
Permᴰ-length (Permᴰ.trans p q) = Permᴰ-length p ∙ Permᴰ-length q

pub All-perm : {A : Type 0} (P : A → Type 0) {xs ys : List A} → Permᴰ xs ys → All P ys → All P xs
All-perm P Permᴰ.nil a = a
All-perm P (Permᴰ.cons e p) (q, a) = (subst P (sym e) q, All-perm P p a)
All-perm P (Permᴰ.swap e f) (q, (r, a)) = (subst P (sym e) r, (subst P (sym f) q, a))
All-perm P (Permᴰ.trans p q) a = All-perm P p (All-perm P q a)

module _ {A : Type 0} (labels : A → List Text) (name : Text) where
  abbrev picks : A → Bool
  picks x = text_eq name [] || any (λ l. text_eq l name) (labels x)

  select-cons :
      (x : A) (xs : List A)
      → select labels name (x ∷ xs)
        ≡ (if picks x then x ∷ select labels name xs else select labels name xs)
  unfolding select
  select-cons x xs = ground arith

  picked :
      (x : A) (xs ys : List A)
      → Permᴰ xs ys
      → Permᴰ (if picks x then x ∷ xs else xs) (if picks x then x ∷ ys else ys)
  picked x xs ys p = elim (Bool-cases (picks x)) [
    | inl taken ↦ rw taken (Permᴰ.cons refl p)
    | inr left ↦ rw left p
  ]

  select-cons_perm :
      (x : A) (xs ys : List A)
      → Permᴰ (select labels name xs) (select labels name ys)
      → Permᴰ (select labels name (x ∷ xs)) (select labels name (x ∷ ys))
  select-cons_perm x xs ys p =
      rw (select-cons x xs, select-cons x ys)
        (picked x (select labels name xs) (select labels name ys) p)

  picked_both :
      (x y : A) (zs : List A)
      → Permᴰ
          (if picks x
            then x ∷ (if picks y then y ∷ zs else zs)
            else (if picks y then y ∷ zs else zs))
          (if picks y
            then y ∷ (if picks x then x ∷ zs else zs)
            else (if picks x then x ∷ zs else zs))
  picked_both x y zs = elim (Bool-cases (picks x)) [
    | inl p ↦ elim (Bool-cases (picks y)) [
      | inl q ↦ rw (p, q) (Permᴰ.swap refl refl)
      | inr q ↦ rw (p, q) (Permᴰ.refl (x ∷ zs))
    ]
    | inr p ↦ elim (Bool-cases (picks y)) [
      | inl q ↦ rw (p, q) (Permᴰ.refl (y ∷ zs))
      | inr q ↦ rw (p, q) (Permᴰ.refl zs)
    ]
  ]

  select-swap :
      (x y : A) (zs : List A)
      → Permᴰ (select labels name (x ∷ y ∷ zs)) (select labels name (y ∷ x ∷ zs))
  select-swap x y zs =
      rw (select-cons x (y ∷ zs), select-cons y (x ∷ zs))
        (rw (select-cons x zs, select-cons y zs) (picked_both x y (select labels name zs)))

  -- A selection from a list in another order is the selection in another order.
  pub select-perm :
      {xs ys : List A} → Permᴰ xs ys → Permᴰ (select labels name xs) (select labels name ys)
  select-perm Permᴰ.nil = Permᴰ.refl (select labels name [])
  select-perm (Permᴰ.cons {a = a} {b = b} {l₁ = xs} {l₂ = ys} e p) =
      subst (λ z. Permᴰ (select labels name (a ∷ xs)) (select labels name (z ∷ ys))) e
        (select-cons_perm a xs ys (select-perm p))
  select-perm (Permᴰ.swap {a = a} {b = b} {a' = c} {b' = d} {l = zs} e f) =
      subst (λ z. Permᴰ (select labels name (a ∷ b ∷ zs)) (select labels name (c ∷ z ∷ zs))) e
        (subst (λ z. Permᴰ (select labels name (a ∷ b ∷ zs)) (select labels name (z ∷ a ∷ zs))) f
          (select-swap a b zs))
  select-perm (Permᴰ.trans p q) = Permᴰ.trans (select-perm p) (select-perm q)

pub All-In : {A : Type 0} (xs : List A) → All (λ x. In x xs) xs
All-In [] = tt
All-In {A = A} (x ∷ xs) = (inl refl, All-weaken xs (All-In xs))
  where
    All-weaken : (ys : List A) → All (λ y. In y xs) ys → All (λ y. In y (x ∷ xs)) ys
    All-weaken [] a = tt
    All-weaken (y ∷ ys) (p, a) = (inr p, All-weaken ys a)
