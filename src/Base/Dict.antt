-- ===== src/Base/Dict.antt =====
-- Go's `map[string]V` as an association list: a lookup, a write and a delete, with their laws.
-- The order of the list is the order in which a `range` loop meets the entries.
use mathlib.Core.Path.{◌≡◌, refl, ◌∙◌}
use mathlib.Core.Logic.{inl, inr}
use mathlib.Core.Bool.{true, false}
use mathlib.Core.Option.{Option, none, some}
use mathlib.Core.List.{List, [], ◌∷◌}
use native.Mathlib.Omega.{arith}
use mcp_sdk_go.Base.Tests.{if◌then◌else◌, Bool-cases}
use mcp_sdk_go.Base.Text.{Text, text_eq, text_eq_iff, text_eq_flip}

abbrev pub Dict {ℓ} : Type ℓ → Type ℓ
Dict V = List (Text × V)

module _ {ℓ} {V : Type ℓ} where
  unfoldable pub lookup : Text → Dict V → Option V
  lookup k [] = none
  lookup k ((j, v) ∷ m) = if text_eq j k then some v else lookup k m

  unfoldable pub insert : Text → V → Dict V → Dict V
  insert k v [] = (k, v) ∷ []
  insert k v ((j, w) ∷ m) = if text_eq j k then (k, v) ∷ m else (j, w) ∷ insert k v m

  unfoldable pub remove : Text → Dict V → Dict V
  remove k [] = []
  remove k ((j, w) ∷ m) = if text_eq j k then remove k m else (j, w) ∷ remove k m

  pub lookup-insert :
      (k j : Text) (v : V) (m : Dict V)
      → lookup j (insert k v m) ≡ (if text_eq k j then some v else lookup j m)
  unfolding lookup insert
  lookup-insert k j v [] = refl
  lookup-insert k j v ((i, w) ∷ m) =
      ground (arith, text_eq_iff k j, text_eq_iff i k, text_eq_iff i j, lookup-insert k j v m)

  pub lookup-remove :
      (k j : Text) (m : Dict V) → lookup j (remove k m) ≡ (if text_eq k j then none else lookup j m)
  unfolding lookup remove
  lookup-remove k j [] = ground arith
  lookup-remove k j ((i, w) ∷ m) =
      ground (arith, text_eq_iff k j, text_eq_iff i k, text_eq_iff i j, lookup-remove k j m)

  -- A write under a new key leaves what is there.
  pub insert-keeps :
      (k j : Text) (v w : V) (m : Dict V)
      → lookup k m ≡ none
      → lookup j m ≡ some w
      → lookup j (insert k v m) ≡ some w
  insert-keeps k j v w m h e = ground (arith, lookup-insert k j v m, text_eq_iff k j)

  pub lookup-insert_eq :
      (k j : Text) (v : V) (m : Dict V) → text_eq k j ≡ true → lookup j (insert k v m) ≡ some v
  lookup-insert_eq k j v m h = ground (arith, lookup-insert k j v m)

  pub lookup-insert_ne :
      (k j : Text) (v : V) (m : Dict V) → text_eq k j ≡ false → lookup j (insert k v m) ≡ lookup j m
  lookup-insert_ne k j v m h = ground (arith, lookup-insert k j v m)

-- No key stands twice, as in a map.
abbrev pub Unique {ℓ} : {V : Type ℓ} → Dict V → Type ℓ
Unique [] = Unit
Unique ((k, v) ∷ m) = (lookup k m ≡ none) × Unique m

module _ {ℓ} {V : Type ℓ} where
  pub Unique-insert : (k : Text) (v : V) (m : Dict V) → Unique m → Unique (insert k v m)
  unfolding insert lookup
  Unique-insert k v [] u = (refl, tt)
  Unique-insert k v ((j, w) ∷ m) (h, u) = elim (Bool-cases (text_eq j k)) [
    | inl same ↦ rw same (rw ((text_eq_iff j k).0 same) at h, u)
    | inr other ↦
        rw other (lookup-insert_ne k j v m (text_eq_flip j k other) ∙ h, Unique-insert k v m u)
  ]

  pub Unique-remove : (k : Text) (m : Dict V) → Unique m → Unique (remove k m)
  unfolding remove
  Unique-remove k [] u = tt
  Unique-remove k ((j, w) ∷ m) (h, u) = elim (Bool-cases (text_eq j k)) [
    | inl same ↦ rw same (Unique-remove k m u)
    | inr other ↦ rw other (ground (arith, lookup-remove k j m, h), Unique-remove k m u)
  ]
