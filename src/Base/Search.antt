-- ===== src/Base/Search.antt =====
-- What the loop that returns at the first element that passes finds.
use mathlib.Core.Path.{◌≡◌, refl, sym}
use mathlib.Core.Logic.{inl, inr}
use mathlib.Core.Bool.{Bool, true}
use mathlib.Core.List.{List, [], ◌∷◌}
use native.Mathlib.Omega.{arith}
use mcp_sdk_go.Base.Tests.{Bool-cases}
use mcp_sdk_go.Base.Lists.{any, In}

pub any-In :
    {A : Type 0} (f : A → Bool) (xs : List A) → any f xs ≡ true → (x : A) × In x xs × (f x ≡ true)
any-In f [] h = absurd (cc)
any-In f (x ∷ xs) h = elim (Bool-cases (f x)) [
  | inl passes ↦ (x, inl refl, passes)
  | inr fails ↦ let (y, k, e) = any-In f xs (ground arith) in (y, inr k, e)
]

pub In-any :
    {A : Type 0} (f : A → Bool) (x : A) (xs : List A) → In x xs → f x ≡ true → any f xs ≡ true
In-any f x [] k e = absurd k
In-any f x (y ∷ ys) (inl q) e = rw (sym q, e) refl
In-any f x (y ∷ ys) (inr k) e = rw (In-any f x ys k e) (ground arith)
