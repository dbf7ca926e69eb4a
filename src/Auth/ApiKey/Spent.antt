-- ===== src/Auth/ApiKey/Spent.antt =====
-- pkg/auth/apikey.go: a map of keys in which one key is of no use.
use mcp_sdk_go.Base.Text.{Text, text_eq, text_eq_iff}
use mcp_sdk_go.Base.Dict.{Dict, lookup, insert, Unique}
use mcp_sdk_go.Base.{
  ℕ, ◌≡◌, ◌⊎◌, inl, inr, ◌∙◌, subst, true, false, [], ◌∷◌, All, none, some, Bool-cases,
}
use mcp_sdk_go.Auth.ApiKey.{KeyEntry}
use mcp_sdk_go.Auth.ApiKey.Store.{is_stale, drop_stale}

-- What is stored under the key is revoked.
abbrev pub OtherOrRevoked : Text → Text × KeyEntry → Type 0
OtherOrRevoked key (k, info) = (text_eq k key ≡ false) ⊎ (info.revoked ≡ true)

abbrev pub Spent : Text → Dict KeyEntry → Type 0
Spent key m = All (OtherOrRevoked key) m

pub Spent-insert :
    (key j : Text) (v : KeyEntry) (m : Dict KeyEntry)
    → OtherOrRevoked key (j, v)
    → Spent key m
    → Spent key (insert j v m)
unfolding insert
Spent-insert key j v [] new s = (new, tt)
Spent-insert key j v ((i, w) ∷ m) new (old, s) = elim (Bool-cases (text_eq i j)) [
  | inl same ↦ rw same (new, s)
  | inr other ↦ rw other (old, Spent-insert key j v m new s)
]

pub Spent-drop_stale :
    (key : Text) (now : ℕ) (m : Dict KeyEntry) → Spent key m → Spent key (drop_stale now m)
unfolding drop_stale
Spent-drop_stale key now [] s = tt
Spent-drop_stale key now ((k, info) ∷ m) (old, s) = elim (Bool-cases (is_stale info now)) [
  | inl stale ↦ rw stale (Spent-drop_stale key now m s)
  | inr fresh ↦ rw fresh (old, Spent-drop_stale key now m s)
]

pub Spent-lookup :
    (key : Text) (m : Dict KeyEntry) (info : KeyEntry)
    → Spent key m
    → lookup key m ≡ some info
    → info.revoked ≡ true
unfolding lookup
Spent-lookup key [] info s e = absurd (cc)
Spent-lookup key ((k, v) ∷ m) info (old, s) e = elim (Bool-cases (text_eq k key)) [
  | inl same ↦
      let q = rw same at e in
      elim old [
        | inl other ↦ absurd (cc)
        | inr gone ↦ let it : v ≡ info = cc in subst (λ (i : KeyEntry). i.revoked ≡ true) it gone
      ]
  | inr other ↦ Spent-lookup key m info s (rw other at e)
]

pub absent-Spent : (key : Text) (m : Dict KeyEntry) → lookup key m ≡ none → Spent key m
unfolding lookup
absent-Spent key [] e = tt
absent-Spent key ((k, v) ∷ m) e = elim (Bool-cases (text_eq k key)) [
  | inl same ↦ let q = rw same at e in absurd (cc)
  | inr other ↦ (inl other, absent-Spent key m (rw other at e))
]

pub Spent-revoked :
    (key : Text) (v : KeyEntry) (m : Dict KeyEntry)
    → Unique m
    → v.revoked ≡ true
    → Spent key (insert key v m)
unfolding insert
Spent-revoked key v [] u gone = (inr gone, tt)
Spent-revoked key v ((k, w) ∷ m) (fresh, u) gone = elim (Bool-cases (text_eq k key)) [
  | inl same ↦ rw same (
    inr gone,
    absent-Spent key m (subst (λ i. lookup i m ≡ none) ((text_eq_iff k key).0 same) fresh),
  )
  | inr other ↦ rw other (inl other, Spent-revoked key v m u gone)
]

-- A change of an entry that leaves its revocation.
pub Spent-update :
    (key j : Text) (info v : KeyEntry) (m : Dict KeyEntry)
    → lookup j m ≡ some info
    → v.revoked ≡ info.revoked
    → Spent key m
    → Spent key (insert j v m)
Spent-update key j info v m found same s = elim (Bool-cases (text_eq j key)) [
  | inr other ↦ Spent-insert key j v m (inl other) s
  | inl it ↦
      let found_key = subst (λ i. lookup i m ≡ some info) ((text_eq_iff j key).0 it) found in
      Spent-insert key j v m (inr (same ∙ Spent-lookup key m info s found_key)) s
]
