-- ===== src/Auth/ApiKey/Cleanup.antt =====
-- pkg/auth/apikey.go: what CleanupExpired leaves.
use mcp_sdk_go.Base.Text.{Text, text_eq_iff}
use mcp_sdk_go.Base.Dict.{Dict, lookup, Unique}
use mcp_sdk_go.Base.{
  ℕ, ◌≤◌, ◌≡◌, ◌↔◌, inl, inr, refl, ◌∙◌, false, [], ◌∷◌, none, some, arith, Bool-cases,
  Option-cases, if◌then◌else◌,
}
use mcp_sdk_go.Auth.ApiKey.{UserInfo, KeyEntry, granted, ApiKeyProvider, is_past, validate}
use mcp_sdk_go.Auth.ApiKey.Checks.{Accepted, validate-Accepted}
use mcp_sdk_go.Auth.ApiKey.Store.{is_stale, drop_stale, cleanup_expired}

-- What is left of an entry after a clean-up.
lookup-drop_stale :
    (now : ℕ) (key : Text) (m : Dict KeyEntry)
    → Unique m
    → lookup key (drop_stale now m) ≡ elim (lookup key m) [
      | none ↦ none
      | some info ↦ if is_stale info now then none else some info
    ]
unfolding drop_stale lookup
lookup-drop_stale now key [] u = refl
lookup-drop_stale now key ((k, info) ∷ m) (fresh, u) =
    ground (arith, lookup-drop_stale now key m u, text_eq_iff k key, fresh)

survives :
    (now : ℕ) (key : Text) (m : Dict KeyEntry) (info : KeyEntry)
    → Unique m
    → lookup key m ≡ some info
    → is_stale info now ≡ false
    → lookup key (drop_stale now m) ≡ some info
survives now key m info u found fresh = lookup-drop_stale now key m u ∙ rw found (rw fresh refl)

was_there :
    (now : ℕ) (key : Text) (m : Dict KeyEntry) (info : KeyEntry)
    → Unique m
    → lookup key (drop_stale now m) ≡ some info
    → lookup key m ≡ some info
was_there now key m info u left = elim (Option-cases (lookup key m)) [
  | inl missing ↦
      let r = rw (lookup-drop_stale now key m u) at left in let q = rw missing at r in absurd (cc)
  | inr (old, found) ↦ elim (Bool-cases (is_stale old now)) [
    | inl stale ↦
        let r = rw (lookup-drop_stale now key m u) at left in
        let q = rw found at r in let z = rw stale at q in absurd (cc)
    | inr fresh ↦
        let r = rw (lookup-drop_stale now key m u) at left in
        let q = rw found at r in let z = rw fresh at q in found ∙ z
  ]
]

-- What is in force later is not stale now.
not_stale :
    (info : KeyEntry) (now later : ℕ)
    → now ≤ later
    → info.revoked ≡ false
    → is_past info.expires_at later ≡ false
    → is_stale info now ≡ false
not_stale info now later t stays ahead = elim (Option-cases info.expires_at) [
  | inl never ↦ rw (stays, never) refl
  | inr (at, e) ↦ let r = rw e at ahead in rw (stays, e) (ground arith)
]

module _ (p : ApiKeyProvider) (now later : ℕ) (key : Text) (user : UserInfo) (u : Unique p.keys)
    (t : now ≤ later) where
  Accepted-cleanup_expired :
      Accepted p later key user → Accepted (cleanup_expired p now) later key user
  unfolding cleanup_expired
  Accepted-cleanup_expired a = record {
    entry = a.entry;
    stored =
        survives now key p.keys a.entry u a.stored
          (not_stale a.entry now later t a.in_force a.in_time);
    prefixed = a.prefixed;
    in_force = a.in_force;
    in_time = a.in_time;
    owner = a.owner;
  }

  Accepted-before_cleanup :
      Accepted (cleanup_expired p now) later key user → Accepted p later key user
  unfolding cleanup_expired
  Accepted-before_cleanup a = record {
    entry = a.entry;
    stored = was_there now key p.keys a.entry u a.stored;
    prefixed = a.prefixed;
    in_force = a.in_force;
    in_time = a.in_time;
    owner = a.owner;
  }

cleanup_expired_callback :
    (p : ApiKeyProvider) (now : ℕ)
    → p.validate_callback ≡ none
    → (cleanup_expired p now).validate_callback ≡ none
unfolding cleanup_expired
cleanup_expired_callback p now h = h

-- Cleaning up does not change who is let in, then or later: CleanupExpired removes only keys that
-- Validate refuses already, and it removes no other. There is no callback, and no key is stored twice.
pub cleanup_expired-validate :
    (p : ApiKeyProvider) (now later : ℕ) (api_key : Text) (user : UserInfo)
    → p.validate_callback ≡ none
    → Unique p.keys
    → now ≤ later
    → (validate (cleanup_expired p now) later api_key ≡ granted user)
      ↔ (validate p later api_key ≡ granted user)
cleanup_expired-validate p now later api_key user h u t =
    let before = validate-Accepted p later api_key user h in
    let after =
      validate-Accepted (cleanup_expired p now) later api_key user
        (cleanup_expired_callback p now h) in
    (
      λ e. before.1 (Accepted-before_cleanup p now later _ user u t (after.0 e)),
      λ e. after.1 (Accepted-cleanup_expired p now later _ user u t (before.0 e)),
    )
