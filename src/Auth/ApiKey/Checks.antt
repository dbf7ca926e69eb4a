-- ===== src/Auth/ApiKey/Checks.antt =====
-- pkg/auth/apikey.go: which keys are accepted, and which texts can be keys.
use mcp_sdk_go.Base.Text.{Text, text_eq, text_eq_iff, has_prefix}
use mcp_sdk_go.Base.Dict.{lookup}
use mcp_sdk_go.Base.{
  ℕ, ◌≡◌, ◌↔◌, inl, inr, refl, sym, subst, true, false, [], none, some, arith, Bool-cases,
  Option-cases,
}
use mcp_sdk_go.Auth.ApiKey.{
  UserInfo, KeyEntry, granted, ApiKeyProvider, trim_space, is_past, check_entry, validate_stored,
  validate,
}

-- A stored key that Validate accepts for a user.
pub record Accepted (p : ApiKeyProvider) (now : ℕ) (key : Text) (user : UserInfo) : Type 0 where
  pub entry : KeyEntry
  pub stored : lookup key p.keys ≡ some entry
  pub prefixed : has_prefix key p.key_prefix ≡ true
  pub in_force : entry.revoked ≡ false
  pub in_time : is_past entry.expires_at now ≡ false
  pub owner : entry.user_info ≡ user

accepted :
    (p : ApiKeyProvider) (now : ℕ) (key : Text) (user : UserInfo)
    → Accepted p now key user
    → validate_stored p now key ≡ granted user
unfolding validate_stored check_entry
accepted p now key user a =
    rw a.prefixed
      (rw (a.stored, check_entry) (rw (a.in_force, a.in_time) (ground (arith, a.owner))))

entry-Accepted :
    (p : ApiKeyProvider) (now : ℕ) (key : Text) (user : UserInfo) (info : KeyEntry)
    → has_prefix key p.key_prefix ≡ true
    → lookup key p.keys ≡ some info
    → check_entry now (some info) ≡ granted user
    → Accepted p now key user
unfolding check_entry
entry-Accepted p now key user info h found e = elim (Bool-cases info.revoked) [
  | inl gone ↦ let r = rw gone at e in absurd (cc)
  | inr stays ↦ elim (Bool-cases (is_past info.expires_at now)) [
    | inl past ↦ let r = rw stays at e in let q = rw past at r in absurd (cc)
    | inr ahead ↦
        let r = rw stays at e in
        let q = rw ahead at r in
        record {
          entry = info;
          stored = found;
          prefixed = h;
          in_force = stays;
          in_time = ahead;
          owner = cc;
        }
  ]
]

has_prefix_nil : (key : Text) → has_prefix key [] ≡ true
unfolding has_prefix
has_prefix_nil key = refl

-- Without the prefix a key is refused, unless the prefix is empty, which every key has.
prefix_checked :
    (p : ApiKeyProvider) (now : ℕ) (key : Text) (user : UserInfo)
    → validate_stored p now key ≡ granted user
    → (has_prefix key p.key_prefix ≡ true) × (check_entry now (lookup key p.keys) ≡ granted user)
unfolding validate_stored
prefix_checked p now key user e = elim (Bool-cases (has_prefix key p.key_prefix)) [
  | inl has ↦ (has, ground (arith, e, has))
  | inr lacks ↦ elim (Bool-cases (text_eq p.key_prefix [])) [
    | inl empty ↦
        let all =
          subst (λ t. has_prefix key t ≡ true) (sym ((text_eq_iff p.key_prefix []).0 empty))
            (has_prefix_nil key) in
        absurd (cc)
    | inr named ↦ absurd (ground (arith, e, lacks, named))
  ]
]

Accepted-of :
    (p : ApiKeyProvider) (now : ℕ) (key : Text) (user : UserInfo)
    → validate_stored p now key ≡ granted user
    → Accepted p now key user
unfolding check_entry
Accepted-of p now key user e =
    let (h, c) = prefix_checked p now key user e in
    elim (Option-cases (lookup key p.keys)) [
      | inl missing ↦ let r = rw missing at c in absurd (cc)
      | inr (info, found) ↦ entry-Accepted p now key user info h found (rw found at c)
    ]

pub validate_without_callback :
    (p : ApiKeyProvider) (now : ℕ) (api_key : Text)
    → p.validate_callback ≡ none
    → validate p now api_key ≡ validate_stored p now (trim_space api_key)
unfolding validate
validate_without_callback p now api_key h = ground arith

-- Without a callback Validate accepts a text for a user exactly if, without the white space around
-- it, it has the prefix and is the key of a stored entry of that user that is neither revoked nor
-- expired.
pub validate-Accepted :
    (p : ApiKeyProvider) (now : ℕ) (api_key : Text) (user : UserInfo)
    → p.validate_callback ≡ none
    → (validate p now api_key ≡ granted user) ↔ Accepted p now (trim_space api_key) user
validate-Accepted p now api_key user none_set =
    rw (validate_without_callback p now api_key none_set)
      (Accepted-of p now (trim_space api_key) user, accepted p now (trim_space api_key) user)
