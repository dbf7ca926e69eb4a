-- ===== src/Auth/ApiKey.antt =====
-- pkg/auth/apikey.go, with AuthRequest, AuthResult, UserInfo and the codes of AuthError of
-- pkg/auth/auth.go. Times are numbers, and a method that reads the clock takes its time; a provider
-- that a method changes is returned with its result. Keys are ASCII texts,
-- and the length that a configuration gives them is not negative.
pub mod Store
pub mod Checks
pub mod Cleanup
pub mod Creation
pub mod Session
pub mod Spent
pub mod Revocation
use mcp_sdk_go.Base.Int.{ℤ, pos}
use mcp_sdk_go.Base.Text.{Text, codes, text_eq, has_prefix}
use mcp_sdk_go.Base.Dict.{Dict, lookup, insert}
use mcp_sdk_go.Base.{
  ℕ, ◌+◌, ◌*◌, ◌/◌, ◌%◌, Bool, true, false, ◌&&◌, ◌||◌, not, List, [], ◌∷◌, ◌++◌, length, take, any,
  Option, none, some, ltb, leb, ◌==◌, if◌then◌else◌,
}

pub record UserInfo : Type 0 where
  pub id : Text
  pub username : Text
  pub email : Text
  pub roles : List Text
  pub permissions : List Text
  pub attributes : Dict Text
  pub expires_at : Option ℕ

pub record RateLimitConfig : Type 0 where
  pub requests_per_minute : ℤ
  pub requests_per_hour : ℤ
  pub requests_per_day : ℤ

-- apiKeyInfo, what the provider stores of a key.
pub record KeyEntry : Type 0 where
  pub key : Text
  pub user_info : UserInfo
  pub created_at : ℕ
  pub last_used_at : ℕ
  pub expires_at : Option ℕ
  pub revoked : Bool
  pub scopes : List Text
  pub rate_limits : Option RateLimitConfig
  pub description : Text

pub data AuthErrorCode : Type 0 where
  invalid_credentials token_expired token_invalid token_revoked : AuthErrorCode

pub data AuthOutcome {ℓ} (A : Type ℓ) : Type ℓ where
  granted : A → AuthOutcome A
  denied : AuthErrorCode → AuthOutcome A

-- The callback is the code of its user.
pub record ApiKeyProvider : Type 0 where
  pub keys : Dict KeyEntry
  pub key_prefix : Text
  pub key_length : ℕ
  pub validate_callback : Option (Text → AuthOutcome UserInfo)

pub record ApiKeyConfig : Type 0 where
  pub key_prefix : Text
  pub key_length : ℕ
  pub validation_callback : Option (Text → AuthOutcome UserInfo)

unfoldable pub new_api_key_provider : Option ApiKeyConfig → ApiKeyProvider
new_api_key_provider none = record {
  keys = [];
  key_prefix = codes "mcp_";
  key_length = 32;
  validate_callback = none;
}
new_api_key_provider (some config) = record {
  keys = [];
  key_prefix = if text_eq config.key_prefix [] then codes "mcp_" else config.key_prefix;
  key_length = if config.key_length == 0 then 32 else config.key_length;
  validate_callback = config.validation_callback;
}

abbrev pub is_space : ℕ → Bool
is_space b = (b == 32) || (leb 9 b && leb b 13)

unfoldable pub trim_left : Text → Text
trim_left [] = []
trim_left (b ∷ bs) = let rest = trim_left bs in if is_space b then rest else b ∷ bs

-- A byte at the end goes if all behind it does.
unfoldable pub trim_right : Text → Text
trim_right [] = []
trim_right (b ∷ bs) = elim (trim_right bs) [
  | [] ↦ if is_space b then [] else b ∷ []
  | c ∷ cs ↦ b ∷ c ∷ cs
]

-- `strings.TrimSpace`, of an ASCII text.
unfoldable pub trim_space : Text → Text
trim_space s = trim_right (trim_left s)

-- `expiresAt != nil && now.After(*expiresAt)`.
abbrev pub is_past : Option ℕ → ℕ → Bool
is_past none now = false
is_past (some t) now = ltb t now

-- What Validate makes of the entry that it finds.
unfoldable pub check_entry : ℕ → Option KeyEntry → AuthOutcome UserInfo
check_entry now none = denied token_invalid
check_entry now (some info) =
    if info.revoked
    then denied token_revoked
    else if is_past info.expires_at now
    then denied token_expired
    else granted info.user_info

-- The key is looked up without the white space around it.
unfoldable pub validate_stored : ApiKeyProvider → ℕ → Text → AuthOutcome UserInfo
validate_stored p now api_key =
    if not (text_eq p.key_prefix []) && not (has_prefix api_key p.key_prefix)
    then denied token_invalid
    else check_entry now (lookup api_key p.keys)

unfoldable pub validate : ApiKeyProvider → ℕ → Text → AuthOutcome UserInfo
validate p now api_key = elim p.validate_callback [
  | some callback ↦ callback api_key
  | none ↦ validate_stored p now (trim_space api_key)
]

-- The credentials that are strings: another value reads like a missing one.
pub record AuthRequest : Type 0 where
  pub kind : Text
  pub credentials : Dict Text
  pub scopes : List Text

pub record AuthResult : Type 0 where
  pub access_token : Text
  pub token_type : Text
  pub expires_in : ℕ
  pub user_info : UserInfo
  pub issued_at : ℕ
  pub scopes : List Text

-- A credential that is there and not empty.
abbrev pub credential : Text → Dict Text → Option Text
credential name m = elim (lookup name m) [
  | none ↦ none
  | some v ↦ if text_eq v [] then none else some v
]

abbrev pub request_key : AuthRequest → Option Text
request_key req = elim (credential (codes "apiKey") req.credentials) [
  | some k ↦ some k
  | none ↦ credential (codes "key") req.credentials
]

-- `if info, exists := p.keys[apiKey]; exists { info.LastUsedAt = now }`, with the key as it came.
unfoldable pub use_key : ApiKeyProvider → ℕ → Text → ApiKeyProvider
use_key p now api_key = elim (lookup api_key p.keys) [
  | none ↦ p
  | some info ↦ record p { keys = insert api_key (record info { last_used_at = now }) p.keys }
]

unfoldable pub admit_user :
    ApiKeyProvider
    → ℕ
    → AuthRequest
    → Text
    → AuthOutcome UserInfo
    → ApiKeyProvider × AuthOutcome AuthResult
admit_user p now req api_key (denied e) = (p, denied e)
admit_user p now req api_key (granted user) = (
  use_key p now api_key,
  granted (record {
    access_token = api_key;
    token_type = codes "APIKey";
    expires_in = 31536000;
    user_info = user;
    issued_at = now;
    scopes = req.scopes;
  }),
)

unfoldable pub authenticate :
    ApiKeyProvider → ℕ → AuthRequest → ApiKeyProvider × AuthOutcome AuthResult
authenticate p now req =
    if text_eq req.kind (codes "apikey")
    then (elim (request_key req) [
      | none ↦ (p, denied invalid_credentials)
      | some api_key ↦ admit_user p now req api_key (validate p now api_key)
    ])
    else (p, denied invalid_credentials)

-- Keys cannot be refreshed.
unfoldable pub refresh : ApiKeyProvider → Text → AuthOutcome AuthResult
refresh p refresh_token = denied invalid_credentials

unfoldable pub revoke : ApiKeyProvider → Text → ApiKeyProvider × Option AuthErrorCode
revoke p api_key = elim (lookup api_key p.keys) [
  | none ↦ (p, some token_invalid)
  | some info ↦ (record p { keys = insert api_key (record info { revoked = true }) p.keys }, none)
]
