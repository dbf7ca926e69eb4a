-- ===== src/Auth/ApiKey/Store.antt =====
-- pkg/auth/apikey.go: the methods that create, list, clean up and limit keys.
use mcp_sdk_go.Base.Int.{pos}
use mcp_sdk_go.Base.Text.{Text, codes, text_eq, has_prefix}
use mcp_sdk_go.Base.Dict.{Dict, lookup, insert}
use mcp_sdk_go.Base.{
  ℕ, ◌+◌, ◌*◌, ◌/◌, ◌%◌, Bool, false, ◌&&◌, ◌||◌, not, List, [], ◌∷◌, ◌++◌, length, take, Option,
  none, some, ltb, ◌==◌, if◌then◌else◌,
}
use mcp_sdk_go.Auth.ApiKey.{
  UserInfo, RateLimitConfig, KeyEntry, AuthErrorCode, token_invalid, AuthOutcome, granted, denied,
  ApiKeyProvider, is_past,
}

-- `hex.EncodeToString`: two lower-case digits for each byte.
abbrev pub hex_digit : ℕ → ℕ
hex_digit n = if ltb n 10 then 48 + n else 87 + n

unfoldable pub hex_encode : List ℕ → Text
hex_encode [] = []
hex_encode (b ∷ bs) = hex_digit (b / 16) ∷ hex_digit (b % 16) ∷ hex_encode bs

abbrev pub new_entry : Text → UserInfo → Text → Option ℕ → List Text → ℕ → KeyEntry
new_entry api_key user_info description expires_at scopes now = record {
  key = api_key;
  user_info = user_info;
  created_at = now;
  last_used_at = now;
  expires_at = expires_at;
  revoked = false;
  scopes = scopes;
  rate_limits = none;
  description = description;
}

-- `random` is what rand.Read fills the buffer with, if it does not fail.
unfoldable pub create_api_key :
    ApiKeyProvider
    → UserInfo
    → Text
    → Option ℕ
    → List Text
    → Option (List ℕ)
    → ℕ
    → ApiKeyProvider × AuthOutcome Text
create_api_key p user_info description expires_at scopes none now = (p, denied token_invalid)
create_api_key p user_info description expires_at scopes (some bytes) now =
    let api_key = p.key_prefix ++ hex_encode bytes in
    (
      record p {
        keys =
            insert api_key (new_entry api_key user_info description expires_at scopes now) p.keys;
      },
      granted api_key,
    )

-- APIKeyInfo, what the provider tells of a key.
pub record ApiKeyInfo : Type 0 where
  pub key_prefix : Text
  pub description : Text
  pub created_at : ℕ
  pub last_used_at : ℕ
  pub expires_at : Option ℕ
  pub scopes : List Text

-- `none` is the panic of `info.Key[:8]` at a shorter key.
unfoldable pub list_entries : Text → Text → Dict KeyEntry → Option (List ApiKeyInfo)
list_entries prefix user_id [] = some []
list_entries prefix user_id ((k, info) ∷ keys) =
    let rest = list_entries prefix user_id keys in
    if text_eq info.user_info.id user_id && not info.revoked
    then (if ltb (length info.key) 8 then none else elim rest [
      | none ↦ none
      | some infos ↦ some (
          record {
            key_prefix = prefix ++ take 8 info.key ++ codes "...";
            description = info.description;
            created_at = info.created_at;
            last_used_at = info.last_used_at;
            expires_at = info.expires_at;
            scopes = info.scopes;
          }
          ∷ infos)
    ])
    else rest

unfoldable pub list_api_keys : ApiKeyProvider → Text → Option (List ApiKeyInfo)
list_api_keys p user_id = list_entries p.key_prefix user_id p.keys

unfoldable pub validate_api_key_format : ApiKeyProvider → Text → Bool
validate_api_key_format p api_key =
    if not (text_eq p.key_prefix []) && not (has_prefix api_key p.key_prefix)
    then false
    else length api_key == length p.key_prefix + p.key_length * 2

-- The comparison takes the same time wherever the keys differ, which is not modelled.
unfoldable pub compare_api_keys : Text → Text → Bool
compare_api_keys a b = text_eq a b

abbrev pub is_stale : KeyEntry → ℕ → Bool
is_stale info now = info.revoked || is_past info.expires_at now

unfoldable pub drop_stale : ℕ → Dict KeyEntry → Dict KeyEntry
drop_stale now [] = []
drop_stale now ((k, info) ∷ keys) =
    let rest = drop_stale now keys in if is_stale info now then rest else (k, info) ∷ rest

unfoldable pub cleanup_expired : ApiKeyProvider → ℕ → ApiKeyProvider
cleanup_expired p now = record p { keys = drop_stale now p.keys }

unfoldable pub get_rate_limits : ApiKeyProvider → Text → AuthOutcome RateLimitConfig
get_rate_limits p api_key = elim (lookup api_key p.keys) [
  | none ↦ denied token_invalid
  | some info ↦ elim info.rate_limits [
    | some limits ↦ granted limits
    | none ↦ granted (record {
      requests_per_minute = pos 60;
      requests_per_hour = pos 1000;
      requests_per_day = pos 10000;
    })
  ]
]

unfoldable pub set_rate_limits :
    ApiKeyProvider → Text → Option RateLimitConfig → ApiKeyProvider × Option AuthErrorCode
set_rate_limits p api_key limits = elim (lookup api_key p.keys) [
  | none ↦ (p, some token_invalid)
  | some info ↦
      (record p { keys = insert api_key (record info { rate_limits = limits }) p.keys }, none)
]
