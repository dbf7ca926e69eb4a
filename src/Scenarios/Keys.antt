-- ===== src/Scenarios/Keys.antt =====
-- pkg/auth/apikey.go: a key that is made, used with white space around it, revoked and cleaned away.
use mcp_sdk_go.Base.Text.{Text, codes, text_eq, has_prefix}
use mcp_sdk_go.Base.Dict.{lookup, Unique}
use mcp_sdk_go.Base.{◌≡◌, ◌↔◌, refl, true, [], ◌∷◌, ◌++◌, none, some, arith}
use mcp_sdk_go.Auth.ApiKey.{
  UserInfo, AuthErrorCode, granted, denied, ApiKeyProvider, trim_left, trim_right, trim_space,
  check_entry, validate_stored, validate, AuthRequest, AuthResult, request_key, admit_user,
  authenticate, revoke,
}
use mcp_sdk_go.Auth.ApiKey.Store.{
  hex_encode, new_entry, create_api_key, validate_api_key_format, cleanup_expired,
}
use mcp_sdk_go.Auth.ApiKey.Checks.{Accepted, validate-Accepted}
use mcp_sdk_go.Auth.ApiKey.Cleanup.{cleanup_expired-validate}
use mcp_sdk_go.Auth.ApiKey.Creation.{create_api_key-validate}
use mcp_sdk_go.Auth.ApiKey.Revocation.{cleans, revokes, after_calls, revoke_lasts}
use mcp_sdk_go.Auth.ApiKey.Session.{authenticate-validate}

abbrev ann : UserInfo
ann = record {
  id = codes "ann";
  username = [];
  email = [];
  roles = [];
  permissions = [];
  attributes = [];
  expires_at = none;
}

abbrev key : Text
key = codes "k_00ff"

abbrev holder : ApiKeyProvider
holder = record {
  keys = (key, new_entry key ann [] (some 100) (codes "read" ∷ []) 1) ∷ [];
  key_prefix = codes "k_";
  key_length = 2;
  validate_callback = none;
}

stored_once : Unique holder.keys
unfolding lookup
stored_once = (refl, tt)

trimmed : trim_space (codes " k_00ff\n") ≡ key
unfolding trim_space trim_left trim_right
trimmed = refl

validate-Accepted_example :
    (validate holder 50 (codes " k_00ff\n") ≡ granted ann)
    ↔ Accepted holder 50 (trim_space (codes " k_00ff\n")) ann
validate-Accepted_example = validate-Accepted holder 50 (codes " k_00ff\n") ann refl

cleanup_expired-validate_example :
    (validate (cleanup_expired holder 20) 50 key ≡ granted ann)
    ↔ (validate holder 50 key ≡ granted ann)
cleanup_expired-validate_example =
    cleanup_expired-validate holder 20 50 key ann refl stored_once (omega arith)

abbrev empty_holder : ApiKeyProvider
empty_holder = record holder { keys = [] }

plain_key :
    trim_space (codes "k_" ++ hex_encode (0 ∷ 255 ∷ [])) ≡ codes "k_" ++ hex_encode (0 ∷ 255 ∷ [])
unfolding trim_space trim_left trim_right hex_encode
plain_key = refl

create_api_key-validate_example :
    ((create_api_key empty_holder ann [] (some 100) [] (some (0 ∷ 255 ∷ [])) 1).1
      ≡ granted (codes "k_" ++ hex_encode (0 ∷ 255 ∷ [])))
    × (validate_api_key_format empty_holder (codes "k_" ++ hex_encode (0 ∷ 255 ∷ [])) ≡ true)
    × (validate
          (create_api_key empty_holder ann [] (some 100) [] (some (0 ∷ 255 ∷ [])) 1).0
          99
          (codes "k_" ++ hex_encode (0 ∷ 255 ∷ []))
        ≡ granted ann)
create_api_key-validate_example =
    create_api_key-validate empty_holder ann [] (some 100) [] (0 ∷ 255 ∷ []) 1 99 refl refl refl
      plain_key

revoked : (revoke holder key).1 ≡ none
unfolding revoke lookup text_eq
revoked = refl

revoke_lasts_example :
    (e : AuthErrorCode) × (validate
        (after_calls (revoke holder key).0 (cleans 5 ∷ revokes key ∷ []))
        50
        (codes " k_00ff\n")
      ≡ denied e)
revoke_lasts_example =
    revoke_lasts holder key (cleans 5 ∷ revokes key ∷ []) 50 (codes " k_00ff\n") refl stored_once
      revoked (tt, (tt, tt)) trimmed

abbrev request : AuthRequest
request = record {
  kind = codes "apikey";
  credentials = (codes "key", key) ∷ [];
  scopes = codes "admin" ∷ [];
}

abbrev session : AuthResult
session = record {
  access_token = key;
  token_type = codes "APIKey";
  expires_in = 31536000;
  user_info = ann;
  issued_at = 50;
  scopes = codes "admin" ∷ [];
}

-- The key is for reading only, and the session is for administration.
lets_in : (authenticate holder 50 request).1 ≡ granted session
unfolding authenticate admit_user validate validate_stored check_entry trim_space trim_left
    trim_right lookup text_eq has_prefix
lets_in = refl

authenticate-validate_example :
    (k : Text) × (request_key request ≡ some k)
    × (validate holder 50 k ≡ granted ann)
    × (session.access_token ≡ k)
    × (session.scopes ≡ request.scopes)
authenticate-validate_example = authenticate-validate holder 50 request session lets_in
