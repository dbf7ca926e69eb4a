-- ===== src/Auth/Middleware.antt =====
-- AuthMiddleware and TokenCache of pkg/auth/middleware.go. The provider is what Validate answers at a
-- time; a call takes its time, and the order in which a range over the cache would meet the entries. The
-- next transport is called exactly when a call is forwarded, with the user that it is for. Texts are
-- ASCII.
pub mod Vouching
pub mod Admitted
use mcp_sdk_go.Base.Int.{ℤ, pos, leb_ℤ}
use mcp_sdk_go.Base.Text.{Text, codes, text_eq, has_prefix}
use mcp_sdk_go.Base.Dict.{Dict, lookup, insert, remove}
use mcp_sdk_go.Base.{
  ℕ, ◌+◌, Bool, true, false, not, ◌&&◌, ◌||◌, List, [], ◌∷◌, length, drop, any, Option, none, some,
  leb, if◌then◌else◌,
}
use mcp_sdk_go.Auth.ApiKey.{UserInfo, AuthErrorCode, AuthOutcome, granted, denied, trim_space}
use mcp_sdk_go.Server.Http.Sessions.{add_time, is_after}

pub record CacheEntry : Type 0 where
  pub user_info : UserInfo
  pub expires_at : ℤ

pub record TokenCache : Type 0 where
  pub entries : Dict CacheEntry
  pub max_size : ℤ
  pub ttl : ℤ

pub record TokenCacheConfig : Type 0 where
  pub enabled : Bool
  pub max_size : ℤ
  pub ttl : ℤ

-- What the middleware reads of RBACConfig, and of AuthConfig.
pub record MethodPermissions : Type 0 where
  pub enabled : Bool
  pub resource_permissions : Dict (List Text)

pub record AuthConfig : Type 0 where
  pub required : Bool
  pub allow_anonymous : Bool
  pub cache_config : Option TokenCacheConfig
  pub rbac : Option MethodPermissions

pub record AuthMiddleware : Type 0 where
  pub config : AuthConfig
  pub token_cache : Option TokenCache

unfoldable pub auth_config : Option AuthConfig → AuthConfig
auth_config none = record {
  required = true;
  allow_anonymous = false;
  cache_config = none;
  rbac = none;
}
auth_config (some config) = config

unfoldable pub new_token_cache : Option TokenCacheConfig → Option TokenCache
new_token_cache none = none
new_token_cache (some c) =
    if c.enabled then some (record { entries = []; max_size = c.max_size; ttl = c.ttl }) else none

unfoldable pub new_auth_middleware : Option AuthConfig → AuthMiddleware
new_auth_middleware config = record {
  config = auth_config config;
  token_cache = new_token_cache (auth_config config).cache_config;
}

unfoldable pub get_cached : TokenCache → Text → ℕ → Option UserInfo
get_cached c token now = elim (lookup token c.entries) [
  | none ↦ none
  | some e ↦ if is_after now e.expires_at then none else some e.user_info
]

-- The entry that the range meets first goes.
abbrev pub evict : List (Text × CacheEntry) → Dict CacheEntry → Dict CacheEntry
evict [] entries = entries
evict ((k, e) ∷ rest) entries = remove k entries

unfoldable pub set_cached :
    TokenCache → Text → UserInfo → ℕ → (Dict CacheEntry → Dict CacheEntry) → TokenCache
set_cached c token user now order =
    let kept =
      if leb_ℤ c.max_size (pos (length c.entries))
      then evict (order c.entries) c.entries
      else c.entries in
    record c {
      entries = insert token (record { user_info = user; expires_at = add_time now c.ttl }) kept;
    }

unfoldable pub drop_expired : ℕ → Dict CacheEntry → Dict CacheEntry
drop_expired now [] = []
drop_expired now ((k, e) ∷ m) =
    let rest = drop_expired now m in if is_after now e.expires_at then rest else (k, e) ∷ rest

-- One tick of the cleanup of the cache, if there is one.
unfoldable pub clean_cache : AuthMiddleware → ℕ → AuthMiddleware
clean_cache m now = elim m.token_cache [
  | none ↦ m
  | some c ↦ record m { token_cache = some (record c { entries = drop_expired now c.entries }) }
]

unfoldable pub is_anonymous_allowed : AuthConfig → Text → Bool
is_anonymous_allowed config method =
    config.allow_anonymous
    && any (text_eq method) (codes "initialize" ∷ codes "ping" ∷ codes "health" ∷ [])

-- Whether a call, or a batch, may come without a token.
abbrev pub call_is_free : AuthConfig → Text → Bool
call_is_free config method = not (config.required && not (is_anonymous_allowed config method))

abbrev pub batch_is_free : AuthConfig → Bool
batch_is_free config = not config.required

abbrev pub member : List Text → Text → Bool
member names name = any (text_eq name) names

-- Of the roles, an admin has every permission, a user and a guest those of their list.
unfoldable pub has_role_permission : Text → List Text → Bool
has_role_permission role required =
    if text_eq role (codes "admin")
    then true
    else if text_eq role (codes "user")
    then any (member (codes "read" ∷ codes "list" ∷ [])) required
    else if text_eq role (codes "guest")
    then any (member (codes "read" ∷ [])) required
    else false

unfoldable pub has_required : UserInfo → List Text → Bool
has_required user required =
    any (member user.permissions) required
    || any (λ role. has_role_permission role required) user.roles

unfoldable pub check_permission : AuthConfig → UserInfo → Text → Bool
check_permission config user method = elim config.rbac [
  | none ↦ true
  | some rbac ↦
      if rbac.enabled
      then elim (lookup method rbac.resource_permissions) [
        | none ↦ true
        | some required ↦ has_required user required
      ]
      else true
]

unfoldable pub check_all : AuthConfig → UserInfo → List Text → Bool
check_all config user [] = true
check_all config user (method ∷ methods) =
    check_permission config user method && check_all config user methods

-- A call is forwarded, for a user or for nobody, or refused.
pub data Admission : Type 0 where
  forwards : Option UserInfo → Admission
  auth_required access_denied : Admission
  not_valid : AuthErrorCode → Admission

-- What the prefix of an `_authorization` parameter leaves; `lower` is strings.ToLower.
abbrev pub lower : Text → Text
lower [] = []
lower (b ∷ bs) = (if leb 65 b && leb b 90 then b + 32 else b) ∷ lower bs

unfoldable pub token_of_authorization : Text → Text
token_of_authorization auth =
    if has_prefix (lower auth) (codes "bearer ") || has_prefix (lower auth) (codes "apikey ")
    then trim_space (drop 7 auth)
    else auth

-- The two parameters of a request, where its parameters are an object and these are strings.
unfoldable pub extract_token : Option Text → Option Text → Text
extract_token (some auth) token = token_of_authorization auth
extract_token none (some token) = token
extract_token none none = []

module _ (validate : ℕ → Text → AuthOutcome UserInfo) where
  abbrev pub note_valid :
      AuthMiddleware
      → Text
      → ℕ
      → (Dict CacheEntry → Dict CacheEntry)
      → AuthOutcome UserInfo
      → AuthMiddleware × AuthOutcome UserInfo
  note_valid m token now order (denied e) = (m, denied e)
  note_valid m token now order (granted user) = (
    elim m.token_cache [
      | none ↦ m
      | some c ↦ record m { token_cache = some (set_cached c token user now order) }
    ],
    granted user,
  )

  abbrev pub cached_user : Option TokenCache → Text → ℕ → Option UserInfo
  cached_user none token now = none
  cached_user (some c) token now = get_cached c token now

  unfoldable pub validate_token :
      AuthMiddleware
      → Text
      → ℕ
      → (Dict CacheEntry → Dict CacheEntry)
      → AuthMiddleware × AuthOutcome UserInfo
  validate_token m token now order = elim (cached_user m.token_cache token now) [
    | some user ↦ (m, granted user)
    | none ↦ note_valid m token now order (validate now token)
  ]

  abbrev pub judged : AuthConfig → List Text → AuthOutcome UserInfo → Admission
  judged config methods (denied e) = not_valid e
  judged config methods (granted user) =
      if check_all config user methods then forwards (some user) else access_denied

  -- What the calls share; `free` says whether a call may come without a token.
  unfoldable pub decide_call :
      AuthMiddleware
      → Text
      → List Text
      → Bool
      → ℕ
      → (Dict CacheEntry → Dict CacheEntry)
      → AuthMiddleware × Admission
  decide_call m token methods free now order =
      let (m', r) = validate_token m token now order in
      if text_eq token []
      then (m, if free then forwards none else auth_required)
      else (m', judged m.config methods r)

  -- SendRequest, SendNotification and HandleRequest, which differ in where the token comes from and in
  -- how an error is told.
  unfoldable pub admit_call :
      AuthMiddleware
      → Text
      → Text
      → ℕ
      → (Dict CacheEntry → Dict CacheEntry)
      → AuthMiddleware × Admission
  admit_call m token method now order =
      decide_call m token (method ∷ []) (call_is_free m.config method) now order

  -- SendBatchRequest, with the methods of its requests and notifications.
  unfoldable pub admit_batch :
      AuthMiddleware
      → Text
      → List Text
      → ℕ
      → (Dict CacheEntry → Dict CacheEntry)
      → AuthMiddleware × Admission
  admit_batch m token methods now order =
      decide_call m token methods (batch_is_free m.config) now order

  pub data AuthEvent : Type 0 where
    calls : Text → Text → ℕ → (Dict CacheEntry → Dict CacheEntry) → AuthEvent
    calls_batch : Text → List Text → ℕ → (Dict CacheEntry → Dict CacheEntry) → AuthEvent
    cleans : ℕ → AuthEvent

  unfoldable pub step_auth : AuthMiddleware → AuthEvent → AuthMiddleware
  step_auth m (calls token method now order) = (admit_call m token method now order).0
  step_auth m (calls_batch token methods now order) = (admit_batch m token methods now order).0
  step_auth m (cleans now) = clean_cache m now

  unfoldable pub run_auth : AuthMiddleware → List AuthEvent → AuthMiddleware
  run_auth m [] = m
  run_auth m (e ∷ es) = run_auth (step_auth m e) es
