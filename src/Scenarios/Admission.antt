-- ===== src/Scenarios/Admission.antt =====
-- pkg/auth/middleware.go with a cache for one token and a provider that forgets it.
use mcp_sdk_go.Base.Int.{pos}
use mcp_sdk_go.Base.Text.{Text, codes, text_eq, has_prefix}
use mcp_sdk_go.Base.Dict.{Dict, lookup, insert}
use mcp_sdk_go.Base.{ℕ, ◌≡◌, refl, true, ◌&&◌, List, [], ◌∷◌, none, some, ltb, if◌then◌else◌}
use mcp_sdk_go.Auth.ApiKey.{
  UserInfo, AuthOutcome, granted, denied, token_revoked, trim_space, trim_right, trim_left,
}
use mcp_sdk_go.Auth.Middleware.{
  CacheEntry, AuthConfig, auth_config, new_token_cache, new_auth_middleware, get_cached, set_cached,
  is_anonymous_allowed, has_role_permission, has_required, check_permission, check_all, forwards,
  not_valid, validate_token, decide_call, call_is_free, batch_is_free, admit_call, admit_batch,
  AuthEvent, calls, step_auth, run_auth, token_of_authorization,
}
use mcp_sdk_go.Auth.Middleware.Admitted.{Justified, run_auth-Justified}

abbrev dora : UserInfo
dora = record {
  id = codes "dora";
  username = [];
  email = [];
  roles = codes "user" ∷ [];
  permissions = [];
  attributes = [];
  expires_at = none;
}

-- The token is revoked at the time 20.
abbrev provider : ℕ → Text → AuthOutcome UserInfo
provider now token =
    if ltb now 20 && text_eq token (codes "t") then granted dora else denied token_revoked

abbrev cached : AuthConfig
cached = record {
  required = true;
  allow_anonymous = true;
  cache_config = some (record { enabled = true; max_size = pos 1; ttl = pos 60 });
  rbac = some (record {
    enabled = true;
    resource_permissions =
        (codes "readResource", codes "read" ∷ []) ∷ (codes "callTool", codes "call" ∷ []) ∷ [];
  });
}

abbrev in_order : Dict CacheEntry → Dict CacheEntry
in_order m = m

abbrev before : List (AuthEvent provider)
before = calls (codes "t") (codes "readResource") 10 in_order ∷ []

-- A cached token is let through after it is revoked, until its entry is over.
cached_until_over :
    ((admit_call provider
        (run_auth provider (new_auth_middleware (some cached)) before)
        (codes "t")
        (codes "readResource")
        70
        in_order).1
      ≡ forwards (some dora))
    × ((admit_call provider
          (run_auth provider (new_auth_middleware (some cached)) before)
          (codes "t")
          (codes "readResource")
          71
          in_order).1
        ≡ not_valid token_revoked)
unfolding admit_call run_auth step_auth new_auth_middleware auth_config new_token_cache decide_call
    validate_token get_cached set_cached check_all check_permission has_required has_role_permission
    is_anonymous_allowed lookup insert text_eq
cached_until_over = (refl, refl)

bearer_is_cut : token_of_authorization (codes "Bearer  abc") ≡ codes "abc"
unfolding token_of_authorization has_prefix trim_space trim_right trim_left
bearer_is_cut = refl

run_auth-Justified_example :
    let m = run_auth provider (new_auth_middleware (some cached)) before in
    Justified provider
      (pos 60)
      cached
      (codes "t")
      (codes "callTool" ∷ [])
      (call_is_free cached (codes "callTool"))
      30
      (admit_call provider m (codes "t") (codes "callTool") 30 in_order).1
    × Justified provider
        (pos 60)
        cached
        (codes "t")
        (codes "readResource" ∷ codes "ping" ∷ [])
        (batch_is_free cached)
        30
        (admit_batch provider m
          (codes "t")
          (codes "readResource" ∷ codes "ping" ∷ [])
          30
          in_order).1
unfolding auth_config
run_auth-Justified_example =
    run_auth-Justified provider (some cached) before (codes "t") (codes "callTool")
      (codes "readResource" ∷ codes "ping" ∷ []) 30 in_order
