-- ===== src/Auth/Middleware/Admitted.antt =====
-- The decision of the middleware of pkg/auth/middleware.go on a call, after any others.
use mcp_sdk_go.Base.Int.{ℤ, pos}
use mcp_sdk_go.Base.Text.{Text, text_eq, text_eq_iff}
use mcp_sdk_go.Base.Dict.{Dict}
use mcp_sdk_go.Base.{
  ℕ, ◌≡◌, refl, sym, ◌∙◌, subst, Bool, true, false, List, [], ◌∷◌, Option, none, some, Bool-cases,
  Option-cases, inl, inr,
}
use mcp_sdk_go.Auth.ApiKey.{UserInfo, AuthOutcome, granted, denied}
use mcp_sdk_go.Auth.Middleware.{
  CacheEntry, TokenCache, TokenCacheConfig, AuthConfig, AuthMiddleware, auth_config,
  new_token_cache, new_auth_middleware, clean_cache, check_all, Admission, forwards, auth_required,
  access_denied, not_valid, note_valid, cached_user, validate_token, judged, decide_call,
  call_is_free, batch_is_free, admit_call, admit_batch, AuthEvent, calls, calls_batch, cleans,
  step_auth, run_auth,
}
use mcp_sdk_go.Auth.Middleware.Vouching.{
  Vouched, IsEarned, get_cached-Vouched, note_valid-Vouched, All-drop_expired,
}

module _ (validate : ℕ → Text → AuthOutcome UserInfo) (ttl : ℤ) where
  -- A middleware with the configuration `config`, whose cache has what the provider has said.
  abbrev pub IsSound : AuthConfig → AuthMiddleware → Type 0
  IsSound config m = (m.config ≡ config) × IsEarned validate ttl m.token_cache

  -- What the validation of a token says.
  abbrev Said : Text → ℕ → AuthOutcome UserInfo → Type 0
  Said token now (granted user) = Vouched validate ttl token user now
  Said token now (denied e) = validate now token ≡ denied e

  cached_user-Vouched :
      (o : Option TokenCache) (token : Text) (now : ℕ) (user : UserInfo)
      → IsEarned validate ttl o
      → cached_user validate o token now ≡ some user
      → Vouched validate ttl token user now
  cached_user-Vouched none token now user a e = absurd (cc)
  cached_user-Vouched (some c) token now user a e =
      get_cached-Vouched validate ttl c token now user a e

  note_valid-Said :
      (m : AuthMiddleware) (token : Text) (now : ℕ) (order : Dict CacheEntry → Dict CacheEntry)
      (answer : AuthOutcome UserInfo)
      → validate now token ≡ answer
      → (Said token now (note_valid validate m token now order answer).1)
        × ((note_valid validate m token now order answer).0.config ≡ m.config)
  note_valid-Said m token now order (denied e) v = (v, refl)
  note_valid-Said m token now order (granted user) v = (
    (now, v, inl refl),
    elim (Option-cases m.token_cache) [ inl q ↦ rw q refl | inr (c, q) ↦ rw q refl ],
  )

  validate_token-IsSound :
      (config : AuthConfig) (m : AuthMiddleware) (token : Text) (now : ℕ)
      (order : Dict CacheEntry → Dict CacheEntry)
      → IsSound config m
      → IsSound config (validate_token validate m token now order).0
        × Said token now (validate_token validate m token now order).1
  unfolding validate_token
  validate_token-IsSound config m token now order (e, a) =
      elim (Option-cases (cached_user validate m.token_cache token now)) [
        | inr (user, q) ↦
            rw (q, validate_token) ((e, a), cached_user-Vouched m.token_cache token now user a q)
        | inl q ↦
            let (said, same) = note_valid-Said m token now order (validate now token) refl in
            let earned =
              note_valid-Vouched validate ttl m token now order (validate now token) refl a in
            rw (q, validate_token) ((same ∙ e, earned), said)
      ]

  -- Why a call with a token for some methods has been let through or refused; `free` says whether it may
  -- come without a token.
  abbrev pub Justified : AuthConfig → Text → List Text → Bool → ℕ → Admission → Type 0
  Justified config token methods free now (forwards none) = (token ≡ []) × (free ≡ true)
  Justified config token methods free now (forwards (some user)) =
      Vouched validate ttl token user now × (check_all config user methods ≡ true)
  Justified config token methods free now auth_required = (token ≡ []) × (free ≡ false)
  Justified config token methods free now access_denied =
      (user : UserInfo) × Vouched validate ttl token user now
      × (check_all config user methods ≡ false)
  Justified config token methods free now (not_valid e) = validate now token ≡ denied e

  judged-Justified :
      (config : AuthConfig) (token : Text) (methods : List Text) (free : Bool) (now : ℕ)
      (r : AuthOutcome UserInfo)
      → Said token now r
      → Justified config token methods free now (judged validate config methods r)
  judged-Justified config token methods free now (denied e) s = s
  judged-Justified config token methods free now (granted user) s =
      elim (Bool-cases (check_all config user methods)) [
        | inl all_right ↦ rw all_right (s, all_right)
        | inr out ↦ rw out (user, s, out)
      ]

  decide_call-Justified :
      (config : AuthConfig) (m : AuthMiddleware) (token : Text) (methods : List Text) (free : Bool)
      (now : ℕ) (order : Dict CacheEntry → Dict CacheEntry)
      → IsSound config m
      → IsSound config (decide_call validate m token methods free now order).0
        × Justified config token methods free now
            (decide_call validate m token methods free now order).1
  unfolding decide_call
  decide_call-Justified config m token methods free now order (e, a) =
      let (sound, said) = validate_token-IsSound config m token now order (e, a) in
      elim (Bool-cases (text_eq token [])) [
        | inl empty ↦
            let nothing = (text_eq_iff token []).0 empty in
            elim (Bool-cases free) [
              | inl f ↦ rw (empty, f) ((e, a), (nothing, refl))
              | inr f ↦ rw (empty, f) ((e, a), (nothing, refl))
            ]
        | inr named ↦ rw named (
          sound,
          subst
              (λ (c : AuthConfig).
                Justified config token methods free now
                  (judged validate c methods (validate_token validate m token now order).1))
              (sym e) (judged-Justified config token methods free now _ said),
        )
      ]

  step_auth-IsSound :
      (config : AuthConfig) (m : AuthMiddleware) (e : AuthEvent validate)
      → IsSound config m
      → IsSound config (step_auth validate m e)
  unfolding step_auth admit_call admit_batch clean_cache
  step_auth-IsSound config m (calls token method now order) s =
      (decide_call-Justified config m token (method ∷ []) _ now order s).0
  step_auth-IsSound config m (calls_batch token methods now order) s =
      (decide_call-Justified config m token methods _ now order s).0
  step_auth-IsSound config m (cleans now) (e, a) = elim (Option-cases m.token_cache) [
    | inl q ↦ rw (q, clean_cache) (e, rw q tt)
    | inr (c, q) ↦
        let (t, entries) : IsEarned validate ttl (some c) = rw q at a in
        rw (q, clean_cache) (e, (t, All-drop_expired validate ttl now c.entries entries))
  ]

  run_auth-IsSound :
      (config : AuthConfig) (m : AuthMiddleware) (es : List (AuthEvent validate))
      → IsSound config m
      → IsSound config (run_auth validate m es)
  unfolding run_auth
  run_auth-IsSound config m [] s = s
  run_auth-IsSound config m (e ∷ es) s =
      run_auth-IsSound config (step_auth validate m e) es (step_auth-IsSound config m e s)

-- The lifetime of the entries in the cache of a new middleware.
abbrev pub lifetime : Option TokenCacheConfig → ℤ
lifetime none = pos 0
lifetime (some c) = c.ttl

new_auth_middleware-IsSound :
    (validate : ℕ → Text → AuthOutcome UserInfo) (config : Option AuthConfig)
    → IsSound validate
        (lifetime (auth_config config).cache_config)
        (auth_config config)
        (new_auth_middleware config)
unfolding new_auth_middleware new_token_cache
new_auth_middleware-IsSound validate config = (refl, earned (auth_config config).cache_config)
  where
    earned : (c : Option TokenCacheConfig) → IsEarned validate (lifetime c) (new_token_cache c)
    earned none = tt
    earned (some c) = elim (Bool-cases c.enabled) [
      | inl on ↦ rw on (refl, tt)
      | inr off ↦ rw off tt
    ]

-- After any calls, batches and cleanups of a new middleware, a call or a batch is let through without a
-- user only if it has no token and may come without one; for a user only if the provider has accepted
-- its token for this user, just now or no longer ago than the lifetime of the cache, and the user passes
-- the check of permissions for each of its methods. A refusal has its reason too: no token where one is
-- needed, a token that the provider refuses now, or a user whom the provider has accepted so and who
-- fails that check.
pub run_auth-Justified :
    (validate : ℕ → Text → AuthOutcome UserInfo) (config : Option AuthConfig)
    (es : List (AuthEvent validate)) (token method : Text) (methods : List Text) (now : ℕ)
    (order : Dict CacheEntry → Dict CacheEntry)
    → let cfg = auth_config config in
      let m = run_auth validate (new_auth_middleware config) es in
      let ttl = lifetime cfg.cache_config in
      Justified validate ttl cfg token
        (method ∷ [])
        (call_is_free cfg method)
        now
        (admit_call validate m token method now order).1
      × Justified validate ttl cfg token methods
          (batch_is_free cfg)
          now
          (admit_batch validate m token methods now order).1
unfolding admit_call admit_batch
run_auth-Justified validate config es token method methods now order =
    let cfg = auth_config config in
    let m = run_auth validate (new_auth_middleware config) es in
    let ttl = lifetime cfg.cache_config in
    let sound =
      run_auth-IsSound validate ttl cfg (new_auth_middleware config) es
        (new_auth_middleware-IsSound validate config) in
    (
      subst
          (λ (c : AuthConfig).
            Justified validate ttl cfg token (method ∷ []) (call_is_free c method) now
              (decide_call validate m token (method ∷ []) (call_is_free m.config method) now
                order).1)
          sound.0
          (decide_call-Justified validate ttl cfg m token (method ∷ [])
            (call_is_free m.config method) now order sound).1,
      subst
          (λ (c : AuthConfig).
            Justified validate ttl cfg token methods (batch_is_free c) now
              (decide_call validate m token methods (batch_is_free m.config) now order).1)
          sound.0
          (decide_call-Justified validate ttl cfg m token methods (batch_is_free m.config) now order
            sound).1,
    )
