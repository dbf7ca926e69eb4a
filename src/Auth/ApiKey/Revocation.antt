-- ===== src/Auth/ApiKey/Revocation.antt =====
-- pkg/auth/apikey.go: a revoked key, whatever is called after its revocation.
use mcp_sdk_go.Base.Text.{Text, codes, has_prefix, text_eq}
use mcp_sdk_go.Base.Dict.{lookup, Unique}
use mcp_sdk_go.Base.{
  ℕ, ◌≡◌, inl, inr, refl, sym, ap, ◌∙◌, subst, false, not, ◌&&◌, List, [], ◌∷◌, ◌++◌, All, Option,
  none, some, Bool-cases, Option-cases,
}
use mcp_sdk_go.Auth.ApiKey.{
  UserInfo, RateLimitConfig, AuthErrorCode, token_invalid, token_revoked, AuthOutcome, granted,
  denied, ApiKeyProvider, trim_space, check_entry, validate_stored, validate, AuthRequest,
  request_key, use_key, admit_user, authenticate, revoke,
}
use mcp_sdk_go.Auth.ApiKey.Store.{hex_encode, create_api_key, cleanup_expired, set_rate_limits}
use mcp_sdk_go.Auth.ApiKey.Checks.{validate_without_callback}
use mcp_sdk_go.Auth.ApiKey.Spent.{
  Spent, Spent-insert, Spent-drop_stale, Spent-lookup, Spent-revoked, Spent-update,
}

-- The calls that can change a provider; a creation with the bytes that rand.Read gives, if any.
pub data KeyCall : Type 0 where
  creates : UserInfo → Text → Option ℕ → List Text → Option (List ℕ) → ℕ → KeyCall
  authenticates : ℕ → AuthRequest → KeyCall
  revokes : Text → KeyCall
  cleans : ℕ → KeyCall
  limits : Text → Option RateLimitConfig → KeyCall

unfoldable pub after_call : ApiKeyProvider → KeyCall → ApiKeyProvider
after_call p (creates user description expires_at scopes random now) =
    (create_api_key p user description expires_at scopes random now).0
after_call p (authenticates now req) = (authenticate p now req).0
after_call p (revokes key) = (revoke p key).0
after_call p (cleans now) = cleanup_expired p now
after_call p (limits key l) = (set_rate_limits p key l).0

unfoldable pub after_calls : ApiKeyProvider → List KeyCall → ApiKeyProvider
after_calls p [] = p
after_calls p (c ∷ cs) = after_calls (after_call p c) cs

-- A call does not create the key once more.
abbrev pub SparesKey : Text → Text → KeyCall → Type 0
SparesKey prefix key (creates user description expires_at scopes none now) = Unit
SparesKey prefix key (creates user description expires_at scopes (some bytes) now) =
    text_eq (prefix ++ hex_encode bytes) key ≡ false
SparesKey prefix key _ = Unit

-- The provider has no callback, and the key is of no use.
pub record IsSpent (prefix key : Text) (p : ApiKeyProvider) : Type 0 where
  pub no_callback : p.validate_callback ≡ none
  pub same_prefix : p.key_prefix ≡ prefix
  pub spent : Spent key p.keys

module _ (prefix key : Text) (p : ApiKeyProvider) (s : IsSpent prefix key p) where
  IsSpent-create_api_key :
      (user : UserInfo) (description : Text) (expires_at : Option ℕ) (scopes : List Text)
      (random : Option (List ℕ)) (now : ℕ)
      → SparesKey prefix key (creates user description expires_at scopes random now)
      → IsSpent prefix key (create_api_key p user description expires_at scopes random now).0
  unfolding create_api_key
  IsSpent-create_api_key user description expires_at scopes none now spares = s
  IsSpent-create_api_key user description expires_at scopes (some bytes) now spares = record {
    no_callback = s.no_callback;
    same_prefix = s.same_prefix;
    spent =
        Spent-insert key (p.key_prefix ++ hex_encode bytes) _ p.keys
          (inl
            (subst (λ f. text_eq (f ++ hex_encode bytes) key ≡ false) (sym s.same_prefix) spares))
          s.spent;
  }

  IsSpent-use_key : (now : ℕ) (api_key : Text) → IsSpent prefix key (use_key p now api_key)
  unfolding use_key
  IsSpent-use_key now api_key = elim (Option-cases (lookup api_key p.keys)) [
    | inl missing ↦ rw (missing, use_key) s
    | inr (info, found) ↦
        rw (found, use_key)
          (record {
            no_callback = s.no_callback;
            same_prefix = s.same_prefix;
            spent = Spent-update key api_key info _ p.keys found refl s.spent;
          })
  ]

  IsSpent-admit_user :
      (now : ℕ) (req : AuthRequest) (api_key : Text) (o : AuthOutcome UserInfo)
      → IsSpent prefix key (admit_user p now req api_key o).0
  unfolding admit_user
  IsSpent-admit_user now req api_key (denied e) = s
  IsSpent-admit_user now req api_key (granted user) = IsSpent-use_key now api_key

  IsSpent-authenticate :
      (now : ℕ) (req : AuthRequest) → IsSpent prefix key (authenticate p now req).0
  unfolding authenticate
  IsSpent-authenticate now req = elim (Bool-cases (text_eq req.kind (codes "apikey"))) [
    | inr other ↦ rw (other, authenticate) s
    | inl ours ↦ elim (Option-cases (request_key req)) [
      | inl missing ↦ rw (ours, authenticate) (rw missing s)
      | inr (k, given) ↦
          rw (ours, authenticate) (rw given (IsSpent-admit_user now req k (validate p now k)))
    ]
  ]

  IsSpent-revoke : (k : Text) → IsSpent prefix key (revoke p k).0
  unfolding revoke
  IsSpent-revoke k = elim (Option-cases (lookup k p.keys)) [
    | inl missing ↦ rw (missing, revoke) s
    | inr (info, found) ↦
        rw (found, revoke)
          (record {
            no_callback = s.no_callback;
            same_prefix = s.same_prefix;
            spent = Spent-insert key k _ p.keys (inr refl) s.spent;
          })
  ]

  IsSpent-set_rate_limits :
      (k : Text) (l : Option RateLimitConfig) → IsSpent prefix key (set_rate_limits p k l).0
  unfolding set_rate_limits
  IsSpent-set_rate_limits k l = elim (Option-cases (lookup k p.keys)) [
    | inl missing ↦ rw (missing, set_rate_limits) s
    | inr (info, found) ↦
        rw (found, set_rate_limits)
          (record {
            no_callback = s.no_callback;
            same_prefix = s.same_prefix;
            spent = Spent-update key k info _ p.keys found refl s.spent;
          })
  ]

  IsSpent-after_call : (c : KeyCall) → SparesKey prefix key c → IsSpent prefix key (after_call p c)
  unfolding after_call cleanup_expired
  IsSpent-after_call (creates user description expires_at scopes random now) spares =
      IsSpent-create_api_key user description expires_at scopes random now spares
  IsSpent-after_call (authenticates now req) spares = IsSpent-authenticate now req
  IsSpent-after_call (revokes k) spares = IsSpent-revoke k
  IsSpent-after_call (cleans now) spares = record {
    no_callback = s.no_callback;
    same_prefix = s.same_prefix;
    spent = Spent-drop_stale key now p.keys s.spent;
  }
  IsSpent-after_call (limits k l) spares = IsSpent-set_rate_limits k l

IsSpent-after_calls :
    (prefix key : Text) (p : ApiKeyProvider) (cs : List KeyCall)
    → All (SparesKey prefix key) cs
    → IsSpent prefix key p
    → IsSpent prefix key (after_calls p cs)
unfolding after_calls
IsSpent-after_calls prefix key p [] spares s = s
IsSpent-after_calls prefix key p (c ∷ cs) (spared, spares) s =
    IsSpent-after_calls prefix key (after_call p c) cs spares
      (IsSpent-after_call prefix key p s c spared)

IsSpent-denied :
    (prefix key : Text) (p : ApiKeyProvider) (now : ℕ)
    → IsSpent prefix key p
    → (e : AuthErrorCode) × (validate_stored p now key ≡ denied e)
unfolding validate_stored check_entry
IsSpent-denied prefix key p now s =
    elim (Bool-cases (not (text_eq p.key_prefix []) && not (has_prefix key p.key_prefix))) [
      | inl malformed ↦ (token_invalid, rw (malformed, validate_stored) refl)
      | inr formed ↦ elim (Option-cases (lookup key p.keys)) [
        | inl missing ↦
            (token_invalid, rw (formed, validate_stored) (rw (missing, check_entry) refl))
        | inr (info, found) ↦ (
          token_revoked,
          rw (formed, validate_stored)
              (rw (found, check_entry) (rw (Spent-lookup key p.keys info s.spent found) refl)),
        )
      ]
    ]

revoked-IsSpent :
    (p : ApiKeyProvider) (key : Text)
    → p.validate_callback ≡ none
    → Unique p.keys
    → (revoke p key).1 ≡ none
    → IsSpent p.key_prefix key (revoke p key).0
unfolding revoke
revoked-IsSpent p key h u worked = elim (Option-cases (lookup key p.keys)) [
  | inl missing ↦ let q = rw (missing, revoke) at worked in absurd (cc)
  | inr (info, found) ↦
      rw (found, revoke)
        (record { no_callback = h; same_prefix = refl; spent = Spent-revoked key _ p.keys u refl })
]

-- A key that Revoke has revoked is never accepted again, however it is written with white space around
-- it, whatever calls follow and at any time, as long as no creation draws the same key once more. There
-- is no callback, and no key is stored twice.
pub revoke_lasts :
    (p : ApiKeyProvider) (key : Text) (cs : List KeyCall) (now : ℕ) (api_key : Text)
    → p.validate_callback ≡ none
    → Unique p.keys
    → (revoke p key).1 ≡ none
    → All (SparesKey p.key_prefix key) cs
    → trim_space api_key ≡ key
    → (e : AuthErrorCode) × (validate (after_calls (revoke p key).0 cs) now api_key ≡ denied e)
revoke_lasts p key cs now api_key h u worked spares trimmed =
    let spent =
      IsSpent-after_calls p.key_prefix key (revoke p key).0 cs spares
        (revoked-IsSpent p key h u worked) in
    let (e, refused) =
      IsSpent-denied p.key_prefix key (after_calls (revoke p key).0 cs) now spent in
    (
      e,
      validate_without_callback _ now api_key spent.no_callback
          ∙ ap (validate_stored (after_calls (revoke p key).0 cs) now) trimmed
          ∙ refused,
    )
