-- ===== src/Auth/ApiKey/Session.antt =====
-- pkg/auth/apikey.go: whom Authenticate lets in, and with which scopes.
use mcp_sdk_go.Base.Text.{Text, codes, text_eq}
use mcp_sdk_go.Base.{ℕ, ◌≡◌, inl, inr, refl, sym, ap, ◌∙◌, some, Bool-cases, Option-cases}
use mcp_sdk_go.Auth.ApiKey.{
  UserInfo, AuthOutcome, granted, denied, ApiKeyProvider, validate, AuthRequest, AuthResult,
  request_key, admit_user, authenticate,
}

-- The outcome that a session comes from.
record Session (p : ApiKeyProvider) (now : ℕ) (req : AuthRequest) (r : AuthResult) : Type 0 where
  pub key : Text
  pub given : request_key req ≡ some key
  pub valid : validate p now key ≡ granted r.user_info
  pub token : r.access_token ≡ key
  pub asked : r.scopes ≡ req.scopes

admitted :
    (p : ApiKeyProvider) (now : ℕ) (req : AuthRequest) (k : Text) (o : AuthOutcome UserInfo)
    (r : AuthResult)
    → request_key req ≡ some k
    → validate p now k ≡ o
    → (admit_user p now req k o).1 ≡ granted r
    → Session p now req r
unfolding admit_user
admitted p now req k (denied e) r given v h = absurd (cc)
admitted p now req k (granted user) r given v h =
    let it = granted-injective _ r h in
    record {
      key = k;
      given = given;
      valid = v ∙ ap (λ (s : AuthResult). granted s.user_info) it;
      token = sym (ap (λ (s : AuthResult). s.access_token) it);
      asked = sym (ap (λ (s : AuthResult). s.scopes) it);
    }
  where
    granted-injective :
        (a b : AuthResult) → ◌≡◌ {A = AuthOutcome AuthResult} (granted a) (granted b) → a ≡ b
    granted-injective a b e = cc

-- Authenticate lets a request in only with a key that Validate accepts, for the user of that key and
-- with the key as its token. The scopes of the session are those that the request asks for, whatever
-- the scopes of the key are.
pub authenticate-validate :
    (p : ApiKeyProvider) (now : ℕ) (req : AuthRequest) (r : AuthResult)
    → (authenticate p now req).1 ≡ granted r
    → (key : Text) × (request_key req ≡ some key)
      × (validate p now key ≡ granted r.user_info)
      × (r.access_token ≡ key)
      × (r.scopes ≡ req.scopes)
unfolding authenticate
authenticate-validate p now req r h = elim (Bool-cases (text_eq req.kind (codes "apikey"))) [
  | inr other ↦ let q = rw (other, authenticate) at h in absurd (cc)
  | inl ours ↦ elim (Option-cases (request_key req)) [
    | inl missing ↦ let q = rw (ours, authenticate) at h in let z = rw missing at q in absurd (cc)
    | inr (k, given) ↦
        let q = rw (ours, authenticate) at h in
        let z = rw given at q in
        let s = admitted p now req k (validate p now k) r given refl z in
        (s.key, s.given, s.valid, s.token, s.asked)
  ]
]
