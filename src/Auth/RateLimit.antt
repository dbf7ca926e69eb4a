-- ===== src/Auth/RateLimit.antt =====
-- pkg/auth/ratelimit.go: a bucket of tokens for each key, and the middleware that asks it. The next
-- transport is called exactly when a request passes. Floats are a parameter; a time is in nanoseconds.
pub mod Buckets
pub mod Keys
pub mod Isolation
pub mod Enough
use mcp_sdk_go.Base.Int.{ℤ, pos, sub_ℕ}
use mcp_sdk_go.Base.Text.{Text, codes, text_eq}
use mcp_sdk_go.Base.Dict.{Dict, lookup, insert, remove}
use mcp_sdk_go.Base.{
  ℕ, zero, suc, ◌+◌, ◌-◌, Bool, true, false, List, [], ◌∷◌, ◌++◌, length, take, Option, none, some,
  ltb, if◌then◌else◌,
}
use mcp_sdk_go.Transport.Dispatch.{Request, Response, ProtocolError, internal_error}

-- Go's float64, with the operations of the buckets; `seconds` is Duration.Seconds.
pub record Float64 : Type 1 where
  pub F : Type 0
  pub of_int : ℤ → F
  pub seconds : ℤ → F
  pub mul : F → F → F
  pub div : F → F → F
  pub add : F → F → F
  pub sub : F → F → F
  pub lt : F → F → Bool
  pub ge : F → F → Bool
  -- The constants 1 and 60.
  pub one : F
  pub sixty : F

-- RateLimitConfig of pkg/transport/transport.go.
pub record LimitConfig : Type 0 where
  pub enabled : Bool
  pub requests_per_minute : ℤ
  pub requests_per_hour : ℤ
  pub burst_size : ℤ

abbrev pub default_limit_config : LimitConfig
default_limit_config = record {
  enabled = true;
  requests_per_minute = pos 60;
  requests_per_hour = pos 0;
  burst_size = pos 10;
}

unfoldable pub limit_config : Option LimitConfig → LimitConfig
limit_config none = default_limit_config
limit_config (some config) = config

-- What getRateLimitKey reads of a context: the id of its user, and its token, empty if there is none.
pub record LimitContext : Type 0 where
  pub user_id : Option Text
  pub token : Text

unfoldable pub token_key : Text → Text
token_key [] = codes "global"
token_key (b ∷ bs) =
    if ltb 8 (length (b ∷ bs))
    then codes "token:" ++ take 8 (b ∷ bs)
    else codes "token:" ++ (b ∷ bs)

unfoldable pub get_rate_limit_key : LimitContext → Text
get_rate_limit_key ctx = elim ctx.user_id [
  | some id ↦ codes "user:" ++ id
  | none ↦ token_key ctx.token
]

-- HandleRequest looks at the user only.
unfoldable pub incoming_key : LimitContext → Text
incoming_key ctx = elim ctx.user_id [ some id ↦ codes "user:" ++ id | none ↦ codes "global" ]

-- 10 minutes.
abbrev pub stale_after : ℕ
stale_after = 600000000000

module _ (fl : Float64) where
  pub record TokenBucket : Type 0 where
    pub tokens : fl.F
    pub last_refill : ℕ

  pub record RateLimiter : Type 0 where
    pub buckets : Dict TokenBucket
    pub config : LimitConfig

  -- A middleware is its limiter.
  unfoldable pub new_rate_limit_middleware : Option LimitConfig → RateLimiter
  new_rate_limit_middleware config = record { buckets = []; config = limit_config config }

  abbrev pub float_min : fl.F → fl.F → fl.F
  float_min a b = if fl.lt a b then a else b

  -- The tokens at the time `now`.
  unfoldable pub refill : LimitConfig → TokenBucket → ℕ → fl.F
  refill config b now =
      let tokens_to_add =
        fl.mul (fl.seconds (sub_ℕ now b.last_refill))
          (fl.div (fl.of_int config.requests_per_minute) fl.sixty) in
      float_min (fl.add b.tokens tokens_to_add) (fl.of_int config.burst_size)

  unfoldable pub consume : LimitConfig → TokenBucket → ℕ → TokenBucket × Bool
  consume config b now =
      let tokens = refill config b now in
      if fl.ge tokens fl.one
      then (record { tokens = fl.sub tokens fl.one; last_refill = now }, true)
      else (record { tokens = tokens; last_refill = now }, false)

  -- A new bucket is full.
  abbrev pub full_bucket : LimitConfig → ℕ → TokenBucket
  full_bucket config now = record { tokens = fl.of_int config.burst_size; last_refill = now }

  abbrev pub bucket_or_full : LimitConfig → Option TokenBucket → ℕ → TokenBucket
  bucket_or_full config none now = full_bucket config now
  bucket_or_full config (some b) now = b

  -- The clock is read twice: where a bucket is made, and where it is refilled.
  unfoldable pub allow : RateLimiter → Text → ℕ × ℕ → RateLimiter × Bool
  allow l key (made_at, now) =
      let (b, allowed) =
        consume l.config (bucket_or_full l.config (lookup key l.buckets) made_at) now in
      (record l { buckets = insert key b l.buckets }, allowed)

  unfoldable pub get_remaining_tokens : RateLimiter → Text → fl.F
  get_remaining_tokens l key = elim (lookup key l.buckets) [
    | none ↦ fl.of_int l.config.burst_size
    | some b ↦ b.tokens
  ]

  unfoldable pub reset_limit : RateLimiter → Text → RateLimiter
  reset_limit l key = record l { buckets = remove key l.buckets }

  abbrev pub is_unused : ℕ → TokenBucket → Bool
  is_unused now b = ltb stale_after (now - b.last_refill)

  unfoldable pub drop_unused : ℕ → Dict TokenBucket → Dict TokenBucket
  drop_unused now [] = []
  drop_unused now ((key, b) ∷ m) =
      let rest = drop_unused now m in if is_unused now b then rest else (key, b) ∷ rest

  -- One tick of cleanup.
  unfoldable pub cleanup_buckets : RateLimiter → ℕ → RateLimiter
  cleanup_buckets l now = record l { buckets = drop_unused now l.buckets }

  -- What becomes of a call: it passes to the next transport, or an error says why it does not.
  pub data Passage : Type 0 where
    passes limit_exceeded exceeded_in_batch : Passage
    batch_too_large : ℕ → fl.F → Passage

  abbrev pub passage_of : Bool → Passage
  passage_of true = passes
  passage_of false = limit_exceeded

  -- SendRequest, and SendNotification, which does the same.
  unfoldable pub send_limited : RateLimiter → LimitContext → ℕ × ℕ → RateLimiter × Passage
  send_limited l ctx clock =
      let (l', allowed) = allow l (get_rate_limit_key ctx) clock in
      if l.config.enabled then (l', passage_of allowed) else (l, passes)

  -- The response is built without a version.
  abbrev pub limit_response : Request → Response
  limit_response request = record {
    jsonrpc = [];
    id = request.id;
    result = none;
    error = some (record { code = internal_error; message = codes "rate limit exceeded" });
  }

  -- `none` where the next transport answers.
  unfoldable pub handle_limited :
      RateLimiter → LimitContext → Request → ℕ × ℕ → RateLimiter × Option Response
  handle_limited l ctx request clock =
      let (l', allowed) = allow l (incoming_key ctx) clock in
      if l.config.enabled
      then (l', if allowed then none else some (limit_response request))
      else (l, none)

  -- One token for each request of a batch; a refusal ends the loop.
  unfoldable pub consume_batch : RateLimiter → Text → ℕ → (ℕ → ℕ × ℕ) → RateLimiter × Passage
  consume_batch l key zero clock = (l, passes)
  consume_batch l key (suc n) clock =
      let (l', allowed) = allow l key (clock n) in
      let rest = consume_batch l' key n clock in if allowed then rest else (l', exceeded_in_batch)

  -- `count` is the number of requests in the batch, and `clock` the times at which the loop asks, by how
  -- many requests are left behind the one it asks for.
  unfoldable pub send_batch_limited :
      RateLimiter → LimitContext → ℕ → (ℕ → ℕ × ℕ) → RateLimiter × Passage
  send_batch_limited l ctx count clock =
      let key = get_rate_limit_key ctx in
      let remaining = get_remaining_tokens l key in
      let taken = consume_batch l key count clock in
      if l.config.enabled
      then if fl.lt remaining (fl.of_int (pos count))
        then (l, batch_too_large count remaining)
        else taken
      else (l, passes)

  -- What a program does with a middleware, and the ticks of its cleanup.
  pub data LimitEvent : Type 0 where
    sends : LimitContext → ℕ × ℕ → LimitEvent
    handles : LimitContext → Request → ℕ × ℕ → LimitEvent
    sends_batch : LimitContext → ℕ → (ℕ → ℕ × ℕ) → LimitEvent
    resets : Text → LimitEvent
    sweeps : ℕ → LimitEvent

  pub data LimitOutcome : Type 0 where
    passage : Passage → LimitOutcome
    handled : Option Response → LimitOutcome
    done : LimitOutcome

  unfoldable pub step_limit : RateLimiter → LimitEvent → RateLimiter × LimitOutcome
  step_limit l (sends ctx clock) = let (l', p) = send_limited l ctx clock in (l', passage p)
  step_limit l (handles ctx request clock) =
      let (l', r) = handle_limited l ctx request clock in (l', handled r)
  step_limit l (sends_batch ctx count clock) =
      let (l', p) = send_batch_limited l ctx count clock in (l', passage p)
  step_limit l (resets key) = (reset_limit l key, done)
  step_limit l (sweeps now) = (cleanup_buckets l now, done)

  unfoldable pub run_limit :
      RateLimiter → List LimitEvent → RateLimiter × List (LimitEvent × LimitOutcome)
  run_limit l [] = (l, [])
  run_limit l (e ∷ es) =
      let (l', r) = step_limit l e in let (l'', rs) = run_limit l' es in (l'', (e, r) ∷ rs)
