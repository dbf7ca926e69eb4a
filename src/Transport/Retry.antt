-- ===== src/Transport/Retry.antt =====
-- reliabilityTransport of pkg/transport/reliability_middleware.go: the retry loop around the next
-- transport, and the backoff. What the loop cannot decide comes from an `Environment`: the answers of
-- the next transport, the state of the context at each test, the clock, and the random source. One
-- request is modelled; requests that share a breaker interleave as the events of `Breaker`.
pub mod Attempts
pub mod Outcome
pub mod Counting
use mcp_sdk_go.Base.Int.{ℤ, pos, negsuc, pos_part, add_int, leb_ℤ, eqb_ℤ}
use mcp_sdk_go.Base.{
  ℕ, zero, suc, ◌+◌, ◌-◌, Bool, true, false, ◌&&◌, ◌||◌, not, List, [], ◌∷◌, ◌++◌, Option, none,
  some, any, if◌then◌else◌,
}
use mcp_sdk_go.Transport.Breaker.{
  CircuitBreakerConfig, CircuitBreaker, new_circuit_breaker, can_make_call, record_success,
  record_failure,
}

-- Go's float64, with the operations of the backoff. The arithmetic is the machine's.
pub record Float : Type 1 where
  pub F : Type 0
  pub of_int : ℤ → F
  pub to_int : F → ℤ
  pub mul : F → F → F
  pub add : F → F → F
  pub sub : F → F → F
  pub pow : F → F → F
  pub gt : F → F → Bool
  -- The constants 0.1, 1 and 2.
  pub tenth : F
  pub one : F
  pub two : F

-- The two kinds of error that isRetryableError tells apart, by their codes, and any other.
pub data GoError : Type 0 where
  mcp_error error_object : ℤ → GoError
  other_error : ℕ → GoError

-- CodeConnectionFailed, CodeConnectionLost, CodeConnectionTimeout, CodeResourceUnavailable and
-- CodeOperationTimeout.
abbrev pub retryable_codes : List ℤ
retryable_codes = negsuc 32500 ∷ negsuc 32501 ∷ negsuc 32502 ∷ negsuc 32200 ∷ negsuc 32300 ∷ []

-- CodeInvalidParams, CodeInvalidRequest, CodeOperationNotSupported and CodeOperationCancelled.
abbrev pub fatal_codes : List ℤ
fatal_codes = negsuc 32601 ∷ negsuc 32599 ∷ negsuc 32302 ∷ negsuc 32299 ∷ []

unfoldable pub is_retryable_error : GoError → Bool
is_retryable_error (mcp_error code) =
    if any (eqb_ℤ code) retryable_codes
    then true
    else if any (eqb_ℤ code) fatal_codes
    then false
    else true
is_retryable_error (error_object code) =
    if leb_ℤ (negsuc 32098) code && leb_ℤ code (negsuc 31999)
    then false
    else if eqb_ℤ code (negsuc 32602)
    then true
    else true
is_retryable_error (other_error _) = true

pub record ReliabilityConfig (fl : Float) : Type 0 where
  pub max_retries : ℤ
  pub initial_retry_delay : ℤ
  pub max_retry_delay : ℤ
  pub retry_backoff_factor : fl.F
  pub circuit_breaker : CircuitBreakerConfig

-- `random` is a number from [0, 1), or `none` where the random source fails.
unfoldable pub calculate_backoff : (fl : Float) → ℕ → ReliabilityConfig fl → Option fl.F → ℤ
calculate_backoff fl attempt config random = fl.to_int (jitter random capped)
  where
    open fl use {F, of_int, mul, add, sub, pow, gt, tenth, one, two}

    raw : F
    raw =
        mul (of_int config.initial_retry_delay)
          (pow config.retry_backoff_factor (of_int (pos (attempt - 1))))

    capped : F
    capped = if gt raw (of_int config.max_retry_delay) then of_int config.max_retry_delay else raw

    jitter : Option F → F → F
    jitter none backoff = backoff
    jitter (some r) backoff = add backoff (mul (mul backoff tenth) (sub (mul r two) one))

-- An answer of the next transport.
pub data Reply {ℓ} (A : Type ℓ) : Type ℓ where
  ok : A → Reply A
  err : GoError → Reply A

pub record Environment (fl : Float) (A : Type 0) : Type 0 where
  -- `ctx.Err()` at the start of an attempt, and the outcome of the wait before it.
  pub cancelled : ℕ → Option GoError
  pub cancelled_in_wait : ℕ → Option GoError
  pub random : ℕ → Option fl.F
  pub reply : ℕ → Reply A
  -- The time at which the breaker notes the failure of an attempt, and that of the first test.
  pub failed_at : ℕ → ℕ
  pub started_at : ℕ

-- How a call ends. `exhausted` carries the count that the message gives, and the last error.
pub data Result {ℓ} (A : Type ℓ) : Type ℓ where
  answer : A → Result A
  breaker_open : Result A
  context_error : GoError → Result A
  refused : GoError → Result A
  exhausted : ℤ → Option GoError → Result A

-- What the loop does that others see, in order.
pub data Action : Type 0 where
  sleeps : ℤ → Action
  calls : ℕ → Action

pub record Run {ℓ} (A : Type ℓ) : Type ℓ where
  pub result : Result A
  pub breaker : Option CircuitBreaker
  pub actions : List Action

-- `if circuitBreaker != nil { circuitBreaker.record…() }`.
abbrev pub note_success : Option CircuitBreaker → Option CircuitBreaker
note_success none = none
note_success (some cb) = some (record_success cb)

abbrev pub note_failure : Option CircuitBreaker → ℕ → Option CircuitBreaker
note_failure none now = none
note_failure (some cb) now = some (record_failure cb now)

abbrev pub after {ℓ} : {A : Type ℓ} → List Action → Run A → Run A
after acts r = record r { actions = acts ++ r.actions }

module _ (fl : Float) {A : Type 0} (config : ReliabilityConfig fl) (env : Environment fl A) where
  -- `maxAttempts := config.MaxRetries + 1`, as the machine adds.
  abbrev pub max_attempts : ℤ
  max_attempts = add_int config.max_retries (pos 1)

  -- The wait before an attempt: none before the first.
  unfoldable pub wait : ℕ → List Action × Option GoError
  wait zero = ([], none)
  wait (suc k) = (
    sleeps (calculate_backoff fl (suc k) config (env.random (suc k))) ∷ [],
    env.cancelled_in_wait (suc k),
  )

  -- The answer to one attempt: the loop goes on (`none`) or ends.
  unfoldable pub judge :
      ℕ → Option CircuitBreaker → Reply A → Option CircuitBreaker × Option (Result A)
  judge attempt breaker (ok v) = (note_success breaker, some (answer v))
  judge attempt breaker (err e) = (
    note_failure breaker (env.failed_at attempt),
    if is_retryable_error e then none else some (refused e),
  )

  abbrev pub error_of : Reply A → Option GoError → Option GoError
  error_of (ok v) last = last
  error_of (err e) last = some e

  -- The loop, by the attempts that are left.
  unfoldable pub attempts : ℕ → ℕ → Option GoError → Option CircuitBreaker → Run A
  attempts zero attempt last breaker = record {
    result = exhausted max_attempts last;
    breaker = breaker;
    actions = [];
  }
  attempts (suc left) attempt last breaker = elim (env.cancelled attempt) [
    | some e ↦ record { result = context_error e; breaker = breaker; actions = [] }
    | none ↦
        let (slept, interrupted) = wait attempt in
        elim interrupted [
          | some e ↦ record { result = context_error e; breaker = breaker; actions = slept }
          | none ↦
              let (noted, verdict) = judge attempt breaker (env.reply attempt) in
              elim verdict [
                | some r ↦ record {
                  result = r;
                  breaker = noted;
                  actions = slept ++ calls attempt ∷ [];
                }
                | none ↦
                    after (slept ++ calls attempt ∷ [])
                      (attempts left (suc attempt) (error_of (env.reply attempt) last) noted)
              ]
        ]
  ]

  unfoldable pub with_retry : Option CircuitBreaker → Run A
  with_retry none = attempts (pos_part max_attempts) 0 none none
  with_retry (some cb) =
      let (cb', admitted) = can_make_call cb env.started_at in
      if admitted
      then attempts (pos_part max_attempts) 0 none (some cb')
      else record { result = breaker_open; breaker = some cb'; actions = [] }

-- SendRequest, SendNotification and SendBatchRequest run the same loop over what the next transport
-- returns, and differ in their log lines and in the wording of their errors.
unfoldable pub send_request :
    (fl : Float) {A : Type 0}
    → ReliabilityConfig fl
    → Environment fl A
    → Option CircuitBreaker
    → Run A
send_request fl config env breaker = with_retry fl config env breaker

unfoldable pub send_notification :
    (fl : Float)
    → ReliabilityConfig fl
    → Environment fl (Unit {0})
    → Option CircuitBreaker
    → Run (Unit {0})
send_notification fl config env breaker = with_retry fl config env breaker

unfoldable pub send_batch_request :
    (fl : Float) {A : Type 0}
    → ReliabilityConfig fl
    → Environment fl A
    → Option CircuitBreaker
    → Run A
send_batch_request fl config env breaker = with_retry fl config env breaker

-- The breaker of a new middleware, if it is enabled.
unfoldable pub new_reliability_middleware :
    (fl : Float) → ReliabilityConfig fl → Option CircuitBreaker
new_reliability_middleware fl config =
    if config.circuit_breaker.enabled
    then some (new_circuit_breaker config.circuit_breaker)
    else none
