-- ===== src/Transport/Breaker.antt =====
-- The circuit breaker of pkg/transport/reliability_middleware.go, with its configuration of
-- pkg/transport/transport.go. Each method runs under the breaker's lock, so it is one step. Times
-- are nanoseconds of the monotonic clock, and durations are integers.
pub mod Trip
pub mod Recover
use mcp_sdk_go.Base.Int.{ℤ, pos, negsuc, add_int, sub_ℕ, ltb_ℤ, leb_ℤ}
use mcp_sdk_go.Base.{ℕ, Bool, true, false, List, [], ◌∷◌, if◌then◌else◌}

pub record CircuitBreakerConfig : Type 0 where
  pub enabled : Bool
  pub failure_threshold : ℤ
  pub success_threshold : ℤ
  pub timeout : ℤ

pub data CircuitState : Type 0 where
  circuit_closed circuit_open circuit_half_open : CircuitState

pub record CircuitBreaker : Type 0 where
  pub config : CircuitBreakerConfig
  pub state : CircuitState
  pub failures : ℤ
  pub successes : ℤ
  pub last_error : ℕ

unfoldable pub new_circuit_breaker : CircuitBreakerConfig → CircuitBreaker
new_circuit_breaker config = record {
  config = config;
  state = circuit_closed;
  failures = pos 0;
  successes = pos 0;
  last_error = 0;
}

-- The dispatch on the state, at the time `now`.
abbrev pub admit : CircuitState → CircuitBreaker → ℕ → CircuitBreaker × Bool
admit circuit_closed cb now = (cb, true)
admit circuit_open cb now =
    if ltb_ℤ cb.config.timeout (sub_ℕ now cb.last_error)
    then (record cb { state = circuit_half_open; successes = pos 0 }, true)
    else (cb, false)
admit circuit_half_open cb now = (cb, true)

unfoldable pub can_make_call : CircuitBreaker → ℕ → CircuitBreaker × Bool
can_make_call cb now = admit cb.state cb now

abbrev pub succeed : CircuitState → CircuitBreaker → CircuitBreaker
succeed circuit_half_open cb =
    let n = add_int cb.successes (pos 1) in
    if leb_ℤ cb.config.success_threshold n
    then record cb { successes = n; state = circuit_closed }
    else record cb { successes = n }
succeed _ cb = cb

unfoldable pub record_success : CircuitBreaker → CircuitBreaker
record_success cb = succeed cb.state (record cb { failures = pos 0 })

abbrev pub fail : CircuitState → CircuitBreaker → CircuitBreaker
fail circuit_half_open cb = record cb { state = circuit_open }
fail _ cb =
    if leb_ℤ cb.config.failure_threshold cb.failures then record cb { state = circuit_open } else cb

unfoldable pub record_failure : CircuitBreaker → ℕ → CircuitBreaker
record_failure cb now =
    fail cb.state (record cb { last_error = now; failures = add_int cb.failures (pos 1) })

-- What happens to a breaker that several requests share, in the order of its lock.
pub data BreakerEvent : Type 0 where
  asks fails : ℕ → BreakerEvent
  succeeds : BreakerEvent

unfoldable pub step : CircuitBreaker → BreakerEvent → CircuitBreaker
step cb (asks now) = (can_make_call cb now).0
step cb (fails now) = record_failure cb now
step cb succeeds = record_success cb

unfoldable pub run : CircuitBreaker → List BreakerEvent → CircuitBreaker
run cb [] = cb
run cb (e ∷ es) = run (step cb e) es
