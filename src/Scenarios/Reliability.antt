-- ===== src/Scenarios/Reliability.antt =====
-- pkg/transport/reliability_middleware.go: a breaker that opens and closes again, and a request that
-- is tried three times.
use mcp_sdk_go.Base.Int.{ℤ, pos, negsuc, sub_ℕ, ltb_ℤ, leb_ℤ, pos_part}
use mcp_sdk_go.Base.{
  ℕ, zero, suc, ◌<◌, ◌≡◌, ◌⊎◌, ◌↔◌, refl, true, false, List, [], ◌∷◌, none, some, arith,
  if◌then◌else◌, ltb, ◌*◌, ◌+◌, ◌^◌,
}
use mcp_sdk_go.Transport.Breaker.{
  CircuitBreakerConfig, CircuitBreaker, circuit_closed, circuit_open, circuit_half_open,
  new_circuit_breaker, can_make_call, record_failure, BreakerEvent, asks, fails, step, run,
}
use mcp_sdk_go.Transport.Breaker.Trip.{streak, longest, open_needs_failures, closed_below_threshold}
use mcp_sdk_go.Transport.Retry.{
  Float, mcp_error, is_retryable_error, ReliabilityConfig, ok, err, Environment, answer,
  breaker_open, exhausted, wait, attempts, with_retry, judge, send_request,
}
use mcp_sdk_go.Transport.Retry.Attempts.{Open, Retries}
use mcp_sdk_go.Transport.Retry.Outcome.{send_request-answer}
use mcp_sdk_go.Transport.Retry.Counting.{calls_of, events_of, send_request-reports}

abbrev limits : CircuitBreakerConfig
limits = record {
  enabled = true;
  failure_threshold = pos 2;
  success_threshold = pos 2;
  timeout = pos 60;
}

abbrev storm : List BreakerEvent
storm = asks 1 ∷ fails 5 ∷ asks 6 ∷ fails 9 ∷ asks 20 ∷ []

storm_opens : (run (new_circuit_breaker limits) storm).state ≡ circuit_open
unfolding run step new_circuit_breaker can_make_call record_failure
storm_opens = refl

open_needs_failures_example : leb_ℤ (pos 2) (pos (longest 0 storm)) ≡ true
open_needs_failures_example =
    open_needs_failures limits storm (omega arith) (λ e. open_not_closed storm_opens e)
  where
    open_not_closed :
        (run (new_circuit_breaker limits) storm).state ≡ circuit_open
        → (run (new_circuit_breaker limits) storm).state ≡ circuit_closed
        → ⊥
    open_not_closed p q = cc

abbrev breeze : List BreakerEvent
breeze = asks 1 ∷ fails 5 ∷ []

breeze_closed : (run (new_circuit_breaker limits) breeze).state ≡ circuit_closed
unfolding run step new_circuit_breaker can_make_call record_failure
breeze_closed = refl

closed_below_threshold_example :
    (streak 0 breeze ≡ 0) ⊎ (leb_ℤ (pos 2) (pos (streak 0 breeze)) ≡ false)
closed_below_threshold_example = closed_below_threshold limits breeze (omega arith) breeze_closed

abbrev opened : CircuitBreaker
opened = record {
  config = limits;
  state = circuit_open;
  failures = pos 2;
  successes = pos 0;
  last_error = 9;
}

abbrev probing : CircuitBreaker
probing = record opened { state = circuit_half_open }

-- Whole numbers in place of the machine's floats.
abbrev whole : Float
whole = record {
  F = ℤ;
  of_int = λ z. z;
  to_int = λ z. z;
  mul = λ a b. pos (pos_part a * pos_part b);
  add = λ a b. pos (pos_part a + pos_part b);
  sub = λ a b. sub_ℕ (pos_part a) (pos_part b);
  pow = λ a b. pos (pos_part a ^ pos_part b);
  gt = λ a b. ltb_ℤ b a;
  tenth = pos 0;
  one = pos 1;
  two = pos 2;
}

abbrev settings : ReliabilityConfig whole
settings = record {
  max_retries = pos 2;
  initial_retry_delay = pos 10;
  max_retry_delay = pos 15;
  retry_backoff_factor = pos 2;
  circuit_breaker = limits;
}

-- The first two attempts lose their connection.
abbrev flaky : Environment whole ℕ
flaky = record {
  cancelled = λ _. none;
  cancelled_in_wait = λ _. none;
  random = λ _. none;
  reply = λ k. if ltb k 2 then err (mcp_error (negsuc 32501)) else ok 7;
  failed_at = λ k. 100 + k;
  started_at = 100;
}

abbrev broken : Environment whole ℕ
broken = record flaky { reply = λ _. err (mcp_error (negsuc 32501)) }

lost_is_retryable : is_retryable_error (mcp_error (negsuc 32501)) ≡ true
unfolding is_retryable_error
lost_is_retryable = refl

passes :
    (env : Environment whole ℕ) (k : ℕ)
    → env.cancelled k ≡ none
    → env.cancelled_in_wait k ≡ none
    → Open settings env k
passes env zero e w = record { before = e; in_wait = refl }
passes env (suc k) e w = record { before = e; in_wait = w }

flaky_answers : (send_request whole settings flaky none).result ≡ answer 7
unfolding send_request with_retry attempts wait judge is_retryable_error
flaky_answers = refl

send_request-answer_example : ((send_request whole settings flaky none).result ≡ answer 7) ↔ (
    (n : ℕ) × (n < 3)
    × ((i : ℕ) → i < n → Retries settings flaky i)
    × Open settings flaky n
    × (flaky.reply n ≡ ok 7))
send_request-answer_example = send_request-answer settings flaky none 7 refl

-- Three calls, though the breaker opens at the second failure.
broken_gives_up :
    ((send_request whole settings broken (some (new_circuit_breaker limits))).result
      ≡ exhausted (pos 3) (some (mcp_error (negsuc 32501))))
    × (calls_of (send_request whole settings broken (some (new_circuit_breaker limits))).actions
        ≡ 0 ∷ 1 ∷ 2 ∷ [])
unfolding send_request with_retry attempts wait judge is_retryable_error new_circuit_breaker
    can_make_call record_failure
broken_gives_up = (refl, refl)

send_request-reports_example :
    ((send_request whole settings broken (some opened)).breaker
      ≡ some (
          run opened (
            asks 100
            ∷ events_of settings broken
                (send_request whole settings broken (some opened)).actions)))
    × (((can_make_call opened 100).1 ≡ true)
        ⊎ (((can_make_call opened 100).1 ≡ false)
            × ((send_request whole settings broken (some opened)).result ≡ breaker_open)
            × ((send_request whole settings broken (some opened)).actions ≡ [])))
send_request-reports_example = send_request-reports settings broken opened
