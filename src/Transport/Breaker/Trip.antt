-- ===== src/Transport/Breaker/Trip.antt =====
-- The circuit breaker of pkg/transport/reliability_middleware.go: what makes it open.
use mcp_sdk_go.Base.Int.{pos, max_int, leb_ℤ}
use mcp_sdk_go.Base.{
  ℕ, suc, ◌+◌, ◌≤◌, ◌<◌, ◌≡◌, ◌≢◌, ◌⊎◌, inl, inr, true, false, List, [], ◌∷◌, arith, length, max,
}
use mcp_sdk_go.Transport.Breaker.{
  CircuitBreakerConfig, CircuitBreaker, circuit_closed, new_circuit_breaker, can_make_call,
  record_success, record_failure, BreakerEvent, asks, fails, succeeds, step, run,
}

-- The failures in a row at the end of a history, from `n` before it.
abbrev pub streak : ℕ → List BreakerEvent → ℕ
streak n [] = n
streak n (asks _ ∷ es) = streak n es
streak n (fails _ ∷ es) = streak (suc n) es
streak n (succeeds ∷ es) = streak 0 es

-- The longest such row at any point of a history.
abbrev pub longest : ℕ → List BreakerEvent → ℕ
longest n [] = n
longest n (asks _ ∷ es) = longest n es
longest n (fails _ ∷ es) = longest (suc n) es
longest n (succeeds ∷ es) = max n (longest 0 es)

-- The counter is the row of failures, and a breaker that has left the closed state has seen a row
-- as long as the threshold; a closed one is below the threshold.
record Counts (c : CircuitBreakerConfig) (best n : ℕ) (cb : CircuitBreaker) : Type 0 where
  same_config : cb.config ≡ c
  counted : cb.failures ≡ pos n
  within : n ≤ best
  below : cb.state ≡ circuit_closed → (n ≡ 0) ⊎ (leb_ℤ c.failure_threshold (pos n) ≡ false)
  tripped : (cb.state ≡ circuit_closed) ⊎ (leb_ℤ c.failure_threshold (pos best) ≡ true)

step_asks :
    (c : CircuitBreakerConfig) (best n now : ℕ) (cb : CircuitBreaker)
    → Counts c best n cb
    → Counts c best n (step cb (asks now))
unfolding step can_make_call
step_asks c best n now cb h = ground arith

step_fails :
    (c : CircuitBreakerConfig) (best n now : ℕ) (cb : CircuitBreaker)
    → n < max_int
    → Counts c best n cb
    → Counts c (max best (suc n)) (suc n) (step cb (fails now))
unfolding step record_failure
step_fails c best n now cb b h = ground arith

step_succeeds :
    (c : CircuitBreakerConfig) (best n : ℕ) (cb : CircuitBreaker)
    → Counts c best n cb
    → Counts c best 0 (step cb succeeds)
unfolding step record_success
step_succeeds c best n cb h = ground arith

n-le-longest : (n : ℕ) (es : List BreakerEvent) → n ≤ longest n es
n-le-longest n [] = omega arith
n-le-longest n (asks _ ∷ es) = n-le-longest n es
n-le-longest n (fails _ ∷ es) = omega (arith, n-le-longest (suc n) es)
n-le-longest n (succeeds ∷ es) = omega arith

Counts-mono :
    (c : CircuitBreakerConfig) (best more n : ℕ) (cb : CircuitBreaker)
    → best ≤ more
    → Counts c best n cb
    → Counts c more n cb
Counts-mono c best more n cb h k = ground arith

run-Counts :
    (c : CircuitBreakerConfig) (best n : ℕ) (cb : CircuitBreaker) (es : List BreakerEvent)
    → n + length es ≤ max_int
    → Counts c best n cb
    → Counts c (max best (longest n es)) (streak n es) (run cb es)
unfolding run
run-Counts c best n cb [] b h = Counts-mono c best _ n cb (omega arith) h
run-Counts c best n cb (asks now ∷ es) b h =
    run-Counts c best n (step cb (asks now)) es (omega arith) (step_asks c best n now cb h)
run-Counts c best n cb (fails now ∷ es) b h =
    Counts-mono c _ _ _ _ (omega (arith, n-le-longest (suc n) es)) (
      run-Counts c (max best (suc n)) (suc n) (step cb (fails now)) es (omega arith)
        (step_fails c best n now cb (omega arith) h))
run-Counts c best n cb (succeeds ∷ es) b h =
    Counts-mono c _ _ _ _ (omega arith)
      (run-Counts c best 0 (step cb succeeds) es (omega arith) (step_succeeds c best n cb h))

new-Counts : (c : CircuitBreakerConfig) → Counts c 0 0 (new_circuit_breaker c)
unfolding new_circuit_breaker
new-Counts c = ground arith

-- In every history of fewer than 2^63 events a breaker leaves the closed state only after as many
-- failures in a row, with no success between them, as its threshold says.
pub open_needs_failures :
    (c : CircuitBreakerConfig) (es : List BreakerEvent)
    → length es ≤ max_int
    → (run (new_circuit_breaker c) es).state ≢ circuit_closed
    → leb_ℤ c.failure_threshold (pos (longest 0 es)) ≡ true
open_needs_failures c es b h = elim (run-Counts c 0 0 _ es (omega arith) (new-Counts c)).tripped [
  | inl closed ↦ absurd (h closed)
  | inr reached ↦ ground (arith, reached)
]

-- After any history of fewer than 2^63 events, a breaker that is closed has a last row of failures
-- that is empty or below the threshold.
pub closed_below_threshold :
    (c : CircuitBreakerConfig) (es : List BreakerEvent)
    → length es ≤ max_int
    → (run (new_circuit_breaker c) es).state ≡ circuit_closed
    → (streak 0 es ≡ 0) ⊎ (leb_ℤ c.failure_threshold (pos (streak 0 es)) ≡ false)
closed_below_threshold c es b = (run-Counts c 0 0 _ es (omega arith) (new-Counts c)).below
