-- ===== src/Transport/Breaker/Recover.antt =====
-- The circuit breaker of pkg/transport/reliability_middleware.go: how an open one refuses calls, and
-- how it closes again.
use mcp_sdk_go.Base.Int.{pos, sub_ℕ, max_int, ltb_ℤ, leb_ℤ}
use mcp_sdk_go.Base.{
  ℕ, zero, suc, ◌+◌, ◌++◌, ◌≤◌, ◌≡◌, inl, inr, refl, Bool, true, false, List, [], ◌∷◌, arith, All,
  map, if◌then◌else◌, Bool-cases,
}
use mcp_sdk_go.Transport.Breaker.{
  CircuitBreaker, circuit_closed, circuit_open, circuit_half_open, can_make_call, record_success,
  record_failure, BreakerEvent, fails, succeeds, step, run,
}

-- The answers to a row of calls at the given times, with the breaker after them.
unfoldable pub ask_all : CircuitBreaker → List ℕ → CircuitBreaker × List Bool
ask_all cb [] = (cb, [])
ask_all cb (now ∷ times) =
    let (cb', answer) = can_make_call cb now in
    let (last, answers) = ask_all cb' times in (last, answer ∷ answers)

abbrev pub Waits : CircuitBreaker → ℕ → Type 0
Waits cb now = ltb_ℤ cb.config.timeout (sub_ℕ now cb.last_error) ≡ false

refuses :
    (cb : CircuitBreaker) (now : ℕ)
    → cb.state ≡ circuit_open
    → Waits cb now
    → can_make_call cb now ≡ (cb, false)
unfolding can_make_call
refuses cb now o w = ground arith

probes :
    (cb : CircuitBreaker) (now : ℕ)
    → cb.state ≡ circuit_open
    → ltb_ℤ cb.config.timeout (sub_ℕ now cb.last_error) ≡ true
    → can_make_call cb now ≡ (record cb { state = circuit_half_open; successes = pos 0 }, true)
unfolding can_make_call
probes cb now o w = ground arith

-- An open breaker refuses every call up to its timeout after the last failure, however many there
-- are, and does not change; the first call past the timeout is let through, in the half-open state
-- with no success counted.
pub open_refuses_then_probes :
    (cb : CircuitBreaker) (times : List ℕ) (late : ℕ)
    → cb.state ≡ circuit_open
    → All (Waits cb) times
    → ltb_ℤ cb.config.timeout (sub_ℕ late cb.last_error) ≡ true
    → (ask_all cb times ≡ (cb, map (λ _. false) times))
      × (can_make_call (ask_all cb times).0 late
          ≡ (record cb { state = circuit_half_open; successes = pos 0 }, true))
unfolding ask_all
open_refuses_then_probes cb [] late o w l = (refl, probes cb late o l)
open_refuses_then_probes cb (now ∷ times) late o w l =
    rw (refuses cb now o w.0)
      (let (same, last) = open_refuses_then_probes cb times late o w.1 l in (rw same, last))

-- `n` successes in a row.
abbrev pub successes_of : ℕ → List BreakerEvent
successes_of zero = []
successes_of (suc n) = succeeds ∷ successes_of n

success_closes :
    (cb : CircuitBreaker) (k : ℕ)
    → cb.state ≡ circuit_half_open
    → cb.successes ≡ pos k
    → suc k ≤ max_int
    → leb_ℤ cb.config.success_threshold (pos (suc k)) ≡ true
    → (record_success cb).state ≡ circuit_closed
unfolding record_success
success_closes cb k h e b t = ground arith

success_counts :
    (cb : CircuitBreaker) (k : ℕ)
    → cb.state ≡ circuit_half_open
    → cb.successes ≡ pos k
    → suc k ≤ max_int
    → leb_ℤ cb.config.success_threshold (pos (suc k)) ≡ false
    → ((record_success cb).state ≡ circuit_half_open)
      × ((record_success cb).successes ≡ pos (suc k))
      × ((record_success cb).config ≡ cb.config)
unfolding record_success
success_counts cb k h e b t = ground arith

closed_stays :
    (cb : CircuitBreaker) (n : ℕ)
    → cb.state ≡ circuit_closed
    → (run cb (successes_of n)).state ≡ circuit_closed
unfolding run step record_success
closed_stays cb zero h = h
closed_stays cb (suc n) h = closed_stays (record_success cb) n (ground arith)

successes_count :
    (cb : CircuitBreaker) (k n : ℕ)
    → cb.state ≡ circuit_half_open
    → cb.successes ≡ pos k
    → k + suc n ≤ max_int
    → (run cb (successes_of (suc n))).state ≡ (
        if leb_ℤ cb.config.success_threshold (pos (k + suc n))
        then circuit_closed
        else circuit_half_open)
unfolding run step
successes_count cb k zero h e b = ground (arith, success_closes cb k h e, success_counts cb k h e)
successes_count cb k (suc n) h e b =
    elim (Bool-cases (leb_ℤ cb.config.success_threshold (pos (suc k)))) [
      | inl t ↦
          ground (
            arith,
            success_closes cb k h e (omega arith) t,
            closed_stays (record_success cb) (suc n),
          )
      | inr t ↦
          let (half, count, config) = success_counts cb k h e (omega arith) t in
          let rest = successes_count (record_success cb) (suc k) n half count (omega arith) in
          ground arith
    ]

-- A half-open breaker with no success counted is closed after a row of successes exactly if the row
-- is as long as its threshold, and half-open before.
pub half_open_closes :
    (cb : CircuitBreaker) (n : ℕ)
    → cb.state ≡ circuit_half_open
    → cb.successes ≡ pos 0
    → suc n ≤ max_int
    → (run cb (successes_of (suc n))).state ≡ (
        if leb_ℤ cb.config.success_threshold (pos (suc n))
        then circuit_closed
        else circuit_half_open)
half_open_closes cb n h e b = ground (arith, successes_count cb 0 n h e (omega arith))

half_open_fails :
    (cb : CircuitBreaker) (now : ℕ)
    → cb.state ≡ circuit_half_open
    → ((record_failure cb now).state ≡ circuit_open) × ((record_failure cb now).last_error ≡ now)
unfolding record_failure
half_open_fails cb now h = ground arith

run-append :
    (cb : CircuitBreaker) (es fs : List BreakerEvent) → run cb (es ++ fs) ≡ run (run cb es) fs
unfolding run
run-append cb [] fs = refl
run-append cb (e ∷ es) fs = run-append (step cb e) es fs

-- One failure before that opens it again, and the timeout runs from there.
pub half_open_relapses :
    (cb : CircuitBreaker) (n now : ℕ)
    → cb.state ≡ circuit_half_open
    → cb.successes ≡ pos 0
    → suc n ≤ max_int
    → leb_ℤ cb.config.success_threshold (pos (suc n)) ≡ false
    → let after = run cb (successes_of (suc n) ++ fails now ∷ []) in
      (after.state ≡ circuit_open) × (after.last_error ≡ now)
half_open_relapses cb n now h e b t = rw (run-append cb (successes_of (suc n)) (fails now ∷ [])) (
    unfold run step in
    half_open_fails (run cb (successes_of (suc n))) now
      (ground (arith, half_open_closes cb n h e b)))
