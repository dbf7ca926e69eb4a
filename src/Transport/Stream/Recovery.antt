-- ===== src/Transport/Stream/Recovery.antt =====
-- The circuit breaker of the connection in pkg/transport/streamable_http.go: its invariant, and how it
-- closes again.
use mcp_sdk_go.Base.{
  ℕ, suc, ◌+◌, ◌-◌, ◌<◌, ◌≡◌, ◌∙◌, refl, sym, Bool, true, false, List, [], ◌∷◌, In, length, arith,
  ltb, leb, lt→ltb, ◌&&◌, lt→ltb, if◌then◌else◌, Bool-cases, inl, inr, ap,
}
use mcp_sdk_go.Transport.Stream.Connection.{
  ConnectionCircuit, circuit_closed, circuit_open, circuit_half_open, ConnectionBreaker,
  new_connection_breaker, Called, limit_exceeded, note_connection_success, note_connection_failure,
  call_closed, half_open_outcome, call_half_open, call_open, call_connection, call_all,
}

abbrev pub Bounded : ConnectionCircuit → ConnectionBreaker → Type 0
Bounded circuit_closed cb = cb.failure_count < cb.failure_threshold
Bounded circuit_open cb = Unit
Bounded circuit_half_open cb = cb.half_open_calls < cb.half_open_max_calls

-- The counters are below their limits.
abbrev pub IsWithin : ConnectionBreaker → Type 0
IsWithin cb = (0 < cb.failure_threshold) × (0 < cb.half_open_max_calls) × Bounded cb.state cb

-- A call whose result is not that the limit is exceeded, and what it leaves.
abbrev StaysWithin : ConnectionBreaker × Called → Type 0
StaysWithin r = IsWithin r.0 × ((r.1 ≡ limit_exceeded) → ⊥)

half_open-StaysWithin :
    (cb : ConnectionBreaker) (now : ℕ) (good : Bool)
    → cb.state ≡ circuit_half_open
    → 0 < cb.failure_threshold
    → cb.half_open_calls < cb.half_open_max_calls
    → StaysWithin (call_half_open cb now good)
unfolding call_half_open note_connection_success note_connection_failure
half_open-StaysWithin cb now good e p room =
    let below : leb cb.half_open_max_calls cb.half_open_calls ≡ false = ground arith in
    let some_calls : 0 < cb.half_open_max_calls = omega arith in rw below (outcome good)
  where
    outcome :
        (g : Bool)
        → StaysWithin
            (half_open_outcome (record cb { half_open_calls = cb.half_open_calls + 1 }) now g)
    outcome true = elim (Bool-cases (leb cb.half_open_max_calls (cb.half_open_calls + 1))) [
      | inl last ↦ rw last ((p, omega arith, p), λ q. cc)
      | inr more ↦ rw more ((p, omega arith, rw e (ground arith)), λ q. cc)
    ]
    outcome false = ((p, omega arith, tt), λ q. cc)

call-StaysWithin :
    (cb : ConnectionBreaker) (now : ℕ) (good : Bool) (c : ConnectionCircuit)
    → cb.state ≡ c
    → IsWithin cb
    → StaysWithin (call_connection cb now good)
unfolding call_connection call_closed call_open note_connection_success note_connection_failure
call-StaysWithin cb now true circuit_closed e (p, m, b) =
    rw (e, call_connection) ((p, m, rw e p), λ q. cc)
call-StaysWithin cb now false circuit_closed e (p, m, b) =
    rw (e, call_connection)
      (elim (Bool-cases (leb cb.failure_threshold (cb.failure_count + 1))) [
        | inl trips ↦ rw trips ((p, m, tt), λ q. cc)
        | inr holds ↦ rw holds ((p, m, rw e (ground arith)), λ q. cc)
      ])
call-StaysWithin cb now good circuit_open e (p, m, b) =
    rw (e, call_connection)
      (elim (Bool-cases (ltb cb.recovery_timeout (now - cb.last_failure_time))) [
        | inl late ↦ rw late (
            half_open-StaysWithin (record cb { state = circuit_half_open; half_open_calls = 0 }) now
              good refl p m)
        | inr early ↦ rw early ((p, m, b), λ q. cc)
      ])
call-StaysWithin cb now good circuit_half_open e (p, m, b) =
    rw (e, call_connection) (half_open-StaysWithin cb now good e p (rw e at b))

call_all-StaysWithin :
    (cb : ConnectionBreaker) (calls : List (ℕ × Bool))
    → IsWithin cb
    → IsWithin (call_all cb calls).0 × (In limit_exceeded (call_all cb calls).1 → ⊥)
unfolding call_all
call_all-StaysWithin cb [] w = (w, λ i. i)
call_all-StaysWithin cb ((now, good) ∷ calls) w =
    let (next, fine) = call-StaysWithin cb now good cb.state refl w in
    let (last, rest) = call_all-StaysWithin (call_connection cb now good).0 calls next in
    (last, λ i. elim i [ inl e ↦ fine (e_sym e) | inr r ↦ rest r ])
  where
    e_sym : {c : Called} → limit_exceeded ≡ c → c ≡ limit_exceeded
    e_sym e = sym e

-- Whatever the times and outcomes, a new breaker never refuses a call for the limit on half-open calls:
-- while it is half-open it has made fewer than its maximum, and while it is closed its failures are
-- below its threshold.
pub call_all-IsWithin :
    (calls : List (ℕ × Bool))
    → IsWithin (call_all new_connection_breaker calls).0
      × (In limit_exceeded (call_all new_connection_breaker calls).1 → ⊥)
unfolding new_connection_breaker
call_all-IsWithin calls =
    call_all-StaysWithin new_connection_breaker calls (omega arith, omega arith, omega arith)

abbrev pub all_good : List (ℕ × Bool) → Bool
all_good [] = true
all_good ((now, good) ∷ calls) = good && all_good calls

good_call :
    (cb : ConnectionBreaker) (now : ℕ)
    → cb.state ≡ circuit_half_open
    → cb.half_open_calls < cb.half_open_max_calls
    → (call_half_open cb now true).0 ≡ (
        if leb cb.half_open_max_calls (cb.half_open_calls + 1)
        then record cb {
          state = circuit_closed;
          failure_count = 0;
          last_success_time = now;
          half_open_calls = cb.half_open_calls + 1;
        }
        else record cb {
          failure_count = 0;
          last_success_time = now;
          half_open_calls = cb.half_open_calls + 1;
        })
unfolding call_half_open note_connection_success
good_call cb now e room = ground arith

more_to_go : (m k l : ℕ) → k + suc (suc l) ≡ m → leb m (k + 1) ≡ false
more_to_go m k l h = ground arith

half_open_call :
    (cb : ConnectionBreaker) (now : ℕ) (good : Bool)
    → cb.state ≡ circuit_half_open
    → call_connection cb now good ≡ call_half_open cb now good
unfolding call_connection
half_open_call cb now good e =
    let in_state : ConnectionCircuit → ConnectionBreaker × Called = λ s. elim s [
      | circuit_closed ↦ call_closed cb now good
      | circuit_open ↦ call_open cb now good
      | circuit_half_open ↦ call_half_open cb now good
    ] in
    ap in_state e

-- A good call with more to go leaves the breaker half-open, one call further.
goes_on :
    (cb : ConnectionBreaker) (now l : ℕ)
    → cb.state ≡ circuit_half_open
    → cb.half_open_calls + suc (suc l) ≡ cb.half_open_max_calls
    → (call_connection cb now true).0 ≡ record cb {
      failure_count = 0;
      last_success_time = now;
      half_open_calls = cb.half_open_calls + 1;
    }
goes_on cb now l e n =
    ap (λ r. r.0) (half_open_call cb now true e)
    ∙ good_call cb now e (omega arith)
    ∙ rw (more_to_go cb.half_open_max_calls cb.half_open_calls l n) refl

-- The last good call closes the breaker.
closes :
    (cb : ConnectionBreaker) (now : ℕ)
    → cb.state ≡ circuit_half_open
    → cb.half_open_calls + 1 ≡ cb.half_open_max_calls
    → (call_connection cb now true).0.state ≡ circuit_closed
closes cb now e n =
    ap (λ r. r.0.state) (half_open_call cb now true e)
    ∙ ap (λ b. b.state) (good_call cb now e (omega arith))
    ∙ rw (at_last cb.half_open_max_calls cb.half_open_calls n) refl
  where
    at_last : (m k : ℕ) → k + 1 ≡ m → leb m (k + 1) ≡ true
    at_last m k h = ground arith

half_open-closes :
    (cb : ConnectionBreaker) (calls : List (ℕ × Bool))
    → cb.state ≡ circuit_half_open
    → all_good calls ≡ true
    → 0 < length calls
    → cb.half_open_calls + length calls ≡ cb.half_open_max_calls
    → (call_all cb calls).0.state ≡ circuit_closed
unfolding call_all
half_open-closes cb [] e g some_left n = absurd (omega arith)
half_open-closes cb ((now, false) ∷ calls) e g some_left n = cc
half_open-closes cb ((now, true) ∷ []) e g some_left n = closes cb now e (omega arith)
half_open-closes cb ((now, true) ∷ c ∷ calls) e g some_left n =
    ap (λ next. (call_all next (c ∷ calls)).0.state) (goes_on cb now (length calls) e n)
    ∙ half_open-closes
        (record cb {
          failure_count = 0;
          last_success_time = now;
          half_open_calls = cb.half_open_calls + 1;
        })
        (c ∷ calls) e g (omega arith) (omega arith)

-- An open breaker whose timeout has passed since its last failure closes again after as many calls as
-- it admits half-open, at any later times, if they all succeed.
pub call_all-closes :
    (cb : ConnectionBreaker) (now : ℕ) (calls : List (ℕ × Bool))
    → cb.state ≡ circuit_open
    → cb.recovery_timeout < now - cb.last_failure_time
    → all_good calls ≡ true
    → length calls + 1 ≡ cb.half_open_max_calls
    → (call_all cb ((now, true) ∷ calls)).0.state ≡ circuit_closed
unfolding call_all call_connection call_open
call_all-closes cb now calls e late g n =
    rw (e, call_connection)
      (rw (lt→ltb cb.recovery_timeout (now - cb.last_failure_time) late) (
        half_open-closes (record cb { state = circuit_half_open; half_open_calls = 0 })
          ((now, true) ∷ calls) refl g (omega arith) (omega arith)))
