-- ===== src/Transport/Stream/Connection.antt =====
-- CircuitBreaker of pkg/transport/streamable_http.go, which guards the attempts of a client to connect.
-- A call holds its lock throughout, so that calls follow one another; each has its time and its
-- outcome, which counts only if the function is called.
use mcp_sdk_go.Base.{ℕ, ◌+◌, ◌-◌, Bool, true, false, List, [], ◌∷◌, ltb, leb, if◌then◌else◌}

pub data ConnectionCircuit : Type 0 where
  circuit_closed circuit_open circuit_half_open : ConnectionCircuit

pub record ConnectionBreaker : Type 0 where
  pub state : ConnectionCircuit
  pub failure_count : ℕ
  pub last_failure_time : ℕ
  pub last_success_time : ℕ
  pub failure_threshold : ℕ
  pub recovery_timeout : ℕ
  pub half_open_max_calls : ℕ
  pub half_open_calls : ℕ

-- 60 seconds, in nanoseconds.
unfoldable pub new_connection_breaker : ConnectionBreaker
new_connection_breaker = record {
  state = circuit_closed;
  failure_count = 0;
  last_failure_time = 0;
  last_success_time = 0;
  failure_threshold = 5;
  recovery_timeout = 60000000000;
  half_open_max_calls = 3;
  half_open_calls = 0;
}

-- What Call returns: the function's result, or that it was not called.
pub data Called : Type 0 where
  succeeded failed is_open limit_exceeded : Called

unfoldable pub note_connection_success : ConnectionBreaker → ℕ → ConnectionBreaker
note_connection_success cb now = record cb { last_success_time = now; failure_count = 0 }

unfoldable pub note_connection_failure : ConnectionBreaker → ℕ → ConnectionBreaker
note_connection_failure cb now = record cb {
  last_failure_time = now;
  failure_count = cb.failure_count + 1;
}

abbrev pub trip_if : Bool → ConnectionBreaker → ℕ → ConnectionBreaker
trip_if true cb now = record cb { state = circuit_open; last_failure_time = now }
trip_if false cb now = cb

unfoldable pub call_closed : ConnectionBreaker → ℕ → Bool → ConnectionBreaker × Called
call_closed cb now true = (note_connection_success cb now, succeeded)
call_closed cb now false =
    let cb' = note_connection_failure cb now in
    (trip_if (leb cb'.failure_threshold cb'.failure_count) cb' now, failed)

abbrev pub close_if : Bool → ConnectionBreaker → ConnectionBreaker
close_if true cb = record cb { state = circuit_closed; failure_count = 0 }
close_if false cb = cb

abbrev pub half_open_outcome : ConnectionBreaker → ℕ → Bool → ConnectionBreaker × Called
half_open_outcome cb now true = (
  close_if (leb cb.half_open_max_calls cb.half_open_calls) (note_connection_success cb now),
  succeeded,
)
half_open_outcome cb now false = (trip_if true (note_connection_failure cb now) now, failed)

unfoldable pub call_half_open : ConnectionBreaker → ℕ → Bool → ConnectionBreaker × Called
call_half_open cb now good =
    if leb cb.half_open_max_calls cb.half_open_calls
    then (cb, limit_exceeded)
    else half_open_outcome (record cb { half_open_calls = cb.half_open_calls + 1 }) now good

-- `time.Since` of a time before the clock's is what has passed.
unfoldable pub call_open : ConnectionBreaker → ℕ → Bool → ConnectionBreaker × Called
call_open cb now good =
    if ltb cb.recovery_timeout (now - cb.last_failure_time)
    then call_half_open (record cb { state = circuit_half_open; half_open_calls = 0 }) now good
    else (cb, is_open)

unfoldable pub call_connection : ConnectionBreaker → ℕ → Bool → ConnectionBreaker × Called
call_connection cb now good = elim cb.state [
  | circuit_closed ↦ call_closed cb now good
  | circuit_open ↦ call_open cb now good
  | circuit_half_open ↦ call_half_open cb now good
]

-- Calls, each with its time and whether its function would succeed.
unfoldable pub call_all : ConnectionBreaker → List (ℕ × Bool) → ConnectionBreaker × List Called
call_all cb [] = (cb, [])
call_all cb ((now, good) ∷ calls) =
    let (cb', r) = call_connection cb now good in
    let (cb'', rs) = call_all cb' calls in (cb'', r ∷ rs)
