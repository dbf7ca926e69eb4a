-- ===== src/Scenarios/Streams.antt =====
-- pkg/transport/streamable_http.go: a client that reads an event, a small buffer, and the circuit
-- breaker of the connection.
use mcp_sdk_go.Base.Int.{pos}
use mcp_sdk_go.Base.Text.{codes, text_eq, has_prefix}
use mcp_sdk_go.Base.{ℕ, ◌≡◌, refl, arith, Bool, true, false, List, [], ◌∷◌, ◌++◌, In, take}
use mcp_sdk_go.Auth.ApiKey.{trim_space, trim_right, trim_left}
use mcp_sdk_go.Transport.Stream.{
  EventSource, offer, trim_return, add_data, read_field, dispatch, end_of_event, read_line,
  read_events, lines_of,
}
use mcp_sdk_go.Transport.Stream.Buffer.{
  new_event_buffer, add_events, drain_to, last_of, drain_to-new_event_buffer,
}
use mcp_sdk_go.Transport.Stream.Wire.{delivered, read_events-sse_event}
use mcp_sdk_go.Transport.Stream.Connection.{
  ConnectionBreaker, circuit_open, circuit_closed, new_connection_breaker, limit_exceeded, call_all,
}
use mcp_sdk_go.Transport.Stream.Recovery.{IsWithin, call_all-IsWithin, call_all-closes}
use mcp_sdk_go.Server.Http.Streams.{sse_event}

abbrev reader : EventSource
reader = record {
  message_chan = [];
  last_event_id = [];
  retry_interval = pos 0;
  is_connected = true;
  event_data = [];
  event_id = [];
  event_type = [];
}

-- A carriage return goes, white space around a value goes, and a field without data is no event.
a_ping : (read_line (read_line reader (codes "data: {} ")) (13 ∷ [])).message_chan ≡ codes "{}" ∷ []
unfolding read_line trim_return read_field add_data end_of_event dispatch offer has_prefix text_eq
    trim_space trim_right trim_left
a_ping = refl

read_events-sse_event_example :
    read_events reader
      (lines_of (sse_event (codes "evt-1") (codes "notification") (codes "{}") ++ codes ": ping"))
    ≡ read_events (delivered reader (codes "evt-1") (codes "{}")) (lines_of (codes ": ping"))
unfolding trim_space trim_right trim_left text_eq
read_events-sse_event_example =
    read_events-sse_event reader (codes "evt-1") (codes "notification") (codes "{}")
      (codes ": ping") (refl, refl, refl, refl) (refl, refl) (refl, refl) (refl, refl) refl refl

abbrev letters : List (List ℕ)
letters = codes "a" ∷ codes "b" ∷ codes "c" ∷ []

drain_to-new_event_buffer_example :
    ((drain_to (add_events (new_event_buffer (pos 2)) letters) (codes "z" ∷ [])).1
      ≡ (codes "z" ∷ []) ++ take 99 (last_of (new_event_buffer (pos 2)).max_size letters))
    × ((drain_to (add_events (new_event_buffer (pos 2)) letters) (codes "z" ∷ [])).0.events ≡ [])
drain_to-new_event_buffer_example = drain_to-new_event_buffer (pos 2) letters (codes "z" ∷ [])

abbrev outcomes : List (ℕ × Bool)
outcomes = (10, false) ∷ (20, true) ∷ (30, false) ∷ []

call_all-IsWithin_example :
    IsWithin (call_all new_connection_breaker outcomes).0
    × (In limit_exceeded (call_all new_connection_breaker outcomes).1 → ⊥)
call_all-IsWithin_example = call_all-IsWithin outcomes

abbrev tripped : ConnectionBreaker
tripped = record {
  state = circuit_open;
  failure_count = 5;
  last_failure_time = 40;
  last_success_time = 0;
  failure_threshold = 5;
  recovery_timeout = 60;
  half_open_max_calls = 3;
  half_open_calls = 0;
}

call_all-closes_example :
    (call_all tripped ((120, true) ∷ (130, true) ∷ (140, true) ∷ [])).0.state ≡ circuit_closed
call_all-closes_example =
    call_all-closes tripped 120 ((130, true) ∷ (140, true) ∷ []) refl (omega arith) refl refl
