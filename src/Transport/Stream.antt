-- ===== src/Transport/Stream.antt =====
-- The stream of events that a client reads in pkg/transport/streamable_http.go: the loop of readEvents,
-- line by line, its buffer of events and the channel of messages, which holds 100 and drops what does
-- not fit. An error of the connection ends the reading and is not modelled.
pub mod Buffer
pub mod Wire
pub mod Connection
pub mod Recovery
use mcp_sdk_go.Base.Int.{ℤ, pos, max_int, signed}
use mcp_sdk_go.Base.Text.{Text, codes, text_eq, has_prefix}
use mcp_sdk_go.Base.{
  ℕ, ◌+◌, ◌-◌, ◌*◌, ◌%◌, Bool, true, false, not, ◌&&◌, ◌||◌, List, [], ◌∷◌, ◌++◌, length, drop,
  Option, none, some, ltb, leb, ◌==◌, if◌then◌else◌,
}
use mcp_sdk_go.Auth.ApiKey.{trim_space}

-- `retry_interval` is in nanoseconds. The fields event_data, event_id and event_type are the variables
-- of the loop.
pub record EventSource : Type 0 where
  pub message_chan : List Text
  pub last_event_id : Text
  pub retry_interval : ℤ
  pub is_connected : Bool
  pub event_data : Text
  pub event_id : Text
  pub event_type : Text

abbrev pub channel_capacity : ℕ
channel_capacity = 100

-- A send that does not wait.
unfoldable pub offer : List Text → Text → List Text
offer chan message = if ltb (length chan) channel_capacity then chan ++ message ∷ [] else chan

unfoldable pub is_digit : ℕ → Bool
is_digit b = leb b'0' b && leb b b'9'

-- The value of a row of digits, `none` for any other text and for a value above the largest integer.
unfoldable pub digits_value : ℕ → Text → Option ℕ
digits_value n [] = some n
digits_value n (b ∷ bs) =
    let m = n * 10 + (b - b'0') in
    elim (is_digit b && leb m max_int) [ true ↦ digits_value m bs | false ↦ none ]

-- strconv.Atoi where its result is positive; zero stands for the results that are not.
unfoldable pub atoi_positive : Text → Option ℕ
atoi_positive [] = none
atoi_positive (b ∷ []) = digits_value 0 (b ∷ [])
atoi_positive (b ∷ c ∷ cs) =
    if b == b'+'
    then digits_value 0 (c ∷ cs)
    else if b == b'-'
    then some 0
    else digits_value 0 (b ∷ c ∷ cs)

-- `time.Duration(retry) * time.Millisecond`, in 64 bits.
abbrev pub millis : ℕ → ℤ
millis n = signed (n * 1000000 % 18446744073709551616)

unfoldable pub set_retry : EventSource → Option ℕ → EventSource
set_retry es none = es
set_retry es (some n) = if ltb 0 n then record es { retry_interval = millis n } else es

-- A carriage return at the end goes.
unfoldable pub trim_return : Text → Text
trim_return [] = []
trim_return (b ∷ []) = if b == 13 then [] else b ∷ []
trim_return (b ∷ c ∷ cs) = b ∷ trim_return (c ∷ cs)

abbrev pub after_prefix : ℕ → Text → Text
after_prefix n line = trim_space (drop n line)

unfoldable pub add_data : Text → Text → Text
add_data [] line = line
add_data (b ∷ bs) line = (b ∷ bs) ++ (10 ∷ line)

unfoldable pub read_field : EventSource → Text → EventSource
read_field es line =
    if has_prefix line (codes "data:")
    then record es { event_data = add_data es.event_data (after_prefix 5 line) }
    else if has_prefix line (codes "id:")
    then record es { event_id = after_prefix 3 line }
    else if has_prefix line (codes "event:")
    then record es { event_type = after_prefix 6 line }
    else if has_prefix line (codes "retry:")
    then set_retry es (atoi_positive (after_prefix 6 line))
    else es

abbrev pub kept_id : Text → Text → Text
kept_id [] old = old
kept_id (b ∷ bs) old = b ∷ bs

-- The end of an event that has data; one of the type `close` ends the reading.
unfoldable pub dispatch : EventSource → EventSource
dispatch es =
    let noted = record es { last_event_id = kept_id es.event_id es.last_event_id } in
    if text_eq es.event_type (codes "close")
    then record noted { is_connected = false }
    else record noted {
      message_chan =
          if es.is_connected then offer es.message_chan es.event_data else es.message_chan;
      event_data = [];
      event_id = [];
      event_type = [];
    }

unfoldable pub end_of_event : EventSource → EventSource
end_of_event es = if text_eq es.event_data [] then es else dispatch es

-- One round of the loop, with the line that it reads, its newline taken off.
unfoldable pub read_line : EventSource → Text → EventSource
read_line es raw =
    let line = trim_return raw in
    if has_prefix line (codes ":")
    then es
    else if text_eq line []
    then end_of_event es
    else read_field es line

unfoldable pub read_events : EventSource → List Text → EventSource
read_events es [] = es
read_events es (line ∷ lines) = elim es.is_connected [
  | true ↦ read_events (read_line es line) lines
  | false ↦ es
]

abbrev pub put_byte : ℕ → List Text → List Text
put_byte b [] = []
put_byte b (line ∷ lines) = (b ∷ line) ∷ lines

-- The lines that ReadString returns; what has no newline yet is not among them.
unfoldable pub lines_of : Text → List Text
lines_of [] = []
lines_of (b ∷ bs) = let rest = lines_of bs in if b == 10 then [] ∷ rest else put_byte b rest
