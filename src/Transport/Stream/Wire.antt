-- ===== src/Transport/Stream/Wire.antt =====
-- What a server writes with sendSSEEvent of pkg/server/http_handler.go, as readEvents of
-- pkg/transport/streamable_http.go reads it.
use mcp_sdk_go.Base.Int.{ℤ}
use mcp_sdk_go.Base.Text.{Text, codes, text_eq, has_prefix}
use mcp_sdk_go.Base.{
  ◌≡◌, refl, ◌∙◌, sym, ap, subst, Bool, true, false, not, ◌&&◌, List, [], ◌∷◌, ◌++◌, append_assoc,
  arith, ◌==◌,
}
use mcp_sdk_go.Auth.ApiKey.{trim_left, trim_space}
use mcp_sdk_go.Server.Http.Streams.{split_lines, data_lines, sse_event}
use mcp_sdk_go.Transport.Stream.{
  EventSource, offer, trim_return, add_data, read_field, kept_id, dispatch, end_of_event, read_line,
  read_events, lines_of,
}

-- No newline and no carriage return.
abbrev pub is_plain : Text → Bool
is_plain [] = true
is_plain (b ∷ bs) = not (b == 10) && (not (b == 13) && is_plain bs)

-- A text on one line, without white space around it.
abbrev pub IsToken : Text → Type 0
IsToken t = (is_plain t ≡ true) × (trim_space t ≡ t)

lines_of-line :
    (line rest : Text)
    → is_plain line ≡ true
    → lines_of (line ++ (10 ∷ rest)) ≡ line ∷ lines_of rest
unfolding lines_of
lines_of-line [] rest h = refl
lines_of-line (b ∷ bs) rest h = ground (arith, lines_of-line bs rest)

split_lines-plain : (t : Text) → is_plain t ≡ true → split_lines t ≡ t ∷ []
unfolding split_lines
split_lines-plain [] h = refl
split_lines-plain (b ∷ bs) h = ground (arith, split_lines-plain bs)

trim_return-plain : (t : Text) → is_plain t ≡ true → trim_return t ≡ t
unfolding trim_return
trim_return-plain [] h = refl
trim_return-plain (b ∷ []) h = ground arith
trim_return-plain (b ∷ c ∷ cs) h = ground (arith, trim_return-plain (c ∷ cs))

trim_space-space : (t : Text) → trim_space (32 ∷ t) ≡ trim_space t
unfolding trim_space trim_left
trim_space-space t = refl

-- The lines of an event, one by one.
module _ (es : EventSource) (t : Text) (token : IsToken t) where
  read_id_line : read_line es (codes "id: " ++ t) ≡ record es { event_id = t }
  unfolding read_line read_field has_prefix text_eq
  read_id_line =
      rw (trim_return-plain (codes "id: " ++ t) token.0, trim_space-space t, token.1) refl

  read_event_line : read_line es (codes "event: " ++ t) ≡ record es { event_type = t }
  unfolding read_line read_field has_prefix text_eq
  read_event_line =
      rw (trim_return-plain (codes "event: " ++ t) token.0, trim_space-space t, token.1) refl

  read_data_line :
      read_line es (codes "data: " ++ t) ≡ record es { event_data = add_data es.event_data t }
  unfolding read_line read_field has_prefix text_eq
  read_data_line =
      rw (trim_return-plain (codes "data: " ++ t) token.0, trim_space-space t, token.1) refl

-- The message of an event, and the id of an event that has one.
abbrev pub delivered : EventSource → Text → Text → EventSource
delivered es id message = record es {
  message_chan = offer es.message_chan message;
  last_event_id = kept_id id es.last_event_id;
}

-- Between two events.
abbrev pub IsBetween : EventSource → Type 0
IsBetween es =
    (es.is_connected ≡ true) × (es.event_data ≡ []) × (es.event_id ≡ []) × (es.event_type ≡ [])

lines_of-named :
    (name value rest : Text)
    → is_plain (name ++ value) ≡ true
    → lines_of (name ++ (value ++ (10 ∷ rest))) ≡ (name ++ value) ∷ lines_of rest
lines_of-named name value rest h =
    rw (← append_assoc name value (10 ∷ rest)) (lines_of-line (name ++ value) rest h)

sse_event-lines :
    (id kind bytes rest : Text)
    → is_plain id ≡ true
    → is_plain kind ≡ true
    → is_plain bytes ≡ true
    → lines_of (sse_event id kind bytes ++ rest)
      ≡ (codes "id: " ++ id)
        ∷ (codes "event: " ++ kind)
        ∷ (codes "data: " ++ bytes)
        ∷ []
        ∷ lines_of rest
unfolding sse_event data_lines lines_of
sse_event-lines id kind bytes rest hi hk hb =
    let last = codes "data: " ++ (bytes ++ (10 ∷ 10 ∷ rest)) in
    let middle = codes "event: " ++ (kind ++ (10 ∷ last)) in
    rw (split_lines-plain bytes hb) (
      simp append_assoc (
        lines_of-named (codes "id: ") id middle hi
        ∙ ap (◌∷◌ (codes "id: " ++ id)) (
            lines_of-named (codes "event: ") kind last hk
            ∙ ap (◌∷◌ (codes "event: " ++ kind))
                (lines_of-named (codes "data: ") bytes (10 ∷ rest) hb))))

-- A client between two events.
abbrev between : List Text → Text → ℤ → EventSource
between chan last retry = record {
  message_chan = chan;
  last_event_id = last;
  retry_interval = retry;
  is_connected = true;
  event_data = [];
  event_id = [];
  event_type = [];
}

IsBetween-between :
    (es : EventSource)
    → IsBetween es
    → es ≡ between es.message_chan es.last_event_id es.retry_interval
IsBetween-between es (on, no_data, no_id, no_type) = ground arith

module _ (id kind bytes : Text) (hi : IsToken id) (hk : IsToken kind) (hb : IsToken bytes)
    (open_ended : text_eq kind (codes "close") ≡ false) (full : text_eq bytes [] ≡ false) where
  last_line :
      (chan : List Text) (last : Text) (retry : ℤ)
      → read_line
          (record (between chan last retry) {
            event_id = id;
            event_type = kind;
            event_data = bytes;
          })
          []
        ≡ delivered (between chan last retry) id bytes
  unfolding read_line trim_return has_prefix text_eq end_of_event dispatch
  last_line chan last retry = rw (full, open_ended) refl

  event_read :
      (chan : List Text) (last : Text) (retry : ℤ) (lines : List Text)
      → read_events (between chan last retry) (
          (codes "id: " ++ id) ∷ (codes "event: " ++ kind) ∷ (codes "data: " ++ bytes) ∷ [] ∷ lines)
        ≡ read_events (delivered (between chan last retry) id bytes) lines
  unfolding read_events add_data
  event_read chan last retry lines =
      let es = between chan last retry in
      let es1 : EventSource = record es { event_id = id } in
      let es2 : EventSource = record es { event_id = id; event_type = kind } in
      let line2 = codes "event: " ++ kind in
      let line3 = codes "data: " ++ bytes in
      ap (λ (e : EventSource). read_events e (line2 ∷ line3 ∷ [] ∷ lines)) (read_id_line es id hi)
      ∙ ap (λ (e : EventSource). read_events e (line3 ∷ [] ∷ lines)) (read_event_line es1 kind hk)
      ∙ ap (λ (e : EventSource). read_events e ([] ∷ lines)) (read_data_line es2 bytes hb)
      ∙ ap (λ (e : EventSource). read_events e lines) (last_line chan last retry)

-- A connected client that is between two events and reads what sendSSEEvent has written, of a type
-- other than `close`, gets exactly the event's data as one message (if its channel has room), notes the
-- id if there is one, and is between two events again, whatever follows. The data is not empty, and
-- data, id and type are each on one line without white space around them, as JSON is.
pub read_events-sse_event :
    (es : EventSource) (id kind bytes rest : Text)
    → IsBetween es
    → IsToken id
    → IsToken kind
    → IsToken bytes
    → text_eq kind (codes "close") ≡ false
    → text_eq bytes [] ≡ false
    → read_events es (lines_of (sse_event id kind bytes ++ rest))
      ≡ read_events (delivered es id bytes) (lines_of rest)
read_events-sse_event es id kind bytes rest b hi hk hb open_ended full =
    subst
      (λ (e : EventSource).
        read_events e (lines_of (sse_event id kind bytes ++ rest))
        ≡ read_events (delivered e id bytes) (lines_of rest))
      (sym (IsBetween-between es b))
      (rw (sse_event-lines id kind bytes rest hi.0 hk.0 hb.0) (
        event_read id kind bytes hi hk hb open_ended full es.message_chan es.last_event_id
          es.retry_interval (lines_of rest)))
