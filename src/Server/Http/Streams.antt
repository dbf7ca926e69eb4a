-- ===== src/Server/Http/Streams.antt =====
-- What sendSSEEvent and BroadcastNotification of pkg/server/http_handler.go write. The marshalled event
-- is an argument; a connection whose channel is closed gets nothing.
use mcp_sdk_go.Base.Text.{Text, codes}
use mcp_sdk_go.Base.Dict.{Dict, lookup, insert}
use mcp_sdk_go.Base.{ℕ, List, [], ◌∷◌, ◌++◌, Option, none, some, ◌==◌, if◌then◌else◌}
use mcp_sdk_go.Server.Http.{SseConnection, HttpHandler}

abbrev pub prepend_byte : ℕ → List Text → List Text
prepend_byte b [] = (b ∷ []) ∷ []
prepend_byte b (line ∷ lines) = (b ∷ line) ∷ lines

-- `strings.Split(s, "\n")`, which gives a text without a newline as its one line.
unfoldable pub split_lines : Text → List Text
split_lines [] = [] ∷ []
split_lines (b ∷ bs) =
    let rest = split_lines bs in if b == 10 then [] ∷ rest else prepend_byte b rest

-- A line and its newline.
abbrev pub line_of : Text → Text → Text
line_of name value = name ++ (value ++ (10 ∷ []))

unfoldable pub data_lines : List Text → Text
data_lines [] = []
data_lines (line ∷ lines) = line_of (codes "data: ") line ++ data_lines lines

unfoldable pub sse_event : Text → Text → Text → Text
sse_event event_id event_type bytes =
    line_of (codes "id: ") event_id
    ++ (line_of (codes "event: ") event_type ++ (data_lines (split_lines bytes) ++ (10 ∷ [])))

abbrev pub note_event : Option SseConnection → Text → Dict SseConnection → Text → Dict SseConnection
note_event none id connections event_id = connections
note_event (some c) id connections event_id =
    insert id (record c { last_event_id = event_id }) connections

-- sendSSEEvent: what it writes, and the id that it notes. `bytes` is `none` where the event does not
-- marshal.
unfoldable pub send_sse_event :
    HttpHandler → Text → Text → Text → Option Text → HttpHandler × Option Text
send_sse_event h id event_id event_type none = (h, none)
send_sse_event h id event_id event_type (some bytes) = elim (lookup id h.streams) [
  | none ↦ (h, none)
  | some closed ↦ if closed then (h, none) else (
    record h {
      sse_connections = note_event (lookup id h.sse_connections) id h.sse_connections event_id;
    },
    some (sse_event event_id event_type bytes),
  )
]

-- The connections that BroadcastNotification writes to, each with the id of its event.
unfoldable pub broadcast :
    HttpHandler → List (Text × Text) → Option Text → HttpHandler × List (Text × Option Text)
broadcast h [] bytes = (h, [])
broadcast h ((id, event_id) ∷ ids) bytes =
    let (h', written) = send_sse_event h id event_id (codes "notification") bytes in
    let (h'', rest) = broadcast h' ids bytes in (h'', (id, written) ∷ rest)
