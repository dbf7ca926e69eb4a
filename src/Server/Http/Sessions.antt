-- ===== src/Server/Http/Sessions.antt =====
-- The sessions of HTTPHandler in pkg/server/http_handler.go. The random bytes of a new session are an
-- input, `none` where the reading of them fails; so is the time of each call.
use mcp_sdk_go.Base.Int.{ℤ, pos, pos_part, neg_part, sub_ℕ, ltb_ℤ}
use mcp_sdk_go.Base.Text.{Text, codes, text_eq}
use mcp_sdk_go.Base.Dict.{Dict, lookup, insert, remove}
use mcp_sdk_go.Base.{
  ℕ, ◌+◌, Bool, true, false, List, [], ◌∷◌, ◌++◌, length, Option, none, some, if◌then◌else◌,
}
use mcp_sdk_go.Auth.ApiKey.Store.{hex_encode}
use mcp_sdk_go.Server.Http.{SessionInfo, SseConnection, HttpHandler}

-- `now.Add(timeout)`, and `now.After(t)`.
abbrev pub add_time : ℕ → ℤ → ℤ
add_time now timeout = sub_ℕ (now + pos_part timeout) (neg_part timeout)

abbrev pub is_after : ℕ → ℤ → Bool
is_after now t = ltb_ℤ t (pos now)

unfoldable pub generate_secure_session_id : Option (List ℕ) → Option Text
generate_secure_session_id none = none
generate_secure_session_id (some bytes) = some (codes "mcp_session_" ++ hex_encode bytes)

unfoldable pub new_session : HttpHandler → ℕ → Text → SessionInfo
new_session h now id = record {
  id = id;
  created_at = now;
  last_used_at = now;
  expires_at = add_time now h.session_timeout;
  last_event_id = [];
  rotation_count = 0;
}

-- The new session's id, or the error.
unfoldable pub create_session : HttpHandler → ℕ → Option (List ℕ) → HttpHandler × Option Text
create_session h now random = elim (generate_secure_session_id random) [
  | none ↦ (h, none)
  | some id ↦ (record h { sessions = insert id (new_session h now id) h.sessions }, some id)
]

-- An expired session is removed.
unfoldable pub is_session_valid : HttpHandler → ℕ → Text → HttpHandler × Bool
is_session_valid h now id = elim (lookup id h.sessions) [
  | none ↦ (h, false)
  | some s ↦
      if is_after now s.expires_at
      then (record h { sessions = remove id h.sessions }, false)
      else (h, true)
]

unfoldable pub used : HttpHandler → ℕ → SessionInfo → SessionInfo
used h now s = record s { last_used_at = now; expires_at = add_time now h.session_timeout }

unfoldable pub update_session_last_used : HttpHandler → ℕ → Text → HttpHandler
update_session_last_used h now id = elim (lookup id h.sessions) [
  | none ↦ h
  | some s ↦ record h { sessions = insert id (used h now s) h.sessions }
]

unfoldable pub rotated : HttpHandler → ℕ → Text → SessionInfo → SessionInfo
rotated h now id old = record {
  id = id;
  created_at = old.created_at;
  last_used_at = now;
  expires_at = add_time now h.session_timeout;
  last_event_id = old.last_event_id;
  rotation_count = old.rotation_count + 1;
}

-- The new id, or the error.
unfoldable pub rotate_session_id :
    HttpHandler → ℕ → Option (List ℕ) → Text → HttpHandler × Option Text
rotate_session_id h now random old_id = elim (lookup old_id h.sessions) [
  | none ↦ (h, none)
  | some old ↦ elim (generate_secure_session_id random) [
    | none ↦ (h, none)
    | some id ↦ (
      record h { sessions = insert id (rotated h now id old) (remove old_id h.sessions) },
      some id,
    )
  ]
]

-- Closing the channels of a session's connections: the connections leave the map, and the channel of
-- each stream is closed.
unfoldable pub close_connections : Text → Dict SseConnection → Dict SseConnection
close_connections session [] = []
close_connections session ((id, c) ∷ cs) =
    let rest = close_connections session cs in
    if text_eq c.session_id session then rest else (id, c) ∷ rest

unfoldable pub close_streams : Text → Dict SseConnection → Dict Bool → Dict Bool
close_streams session [] streams = streams
close_streams session ((id, c) ∷ cs) streams =
    close_streams session cs
      (if text_eq c.session_id session then insert id true streams else streams)

unfoldable pub close_session : HttpHandler → Text → HttpHandler
close_session h session = record h {
  sse_connections = close_connections session h.sse_connections;
  streams = close_streams session h.sse_connections h.streams;
}

unfoldable pub expired_sessions : ℕ → Dict SessionInfo → List Text
expired_sessions now [] = []
expired_sessions now ((id, s) ∷ rest) =
    let others = expired_sessions now rest in
    if is_after now s.expires_at then id ∷ others else others

unfoldable pub drop_sessions : HttpHandler → List Text → HttpHandler
drop_sessions h [] = h
drop_sessions h (id ∷ ids) =
    drop_sessions (close_session (record h { sessions = remove id h.sessions }) id) ids

unfoldable pub cleanup_expired_sessions : HttpHandler → ℕ → HttpHandler
cleanup_expired_sessions h now = drop_sessions h (expired_sessions now h.sessions)

-- `none` is the panic of closing a closed channel.
unfoldable pub stop_session_cleanup : HttpHandler → Option HttpHandler
stop_session_cleanup h =
    if h.cleanup_stopped then none else some (record h { cleanup_stopped = true })

unfoldable pub get_session_count : HttpHandler → ℕ
get_session_count h = length h.sessions
