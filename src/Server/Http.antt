-- ===== src/Server/Http.antt =====
-- HTTPHandler of pkg/server/http_handler.go: its state, its settings and the check of the Origin
-- header. Times are numbers, and a timeout is an integer. A stream is a running handleGetRequest or
-- handleStreamingRequest; it keeps its channel, which may be closed after its connection has left the
-- handler's map.
pub mod Sessions
pub mod Replies
pub mod Serve
pub mod Origins
pub mod Validity
pub mod Isolation
pub mod Ending
pub mod Cleaning
pub mod Guard
pub mod Streams
use mcp_sdk_go.Base.Int.{ℤ, pos}
use mcp_sdk_go.Base.Text.{Text, codes, text_eq, has_prefix}
use mcp_sdk_go.Base.Dict.{Dict}
use mcp_sdk_go.Base.{ℕ, Bool, true, false, ◌&&◌, ◌||◌, List, [], ◌∷◌, ◌++◌, any, if◌then◌else◌}

pub record SessionInfo : Type 0 where
  pub id : Text
  pub created_at : ℕ
  pub last_used_at : ℕ
  pub expires_at : ℤ
  pub last_event_id : Text
  pub rotation_count : ℕ

pub record SseConnection : Type 0 where
  pub last_event_id : Text
  pub session_id : Text

-- `streams` says of each running stream whether its channel is closed.
pub record HttpHandler : Type 0 where
  pub has_transport : Bool
  pub allowed_origins : List Text
  pub sessions : Dict SessionInfo
  pub sse_connections : Dict SseConnection
  pub streams : Dict Bool
  pub session_timeout : ℤ
  pub cleanup_stopped : Bool

-- 24 hours, in nanoseconds.
abbrev pub day : ℤ
day = pos 86400000000000

unfoldable pub new_http_handler : HttpHandler
new_http_handler = record {
  has_transport = false;
  allowed_origins = codes "http://localhost" ∷ codes "https://localhost" ∷ [];
  sessions = [];
  sse_connections = [];
  streams = [];
  session_timeout = day;
  cleanup_stopped = false;
}

unfoldable pub set_session_timeout : HttpHandler → ℤ → HttpHandler
set_session_timeout h timeout = record h { session_timeout = timeout }

unfoldable pub set_transport : HttpHandler → Bool → HttpHandler
set_transport h present = record h { has_transport = present }

unfoldable pub set_allowed_origins : HttpHandler → List Text → HttpHandler
set_allowed_origins h origins = record h { allowed_origins = origins }

unfoldable pub add_allowed_origin : HttpHandler → Text → HttpHandler
add_allowed_origin h origin = record h { allowed_origins = h.allowed_origins ++ origin ∷ [] }

abbrev pub wildcard : Text
wildcard = codes "*"

unfoldable pub without_wildcard : List Text → List Text
without_wildcard [] = []
without_wildcard (o ∷ os) =
    let rest = without_wildcard os in if text_eq o wildcard then rest else o ∷ rest

unfoldable pub set_allow_wildcard_origin : HttpHandler → Bool → HttpHandler
set_allow_wildcard_origin h true =
    if any (λ o. text_eq o wildcard) h.allowed_origins
    then h
    else record h { allowed_origins = h.allowed_origins ++ wildcard ∷ [] }
set_allow_wildcard_origin h false = record h {
  allowed_origins = without_wildcard h.allowed_origins;
}

abbrev pub localhost_patterns : List Text
localhost_patterns =
    codes "http://localhost"
    ∷ codes "https://localhost"
    ∷ codes "http://127.0.0.1"
    ∷ codes "https://127.0.0.1"
    ∷ codes "http://::1"
    ∷ codes "https://::1"
    ∷ []

unfoldable pub is_localhost_pattern : Text → Bool
is_localhost_pattern allowed = any (text_eq allowed) localhost_patterns

unfoldable pub is_localhost_origin : Text → Bool
is_localhost_origin origin =
    any (λ p. text_eq origin p || has_prefix origin (p ++ codes ":")) localhost_patterns

unfoldable pub match_origin : Text → Text → Bool
match_origin allowed origin =
    text_eq allowed origin || (is_localhost_pattern allowed && is_localhost_origin origin)

unfoldable pub is_origin_allowed : HttpHandler → Text → Bool
is_origin_allowed h [] = false
is_origin_allowed h (c ∷ cs) =
    any (λ allowed. text_eq allowed wildcard || match_origin allowed (c ∷ cs)) h.allowed_origins
