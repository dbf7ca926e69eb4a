-- ===== src/Scenarios/HttpSessions.antt =====
-- pkg/server/http_handler.go: a handler with one session that has a stream.
use mcp_sdk_go.Base.Int.{pos}
use mcp_sdk_go.Base.Text.{Text, codes, text_eq, has_prefix}
use mcp_sdk_go.Base.Dict.{lookup, insert}
use mcp_sdk_go.Base.{◌≡◌, ◌≢◌, ◌↔◌, arith, refl, inl, true, false, [], ◌∷◌, In, none, some}
use mcp_sdk_go.Protocol.Jsonrpc.{json, fields_are_request, new_response}
use mcp_sdk_go.Protocol.Jsonrpc.Kinds.{is_request}
use mcp_sdk_go.Transport.Dispatch.{Request}
use mcp_sdk_go.Auth.ApiKey.Store.{hex_encode}
use mcp_sdk_go.Server.Http.{
  SessionInfo, HttpHandler, is_origin_allowed, match_origin, is_localhost_pattern,
  is_localhost_origin,
}
use mcp_sdk_go.Server.Http.Sessions.{
  generate_secure_session_id, is_session_valid, update_session_last_used, used,
  cleanup_expired_sessions,
}
use mcp_sdk_go.Server.Http.Replies.{
  post, delete, HttpMethod, HttpRequest, HttpInputs, sent, request_call, answer_to,
  handle_http_request,
}
use mcp_sdk_go.Server.Http.Serve.{
  wants_sse, respond_to, handle_post_message, handle_post_body, handle_post_request, route,
  serve_in_session, serve_http,
}
use mcp_sdk_go.Server.Http.Origins.{Admits, is_origin_allowed_iff}
use mcp_sdk_go.Server.Http.Validity.{is_alive, serve_http-slides}
use mcp_sdk_go.Server.Http.Isolation.{serve_http-isolates}
use mcp_sdk_go.Server.Http.Guard.{LetThrough, serve_http-LetThrough}
use mcp_sdk_go.Server.Http.Ending.{Ended, serve_http-Ended}
use mcp_sdk_go.Server.Http.Cleaning.{is_over, cleanup_expired_sessions-is_alive}
use mcp_sdk_go.Scenarios.Messages.{plain_json}

abbrev session : SessionInfo
session = record {
  id = codes "s";
  created_at = 0;
  last_used_at = 10;
  expires_at = pos 60;
  last_event_id = [];
  rotation_count = 0;
}

abbrev handler : HttpHandler
handler = record {
  has_transport = true;
  allowed_origins = codes "http://localhost" ∷ [];
  sessions = (codes "s", session) ∷ (codes "t", session) ∷ [];
  sse_connections = (codes "c", record { last_event_id = []; session_id = codes "s" }) ∷ [];
  streams = (codes "c", false) ∷ [];
  session_timeout = pos 50;
  cleanup_stopped = false;
}

abbrev at_20 : HttpInputs
at_20 = record {
  now = 20;
  random = some (255 ∷ []);
  connection_id = codes "d";
  transport = λ method params. sent (json (codes "{}"));
}

abbrev ping : Request
ping = record { jsonrpc = codes "2.0"; id = codes "1"; method = codes "ping"; params = [] }

abbrev ask : HttpMethod → Text → HttpRequest
ask method session_id = record {
  method = method;
  origin = codes "http://127.0.0.1:80";
  session_id = session_id;
  accept = [];
  last_event_id = [];
  body = some (plain_json.write_request ping);
}

-- A request in a session is answered; after the session's DELETE it is not found.
ping_status : (serve_http plain_json handler at_20 (ask post (codes "s"))).reply.status ≡ 200
unfolding serve_http serve_in_session route handle_post_request handle_post_body handle_post_message
    respond_to wants_sse handle_http_request answer_to is_request fields_are_request new_response
    is_session_valid update_session_last_used used is_origin_allowed match_origin
    is_localhost_pattern is_localhost_origin has_prefix text_eq lookup insert
ping_status = refl

is_origin_allowed_iff_example : (is_origin_allowed handler (codes "http://127.0.0.1:80") ≡ true) ↔ (
    (codes "http://127.0.0.1:80" ≢ [])
    × ((allowed : Text) × In allowed handler.allowed_origins
        × Admits (codes "http://127.0.0.1:80") allowed))
is_origin_allowed_iff_example = is_origin_allowed_iff handler (codes "http://127.0.0.1:80")

serve_http-slides_example :
    is_alive (serve_http plain_json handler at_20 (ask post (codes "s"))).handler (codes "s") 70
    ≡ true
unfolding is_origin_allowed match_origin is_localhost_pattern is_localhost_origin has_prefix text_eq
    lookup
serve_http-slides_example =
    serve_http-slides plain_json handler at_20 (ask post (codes "s")) 70 refl refl (omega arith)
      refl refl

serve_http-isolates_example :
    lookup
      (codes "t")
      (serve_http plain_json handler at_20 (ask delete (codes "s"))).handler.sessions
    ≡ some session
unfolding text_eq lookup generate_secure_session_id hex_encode
serve_http-isolates_example =
    serve_http-isolates plain_json at_20 (codes "t") handler (ask delete (codes "s")) refl refl

serve_http-LetThrough_example : LetThrough plain_json handler at_20 (ask post (codes "s"))
unfolding serve_http serve_in_session route handle_post_request handle_post_body handle_post_message
    respond_to wants_sse handle_http_request answer_to is_request fields_are_request new_response
    is_session_valid update_session_last_used used is_origin_allowed match_origin
    is_localhost_pattern is_localhost_origin has_prefix text_eq lookup insert
serve_http-LetThrough_example =
    serve_http-LetThrough plain_json at_20 (ask post (codes "s")) (request_call (codes "ping") [])
      handler (inl refl)

serve_http-Ended_example :
    Ended handler (codes "s") (serve_http plain_json handler at_20 (ask delete (codes "s")))
unfolding is_origin_allowed match_origin is_localhost_pattern is_localhost_origin has_prefix text_eq
    lookup
serve_http-Ended_example =
    serve_http-Ended plain_json handler at_20 (ask delete (codes "s")) refl refl refl refl refl

cleanup_expired_sessions-is_alive_example :
    (is_alive (cleanup_expired_sessions handler 70) (codes "s") 80
      ≡ is_alive handler (codes "s") 80)
    × ((is_over 70 (lookup (codes "s") handler.sessions) ≡ true)
        → lookup (codes "s") (cleanup_expired_sessions handler 70).sessions ≡ none)
unfolding lookup text_eq
cleanup_expired_sessions-is_alive_example =
    cleanup_expired_sessions-is_alive handler 70 80 (codes "s") (refl, (refl, tt)) (omega arith)
