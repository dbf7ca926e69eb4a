-- ===== src/Server/Http/Serve.antt =====
-- ServeHTTP of HTTPHandler in pkg/server/http_handler.go and the handlers of the HTTP methods.
use mcp_sdk_go.Base.Text.{Text, codes, text_eq}
use mcp_sdk_go.Base.Dict.{remove}
use mcp_sdk_go.Base.{Bool, true, false, not, ◌&&◌, ◌||◌, [], ◌∷◌, Option, none, some, if◌then◌else◌}
use mcp_sdk_go.Protocol.Names.{method_initialize}
use mcp_sdk_go.Protocol.Jsonrpc.{Json}
use mcp_sdk_go.Protocol.Jsonrpc.Kinds.{is_request, is_notification}
use mcp_sdk_go.Transport.Dispatch.{Request}
use mcp_sdk_go.Server.Http.{HttpHandler, is_origin_allowed}
use mcp_sdk_go.Server.Http.Sessions.{
  create_session, is_session_valid, update_session_last_used, close_session,
}
use mcp_sdk_go.Server.Http.Replies.{
  HttpRequest, HttpInputs, Served, says, replied, handle_http_request, open_stream, connection_of,
  handle_streaming_request, post, get, options, delete, other_method, empty_body, stream,
  notification_call,
}

unfoldable pub wants_sse : Text → Bool
wants_sse accept =
    text_eq accept (codes "text/event-stream")
    || (text_eq accept (codes "application/json, text/event-stream")
        || text_eq accept (codes "text/event-stream, application/json"))

-- The reply once the session of the request is settled: the session for a stream, and the header of a
-- session that is new.
unfoldable pub respond_to : HttpHandler → HttpInputs → HttpRequest → Text → Text → Request → Served
respond_to h at q session header r =
    if wants_sse q.accept
    then handle_streaming_request h at q session r
    else handle_http_request h at q.origin header r

-- A request of JSON-RPC; without a session id, initialize gets a new session.
unfoldable pub respond_in_new_session :
    HttpHandler × Option Text → HttpInputs → HttpRequest → Request → Served
respond_in_new_session (h, none) at q r = replied h 500 q.origin
respond_in_new_session (h, some id) at q r = respond_to h at q id id r

unfoldable pub handle_post_message : HttpHandler → HttpInputs → HttpRequest → Request → Served
handle_post_message h at q r =
    if text_eq r.method method_initialize && text_eq q.session_id []
    then respond_in_new_session (create_session h at.now at.random) at q r
    else respond_to h at q q.session_id [] r

unfoldable pub handle_options_request : HttpHandler → HttpRequest → Served
handle_options_request h q = record {
  handler = h;
  reply = says 204 q.origin empty_body;
  calls = [];
}

unfoldable pub handle_delete_request : HttpHandler → HttpInputs → HttpRequest → Served
handle_delete_request h at q =
    if text_eq q.session_id []
    then replied h 400 []
    else let (h', valid) = is_session_valid h at.now q.session_id in
      if valid
      then record {
        handler =
            close_session (record h' { sessions = remove q.session_id h'.sessions }) q.session_id;
        reply = says 200 [] empty_body;
        calls = [];
      }
      else replied h' 404 []

unfoldable pub open_get_stream : HttpHandler → HttpInputs → HttpRequest → Served
open_get_stream h at q = record {
  handler = open_stream h at.connection_id (connection_of q q.session_id);
  reply = says 200 q.origin (stream at.connection_id none);
  calls = [];
}

unfoldable pub handle_get_request : HttpHandler → HttpInputs → HttpRequest → Served
handle_get_request h at q =
    if text_eq q.session_id []
    then (if text_eq q.last_event_id [] then open_get_stream h at q else replied h 400 q.origin)
    else let (h', valid) = is_session_valid h at.now q.session_id in
      if valid
      then open_get_stream (update_session_last_used h' at.now q.session_id) at q
      else replied h' 404 q.origin

module _ (j : Json) where
  unfoldable pub handle_post_body : HttpHandler → HttpInputs → HttpRequest → Text → Served
  handle_post_body h at q bytes =
      if is_request j bytes
      then elim (j.read_request bytes) [
        | none ↦ replied h 400 q.origin
        | some r ↦ handle_post_message h at q r
      ]
      else if is_notification j bytes
      then elim (j.read_notification bytes) [
        | none ↦ replied h 400 q.origin
        | some n ↦ record {
          handler = h;
          reply = says 202 q.origin empty_body;
          calls = notification_call n.method n.params ∷ [];
        }
      ]
      else replied h 400 q.origin

  unfoldable pub handle_post_request : HttpHandler → HttpInputs → HttpRequest → Served
  handle_post_request h at q = elim q.body [
    | none ↦ replied h 400 q.origin
    | some bytes ↦ if h.has_transport then handle_post_body h at q bytes else replied h 500 q.origin
  ]

  -- The test of ServeHTTP for a request to initialize.
  unfoldable pub is_initialize_body : Option Text → Bool
  is_initialize_body none = false
  is_initialize_body (some bytes) =
      not (text_eq bytes [])
      && (is_request j bytes && elim (j.read_request bytes) [
        | none ↦ false
        | some r ↦ text_eq r.method method_initialize
      ])

  unfoldable pub route : HttpHandler → HttpInputs → HttpRequest → Served
  route h at q = elim q.method [
    | post ↦ handle_post_request h at q
    | get ↦ handle_get_request h at q
    | options ↦ handle_options_request h q
    | delete ↦ handle_delete_request h at q
    | other_method ↦ replied h 405 []
  ]

  -- Whether a request goes on although its session is not valid.
  unfoldable pub passes_without_session : HttpRequest → Bool
  passes_without_session q = elim q.method [
    | post ↦ is_initialize_body q.body
    | delete ↦ false
    | _ ↦ true
  ]

  unfoldable pub serve_in_session : HttpHandler → HttpInputs → HttpRequest → Served
  serve_in_session h at q =
      let (h', valid) = is_session_valid h at.now q.session_id in
      if valid
      then route (update_session_last_used h' at.now q.session_id) at q
      else if passes_without_session q
      then route h' at q
      else replied h' 404 []

  unfoldable pub serve_http : HttpHandler → HttpInputs → HttpRequest → Served
  serve_http h at q =
      if is_origin_allowed h q.origin
      then if text_eq q.session_id [] then route h at q else serve_in_session h at q
      else replied h 403 []
