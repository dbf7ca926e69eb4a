-- ===== src/Server/Http/Isolation.antt =====
-- What a request to HTTPHandler of pkg/server/http_handler.go does to the sessions that it does not
-- name.
use mcp_sdk_go.Base.Text.{Text, text_eq}
use mcp_sdk_go.Base.Dict.{lookup, lookup-insert, lookup-remove}
use mcp_sdk_go.Base.{◌≡◌, refl, inl, inr, false, [], Option, none, some, arith, Option-cases}
use mcp_sdk_go.Protocol.Jsonrpc.{Json}
use mcp_sdk_go.Transport.Dispatch.{Request}
use mcp_sdk_go.Server.Http.{HttpHandler}
use mcp_sdk_go.Server.Http.Sessions.{
  generate_secure_session_id, new_session, create_session, is_session_valid,
  update_session_last_used, close_session,
}
use mcp_sdk_go.Server.Http.Replies.{
  HttpMethod, post, get, options, delete, other_method, HttpRequest, HttpInputs, open_stream,
  handle_http_request, handle_streaming_request,
}
use mcp_sdk_go.Server.Http.Serve.{
  respond_to, respond_in_new_session, handle_post_message, handle_post_body, handle_post_request,
  handle_options_request, handle_delete_request, open_get_stream, handle_get_request, route,
  serve_in_session, serve_http,
}
use mcp_sdk_go.Server.Http.Validity.{is_session_valid-lookup, update-lookup}

-- The id that a new session would get.
abbrev pub Differs : Option Text → Text → Type 0
Differs none other = Unit
Differs (some id) other = text_eq id other ≡ false

module _ (j : Json) (at : HttpInputs) (other : Text) where
  create-lookup :
      (h : HttpHandler)
      → Differs (generate_secure_session_id at.random) other
      → lookup other (create_session h at.now at.random).0.sessions ≡ lookup other h.sessions
  unfolding create_session
  create-lookup h d = elim (Option-cases (generate_secure_session_id at.random)) [
    | inl e ↦ ground arith
    | inr (id, e) ↦
        ground (arith, lookup-insert id other (new_session h at.now id) h.sessions, rw e at d)
  ]

  respond-sessions :
      (h : HttpHandler) (q : HttpRequest) (s header : Text) (r : Request)
      → (respond_to h at q s header r).handler.sessions ≡ h.sessions
  unfolding respond_to handle_streaming_request handle_http_request open_stream
  respond-sessions h q s header r = ground arith

  new_session-lookup :
      (made : HttpHandler × Option Text) (q : HttpRequest) (r : Request)
      → (respond_in_new_session made at q r).handler.sessions ≡ made.0.sessions
  unfolding respond_in_new_session
  new_session-lookup (h, none) q r = refl
  new_session-lookup (h, some id) q r = respond-sessions h q id id r

  message-lookup :
      (h : HttpHandler) (q : HttpRequest) (r : Request)
      → Differs (generate_secure_session_id at.random) other
      → lookup other (handle_post_message h at q r).handler.sessions ≡ lookup other h.sessions
  unfolding handle_post_message
  message-lookup h q r d = ground (
    arith,
    respond-sessions h q q.session_id [] r,
    new_session-lookup (create_session h at.now at.random) q r,
    create-lookup h d,
  )

  post-lookup :
      (h : HttpHandler) (q : HttpRequest)
      → Differs (generate_secure_session_id at.random) other
      → lookup other (handle_post_request j h at q).handler.sessions ≡ lookup other h.sessions
  unfolding handle_post_request handle_post_body
  post-lookup h q d = elim (Option-cases q.body) [
    | inl e ↦ ground arith
    | inr (bytes, e) ↦ elim (Option-cases (j.read_request bytes)) [
      | inl e' ↦ ground arith
      | inr (r, e') ↦ ground (arith, message-lookup h q r d)
    ]
  ]

  get-lookup :
      (h : HttpHandler) (q : HttpRequest)
      → text_eq q.session_id other ≡ false
      → lookup other (handle_get_request h at q).handler.sessions ≡ lookup other h.sessions
  unfolding handle_get_request open_get_stream open_stream
  get-lookup h q e = ground (
    arith,
    is_session_valid-lookup h at.now q.session_id other e,
    update-lookup (is_session_valid h at.now q.session_id).0 at.now q.session_id other,
  )

  delete-lookup :
      (h : HttpHandler) (q : HttpRequest)
      → text_eq q.session_id other ≡ false
      → lookup other (handle_delete_request h at q).handler.sessions ≡ lookup other h.sessions
  unfolding handle_delete_request close_session
  delete-lookup h q e = ground (
    arith,
    is_session_valid-lookup h at.now q.session_id other e,
    lookup-remove q.session_id other (is_session_valid h at.now q.session_id).0.sessions,
  )

  route-lookup :
      (h : HttpHandler) (q : HttpRequest) (m : HttpMethod)
      → q.method ≡ m
      → text_eq q.session_id other ≡ false
      → Differs (generate_secure_session_id at.random) other
      → lookup other (route j h at q).handler.sessions ≡ lookup other h.sessions
  unfolding route handle_options_request
  route-lookup h q post p e d = rw (p, route) (post-lookup h q d)
  route-lookup h q get p e d = rw (p, route) (get-lookup h q e)
  route-lookup h q options p e d = rw (p, route) refl
  route-lookup h q delete p e d = rw (p, route) (delete-lookup h q e)
  route-lookup h q other_method p e d = rw (p, route) refl

  -- A request leaves every session as it is that it does not name and whose id is not that of a session
  -- that it creates.
  pub serve_http-isolates :
      (h : HttpHandler) (q : HttpRequest)
      → text_eq q.session_id other ≡ false
      → Differs (generate_secure_session_id at.random) other
      → lookup other (serve_http j h at q).handler.sessions ≡ lookup other h.sessions
  unfolding serve_http serve_in_session
  serve_http-isolates h q e d =
      let checked = (is_session_valid h at.now q.session_id).0 in
      let used_now = update_session_last_used checked at.now q.session_id in
      ground (
        arith,
        is_session_valid-lookup h at.now q.session_id other e,
        update-lookup checked at.now q.session_id other,
        route-lookup h q q.method refl e d,
        route-lookup checked q q.method refl e d,
        route-lookup used_now q q.method refl e d,
      )
