-- ===== src/Server/Http/Guard.antt =====
-- What HTTPHandler of pkg/server/http_handler.go lets through to its transport.
use mcp_sdk_go.Base.Text.{text_eq}
use mcp_sdk_go.Base.{◌≡◌, ◌⊎◌, refl, inl, inr, true, [], In, arith, Bool-cases}
use mcp_sdk_go.Protocol.Jsonrpc.{Json}
use mcp_sdk_go.Server.Http.{HttpHandler, is_origin_allowed}
use mcp_sdk_go.Server.Http.Sessions.{is_session_valid, update_session_last_used}
use mcp_sdk_go.Server.Http.Replies.{
  HttpMethod, post, get, options, delete, other_method, HttpRequest, HttpInputs, TransportCall,
}
use mcp_sdk_go.Server.Http.Serve.{
  handle_options_request, handle_delete_request, open_get_stream, handle_get_request, route,
  is_initialize_body, passes_without_session, serve_in_session, serve_http,
}
use mcp_sdk_go.Server.Http.Validity.{is_alive, is_session_valid-is_alive}

-- Why a request may reach the transport.
abbrev pub LetThrough : Json → HttpHandler → HttpInputs → HttpRequest → Type 0
LetThrough j h at q =
    (is_origin_allowed h q.origin ≡ true)
    × (q.method ≡ post)
    × ((text_eq q.session_id [] ≡ true)
        ⊎ ((is_alive h q.session_id at.now ≡ true) ⊎ (is_initialize_body j q.body ≡ true)))

module _ (j : Json) (at : HttpInputs) (q : HttpRequest) (call : TransportCall) where
  get_calls_nothing : (h : HttpHandler) → (handle_get_request h at q).calls ≡ []
  unfolding handle_get_request open_get_stream
  get_calls_nothing h = ground arith

  delete_calls_nothing : (h : HttpHandler) → (handle_delete_request h at q).calls ≡ []
  unfolding handle_delete_request
  delete_calls_nothing h = ground arith

  -- Only a POST calls the transport.
  route_posts :
      (h : HttpHandler) (m : HttpMethod)
      → q.method ≡ m
      → In call (route j h at q).calls
      → q.method ≡ post
  unfolding route handle_options_request
  route_posts h post p i = p
  route_posts h get p i = absurd (rw (get_calls_nothing h) at (rw (p, route) at i))
  route_posts h options p i = absurd (rw (p, route) at i)
  route_posts h delete p i = absurd (rw (delete_calls_nothing h) at (rw (p, route) at i))
  route_posts h other_method p i = absurd (rw (p, route) at i)

  -- A POST that is passed on although its session is not valid is one to initialize.
  passed_initialize :
      (p : q.method ≡ post) → passes_without_session j q ≡ true → is_initialize_body j q.body ≡ true
  unfolding passes_without_session
  passed_initialize p e = rw (p, passes_without_session) at e

  -- The transport is called only for a POST from an allowed origin that names no session, or one that
  -- is valid at the time, or that is itself an initialize request.
  pub serve_http-LetThrough :
      (h : HttpHandler) → In call (serve_http j h at q).calls → LetThrough j h at q
  unfolding serve_http serve_in_session
  serve_http-LetThrough h i = elim (Bool-cases (is_origin_allowed h q.origin)) [
    | inr out ↦ absurd (rw out at i)
    | inl let_in ↦
        let i1 = rw let_in at i in
        elim (Bool-cases (text_eq q.session_id [])) [
          | inl unnamed ↦ (let_in, route_posts h q.method refl (rw unnamed at i1), inl unnamed)
          | inr named ↦
              let i2 = rw (named, is_session_valid-is_alive h at.now q.session_id) at i1 in
              elim (Bool-cases (is_alive h q.session_id at.now)) [
                | inl alive ↦ (
                  let_in,
                  route_posts
                      (update_session_last_used (is_session_valid h at.now q.session_id).0 at.now
                        q.session_id)
                      q.method refl (rw alive at i2),
                  inr (inl alive),
                )
                | inr dead ↦
                    let i3 = rw dead at i2 in
                    elim (Bool-cases (passes_without_session j q)) [
                      | inl passes ↦
                          let posted =
                            route_posts (is_session_valid h at.now q.session_id).0 q.method refl
                              (rw passes at i3) in
                          (let_in, posted, inr (inr (passed_initialize posted passes)))
                      | inr stopped ↦ absurd (rw stopped at i3)
                    ]
              ]
        ]
  ]
