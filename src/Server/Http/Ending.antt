-- ===== src/Server/Http/Ending.antt =====
-- How a session of HTTPHandler in pkg/server/http_handler.go ends: by DELETE, by the cleanup, by its
-- rotation, and what that does to its streams.
use mcp_sdk_go.Base.Text.{Text, text_eq, text_eq_refl}
use mcp_sdk_go.Base.Dict.{
  Dict, lookup, insert, remove, lookup-insert, lookup-remove, lookup-insert_eq,
}
use mcp_sdk_go.Base.{
  ℕ, ◌≡◌, refl, ◌∙◌, ap, inl, inr, Bool, true, false, not, [], ◌∷◌, In, none, some, arith,
  if◌then◌else◌, Bool-cases,
}
use mcp_sdk_go.Protocol.Jsonrpc.{Json}
use mcp_sdk_go.Server.Http.{SessionInfo, SseConnection, HttpHandler, is_origin_allowed}
use mcp_sdk_go.Server.Http.Sessions.{
  is_after, add_time, update_session_last_used, close_connections, close_streams, close_session,
}
use mcp_sdk_go.Server.Http.Replies.{delete, HttpRequest, HttpInputs, Served, end_stream}
use mcp_sdk_go.Server.Http.Serve.{handle_delete_request, route, serve_in_session, serve_http}
use mcp_sdk_go.Server.Http.Validity.{
  is_alive, is_session_valid-is_alive, is_session_valid-alive, update-alive,
}

-- Closing a session closes the channel of each of its connections.
close_streams-stays :
    (session id : Text) (cs : Dict SseConnection) (streams : Dict Bool)
    → lookup id streams ≡ some true
    → lookup id (close_streams session cs streams) ≡ some true
unfolding close_streams
close_streams-stays session id [] streams e = e
close_streams-stays session id ((k, c) ∷ cs) streams e =
    close_streams-stays session id cs
      (if text_eq c.session_id session then insert k true streams else streams)
      (ground (arith, lookup-insert k id true streams))

close_streams-closes :
    (session id : Text) (c : SseConnection) (cs : Dict SseConnection) (streams : Dict Bool)
    → lookup id cs ≡ some c
    → text_eq c.session_id session ≡ true
    → lookup id (close_streams session cs streams) ≡ some true
unfolding close_streams lookup
close_streams-closes session id c [] streams e s = cc
close_streams-closes session id c ((k, d) ∷ cs) streams e s = elim (Bool-cases (text_eq k id)) [
  | inl same ↦
      let d_is_c : d ≡ c = ground arith in
      close_streams-stays session id cs _ (rw (d_is_c, s) (lookup-insert_eq k id true streams same))
  | inr other ↦ close_streams-closes session id c cs _ (ground arith) s
]

-- No connection of the session is left.
close_connections-none :
    (session id : Text) (c : SseConnection) (cs : Dict SseConnection)
    → In (id, c) (close_connections session cs)
    → text_eq c.session_id session ≡ false
unfolding close_connections
close_connections-none session id c [] i = absurd i
close_connections-none session id c ((k, d) ∷ cs) i =
    elim (Bool-cases (text_eq d.session_id session)) [
      | inl same ↦ close_connections-none session id c cs (rw same at i)
      | inr other ↦ elim (rw other at i) [
        | inl e ↦ let q = ap (λ (p : Text × SseConnection). p.1.session_id) e in rw q other
        | inr r ↦ close_connections-none session id c cs r
      ]
    ]

-- What a DELETE that is carried out leaves of the session.
abbrev pub Ended : HttpHandler → Text → Served → Type 0
Ended h session r =
    (r.reply.status ≡ 200)
    × ((t : ℕ) → is_alive r.handler session t ≡ false)
    × ((id : Text) (c : SseConnection)
        → In (id, c) r.handler.sse_connections
        → text_eq c.session_id session ≡ false)
    × ((id : Text) (c : SseConnection)
        → lookup id h.sse_connections ≡ some c
        → text_eq c.session_id session ≡ true
        → end_stream r.handler id ≡ none)

module _ (h : HttpHandler) (at : HttpInputs) (q : HttpRequest) where
  closed_stream :
      (m : Dict SessionInfo) (id : Text) (c : SseConnection)
      → lookup id h.sse_connections ≡ some c
      → text_eq c.session_id q.session_id ≡ true
      → end_stream (close_session (record h { sessions = m }) q.session_id) id ≡ none
  unfolding end_stream close_session
  closed_stream m id c e s =
      rw (close_streams-closes q.session_id id c h.sse_connections h.streams e s, end_stream) refl

  delete-Ended :
      text_eq q.session_id [] ≡ false
      → is_alive h q.session_id at.now ≡ true
      → Ended h q.session_id (handle_delete_request h at q)
  unfolding handle_delete_request close_session
  delete-Ended named alive =
      rw
        (
          named,
          is_session_valid-is_alive h at.now q.session_id,
          alive,
          is_session_valid-alive h at.now q.session_id alive,
        )
        (
          refl,
          λ t. ground (
            arith,
            lookup-remove q.session_id q.session_id h.sessions,
            text_eq_refl q.session_id,
          ),
          λ id c. close_connections-none q.session_id id c h.sse_connections,
          λ id c e s. closed_stream (remove q.session_id h.sessions) id c e s,
        )

update-connections :
    (h : HttpHandler) (now : ℕ) (id : Text)
    → (update_session_last_used h now id).sse_connections ≡ h.sse_connections
unfolding update_session_last_used
update-connections h now id = ground arith

negated : (b : Bool) → b ≡ false → not b ≡ true
negated b h = ground arith

-- A DELETE from an allowed origin that names a valid session is answered by 200, if the handler's
-- timeout is not negative. From then on the session is valid at no time, and no connection in the
-- handler's map is of it; but each stream of it that is still running panics when its client goes away,
-- since its channel is closed twice.
pub serve_http-Ended :
    (j : Json) (h : HttpHandler) (at : HttpInputs) (q : HttpRequest)
    → is_origin_allowed h q.origin ≡ true
    → q.method ≡ delete
    → text_eq q.session_id [] ≡ false
    → is_alive h q.session_id at.now ≡ true
    → is_after at.now (add_time at.now h.session_timeout) ≡ false
    → Ended h q.session_id (serve_http j h at q)
unfolding serve_http serve_in_session route
serve_http-Ended j h at q origin m named alive lasting =
    let h1 = update_session_last_used h at.now q.session_id in
    let again =
      update-alive h at.now q.session_id at.now alive
      ∙ negated (is_after at.now (add_time at.now h.session_timeout)) lasting in
    let ended = delete-Ended h1 at q named again in
    rw
      (
        origin,
        named,
        is_session_valid-is_alive h at.now q.session_id,
        alive,
        is_session_valid-alive h at.now q.session_id alive,
      )
      (rw (m, route)
        (
          ended.0,
          ended.1,
          ended.2,
          λ id c e s. ended.3 id c (rw (update-connections h at.now q.session_id) e) s,
        ))
