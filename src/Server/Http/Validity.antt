-- ===== src/Server/Http/Validity.antt =====
-- How long a session of HTTPHandler in pkg/server/http_handler.go is valid.
use mcp_sdk_go.Base.Int.{ℤ}
use mcp_sdk_go.Base.Text.{Text, text_eq, text_eq_refl, text_eq_iff}
use mcp_sdk_go.Base.Dict.{lookup, lookup-insert, lookup-remove}
use mcp_sdk_go.Base.{
  ℕ, ◌≤◌, ◌≡◌, refl, ◌∙◌, sym, ap, inl, inr, Bool, true, false, not, [], Option, none, some, arith,
  if◌then◌else◌, Bool-cases, Option-cases,
}
use mcp_sdk_go.Protocol.Jsonrpc.{Json}
use mcp_sdk_go.Server.Http.{SessionInfo, HttpHandler, is_origin_allowed}
use mcp_sdk_go.Server.Http.Sessions.{
  is_after, add_time, is_session_valid, used, update_session_last_used,
}
use mcp_sdk_go.Server.Http.Replies.{
  HttpMethod, post, get, options, delete, other_method, HttpRequest, HttpInputs, open_stream,
  handle_http_request, handle_streaming_request,
}
use mcp_sdk_go.Server.Http.Serve.{
  respond_to, handle_post_message, handle_post_body, handle_post_request, handle_options_request,
  open_get_stream, handle_get_request, route, serve_in_session, serve_http,
}

abbrev pub lives : ℕ → Option SessionInfo → Bool
lives t none = false
lives t (some s) = not (is_after t s.expires_at)

-- Whether a session would be valid at a time.
abbrev pub is_alive : HttpHandler → Text → ℕ → Bool
is_alive h id t = lives t (lookup id h.sessions)

pub is_session_valid-is_alive :
    (h : HttpHandler) (now : ℕ) (id : Text) → (is_session_valid h now id).1 ≡ is_alive h id now
unfolding is_session_valid
is_session_valid-is_alive h now id = ground arith

-- What the check leaves of the sessions.
pub is_session_valid-lookup :
    (h : HttpHandler) (now : ℕ) (id other : Text)
    → text_eq id other ≡ false
    → lookup other (is_session_valid h now id).0.sessions ≡ lookup other h.sessions
unfolding is_session_valid
is_session_valid-lookup h now id other e = ground (arith, lookup-remove id other h.sessions)

pub is_session_valid-alive :
    (h : HttpHandler) (now : ℕ) (id : Text)
    → is_alive h id now ≡ true
    → (is_session_valid h now id).0 ≡ h
unfolding is_session_valid
is_session_valid-alive h now id e = ground arith

abbrev renewed : HttpHandler → ℕ → Option SessionInfo → Option SessionInfo
renewed h now none = none
renewed h now (some s) = some (used h now s)

-- The use of a session that is there.
pub update-lookup :
    (h : HttpHandler) (now : ℕ) (id other : Text)
    → lookup other (update_session_last_used h now id).sessions ≡ (
        if text_eq id other
        then renewed h now (lookup other h.sessions)
        else lookup other h.sessions)
unfolding update_session_last_used
update-lookup h now id other = elim (Option-cases (lookup id h.sessions)) [
  | inl e ↦ ground (arith, text_eq_iff id other)
  | inr (s, e) ↦
      ground (arith, lookup-insert id other (used h now s) h.sessions, text_eq_iff id other)
]

pub update-alive :
    (h : HttpHandler) (now : ℕ) (id : Text) (t : ℕ)
    → is_alive h id now ≡ true
    → is_alive (update_session_last_used h now id) id t
      ≡ not (is_after t (add_time now h.session_timeout))
unfolding used
update-alive h now id t e =
    rw (update-lookup h now id id, text_eq_refl id)
      (elim (Option-cases (lookup id h.sessions)) [
        | inl m ↦ absurd (let q = rw m at e in cc)
        | inr (s, m) ↦ rw m refl
      ])

update-timeout :
    (h : HttpHandler) (now : ℕ) (id : Text)
    → (update_session_last_used h now id).session_timeout ≡ h.session_timeout
unfolding update_session_last_used
update-timeout h now id = ground arith

post-sessions :
    (j : Json) (h : HttpHandler) (at : HttpInputs) (q : HttpRequest)
    → text_eq q.session_id [] ≡ false
    → (handle_post_request j h at q).handler.sessions ≡ h.sessions
unfolding handle_post_request handle_post_body handle_post_message respond_to
    handle_streaming_request handle_http_request open_stream
post-sessions j h at q e = ground arith

is_session_valid-dead :
    (h : HttpHandler) (now : ℕ) (id : Text) (t : ℕ)
    → is_alive h id now ≡ false
    → is_alive (is_session_valid h now id).0 id t ≡ false
unfolding is_session_valid
is_session_valid-dead h now id t e = elim (Option-cases (lookup id h.sessions)) [
  | inl m ↦ ground arith
  | inr (s, m) ↦ ground (arith, lookup-remove id id h.sessions, text_eq_refl id)
]

-- handleGetRequest at a session that is valid, and at one that is not.
get-alive :
    (h : HttpHandler) (at : HttpInputs) (q : HttpRequest) (t : ℕ)
    → text_eq q.session_id [] ≡ false
    → is_alive h q.session_id at.now ≡ true
    → is_alive (handle_get_request h at q).handler q.session_id t
      ≡ not (is_after t (add_time at.now h.session_timeout))
unfolding handle_get_request open_get_stream open_stream
get-alive h at q t named e =
    rw
      (
        named,
        is_session_valid-is_alive h at.now q.session_id,
        e,
        is_session_valid-alive h at.now q.session_id e,
      )
      (update-alive h at.now q.session_id t e)

get-dead :
    (h : HttpHandler) (at : HttpInputs) (q : HttpRequest) (t : ℕ)
    → text_eq q.session_id [] ≡ false
    → is_alive h q.session_id at.now ≡ false
    → is_alive (handle_get_request h at q).handler q.session_id t ≡ false
unfolding handle_get_request
get-dead h at q t named e =
    rw (named, is_session_valid-is_alive h at.now q.session_id, e)
      (is_session_valid-dead h at.now q.session_id t e)

eq_of_negated : (b : Bool) → not b ≡ false → b ≡ true
eq_of_negated b h = ground arith

after_later : (now t : ℕ) (e : ℤ) → now ≤ t → is_after now e ≡ true → is_after t e ≡ true
after_later now t e h a = ground arith

abbrev pub is_delete : HttpMethod → Bool
is_delete delete = true
is_delete post = false
is_delete get = false
is_delete options = false
is_delete other_method = false

-- The handlers of the methods but DELETE, once the session is renewed.
module _ (j : Json) (h : HttpHandler) (at : HttpInputs) (q : HttpRequest) (t : ℕ)
    (named : text_eq q.session_id [] ≡ false) (e : is_alive h q.session_id at.now ≡ true)
    (later : at.now ≤ t) where
  abbrev now_used : HttpHandler
  now_used = update_session_last_used h at.now q.session_id

  get_renewed :
      is_alive (handle_get_request now_used at q).handler q.session_id t
      ≡ not (is_after t (add_time at.now h.session_timeout))
  get_renewed = elim (Bool-cases (is_alive now_used q.session_id at.now)) [
    | inl a ↦
        get-alive now_used at q t named a
        ∙ ap (λ timeout. not (is_after t (add_time at.now timeout)))
            (update-timeout h at.now q.session_id)
    | inr d ↦
        let u = sym (update-alive h at.now q.session_id at.now e) ∙ d in
        get-dead now_used at q t named d
        ∙ sym (
            ap not (
              after_later at.now t (add_time at.now h.session_timeout) later
                (eq_of_negated (is_after at.now (add_time at.now h.session_timeout)) u)))
  ]

  route_renewed :
      (m : HttpMethod)
      → is_delete m ≡ false
      → q.method ≡ m
      → is_alive (route j now_used at q).handler q.session_id t
        ≡ not (is_after t (add_time at.now h.session_timeout))
  unfolding route handle_options_request
  route_renewed post k p =
      rw (p, route)
        (rw (post-sessions j now_used at q named) (update-alive h at.now q.session_id t e))
  route_renewed get k p = rw (p, route) get_renewed
  route_renewed options k p = rw (p, route) (update-alive h at.now q.session_id t e)
  route_renewed delete k p = cc
  route_renewed other_method k p = rw (p, route) (update-alive h at.now q.session_id t e)

  -- A request with an allowed origin and a valid session, DELETE apart, moves the end of the session
  -- to the time of the request and the handler's timeout: from the request on, the session is valid
  -- exactly as long as that is not over.
  pub serve_http-slides :
      is_origin_allowed h q.origin ≡ true
      → is_delete q.method ≡ false
      → is_alive (serve_http j h at q).handler q.session_id t
        ≡ not (is_after t (add_time at.now h.session_timeout))
  unfolding serve_http serve_in_session
  serve_http-slides origin k =
      rw
        (
          origin,
          named,
          is_session_valid-is_alive h at.now q.session_id,
          e,
          is_session_valid-alive h at.now q.session_id e,
        )
        (route_renewed q.method k refl)
