-- ===== src/Server/Endpoint/History.antt =====
-- What the events of a server in pkg/server/server.go do to its being initialised.
use mcp_sdk_go.Base.Text.{Text, text_eq, text_eq→eq, text_eq_flip, text_eq_refl}
use mcp_sdk_go.Base.Dict.{lookup}
use mcp_sdk_go.Base.{
  ◌≡◌, refl, ◌∙◌, inl, inr, Bool, true, false, ◌&&◌, ◌||◌, List, [], ◌∷◌, any, Option, none, some,
  arith, Bool-cases, Option-cases,
}
use mcp_sdk_go.Protocol.Names.{method_initialize, method_initialized}
use mcp_sdk_go.Server.Endpoint.{
  Server, ServerOption, Routes, Route, initialize, set_capability, cancel, subscribe_resource,
  new_server, configure, with_name, apply_option, apply_options, set_up_subscriptions, blank_server,
}
use mcp_sdk_go.Server.Endpoint.Offered.{offers, methods, new_server-offers}
use mcp_sdk_go.Protocol.Jsonrpc.{Params, absent, unmarshalable, json}
use mcp_sdk_go.Server.Endpoint.Handlers.{
  Codec, handle_initialize, handle_cancel, validate_params, require_provider,
}
use mcp_sdk_go.Server.Endpoint.Features.{
  handle_subscribe_resource, subscribe_through, add_subscription,
}
use mcp_sdk_go.Server.Endpoint.Requests.{
  track_request, complete_request, cancel_request, stop_server,
}
use mcp_sdk_go.Server.Endpoint.Serve.{
  Moment, no_handler, ServerEvent, asked, told, notifying, tracking, completing, stopping, handle,
  handle_initialized, serve_request, serve_notification, serve_stop, serve, serve_all,
}

abbrev pub is_some {ℓ} : {A : Type ℓ} → Option A → Bool
is_some none = false
is_some (some a) = true

abbrev pub readable : Codec → Params → Bool
readable c absent = false
readable c unmarshalable = false
readable c (json bytes) = is_some (c.initialize bytes)

-- An initialize request with readable parameters, or the notification that the client is ready.
abbrev pub initializes : Codec → ServerEvent → Bool
initializes c (asked at method params) = text_eq method method_initialize && readable c params
initializes c (told method) = text_eq method method_initialized
initializes c (notifying _ _) = false
initializes c (tracking _ _) = false
initializes c (completing _) = false
initializes c stopping = false

abbrev is_initialize : Route → Bool
is_initialize initialize = true
is_initialize _ = false

cancel_request-initialized :
    (s : Server) (id : Text) → (cancel_request s id).0.initialized ≡ s.initialized
unfolding cancel_request
cancel_request-initialized s id = ground arith

complete_request-initialized :
    (s : Server) (id : Text) → (complete_request s id).initialized ≡ s.initialized
unfolding complete_request
complete_request-initialized s id = ground arith

stop-initialized : (s : Server) → (serve_stop s).0.initialized ≡ s.initialized
unfolding serve_stop stop_server
stop-initialized s = ground arith

handle-initialized :
    (c : Codec) (route : Route) (at : Moment) (s : Server) (params : Params)
    → (handle c route at s params).0.initialized
      ≡ (s.initialized || (is_initialize route && readable c params))
unfolding handle handle_initialize validate_params handle_cancel handle_subscribe_resource
    require_provider subscribe_through add_subscription cancel_request
handle-initialized c initialize at s absent = ground arith
handle-initialized c initialize at s unmarshalable = ground arith
handle-initialized c initialize at s (json bytes) = ground arith
handle-initialized c set_capability at s params = ground arith
handle-initialized c cancel at s absent = ground arith
handle-initialized c cancel at s unmarshalable = ground arith
handle-initialized c cancel at s (json bytes) = ground arith
handle-initialized c subscribe_resource at s params = ground arith
handle-initialized c _ at s params = ground arith

pub and_false : (b : Bool) → (b && false) ≡ false
and_false true = refl
and_false false = refl

-- Only the method `initialize` is routed to handleInitialize, and it always is.
offers-initialize :
    (os : List ServerOption) (method : Text)
    → text_eq method_initialize method ≡ false
    → (route : Route) → offers os methods method ≡ some route
    → is_initialize route ≡ false
offers-initialize os method h route e = ground arith

route_of_initialize :
    (os : List ServerOption) → offers os methods method_initialize ≡ some initialize
unfolding text_eq
route_of_initialize os = simp (and_false)

module _ (c : Codec) (t : Routes) (at : Moment) (s : Server) (method : Text) (params : Params) where
  pub serve_routed :
      (route : Route)
      → lookup method t.requests ≡ some route
      → serve_request c t at s method params ≡ handle c route at s params
  unfolding serve_request
  serve_routed route e = rw (e, serve_request) refl

  pub serve_unrouted :
      lookup method t.requests ≡ none
      → serve_request c t at s method params ≡ (s, no_handler method ∷ [])
  unfolding serve_request
  serve_unrouted e = rw (e, serve_request) refl

request-initialized :
    (c : Codec) (os : List ServerOption) (at : Moment) (s : Server) (method : Text)
    (params : Params)
    → (serve_request c (new_server os).1 at s method params).0.initialized
      ≡ (s.initialized || (text_eq method method_initialize && readable c params))
request-initialized c os at s method params = elim (Bool-cases (text_eq method_initialize method)) [
  | inl same ↦ rw (← text_eq→eq method_initialize method same) (
      rw
        (serve_routed c (new_server os).1 at s method_initialize params initialize
          (new_server-offers os method_initialize ∙ route_of_initialize os))
        (rw (text_eq_refl method_initialize) (handle-initialized c initialize at s params)))
  | inr other ↦
      rw (text_eq_flip method_initialize method other)
        (elim (Option-cases (offers os methods method)) [
          | inl e ↦
              rw
                (serve_unrouted c (new_server os).1 at s method params
                  (new_server-offers os method ∙ e))
                (ground arith)
          | inr (route, e) ↦
              rw
                (serve_routed c (new_server os).1 at s method params route
                  (new_server-offers os method ∙ e))
                (ground (
                  arith,
                  handle-initialized c route at s params,
                  offers-initialize os method other route e,
                ))
        ])
]

serve-initialized :
    (c : Codec) (os : List ServerOption) (s : Server) (e : ServerEvent)
    → (serve c (new_server os).1 s e).0.initialized ≡ (s.initialized || initializes c e)
unfolding serve serve_notification new_server track_request handle_initialized
serve-initialized c os s (asked at method params) = request-initialized c os at s method params
serve-initialized c os s (told method) = ground arith
serve-initialized c os s (notifying _ _) = ground arith
serve-initialized c os s (tracking _ _) = ground arith
serve-initialized c os s (completing id) = ground (arith, complete_request-initialized s id)
serve-initialized c os s stopping = ground (arith, stop-initialized s)

serve_all-initialized :
    (c : Codec) (os : List ServerOption) (s : Server) (es : List ServerEvent)
    → (serve_all c (new_server os).1 s es).0.initialized ≡ (s.initialized || any (initializes c) es)
unfolding serve_all
serve_all-initialized c os s [] = ground arith
serve_all-initialized c os s (e ∷ es) = ground (
  arith,
  serve-initialized c os s e,
  serve_all-initialized c os (serve c (new_server os).1 s e).0 es,
)

-- What New begins with.
abbrev pub Fresh : Server → Type 0
Fresh s = (s.initialized ≡ false) × (s.active_requests ≡ []) × (s.stopped ≡ false)

apply_option-Fresh : (s : Server) (o : ServerOption) → Fresh s → Fresh (apply_option s o)
unfolding apply_option
apply_option-Fresh s (with_name _) h = h
apply_option-Fresh s o h = h

apply_options-Fresh : (s : Server) (os : List ServerOption) → Fresh s → Fresh (apply_options s os)
unfolding apply_options
apply_options-Fresh s [] h = h
apply_options-Fresh s (o ∷ os) h =
    apply_options-Fresh (apply_option s o) os (apply_option-Fresh s o h)

pub configure-Fresh : (os : List ServerOption) → Fresh (configure os)
unfolding configure set_up_subscriptions
configure-Fresh os = ground (arith, apply_options-Fresh blank_server os (refl, refl, refl))

-- A new server is initialized exactly when one of its events initializes it.
pub new-initialized :
    (c : Codec) (os : List ServerOption) (es : List ServerEvent)
    → (serve_all c (new_server os).1 (new_server os).0 es).0.initialized ≡ any (initializes c) es
unfolding new_server
new-initialized c os es =
    ground (arith, serve_all-initialized c os (configure os) es, (configure-Fresh os).0)
