-- ===== src/Server/Endpoint/Serve.antt =====
-- A server of pkg/server/server.go on its transport: a request reaches the handler that New has
-- registered for its method, as BaseTransport hands it on; the program tracks, notifies and stops.
use mcp_sdk_go.Base.Int.{ℤ}
use mcp_sdk_go.Base.Text.{Text, text_eq}
use mcp_sdk_go.Base.Dict.{lookup}
use mcp_sdk_go.Base.{ℕ, Bool, true, List, [], ◌∷◌, ◌++◌, any, Option, none, some, if◌then◌else◌}
use mcp_sdk_go.Server.Endpoint.{
  Server, Routes, Route, initialize, set_capability, cancel, ping, set_log_level, list_tools,
  call_tool, list_resources, read_resource, subscribe_resource, list_prompts, get_prompt, complete,
  list_roots,
}
use mcp_sdk_go.Protocol.Jsonrpc.{Params}
use mcp_sdk_go.Server.Endpoint.Handlers.{
  Codec, Outcome, handle_initialize, handle_set_capability, handle_cancel, handle_ping,
  handle_set_log_level,
}
use mcp_sdk_go.Server.Endpoint.Features.{
  handle_list_tools, handle_call_tool, handle_list_resources, handle_read_resource,
  handle_subscribe_resource, handle_list_prompts, handle_get_prompt, handle_complete,
  handle_list_roots,
}
use mcp_sdk_go.Server.Endpoint.Requests.{track_request, complete_request, stop_server}
use mcp_sdk_go.Server.Endpoint.Notify.{NoteCall, Notified, notify}

unfoldable pub handle_initialized : Server → Server
handle_initialized s = record s { initialized = true }

-- What is known when a request is handled: the time in milliseconds, the clock of the subscriptions, and
-- whether the request's context is cancelled when a tool has failed.
pub record Moment : Type 0 where
  pub millis : ℤ
  pub clock : ℕ
  pub ctx_cancelled : Bool

-- What a step of the server shows to others.
pub data Shown : Type 0 where
  answers : Outcome → Shown
  notifies : Notified → Shown
  cancels : ℕ → Shown
  no_handler : Text → Shown
  stop_panics : Shown

pub data ServerEvent : Type 0 where
  asked : Moment → Text → Params → ServerEvent
  told : Text → ServerEvent
  notifying : ℤ → NoteCall → ServerEvent
  tracking : Text → ℕ → ServerEvent
  completing : Text → ServerEvent
  stopping : ServerEvent

abbrev pub silently : Server × Outcome → Server × List Shown
silently (s, out) = (s, answers out ∷ [])

abbrev pub with_cancel : Server × Outcome × Option ℕ → Server × List Shown
with_cancel (s, out, none) = (s, answers out ∷ [])
with_cancel (s, out, some f) = (s, cancels f ∷ answers out ∷ [])

abbrev pub cancel_each : List ℕ → List Shown
cancel_each [] = []
cancel_each (f ∷ fs) = cancels f ∷ cancel_each fs

unfoldable pub serve_notification : Routes → Server → Text → Server × List Shown
serve_notification t s method =
    if any (text_eq method) t.notifications
    then (handle_initialized s, [])
    else (s, no_handler method ∷ [])

unfoldable pub serve_stop : Server → Server × List Shown
serve_stop s = elim (stop_server s) [
  | none ↦ (s, stop_panics ∷ [])
  | some (s', fs) ↦ (s', cancel_each fs)
]

module _ (c : Codec) where
  unfoldable pub handle : Route → Moment → Server → Params → Server × List Shown
  handle initialize at s params = silently (handle_initialize c s params)
  handle set_capability at s params = silently (s, handle_set_capability c params)
  handle cancel at s params = with_cancel (handle_cancel c s params)
  handle ping at s params = silently (s, handle_ping c at.millis params)
  handle set_log_level at s params = silently (s, handle_set_log_level c s params)
  handle list_tools at s params = silently (s, handle_list_tools c s params)
  handle call_tool at s params = silently (s, handle_call_tool c at.ctx_cancelled s params)
  handle list_resources at s params = silently (s, handle_list_resources c s params)
  handle read_resource at s params = silently (s, handle_read_resource c s params)
  handle subscribe_resource at s params = silently (handle_subscribe_resource c at.clock s params)
  handle list_prompts at s params = silently (s, handle_list_prompts c s params)
  handle get_prompt at s params = silently (s, handle_get_prompt c s params)
  handle complete at s params = silently (s, handle_complete c s params)
  handle list_roots at s params = silently (s, handle_list_roots c s params)

  unfoldable pub serve_request : Routes → Moment → Server → Text → Params → Server × List Shown
  serve_request t at s method params = elim (lookup method t.requests) [
    | none ↦ (s, no_handler method ∷ [])
    | some route ↦ handle route at s params
  ]

  unfoldable pub serve : Routes → Server → ServerEvent → Server × List Shown
  serve t s (asked at method params) = serve_request t at s method params
  serve t s (told method) = serve_notification t s method
  serve t s (notifying now call) = (s, notifies (notify now s call) ∷ [])
  serve t s (tracking id f) = (track_request s id f, [])
  serve t s (completing id) = (complete_request s id, [])
  serve t s stopping = serve_stop s

  unfoldable pub serve_all : Routes → Server → List ServerEvent → Server × List Shown
  serve_all t s [] = (s, [])
  serve_all t s (e ∷ es) =
      let (s', out) = serve t s e in let (s'', rest) = serve_all t s' es in (s'', out ++ rest)
