-- ===== src/Server/Endpoint/Gate.antt =====
-- When the notifications of a server in pkg/server/server.go are sent.
use mcp_sdk_go.Base.Int.{ℤ}
use mcp_sdk_go.Base.{◌≡◌, Bool, true, false, ◌&&◌, not, List, any, arith, ap, ◌∙◌}
use mcp_sdk_go.Server.Endpoint.{Server, ServerOption, new_server}
use mcp_sdk_go.Server.Endpoint.Handlers.{Codec}
use mcp_sdk_go.Server.Endpoint.Serve.{ServerEvent, serve_all}
use mcp_sdk_go.Server.Endpoint.History.{initializes, new-initialized}
use mcp_sdk_go.Server.Endpoint.Notify.{
  Notified, sends, note_refused, no_data, bad_data, json_data, NoteCall, notify_tools_changed,
  notify_resources_changed, notify_resource_updated, notify_prompts_changed, notify_roots_changed,
  send_log, send_progress, notify, require_initialized, log_note,
}

abbrev pub is_sent : Notified → Bool
is_sent (sends _) = true
is_sent (note_refused _) = false

-- A log message whose data does not marshal.
abbrev pub is_bad_log : NoteCall → Bool
is_bad_log (send_log _ _ _ bad_data) = true
is_bad_log _ = false

notify-sent :
    (now : ℤ) (s : Server) (call : NoteCall)
    → is_sent (notify now s call) ≡ (s.initialized && not (is_bad_log call))
unfolding notify require_initialized log_note
notify-sent now s (notify_tools_changed _) = ground arith
notify-sent now s (notify_resources_changed _) = ground arith
notify-sent now s (notify_resource_updated _ _ _) = ground arith
notify-sent now s (notify_prompts_changed _) = ground arith
notify-sent now s (notify_roots_changed _) = ground arith
notify-sent now s (send_log _ _ _ no_data) = ground arith
notify-sent now s (send_log _ _ _ bad_data) = ground arith
notify-sent now s (send_log _ _ _ (json_data _)) = ground arith
notify-sent now s (send_progress _) = ground arith

-- A new server that has gone through any events sends a notification exactly when one of them was an
-- initialize request with readable parameters or the notification `initialized`, unless it is a log
-- message with data that does not marshal. All else that happens to the server, a Stop included, does
-- not count.
pub notify-gate :
    (c : Codec) (options : List ServerOption) (es : List ServerEvent) (now : ℤ) (call : NoteCall)
    → is_sent (notify now (serve_all c (new_server options).1 (new_server options).0 es).0 call)
      ≡ (any (initializes c) es && not (is_bad_log call))
notify-gate c options es now call =
    notify-sent now (serve_all c (new_server options).1 (new_server options).0 es).0 call
    ∙ ap (λ b. b && not (is_bad_log call)) (new-initialized c options es)
