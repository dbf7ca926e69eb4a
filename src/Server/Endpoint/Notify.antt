-- ===== src/Server/Endpoint/Notify.antt =====
-- The notifications of Server in pkg/server/server.go: each is an error, or what the transport is handed.
use mcp_sdk_go.Base.Int.{ℤ}
use mcp_sdk_go.Base.Text.{Text, codes}
use mcp_sdk_go.Base.{Bool, Option, none, some, if◌then◌else◌}
use mcp_sdk_go.Protocol.{
  ToolsChangedParams, ResourcesListChanged, ResourceUpdatedParams, PromptsChangedParams,
  RootsChangedParams, LogParams, ProgressParams,
}
use mcp_sdk_go.Server.Subscriptions.{ResourceContents}
use mcp_sdk_go.Server.Endpoint.{Server}
use mcp_sdk_go.Server.Endpoint.Handlers.{
  ServerError, server_not_ready, not_initialized, marshal_log_data,
}

-- What the transport is handed, a notification by its method.
pub data Note : Type 0 where
  tools_changed : ToolsChangedParams → Note
  resources_changed : ResourcesListChanged → Note
  resource_updated : ResourceUpdatedParams → Note
  prompts_changed : PromptsChangedParams → Note
  roots_changed : RootsChangedParams → Note
  log : LogParams → Note
  progress : ProgressParams → Note

pub data Notified : Type 0 where
  sends : Note → Notified
  note_refused : ServerError → Notified

-- The data of a log message: nil, JSON, or a value that does not marshal.
pub data LogData : Type 0 where
  no_data bad_data : LogData
  json_data : Text → LogData

-- The calls of the server's program, with their arguments.
pub data NoteCall : Type 0 where
  notify_tools_changed : ToolsChangedParams → NoteCall
  notify_resources_changed : ResourcesListChanged → NoteCall
  notify_resource_updated : Text → Option ResourceContents → Bool → NoteCall
  notify_prompts_changed : PromptsChangedParams → NoteCall
  notify_roots_changed : RootsChangedParams → NoteCall
  send_log : Text → Text → Text → LogData → NoteCall
  send_progress : ProgressParams → NoteCall

unfoldable pub require_initialized : Server → Text → Option ServerError
require_initialized s operation = if s.initialized then none else some (server_not_ready operation)

abbrev pub when_ready : Server → Text → Notified → Notified
when_ready s operation sent = elim (require_initialized s operation) [
  | none ↦ sent
  | some e ↦ note_refused e
]

abbrev pub contents_to_send : Option ResourceContents → Bool → Option ResourceContents
contents_to_send contents deleted = if deleted then none else contents

unfoldable pub log_note : Text → Text → Text → ℤ → LogData → Notified
log_note level message source now bad_data = note_refused marshal_log_data
log_note level message source now no_data =
    sends (
      log
        (record { level = level; message = message; source = source; time = now; content = none }))
log_note level message source now (json_data bytes) = sends (
    log (record {
      level = level;
      message = message;
      source = source;
      time = now;
      content = some bytes;
    }))

-- `now` is the time that SendLog reads.
unfoldable pub notify : ℤ → Server → NoteCall → Notified
notify now s (notify_tools_changed params) =
    when_ready s (codes "NotifyToolsChanged") (sends (tools_changed params))
notify now s (notify_resources_changed params) =
    when_ready s (codes "NotifyResourcesChanged") (sends (resources_changed params))
notify now s (notify_resource_updated uri contents deleted) =
    when_ready s (codes "NotifyResourceUpdated") (
      sends (
        resource_updated
          (record { uri = uri; contents = contents_to_send contents deleted; deleted = deleted })))
notify now s (notify_prompts_changed params) =
    when_ready s (codes "NotifyPromptsChanged") (sends (prompts_changed params))
notify now s (notify_roots_changed params) =
    if s.initialized then sends (roots_changed params) else note_refused not_initialized
notify now s (send_log level message source content) =
    when_ready s (codes "SendLog") (log_note level message source now content)
notify now s (send_progress params) = when_ready s (codes "SendProgress") (sends (progress params))
