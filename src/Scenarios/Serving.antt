-- ===== src/Scenarios/Serving.antt =====
-- pkg/server/server.go: a server with resources and subscriptions, over a codec that reads any bytes as
-- the id or the URI that they are.
use mcp_sdk_go.Base.Int.{pos}
use mcp_sdk_go.Base.Text.{codes, text_eq}
use mcp_sdk_go.Base.Dict.{lookup, insert, remove}
use mcp_sdk_go.Base.{
  ◌+◌, ◌≤◌, ◌≡◌, refl, true, false, ◌&&◌, not, List, [], ◌∷◌, any, none, some, All,
}
use mcp_sdk_go.Server.Endpoint.Wiring.{is_stopping}
use mcp_sdk_go.Protocol.{InitializeParams}
use mcp_sdk_go.Protocol.Names.{
  method_initialize, method_cancel, method_subscribe_resource, method_list_tools,
}
use mcp_sdk_go.Server.Subscriptions.{
  new_resource_subscription_manager, ResourceChange, resource_removed,
}
use mcp_sdk_go.Server.Subscriptions.Batching.{stop}
use mcp_sdk_go.Server.Endpoint.{
  ServerOption, with_resources_provider, with_resource_subscriptions, ResourcesProvider, provides,
  errs, new_server, configure, apply_options, apply_option, set_up_subscriptions, has_capability,
  register_core, register_features,
}
use mcp_sdk_go.Server.Endpoint.Offered.{offers, methods, new_server-offers}
use mcp_sdk_go.Protocol.Jsonrpc.{absent, json}
use mcp_sdk_go.Server.Endpoint.Handlers.{
  Codec, missing_params, replies, refuses, cancel_result, handle_initialize, handle_cancel,
  validate_params,
}
use mcp_sdk_go.Server.Endpoint.Requests.{track_request, cancel_request, cancel_all, stop_server}
use mcp_sdk_go.Server.Endpoint.Notify.{notify, NoteCall, notify_roots_changed}
use mcp_sdk_go.Server.Endpoint.Serve.{
  Moment, answers, cancels, no_handler, ServerEvent, asked, tracking, stopping, handle,
  serve_request, serve_stop, serve, serve_all,
}
use mcp_sdk_go.Server.Endpoint.History.{initializes}
use mcp_sdk_go.Server.Endpoint.Gate.{is_sent, is_bad_log, notify-gate}
use mcp_sdk_go.Server.Endpoint.Cancelling.{calls_of, held, serve_all-calls}
use mcp_sdk_go.Server.Endpoint.Subscribing.{Subscribes, serve_request-Subscribes}

abbrev provider : ResourcesProvider
provider = record {
  list_resources = λ uri recursive page. errs (codes "empty");
  read_resource = λ uri params range. provides none;
  subscribe_resource = λ uri recursive. provides true;
}

abbrev client : InitializeParams
client = record {
  protocol_version = [];
  name = codes "client";
  version = [];
  capabilities = [];
  client_info = none;
  trace = [];
  feature_options = [];
}

abbrev codec : Codec
codec = record {
  initialize = λ bytes. some client;
  set_capability = λ bytes. none;
  cancel = λ bytes. some (record { id = bytes });
  ping = λ bytes. none;
  set_log_level = λ bytes. none;
  list_labelled = λ bytes. none;
  call_tool = λ bytes. none;
  list_resources = λ bytes. none;
  read_resource = λ bytes. none;
  subscribe_resource = λ bytes. some (record { uri = bytes; recursive = true });
  get_prompt = λ bytes. none;
  complete = λ bytes. none;
}

abbrev options : List ServerOption
options = with_resources_provider (some provider) ∷ with_resource_subscriptions ∷ []

abbrev now : Moment
now = record { millis = pos 1000; clock = 1; ctx_cancelled = false }

abbrev events : List ServerEvent
events =
    tracking (codes "7") 3
    ∷ asked now method_cancel (json (codes "7"))
    ∷ asked now method_cancel (json (codes "7"))
    ∷ tracking (codes "8") 3
    ∷ asked now method_initialize absent
    ∷ asked now method_list_tools (json [])
    ∷ stopping
    ∷ []

-- The first cancel of a tracked request calls its function, the second finds none; a request without
-- parameters initializes nothing, and a method without its capability has no handler.
events_shown :
    (serve_all codec (new_server options).1 (new_server options).0 events).1
    ≡ cancels 3
      ∷ answers (replies (cancel_result true))
      ∷ answers (replies (cancel_result false))
      ∷ answers (refuses (missing_params method_initialize))
      ∷ no_handler method_list_tools
      ∷ cancels 3
      ∷ []
unfolding serve_all serve serve_request handle handle_cancel handle_initialize validate_params
    cancel_request track_request serve_stop stop_server cancel_all stop new_server configure
    apply_options apply_option set_up_subscriptions has_capability register_core register_features
    lookup insert remove text_eq new_resource_subscription_manager
events_shown = refl

new_server-offers_example :
    lookup method_subscribe_resource (new_server options).1.requests
    ≡ offers options methods method_subscribe_resource
new_server-offers_example = new_server-offers options method_subscribe_resource

abbrev roots_changed : NoteCall
roots_changed = notify_roots_changed (record { added = []; removed = []; modified = [] })

notify-gate_example :
    is_sent (
      notify
        (pos 9)
        (serve_all codec (new_server options).1 (new_server options).0 events).0
        roots_changed)
    ≡ (any (initializes codec) events && not (is_bad_log roots_changed))
notify-gate_example = notify-gate codec options events (pos 9) roots_changed

serve_all-calls_example :
    calls_of 3 (serve_all codec (new_server options).1 (new_server options).0 events).1
      + held 3
          (serve_all codec (new_server options).1 (new_server options).0 events).0.active_requests
    ≤ 2
serve_all-calls_example = serve_all-calls codec options events 3

abbrev before_stop : List ServerEvent
before_stop =
    tracking (codes "7") 3
    ∷ asked now method_cancel (json (codes "7"))
    ∷ asked now method_initialize absent
    ∷ asked now method_list_tools (json [])
    ∷ []

no_stop : All (λ e. is_stopping e ≡ false) before_stop
no_stop = (refl, (refl, (refl, (refl, tt))))

abbrev gone : ResourceChange
gone = record { kind = resource_removed; resource = none; contents = none; uri = codes "file:///a" }

serve_request-Subscribes_example : Subscribes (codes "file:///a") gone (
    serve_request codec
      (new_server options).1
      now
      (serve_all codec (new_server options).1 (new_server options).0 before_stop).0
      method_subscribe_resource
      (json (codes "file:///a")))
unfolding text_eq
serve_request-Subscribes_example =
    serve_request-Subscribes codec options provider before_stop now (codes "file:///a")
      (record { uri = codes "file:///a"; recursive = true }) gone no_stop refl refl refl refl refl
