-- ===== src/Server/Endpoint/Handlers.antt =====
-- The handlers of requests in pkg/server/server.go. Reading a parameter from JSON is a function for each
-- type of parameters, an argument of the model. An error has its code's kind, its context's method and
-- what the provider said; the rest of its wording is left out.
use mcp_sdk_go.Base.Int.{ℤ, pos, eqb_ℤ}
use mcp_sdk_go.Base.Text.{Text}
use mcp_sdk_go.Base.{ℕ, Bool, true, false, Option, none, some, if◌then◌else◌}
use mcp_sdk_go.Protocol.{
  InitializeParams, InitializeResult, SetCapabilityParams, CancelParams, PingParams,
  SetLogLevelParams, ListParams, CallToolParams, CallToolResult, ListResourcesParams,
  ReadResourceParams, SubscribeResourceParams, GetPromptParams, CompleteParams, CompleteResult,
}
use mcp_sdk_go.Protocol.Jsonrpc.{Params, absent, unmarshalable, json}
use mcp_sdk_go.Protocol.Names
use mcp_sdk_go.Protocol.Names.{capability_logging, capability_resource_subscriptions}
use mcp_sdk_go.Server.Listing.{Tool, Page}
use mcp_sdk_go.Server.Resources.{Resource, ResourceTemplate, ResourcePage}
use mcp_sdk_go.Server.Labelled.{Prompt, Root}
use mcp_sdk_go.Server.Subscriptions.{ResourceContents}
use mcp_sdk_go.Server.Endpoint.{Provided, provides, errs, breaks, Server, has_capability}
use mcp_sdk_go.Server.Endpoint.Requests.{cancel_request}

-- json.Unmarshal into each type of parameters.
pub record Codec : Type 0 where
  pub initialize : Text → Option InitializeParams
  pub set_capability : Text → Option SetCapabilityParams
  pub cancel : Text → Option CancelParams
  pub ping : Text → Option PingParams
  pub set_log_level : Text → Option SetLogLevelParams
  pub list_labelled : Text → Option ListParams
  pub call_tool : Text → Option CallToolParams
  pub list_resources : Text → Option ListResourcesParams
  pub read_resource : Text → Option ReadResourceParams
  pub subscribe_resource : Text → Option SubscribeResourceParams
  pub get_prompt : Text → Option GetPromptParams
  pub complete : Text → Option CompleteParams

-- The method comes first, or the operation.
pub data ServerError : Type 0 where
  missing_params marshal_params invalid_params server_not_ready : Text → ServerError
  capability_required provider_not_configured : Text → Text → ServerError
  provider_error : Text → Text → Text → ServerError
  not_initialized marshal_log_data : ServerError

pub data Reply : Type 0 where
  initialize_result : InitializeResult → Reply
  set_capability_result cancel_result set_log_level_result subscribe_resource_result : Bool → Reply
  ping_result : ℤ → Reply
  list_tools_result : Page Tool → Reply
  call_tool_result : CallToolResult → Reply
  list_resources_result : ResourcePage Resource ResourceTemplate → Reply
  read_resource_result : ResourceContents → Reply
  list_prompts_result : Page Prompt → Reply
  get_prompt_result : Prompt → Reply
  complete_result : CompleteResult → Reply
  list_roots_result : Page Root → Reply

pub data Outcome : Type 0 where
  replies : Reply → Outcome
  refuses : ServerError → Outcome
  crashes : Outcome

-- validateParams, and what the handler does with the parameters.
unfoldable pub validate_params {ℓ} :
    {P : Type 0} {R : Type ℓ} → (Text → Option P) → Text → Params → (ServerError → R) → (P → R) → R
validate_params decode method absent refuse use_params = refuse (missing_params method)
validate_params decode method unmarshalable refuse use_params = refuse (marshal_params method)
validate_params decode method (json bytes) refuse use_params = elim (decode bytes) [
  | none ↦ refuse (invalid_params method)
  | some params ↦ use_params params
]

-- requireProvider.
unfoldable pub require_provider {ℓ} :
    {P : Type 0} {R : Type ℓ} → Option P → Text → Text → (ServerError → R) → (P → R) → R
require_provider none kind method refuse use_provider = refuse (provider_not_configured method kind)
require_provider (some p) kind method refuse use_provider = use_provider p

-- A provider's result as the reply, its error as a provider error.
abbrev pub passes {ℓ} : {A : Type ℓ} → Provided A → Text → Text → (A → Outcome) → Outcome
passes (provides a) kind operation k = k a
passes (errs e) kind operation k = refuses (provider_error kind operation e)
passes breaks kind operation k = crashes

module _ (c : Codec) where
  unfoldable pub handle_initialize : Server → Params → Server × Outcome
  handle_initialize s params =
      validate_params c.initialize Names.method_initialize params (λ e. (s, refuses e))
        (λ p. (
          record s { client_info = p.client_info; initialized = true },
          replies (
              initialize_result (record {
                protocol_version = Names.protocol_revision;
                name = s.name;
                version = s.version;
                capabilities = s.capabilities;
                server_info = some (record {
                  name = s.name;
                  version = s.version;
                  description = s.description;
                  homepage = s.homepage;
                });
                feature_options = s.feature_options;
              })),
        ))

  unfoldable pub handle_set_capability : Params → Outcome
  handle_set_capability params =
      validate_params c.set_capability Names.method_set_capability params refuses
        (λ p. replies (set_capability_result true))

  abbrev pub cancelled : Option ℕ → Bool
  cancelled none = false
  cancelled (some _) = true

  -- The last part is the cancel function that it calls.
  unfoldable pub handle_cancel : Server → Params → Server × Outcome × Option ℕ
  handle_cancel s params =
      validate_params c.cancel Names.method_cancel params (λ e. (s, refuses e, none))
        (λ p. let (s', f) = cancel_request s p.id in (s', replies (cancel_result (cancelled f)), f))

  -- `now` is the time in milliseconds.
  unfoldable pub handle_ping : ℤ → Params → Outcome
  handle_ping now params =
      validate_params c.ping Names.method_ping params refuses
        (λ p. replies (ping_result (if eqb_ℤ p.timestamp (pos 0) then now else p.timestamp)))

  unfoldable pub handle_set_log_level : Server → Params → Outcome
  handle_set_log_level s params =
      if has_capability s capability_logging
      then validate_params c.set_log_level Names.method_set_log_level params refuses
          (λ p. replies (set_log_level_result true))
      else refuses (capability_required Names.method_set_log_level capability_logging)
