-- ===== src/Server/Endpoint.antt =====
-- Server of pkg/server/server.go: its state, its options and New. The transport that New registers on is
-- its two tables of handlers, where a handler is named by its method of Server; a provider is the
-- function that it is for its callers, its panics included. The logger is left out.
pub mod Offered
pub mod Handlers
pub mod Features
pub mod Serve
pub mod Requests
pub mod Notify
pub mod History
pub mod Gate
pub mod Cancelling
pub mod Wiring
pub mod Subscribing
use mcp_sdk_go.Base.Text.{Text, codes}
use mcp_sdk_go.Base.Dict.{Dict, lookup, insert}
use mcp_sdk_go.Base.{
  ℕ, Bool, true, false, ◌&&◌, List, [], ◌∷◌, ◌++◌, Option, none, some, if◌then◌else◌,
}
use mcp_sdk_go.Pagination.{PaginationParams}
use mcp_sdk_go.Protocol.{ClientInfo, CallToolResult, ResourceRange, CompleteParams, CompleteResult}
use mcp_sdk_go.Protocol.Names.{
  capability_complete, capability_prompts, capability_resource_subscriptions, capability_resources,
  capability_roots, capability_tools, method_call_tool, method_cancel, method_complete,
  method_get_prompt, method_initialize, method_initialized, method_list_prompts,
  method_list_resources, method_list_roots, method_list_tools, method_ping, method_read_resource,
  method_set_capability, method_set_log_level, method_subscribe_resource,
}
use mcp_sdk_go.Server.Listing.{Tool, Page}
use mcp_sdk_go.Server.Resources.{Resource, ResourceTemplate, ResourcePage}
use mcp_sdk_go.Server.Labelled.{Prompt, Root}
use mcp_sdk_go.Server.Subscriptions.{
  ResourceContents, ResourceSubscriptionManager, new_resource_subscription_manager,
}

-- What a call of a provider comes to: a result, an error by its text, or a panic.
pub data Provided {ℓ} (A : Type ℓ) : Type ℓ where
  provides : A → Provided A
  errs : Text → Provided A
  breaks : Provided A

pub record ToolsProvider : Type 0 where
  pub list_tools : Text → PaginationParams → Provided (Page Tool)
  pub call_tool : Text → Text → Text → Provided CallToolResult

-- A nil pointer to contents or to a prompt is `none`.
pub record ResourcesProvider : Type 0 where
  pub list_resources :
      Text → Bool → PaginationParams → Provided (ResourcePage Resource ResourceTemplate)
  pub read_resource : Text → Dict Text → Option ResourceRange → Provided (Option ResourceContents)
  pub subscribe_resource : Text → Bool → Provided Bool

pub record PromptsProvider : Type 0 where
  pub list_prompts : Text → PaginationParams → Provided (Page Prompt)
  pub get_prompt : Text → Provided (Option Prompt)

pub record CompletionProvider : Type 0 where
  pub complete : CompleteParams → Provided CompleteResult

pub record RootsProvider : Type 0 where
  pub list_roots : Text → PaginationParams → Provided (Page Root)

-- The provider that the options set, or the SubscribableResourcesProvider around it.
pub data ResourcesSource : Type 0 where
  plain subscribable : ResourcesProvider → ResourcesSource

-- A cancel function is a number. `stopped` says whether the server's own context is cancelled.
pub record Server : Type 0 where
  pub name : Text
  pub version : Text
  pub description : Text
  pub homepage : Text
  pub capabilities : Dict Bool
  pub feature_options : Dict Text
  pub tools_provider : Option ToolsProvider
  pub resources_provider : Option ResourcesSource
  pub prompts_provider : Option PromptsProvider
  pub completion_provider : Option CompletionProvider
  pub roots_provider : Option RootsProvider
  pub initialized : Bool
  pub client_info : Option ClientInfo
  pub active_requests : Dict ℕ
  pub subscription_manager : Option ResourceSubscriptionManager
  pub stopped : Bool

-- A nil provider is `none`.
pub data ServerOption : Type 0 where
  with_name with_version with_description with_homepage : Text → ServerOption
  with_capability : Text → Bool → ServerOption
  with_feature_options : Dict Text → ServerOption
  with_tools_provider : Option ToolsProvider → ServerOption
  with_resources_provider : Option ResourcesProvider → ServerOption
  with_resource_subscriptions : ServerOption
  with_prompts_provider : Option PromptsProvider → ServerOption
  with_completion_provider : Option CompletionProvider → ServerOption
  with_roots_provider : Option RootsProvider → ServerOption

abbrev pub plainly : Option ResourcesProvider → Option ResourcesSource
plainly none = none
plainly (some p) = some (plain p)

unfoldable pub insert_all {ℓ} : {A : Type ℓ} → Dict A → Dict A → Dict A
insert_all [] m = m
insert_all ((k, v) ∷ options) m = insert_all options (insert k v m)

unfoldable pub apply_option : Server → ServerOption → Server
apply_option s (with_name name) = record s { name = name }
apply_option s (with_version version) = record s { version = version }
apply_option s (with_description description) = record s { description = description }
apply_option s (with_homepage homepage) = record s { homepage = homepage }
apply_option s (with_capability capability enabled) = record s {
  capabilities = insert capability enabled s.capabilities;
}
apply_option s (with_feature_options options) = record s {
  feature_options = insert_all options s.feature_options;
}
apply_option s (with_tools_provider provider) = record s {
  tools_provider = provider;
  capabilities = insert capability_tools true s.capabilities;
}
apply_option s (with_resources_provider provider) = record s {
  resources_provider = plainly provider;
  capabilities = insert capability_resources true s.capabilities;
}
apply_option s with_resource_subscriptions = record s {
  capabilities = insert capability_resource_subscriptions true s.capabilities;
}
apply_option s (with_prompts_provider provider) = record s {
  prompts_provider = provider;
  capabilities = insert capability_prompts true s.capabilities;
}
apply_option s (with_completion_provider provider) = record s {
  completion_provider = provider;
  capabilities = insert capability_complete true s.capabilities;
}
apply_option s (with_roots_provider provider) = record s {
  roots_provider = provider;
  capabilities = insert capability_roots true s.capabilities;
}

unfoldable pub apply_options : Server → List ServerOption → Server
apply_options s [] = s
apply_options s (o ∷ os) = apply_options (apply_option s o) os

-- A missing key of the map reads as false.
abbrev pub is_on : Option Bool → Bool
is_on none = false
is_on (some b) = b

unfoldable pub has_capability : Server → Text → Bool
has_capability s capability = is_on (lookup capability s.capabilities)

abbrev pub blank_server : Server
blank_server = record {
  name = codes "go-mcp-server";
  version = codes "1.0.0";
  description = [];
  homepage = [];
  capabilities = [];
  feature_options = [];
  tools_provider = none;
  resources_provider = none;
  prompts_provider = none;
  completion_provider = none;
  roots_provider = none;
  initialized = false;
  client_info = none;
  active_requests = [];
  subscription_manager = none;
  stopped = false;
}

abbrev pub wrap_source : Option ResourcesSource → Option ResourcesSource
wrap_source none = none
wrap_source (some (plain p)) = some (subscribable p)
wrap_source (some (subscribable p)) = some (subscribable p)

-- The subscription manager, with the provider wrapped.
unfoldable pub set_up_subscriptions : Server → Server
set_up_subscriptions s =
    if has_capability s capability_resources && has_capability s capability_resource_subscriptions
    then record s {
      subscription_manager = some new_resource_subscription_manager;
      resources_provider = wrap_source s.resources_provider;
    }
    else s

-- The handlers of requests, by the name of the method of Server.
pub data Route : Type 0 where
  initialize set_capability cancel ping set_log_level : Route
  list_tools call_tool list_resources read_resource subscribe_resource : Route
  list_prompts get_prompt complete list_roots : Route

-- The transport's handlers of requests, and the notifications that handleInitialized handles. Before New
-- the transport has no handlers.
pub record Routes : Type 0 where
  pub requests : Dict Route
  pub notifications : List Text

abbrev pub register_if : Bool → Text → Route → Dict Route → Dict Route
register_if on method route routes = if on then insert method route routes else routes

-- The registrations of New, the last at the end.
unfoldable pub register_core : Dict Route
register_core =
    let t1 = insert method_initialize initialize [] in
    let t2 = insert method_set_capability set_capability t1 in
    let t3 = insert method_cancel cancel t2 in
    let t4 = insert method_ping ping t3 in insert method_set_log_level set_log_level t4

unfoldable pub register_features : Server → Dict Route → Dict Route
register_features s t0 =
    let tools = has_capability s capability_tools in
    let resources = has_capability s capability_resources in
    let subscriptions = has_capability s capability_resource_subscriptions in
    let prompts = has_capability s capability_prompts in
    let t1 = register_if tools method_list_tools list_tools t0 in
    let t2 = register_if tools method_call_tool call_tool t1 in
    let t3 = register_if resources method_list_resources list_resources t2 in
    let t4 = register_if resources method_read_resource read_resource t3 in
    let t5 =
      register_if (resources && subscriptions) method_subscribe_resource subscribe_resource t4 in
    let t6 = register_if prompts method_list_prompts list_prompts t5 in
    let t7 = register_if prompts method_get_prompt get_prompt t6 in
    let t8 = register_if (has_capability s capability_complete) method_complete complete t7 in
    register_if (has_capability s capability_roots) method_list_roots list_roots t8

unfoldable pub configure : List ServerOption → Server
configure options = set_up_subscriptions (apply_options blank_server options)

unfoldable pub new_server : List ServerOption → Server × Routes
new_server options =
    let s = configure options in
    (
      s,
      record {
        requests = register_features s register_core;
        notifications = method_initialized ∷ [];
      },
    )
