-- ===== src/Protocol.antt =====
-- pkg/protocol/mcp.go: the names of methods and capabilities, and the parameters and results of the
-- requests that a server answers, with those of pkg/protocol/tools.go, resources.go, prompts.go and
-- completion.go. A value of any type is its JSON.
pub mod Names
pub mod Jsonrpc
use mcp_sdk_go.Base.Int.{ℤ}
use mcp_sdk_go.Base.Text.{Text}
use mcp_sdk_go.Base.Dict.{Dict}
use mcp_sdk_go.Base.{Bool, List, Option}
use mcp_sdk_go.Pagination.{PaginationParams}
use mcp_sdk_go.Server.Listing.{Tool}
use mcp_sdk_go.Server.Resources.{Resource}
use mcp_sdk_go.Server.Subscriptions.{ResourceContents}
use mcp_sdk_go.Server.Labelled.{Prompt, Root}

pub record ClientInfo : Type 0 where
  pub name : Text
  pub version : Text
  pub platform : Text

pub record InitializeParams : Type 0 where
  pub protocol_version : Text
  pub name : Text
  pub version : Text
  pub capabilities : Dict Bool
  pub client_info : Option ClientInfo
  pub trace : Text
  pub feature_options : Dict Text

pub record ServerInfo : Type 0 where
  pub name : Text
  pub version : Text
  pub description : Text
  pub homepage : Text

pub record InitializeResult : Type 0 where
  pub protocol_version : Text
  pub name : Text
  pub version : Text
  pub capabilities : Dict Bool
  pub server_info : Option ServerInfo
  pub feature_options : Dict Text

pub record SetCapabilityParams : Type 0 where
  pub capability : Text
  pub value : Bool

-- The id, as `%v` prints it.
pub record CancelParams : Type 0 where
  pub id : Text

pub record PingParams : Type 0 where
  pub timestamp : ℤ

pub record SetLogLevelParams : Type 0 where
  pub level : Text

-- ListToolsParams, ListPromptsParams and ListRootsParams: a category or a tag.
pub record ListParams : Type 0 where
  pub label : Text
  pub page : PaginationParams

pub record CallToolParams : Type 0 where
  pub name : Text
  pub input : Text
  pub context_data : Text

pub record CallToolResult : Type 0 where
  pub result : Text
  pub error : Text
  pub partial : Bool
  pub operation_id : Text
  pub documentation : Text

pub record ListResourcesParams : Type 0 where
  pub uri : Text
  pub recursive : Bool
  pub page : PaginationParams

pub record ResourceRange : Type 0 where
  pub start : ℤ
  pub end : ℤ

pub record ReadResourceParams : Type 0 where
  pub uri : Text
  pub template_params : Dict Text
  pub range : Option ResourceRange

pub record SubscribeResourceParams : Type 0 where
  pub uri : Text
  pub recursive : Bool

pub record GetPromptParams : Type 0 where
  pub id : Text

pub record Message : Type 0 where
  pub role : Text
  pub content : Text
  pub name : Text

-- The preferences are their JSON.
pub record CompleteParams : Type 0 where
  pub prompt_id : Text
  pub messages : List Message
  pub parameters : Dict Text
  pub resource_refs : List Text
  pub model_preferences : Option Text
  pub system_prompt : Text
  pub context_data : Text

pub record CompleteResult : Type 0 where
  pub content : Text
  pub model : Text
  pub finish_reason : Text
  pub metadata : Text

-- The parameters of the notifications that a server sends. A percentage is its JSON.
pub record ToolsChangedParams : Type 0 where
  pub added : List Tool
  pub removed : List Text
  pub modified : List Tool

pub record ResourcesListChanged : Type 0 where
  pub uri : Text
  pub resources : List Resource
  pub removed : List Text
  pub added : List Resource
  pub modified : List Resource

-- The contents are the empty ones, `none`, unless they are set.
pub record ResourceUpdatedParams : Type 0 where
  pub uri : Text
  pub contents : Option ResourceContents
  pub deleted : Bool

pub record PromptsChangedParams : Type 0 where
  pub added : List Prompt
  pub removed : List Text
  pub modified : List Prompt

pub record RootsChangedParams : Type 0 where
  pub added : List Root
  pub removed : List Text
  pub modified : List Root

pub record LogParams : Type 0 where
  pub level : Text
  pub message : Text
  pub source : Text
  pub time : ℤ
  pub content : Option Text

pub record ProgressParams : Type 0 where
  pub id : Text
  pub message : Text
  pub percent : Text
  pub completed : Bool
