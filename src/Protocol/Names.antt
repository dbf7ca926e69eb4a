-- ===== src/Protocol/Names.antt =====
-- The constants of pkg/protocol/mcp.go: the revision, the methods and the capabilities.
use mcp_sdk_go.Base.Text.{Text, codes}

abbrev pub protocol_revision : Text
protocol_revision = codes "2025-03-26"

abbrev pub method_initialize : Text
method_initialize = codes "initialize"

abbrev pub method_initialized : Text
method_initialized = codes "initialized"

abbrev pub method_set_capability : Text
method_set_capability = codes "setCapability"

abbrev pub method_capability : Text
method_capability = codes "capability"

abbrev pub method_list_tools : Text
method_list_tools = codes "listTools"

abbrev pub method_call_tool : Text
method_call_tool = codes "callTool"

abbrev pub method_tools_changed : Text
method_tools_changed = codes "toolsChanged"

abbrev pub method_list_resources : Text
method_list_resources = codes "listResources"

abbrev pub method_read_resource : Text
method_read_resource = codes "readResource"

abbrev pub method_resources_changed : Text
method_resources_changed = codes "resourcesChanged"

abbrev pub method_subscribe_resource : Text
method_subscribe_resource = codes "subscribeResource"

abbrev pub method_resource_updated : Text
method_resource_updated = codes "resourceUpdated"

abbrev pub method_list_prompts : Text
method_list_prompts = codes "listPrompts"

abbrev pub method_get_prompt : Text
method_get_prompt = codes "getPrompt"

abbrev pub method_prompts_changed : Text
method_prompts_changed = codes "promptsChanged"

abbrev pub method_complete : Text
method_complete = codes "complete"

abbrev pub method_list_roots : Text
method_list_roots = codes "listRoots"

abbrev pub method_roots_changed : Text
method_roots_changed = codes "rootsChanged"

abbrev pub method_sample : Text
method_sample = codes "sample"

abbrev pub method_cancel : Text
method_cancel = codes "cancel"

abbrev pub method_ping : Text
method_ping = codes "ping"

abbrev pub method_progress : Text
method_progress = codes "progress"

abbrev pub method_set_log_level : Text
method_set_log_level = codes "setLogLevel"

abbrev pub method_log : Text
method_log = codes "log"

abbrev pub capability_tools : Text
capability_tools = codes "tools"

abbrev pub capability_resources : Text
capability_resources = codes "resources"

abbrev pub capability_resource_subscriptions : Text
capability_resource_subscriptions = codes "resourceSubscriptions"

abbrev pub capability_prompts : Text
capability_prompts = codes "prompts"

abbrev pub capability_complete : Text
capability_complete = codes "complete"

abbrev pub capability_roots : Text
capability_roots = codes "roots"

abbrev pub capability_sampling : Text
capability_sampling = codes "sampling"

abbrev pub capability_logging : Text
capability_logging = codes "logging"

abbrev pub capability_pagination : Text
capability_pagination = codes "pagination"
