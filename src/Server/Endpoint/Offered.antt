-- ===== src/Server/Endpoint/Offered.antt =====
-- What New of pkg/server/server.go registers: which method has a handler follows from the last word of
-- the options on the capabilities that it needs.
use mcp_sdk_go.Base.Text.{Text, text_eq}
use mcp_sdk_go.Base.Dict.{Dict, lookup, insert, lookup-insert}
use mcp_sdk_go.Base.{
  ◌≡◌, refl, ◌∙◌, ap, Bool, true, false, ◌&&◌, List, [], ◌∷◌, Option, none, some, arith,
  if◌then◌else◌,
}
use mcp_sdk_go.Protocol.Names.{
  capability_complete, capability_prompts, capability_resource_subscriptions, capability_resources,
  capability_roots, capability_tools, method_call_tool, method_cancel, method_complete,
  method_get_prompt, method_initialize, method_list_prompts, method_list_resources,
  method_list_roots, method_list_tools, method_ping, method_read_resource, method_set_capability,
  method_set_log_level, method_subscribe_resource,
}
use mcp_sdk_go.Server.Endpoint.{
  Server, ServerOption, with_name, with_version, with_description, with_homepage, with_capability,
  with_feature_options, with_tools_provider, with_resources_provider, with_resource_subscriptions,
  with_prompts_provider, with_completion_provider, with_roots_provider, apply_option, apply_options,
  is_on, has_capability, blank_server, set_up_subscriptions, Route, initialize, set_capability,
  cancel, ping, set_log_level, list_tools, call_tool, list_resources, read_resource,
  subscribe_resource, list_prompts, get_prompt, complete, list_roots, register_if, register_core,
  register_features, configure, new_server,
}

abbrev pub said : Text → Text → Bool → Option Bool
said capability named b = if text_eq named capability then some b else none

-- What an option says of a capability.
abbrev pub says : Text → ServerOption → Option Bool
says k (with_name _) = none
says k (with_version _) = none
says k (with_description _) = none
says k (with_homepage _) = none
says k (with_capability named b) = said k named b
says k (with_feature_options _) = none
says k (with_tools_provider _) = said k capability_tools true
says k (with_resources_provider _) = said k capability_resources true
says k with_resource_subscriptions = said k capability_resource_subscriptions true
says k (with_prompts_provider _) = said k capability_prompts true
says k (with_completion_provider _) = said k capability_complete true
says k (with_roots_provider _) = said k capability_roots true

abbrev pub or_else {ℓ} : {A : Type ℓ} → Option A → Option A → Option A
or_else (some a) o = some a
or_else none o = o

-- The last word of the options on a capability.
abbrev pub last_word : Text → List ServerOption → Option Bool
last_word k [] = none
last_word k (o ∷ os) = or_else (last_word k os) (says k o)

abbrev pub is_granted : List ServerOption → List Text → Bool
is_granted os [] = true
is_granted os (k ∷ ks) = is_on (last_word k os) && is_granted os ks

-- Each method of the protocol, with the capabilities that it needs.
abbrev pub methods : List (Text × List Text × Route)
methods =
    (method_list_roots, capability_roots ∷ [], list_roots)
    ∷ (method_complete, capability_complete ∷ [], complete)
    ∷ (method_get_prompt, capability_prompts ∷ [], get_prompt)
    ∷ (method_list_prompts, capability_prompts ∷ [], list_prompts)
    ∷ (
      method_subscribe_resource,
      capability_resources ∷ capability_resource_subscriptions ∷ [],
      subscribe_resource,
    )
    ∷ (method_read_resource, capability_resources ∷ [], read_resource)
    ∷ (method_list_resources, capability_resources ∷ [], list_resources)
    ∷ (method_call_tool, capability_tools ∷ [], call_tool)
    ∷ (method_list_tools, capability_tools ∷ [], list_tools)
    ∷ (method_set_log_level, [], set_log_level)
    ∷ (method_ping, [], ping)
    ∷ (method_cancel, [], cancel)
    ∷ (method_set_capability, [], set_capability)
    ∷ (method_initialize, [], initialize)
    ∷ []

abbrev pub offers : List ServerOption → List (Text × List Text × Route) → Text → Option Route
offers os [] method = none
offers os ((name, needs, route) ∷ rest) method =
    if is_granted os needs && text_eq name method then some route else offers os rest method

insert-said :
    (named k : Text) (b : Bool) (m : Dict Bool)
    → lookup k (insert named b m) ≡ or_else (said k named b) (lookup k m)
insert-said named k b m = ground (arith, lookup-insert named k b m)

apply_option-says :
    (k : Text) (s : Server) (o : ServerOption)
    → lookup k (apply_option s o).capabilities ≡ or_else (says k o) (lookup k s.capabilities)
unfolding apply_option
apply_option-says k s (with_name _) = refl
apply_option-says k s (with_version _) = refl
apply_option-says k s (with_description _) = refl
apply_option-says k s (with_homepage _) = refl
apply_option-says k s (with_capability named b) = insert-said named k b s.capabilities
apply_option-says k s (with_feature_options _) = refl
apply_option-says k s (with_tools_provider _) = insert-said _ k true s.capabilities
apply_option-says k s (with_resources_provider _) = insert-said _ k true s.capabilities
apply_option-says k s with_resource_subscriptions = insert-said _ k true s.capabilities
apply_option-says k s (with_prompts_provider _) = insert-said _ k true s.capabilities
apply_option-says k s (with_completion_provider _) = insert-said _ k true s.capabilities
apply_option-says k s (with_roots_provider _) = insert-said _ k true s.capabilities

or_else_assoc {ℓ} :
    {A : Type ℓ} (a b c : Option A) → or_else a (or_else b c) ≡ or_else (or_else a b) c
or_else_assoc none b c = refl
or_else_assoc (some a) b c = refl

apply_options-last_word :
    (k : Text) (s : Server) (os : List ServerOption)
    → lookup k (apply_options s os).capabilities
      ≡ or_else (last_word k os) (lookup k s.capabilities)
unfolding apply_options
apply_options-last_word k s [] = refl
apply_options-last_word k s (o ∷ os) =
    apply_options-last_word k (apply_option s o) os
    ∙ ap (or_else (last_word k os)) (apply_option-says k s o)
    ∙ or_else_assoc (last_word k os) (says k o) (lookup k s.capabilities)

set_up_subscriptions-capabilities :
    (s : Server) → (set_up_subscriptions s).capabilities ≡ s.capabilities
unfolding set_up_subscriptions
set_up_subscriptions-capabilities s = ground arith

or_else-none {ℓ} : {A : Type ℓ} (a : Option A) → or_else a none ≡ a
or_else-none none = refl
or_else-none (some a) = refl

pub has_capability-apply_options :
    (k : Text) (os : List ServerOption)
    → has_capability (apply_options blank_server os) k ≡ is_on (last_word k os)
unfolding has_capability lookup
has_capability-apply_options k os =
    ap is_on (apply_options-last_word k blank_server os ∙ or_else-none (last_word k os))

-- A new server has a capability exactly when the last word on it is that it has.
pub has_capability-configure :
    (k : Text) (os : List ServerOption) → has_capability (configure os) k ≡ is_on (last_word k os)
unfolding has_capability configure
has_capability-configure k os =
    ap (λ m. is_on (lookup k m)) (set_up_subscriptions-capabilities (apply_options blank_server os))
    ∙ has_capability-apply_options k os

register_if-lookup :
    (on : Bool) (k j : Text) (route : Route) (t : Dict Route)
    → lookup j (register_if on k route t) ≡ (if on && text_eq k j then some route else lookup j t)
register_if-lookup true k j route t = lookup-insert k j route t
register_if-lookup false k j route t = refl

and_true : (b : Bool) → (b && true) ≡ b
and_true true = refl
and_true false = refl

-- New registers a handler for a method exactly when the last word of the options on each capability
-- that the method needs is that the server has it, and it is that method's handler. The methods that
-- need none have theirs always, and any other method has none.
pub new_server-offers :
    (options : List ServerOption) (method : Text)
    → lookup method (new_server options).1.requests ≡ offers options methods method
unfolding new_server register_features register_core lookup
new_server-offers options method =
    simp (register_if-lookup, lookup-insert, has_capability-configure, and_true)
