-- ===== src/Server/Endpoint/Wiring.antt =====
-- The subscription manager and the wrapped provider that New of pkg/server/server.go sets up stay in
-- place, whatever happens to the server until it is stopped.
use mcp_sdk_go.Base.Text.{Text}
use mcp_sdk_go.Base.Dict.{lookup}
use mcp_sdk_go.Base.{
  ◌≡◌, refl, ◌∙◌, ap, inl, inr, true, List, [], ◌∷◌, Option, none, some, arith, Option-cases, All,
  Bool, false, not,
}
use mcp_sdk_go.Protocol.Names.{capability_resources, capability_resource_subscriptions}
use mcp_sdk_go.Server.Subscriptions.{
  ResourceSubscriptionManager, new_resource_subscription_manager, subscribe,
}
use mcp_sdk_go.Server.Endpoint.{
  Server, Routes, ServerOption, with_resources_provider, configure, apply_option, apply_options,
  set_up_subscriptions, blank_server, plainly, is_on, has_capability, ResourcesProvider, plain,
  subscribable, Route, initialize, set_capability, cancel, subscribe_resource,
}
use mcp_sdk_go.Server.Endpoint.Offered.{last_word, has_capability-apply_options}
use mcp_sdk_go.Protocol.Jsonrpc.{Params, absent, unmarshalable, json}
use mcp_sdk_go.Server.Endpoint.Handlers.{
  Codec, handle_initialize, handle_cancel, validate_params, require_provider,
}
use mcp_sdk_go.Server.Endpoint.Features.{
  handle_subscribe_resource, subscribe_through, add_subscription,
}
use mcp_sdk_go.Server.Endpoint.Requests.{track_request, complete_request, cancel_request}
use mcp_sdk_go.Server.Endpoint.Serve.{
  Moment, ServerEvent, asked, told, notifying, tracking, completing, stopping, handle,
  handle_initialized, serve_request, serve_notification, serve, serve_all,
}

-- The resources provider that the options set last.
abbrev pub provider_of : Option ResourcesProvider → List ServerOption → Option ResourcesProvider
provider_of p [] = p
provider_of p (with_resources_provider q ∷ os) = provider_of q os
provider_of p (_ ∷ os) = provider_of p os

-- A subscription manager that is there and has not been stopped.
abbrev pub is_running : Option ResourceSubscriptionManager → Bool
is_running none = false
is_running (some m) = not m.stopped

abbrev pub is_stopping : ServerEvent → Bool
is_stopping stopping = true
is_stopping _ = false

-- A server with its subscriptions set up around a provider.
abbrev pub Wired : ResourcesProvider → Server → Type 0
Wired p s =
    (has_capability s capability_resource_subscriptions ≡ true)
    × (s.resources_provider ≡ some (subscribable p))
    × (is_running s.subscription_manager ≡ true)

-- What a step leaves in place.
abbrev Same : Server → Server → Type 0
Same s t =
    (t.capabilities ≡ s.capabilities)
    × (t.resources_provider ≡ s.resources_provider)
    × (is_running t.subscription_manager ≡ is_running s.subscription_manager)

Same-Wired : (p : ResourcesProvider) (s t : Server) → Same s t → Wired p s → Wired p t
unfolding has_capability
Same-Wired p s t (caps, src, kept) (on, source, managed) =
    (rw caps on, src ∙ source, kept ∙ managed)

complete-Same : (s : Server) (id : Text) → Same s (complete_request s id)
unfolding complete_request
complete-Same s id = ground arith

handle-Same :
    (c : Codec) (route : Route) (at : Moment) (s : Server) (params : Params)
    → Same s (handle c route at s params).0
unfolding subscribe handle handle_initialize validate_params handle_cancel cancel_request
    handle_subscribe_resource require_provider subscribe_through add_subscription
handle-Same c initialize at s absent = ground arith
handle-Same c initialize at s unmarshalable = ground arith
handle-Same c initialize at s (json bytes) = ground arith
handle-Same c set_capability at s params = ground arith
handle-Same c cancel at s absent = ground arith
handle-Same c cancel at s unmarshalable = ground arith
handle-Same c cancel at s (json bytes) = ground arith
handle-Same c subscribe_resource at s params = ground arith
handle-Same c _ at s params = ground arith

serve-Same :
    (c : Codec) (t : Routes) (s : Server) (e : ServerEvent)
    → is_stopping e ≡ false
    → Same s (serve c t s e).0
unfolding serve serve_notification serve_request track_request handle_initialized
serve-Same c t s (asked at method params) n = elim (Option-cases (lookup method t.requests)) [
  | inl e ↦ ground arith
  | inr (route, e) ↦ ground (arith, handle-Same c route at s params)
]
serve-Same c t s (told method) n = ground arith
serve-Same c t s (notifying _ _) n = ground arith
serve-Same c t s (tracking id g) n = ground arith
serve-Same c t s (completing id) n = complete-Same s id
serve-Same c t s stopping n = cc

pub serve_all-Wired :
    (c : Codec) (t : Routes) (p : ResourcesProvider) (s : Server) (es : List ServerEvent)
    → All (λ e. is_stopping e ≡ false) es
    → Wired p s
    → Wired p (serve_all c t s es).0
unfolding serve_all
serve_all-Wired c t p s [] ns w = w
serve_all-Wired c t p s (e ∷ es) (n, ns) w =
    serve_all-Wired c t p (serve c t s e).0 es ns
      (Same-Wired p s (serve c t s e).0 (serve-Same c t s e n) w)

apply_options-provider :
    (s : Server) (q : Option ResourcesProvider) (os : List ServerOption)
    → s.resources_provider ≡ plainly q
    → (apply_options s os).resources_provider ≡ plainly (provider_of q os)
unfolding apply_options apply_option
apply_options-provider s q [] h = h
apply_options-provider s q (with_resources_provider q' ∷ os) h =
    apply_options-provider (apply_option s (with_resources_provider q')) q' os refl
apply_options-provider s q (o ∷ os) h = apply_options-provider (apply_option s o) q os h

set_up_subscriptions-Wired :
    (p : ResourcesProvider) (s : Server)
    → has_capability s capability_resources ≡ true
    → has_capability s capability_resource_subscriptions ≡ true
    → s.resources_provider ≡ some (plain p)
    → Wired p (set_up_subscriptions s)
unfolding set_up_subscriptions has_capability new_resource_subscription_manager
set_up_subscriptions-Wired p s on subs e = (ground arith, ground arith, ground arith)

pub configure-Wired :
    (p : ResourcesProvider) (os : List ServerOption)
    → is_on (last_word capability_resources os) ≡ true
    → is_on (last_word capability_resource_subscriptions os) ≡ true
    → provider_of none os ≡ some p
    → Wired p (configure os)
unfolding configure
configure-Wired p os on subs e =
    set_up_subscriptions-Wired p (apply_options blank_server os)
      (has_capability-apply_options capability_resources os ∙ on)
      (has_capability-apply_options capability_resource_subscriptions os ∙ subs)
      (apply_options-provider blank_server none os refl ∙ ap plainly e)
