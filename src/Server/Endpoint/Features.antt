-- ===== src/Server/Endpoint/Features.antt =====
-- The handlers of the features in pkg/server/server.go, those of SubscribableResourcesProvider in
-- pkg/server/subscriptions.go that they reach, and the call of a handler by its route.
use mcp_sdk_go.Base.Text.{Text, codes}
use mcp_sdk_go.Base.{ℕ, Bool, true, false, Option, [], none, some, if◌then◌else◌}
use mcp_sdk_go.Protocol.{CallToolResult}
use mcp_sdk_go.Protocol.Names
use mcp_sdk_go.Protocol.Names.{capability_resource_subscriptions}
use mcp_sdk_go.Server.Subscriptions.{ResourceSubscriptionManager, subscribe, unsubscribe}
use mcp_sdk_go.Server.Endpoint.{
  Provided, provides, errs, breaks, ResourcesProvider, ResourcesSource, plain, subscribable, Server,
  has_capability,
}
use mcp_sdk_go.Protocol.Jsonrpc.{Params}
use mcp_sdk_go.Server.Endpoint.Handlers.{
  Codec, ServerError, capability_required, provider_error, Reply, list_tools_result,
  call_tool_result, list_resources_result, read_resource_result, subscribe_resource_result,
  list_prompts_result, get_prompt_result, complete_result, list_roots_result, Outcome, replies,
  refuses, crashes, validate_params, require_provider, passes,
}

abbrev pub base_of : ResourcesSource → ResourcesProvider
base_of (plain p) = p
base_of (subscribable p) = p

-- The manager's part of SubscribeResource, after the provider's.
unfoldable pub add_subscription : Server → Text → Bool → ℕ → Server × Outcome
add_subscription s uri recursive now = elim s.subscription_manager [
  | none ↦ (s, crashes)
  | some m ↦ (
    record s { subscription_manager = some (subscribe m uri recursive now) },
    replies (subscribe_resource_result true),
  )
]

abbrev pub subscribed : ResourcesSource → Server → Text → Bool → ℕ → Bool → Server × Outcome
subscribed (plain p) s uri recursive now success = (s, replies (subscribe_resource_result success))
subscribed (subscribable p) s uri recursive now success =
    if success
    then add_subscription s uri recursive now
    else (s, replies (subscribe_resource_result false))

-- SubscribeResource of the server's provider, with what the handler makes of it.
unfoldable pub subscribe_through :
    ResourcesSource → Server → Text → Bool → ℕ → Provided Bool → Server × Outcome
subscribe_through source s uri recursive now (provides success) =
    subscribed source s uri recursive now success
subscribe_through source s uri recursive now (errs e) =
    (s, refuses (provider_error (codes "resources") (codes "SubscribeResource") e))
subscribe_through source s uri recursive now breaks = (s, crashes)

-- SubscribableResourcesProvider.UnsubscribeResource: whether it did, and the URI of the error.
unfoldable pub unsubscribe_resource :
    ResourceSubscriptionManager → Text → ResourceSubscriptionManager × Bool × Option Text
unsubscribe_resource m uri =
    let (m', e) = unsubscribe m uri in
    elim e [ none ↦ (m', true, none) | some u ↦ (m', false, some u) ]

-- A nil pointer that is dereferenced panics.
abbrev pub pointed {ℓ} : {A : Type ℓ} → (A → Reply) → Option A → Outcome
pointed reply none = crashes
pointed reply (some a) = replies (reply a)

module _ (c : Codec) where
  unfoldable pub handle_list_tools : Server → Params → Outcome
  handle_list_tools s params =
      require_provider s.tools_provider (codes "tools") Names.method_list_tools refuses (λ provider.
        validate_params c.list_labelled Names.method_list_tools params refuses (λ p.
          passes (provider.list_tools p.label p.page) (codes "tools") (codes "ListTools")
            (λ page. replies (list_tools_result page))))

  abbrev pub tool_error : Text → Reply
  tool_error e =
      call_tool_result
        (record { result = []; error = e; partial = false; operation_id = []; documentation = [] })

  -- `ctx_cancelled` is whether the context is cancelled when the provider has failed.
  abbrev pub tool_outcome : Bool → Provided CallToolResult → Outcome
  tool_outcome ctx_cancelled (provides result) = replies (call_tool_result result)
  tool_outcome ctx_cancelled (errs e) =
      replies (tool_error (if ctx_cancelled then codes "Tool call was cancelled" else e))
  tool_outcome ctx_cancelled breaks = crashes

  unfoldable pub handle_call_tool : Bool → Server → Params → Outcome
  handle_call_tool ctx_cancelled s params =
      require_provider s.tools_provider (codes "tools") Names.method_call_tool refuses (λ provider.
        validate_params c.call_tool Names.method_call_tool params refuses
          (λ p. tool_outcome ctx_cancelled (provider.call_tool p.name p.input p.context_data)))

  unfoldable pub handle_list_resources : Server → Params → Outcome
  handle_list_resources s params =
      require_provider s.resources_provider (codes "resources") Names.method_list_resources refuses
        (λ source. validate_params c.list_resources Names.method_list_resources params refuses (λ p.
          passes ((base_of source).list_resources p.uri p.recursive p.page) (codes "resources")
            (codes "ListResources") (λ page. replies (list_resources_result page))))

  unfoldable pub handle_read_resource : Server → Params → Outcome
  handle_read_resource s params =
      require_provider s.resources_provider (codes "resources") Names.method_read_resource refuses
        (λ source. validate_params c.read_resource Names.method_read_resource params refuses (λ p.
          passes ((base_of source).read_resource p.uri p.template_params p.range)
            (codes "resources") (codes "ReadResource")
            (λ contents. pointed read_resource_result contents)))

  -- `now` is the time of the subscription.
  unfoldable pub handle_subscribe_resource : ℕ → Server → Params → Server × Outcome
  handle_subscribe_resource now s params =
      let refuse : ServerError → Server × Outcome = λ e. (s, refuses e) in
      require_provider s.resources_provider (codes "resources") Names.method_subscribe_resource
        refuse
        (λ source.
          if has_capability s capability_resource_subscriptions
          then validate_params c.subscribe_resource Names.method_subscribe_resource params refuse
              (λ p.
                subscribe_through source s p.uri p.recursive now
                  ((base_of source).subscribe_resource p.uri p.recursive))
          else refuse (
              capability_required Names.method_subscribe_resource
                capability_resource_subscriptions))

  unfoldable pub handle_list_prompts : Server → Params → Outcome
  handle_list_prompts s params =
      require_provider s.prompts_provider (codes "prompts") Names.method_list_prompts refuses
        (λ provider. validate_params c.list_labelled Names.method_list_prompts params refuses (λ p.
          passes (provider.list_prompts p.label p.page) (codes "prompts") (codes "ListPrompts")
            (λ page. replies (list_prompts_result page))))

  unfoldable pub handle_get_prompt : Server → Params → Outcome
  handle_get_prompt s params =
      require_provider s.prompts_provider (codes "prompts") Names.method_get_prompt refuses
        (λ provider. validate_params c.get_prompt Names.method_get_prompt params refuses (λ p.
          passes (provider.get_prompt p.id) (codes "prompts") (codes "GetPrompt")
            (λ prompt. pointed get_prompt_result prompt)))

  unfoldable pub handle_complete : Server → Params → Outcome
  handle_complete s params =
      require_provider s.completion_provider (codes "completion") Names.method_complete refuses
        (λ provider. validate_params c.complete Names.method_complete params refuses (λ p.
          passes (provider.complete p) (codes "completion") (codes "Complete")
            (λ result. replies (complete_result result))))

  unfoldable pub handle_list_roots : Server → Params → Outcome
  handle_list_roots s params =
      require_provider s.roots_provider (codes "roots") Names.method_list_roots refuses (λ provider.
        validate_params c.list_labelled Names.method_list_roots params refuses (λ p.
          passes (provider.list_roots p.label p.page) (codes "roots") (codes "ListRoots")
            (λ page. replies (list_roots_result page))))
