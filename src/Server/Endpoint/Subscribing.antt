-- ===== src/Server/Endpoint/Subscribing.antt =====
-- A subscription through a server of pkg/server/server.go: the request, the provider that New has
-- wrapped and the subscription manager of pkg/server/subscriptions.go.
use mcp_sdk_go.Base.Text.{Text, text_eq, text_eq_refl}
use mcp_sdk_go.Base.Dict.{lookup, lookup-insert_eq}
use mcp_sdk_go.Base.{
  ℕ, ◌≡◌, ◌∙◌, inl, inr, refl, Bool, true, false, ◌++◌, All, List, [], ◌∷◌, none, some, arith,
  Option-cases,
}
use mcp_sdk_go.Protocol.{SubscribeResourceParams}
use mcp_sdk_go.Protocol.Names.{
  method_subscribe_resource, capability_resources, capability_resource_subscriptions,
}
use mcp_sdk_go.Server.Subscriptions.{
  Subscription, ResourceSubscriptionManager, subscribe, should_notify, ResourceChange, batch_at,
  receive,
}
use mcp_sdk_go.Server.Endpoint.{
  Server, ServerOption, new_server, configure, is_on, ResourcesProvider, provides,
  subscribe_resource,
}
use mcp_sdk_go.Server.Endpoint.Offered.{last_word, offers, methods, new_server-offers}
use mcp_sdk_go.Server.Endpoint.History.{and_false, serve_routed}
use mcp_sdk_go.Server.Endpoint.Wiring.{
  is_stopping, Wired, provider_of, serve_all-Wired, configure-Wired,
}
use mcp_sdk_go.Protocol.Jsonrpc.{json}
use mcp_sdk_go.Server.Endpoint.Handlers.{
  Codec, validate_params, require_provider, replies, subscribe_resource_result,
}
use mcp_sdk_go.Server.Endpoint.Features.{
  handle_subscribe_resource, subscribe_through, add_subscription,
}
use mcp_sdk_go.Server.Endpoint.Serve.{
  Moment, Shown, answers, ServerEvent, handle, serve_request, serve_all,
}

-- A change of a URI.
abbrev pub of_uri : Text → ResourceChange → ResourceChange
of_uri uri change = record change { uri = uri }

-- The subscription is accepted; the manager is there, not stopped, and batches a change of the URI that
-- it takes off its channel.
abbrev pub Subscribes : Text → ResourceChange → Server × List Shown → Type 0
Subscribes uri change (s, out) =
    (out ≡ answers (replies (subscribe_resource_result true)) ∷ [])
    × ((m : ResourceSubscriptionManager) × (s.subscription_manager ≡ some m)
        × (m.stopped ≡ false)
        × (batch_at uri (receive m (of_uri uri change)).batched_changes
            ≡ batch_at uri m.batched_changes ++ of_uri uri change ∷ []))

abbrev entry : Text → Bool → ℕ → Subscription
entry uri recursive now = record {
  uri = uri;
  recursive = recursive;
  created_at = now;
  last_update = now;
}

subscribe-should_notify :
    (m : ResourceSubscriptionManager) (uri : Text) (recursive : Bool) (now : ℕ)
    → should_notify (subscribe m uri recursive now) uri ≡ true
unfolding subscribe should_notify
subscribe-should_notify m uri recursive now = elim (Option-cases (lookup uri m.subscriptions)) [
  | inl e ↦
      rw (e, subscribe)
        (ground (
          arith,
          lookup-insert_eq uri uri (entry uri recursive now) m.subscriptions (text_eq_refl uri),
        ))
  | inr (sub, e) ↦ ground arith
]

receive-batch_at :
    (m : ResourceSubscriptionManager) (uri : Text) (change : ResourceChange)
    → should_notify m uri ≡ true
    → batch_at uri (receive m (of_uri uri change)).batched_changes
      ≡ batch_at uri m.batched_changes ++ of_uri uri change ∷ []
unfolding receive
receive-batch_at m uri change h =
    rw (h, receive)
      (rw
        (
          lookup-insert_eq uri uri (batch_at uri m.batched_changes ++ of_uri uri change ∷ [])
              m.batched_changes (text_eq_refl uri),
          batch_at,
        )
        refl)

stopped-subscribe :
    (m : ResourceSubscriptionManager) (uri : Text) (recursive : Bool) (now : ℕ)
    → (subscribe m uri recursive now).stopped ≡ m.stopped
unfolding subscribe
stopped-subscribe m uri recursive now = ground arith

handle-Subscribes :
    (c : Codec) (p : ResourcesProvider) (at : Moment) (s : Server) (bytes : Text)
    (q : SubscribeResourceParams) (change : ResourceChange)
    → Wired p s
    → c.subscribe_resource bytes ≡ some q
    → p.subscribe_resource q.uri q.recursive ≡ provides true
    → Subscribes q.uri change (handle c subscribe_resource at s (json bytes))
unfolding handle handle_subscribe_resource require_provider validate_params subscribe_through
    add_subscription
handle-Subscribes c p at s bytes q change (on, src, managed) e accepts =
    elim (Option-cases s.subscription_manager) [
      | inl none_there ↦ absurd (cc)
      | inr (m, there) ↦ (
        ground arith,
        (
          subscribe m q.uri q.recursive at.clock,
          ground arith,
          stopped-subscribe m q.uri q.recursive at.clock ∙ ground arith,
          receive-batch_at (subscribe m q.uri q.recursive at.clock) q.uri change
              (subscribe-should_notify m q.uri q.recursive at.clock),
        ),
      )
    ]

route_of_subscribe :
    (os : List ServerOption)
    → is_on (last_word capability_resources os) ≡ true
    → is_on (last_word capability_resource_subscriptions os) ≡ true
    → offers os methods method_subscribe_resource ≡ some subscribe_resource
unfolding text_eq
route_of_subscribe os on subs = simp (and_false, on, subs)

-- A server whose options end with both resources and their subscriptions on, and whose provider of
-- resources accepts a subscription, answers the request with success after any events but a Stop. The
-- subscription manager is running then, and a change of that URI that it takes off its channel, as it
-- stands, is added to its batch for the URI.
pub serve_request-Subscribes :
    (c : Codec) (options : List ServerOption) (p : ResourcesProvider) (es : List ServerEvent)
    (at : Moment) (bytes : Text) (q : SubscribeResourceParams) (change : ResourceChange)
    → All (λ e. is_stopping e ≡ false) es
    → is_on (last_word capability_resources options) ≡ true
    → is_on (last_word capability_resource_subscriptions options) ≡ true
    → provider_of none options ≡ some p
    → c.subscribe_resource bytes ≡ some q
    → p.subscribe_resource q.uri q.recursive ≡ provides true
    → Subscribes q.uri change (
        serve_request c
          (new_server options).1
          at
          (serve_all c (new_server options).1 (new_server options).0 es).0
          method_subscribe_resource
          (json bytes))
unfolding new_server
serve_request-Subscribes c os p es at bytes q change runs on subs e decodes accepts =
    let t = (new_server os).1 in
    let s = (serve_all c t (configure os) es).0 in
    rw
      (serve_routed c t at s method_subscribe_resource (json bytes) subscribe_resource
        (new_server-offers os method_subscribe_resource ∙ route_of_subscribe os on subs))
      (handle-Subscribes c p at s bytes q change
        (serve_all-Wired c t p (configure os) es runs (configure-Wired p os on subs e)) decodes
        accepts)
