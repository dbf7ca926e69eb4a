-- ===== src/Scenarios/Layering.antt =====
-- pkg/transport/middleware.go: a transport with three of the four layers, as the list of their names.
use mcp_sdk_go.Base.Text.{Text, codes, text_eq}
use mcp_sdk_go.Base.{◌≡◌, refl, true, false, List, [], ◌∷◌, some}
use mcp_sdk_go.Transport.Layers.{
  streamable_http, FeatureConfig, TransportConfig, validate_endpoint, validate_transport_config,
  Factories, base_transport, new_transport, chain_middleware, build,
}

abbrev features : FeatureConfig
features = record {
  enable_reliability = true;
  enable_observability = false;
  enable_connection_pool = false;
  enable_load_balancing = false;
  enable_queuing = false;
  enable_parallelism = false;
  enable_streaming = false;
  enable_batching = false;
  enable_async_tools = false;
  enable_authentication = true;
  enable_rate_limiting = true;
}

abbrev config : TransportConfig Text Text Text Text
config = record {
  kind = streamable_http;
  endpoint = codes "http://localhost";
  features = features;
  reliability = codes "retry";
  observability = codes "observe";
  authentication = some (codes "auth");
  rate_limit = some (codes "limit");
}

-- A transport is the list of the names of its layers.
abbrev names : Factories (List Text) Text Text Text Text
names = record {
  new_reliability = λ c t. c ∷ t;
  new_observability = λ c t. c ∷ t;
  auth_factory = some (λ c. some (λ t. c ∷ t));
  rate_limit_factory = some (λ c. some (λ t. c ∷ t));
  new_stdio_transport = some (codes "stdio" ∷ []);
  new_streamable_http_transport = some (codes "http" ∷ []);
}

-- The layer that is added first is the outermost one.
layers_shown :
    new_transport names config
    ≡ some (codes "retry" ∷ codes "auth" ∷ codes "limit" ∷ codes "http" ∷ [])
unfolding new_transport build base_transport chain_middleware validate_transport_config
    validate_endpoint text_eq
layers_shown = refl
