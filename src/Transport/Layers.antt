-- ===== src/Transport/Layers.antt =====
-- pkg/transport/middleware.go, with NewTransport, validateTransportConfig and DefaultTransportConfig of
-- pkg/transport/transport.go: how the layers around a transport are chosen and put together. Of the
-- configuration it has what these read; the transports themselves are values of any type.
use mcp_sdk_go.Base.Text.{Text, text_eq}
use mcp_sdk_go.Base.{Bool, List, [], ◌∷◌, ◌++◌, Option, none, some, if◌then◌else◌}

pub data TransportType : Type 0 where
  stdio http streamable_http : TransportType
  other_type : Text → TransportType

pub record FeatureConfig : Type 0 where
  pub enable_reliability : Bool
  pub enable_observability : Bool
  pub enable_connection_pool : Bool
  pub enable_load_balancing : Bool
  pub enable_queuing : Bool
  pub enable_parallelism : Bool
  pub enable_streaming : Bool
  pub enable_batching : Bool
  pub enable_async_tools : Bool
  pub enable_authentication : Bool
  pub enable_rate_limiting : Bool

-- The configurations of the layers are values of four types, one of them each.
pub record TransportConfig (R O A L : Type 0) : Type 0 where
  pub kind : TransportType
  pub endpoint : Text
  pub features : FeatureConfig
  pub reliability : R
  pub observability : O
  pub authentication : Option A
  pub rate_limit : Option L

pub data ConfigError : Type 0 where
  endpoint_required unsupported_transport_type : ConfigError

unfoldable pub validate_endpoint : Text → Option ConfigError
validate_endpoint endpoint = if text_eq endpoint [] then some endpoint_required else none

module _ {R O A L : Type 0} where
  unfoldable pub validate_transport_config : TransportConfig R O A L → Option ConfigError
  validate_transport_config config = elim config.kind [
    | stdio ↦ none
    | streamable_http ↦ validate_endpoint config.endpoint
    | http ↦ validate_endpoint config.endpoint
    | other_type _ ↦ some unsupported_transport_type
  ]

-- The middleware constructors: the two of the package, and the factories that pkg/auth registers,
-- which may be missing and may make nothing.
pub record Factories (T R O A L : Type 0) : Type 0 where
  pub new_reliability : R → T → T
  pub new_observability : O → T → T
  pub auth_factory : Option (A → Option (T → T))
  pub rate_limit_factory : Option (L → Option (T → T))
  pub new_stdio_transport : Option T
  pub new_streamable_http_transport : Option T

-- Each layer of the list wraps what the rest of the list makes.
unfoldable pub chain_middleware {ℓ} : {T : Type ℓ} → List (T → T) → T → T
chain_middleware [] transport = transport
chain_middleware (m ∷ middleware) transport = m (chain_middleware middleware transport)

abbrev pub layer_of : {T : Type 0} → Option (T → T) → List (T → T)
layer_of none = []
layer_of (some m) = m ∷ []

-- A layer that needs its configuration and its factory.
abbrev pub made : {T C : Type 0} → Option C → Option (C → Option (T → T)) → List (T → T)
made none factory = []
made (some c) none = []
made (some c) (some factory) = layer_of (factory c)

module _ {T R O A L : Type 0} (make : Factories T R O A L) where
  -- The list that Build appends to, and its four parts.
  abbrev pub retry_part : TransportConfig R O A L → List (T → T)
  retry_part config =
      if config.features.enable_reliability
      then make.new_reliability config.reliability ∷ []
      else []

  abbrev pub observe_part : TransportConfig R O A L → List (T → T)
  observe_part config =
      if config.features.enable_observability
      then make.new_observability config.observability ∷ []
      else []

  abbrev pub auth_part : TransportConfig R O A L → List (T → T)
  auth_part config =
      if config.features.enable_authentication
      then made config.authentication make.auth_factory
      else []

  abbrev pub limit_part : TransportConfig R O A L → List (T → T)
  limit_part config =
      if config.features.enable_rate_limiting
      then made config.rate_limit make.rate_limit_factory
      else []

  unfoldable pub build : TransportConfig R O A L → List (T → T)
  build config =
      retry_part config ++ (observe_part config ++ (auth_part config ++ limit_part config))

  -- The transport below the layers; `none` is an error of its constructor.
  unfoldable pub base_transport : TransportType → Option T
  base_transport stdio = make.new_stdio_transport
  base_transport http = make.new_streamable_http_transport
  base_transport streamable_http = make.new_streamable_http_transport
  base_transport (other_type _) = none

  unfoldable pub new_transport : TransportConfig R O A L → Option T
  new_transport config = elim (validate_transport_config config) [
    | some e ↦ none
    | none ↦ elim (base_transport config.kind) [
      | none ↦ none
      | some base ↦ some (chain_middleware (build config) base)
    ]
  ]
