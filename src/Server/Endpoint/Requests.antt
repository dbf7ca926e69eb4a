-- ===== src/Server/Endpoint/Requests.antt =====
-- The tracking of requests in pkg/server/server.go, which the tests call and no handler of Server does,
-- and Stop. What is called beside is the cancel functions, in order.
use mcp_sdk_go.Base.Text.{Text}
use mcp_sdk_go.Base.Dict.{Dict, lookup, insert, remove}
use mcp_sdk_go.Base.{ℕ, true, List, [], ◌∷◌, Option, none, some}
use mcp_sdk_go.Server.Subscriptions.{ResourceSubscriptionManager}
use mcp_sdk_go.Server.Subscriptions.Batching.{stop}
use mcp_sdk_go.Server.Endpoint.{Server}

unfoldable pub track_request : Server → Text → ℕ → Server
track_request s id cancel_func = record s {
  active_requests = insert id cancel_func s.active_requests;
}

unfoldable pub complete_request : Server → Text → Server
complete_request s id = elim (lookup id s.active_requests) [
  | none ↦ s
  | some _ ↦ record s { active_requests = remove id s.active_requests }
]

-- Whether it cancelled, with the cancel function that it called.
unfoldable pub cancel_request : Server → Text → Server × Option ℕ
cancel_request s id = elim (lookup id s.active_requests) [
  | none ↦ (s, none)
  | some f ↦ (record s { active_requests = remove id s.active_requests }, some f)
]

unfoldable pub cancel_all : Dict ℕ → List ℕ
cancel_all [] = []
cancel_all ((id, f) ∷ rest) = f ∷ cancel_all rest

-- `none` is the panic of a second Stop of the subscription manager.
abbrev pub stop_manager :
    Option ResourceSubscriptionManager → Option (Option ResourceSubscriptionManager)
stop_manager none = some none
stop_manager (some m) = elim (stop m) [ none ↦ none | some m' ↦ some (some m') ]

-- Server.Stop up to the transport's, with the cancel functions that it calls.
unfoldable pub stop_server : Server → Option (Server × List ℕ)
stop_server s = elim (stop_manager s.subscription_manager) [
  | none ↦ none
  | some m ↦ some (
    record s { stopped = true; subscription_manager = m; active_requests = [] },
    cancel_all s.active_requests,
  )
]
