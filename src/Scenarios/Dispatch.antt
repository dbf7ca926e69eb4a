-- ===== src/Scenarios/Dispatch.antt =====
-- pkg/transport/transport.go: a batch of a known method, a notification and an unknown method.
use mcp_sdk_go.Base.Int.{negsuc}
use mcp_sdk_go.Base.Text.{Text, codes, text_eq}
use mcp_sdk_go.Base.Dict.{lookup}
use mcp_sdk_go.Base.{◌≡◌, refl, List, [], ◌∷◌, map, In, none, some}
use mcp_sdk_go.Transport.Dispatch.{
  Response, returns, done, BaseTransport, respond, handle_request, BatchItem, request, notification,
  as_response, handle_items, batch_response, handle_batch_request,
}
use mcp_sdk_go.Transport.Dispatch.Batches.{Proper, handle_batch_request_responses}

abbrev transport : BaseTransport
transport = record {
  request_handlers = (codes "ping", λ params. returns (codes "{}")) ∷ [];
  notification_handlers = (codes "initialized", λ params. done) ∷ [];
}

abbrev call : Text → Text → BatchItem
call id method =
    request (record { jsonrpc = codes "2.0"; id = id; method = method; params = codes "null" })

abbrev note : BatchItem
note =
    notification
      (record { jsonrpc = codes "2.0"; method = codes "initialized"; params = codes "null" })

abbrev unknown : Response
unknown = record {
  jsonrpc = codes "2.0";
  id = codes "2";
  result = none;
  error = some (record { code = negsuc 32602; message = codes "no handler for method: pong" });
}

-- The answer of a handler has no version, and an unknown method is an internal error.
batch_answered :
    handle_batch_request transport
      (some (call (codes "1") (codes "ping") ∷ note ∷ call (codes "2") (codes "pong") ∷ []))
    ≡ batch_response (
        record { jsonrpc = []; id = codes "1"; result = some (codes "{}"); error = none }
        ∷ unknown
        ∷ [])
unfolding handle_batch_request handle_items as_response handle_request respond lookup text_eq
batch_answered = refl

handle_batch_request_responses_example :
    (rs : List Response) × (handle_batch_request transport
        (some (call (codes "1") (codes "ping") ∷ note ∷ call (codes "2") (codes "pong") ∷ []))
      ≡ batch_response rs)
    × (map (λ (r : Response). r.id) rs ≡ codes "1" ∷ codes "2" ∷ [])
    × ((r : Response) → In r rs → Proper r.id r)
handle_batch_request_responses_example =
    handle_batch_request_responses transport (call (codes "1") (codes "ping"))
      (note ∷ call (codes "2") (codes "pong") ∷ [])
