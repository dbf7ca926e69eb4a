-- ===== src/Transport/Dispatch.antt =====
-- The handlers of BaseTransport (pkg/transport/transport.go) and the messages of
-- pkg/protocol/jsonrpc.go. A handler is the outcome that it has for each parameter: what else it does is
-- not modelled. An id, a parameter and a result are their JSON; a nil message is `none`.
pub mod Batches
use mcp_sdk_go.Base.Int.{ℤ, pos, negsuc}
use mcp_sdk_go.Base.Text.{Text, codes}
use mcp_sdk_go.Base.Dict.{Dict, lookup, insert}
use mcp_sdk_go.Base.{List, [], ◌∷◌, ◌++◌, Option, none, some}

pub record Request : Type 0 where
  pub jsonrpc : Text
  pub id : Text
  pub method : Text
  pub params : Text

pub record Notification : Type 0 where
  pub jsonrpc : Text
  pub method : Text
  pub params : Text

pub record ProtocolError : Type 0 where
  pub code : ℤ
  pub message : Text

pub record Response : Type 0 where
  pub jsonrpc : Text
  pub id : Text
  pub result : Option Text
  pub error : Option ProtocolError

-- A handler's result with its JSON, or the error of json.Marshal at it; its error; its panic.
pub data Handled : Type 0 where
  returns unmarshalable fails : Text → Handled
  panics : Handled

pub data NotificationHandled : Type 0 where
  done : NotificationHandled
  failed : Text → NotificationHandled
  panicked : Text → NotificationHandled

pub record BaseTransport : Type 0 where
  pub request_handlers : Dict (Text → Handled)
  pub notification_handlers : Dict (Text → NotificationHandled)

unfoldable pub new_base_transport : BaseTransport
new_base_transport = record { request_handlers = []; notification_handlers = [] }

unfoldable pub register_request_handler : BaseTransport → Text → (Text → Handled) → BaseTransport
register_request_handler t method handler = record t {
  request_handlers = insert method handler t.request_handlers;
}

unfoldable pub register_notification_handler :
    BaseTransport → Text → (Text → NotificationHandled) → BaseTransport
register_notification_handler t method handler = record t {
  notification_handlers = insert method handler t.notification_handlers;
}

-- InternalError, -32603.
abbrev pub internal_error : ℤ
internal_error = negsuc 32602

-- HandleRequest leaves the version of its responses empty.
abbrev pub refuse : Text → Text → Response
refuse id message = record {
  jsonrpc = [];
  id = id;
  result = none;
  error = some (record { code = internal_error; message = message });
}

unfoldable pub respond : Request → Handled → Response
respond request (returns json) = record {
  jsonrpc = [];
  id = request.id;
  result = some json;
  error = none;
}
respond request (unmarshalable e) = refuse request.id (codes "failed to marshal result: " ++ e)
respond request (fails e) = refuse request.id e
respond request panics =
    refuse request.id (codes "Internal server error processing " ++ request.method)

pub data Answered : Type 0 where
  response : Response → Answered
  call_failed : Text → Answered

unfoldable pub handle_request : BaseTransport → Request → Answered
handle_request t request = elim (lookup request.method t.request_handlers) [
  | none ↦ call_failed (codes "no handler for method: " ++ request.method)
  | some handler ↦ response (respond request (handler request.params))
]

abbrev pub notification_error : Notification → NotificationHandled → Option Text
notification_error notification done = none
notification_error notification (failed e) = some e
notification_error notification (panicked r) =
    some (codes "internal error processing notification " ++ notification.method ++ codes ": " ++ r)

unfoldable pub handle_notification : BaseTransport → Notification → Option Text
handle_notification t notification = elim (lookup notification.method t.notification_handlers) [
  | none ↦ some (codes "no handler for notification: " ++ notification.method)
  | some handler ↦ notification_error notification (handler notification.params)
]

-- An item of a batch; one of another type is passed over.
pub data BatchItem : Type 0 where
  request : Request → BatchItem
  notification : Notification → BatchItem
  other : BatchItem

-- The response for a request whose handling failed.
unfoldable pub as_response : Request → Answered → Response
as_response req (response r) = r
as_response req (call_failed e) = record {
  jsonrpc = codes "2.0";
  id = req.id;
  result = none;
  error = some (record { code = internal_error; message = e });
}

-- The loop over the batch. The error of a notification is dropped.
unfoldable pub handle_items : BaseTransport → List BatchItem → List Response
handle_items t [] = []
handle_items t (request r ∷ items) = as_response r (handle_request t r) ∷ handle_items t items
handle_items t (notification n ∷ items) = handle_items t items
handle_items t (other ∷ items) = handle_items t items

pub data BatchAnswered : Type 0 where
  batch_empty : BatchAnswered
  batch_response : List Response → BatchAnswered

unfoldable pub handle_batch_request : BaseTransport → Option (List BatchItem) → BatchAnswered
handle_batch_request t none = batch_empty
handle_batch_request t (some []) = batch_empty
handle_batch_request t (some (item ∷ items)) = batch_response (handle_items t (item ∷ items))
