-- ===== src/Protocol/Jsonrpc.antt =====
-- pkg/protocol/jsonrpc.go: constructors of messages, what kind a message is, and batches. What
-- encoding/json does at each type is a parameter. A nil id is `null`, a nil pointer is `none`, and a nil
-- json.RawMessage is the empty text.
pub mod Kinds
pub mod Written
pub mod Fields
pub mod Reading
use mcp_sdk_go.Base.Int.{ℤ, negsuc}
use mcp_sdk_go.Base.Text.{Text, codes, text_eq}
use mcp_sdk_go.Base.{
  ℕ, ◌+◌, Bool, true, false, not, ◌&&◌, ◌||◌, List, [], ◌∷◌, ◌++◌, length, Option, none, some,
  if◌then◌else◌,
}
use mcp_sdk_go.Transport.Dispatch.{
  Request, Notification, ProtocolError, Response, BatchItem, request, notification, other,
}

abbrev pub jsonrpc_version : Text
jsonrpc_version = codes "2.0"

abbrev pub null : Text
null = codes "null"

-- A value of any type that is to be marshalled: nil, a value that does not marshal, or its JSON.
pub data Params : Type 0 where
  absent unmarshalable : Params
  json : Text → Params

abbrev pub raw_params : Params → Option Text
raw_params absent = some []
raw_params unmarshalable = none
raw_params (json bytes) = some bytes

-- `none` is the error of json.Marshal.
unfoldable pub new_request : Text → Text → Params → Option Request
new_request id method params = elim (raw_params params) [
  | none ↦ none
  | some bytes ↦
      some (record { jsonrpc = jsonrpc_version; id = id; method = method; params = bytes })
]

unfoldable pub new_notification : Text → Params → Option Notification
new_notification method params = elim (raw_params params) [
  | none ↦ none
  | some bytes ↦ some (record { jsonrpc = jsonrpc_version; method = method; params = bytes })
]

-- A nil result stays out of the response.
abbrev pub raw_result : Params → Option (Option Text)
raw_result absent = some none
raw_result unmarshalable = none
raw_result (json bytes) = some (some bytes)

unfoldable pub new_response : Text → Params → Option Response
new_response id result = elim (raw_result result) [
  | none ↦ none
  | some r ↦ some (record { jsonrpc = jsonrpc_version; id = id; result = r; error = none })
]

-- The data of an error is left out of the model, but not that it may fail to marshal.
unfoldable pub new_error_response : Text → ℤ → Text → Params → Option Response
new_error_response id code message content = elim (raw_params content) [
  | none ↦ none
  | some _ ↦ some (record {
    jsonrpc = jsonrpc_version;
    id = id;
    result = none;
    error = some (record { code = code; message = message });
  })
]

-- The fields that IsRequest and IsNotification read, and those that IsResponse reads.
pub record MessageFields : Type 0 where
  pub jsonrpc : Text
  pub id : Text
  pub method : Text

pub record ResponseFields : Type 0 where
  pub jsonrpc : Text
  pub id : Text
  pub has_result : Bool
  pub has_error : Bool

-- json.Unmarshal into the types that the file reads, `none` for its error, and json.Marshal of the
-- types that it writes. An array that is `null` is a nil slice, and so is `some none`.
pub record Json : Type 0 where
  pub message_fields : Text → Option MessageFields
  pub response_fields : Text → Option ResponseFields
  pub read_request : Text → Option Request
  pub read_notification : Text → Option Notification
  pub read_array : Text → Option (Option (List Text))
  pub read_responses : Text → Option (List (Option Response))
  pub write_request : Request → Text
  pub write_notification : Notification → Text
  pub write_array : List Text → Text
  -- What json.Marshal writes as it is: valid UTF-8, and JSON that is compact and escaped.
  pub stable : Text → Bool
  -- One value of JSON, as json.Marshal writes it: compact and escaped.
  pub compact : Text → Bool

unfoldable pub fields_are_request : Option MessageFields → Bool
fields_are_request none = false
fields_are_request (some m) =
    text_eq m.jsonrpc jsonrpc_version && (not (text_eq m.id null) && not (text_eq m.method []))

unfoldable pub fields_are_notification : Option MessageFields → Bool
fields_are_notification none = false
fields_are_notification (some m) =
    text_eq m.jsonrpc jsonrpc_version && (text_eq m.id null && not (text_eq m.method []))

unfoldable pub fields_are_response : Option ResponseFields → Bool
fields_are_response none = false
fields_are_response (some m) =
    text_eq m.jsonrpc jsonrpc_version && (not (text_eq m.id null) && (m.has_result || m.has_error))

pub data BatchError : Type 0 where
  batch_is_empty not_a_batch batch_unreadable : BatchError
  nil_request nil_notification bad_item bad_request bad_notification bad_object : ℕ → BatchError

pub data Batched {ℓ} (A : Type ℓ) : Type ℓ where
  batch : A → Batched A
  batch_error : BatchError → Batched A

abbrev pub after_item : BatchItem → Batched (List BatchItem) → Batched (List BatchItem)
after_item item (batch items) = batch (item ∷ items)
after_item item (batch_error e) = batch_error e

-- An argument of NewJSONRPCBatchRequest.
pub data AnyItem : Type 0 where
  request_pointer : Option Request → AnyItem
  notification_pointer : Option Notification → AnyItem
  any_other : AnyItem

unfoldable pub collect_items : ℕ → List AnyItem → Batched (List BatchItem)
collect_items i [] = batch []
collect_items i (request_pointer none ∷ items) = batch_error (nil_request i)
collect_items i (request_pointer (some r) ∷ items) =
    after_item (request r) (collect_items (i + 1) items)
collect_items i (notification_pointer none ∷ items) = batch_error (nil_notification i)
collect_items i (notification_pointer (some n) ∷ items) =
    after_item (notification n) (collect_items (i + 1) items)
collect_items i (any_other ∷ items) = batch_error (bad_item i)

unfoldable pub new_batch_request : List AnyItem → Batched (List BatchItem)
new_batch_request [] = batch_error batch_is_empty
new_batch_request (item ∷ items) = collect_items 0 (item ∷ items)

-- NewJSONRPCBatchResponse, which drops nil responses.
unfoldable pub new_batch_response : List (Option Response) → List Response
new_batch_response [] = []
new_batch_response (none ∷ responses) = new_batch_response responses
new_batch_response (some r ∷ responses) = r ∷ new_batch_response responses

-- IsEmpty and Add of a batch of responses.
unfoldable pub is_empty_batch : Option (List (Option Response)) → Bool
is_empty_batch none = true
is_empty_batch (some []) = true
is_empty_batch (some (r ∷ rs)) = false

unfoldable pub add_response :
    Option (List (Option Response)) → Option Response → Option (List (Option Response))
add_response none r = none
add_response (some rs) none = some rs
add_response (some rs) (some r) = some (rs ++ some r ∷ [])

-- Len of both kinds of batches.
unfoldable pub batch_len {ℓ} : {A : Type ℓ} → Option (List A) → ℕ
batch_len none = 0
batch_len (some items) = length items

unfoldable pub requests_of : List BatchItem → List Request
requests_of [] = []
requests_of (request r ∷ items) = r ∷ requests_of items
requests_of (notification n ∷ items) = requests_of items
requests_of (other ∷ items) = requests_of items

-- GetRequests and GetNotifications.
unfoldable pub get_requests : Option (List BatchItem) → List Request
get_requests none = []
get_requests (some items) = requests_of items

unfoldable pub notifications_of : List BatchItem → List Notification
notifications_of [] = []
notifications_of (request r ∷ items) = notifications_of items
notifications_of (notification n ∷ items) = n ∷ notifications_of items
notifications_of (other ∷ items) = notifications_of items

unfoldable pub get_notifications : Option (List BatchItem) → List Notification
get_notifications none = []
get_notifications (some items) = notifications_of items
