-- ===== src/Protocol/Jsonrpc/Kinds.antt =====
-- IsRequest, IsResponse, IsNotification, IsBatch and the parsing and printing of batches in
-- pkg/protocol/jsonrpc.go, over the parameter for encoding/json.
use mcp_sdk_go.Base.Text.{Text, codes}
use mcp_sdk_go.Base.{ℕ, ◌+◌, Bool, true, false, List, [], ◌∷◌, Option, none, some, if◌then◌else◌}
use mcp_sdk_go.Transport.Dispatch.{
  Request, Notification, Response, BatchItem, request, notification, other,
}
use mcp_sdk_go.Protocol.Jsonrpc.{
  Json, fields_are_request, fields_are_notification, fields_are_response, BatchError,
  batch_is_empty, not_a_batch, batch_unreadable, bad_request, bad_notification, bad_object, Batched,
  batch, batch_error, after_item,
}

abbrev pub as_item : Option BatchItem → BatchError → Batched BatchItem
as_item none e = batch_error e
as_item (some item) e = batch item

abbrev pub request_item : Option Request → Option BatchItem
request_item none = none
request_item (some r) = some (request r)

abbrev pub notification_item : Option Notification → Option BatchItem
notification_item none = none
notification_item (some n) = some (notification n)

abbrev pub put_item : Batched BatchItem → Batched (List BatchItem) → Batched (List BatchItem)
put_item (batch_error e) rest = batch_error e
put_item (batch item) rest = after_item item rest

abbrev pub elements : Option (Option (List Text)) → List Text
elements none = []
elements (some none) = []
elements (some (some raws)) = raws

module _ (j : Json) where
  unfoldable pub is_request : Text → Bool
  is_request bytes = fields_are_request (j.message_fields bytes)

  unfoldable pub is_response : Text → Bool
  is_response bytes = fields_are_response (j.response_fields bytes)

  unfoldable pub is_notification : Text → Bool
  is_notification bytes = fields_are_notification (j.message_fields bytes)

  unfoldable pub is_batch : Text → Bool
  is_batch bytes = elim (j.read_array bytes) [
    | none ↦ false
    | some arr ↦ elim arr [ none ↦ false | some items ↦ true ]
  ]

  -- One element of the array.
  unfoldable pub parse_item : ℕ → Text → Batched BatchItem
  parse_item i raw =
      if is_request raw
      then as_item (request_item (j.read_request raw)) (bad_request i)
      else if is_notification raw
      then as_item (notification_item (j.read_notification raw)) (bad_notification i)
      else batch_error (bad_object i)

  unfoldable pub parse_items : ℕ → List Text → Batched (List BatchItem)
  parse_items i [] = batch []
  parse_items i (raw ∷ raws) = put_item (parse_item i raw) (parse_items (i + 1) raws)

  -- The second Unmarshal, into raw messages, is of the same array and cannot fail.
  unfoldable pub parse_batch_request : Text → Batched (List BatchItem)
  parse_batch_request bytes =
      if is_batch bytes
      then elim (elements (j.read_array bytes)) [
        | [] ↦ batch_error batch_is_empty
        | raw ∷ raws ↦ parse_items 0 (raw ∷ raws)
      ]
      else batch_error not_a_batch

  unfoldable pub parse_batch_response : Text → Batched (List (Option Response))
  parse_batch_response bytes =
      if is_batch bytes
      then elim (j.read_responses bytes) [
        | none ↦ batch_error batch_unreadable
        | some responses ↦ batch responses
      ]
      else batch_error not_a_batch

  -- json.Marshal of an item; one of another type is not in a batch that the constructors made.
  unfoldable pub write_item : BatchItem → Text
  write_item (request r) = j.write_request r
  write_item (notification n) = j.write_notification n
  write_item other = codes "{}"

  unfoldable pub write_items : List BatchItem → List Text
  write_items [] = []
  write_items (item ∷ items) = write_item item ∷ write_items items

  -- ToJSON of a batch of requests; `none` is the error at a nil batch.
  unfoldable pub batch_to_json : Option (List BatchItem) → Option Text
  batch_to_json none = none
  batch_to_json (some items) = some (j.write_array (write_items items))
