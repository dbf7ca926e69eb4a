-- ===== src/Protocol/Jsonrpc/Written.antt =====
-- Batches of pkg/protocol/jsonrpc.go that are read back from what ToJSON writes of them.
use mcp_sdk_go.Base.Text.{Text, text_eq}
use mcp_sdk_go.Base.{◌≡◌, true, false, List, [], some, All}
use mcp_sdk_go.Transport.Dispatch.{Request, Notification, BatchItem, request, notification, other}
use mcp_sdk_go.Protocol.Jsonrpc.{jsonrpc_version, null, Json}

abbrev pub StableRequest : Json → Request → Type 0
StableRequest j r =
    (r.jsonrpc ≡ jsonrpc_version)
    × (j.stable r.id ≡ true)
    × (j.stable r.method ≡ true)
    × (j.stable r.params ≡ true)

abbrev pub StableNotification : Json → Notification → Type 0
StableNotification j n =
    (n.jsonrpc ≡ jsonrpc_version) × (j.stable n.method ≡ true) × (j.stable n.params ≡ true)

-- encoding/json writes a message as one compact value, and reads back what it writes: the fields of a
-- message, a message, and an array of compact values, where the texts of a message are written as they
-- are. A notification is written without an id, which then reads as nil.
pub record Laws (j : Json) : Type 0 where
  pub request_fields :
      (r : Request)
      → StableRequest j r
      → j.message_fields (j.write_request r)
        ≡ some (record { jsonrpc = r.jsonrpc; id = r.id; method = r.method })
  pub notification_fields :
      (n : Notification)
      → StableNotification j n
      → j.message_fields (j.write_notification n)
        ≡ some (record { jsonrpc = n.jsonrpc; id = null; method = n.method })
  pub request_back : (r : Request) → StableRequest j r → j.read_request (j.write_request r) ≡ some r
  pub notification_back :
      (n : Notification)
      → StableNotification j n
      → j.read_notification (j.write_notification n) ≡ some n
  pub request_compact : (r : Request) → StableRequest j r → j.compact (j.write_request r) ≡ true
  pub notification_compact :
      (n : Notification) → StableNotification j n → j.compact (j.write_notification n) ≡ true
  pub array_back :
      (raws : List Text)
      → All (λ raw. j.compact raw ≡ true) raws
      → j.read_array (j.write_array raws) ≡ some (some raws)

-- A message as NewRequest and NewNotification make it, with a method and, for a request, an id.
abbrev pub IsProper : Json → BatchItem → Type 0
IsProper j (request r) =
    StableRequest j r × (text_eq r.id null ≡ false) × (text_eq r.method [] ≡ false)
IsProper j (notification n) = StableNotification j n × (text_eq n.method [] ≡ false)
IsProper j other = ⊥
