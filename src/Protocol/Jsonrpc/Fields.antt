-- ===== src/Protocol/Jsonrpc/Fields.antt =====
-- The tests of pkg/protocol/jsonrpc.go that tell a request from a notification, by the fields of a message.
use mcp_sdk_go.Base.Text.{codes, text_eq_iff}
use mcp_sdk_go.Base.{◌≡◌, ◌≢◌, refl, true, [], Option, none, some, arith}
use mcp_sdk_go.Protocol.Jsonrpc.{
  jsonrpc_version, null, MessageFields, fields_are_request, fields_are_notification,
}

-- A message of JSON-RPC 2.0 that has a method, by its fields: with an id it is a request, and with none
-- a notification.
abbrev pub Calls : Option MessageFields → Type 0
Calls fields =
    (m : MessageFields) × (fields ≡ some m)
    × (m.jsonrpc ≡ codes "2.0")
    × (m.method ≢ [])
    × (m.id ≢ codes "null")

abbrev pub Notes : Option MessageFields → Type 0
Notes fields =
    (m : MessageFields) × (fields ≡ some m)
    × (m.jsonrpc ≡ codes "2.0")
    × (m.method ≢ [])
    × (m.id ≡ codes "null")

pub fields_are_request-Calls :
    (fields : Option MessageFields) → fields_are_request fields ≡ true → Calls fields
unfolding fields_are_request
fields_are_request-Calls none h = cc
fields_are_request-Calls (some m) h = (
  m,
  refl,
  ground (arith, text_eq_iff m.jsonrpc jsonrpc_version),
  λ e. ground (arith, text_eq_iff m.method []),
  λ e. ground (arith, text_eq_iff m.id null),
)

pub Calls-fields_are_request :
    (fields : Option MessageFields) → Calls fields → fields_are_request fields ≡ true
unfolding fields_are_request
Calls-fields_are_request fields (m, e, v, named, ided) =
    rw (e, fields_are_request)
      (ground (
        arith,
        text_eq_iff m.jsonrpc jsonrpc_version,
        text_eq_iff m.method [],
        text_eq_iff m.id null,
      ))

pub fields_are_notification-Notes :
    (fields : Option MessageFields) → fields_are_notification fields ≡ true → Notes fields
unfolding fields_are_notification
fields_are_notification-Notes none h = cc
fields_are_notification-Notes (some m) h = (
  m,
  refl,
  ground (arith, text_eq_iff m.jsonrpc jsonrpc_version),
  λ e. ground (arith, text_eq_iff m.method []),
  ground (arith, text_eq_iff m.id null),
)

pub Notes-fields_are_notification :
    (fields : Option MessageFields) → Notes fields → fields_are_notification fields ≡ true
unfolding fields_are_notification
Notes-fields_are_notification fields (m, e, v, named, bare) =
    rw (e, fields_are_notification)
      (ground (
        arith,
        text_eq_iff m.jsonrpc jsonrpc_version,
        text_eq_iff m.method [],
        text_eq_iff m.id null,
      ))
