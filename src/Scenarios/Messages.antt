-- ===== src/Scenarios/Messages.antt =====
-- pkg/protocol/jsonrpc.go: batches over an encoding in place of JSON that has its laws. A text is its
-- bytes, each one more, up to a zero; an array begins with its length.
use mcp_sdk_go.Base.Text.{Text, codes, text_eq}
use mcp_sdk_go.Base.{ℕ, zero, suc, ◌≡◌, refl, ◌↔◌, true, List, [], ◌∷◌, length, Option, none, some}
use mcp_sdk_go.Transport.Dispatch.{BatchItem, request, notification}
use mcp_sdk_go.Protocol.Jsonrpc.{
  null, Json, batch, batch_error, bad_object, fields_are_request, fields_are_notification,
}
use mcp_sdk_go.Protocol.Jsonrpc.Kinds.{
  parse_batch_request, parse_items, parse_item, is_batch, is_request, is_notification, write_item,
}
use mcp_sdk_go.Protocol.Jsonrpc.Reading.{Reads, parse_batch_request-Reads}

abbrev pub enclose : Text → Text → Text
enclose [] rest = 0 ∷ rest
enclose (c ∷ t) rest = suc c ∷ enclose t rest

abbrev pub push_byte : ℕ → Text × Text → Text × Text
push_byte c (t, rest) = (c ∷ t, rest)

abbrev pub split : Text → Text × Text
split [] = ([], [])
split (zero ∷ t) = ([], t)
split (suc c ∷ t) = push_byte c (split t)

abbrev pub four : Text → Text → Text → Text → Text
four a b c d = enclose a (enclose b (enclose c (enclose d [])))

abbrev pub part1 : Text → Text
part1 t = (split t).0

abbrev pub part2 : Text → Text
part2 t = part1 (split t).1

abbrev pub part3 : Text → Text
part3 t = part2 (split t).1

abbrev pub part4 : Text → Text
part4 t = part3 (split t).1

abbrev pub enclose_all : List Text → Text
enclose_all [] = []
enclose_all (t ∷ ts) = enclose t (enclose_all ts)

abbrev pub split_all : ℕ → Text → List Text
split_all zero t = []
split_all (suc n) t = (split t).0 ∷ split_all n (split t).1

abbrev pub read_list : Text → Option (Option (List Text))
read_list [] = none
read_list (n ∷ t) = some (some (split_all n t))

abbrev pub plain_json : Json
plain_json = record {
  message_fields = λ t. some (record { jsonrpc = part1 t; id = part2 t; method = part3 t });
  response_fields = λ t. none;
  read_request =
      λ t. some (record { jsonrpc = part1 t; id = part2 t; method = part3 t; params = part4 t });
  read_notification = λ t. some (record { jsonrpc = part1 t; method = part3 t; params = part4 t });
  read_array = read_list;
  read_responses = λ t. none;
  write_request = λ r. four r.jsonrpc r.id r.method r.params;
  write_notification = λ n. four n.jsonrpc null n.method n.params;
  write_array = λ ts. length ts ∷ enclose_all ts;
  stable = λ t. true;
  compact = λ t. true;
}

abbrev call : BatchItem
call =
    request
      (record { jsonrpc = codes "2.0"; id = codes "1"; method = codes "ping"; params = codes "{}" })

abbrev note : BatchItem
note = notification (record { jsonrpc = codes "2.0"; method = codes "initialized"; params = [] })

-- The JSON of a call and a note.
abbrev written : Text
written = plain_json.write_array (write_item plain_json call ∷ write_item plain_json note ∷ [])

parse_batch_request-Reads_example :
    (parse_batch_request plain_json written ≡ batch (call ∷ note ∷ [])) ↔ (
      (raw : Text) × (raws : List Text) × (plain_json.read_array written ≡ some (some (raw ∷ raws)))
      × Reads plain_json (raw ∷ raws) (call ∷ note ∷ []))
parse_batch_request-Reads_example = parse_batch_request-Reads plain_json written (call ∷ note ∷ [])

-- Both sides hold there.
written_is_read : parse_batch_request plain_json written ≡ batch (call ∷ note ∷ [])
unfolding parse_batch_request parse_items parse_item is_batch is_request is_notification write_item
    fields_are_request fields_are_notification text_eq
written_is_read = refl

-- A version other than 2.0 is refused.
abbrev old_call : Text
old_call = plain_json.write_array (four (codes "1.0") (codes "1") (codes "ping") (codes "{}") ∷ [])

old_is_refused : parse_batch_request plain_json old_call ≡ batch_error (bad_object 0)
unfolding parse_batch_request parse_items parse_item is_batch is_request is_notification write_item
    fields_are_request fields_are_notification text_eq
old_is_refused = refl
