-- ===== src/Protocol/Jsonrpc/Reading.antt =====
-- What the parsing of batches in pkg/protocol/jsonrpc.go accepts.
use mcp_sdk_go.Base.Text.{Text}
use mcp_sdk_go.Base.{
  ℕ, ◌+◌, ◌≡◌, ◌≢◌, ◌↔◌, ◌⊎◌, sym, refl, ◌∙◌, inl, inr, true, false, List, [], ◌∷◌, Option, none,
  some, arith, Bool-cases,
}
use mcp_sdk_go.Transport.Dispatch.{Request, Notification, BatchItem, request, notification, other}
use mcp_sdk_go.Protocol.Jsonrpc.{
  Json, fields_are_request, fields_are_notification, Batched, batch, batch_error,
}
use mcp_sdk_go.Protocol.Jsonrpc.Kinds.{
  is_request, is_notification, is_batch, parse_item, parse_items, elements, parse_batch_request,
  put_item,
}
use mcp_sdk_go.Protocol.Jsonrpc.Fields.{
  Calls, Notes, fields_are_request-Calls, Calls-fields_are_request, fields_are_notification-Notes,
  Notes-fields_are_notification,
}

-- Each element of a text that is parsed becomes the request or the notification that it is.
abbrev pub Reads : Json → List Text → List BatchItem → Type 0
Reads j [] [] = Unit
Reads j [] (item ∷ items) = ⊥
Reads j (raw ∷ raws) [] = ⊥
Reads j (raw ∷ raws) (request r ∷ items) =
    Calls (j.message_fields raw) × (j.read_request raw ≡ some r) × Reads j raws items
Reads j (raw ∷ raws) (notification n ∷ items) =
    Notes (j.message_fields raw) × (j.read_notification raw ≡ some n) × Reads j raws items
Reads j (raw ∷ raws) (other ∷ items) = ⊥

-- An array with elements, or nothing of the kind.
array_cases :
    (a : Option (Option (List Text)))
    → (elements a ≡ []) ⊎ ((raw : Text) × (raws : List Text) × (a ≡ some (some (raw ∷ raws))))
array_cases none = inl refl
array_cases (some none) = inl refl
array_cases (some (some [])) = inl refl
array_cases (some (some (raw ∷ raws))) = inr (raw, raws, refl)

module _ (j : Json) where
  parse_item-request :
      (i : ℕ) (raw : Text) (r : Request)
      → parse_item j i raw ≡ batch (request r)
      → (is_request j raw ≡ true) × (j.read_request raw ≡ some r)
  unfolding parse_item
  parse_item-request i raw r h = ground arith

  parse_item-notification :
      (i : ℕ) (raw : Text) (n : Notification)
      → parse_item j i raw ≡ batch (notification n)
      → (is_notification j raw ≡ true) × (j.read_notification raw ≡ some n)
  unfolding parse_item
  parse_item-notification i raw n h = ground arith

  parse_item-other : (i : ℕ) (raw : Text) → parse_item j i raw ≢ batch other
  unfolding parse_item
  parse_item-other i raw h = ground arith

  put_item-batch :
      (first : Batched BatchItem) (rest : Batched (List BatchItem)) (items : List BatchItem)
      → put_item first rest ≡ batch items
      → (item : BatchItem) × (tail : List BatchItem) × (first ≡ batch item)
        × (rest ≡ batch tail)
        × (items ≡ item ∷ tail)
  put_item-batch (batch item) (batch tail) items h = (item, tail, refl, refl, ground arith)
  put_item-batch (batch item) (batch_error e) items h = cc
  put_item-batch (batch_error e) rest items h = cc

  parse_items-Reads :
      (i : ℕ) (raws : List Text) (items : List BatchItem)
      → parse_items j i raws ≡ batch items
      → Reads j raws items
  unfolding parse_items is_request is_notification
  parse_items-Reads i [] [] h = tt
  parse_items-Reads i [] (item ∷ items) h = cc
  parse_items-Reads i (raw ∷ raws) items h =
      let (item, tail, first, rest, e) =
        put_item-batch (parse_item j i raw) (parse_items j (i + 1) raws) items h in
      let r = parse_items-Reads (i + 1) raws tail rest in
      rw e (reads_cons i raw raws item tail first r)
    where
      reads_cons :
          (i : ℕ) (raw : Text) (raws : List Text) (item : BatchItem) (tail : List BatchItem)
          → parse_item j i raw ≡ batch item
          → Reads j raws tail
          → Reads j (raw ∷ raws) (item ∷ tail)
      reads_cons i raw raws (request r) tail first rest =
          let (a, b) = parse_item-request i raw r first in
          (fields_are_request-Calls (j.message_fields raw) a, b, rest)
      reads_cons i raw raws (notification n) tail first rest =
          let (a, b) = parse_item-notification i raw n first in
          (fields_are_notification-Notes (j.message_fields raw) a, b, rest)
      reads_cons i raw raws other tail first rest = absurd (parse_item-other i raw first)

  not_both : (raw : Text) → is_notification j raw ≡ true → is_request j raw ≡ false
  unfolding is_notification is_request fields_are_notification fields_are_request
  not_both raw h = ground arith

  request_fields_pass : (raw : Text) → Calls (j.message_fields raw) → is_request j raw ≡ true
  unfolding is_request
  request_fields_pass raw calls = Calls-fields_are_request (j.message_fields raw) calls

  notification_fields_pass :
      (raw : Text) → Notes (j.message_fields raw) → is_notification j raw ≡ true
  unfolding is_notification
  notification_fields_pass raw notes = Notes-fields_are_notification (j.message_fields raw) notes

  Reads-parse_items :
      (i : ℕ) (raws : List Text) (items : List BatchItem)
      → Reads j raws items
      → parse_items j i raws ≡ batch items
  unfolding parse_items parse_item
  Reads-parse_items i [] [] h = refl
  Reads-parse_items i [] (item ∷ items) h = absurd h
  Reads-parse_items i (raw ∷ raws) [] h = absurd h
  Reads-parse_items i (raw ∷ raws) (request r ∷ items) (calls, b, h) =
      let a = request_fields_pass raw calls in
      rw (a, b, Reads-parse_items (i + 1) raws items h) refl
  Reads-parse_items i (raw ∷ raws) (notification n ∷ items) (notes, b, h) =
      let a = notification_fields_pass raw notes in
      rw (not_both raw a, a, b, Reads-parse_items (i + 1) raws items h) refl
  Reads-parse_items i (raw ∷ raws) (other ∷ items) h = absurd h

  parse_batch_request-elements :
      (bytes raw : Text) (raws : List Text)
      → j.read_array bytes ≡ some (some (raw ∷ raws))
      → parse_batch_request j bytes ≡ parse_items j 0 (raw ∷ raws)
  unfolding parse_batch_request is_batch
  parse_batch_request-elements bytes raw raws e =
      let there : is_batch j bytes ≡ true = rw (e, is_batch) refl in rw there (rw e refl)

  parse_batch_request-empty :
      (bytes : Text) (items : List BatchItem)
      → elements (j.read_array bytes) ≡ []
      → parse_batch_request j bytes ≢ batch items
  unfolding parse_batch_request
  parse_batch_request-empty bytes items e h = elim (Bool-cases (is_batch j bytes)) [
    | inl there ↦ let q = rw (there, e) at h in cc
    | inr not_there ↦ let q = rw not_there at h in cc
  ]

  -- Parsing a batch of requests succeeds exactly for an array that is not empty and whose elements can be
  -- read and are each of version 2.0 with a method that is not empty: those with an id become requests
  -- and those without one notifications, in their order.
  pub parse_batch_request-Reads :
      (bytes : Text) (items : List BatchItem)
      → (parse_batch_request j bytes ≡ batch items) ↔ (
          (raw : Text) × (raws : List Text) × (j.read_array bytes ≡ some (some (raw ∷ raws)))
          × Reads j (raw ∷ raws) items)
  parse_batch_request-Reads bytes items = (
    λ h. elim (array_cases (j.read_array bytes)) [
      | inl bad ↦ absurd (parse_batch_request-empty bytes items bad h)
      | inr (raw, raws, e) ↦ (
        raw,
        raws,
        e,
        parse_items-Reads 0 (raw ∷ raws) items
            (sym (parse_batch_request-elements bytes raw raws e) ∙ h),
      )
    ],
    λ (raw, raws, e, h).
        parse_batch_request-elements bytes raw raws e ∙ Reads-parse_items 0 (raw ∷ raws) items h,
  )
