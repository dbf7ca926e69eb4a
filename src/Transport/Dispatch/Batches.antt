-- ===== src/Transport/Dispatch/Batches.antt =====
-- HandleBatchRequest of pkg/transport/transport.go: which responses a batch gets.
use mcp_sdk_go.Base.Text.{Text}
use mcp_sdk_go.Base.Dict.{lookup}
use mcp_sdk_go.Base.{
  ◌≡◌, ◌≢◌, ◌⊎◌, inl, inr, refl, ap, ◌∙◌, subst, sym, List, [], ◌∷◌, map, In, none, some,
  Option-cases,
}
use mcp_sdk_go.Transport.Dispatch.{
  Request, Response, Handled, returns, unmarshalable, fails, panics, BaseTransport, respond,
  handle_request, BatchItem, request, notification, other, as_response, handle_items,
  batch_response, handle_batch_request,
}

-- The ids of the requests of a batch.
abbrev pub request_ids : List BatchItem → List Text
request_ids [] = []
request_ids (request r ∷ items) = r.id ∷ request_ids items
request_ids (notification n ∷ items) = request_ids items
request_ids (other ∷ items) = request_ids items

-- A response has a result or an error, and not both.
pub record Proper (id : Text) (r : Response) : Type 0 where
  pub same_id : r.id ≡ id
  pub one_outcome : ((r.error ≡ none) × (r.result ≢ none)) ⊎ ((r.error ≢ none) × (r.result ≡ none))

respond-Proper : (r : Request) (h : Handled) → Proper r.id (respond r h)
unfolding respond
respond-Proper r (returns json) = record { same_id = refl; one_outcome = inl (refl, λ e. cc) }
respond-Proper r (unmarshalable t) = record { same_id = refl; one_outcome = inr (λ e. cc, refl) }
respond-Proper r (fails t) = record { same_id = refl; one_outcome = inr (λ e. cc, refl) }
respond-Proper r panics = record { same_id = refl; one_outcome = inr (λ e. cc, refl) }

handle_request-Proper :
    (t : BaseTransport) (r : Request) → Proper r.id (as_response r (handle_request t r))
unfolding handle_request as_response
handle_request-Proper t r = elim (Option-cases (lookup r.method t.request_handlers)) [
  | inl missing ↦
      rw (missing, handle_request) (record { same_id = refl; one_outcome = inr (λ e. cc, refl) })
  | inr (h, found) ↦ rw (found, handle_request) (respond-Proper r (h r.params))
]

handle_items_ids :
    (t : BaseTransport) (items : List BatchItem)
    → map (λ (r : Response). r.id) (handle_items t items) ≡ request_ids items
unfolding handle_items
handle_items_ids t [] = refl
handle_items_ids t (request r ∷ items) =
    ap (λ i. i ∷ map (λ (s : Response). s.id) (handle_items t items))
      (handle_request-Proper t r).same_id
    ∙ ap (◌∷◌ r.id) (handle_items_ids t items)
handle_items_ids t (notification n ∷ items) = handle_items_ids t items
handle_items_ids t (other ∷ items) = handle_items_ids t items

handle_items-Proper :
    (t : BaseTransport) (items : List BatchItem) (r : Response)
    → In r (handle_items t items)
    → Proper r.id r
unfolding handle_items
handle_items-Proper t [] r m = absurd m
handle_items-Proper t (request q ∷ items) r (inl e) =
    let p = handle_request-Proper t q in
    subst (λ s. Proper s.id s) (sym e) (record { same_id = refl; one_outcome = p.one_outcome })
handle_items-Proper t (request q ∷ items) r (inr m) = handle_items-Proper t items r m
handle_items-Proper t (notification n ∷ items) r m = handle_items-Proper t items r m
handle_items-Proper t (other ∷ items) r m = handle_items-Proper t items r m

-- A batch that is not empty gets one response for each of its requests, in their order and with their
-- ids, and none for a notification, whatever the handlers do; each response has either a result or
-- an error.
pub handle_batch_request_responses :
    (t : BaseTransport) (item : BatchItem) (items : List BatchItem)
    → (rs : List Response) × (handle_batch_request t (some (item ∷ items)) ≡ batch_response rs)
      × (map (λ (r : Response). r.id) rs ≡ request_ids (item ∷ items))
      × ((r : Response) → In r rs → Proper r.id r)
unfolding handle_batch_request
handle_batch_request_responses t item items = (
  handle_items t (item ∷ items),
  refl,
  handle_items_ids t (item ∷ items),
  handle_items-Proper t (item ∷ items),
)
