-- ===== src/Client/Paging.antt =====
-- pkg/client/pagination.go, and ListTools of pkg/client/client.go as the function that it fetches a
-- page with. The request and its answer are handed over as values: their JSON, and the errors of the
-- transport, are one outcome, `failed`.
pub mod Gathered
pub mod Complete
use mcp_sdk_go.Base.Int.{ℤ, pos}
use mcp_sdk_go.Base.{
  ℕ, zero, suc, Bool, true, false, List, [], ◌++◌, Option, none, some, if◌then◌else◌,
}
use mcp_sdk_go.Pagination.{
  PaginationParams, PaginationResult, LimitError, validate_params, apply_defaults, Collector,
  new_collector, update, next_params,
}
use mcp_sdk_go.Server.Listing.{Page, Listing, listed, invalid_pagination, panicked}

-- One call of the fetch function: the pagination, and items of a type that the loop knows or not.
pub data Fetched (A : Type 0) : Type 0 where
  fetched : Option (PaginationResult A) → List A → Fetched A
  unsupported : Option (PaginationResult A) → Fetched A
  failed : Fetched A

pub data FetchError : Type 0 where
  invalid_params : LimitError → FetchError
  fetch_failed unsupported_items capability_required : FetchError

pub data Collected {ℓ} (A : Type ℓ) : Type ℓ where
  ok : List A → Collected A
  err : FetchError → Collected A

module _ {A : Type 0} (fetch : ℕ → PaginationParams → Fetched A) where
  -- The loop, whose `n`-th round makes the `n`-th call. `none` means that the fuel ran out: a server
  -- can offer one more page for ever.
  unfoldable pub fetch_pages : ℕ → ℕ → Collector → PaginationParams → List A → Option (Collected A)
  fetch_pages zero n collector params all_results = none
  fetch_pages (suc f) n collector params all_results = elim collector.has_more [
    | false ↦ some (ok all_results)
    | true ↦ elim (fetch n params) [
      | failed ↦ some (err fetch_failed)
      | unsupported result ↦ some (err unsupported_items)
      | fetched result items ↦
          let collected = update collector result in
          elim collected.has_more [
            | false ↦ some (ok (all_results ++ items))
            | true ↦
                fetch_pages f (suc n) collected (next_params collected (some params))
                  (all_results ++ items)
          ]
    ]
  ]

  unfoldable pub fetch_all_pages : ℕ → Option PaginationParams → Option (Collected A)
  fetch_all_pages fuel initial_params = elim (validate_params initial_params) [
    | some e ↦ some (err (invalid_params e))
    | none ↦ fetch_pages fuel 0 new_collector (apply_defaults initial_params) []
  ]

-- What ListTools makes of a listing: its items, and the rest without them.
abbrev pub reply_of : {A : Type 0} → Listing A → Fetched A
reply_of (listed page) =
    fetched
      (some (record {
        items = [];
        total_count = pos page.total;
        next_cursor = page.next_cursor;
        has_more = page.has_more;
      }))
      page.items
reply_of (invalid_pagination e) = failed
reply_of panicked = failed

-- ListTools validates the parameters and applies the defaults once more.
unfoldable pub client_list :
    {A : Type 0} → (ℕ → PaginationParams → Listing A) → ℕ → PaginationParams → Fetched A
client_list server n params = elim (validate_params (some params)) [
  | some e ↦ failed
  | none ↦ reply_of (server n (apply_defaults (some params)))
]

-- ListAllTools, ListAllPrompts and ListAllRoots, for a client that has the capability or not.
unfoldable pub list_all :
    {A : Type 0} → Bool → (ℕ → PaginationParams → Listing A) → ℕ → Option (Collected A)
list_all has_capability server fuel =
    if has_capability
    then fetch_all_pages (client_list server) fuel none
    else some (err capability_required)
