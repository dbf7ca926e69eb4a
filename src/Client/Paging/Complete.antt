-- ===== src/Client/Paging/Complete.antt =====
-- pkg/client/pagination.go against the listings of pkg/server/providers.go: the pages together.
use mathlib.Core.List.{Permᴰ}
use mcp_sdk_go.Base.Int.{pos, max_int}
use mcp_sdk_go.Base.Text.{Text}
use mcp_sdk_go.Base.{
  ℕ, zero, suc, ◌+◌, ◌-◌, ◌≤◌, ◌<◌, ◌≡◌, ◌∙◌, inl, inr, refl, sym, ap, true, false, List, [], ◌++◌,
  All, In, length, take, drop, Option, none, some, arith, ltb, lt→ltb, Bool-cases, append_assoc,
}
use mcp_sdk_go.Pagination.{
  PaginationParams, PaginationResult, validate_params, apply_defaults, Collector, new_collector,
  update, next_params,
}
use mcp_sdk_go.Pagination.Limits.{InLimits, apply_defaults_kept, apply_defaults-InLimits}
use mcp_sdk_go.Server.Cursor.{
  Encoding, offset, encode_cursor, decode_cursor, encode_cursor_nonempty,
  decode_cursor-encode_cursor, decode_cursor-nil,
}
use mcp_sdk_go.Server.Listing.{Listing, paginate, values, Tool, BaseToolsProvider, list_tools}
use mcp_sdk_go.Server.Listing.Shuffled.{Permᴰ-length, All-perm, All-In, select-perm}
use mcp_sdk_go.Server.Listing.Pages.{page_of, paginate_page, paginate_beyond, tools_in}
use mcp_sdk_go.Client.Paging.{
  ok, Fetched, fetched, fetch_pages, fetch_all_pages, reply_of, client_list, list_all,
}
use mcp_sdk_go.Client.Paging.Gathered.{
  gathered, gathered_on, gathered_end, nothing_first, length-gathered_all, All-gathered,
}

valid : (p : PaginationParams) → InLimits p → validate_params (some p) ≡ none
unfolding validate_params
valid p h = ground arith

module _ {A : Type 0} (fetch : ℕ → PaginationParams → Fetched A) (f n : ℕ) (collector : Collector)
    (params : PaginationParams) (acc items : List A) (result : Option (PaginationResult A))
    (more : collector.has_more ≡ true) (e : fetch n params ≡ fetched result items) where
  round_last :
      (update collector result).has_more ≡ false
      → fetch_pages fetch (suc f) n collector params acc ≡ some (ok (acc ++ items))
  unfolding fetch_pages
  round_last h = rw (more, fetch_pages) (rw e (rw h))

  round_more :
      (update collector result).has_more ≡ true
      → fetch_pages fetch (suc f) n collector params acc
        ≡ fetch_pages fetch f
            (suc n)
            (update collector result)
            (next_params (update collector result) (some params))
            (acc ++ items)
  unfolding fetch_pages
  round_more h = simp (fetch_pages, more, e, h)

module _ (c : Encoding) {A : Type 0} (items : ℕ → List A) (total : ℕ) where
  -- A server whose `n`-th call lists `items n`.
  abbrev server : ℕ → PaginationParams → Listing A
  server n params = paginate c (items n) (some params)

  -- A call of a client with parameters within the limits reaches the server unchanged.
  client_list_valid :
      (n : ℕ) (params : PaginationParams)
      → InLimits params
      → client_list server n params ≡ reply_of (paginate c (items n) (some params))
  unfolding client_list
  client_list_valid n params h =
      rw (valid params h, client_list) (rw (apply_defaults_kept params h))

  next_kept :
      (collector : Collector) (params : PaginationParams)
      → InLimits params
      → next_params collector (some params) ≡ record params { cursor = collector.next_cursor }
  unfolding next_params
  next_kept collector params h = rw (apply_defaults_kept params h)

  -- What the collector makes of a page.
  page_reply : ℕ → ℕ → ℕ → PaginationResult A
  page_reply n l start = record {
    items = [];
    total_count = pos (length (items n));
    next_cursor = (page_of c (items n) l start).next_cursor;
    has_more = (page_of c (items n) l start).has_more;
  }

  page_goes_on :
      (collector : Collector) (n l start : ℕ)
      → start + l < length (items n)
      → ((update collector (some (page_reply n l start))).has_more ≡ true)
        × ((update collector (some (page_reply n l start))).next_cursor
            ≡ encode_cursor c (pos (start + l)))
  unfolding update page_reply
  page_goes_on collector n l start h =
      rw (lt→ltb _ _ h) (rw (encode_cursor_nonempty c (pos (start + l))) (refl, refl))

  page_ends :
      (collector : Collector) (n l start : ℕ)
      → length (items n) ≤ start + l
      → (update collector (some (page_reply n l start))).has_more ≡ false
  unfolding update page_reply
  page_ends collector n l start h = ground arith

  reply :
      (n : ℕ) (params : PaginationParams) (start l : ℕ)
      → InLimits params
      → params.limit ≡ pos l
      → decode_cursor c params.cursor ≡ offset start
      → start < length (items n)
      → length (items n) + 200 ≤ max_int
      → client_list server n params
        ≡ fetched (some (page_reply n l start)) (take l (drop start (items n)))
  unfolding page_reply
  reply n params start l lim el ec k b =
      client_list_valid n params lim
      ∙ ap reply_of (paginate_page c (items n) params l start el (ground arith) ec k (ground arith))

  module _ (same : (n : ℕ) → length (items n) ≡ total) (b : total + 200 ≤ max_int) where
    -- From an offset within the items the loop adds the pages that are left.
    collects :
        (f n : ℕ) (collector : Collector) (params : PaginationParams) (acc : List A) (start l : ℕ)
        → collector.has_more ≡ true
        → InLimits params
        → params.limit ≡ pos l
        → decode_cursor c params.cursor ≡ offset start
        → start < total
        → total - start ≤ f
        → fetch_pages (client_list server) f n collector params acc
          ≡ some (ok (acc ++ gathered items total f n l start))
    collects zero n collector params acc start l more lim el ec k fuel = absurd (omega arith)
    collects (suc f) n collector params acc start l more lim el ec k fuel =
        let replied = reply n params start l lim el ec (rw (sym (same n)) at k) (rw (same n) b) in
        elim (Bool-cases (ltb (start + l) total)) [
          | inr short ↦
              round_last (client_list server) f n collector params acc _ _ more replied
                (page_ends collector n l start (ground (arith, same n)))
              ∙ ap (λ (xs : List A). some (ok (acc ++ xs)))
                  (sym (gathered_end items total f n l start short))
          | inl rest ↦
              let on = page_goes_on collector n l start (ground (arith, same n)) in
              round_more (client_list server) f n collector params acc
                (take l (drop start (items n))) (some (page_reply n l start)) more replied on.0
              ∙ (rw (next_kept (update collector (some (page_reply n l start))) params lim) (
                  collects f (suc n) (update collector (some (page_reply n l start)))
                    (record params {
                      cursor = (update collector (some (page_reply n l start))).next_cursor;
                    })
                    (acc ++ take l (drop start (items n))) (start + l) l on.0 lim el
                    (rw on.1 (decode_cursor-encode_cursor c (start + l) (ground arith)))
                    (ground arith) (ground arith)))
              ∙ ap (λ (xs : List A). some (ok xs))
                  (append_assoc acc (take l (drop start (items n)))
                      (gathered items total f (suc n) l (start + l))
                    ∙ ap (◌++◌ acc) (sym (gathered_on items total f n l start rest)))
        ]

    empty_reply : PaginationResult A
    empty_reply = record {
      items = [];
      total_count = pos (length (items 0));
      next_cursor = [];
      has_more = false;
    }

    reply_to_first :
        ltb 0 total ≡ false
        → client_list server 0 (apply_defaults none) ≡ fetched (some empty_reply) []
    unfolding apply_defaults empty_reply
    reply_to_first h =
        client_list_valid 0 _ (ground arith)
        ∙ ap reply_of
            (paginate_beyond c (items 0) _ 0 (decode_cursor-nil c) (ground (arith, same 0)))

    empty_ends : (update new_collector (some empty_reply)).has_more ≡ false
    unfolding update new_collector empty_reply
    empty_ends = refl

    -- The first call has no cursor, and the default limit.
    collects_all :
        (fuel : ℕ)
        → total < fuel
        → fetch_all_pages (client_list server) fuel none
          ≡ some (ok (gathered items total fuel 0 50 0))
    unfolding fetch_all_pages validate_params new_collector apply_defaults
    collects_all zero h = absurd (omega arith)
    collects_all (suc f) h = elim (Bool-cases (ltb 0 total)) [
      | inl some_left ↦
          collects (suc f) 0 _ _ [] 0 50 refl (apply_defaults-InLimits none) refl
            (decode_cursor-nil c) (ground arith) (omega arith)
      | inr h' ↦
          round_last (client_list server) f 0 _ _ [] [] (some empty_reply) refl (reply_to_first h')
            empty_ends
          ∙ ap (λ (xs : List A). some (ok xs)) (sym (nothing_first items total same f h'))
    ]

-- ListAllTools, from a server whose listings range over the map of tools in any order, another one at
-- each call, ends after at most one call for each tool and one more. The result is the first 50 tools of
-- the first listing, the next 50 of the second, and so on: it has as many tools as the server has in the
-- category, and each of them is one of these. The number of tools leaves room for a limit below the
-- range of an int.
pub list_all-tools :
    (c : Encoding) (orders : ℕ → List Tool → List Tool) (p : BaseToolsProvider) (category : Text)
    (fuel : ℕ)
    → ((n : ℕ) → Permᴰ (orders n (values p.tools)) (values p.tools))
    → let tools = tools_in (λ ts. ts) p category in
      length tools + 200 ≤ max_int
      → length tools < fuel
      → (xs : List Tool) × (list_all true
            (λ n params. list_tools c (orders n) p category (some params))
            fuel
          ≡ some (ok xs))
        × (xs ≡ gathered (λ n. tools_in (orders n) p category) (length tools) fuel 0 50 0)
        × (length xs ≡ length tools)
        × All (λ tool. In tool tools) xs
unfolding list_all list_tools
list_all-tools c orders p category fuel perms b enough =
    let tools = tools_in (λ ts. ts) p category in
    let items : ℕ → List Tool = λ n. tools_in (orders n) p category in
    let shuffled : (n : ℕ) → Permᴰ (items n) tools =
      λ n. select-perm (λ (t : Tool). t.categories) category (perms n) in
    let same : (n : ℕ) → length (items n) ≡ length tools = λ n. Permᴰ-length (shuffled n) in
    (
      gathered items (length tools) fuel 0 50 0,
      collects_all c items (length tools) same b fuel enough,
      refl,
      length-gathered_all items (length tools) same fuel enough,
      All-gathered items (length tools) same (λ tool. In tool tools) fuel 0 50 0
          (λ n. All-perm (λ tool. In tool tools) (shuffled n) (All-In tools)),
    )
