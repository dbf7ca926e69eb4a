-- ===== src/Server/Listing/Orders.antt =====
-- ListTools of pkg/server/providers.go: pages of calls that range over the map in different orders.
use mcp_sdk_go.Base.Int.{pos, max_int}
use mcp_sdk_go.Base.Text.{Text}
use mcp_sdk_go.Base.{
  ℕ, ◌+◌, ◌≤◌, ◌<◌, ◌≡◌, ◌∙◌, refl, sym, ap, true, false, List, [], ◌∷◌, ◌++◌, length, take, drop,
  length-append, take_of_length_le, some, arith,
}
use mcp_sdk_go.Server.Cursor.{
  Encoding, encode_cursor, decode_cursor-nil, decode_cursor-encode_cursor,
}
use mcp_sdk_go.Server.Listing.{listed, Tool, BaseToolsProvider, list_tools}
use mcp_sdk_go.Server.Listing.Pages.{page_of, tools_in, list_tools_page}

take-append {ℓ} : {A : Type ℓ} (xs ys : List A) → take (length xs) (xs ++ ys) ≡ xs
take-append [] ys = refl
take-append (x ∷ xs) ys = ap (◌∷◌ x) (take-append xs ys)

drop-append {ℓ} : {A : Type ℓ} (xs ys : List A) → drop (length xs) (xs ++ ys) ≡ ys
drop-append [] ys = refl
drop-append (x ∷ xs) ys = drop-append xs ys

drop_past : (xs ys : List Tool) (n : ℕ) → n ≡ length xs → drop n (xs ++ ys) ≡ ys
drop_past xs ys n e = rw e (drop-append xs ys)

first_page :
    (c : Encoding) (tools xs ys : List Tool)
    → tools ≡ xs ++ ys
    → 0 < length ys
    → (length tools ≡ length xs + length ys)
      × (page_of c tools (length xs) 0 ≡ record {
        items = xs;
        total = length tools;
        next_cursor = encode_cursor c (pos (length xs));
        has_more = true;
      })
first_page c tools xs ys e h =
    rw e (length-append xs ys, ground (arith, take-append xs ys, length-append xs ys))

second_page :
    (c : Encoding) (tools xs ys : List Tool)
    → tools ≡ ys ++ xs
    → length ys ≡ length xs
    → (length tools ≡ length ys + length xs)
      × (page_of c tools (length xs) (length xs)
          ≡ record { items = xs; total = length tools; next_cursor = []; has_more = false })
second_page c tools xs ys e h = rw e (
  length-append ys xs,
  ground (
    arith,
    drop_past ys xs (length xs) (sym h),
    length-append ys xs,
    take_of_length_le (length xs) xs,
  ),
)

-- Go leaves the order of a range over a map open, and every call may take another. If the tools are
-- two pages long and the second call meets the two halves the other way round, it returns the first
-- page again and says that nothing is left: the other half is never listed.
pub list_tools_repeats :
    (c : Encoding) (order order' : List Tool → List Tool) (p : BaseToolsProvider) (category : Text)
    (xs ys : List Tool)
    → tools_in order p category ≡ xs ++ ys
    → tools_in order' p category ≡ ys ++ xs
    → length ys ≡ length xs
    → 0 < length xs
    → length xs + length xs ≤ max_int
    → let limit = pos (length xs) in
      (list_tools c order p category (some (record { limit = limit; cursor = [] }))
        ≡ listed (record {
          items = xs;
          total = length (tools_in order p category);
          next_cursor = encode_cursor c limit;
          has_more = true;
        }))
      × (list_tools c order' p category
            (some (record { limit = limit; cursor = encode_cursor c limit }))
          ≡ listed (record {
            items = xs;
            total = length (tools_in order' p category);
            next_cursor = [];
            has_more = false;
          }))
list_tools_repeats c order order' p category xs ys e e' same h b =
    let (total, first) = first_page c (tools_in order p category) xs ys e (omega arith) in
    let (total', second) = second_page c (tools_in order' p category) xs ys e' same in
    (
      list_tools_page c order p category _ (length xs) 0 refl h (decode_cursor-nil c) (omega arith)
            (omega arith)
          ∙ ap listed first,
      list_tools_page c order' p category _ (length xs) (length xs) refl h
            (decode_cursor-encode_cursor c (length xs) (omega arith)) (omega arith) b
          ∙ ap listed second,
    )
