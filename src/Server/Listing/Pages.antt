-- ===== src/Server/Listing/Pages.antt =====
-- ListTools, ListPrompts and ListRoots of pkg/server/providers.go: what one page holds.
use mcp_sdk_go.Base.Int.{ℤ, pos, max_int, add_int_exact, add_int_wraps, ltb_ℤ}
use mcp_sdk_go.Base.Text.{Text}
use mcp_sdk_go.Base.{
  ℕ, ◌+◌, ◌-◌, ◌≤◌, ◌<◌, ◌≡◌, ◌∙◌, sym, ap, false, List, [], length, take, drop, take_of_length_le,
  length-drop, some, arith, ltb, lt→ltb, tests, min, inl, inr, if◌then◌else◌, Bool-cases,
}
use mcp_sdk_go.Pagination.{PaginationParams}
use mcp_sdk_go.Server.Cursor.{Encoding, offset, encode_cursor, decode_cursor}
use mcp_sdk_go.Server.Listing.{
  slice, Page, listed, panicked, limit_of, clip, page_to, page_from, paginate, select, Tool,
  BaseToolsProvider, values, list_tools,
}

slice_exact :
    {A : Type 0} (items : List A) (start end : ℕ)
    → start ≤ end
    → end ≤ length items
    → slice items start (pos end) ≡ some (take (end - start) (drop start items))
unfolding slice
slice_exact items start end h k = ground arith

clip_pos : (total end : ℕ) → clip total (pos end) ≡ pos (min total end)
unfolding clip
clip_pos total end = ground arith

ltb_ℤ_pos : (a b : ℕ) → ltb_ℤ (pos a) (pos b) ≡ ltb a b
ltb_ℤ_pos a b = ground arith

-- Clipping the end does not change what is taken.
pub take_clipped :
    {A : Type 0} (items : List A) (start l : ℕ)
    → start < length items
    → take (min (length items) (start + l) - start) (drop start items) ≡ take l (drop start items)
take_clipped items start l k = elim (Bool-cases (ltb (length items) (start + l))) [
  | inr short ↦
      ap (λ n. take n (drop start items)) {x = min (length items) (start + l) - start}
        (ground (arith, short))
  | inl over ↦
      take_of_length_le _ (drop start items) (omega (tests, length-drop start items))
      ∙ sym (take_of_length_le l (drop start items) (omega (tests, length-drop start items)))
]

module _ (c : Encoding) {A : Type 0} where
  -- The page of the items from `start` on, with a cursor to the rest if there is one.
  abbrev pub page_of : List A → ℕ → ℕ → Page A
  page_of items l start = record {
    items = take l (drop start items);
    total = length items;
    next_cursor = if ltb (start + l) (length items) then encode_cursor c (pos (start + l)) else [];
    has_more = ltb (start + l) (length items);
  }

  page_to_exact :
      (items : List A) (start end : ℕ)
      → start < length items
      → start ≤ end
      → end ≤ length items
      → page_to c items start (pos end)
        ≡ listed (record {
          items = take (end - start) (drop start items);
          total = length items;
          next_cursor = if ltb end (length items) then encode_cursor c (pos end) else [];
          has_more = ltb end (length items);
        })
  unfolding page_to
  page_to_exact items start end k h t =
      rw (lt→ltb _ _ k) (rw (slice_exact items start end h t) (rw (ltb_ℤ_pos end (length items))))

  pub page_from_exact :
      (items : List A) (l start : ℕ)
      → start < length items
      → start + l ≤ max_int
      → page_from c items (pos l) start ≡ listed (page_of items l start)
  unfolding page_from
  page_from_exact items l start k b = rw (add_int_exact start l b) (
      rw (clip_pos (length items) (start + l)) (
        page_to_exact items start _ k (omega arith) (omega arith)
        ∙ ground (arith, take_clipped items start l k)))

  page_from_beyond :
      (items : List A) (limit : ℤ) (start : ℕ)
      → length items ≤ start
      → page_from c items limit start
        ≡ listed (record { items = []; total = length items; next_cursor = []; has_more = false })
  unfolding page_from page_to
  page_from_beyond items limit start h = ground arith

  page_from_overflows :
      (items : List A) (l start : ℕ)
      → start < length items
      → start ≤ max_int
      → l ≤ max_int
      → max_int < start + l
      → page_from c items (pos l) start ≡ panicked
  unfolding page_from page_to clip slice
  page_from_overflows items l start k hs hl h = rw (add_int_wraps start l hs hl h) (ground arith)

pub limit_of_pos :
    (p : PaginationParams) (l : ℕ) → p.limit ≡ pos l → 0 < l → limit_of (some p) ≡ pos l
limit_of_pos p l e h = ground arith

module _ (c : Encoding) {A : Type 0} where
  pub paginate_page :
      (items : List A) (params : PaginationParams) (l start : ℕ)
      → params.limit ≡ pos l
      → 0 < l
      → decode_cursor c params.cursor ≡ offset start
      → start < length items
      → start + l ≤ max_int
      → paginate c items (some params) ≡ listed (page_of c items l start)
  unfolding paginate
  paginate_page items params l start el hl ec k b =
      rw (limit_of_pos params l el hl) (rw ec (page_from_exact c items l start k b))

  pub paginate_beyond :
      (items : List A) (params : PaginationParams) (start : ℕ)
      → decode_cursor c params.cursor ≡ offset start
      → length items ≤ start
      → paginate c items (some params)
        ≡ listed (record { items = []; total = length items; next_cursor = []; has_more = false })
  unfolding paginate
  paginate_beyond items params start ec h = rw ec (page_from_beyond c items _ start h)

-- The tools of a category, in the order of this call.
abbrev pub tools_in : (List Tool → List Tool) → BaseToolsProvider → Text → List Tool
tools_in order p category = select (λ (t : Tool). t.categories) category (order (values p.tools))

-- A listing whose cursor stands for an offset within the tools, and whose limit is positive, holds
-- the tools from there on up to the limit, in order, and their number; it has a cursor, which is
-- the offset of the rest, exactly if there is a rest.
pub list_tools_page :
    (c : Encoding) (order : List Tool → List Tool) (p : BaseToolsProvider) (category : Text)
    (params : PaginationParams) (l start : ℕ)
    → params.limit ≡ pos l
    → 0 < l
    → decode_cursor c params.cursor ≡ offset start
    → start < length (tools_in order p category)
    → start + l ≤ max_int
    → list_tools c order p category (some params)
      ≡ listed (page_of c (tools_in order p category) l start)
unfolding list_tools
list_tools_page c order p category params l start =
    paginate_page c (tools_in order p category) params l start

-- A limit whose sum with the offset passes the range of an int makes the listing panic, for every
-- offset within the tools.
pub list_tools_overflows :
    (c : Encoding) (order : List Tool → List Tool) (p : BaseToolsProvider) (category : Text)
    (params : PaginationParams) (l start : ℕ)
    → params.limit ≡ pos l
    → decode_cursor c params.cursor ≡ offset start
    → start < length (tools_in order p category)
    → start ≤ max_int
    → l ≤ max_int
    → max_int < start + l
    → list_tools c order p category (some params) ≡ panicked
unfolding list_tools paginate
list_tools_overflows c order p category params l start el ec k hs hl h =
    rw (limit_of_pos params l el (omega arith))
      (rw ec (page_from_overflows c (tools_in order p category) l start k hs hl h))
