-- ===== src/Server/Listing.antt =====
-- ListTools, ListPrompts and ListRoots of pkg/server/providers.go. The items are listed in the order
-- in which the range over the map meets them, which Go leaves open: each call takes its own order.
pub mod Pages
pub mod Orders
pub mod Shuffled
use mcp_sdk_go.Base.Int.{ℤ, pos, negsuc, add_int, ltb_ℤ}
use mcp_sdk_go.Base.Text.{Text, text_eq}
use mcp_sdk_go.Base.Dict.{Dict, insert}
use mcp_sdk_go.Base.{
  ℕ, ◌-◌, Bool, true, false, ◌&&◌, List, [], ◌∷◌, length, take, drop, any, map, Option, none, some,
  ltb, leb, if◌then◌else◌,
}
use mcp_sdk_go.Pagination.{PaginationParams}
use mcp_sdk_go.Server.Cursor.{
  Encoding, CursorError, Decoded, offset, bad, encode_cursor, decode_cursor,
}

-- `items[start:end]`; `none` is the panic on bounds out of order or out of range.
unfoldable pub slice {ℓ} : {A : Type ℓ} → List A → ℕ → ℤ → Option (List A)
slice items start (negsuc n) = none
slice items start (pos end) =
    if leb start end && leb end (length items)
    then some (take (end - start) (drop start items))
    else none

pub record Page {ℓ} (A : Type ℓ) : Type ℓ where
  pub items : List A
  pub total : ℕ
  pub next_cursor : Text
  pub has_more : Bool

pub data Listing {ℓ} (A : Type ℓ) : Type ℓ where
  listed : Page A → Listing A
  invalid_pagination : CursorError → Listing A
  panicked : Listing A

-- `limit := 50`, unless the parameters have a positive one.
abbrev pub limit_of : Option PaginationParams → ℤ
limit_of none = pos 50
limit_of (some p) = if ltb_ℤ (pos 0) p.limit then p.limit else pos 50

abbrev pub cursor_of : Option PaginationParams → Text
cursor_of none = []
cursor_of (some p) = p.cursor

-- `if end > total { end = total }`.
unfoldable pub clip : ℕ → ℤ → ℤ
clip total end = if ltb_ℤ (pos total) end then pos total else end

module _ (c : Encoding) {A : Type 0} where
  abbrev pub sliced : Option (List A) → ℕ → Text → Bool → Listing A
  sliced none total next_cursor has_more = panicked
  sliced (some xs) total next_cursor has_more =
      listed (record { items = xs; total = total; next_cursor = next_cursor; has_more = has_more })

  -- The page from `start` up to a clipped `end`.
  unfoldable pub page_to : List A → ℕ → ℤ → Listing A
  page_to items start end =
      let total = length items in
      let has_more = ltb_ℤ end (pos total) in
      let next_cursor = if has_more then encode_cursor c end else [] in
      if ltb start total
      then sliced (slice items start end) total next_cursor has_more
      else listed (record { items = []; total = total; next_cursor = []; has_more = false })

  -- From the decoded offset on.
  unfoldable pub page_from : List A → ℤ → ℕ → Listing A
  page_from items limit start =
      page_to items start (clip (length items) (add_int (pos start) limit))

  abbrev pub page_at : List A → ℤ → Decoded → Listing A
  page_at items limit (offset start) = page_from items limit start
  page_at items limit (bad e) = invalid_pagination e

  unfoldable pub paginate : List A → Option PaginationParams → Listing A
  paginate items pagination =
      page_at items (limit_of pagination) (decode_cursor c (cursor_of pagination))

-- The filter of a listing: no name means all, and otherwise one of the item's labels must be it.
unfoldable pub select {ℓ} : {A : Type ℓ} → (A → List Text) → Text → List A → List A
select labels name [] = []
select labels name (x ∷ xs) =
    let rest = select labels name xs in
    if text_eq name []
    then x ∷ rest
    else if any (λ l. text_eq l name) (labels x)
    then x ∷ rest
    else rest

pub record ToolExample : Type 0 where
  pub name : Text
  pub description : Text
  pub input : Text
  pub output : Text
  pub extra_context : Text

pub record ToolAnnotation : Type 0 where
  pub kind : Text
  pub value : Text

-- A json.RawMessage is its bytes.
pub record Tool : Type 0 where
  pub name : Text
  pub description : Text
  pub input_schema : Text
  pub output_schema : Text
  pub examples : List ToolExample
  pub annotations : List ToolAnnotation
  pub documentation : Text
  pub kind : Text
  pub async : Bool
  pub categories : List Text

pub record BaseToolsProvider : Type 0 where
  pub tools : Dict Tool

unfoldable pub new_base_tools_provider : BaseToolsProvider
new_base_tools_provider = record { tools = [] }

unfoldable pub register_tool : BaseToolsProvider → Tool → BaseToolsProvider
register_tool p tool = record { tools = insert tool.name tool p.tools }

abbrev pub values {ℓ} : {V : Type ℓ} → Dict V → List V
values m = map (λ e. e.1) m

-- `order` is the order of this call's range over the map.
unfoldable pub list_tools :
    Encoding
    → (List Tool → List Tool)
    → BaseToolsProvider
    → Text
    → Option PaginationParams
    → Listing Tool
list_tools c order p category pagination =
    paginate c (select (λ (t : Tool). t.categories) category (order (values p.tools))) pagination
