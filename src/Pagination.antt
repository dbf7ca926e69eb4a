-- ===== src/Pagination.antt =====
-- pkg/pagination/pagination.go, with PaginationParams and PaginationResult of pkg/protocol/mcp.go.
-- A nil pointer is `none`.
pub mod Limits
use mcp_sdk_go.Base.Int.{ℤ, pos, add_int, ltb_ℤ, leb_ℤ}
use mcp_sdk_go.Base.Text.{Text, text_eq}
use mcp_sdk_go.Base.{
  ℕ, Bool, true, false, ◌&&◌, not, List, [], length, Option, none, some, ltb, if◌then◌else◌,
}

pub record PaginationParams : Type 0 where
  pub limit : ℤ
  pub cursor : Text

-- `items` are values of any type.
pub record PaginationResult (A : Type 0) : Type 0 where
  pub items : List A
  pub total_count : ℤ
  pub next_cursor : Text
  pub has_more : Bool

abbrev pub default_limit : ℕ
default_limit = 50

abbrev pub max_limit : ℕ
max_limit = 200

pub data LimitError : Type 0 where
  negative_limit limit_too_large : ℤ → LimitError

unfoldable pub validate_params : Option PaginationParams → Option LimitError
validate_params none = none
validate_params (some params) =
    if ltb_ℤ params.limit (pos 0)
    then some (negative_limit params.limit)
    else if ltb_ℤ (pos max_limit) params.limit
    then some (limit_too_large params.limit)
    else none

-- The default for a limit that is not positive, then the cap.
unfoldable pub apply_defaults : Option PaginationParams → PaginationParams
apply_defaults none = record { limit = pos default_limit; cursor = [] }
apply_defaults (some params) =
    let limit = if leb_ℤ params.limit (pos 0) then pos default_limit else params.limit in
    record {
      limit = if ltb_ℤ (pos max_limit) limit then pos max_limit else limit;
      cursor = params.cursor;
    }

unfoldable pub has_next_page : {A : Type 0} → Option (PaginationResult A) → Bool
has_next_page none = false
has_next_page (some result) = result.has_more && not (text_eq result.next_cursor [])

pub record Collector : Type 0 where
  pub next_cursor : Text
  pub has_more : Bool
  pub total_items : ℤ

unfoldable pub new_collector : Collector
new_collector = record { next_cursor = []; has_more = true; total_items = pos 0 }

unfoldable pub update : {A : Type 0} → Collector → Option (PaginationResult A) → Collector
update c none = record c { has_more = false }
update c (some result) = record {
  next_cursor = result.next_cursor;
  has_more = result.has_more && not (text_eq result.next_cursor []);
  total_items =
      if ltb 0 (length result.items)
      then add_int c.total_items (pos (length result.items))
      else c.total_items;
}

unfoldable pub next_params : Collector → Option PaginationParams → PaginationParams
next_params c base_params = record (apply_defaults base_params) { cursor = c.next_cursor }
