-- ===== src/Pagination/Limits.antt =====
-- pkg/pagination/pagination.go: which limits ApplyDefaults produces.
use mcp_sdk_go.Base.Int.{pos, pos_part}
use mcp_sdk_go.Base.{◌≤◌, ◌≡◌, Option, none, some, arith}
use mcp_sdk_go.Pagination.{PaginationParams, apply_defaults}

abbrev pub InLimits : PaginationParams → Type 0
InLimits q = (q.limit ≡ pos (pos_part q.limit)) × (1 ≤ pos_part q.limit) × (pos_part q.limit ≤ 200)

pub apply_defaults-InLimits : (params : Option PaginationParams) → InLimits (apply_defaults params)
unfolding apply_defaults
apply_defaults-InLimits none = ground arith
apply_defaults-InLimits (some p) = ground arith

pub apply_defaults_kept : (p : PaginationParams) → InLimits p → apply_defaults (some p) ≡ p
unfolding apply_defaults
apply_defaults_kept p h = ground arith

-- Whatever the parameters, the limit that comes out lies between 1 and 200, and a second call
-- changes nothing.
pub apply_defaults_limit :
    (params : Option PaginationParams)
    → let q = apply_defaults params in
      (q.limit ≡ pos (pos_part q.limit))
      × (1 ≤ pos_part q.limit)
      × (pos_part q.limit ≤ 200)
      × (apply_defaults (some q) ≡ q)
apply_defaults_limit params =
    let (sign, low, high) = apply_defaults-InLimits params in
    (sign, low, high, apply_defaults_kept (apply_defaults params) (apply_defaults-InLimits params))
