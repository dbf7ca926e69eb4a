-- ===== src/Scenarios/Listing.antt =====
-- Pagination: pkg/pagination, the listings of pkg/server/providers.go and pkg/client/pagination.go.
use mathlib.Core.List.{Permᴰ}
use mathlib.Core.List.Permᴰ
use mcp_sdk_go.Base.Int.{ℤ, pos, negsuc, max_int}
use mcp_sdk_go.Base.Text.{Text, codes, text_eq}
use mcp_sdk_go.Base.{
  ℕ, All, In, zero, suc, ◌≡◌, ◌≢◌, refl, true, false, List, [], ◌∷◌, ◌++◌, Option, none, some,
  arith, length,
}
use mcp_sdk_go.Pagination.{PaginationParams}
use mcp_sdk_go.Server.Cursor.{Encoding, offset, encode_cursor, decode_cursor}
use mcp_sdk_go.Server.Listing.{Tool, BaseToolsProvider, list_tools, select, values}
use mcp_sdk_go.Server.Listing.Pages.{tools_in}
use mcp_sdk_go.Client.Paging.{ok, list_all}
use mcp_sdk_go.Client.Paging.Gathered.{gathered}
use mcp_sdk_go.Client.Paging.Complete.{list_all-tools}

-- An encoding by one or two numbers.
abbrev pub write : ℤ → Text
write (pos n) = n ∷ []
write (negsuc n) = n ∷ n ∷ []

abbrev pub read : Text → Option ℤ
read [] = none
read (n ∷ []) = some (pos n)
read (n ∷ m ∷ _) = some (negsuc n)

pub written : (z : ℤ) → write z ≢ []
written (pos n) e = cc
written (negsuc n) e = cc

abbrev pub plain : Encoding
plain = record {
  encode_to_string = λ t. t;
  decode_string = some;
  marshal = write;
  unmarshal = read;
  decode-encode = λ t. refl;
  encode_empty = λ t e. e;
  unmarshal-marshal = λ n h. refl;
  marshal_nonempty = written;
}

abbrev tool : Text → Tool
tool name = record {
  name = name;
  description = [];
  input_schema = [];
  output_schema = [];
  examples = [];
  annotations = [];
  documentation = [];
  kind = [];
  async = false;
  categories = codes "text" ∷ [];
}

abbrev provider : BaseToolsProvider
provider = record {
  tools =
      (codes "cut", tool (codes "cut"))
      ∷ (codes "join", tool (codes "join"))
      ∷ (codes "sort", tool (codes "sort"))
      ∷ [];
}

abbrev as_stored : List Tool → List Tool
as_stored tools = tools

three_tools : length (tools_in as_stored provider []) ≡ 3
unfolding select text_eq
three_tools = refl

abbrev wild : PaginationParams
wild = record { limit = pos 5000; cursor = codes "x" }

abbrev two_from_one : PaginationParams
two_from_one = record { limit = pos 2; cursor = 1 ∷ [] }

from_one : decode_cursor plain (1 ∷ []) ≡ offset 1
unfolding decode_cursor text_eq
from_one = refl

abbrev too_many : PaginationParams
too_many = record { limit = pos max_int; cursor = 1 ∷ [] }

abbrev pair : BaseToolsProvider
pair = record {
  tools = (codes "cut", tool (codes "cut")) ∷ (codes "join", tool (codes "join")) ∷ [];
}

abbrev one_tool : PaginationParams
one_tool = record { limit = pos 1; cursor = [] }

abbrev next_tool : PaginationParams
next_tool = record { limit = pos 1; cursor = encode_cursor plain (pos 1) }

abbrev flipped : List Tool → List Tool
flipped [] = []
flipped (x ∷ []) = x ∷ []
flipped (x ∷ y ∷ rest) = y ∷ x ∷ rest

stored_order : tools_in as_stored pair [] ≡ (tool (codes "cut") ∷ []) ++ (tool (codes "join") ∷ [])
unfolding select text_eq
stored_order = refl

flipped_order : tools_in flipped pair [] ≡ (tool (codes "join") ∷ []) ++ (tool (codes "cut") ∷ [])
unfolding select text_eq
flipped_order = refl

-- The first call meets the tools as they are stored, the others the other way round.
abbrev by_turns : ℕ → List Tool → List Tool
by_turns zero = as_stored
by_turns (suc n) = flipped

by_turns-perm : (n : ℕ) → Permᴰ (by_turns n (values pair.tools)) (values pair.tools)
by_turns-perm zero = Permᴰ.refl _
by_turns-perm (suc n) = Permᴰ.swap refl refl

two_tools : length (tools_in (λ ts. ts) pair []) ≡ 2
unfolding select text_eq
two_tools = refl

list_all-tools_example :
    (xs : List Tool) × (list_all true
        (λ n params. list_tools plain (by_turns n) pair [] (some params))
        4
      ≡ some (ok xs))
    × (xs
        ≡ gathered
            (λ n. tools_in (by_turns n) pair [])
            (length (tools_in (λ ts. ts) pair []))
            4
            0
            50
            0)
    × (length xs ≡ length (tools_in (λ ts. ts) pair []))
    × All (λ tool. In tool (tools_in (λ ts. ts) pair [])) xs
list_all-tools_example =
    list_all-tools plain by_turns pair [] 4 by_turns-perm (rw two_tools (omega arith))
      (rw two_tools (omega arith))
