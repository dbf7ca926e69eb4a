-- ===== src/Server/Labelled.antt =====
-- The prompts and the roots of pkg/server/providers.go, with their types in pkg/protocol/prompts.go and
-- pkg/protocol/sampling.go. A value of any type is its JSON bytes.
pub mod Tags
use mcp_sdk_go.Base.Text.{Text, codes}
use mcp_sdk_go.Base.Dict.{Dict, lookup, insert}
use mcp_sdk_go.Base.{Bool, List, [], Option, none, some}
use mcp_sdk_go.Pagination.{PaginationParams}
use mcp_sdk_go.Server.Cursor.{Encoding}
use mcp_sdk_go.Server.Listing.{Listing, paginate, select, values}

pub record PromptMessage : Type 0 where
  pub role : Text
  pub content : Text
  pub name : Text
  pub resource_refs : List Text
  pub parameters : List Text

pub record PromptParameter : Type 0 where
  pub name : Text
  pub description : Text
  pub kind : Text
  pub required : Bool
  pub default_value : Option Text

pub record PromptExample : Type 0 where
  pub name : Text
  pub description : Text
  pub parameters : Dict Text
  pub result : Text

pub record Prompt : Type 0 where
  pub id : Text
  pub name : Text
  pub description : Text
  pub messages : List PromptMessage
  pub parameters : List PromptParameter
  pub schema : Text
  pub examples : List PromptExample
  pub metadata : Dict Text
  pub tags : List Text

pub record BasePromptsProvider : Type 0 where
  pub prompts : Dict Prompt

unfoldable pub new_base_prompts_provider : BasePromptsProvider
new_base_prompts_provider = record { prompts = [] }

unfoldable pub register_prompt : BasePromptsProvider → Prompt → BasePromptsProvider
register_prompt p prompt = record { prompts = insert prompt.id prompt p.prompts }

-- The filter adds a prompt once, at its first tag that fits. `order` is the order of this call's range
-- over the map.
unfoldable pub list_prompts :
    Encoding
    → (List Prompt → List Prompt)
    → BasePromptsProvider
    → Text
    → Option PaginationParams
    → Listing Prompt
list_prompts c order p tag pagination =
    paginate c (select (λ (q : Prompt). q.tags) tag (order (values p.prompts))) pagination

-- The error is a notFoundError, with the kind of the resource and its id.
pub record NotFoundError : Type 0 where
  pub resource_type : Text
  pub id : Text

pub data Found {ℓ} (A : Type ℓ) : Type ℓ where
  found : A → Found A
  not_found : NotFoundError → Found A

unfoldable pub get_prompt : BasePromptsProvider → Text → Found Prompt
get_prompt p id = elim (lookup id p.prompts) [
  | none ↦ not_found (record { resource_type = codes "prompt"; id = id })
  | some prompt ↦ found prompt
]

pub record Root : Type 0 where
  pub id : Text
  pub name : Text
  pub description : Text
  pub resource_uris : List Text
  pub tags : List Text

pub record BaseRootsProvider : Type 0 where
  pub roots : Dict Root

unfoldable pub new_base_roots_provider : BaseRootsProvider
new_base_roots_provider = record { roots = [] }

unfoldable pub register_root : BaseRootsProvider → Root → BaseRootsProvider
register_root p root = record { roots = insert root.id root p.roots }

unfoldable pub list_roots :
    Encoding
    → (List Root → List Root)
    → BaseRootsProvider
    → Text
    → Option PaginationParams
    → Listing Root
list_roots c order p tag pagination =
    paginate c (select (λ (r : Root). r.tags) tag (order (values p.roots))) pagination
