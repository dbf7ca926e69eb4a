-- ===== src/Scenarios/Catalog.antt =====
-- The prompts and the resources of pkg/server/providers.go.
use mcp_sdk_go.Base.Int.{pos, max_int}
use mcp_sdk_go.Base.Text.{Text, codes, text_eq}
use mcp_sdk_go.Base.{
  ℕ, ◌+◌, ◌≤◌, ◌≡◌, refl, false, List, [], ◌∷◌, none, some, arith, length, take, drop, ltb,
  if◌then◌else◌,
}
use mcp_sdk_go.Pagination.{PaginationParams}
use mcp_sdk_go.Server.Cursor.{offset, encode_cursor, decode_cursor}
use mcp_sdk_go.Server.Listing.{Page, listed, select, clip, page_to, page_from, paginate, slice}
use mcp_sdk_go.Server.Labelled.{Prompt, BasePromptsProvider, list_prompts}
use mcp_sdk_go.Server.Resources
use mcp_sdk_go.Server.Resources.{
  Resource, ResourcePage, list_resources, ResourceTemplate, BaseResourcesProvider, filter_by_uri,
}
use mcp_sdk_go.Server.Resources.Segments.{both, list_resources_segment, resources_in, templates_in}
use mcp_sdk_go.Scenarios.Listing.{plain}

abbrev prompt : Text → Text → Prompt
prompt id tag = record {
  id = id;
  name = [];
  description = [];
  messages = [];
  parameters = [];
  schema = [];
  examples = [];
  metadata = [];
  tags = tag ∷ [];
}

abbrev prompts : List Prompt
prompts = prompt (codes "a") (codes "x") ∷ prompt (codes "a") (codes "y") ∷ []

abbrev one_prompt : BasePromptsProvider
one_prompt = record { prompts = (codes "a", prompt (codes "a") (codes "y")) ∷ [] }

abbrev its_page : Page Prompt
its_page = record {
  items = prompt (codes "a") (codes "y") ∷ [];
  total = 1;
  next_cursor = [];
  has_more = false;
}

listed_by_tag : list_prompts plain (λ qs. qs) one_prompt (codes "y") none ≡ listed its_page
unfolding list_prompts paginate page_from page_to clip slice select text_eq decode_cursor
listed_by_tag = refl

abbrev resource : Text → Resource
resource uri = record {
  uri = uri;
  name = [];
  description = [];
  kind = [];
  size = pos 0;
  mod_time = pos 0;
  metadata = [];
  children = [];
  template_uri = [];
}

abbrev template : Text → ResourceTemplate
template uri = record {
  uri = uri;
  name = [];
  description = [];
  kind = [];
  parameters = [];
  parameter_defs = [];
  examples = [];
}

abbrev store : BaseResourcesProvider
store = record {
  resources = (codes "r", resource (codes "r")) ∷ [];
  templates =
      (codes "t1", template (codes "t1"))
      ∷ (codes "t2", template (codes "t2"))
      ∷ (codes "t3", template (codes "t3"))
      ∷ [];
  subscribers = [];
}

abbrev at : ℕ → PaginationParams
at start = record { limit = pos 1; cursor = start ∷ [] }

at_start : (n : ℕ) → decode_cursor plain (n ∷ []) ≡ offset n
unfolding decode_cursor text_eq
at_start n = refl

one_resource : length (resources_in (λ rs. rs) store [] false) ≡ 1
unfolding filter_by_uri text_eq
one_resource = refl

three_templates : length (templates_in (λ ts. ts) store [] false) ≡ 3
unfolding filter_by_uri text_eq
three_templates = refl

fits :
    (start : ℕ)
    → start ≤ 4
    → length (resources_in (λ rs. rs) store [] false)
        + length (templates_in (λ ts. ts) store [] false)
        + start
        + start
        + 1
      ≤ max_int
fits start h = rw (one_resource, three_templates) (omega arith)

ends_here : 0 + 1 ≤ length (resources_in (λ rs. rs) store [] false)
ends_here = rw one_resource (omega arith)

list_resources_segment_example :
    (page : ResourcePage Resource ResourceTemplate) × (list_resources plain
        (λ rs. rs)
        (λ ts. ts)
        store
        []
        false
        (some (at 1))
      ≡ Resources.listed page)
    × (both page.resources page.templates
        ≡ take 1 (
            drop 1 (
              both
                (resources_in (λ rs. rs) store [] false)
                (templates_in (λ ts. ts) store [] false))))
    × (page.has_more
        ≡ ltb (1 + 1) (
            length (resources_in (λ rs. rs) store [] false)
            + length (templates_in (λ ts. ts) store [] false)))
    × (page.next_cursor ≡ (if page.has_more then encode_cursor plain (pos (1 + 1)) else []))
list_resources_segment_example =
    list_resources_segment plain (λ rs. rs) (λ ts. ts) store [] false (at 1) 1 1 refl (omega arith)
      (at_start 1) (fits 1 (omega arith)) ends_here
