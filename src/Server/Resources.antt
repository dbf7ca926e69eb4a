-- ===== src/Server/Resources.antt =====
-- The resources and their templates of pkg/server/providers.go, with the types of
-- pkg/protocol/resources.go. A value of any type is its JSON bytes.
pub mod Ends
pub mod Segments
use mcp_sdk_go.Base.Int.{ℤ, pos, negsuc, add_int, sub_int, ltb_ℤ, eqb_ℤ}
use mcp_sdk_go.Base.Text.{Text, codes, text_eq, has_prefix}
use mcp_sdk_go.Base.Dict.{Dict, insert}
use mcp_sdk_go.Base.{
  ℕ, ◌+◌, Bool, true, false, ◌&&◌, ◌||◌, List, [], ◌∷◌, ◌++◌, length, Option, none, some, ltb,
  if◌then◌else◌,
}
use mcp_sdk_go.Pagination.{PaginationParams}
use mcp_sdk_go.Server.Cursor.{
  Encoding, CursorError, Decoded, offset, bad, encode_cursor, decode_cursor,
}
use mcp_sdk_go.Server.Listing.{slice, values, limit_of, cursor_of}

-- A modification time is a number.
pub record Resource : Type 0 where
  pub uri : Text
  pub name : Text
  pub description : Text
  pub kind : Text
  pub size : ℤ
  pub mod_time : ℤ
  pub metadata : Dict Text
  pub children : List Text
  pub template_uri : Text

pub record ResourceParameter : Type 0 where
  pub name : Text
  pub description : Text
  pub required : Bool
  pub kind : Text

pub record ResourceExample : Type 0 where
  pub name : Text
  pub parameters : Dict Text
  pub uri : Text

pub record ResourceTemplate : Type 0 where
  pub uri : Text
  pub name : Text
  pub description : Text
  pub kind : Text
  pub parameters : List ResourceParameter
  pub parameter_defs : Dict Text
  pub examples : List ResourceExample

pub record BaseResourcesProvider : Type 0 where
  pub resources : Dict Resource
  pub templates : Dict ResourceTemplate
  pub subscribers : Dict Bool

unfoldable pub new_base_resources_provider : BaseResourcesProvider
new_base_resources_provider = record { resources = []; templates = []; subscribers = [] }

unfoldable pub register_resource : BaseResourcesProvider → Resource → BaseResourcesProvider
register_resource p resource = record p { resources = insert resource.uri resource p.resources }

unfoldable pub register_template : BaseResourcesProvider → ResourceTemplate → BaseResourcesProvider
register_template p template = record p { templates = insert template.uri template p.templates }

-- The base provider accepts every subscription.
unfoldable pub subscribe_resource :
    BaseResourcesProvider → Text → Bool → BaseResourcesProvider × Bool
subscribe_resource p uri recursive =
    (record p { subscribers = insert uri recursive p.subscribers }, true)

-- The URI itself, and below it if the listing is recursive.
unfoldable pub under : Text → Bool → Text → Bool
under uri recursive u = text_eq u uri || (recursive && has_prefix u (uri ++ codes "/"))

-- The filter of ListResources: no URI means all.
unfoldable pub filter_by_uri {ℓ} : {A : Type ℓ} → (A → Text) → Text → Bool → List A → List A
filter_by_uri uri_of uri recursive [] = []
filter_by_uri uri_of uri recursive (x ∷ xs) =
    let rest = filter_by_uri uri_of uri recursive xs in
    if text_eq uri [] then x ∷ rest else if under uri recursive (uri_of x) then x ∷ rest else rest

abbrev pub least : ℤ → ℤ → ℤ
least a b = if ltb_ℤ a b then a else b

abbrev pub greatest : ℤ → ℤ → ℤ
greatest a b = if ltb_ℤ b a then a else b

module _ (n m : ℕ) (limit : ℤ) (start : ℕ) where
  unfoldable pub res_end : ℤ
  res_end = least (pos n) (add_int (pos start) limit)

  unfoldable pub templ_start : ℤ
  templ_start = greatest (pos 0) (sub_int (pos start) (pos n))

  unfoldable pub templ_end : ℤ
  templ_end = least (pos m) (sub_int (add_int templ_start limit) (sub_int res_end (pos start)))

  unfoldable pub actual_end : ℤ
  actual_end =
      if eqb_ℤ res_end (pos n) && ltb_ℤ (pos 0) templ_end
      then add_int (pos n) templ_end
      else add_int res_end templ_end

pub record ResourcePage {ℓ} (R T : Type ℓ) : Type ℓ where
  pub resources : List R
  pub templates : List T
  pub total : ℕ
  pub next_cursor : Text
  pub has_more : Bool

pub data ResourceListing {ℓ} (R T : Type ℓ) : Type ℓ where
  listed : ResourcePage R T → ResourceListing R T
  invalid_pagination : CursorError → ResourceListing R T
  panicked : ResourceListing R T

-- `if start < total { items = items[start:end] } else { items = empty }`, at integers.
unfoldable pub cut {ℓ} : {A : Type ℓ} → List A → ℤ → ℤ → Option (List A)
cut items (negsuc k) end = none
cut items (pos start) end = if ltb start (length items) then slice items start end else some []

module _ (c : Encoding) {R T : Type 0} where
  abbrev pub paired : Option (List R) → Option (List T) → ℕ → Text → Bool → ResourceListing R T
  paired none ts total next_cursor has_more = panicked
  paired (some rs) none total next_cursor has_more = panicked
  paired (some rs) (some ts) total next_cursor has_more = listed (record {
    resources = rs;
    templates = ts;
    total = total;
    next_cursor = next_cursor;
    has_more = has_more;
  })

  -- The page at an offset into the resources followed by the templates.
  unfoldable pub resources_from : List R → List T → ℤ → ℕ → ResourceListing R T
  resources_from rs ts limit start =
      let n = length rs in
      let m = length ts in
      let end = actual_end n m limit start in
      let has_more = ltb_ℤ end (pos (n + m)) in
      paired (cut rs (pos start) (res_end n m limit start))
        (cut ts (templ_start n m limit start) (templ_end n m limit start)) (n + m)
        (if has_more then encode_cursor c end else []) has_more

  abbrev pub resources_at : List R → List T → ℤ → Decoded → ResourceListing R T
  resources_at rs ts limit (offset start) = resources_from rs ts limit start
  resources_at rs ts limit (bad e) = invalid_pagination e

-- `order` and `order'` are the orders of this call's ranges over the two maps.
unfoldable pub list_resources :
    Encoding
    → (List Resource → List Resource)
    → (List ResourceTemplate → List ResourceTemplate)
    → BaseResourcesProvider
    → Text
    → Bool
    → Option PaginationParams
    → ResourceListing Resource ResourceTemplate
list_resources c order order' p uri recursive pagination =
    resources_at c
      (filter_by_uri (λ (r : Resource). r.uri) uri recursive (order (values p.resources)))
      (filter_by_uri (λ (t : ResourceTemplate). t.uri) uri recursive (order' (values p.templates)))
      (limit_of pagination) (decode_cursor c (cursor_of pagination))
