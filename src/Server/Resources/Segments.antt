-- ===== src/Server/Resources/Segments.antt =====
-- ListResources of pkg/server/providers.go: a page as a segment of the resources followed by the
-- templates, and the pages that begin among the templates.
use mcp_sdk_go.Base.Int.{pos, max_int}
use mcp_sdk_go.Base.Text.{Text}
use mcp_sdk_go.Base.{
  ℕ, zero, suc, ◌+◌, ◌-◌, ◌≤◌, ◌<◌, ◌≡◌, ◌∙◌, inl, inr, refl, sym, ap, Bool, List, [], ◌∷◌, length,
  length-drop, length-take, take, drop, drop-nil, some, arith, ltb, min, if◌then◌else◌, ◌⊎◌,
}
use mcp_sdk_go.Pagination.{PaginationParams}
use mcp_sdk_go.Server.Cursor.{Encoding, encode_cursor, decode_cursor, offset}
use mcp_sdk_go.Server.Listing.{values}
use mcp_sdk_go.Server.Listing.Pages.{limit_of_pos}
use mcp_sdk_go.Server.Resources.{
  ResourcePage, listed, resources_from, Resource, ResourceTemplate, BaseResourcesProvider,
  filter_by_uri, list_resources,
}
use mcp_sdk_go.Server.Resources.Ends.{
  res_end_pos, res_end_late, templ_start_pos, templ_end_early, templ_end_late, actual_end_early,
  actual_end_late, cut_clipped, take-nil,
}

module _ {A B : Type 0} where
  -- The resources followed by the templates.
  abbrev pub both : List A → List B → List (A ⊎ B)
  both [] [] = []
  both [] (t ∷ ts) = inr t ∷ both [] ts
  both (r ∷ rs) ts = inl r ∷ both rs ts

  length-both : (rs : List A) (ts : List B) → length (both rs ts) ≡ length rs + length ts
  length-both [] [] = omega arith
  length-both [] (t ∷ ts) = omega (arith, length-both [] ts)
  length-both (r ∷ rs) ts = omega (arith, length-both rs ts)

  take-right : (n : ℕ) (ts : List B) → take n (both [] ts) ≡ both [] (take n ts)
  take-right zero [] = refl
  take-right zero (t ∷ ts) = refl
  take-right (suc n) [] = refl
  take-right (suc n) (t ∷ ts) = ap (◌∷◌ (inr t)) (take-right n ts)

  take-both :
      (n : ℕ) (rs : List A) (ts : List B)
      → take n (both rs ts) ≡ both (take n rs) (take (n - length rs) ts)
  take-both n [] ts =
      take-right n ts
      ∙ rw (take-nil {A = A} n) (ap (λ k. both [] (take k ts)) {x = n} {y = n - 0} (omega arith))
  take-both zero (r ∷ rs) ts =
      ap (λ k. both [] (take k ts)) {x = 0} {y = 0 - suc (length rs)} (omega arith)
  take-both (suc n) (r ∷ rs) ts = ap (◌∷◌ (inl r)) (
      take-both n rs ts
      ∙ ap (λ k. both (take n rs) (take k ts)) {x = n - length rs} {y = suc n - suc (length rs)}
          (omega arith))

  drop-right : (n : ℕ) (ts : List B) → drop n (both [] ts) ≡ both [] (drop n ts)
  drop-right zero ts = refl
  drop-right (suc n) [] = refl
  drop-right (suc n) (t ∷ ts) = drop-right n ts

  drop-both :
      (n : ℕ) (rs : List A) (ts : List B)
      → drop n (both rs ts) ≡ both (drop n rs) (drop (n - length rs) ts)
  drop-both n [] ts =
      drop-right n ts
      ∙ rw (drop-nil {A = A} n) (ap (λ k. both [] (drop k ts)) {x = n} {y = n - 0} (omega arith))
  drop-both zero (r ∷ rs) ts =
      ap (λ k. both (r ∷ rs) (drop k ts)) {x = 0} {y = 0 - suc (length rs)} (omega arith)
  drop-both (suc n) (r ∷ rs) ts =
      drop-both n rs ts
      ∙ ap (λ k. both (drop n rs) (drop k ts)) {x = n - length rs} {y = suc n - suc (length rs)}
          (omega arith)

module _ (c : Encoding) {R T : Type 0} (rs : List R) (ts : List T) where
  -- The page of the combined list from `start` to `end`, cut into its two parts.
  abbrev pub segment : ℕ → List R → List T → ResourcePage R T
  segment end some_rs some_ts = record {
    resources = some_rs;
    templates = some_ts;
    total = length rs + length ts;
    next_cursor = if ltb end (length rs + length ts) then encode_cursor c (pos end) else [];
    has_more = ltb end (length rs + length ts);
  }

  abbrev early_page : ℕ → ℕ → ResourcePage R T
  early_page l start =
      segment (start + l) (take l (drop start rs))
        (take (l - (length rs - start)) (drop (start - length rs) ts))

  abbrev late_page : ℕ → ℕ → ResourcePage R T
  late_page l start =
      segment (start + (l + (start - length rs))) []
        (take (l + (start - length rs)) (drop (start - length rs) ts))

module _ (c : Encoding) {R T : Type 0} (rs : List R) (ts : List T) (l start : ℕ)
    (room : length rs + length ts + start + start + l ≤ max_int) where
  -- From an offset among the resources on, or right behind them.
  early :
      start ≤ length rs → resources_from c rs ts (pos l) start ≡ listed (early_page c rs ts l start)
  unfolding resources_from
  early h = rw (actual_end_early _ _ l start room h) (
      rw (res_end_pos _ _ l start room) (
        rw (templ_start_pos _ _ l start room) (
          rw (templ_end_early _ _ l start room h) (
            rw (cut_clipped rs start l _ refl) (
              rw
                (cut_clipped ts (start - length rs) (l - (length rs - start))
                  (min (length ts) (l - (length rs - start))) (omega arith))
                (ground arith))))))

  late :
      length rs < start → resources_from c rs ts (pos l) start ≡ listed (late_page c rs ts l start)
  unfolding resources_from
  late h = rw (actual_end_late _ _ l start room h) (
      rw (res_end_late _ _ l start room h) (
        rw (templ_start_pos _ _ l start room) (
          rw (templ_end_late _ _ l start room h) (
            rw (cut_clipped rs start 0 (length rs) (ground arith)) (
              rw (cut_clipped ts (start - length rs) (l + (start - length rs)) _ refl)
                (ground arith))))))

as_segment :
    {R T : Type 0} (rs : List R) (ts : List T) (l start : ℕ)
    → both (take l (drop start rs)) (take (l - (length rs - start)) (drop (start - length rs) ts))
      ≡ take l (drop start (both rs ts))
as_segment rs ts l start =
    ap (λ k. both (take l (drop start rs)) (take (l - k) (drop (start - length rs) ts)))
      {x = length rs - start} {y = length (drop start rs)} (omega (arith, length-drop start rs))
    ∙ sym (
        ap (take l) (drop-both start rs ts)
        ∙ take-both l (drop start rs) (drop (start - length rs) ts))

late_length :
    {T : Type 0} (n : ℕ) (ts : List T) (l start : ℕ)
    → n < start
    → length (take (l + (start - n)) (drop (start - n) ts))
      ≡ min (l + (start - n)) (n + length ts - start)
late_length n ts l start h =
    omega (arith, length-take (l + (start - n)) (drop (start - n) ts), length-drop (start - n) ts)

-- The resources and the templates of a listing, each in the order of this call.
abbrev pub resources_in :
    (List Resource → List Resource) → BaseResourcesProvider → Text → Bool → List Resource
resources_in order p uri recursive =
    filter_by_uri (λ (r : Resource). r.uri) uri recursive (order (values p.resources))

abbrev pub templates_in :
    (List ResourceTemplate → List ResourceTemplate)
    → BaseResourcesProvider
    → Text
    → Bool
    → List ResourceTemplate
templates_in order p uri recursive =
    filter_by_uri (λ (t : ResourceTemplate). t.uri) uri recursive (order (values p.templates))

module _ (c : Encoding) (order : List Resource → List Resource)
    (order' : List ResourceTemplate → List ResourceTemplate) (p : BaseResourcesProvider)
    (uri : Text) (recursive : Bool) (params : PaginationParams) (l start : ℕ)
    (el : params.limit ≡ pos l) (hl : 0 < l) (ec : decode_cursor c params.cursor ≡ offset start)
    (room : length (resources_in order p uri recursive)
        + length (templates_in order' p uri recursive)
        + start
        + start
        + l
      ≤ max_int) where
  -- A page that begins among the resources, or right behind them, is the segment of the resources
  -- followed by the templates that begins at the offset and is as long as the limit, and its cursor
  -- is the offset of the rest, if there is one. The limit is positive, and the sums stay below the
  -- range of an int.
  pub list_resources_segment :
      start ≤ length (resources_in order p uri recursive)
      → (page : ResourcePage Resource ResourceTemplate) × (list_resources c order order' p uri
            recursive
            (some params)
          ≡ listed page)
        × (both page.resources page.templates
            ≡ take l (
                drop start (
                  both (resources_in order p uri recursive) (templates_in order' p uri recursive))))
        × (page.has_more
            ≡ ltb (start + l) (
                length (resources_in order p uri recursive)
                + length (templates_in order' p uri recursive)))
        × (page.next_cursor ≡ (if page.has_more then encode_cursor c (pos (start + l)) else []))
  unfolding list_resources
  list_resources_segment h = (
    early_page c (resources_in order p uri recursive) (templates_in order' p uri recursive) l start,
    rw (limit_of_pos params l el hl) (rw ec (early c _ _ l start room h)),
    as_segment _ _ l start,
    refl,
    refl,
  )

  -- A page that begins further down, among the templates, holds more than the limit wherever that
  -- many templates are left: as many more as the offset lies behind the last resource.
  pub list_resources_exceeds :
      length (resources_in order p uri recursive) < start
      → (page : ResourcePage Resource ResourceTemplate) × (list_resources c order order' p uri
            recursive
            (some params)
          ≡ listed page)
        × (length page.templates
            ≡ min (l + (start - length (resources_in order p uri recursive))) (
                length (resources_in order p uri recursive)
                + length (templates_in order' p uri recursive)
                - start))
  unfolding list_resources
  list_resources_exceeds h = (
    late_page c (resources_in order p uri recursive) (templates_in order' p uri recursive) l start,
    rw (limit_of_pos params l el hl) (rw ec (late c _ _ l start room h)),
    late_length (length (resources_in order p uri recursive)) (templates_in order' p uri recursive)
        l start h,
  )
