-- ===== src/Server/Labelled/Tags.antt =====
-- The prompts of pkg/server/providers.go: what a registration leaves behind, and what a listing by tag
-- can hold.
use mcp_sdk_go.Base.Int.{ℤ, pos, negsuc}
use mcp_sdk_go.Base.Text.{Text, codes, text_eq, text_eq_iff}
use mcp_sdk_go.Base.Dict.{lookup, lookup-insert}
use mcp_sdk_go.Base.{
  ℕ, zero, suc, ◌≡◌, ◌⊎◌, inl, inr, refl, sym, ◌∙◌, true, false, List, [], ◌∷◌, length, take, drop,
  any, In, Option, none, some, arith, Bool-cases, Option-cases, subst, if◌then◌else◌, ◌-◌, ltb,
}
use mcp_sdk_go.Pagination.{PaginationParams}
use mcp_sdk_go.Server.Cursor.{Encoding, offset, bad, Decoded}
use mcp_sdk_go.Server.Listing.{
  slice, Page, Listing, listed, page_to, page_from, page_at, paginate, select, values,
}
use mcp_sdk_go.Server.Labelled.{
  Prompt, BasePromptsProvider, new_base_prompts_provider, register_prompt, list_prompts, get_prompt,
  found, not_found,
}

-- What RegisterPrompt is called with, one after the other.
unfoldable pub register_all : BasePromptsProvider → List Prompt → BasePromptsProvider
register_all p [] = p
register_all p (q ∷ qs) = register_all (register_prompt p q) qs

-- The last of some prompts with an id.
abbrev pub last_with : Text → Option Prompt → List Prompt → Option Prompt
last_with id last [] = last
last_with id last (q ∷ qs) = last_with id (if text_eq q.id id then some q else last) qs

lookup-register_all :
    (p : BasePromptsProvider) (qs : List Prompt) (id : Text)
    → lookup id (register_all p qs).prompts ≡ last_with id (lookup id p.prompts) qs
unfolding register_all register_prompt
lookup-register_all p [] id = refl
lookup-register_all p (q ∷ qs) id =
    lookup-register_all (register_prompt p q) qs id ∙ rw (lookup-insert q.id id q p.prompts) refl

-- After any registrations GetPrompt finds the last prompt that was registered under the id, and its
-- error names the id exactly if there was none.
pub get_prompt-register_all :
    (qs : List Prompt) (id : Text)
    → get_prompt (register_all new_base_prompts_provider qs) id ≡ elim (last_with id none qs) [
      | none ↦ not_found (record { resource_type = codes "prompt"; id = id })
      | some q ↦ found q
    ]
unfolding get_prompt new_base_prompts_provider lookup
get_prompt-register_all qs id =
    rw (lookup-register_all new_base_prompts_provider qs id, get_prompt) refl

In-take : {A : Type 0} (x : A) (n : ℕ) (xs : List A) → In x (take n xs) → In x xs
In-take x zero xs h = absurd h
In-take x (suc n) [] h = absurd h
In-take x (suc n) (y ∷ ys) (inl e) = inl e
In-take x (suc n) (y ∷ ys) (inr h) = inr (In-take x n ys h)

In-drop : {A : Type 0} (x : A) (n : ℕ) (xs : List A) → In x (drop n xs) → In x xs
In-drop x zero xs h = h
In-drop x (suc n) [] h = absurd h
In-drop x (suc n) (y ∷ ys) h = inr (In-drop x n ys h)

any-labels : (name : Text) (ls : List Text) → any (λ l. text_eq l name) ls ≡ true → In name ls
any-labels name [] h = absurd (cc)
any-labels name (l ∷ ls) h = elim (Bool-cases (text_eq l name)) [
  | inl same ↦ inl (sym ((text_eq_iff l name).0 same))
  | inr other ↦ inr (any-labels name ls (rw other at h))
]

-- What a filtered list holds.
Kept : {A : Type 0} → (A → List Text) → Text → A → List A → Type 0
Kept labels name x xs = In x xs × ((name ≡ []) ⊎ In name (labels x))

stays_later :
    {A : Type 0} (labels : A → List Text) (name : Text) (x y : A) (xs : List A)
    → Kept labels name x xs
    → Kept labels name x (y ∷ xs)
unfolding Kept
stays_later labels name x y xs (h, k) = (inr h, k)

select_keeps :
    {A : Type 0} (labels : A → List Text) (name : Text) (y : A) (ys : List A)
    → (text_eq name [] ≡ true) ⊎ (any (λ l. text_eq l name) (labels y) ≡ true)
    → select labels name (y ∷ ys) ≡ y ∷ select labels name ys
unfolding select
select_keeps labels name y ys (inl all) = rw (all, select) refl
select_keeps labels name y ys (inr fits) = elim (Bool-cases (text_eq name [])) [
  | inl all ↦ rw (all, select) refl
  | inr named ↦ rw (named, select) (rw fits refl)
]

select_drops :
    {A : Type 0} (labels : A → List Text) (name : Text) (y : A) (ys : List A)
    → text_eq name [] ≡ false
    → any (λ l. text_eq l name) (labels y) ≡ false
    → select labels name (y ∷ ys) ≡ select labels name ys
unfolding select
select_drops labels name y ys named other = rw (named, select) (rw other refl)

stays_first :
    {A : Type 0} (labels : A → List Text) (name : Text) (x y : A) (ys : List A)
    → (name ≡ []) ⊎ In name (labels y)
    → (In x (select labels name ys) → Kept labels name x ys)
    → In x (y ∷ select labels name ys)
    → Kept labels name x (y ∷ ys)
unfolding Kept
stays_first labels name x y ys why later (inl e) = (inl e, rw e why)
stays_first labels name x y ys why later (inr k) = stays_later labels name x y ys (later k)

select-In :
    {A : Type 0} (labels : A → List Text) (name : Text) (x : A) (xs : List A)
    → In x (select labels name xs)
    → Kept labels name x xs
unfolding select
select-In labels name x [] h = absurd h
select-In labels name x (y ∷ ys) h = elim (Bool-cases (text_eq name [])) [
  | inl all ↦
      stays_first labels name x y ys (inl ((text_eq_iff name []).0 all))
        (select-In labels name x ys) (subst (In x) (select_keeps labels name y ys (inl all)) h)
  | inr named ↦ elim (Bool-cases (any (λ l. text_eq l name) (labels y))) [
    | inl fits ↦
        stays_first labels name x y ys (inr (any-labels name (labels y) fits))
          (select-In labels name x ys) (subst (In x) (select_keeps labels name y ys (inr fits)) h)
    | inr other ↦
        stays_later labels name x y ys
          (select-In labels name x ys (subst (In x) (select_drops labels name y ys named other) h))
  ]
]

slice-some :
    {A : Type 0} (items xs : List A) (start n : ℕ)
    → slice items start (pos n) ≡ some xs
    → take (n - start) (drop start items) ≡ xs
unfolding slice
slice-some items xs start n e = ground arith

slice-In :
    {A : Type 0} (items xs : List A) (start : ℕ) (end : ℤ) (x : A)
    → slice items start end ≡ some xs
    → In x xs
    → In x items
unfolding slice
slice-In items xs start (negsuc n) x e h = absurd (cc)
slice-In items xs start (pos n) x e h =
    In-drop x start items
      (In-take x (n - start) _ (subst (In x) (sym (slice-some items xs start n e)) h))

listed-items :
    {A : Type 0} (p q : Page A) → ◌≡◌ {A = Listing A} (listed p) (listed q) → p.items ≡ q.items
listed-items p q e = cc

module _ (c : Encoding) {A : Type 0} where
  page_to-In :
      (items : List A) (start : ℕ) (end : ℤ) (page : Page A) (x : A)
      → page_to c items start end ≡ listed page
      → In x page.items
      → In x items
  unfolding page_to
  page_to-In items start end page x e h = elim (Bool-cases (ltb start (length items))) [
    | inr beyond ↦ absurd (subst (In x) (sym (listed-items _ page (rw (beyond, page_to) at e))) h)
    | inl within ↦ elim (Option-cases (slice items start end)) [
      | inl broken ↦ let q = rw (within, page_to) at e in let r = rw broken at q in absurd (cc)
      | inr (xs, cut) ↦
          let opened = rw (within, page_to) at e in
          let q = rw cut at opened in
          slice-In items xs start end x cut (subst (In x) (sym (listed-items _ page q)) h)
    ]
  ]

  page_at-In :
      (items : List A) (limit : ℤ) (d : Decoded) (page : Page A) (x : A)
      → page_at c items limit d ≡ listed page
      → In x page.items
      → In x items
  unfolding page_from
  page_at-In items limit (offset start) page x e h = page_to-In items start _ page x e h
  page_at-In items limit (bad b) page x e h = absurd (cc)

  -- A page holds nothing but items of the list.
  pub paginate-In :
      (items : List A) (pagination : Option PaginationParams) (page : Page A) (x : A)
      → paginate c items pagination ≡ listed page
      → In x page.items
      → In x items
  unfolding paginate
  paginate-In items pagination page x e h = page_at-In items _ _ page x e h

-- Whatever a page of ListPrompts holds is registered and, unless the tag is empty, has the tag, for
-- any order of the range over the map that lists nothing but the registered prompts.
pub list_prompts_tagged :
    (c : Encoding) (order : List Prompt → List Prompt) (p : BasePromptsProvider) (tag : Text)
    (pagination : Option PaginationParams) (page : Page Prompt) (q : Prompt)
    → (In q (order (values p.prompts)) → In q (values p.prompts))
    → list_prompts c order p tag pagination ≡ listed page
    → In q page.items
    → In q (values p.prompts) × ((tag ≡ []) ⊎ In tag q.tags)
unfolding list_prompts Kept
list_prompts_tagged c order p tag pagination page q same e h =
    let (k, why) =
      select-In (λ (r : Prompt). r.tags) tag q _ (paginate-In c _ pagination page q e h) in
    (same k, why)
