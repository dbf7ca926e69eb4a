-- ===== src/Server/Subscriptions/Told.antt =====
-- What a tick of the ticker in pkg/server/subscriptions.go tells a subscription, said without the loops
-- of sendBatchedNotifications.
use mcp_sdk_go.Base.Text.{Text, codes, text_eq, has_prefix}
use mcp_sdk_go.Base.Dict.{Dict, lookup, Unique}
use mcp_sdk_go.Base.{
  ℕ, ◌≡◌, inl, inr, refl, sym, ap, ◌∙◌, Bool, true, false, ◌&&◌, ◌||◌, List, [], ◌∷◌, ◌++◌,
  append-nil, append_assoc, Option, none, some, arith, Bool-cases, if◌then◌else◌,
}
use mcp_sdk_go.Server.Resources.{Resource}
use mcp_sdk_go.Server.Subscriptions.{
  Subscription, ResourceChange, ResourceChangeType, resource_added, resource_modified,
  resource_removed, resource_updated, ResourcesChangedParams, ResourceSubscriptionManager, covers,
  empty_group, add_change, add_changes, is_child_resource, byte_is,
}
use mcp_sdk_go.Server.Subscriptions.Batching.{is_empty_group, tick}
use mcp_sdk_go.Server.Subscriptions.Grouping.{merged, group_at-visit_batch}
use mcp_sdk_go.Server.Subscriptions.Delivery.{changes_for, changes_for-tick, unless_empty}

-- A URI that a subscription is about: its own or, if it is recursive, one below it.
abbrev pub is_about : Text → Subscription → Text → Bool
is_about k sub uri = text_eq uri k || (sub.recursive && has_prefix uri (k ++ codes "/"))

abbrev pub about : Text → Subscription → Dict (List ResourceChange) → List ResourceChange
about k sub [] = []
about k sub ((uri, cs) ∷ batch) = (if is_about k sub uri then cs else []) ++ about k sub batch

abbrev pub named : Option Resource → List Resource
named none = []
named (some r) = r ∷ []

-- The resources that were added, those that were modified, and the URIs that were removed.
abbrev pub added_in : List ResourceChange → List Resource
added_in [] = []
added_in (c ∷ cs) = (elim c.kind [ resource_added ↦ named c.resource | _ ↦ [] ]) ++ added_in cs

abbrev pub modified_in : List ResourceChange → List Resource
modified_in [] = []
modified_in (c ∷ cs) =
    (elim c.kind [ resource_modified ↦ named c.resource | _ ↦ [] ]) ++ modified_in cs

abbrev pub removed_in : List ResourceChange → List Text
removed_in [] = []
removed_in (c ∷ cs) = (elim c.kind [ resource_removed ↦ c.uri ∷ [] | _ ↦ [] ]) ++ removed_in cs

-- One list of changes, unless there is nothing to list.
abbrev pub listing : Text → List Resource → List Resource → List Text → List ResourcesChangedParams
listing k [] [] [] = []
listing k added modified removed =
    record { uri = k; added = added; modified = modified; removed = removed } ∷ []

abbrev pub told : Text → List ResourceChange → List ResourcesChangedParams
told k cs = listing k (added_in cs) (modified_in cs) (removed_in cs)

abbrev extended : ResourcesChangedParams → List ResourceChange → ResourcesChangedParams
extended g cs = record g {
  added = g.added ++ added_in cs;
  modified = g.modified ++ modified_in cs;
  removed = g.removed ++ removed_in cs;
}

child_prefix : (uri k : Text) → is_child_resource uri k ≡ has_prefix uri (k ++ codes "/")
unfolding is_child_resource byte_is text_eq has_prefix
child_prefix [] [] = refl
child_prefix [] (y ∷ ys) = ground arith
child_prefix (x ∷ xs) [] = ground arith
child_prefix (x ∷ xs) (y ∷ ys) = ground (arith, child_prefix xs ys)

covers-is_about :
    (k : Text) (sub : Subscription) (uri : Text) → covers k sub uri ≡ is_about k sub uri
unfolding covers
covers-is_about k sub uri = rw (child_prefix uri k) refl

extended_nil : (g : ResourcesChangedParams) → g ≡ extended g []
extended_nil g = rw (append-nil g.added, append-nil g.modified, append-nil g.removed) refl

add_change-extended :
    (g : ResourcesChangedParams) (c : ResourceChange) (cs : List ResourceChange)
    → extended (add_change g c) cs ≡ extended g (c ∷ cs)
unfolding add_change
add_change-extended g c cs = by_kind c.kind c.resource
  where
    made : ResourceChangeType → Option Resource → ResourceChange
    made kind resource = record c { kind = kind; resource = resource }

    by_kind :
        (kind : ResourceChangeType) (resource : Option Resource)
        → extended (add_change g (made kind resource)) cs ≡ extended g (made kind resource ∷ cs)
    by_kind resource_added none = refl
    by_kind resource_added (some r) =
        ap (λ l. record (extended g cs) { added = l }) (append_assoc g.added (r ∷ []) (added_in cs))
    by_kind resource_modified none = refl
    by_kind resource_modified (some r) =
        ap (λ l. record (extended g cs) { modified = l })
          (append_assoc g.modified (r ∷ []) (modified_in cs))
    by_kind resource_removed resource =
        ap (λ l. record (extended g cs) { removed = l })
          (append_assoc g.removed (c.uri ∷ []) (removed_in cs))
    by_kind resource_updated resource = refl

add_changes-extended :
    (g : ResourcesChangedParams) (cs : List ResourceChange) → add_changes g cs ≡ extended g cs
unfolding add_changes
add_changes-extended g [] = extended_nil g
add_changes-extended g (c ∷ cs) =
    add_changes-extended (add_change g c) cs ∙ add_change-extended g c cs

add_changes-append :
    (g : ResourcesChangedParams) (cs ds : List ResourceChange)
    → add_changes (add_changes g cs) ds ≡ add_changes g (cs ++ ds)
unfolding add_changes
add_changes-append g [] ds = refl
add_changes-append g (c ∷ cs) ds = add_changes-append (add_change g c) cs ds

extended-append :
    (g : ResourcesChangedParams) (cs ds : List ResourceChange)
    → extended (extended g cs) ds ≡ extended g (cs ++ ds)
extended-append g cs ds =
    sym (add_changes-extended (extended g cs) ds)
    ∙ ap (λ h. add_changes h ds) (sym (add_changes-extended g cs))
    ∙ add_changes-append g cs ds
    ∙ add_changes-extended g (cs ++ ds)

-- The group of a subscription is the changes of the URIs that it is about.
merged-about :
    (k : Text) (sub : Subscription) (batch : Dict (List ResourceChange))
    (g : ResourcesChangedParams)
    → merged k sub batch g ≡ extended g (about k sub batch)
merged-about k sub [] g = extended_nil g
merged-about k sub ((uri, cs) ∷ batch) g = elim (Bool-cases (is_about k sub uri)) [
  | inl mine ↦
      let c : covers k sub uri ≡ true = covers-is_about k sub uri ∙ mine in
      rw (c, mine)
        (merged-about k sub batch (add_changes g cs)
          ∙ ap (λ h. extended h (about k sub batch)) (add_changes-extended g cs)
          ∙ extended-append g cs (about k sub batch))
  | inr other ↦
      let c : covers k sub uri ≡ false = covers-is_about k sub uri ∙ other in
      rw (c, other) (merged-about k sub batch g)
]

unless_empty-listing :
    (g : ResourcesChangedParams) → unless_empty g ≡ listing g.uri g.added g.modified g.removed
unfolding is_empty_group
unless_empty-listing g = by_lists g.added g.modified g.removed
  where
    by_lists :
        (added modified : List Resource) (removed : List Text)
        → unless_empty (record g { added = added; modified = modified; removed = removed })
          ≡ listing g.uri added modified removed
    by_lists [] [] [] = refl
    by_lists [] [] (r ∷ rs) = ground arith
    by_lists [] (m ∷ ms) rs = ground arith
    by_lists (a ∷ adds) ms rs = ground arith

-- A tick tells a subscription of the changes of the batch whose URI is its own or, if it is recursive,
-- its own followed by a slash and anything: one list with the resources added, the resources modified
-- and the URIs removed, each in the order of the batch, and no list at all if these are none. The map of
-- subscriptions has no key twice.
pub tick_sends :
    (m : ResourceSubscriptionManager) (now : ℕ) (k : Text) (sub : Subscription)
    → Unique m.subscriptions
    → lookup k m.subscriptions ≡ some sub
    → changes_for k (tick now m).1 ≡ told k (about k sub m.batched_changes)
unfolding lookup
tick_sends m now k sub u h =
    changes_for-tick k now m
    ∙ ap unless_empty (
        group_at-visit_batch [] m.subscriptions k sub m.batched_changes u h
        ∙ merged-about k sub m.batched_changes (empty_group k))
    ∙ unless_empty-listing (extended (empty_group k) (about k sub m.batched_changes))
