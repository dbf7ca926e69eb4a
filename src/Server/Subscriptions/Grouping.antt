-- ===== src/Server/Subscriptions/Grouping.antt =====
-- sendBatchedNotifications of pkg/server/subscriptions.go: what one subscription's group holds.
use mcp_sdk_go.Base.Text.{Text, text_eq, text_eq_iff, text_eq_refl}
use mcp_sdk_go.Base.Dict.{Dict, lookup, insert, Unique, lookup-insert_eq, lookup-insert_ne}
use mcp_sdk_go.Base.{
  ◌≡◌, inl, inr, refl, ap, ◌∙◌, subst, true, false, List, [], ◌∷◌, none, some, arith, Bool-cases,
  if◌then◌else◌,
}
use mcp_sdk_go.Server.Subscriptions.{
  Subscription, ResourceChange, ResourcesChangedParams, covers, add_changes, group_at,
}
use mcp_sdk_go.Server.Subscriptions.Batching.{note_group, visit_subscriptions, visit_batch}

-- The changes of a batch that a subscription is about, added to its group one after the other.
abbrev pub merged :
    Text
    → Subscription
    → Dict (List ResourceChange)
    → ResourcesChangedParams
    → ResourcesChangedParams
merged k sub [] g = g
merged k sub ((uri, cs) ∷ batch) g =
    merged k sub batch (if covers k sub uri then add_changes g cs else g)

group_at-insert :
    (k : Text) (g : ResourcesChangedParams) (groups : Dict ResourcesChangedParams)
    → group_at k (insert k g groups) ≡ g
group_at-insert k g groups = rw (lookup-insert_eq k k g groups (text_eq_refl k), group_at) refl

group_at-insert_ne :
    (j k : Text) (g : ResourcesChangedParams) (groups : Dict ResourcesChangedParams)
    → text_eq j k ≡ false
    → group_at k (insert j g groups) ≡ group_at k groups
group_at-insert_ne j k g groups h = rw (lookup-insert_ne j k g groups h, group_at) refl

note_group_own :
    (groups : Dict ResourcesChangedParams) (k : Text) (sub : Subscription) (uri : Text)
    (cs : List ResourceChange)
    → group_at k (note_group groups k sub uri cs)
      ≡ (if covers k sub uri then add_changes (group_at k groups) cs else group_at k groups)
unfolding note_group
note_group_own groups k sub uri cs = elim (Bool-cases (covers k sub uri)) [
  | inl yes_it_does ↦ rw yes_it_does (group_at-insert k _ groups)
  | inr other ↦ rw other refl
]

note_group_other :
    (groups : Dict ResourcesChangedParams) (j k : Text) (sub : Subscription) (uri : Text)
    (cs : List ResourceChange)
    → text_eq j k ≡ false
    → group_at k (note_group groups j sub uri cs) ≡ group_at k groups
unfolding note_group
note_group_other groups j k sub uri cs h = elim (Bool-cases (covers j sub uri)) [
  | inl about ↦ rw about (group_at-insert_ne j k _ groups h)
  | inr other ↦ rw other refl
]

-- A range over the subscriptions leaves the group of a URI that has none.
visit_subscriptions_without :
    (groups : Dict ResourcesChangedParams) (subs : Dict Subscription) (k uri : Text)
    (cs : List ResourceChange)
    → lookup k subs ≡ none
    → group_at k (visit_subscriptions groups subs uri cs) ≡ group_at k groups
unfolding visit_subscriptions lookup
visit_subscriptions_without groups [] k uri cs h = refl
visit_subscriptions_without groups ((j, sub) ∷ subs) k uri cs h = elim (Bool-cases (text_eq j k)) [
  | inl same ↦ absurd (ground arith)
  | inr other ↦
      visit_subscriptions_without (note_group groups j sub uri cs) subs k uri cs (ground arith)
      ∙ note_group_other groups j k sub uri cs other
]

lookup_head :
    (j k : Text) (s sub : Subscription) (subs : Dict Subscription)
    → text_eq j k ≡ true
    → lookup k ((j, s) ∷ subs) ≡ some sub
    → s ≡ sub
unfolding lookup
lookup_head j k s sub subs same h = let q = rw same at h in cc

visit_subscriptions_with :
    (groups : Dict ResourcesChangedParams) (subs : Dict Subscription) (k : Text)
    (sub : Subscription) (uri : Text) (cs : List ResourceChange)
    → Unique subs
    → lookup k subs ≡ some sub
    → group_at k (visit_subscriptions groups subs uri cs)
      ≡ (if covers k sub uri then add_changes (group_at k groups) cs else group_at k groups)
unfolding visit_subscriptions lookup
visit_subscriptions_with groups [] k sub uri cs u h = absurd (cc)
visit_subscriptions_with groups ((j, s) ∷ subs) k sub uri cs (fresh, u) h =
    elim (Bool-cases (text_eq j k)) [
      | inl same ↦
          let jk = (text_eq_iff j k).0 same in
          visit_subscriptions_without (note_group groups j s uri cs) subs k uri cs
            (subst (λ i. lookup i subs ≡ none) jk fresh)
          ∙ ap (λ i. group_at k (note_group groups i s uri cs)) jk
          ∙ ap (λ t. group_at k (note_group groups k t uri cs)) (lookup_head j k s sub subs same h)
          ∙ note_group_own groups k sub uri cs
      | inr other ↦
          visit_subscriptions_with (note_group groups j s uri cs) subs k sub uri cs u (ground arith)
          ∙ rw (note_group_other groups j k s uri cs other) refl
    ]

-- The group of a subscription after the loops over the batch.
pub group_at-visit_batch :
    (groups : Dict ResourcesChangedParams) (subs : Dict Subscription) (k : Text)
    (sub : Subscription) (batch : Dict (List ResourceChange))
    → Unique subs
    → lookup k subs ≡ some sub
    → group_at k (visit_batch groups subs batch) ≡ merged k sub batch (group_at k groups)
unfolding visit_batch
group_at-visit_batch groups subs k sub [] u h = refl
group_at-visit_batch groups subs k sub ((uri, cs) ∷ batch) u h =
    group_at-visit_batch (visit_subscriptions groups subs uri cs) subs k sub batch u h
    ∙ ap (merged k sub batch) (visit_subscriptions_with groups subs k sub uri cs u h)

pub group_at-visit_batch_without :
    (groups : Dict ResourcesChangedParams) (subs : Dict Subscription) (k : Text)
    (batch : Dict (List ResourceChange))
    → lookup k subs ≡ none
    → group_at k (visit_batch groups subs batch) ≡ group_at k groups
unfolding visit_batch
group_at-visit_batch_without groups subs k [] h = refl
group_at-visit_batch_without groups subs k ((uri, cs) ∷ batch) h =
    group_at-visit_batch_without (visit_subscriptions groups subs uri cs) subs k batch h
    ∙ visit_subscriptions_without groups subs k uri cs h
