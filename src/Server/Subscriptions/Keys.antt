-- ===== src/Server/Subscriptions/Keys.antt =====
-- sendBatchedNotifications of pkg/server/subscriptions.go: the keys of the groups.
use mcp_sdk_go.Base.Text.{Text, text_eq, text_eq_iff, text_eq_flip}
use mcp_sdk_go.Base.Dict.{Dict, lookup, insert, lookup-insert}
use mcp_sdk_go.Base.{◌≡◌, inl, inr, refl, ◌∙◌, subst, List, [], ◌∷◌, none, arith, Bool-cases}
use mcp_sdk_go.Server.Subscriptions.{
  Subscription, ResourceChange, ResourcesChangedParams, covers, add_change, add_changes, group_at,
}
use mcp_sdk_go.Server.Subscriptions.Batching.{note_group, visit_subscriptions, visit_batch}

-- Every group has the URI of its key, and no key stands twice.
abbrev pub Keyed : Dict ResourcesChangedParams → Type 0
Keyed [] = Unit
Keyed ((k, g) ∷ groups) = (g.uri ≡ k) × (lookup k groups ≡ none) × Keyed groups

Keyed-insert :
    (k : Text) (g : ResourcesChangedParams) (groups : Dict ResourcesChangedParams)
    → g.uri ≡ k
    → Keyed groups
    → Keyed (insert k g groups)
unfolding insert lookup
Keyed-insert k g [] e u = (e, refl, tt)
Keyed-insert k g ((j, w) ∷ groups) e (q, h, u) = elim (Bool-cases (text_eq j k)) [
  | inl same ↦ rw same (e, subst (λ i. lookup i groups ≡ none) ((text_eq_iff j k).0 same) h, u)
  | inr other ↦ rw other (
    q,
    ground (arith, lookup-insert k j g groups, text_eq_flip j k other),
    Keyed-insert k g groups e u,
  )
]

add_change_uri : (g : ResourcesChangedParams) (c : ResourceChange) → (add_change g c).uri ≡ g.uri
unfolding add_change
add_change_uri g c = ground arith

add_changes_uri :
    (g : ResourcesChangedParams) (cs : List ResourceChange) → (add_changes g cs).uri ≡ g.uri
unfolding add_changes
add_changes_uri g [] = refl
add_changes_uri g (c ∷ cs) = add_changes_uri (add_change g c) cs ∙ add_change_uri g c

group_at_uri :
    (k : Text) (groups : Dict ResourcesChangedParams) → Keyed groups → (group_at k groups).uri ≡ k
unfolding lookup
group_at_uri k [] u = refl
group_at_uri k ((j, g) ∷ groups) (q, h, u) = elim (Bool-cases (text_eq j k)) [
  | inl same ↦ rw (same, group_at) (q ∙ (text_eq_iff j k).0 same)
  | inr other ↦ rw (other, group_at) (group_at_uri k groups u)
]

note_group-Keyed :
    (groups : Dict ResourcesChangedParams) (k : Text) (sub : Subscription) (uri : Text)
    (cs : List ResourceChange)
    → Keyed groups
    → Keyed (note_group groups k sub uri cs)
unfolding note_group
note_group-Keyed groups k sub uri cs u = elim (Bool-cases (covers k sub uri)) [
  | inl about ↦ rw about (
      Keyed-insert k (add_changes (group_at k groups) cs) groups
        (add_changes_uri (group_at k groups) cs ∙ group_at_uri k groups u) u)
  | inr other ↦ rw other u
]

visit_subscriptions-Keyed :
    (groups : Dict ResourcesChangedParams) (subs : Dict Subscription) (uri : Text)
    (cs : List ResourceChange)
    → Keyed groups
    → Keyed (visit_subscriptions groups subs uri cs)
unfolding visit_subscriptions
visit_subscriptions-Keyed groups [] uri cs u = u
visit_subscriptions-Keyed groups ((j, s) ∷ subs) uri cs u =
    visit_subscriptions-Keyed (note_group groups j s uri cs) subs uri cs
      (note_group-Keyed groups j s uri cs u)

pub visit_batch-Keyed :
    (groups : Dict ResourcesChangedParams) (subs : Dict Subscription)
    (batch : Dict (List ResourceChange))
    → Keyed groups
    → Keyed (visit_batch groups subs batch)
unfolding visit_batch
visit_batch-Keyed groups subs [] u = u
visit_batch-Keyed groups subs ((uri, cs) ∷ batch) u =
    visit_batch-Keyed (visit_subscriptions groups subs uri cs) subs batch
      (visit_subscriptions-Keyed groups subs uri cs u)
