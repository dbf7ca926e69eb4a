-- ===== src/Server/Subscriptions/Delivery.antt =====
-- pkg/server/subscriptions.go: what a tick of the ticker sends about a subscription, and what holds of
-- the manager at any time.
use mcp_sdk_go.Base.Text.{Text, text_eq, text_eq_iff}
use mcp_sdk_go.Base.Dict.{Dict, lookup}
use mcp_sdk_go.Base.{
  ℕ, ◌≡◌, inl, inr, refl, sym, ap, ◌∙◌, subst, true, false, List, [], ◌∷◌, ◌++◌, none, arith,
  length, Bool-cases, if◌then◌else◌, ◌==◌,
}
use mcp_sdk_go.Server.Subscriptions.{
  Subscription, ResourceChange, ResourcesChangedParams, Notification, resources_changed,
  resource_contents, ResourceSubscriptionManager, covers, group_at,
}
use mcp_sdk_go.Server.Subscriptions.Batching.{
  visit_batch, updates_of, updates_for, updates_in, is_empty_group, send_groups,
  send_batched_notifications, tick,
}
use mcp_sdk_go.Server.Subscriptions.Keys.{Keyed, visit_batch-Keyed}
use mcp_sdk_go.Server.Subscriptions.Grouping.{group_at-visit_batch_without}

-- The lists of changes that a subscription is notified of.
abbrev pub changes_for : Text → List Notification → List ResourcesChangedParams
changes_for k [] = []
changes_for k (resources_changed g ∷ out) =
    if text_eq g.uri k then g ∷ changes_for k out else changes_for k out
changes_for k (resource_contents uri contents ∷ out) = changes_for k out

changes_for-append :
    (k : Text) (xs ys : List Notification)
    → changes_for k (xs ++ ys) ≡ changes_for k xs ++ changes_for k ys
changes_for-append k [] ys = refl
changes_for-append k (resources_changed g ∷ xs) ys = ground (arith, changes_for-append k xs ys)
changes_for-append k (resource_contents uri contents ∷ xs) ys = changes_for-append k xs ys

changes_for-updates_of : (k : Text) (cs : List ResourceChange) → changes_for k (updates_of cs) ≡ []
unfolding updates_of
changes_for-updates_of k [] = refl
changes_for-updates_of k (c ∷ cs) = ground (arith, changes_for-updates_of k cs)

changes_for-updates_for :
    (k : Text) (subs : Dict Subscription) (uri : Text) (cs : List ResourceChange)
    → changes_for k (updates_for subs uri cs) ≡ []
unfolding updates_for
changes_for-updates_for k [] uri cs = refl
changes_for-updates_for k ((j, s) ∷ subs) uri cs = elim (Bool-cases (covers j s uri)) [
  | inl about ↦ rw about (
      rw (changes_for-append k (updates_of cs) (updates_for subs uri cs))
        (rw (changes_for-updates_of k cs, changes_for-updates_for k subs uri cs) refl))
  | inr other ↦ rw other (changes_for-updates_for k subs uri cs)
]

changes_for-updates_in :
    (k : Text) (subs : Dict Subscription) (batch : Dict (List ResourceChange))
    → changes_for k (updates_in subs batch) ≡ []
unfolding updates_in
changes_for-updates_in k subs [] = refl
changes_for-updates_in k subs ((uri, cs) ∷ batch) =
    rw (changes_for-append k (updates_for subs uri cs) (updates_in subs batch))
      (rw (changes_for-updates_for k subs uri cs, changes_for-updates_in k subs batch) refl)

send_groups_without :
    (k : Text) (groups : Dict ResourcesChangedParams)
    → Keyed groups
    → lookup k groups ≡ none
    → changes_for k (send_groups groups) ≡ []
unfolding send_groups lookup
send_groups_without k [] u h = refl
send_groups_without k ((j, g) ∷ groups) (q, fresh, u) h =
    ground (arith, send_groups_without k groups u, q)

-- What is sent of a group, if anything.
abbrev pub unless_empty : ResourcesChangedParams → List ResourcesChangedParams
unless_empty g = if is_empty_group g then [] else g ∷ []

module _ (j k : Text) (g : ResourcesChangedParams) (groups : Dict ResourcesChangedParams) where
  group_head : text_eq j k ≡ true → group_at k ((j, g) ∷ groups) ≡ g
  unfolding lookup
  group_head same = rw (same, group_at) refl

  group_tail : text_eq j k ≡ false → group_at k ((j, g) ∷ groups) ≡ group_at k groups
  unfolding lookup
  group_tail other = rw (other, group_at) refl

  send_skips : is_empty_group g ≡ true → send_groups ((j, g) ∷ groups) ≡ send_groups groups
  unfolding send_groups
  send_skips empty = rw empty refl

  send_takes :
      is_empty_group g ≡ false
      → send_groups ((j, g) ∷ groups) ≡ resources_changed g ∷ send_groups groups
  unfolding send_groups
  send_takes full = rw full refl

unless_empty_skips : (g : ResourcesChangedParams) → is_empty_group g ≡ true → unless_empty g ≡ []
unless_empty_skips g empty = rw (empty, unless_empty) refl

unless_empty_takes :
    (g : ResourcesChangedParams) → is_empty_group g ≡ false → unless_empty g ≡ g ∷ []
unless_empty_takes g full = rw (full, unless_empty) refl

changes_for_own :
    (k : Text) (g : ResourcesChangedParams) (out : List Notification)
    → text_eq g.uri k ≡ true
    → changes_for k (resources_changed g ∷ out) ≡ g ∷ changes_for k out
changes_for_own k g out mine = rw mine refl

changes_for_other :
    (k : Text) (g : ResourcesChangedParams) (out : List Notification)
    → text_eq g.uri k ≡ false
    → changes_for k (resources_changed g ∷ out) ≡ changes_for k out
changes_for_other k g out other = rw other refl

changes_for-send_groups :
    (k : Text) (groups : Dict ResourcesChangedParams)
    → Keyed groups
    → changes_for k (send_groups groups) ≡ unless_empty (group_at k groups)
unfolding send_groups lookup
changes_for-send_groups k [] u = (unfold is_empty_group in refl)
changes_for-send_groups k ((j, g) ∷ groups) (q, fresh, u) = elim (Bool-cases (text_eq j k)) [
  | inl same ↦
      let rest =
        send_groups_without k groups u
          (subst (λ i. lookup i groups ≡ none) ((text_eq_iff j k).0 same) fresh) in
      elim (Bool-cases (is_empty_group g)) [
        | inl empty ↦
            ap (changes_for k) (send_skips j k g groups empty)
            ∙ rest
            ∙ sym (unless_empty_skips g empty)
            ∙ ap unless_empty (sym (group_head j k g groups same))
        | inr full ↦
            ap (changes_for k) (send_takes j k g groups full)
            ∙ changes_for_own k g (send_groups groups)
                (subst (λ i. text_eq i k ≡ true) (sym q) same)
            ∙ ap (◌∷◌ g) rest
            ∙ sym (unless_empty_takes g full)
            ∙ ap unless_empty (sym (group_head j k g groups same))
      ]
  | inr other ↦
      let rest =
        changes_for-send_groups k groups u
        ∙ ap unless_empty (sym (group_tail j k g groups other)) in
      elim (Bool-cases (is_empty_group g)) [
        | inl empty ↦ ap (changes_for k) (send_skips j k g groups empty) ∙ rest
        | inr full ↦
            ap (changes_for k) (send_takes j k g groups full)
            ∙ changes_for_other k g (send_groups groups)
                (subst (λ i. text_eq i k ≡ false) (sym q) other)
            ∙ rest
      ]
]

changes_for-sent :
    (k : Text) (now : ℕ) (subs : Dict Subscription) (batch : Dict (List ResourceChange))
    → changes_for k (send_batched_notifications now subs batch).1
      ≡ unless_empty (group_at k (visit_batch [] subs batch))
unfolding send_batched_notifications
changes_for-sent k now subs batch =
    changes_for-append k (updates_in subs batch) (send_groups (visit_batch [] subs batch))
    ∙ (rw (changes_for-updates_in k subs batch) (
        changes_for-send_groups k (visit_batch [] subs batch) (visit_batch-Keyed [] subs batch tt)))

empty_list : {A : Type 0} (xs : List A) → (length xs == 0) ≡ true → [] ≡ xs
empty_list xs h = ground arith

pub changes_for-tick :
    (k : Text) (now : ℕ) (m : ResourceSubscriptionManager)
    → changes_for k (tick now m).1
      ≡ unless_empty (group_at k (visit_batch [] m.subscriptions m.batched_changes))
unfolding tick visit_batch is_empty_group lookup
changes_for-tick k now m = elim (Bool-cases (length m.batched_changes == 0)) [
  | inl idle ↦ rw idle (
      ap (λ b. unless_empty (group_at k (visit_batch [] m.subscriptions b)))
        (empty_list m.batched_changes idle))
  | inr busy ↦ rw busy (changes_for-sent k now m.subscriptions m.batched_changes)
]

-- A tick sends no list of changes for a URI without a subscription of its own.
pub tick_spares :
    (m : ResourceSubscriptionManager) (now : ℕ) (k : Text)
    → lookup k m.subscriptions ≡ none
    → changes_for k (tick now m).1 ≡ []
unfolding lookup is_empty_group
tick_spares m now k h =
    changes_for-tick k now m
    ∙ ap unless_empty (group_at-visit_batch_without [] m.subscriptions k m.batched_changes h)
