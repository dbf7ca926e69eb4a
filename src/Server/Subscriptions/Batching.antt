-- ===== src/Server/Subscriptions/Batching.antt =====
-- sendBatchedNotifications and processChanges of pkg/server/subscriptions.go. The loop that groups the
-- changes also sends the content updates: the two effects do not meet, and stand apart here. A range
-- over a map takes its entries in the order of the list. The context of the goroutine is not cancelled.
use mcp_sdk_go.Base.Text.{Text}
use mcp_sdk_go.Base.Dict.{Dict, lookup, insert}
use mcp_sdk_go.Base.{
  ℕ, Bool, true, ◌&&◌, List, [], ◌∷◌, ◌++◌, length, Option, none, some, ◌==◌, if◌then◌else◌,
}
use mcp_sdk_go.Server.Subscriptions.{
  Subscription, resource_updated, ResourceChange, ResourcesChangedParams, Notification,
  resources_changed, resource_contents, ResourceSubscriptionManager, subscribe, unsubscribe,
  notify_resource_change, receive, covers, add_changes, group_at,
}

-- The changes of one URI, for one subscription.
unfoldable pub note_group :
    Dict ResourcesChangedParams
    → Text
    → Subscription
    → Text
    → List ResourceChange
    → Dict ResourcesChangedParams
note_group groups sub_uri sub uri changes =
    if covers sub_uri sub uri
    then insert sub_uri (add_changes (group_at sub_uri groups) changes) groups
    else groups

-- The loop over the subscriptions.
unfoldable pub visit_subscriptions :
    Dict ResourcesChangedParams
    → Dict Subscription
    → Text
    → List ResourceChange
    → Dict ResourcesChangedParams
visit_subscriptions groups [] uri changes = groups
visit_subscriptions groups ((sub_uri, sub) ∷ subs) uri changes =
    visit_subscriptions (note_group groups sub_uri sub uri changes) subs uri changes

-- The loop over the batch.
unfoldable pub visit_batch :
    Dict ResourcesChangedParams
    → Dict Subscription
    → Dict (List ResourceChange)
    → Dict ResourcesChangedParams
visit_batch groups subs [] = groups
visit_batch groups subs ((uri, changes) ∷ batch) =
    visit_batch (visit_subscriptions groups subs uri changes) subs batch

-- The content updates that the same loops send.
unfoldable pub updates_of : List ResourceChange → List Notification
updates_of [] = []
updates_of (c ∷ cs) =
    let rest = updates_of cs in
    elim c.kind [
      | resource_updated ↦ elim c.contents [
        | none ↦ rest
        | some contents ↦ resource_contents c.uri contents ∷ rest
      ]
      | _ ↦ rest
    ]

unfoldable pub updates_for : Dict Subscription → Text → List ResourceChange → List Notification
updates_for [] uri changes = []
updates_for ((sub_uri, sub) ∷ subs) uri changes =
    let rest = updates_for subs uri changes in
    if covers sub_uri sub uri then updates_of changes ++ rest else rest

unfoldable pub updates_in : Dict Subscription → Dict (List ResourceChange) → List Notification
updates_in subs [] = []
updates_in subs ((uri, changes) ∷ batch) = updates_for subs uri changes ++ updates_in subs batch

unfoldable pub is_empty_group : ResourcesChangedParams → Bool
is_empty_group g = (length g.added == 0) && ((length g.modified == 0) && (length g.removed == 0))

-- The loop over the groups: what it sends, and the times that it notes.
unfoldable pub send_groups : Dict ResourcesChangedParams → List Notification
send_groups [] = []
send_groups ((sub_uri, g) ∷ groups) =
    let rest = send_groups groups in if is_empty_group g then rest else resources_changed g ∷ rest

unfoldable pub touch : ℕ → Text → Dict Subscription → Dict Subscription
touch now sub_uri subs = elim (lookup sub_uri subs) [
  | none ↦ subs
  | some sub ↦ insert sub_uri (record sub { last_update = now }) subs
]

unfoldable pub touch_groups :
    ℕ → Dict ResourcesChangedParams → Dict Subscription → Dict Subscription
touch_groups now [] subs = subs
touch_groups now ((sub_uri, g) ∷ groups) subs =
    touch_groups now groups (if is_empty_group g then subs else touch now sub_uri subs)

unfoldable pub send_batched_notifications :
    ℕ → Dict Subscription → Dict (List ResourceChange) → Dict Subscription × List Notification
send_batched_notifications now subs batch =
    let groups = visit_batch [] subs batch in
    (touch_groups now groups subs, updates_in subs batch ++ send_groups groups)

-- The case of processChanges for the ticker.
unfoldable pub tick :
    ℕ → ResourceSubscriptionManager → ResourceSubscriptionManager × List Notification
tick now m = if length m.batched_changes == 0 then (m, []) else (
  record m {
    subscriptions = (send_batched_notifications now m.subscriptions m.batched_changes).0;
    batched_changes = [];
  },
  (send_batched_notifications now m.subscriptions m.batched_changes).1,
)

-- The second call panics, as it closes a closed channel.
unfoldable pub stop : ResourceSubscriptionManager → Option ResourceSubscriptionManager
stop m = if m.stopped then none else some (record m { stopped = true })

pub data ManagerEvent : Type 0 where
  subscribes : Text → Bool → ℕ → ManagerEvent
  unsubscribes : Text → ManagerEvent
  notifies : ResourceChange → ManagerEvent
  receives stops : ManagerEvent
  ticks : ℕ → ManagerEvent

-- The front of the queue goes into the batch.
unfoldable pub receive_next : ResourceSubscriptionManager → ResourceSubscriptionManager
receive_next m = elim m.changes [ [] ↦ m | c ∷ cs ↦ receive (record m { changes = cs }) c ]

abbrev pub quiet {ℓ} : {A : Type ℓ} → Option A → Option (A × List Notification)
quiet none = none
quiet (some a) = some (a, [])

-- `none` is a panic. A stopped manager has no goroutine left.
unfoldable pub step :
    ResourceSubscriptionManager
    → ManagerEvent
    → Option (ResourceSubscriptionManager × List Notification)
step m (subscribes uri recursive now) = some (subscribe m uri recursive now, [])
step m (unsubscribes uri) = some ((unsubscribe m uri).0, [])
step m (notifies change) = quiet (notify_resource_change m change)
step m receives = some (if m.stopped then m else receive_next m, [])
step m stops = quiet (stop m)
step m (ticks now) = if m.stopped then some (m, []) else some (tick now m)

unfoldable pub run :
    ResourceSubscriptionManager
    → List ManagerEvent
    → Option (ResourceSubscriptionManager × List Notification)
run m [] = some (m, [])
run m (e ∷ es) = elim (step m e) [
  | none ↦ none
  | some (m', out) ↦ elim (run m' es) [ none ↦ none | some (m'', rest) ↦ some (m'', out ++ rest) ]
]
