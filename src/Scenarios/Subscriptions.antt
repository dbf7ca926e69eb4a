-- ===== src/Scenarios/Subscriptions.antt =====
-- pkg/server/subscriptions.go: a recursive subscription, a change below it, a tick, and a stop.
use mcp_sdk_go.Base.Text.{Text, codes, text_eq}
use mcp_sdk_go.Base.Dict.{lookup, insert, remove}
use mcp_sdk_go.Base.{All, ◌++◌, ◌≡◌, ◌↔◌, In, refl, true, false, List, [], ◌∷◌, none, some}
use mcp_sdk_go.Server.Subscriptions.{
  Subscription, Notification, ResourceChange, resource_removed, ResourceSubscriptionManager,
  resources_changed, new_resource_subscription_manager, subscribe, unsubscribe, is_child_resource,
  byte_is, should_notify, notify_resource_change, receive, covers, add_change, add_changes,
}
use mcp_sdk_go.Server.Subscriptions.Batching.{
  note_group, visit_subscriptions, visit_batch, updates_of, updates_for, updates_in, is_empty_group,
  send_groups, send_batched_notifications, tick, ManagerEvent, stop, stops, touch, touch_groups,
  unsubscribes, subscribes, notifies, receives, ticks, receive_next, step, run,
}
use mcp_sdk_go.Server.Subscriptions.Delivery.{changes_for}
use mcp_sdk_go.Server.Subscriptions.Told.{about, told, tick_sends}
use mcp_sdk_go.Server.Subscriptions.Lifetime.{is_harmless, run-stops}
use mcp_sdk_go.Server.Subscriptions.Covering.{Covers, should_notify_iff}

abbrev gone : ResourceChange
gone = record { kind = resource_removed; resource = none; contents = none; uri = codes "docs/a" }

abbrev waiting : ResourceSubscriptionManager
waiting = record {
  subscriptions =
      (
        codes "docs",
        record { uri = codes "docs"; recursive = true; created_at = 1; last_update = 1 },
      )
      ∷ [];
  changes = [];
  batched_changes = (codes "docs/a", gone ∷ []) ∷ [];
  stopped = false;
}

history : List ManagerEvent
history = subscribes (codes "docs") true 1 ∷ notifies gone ∷ receives ∷ []

reaches_waiting : run new_resource_subscription_manager history ≡ some (waiting, [])
unfolding history run step new_resource_subscription_manager subscribe notify_resource_change
    receive_next receive should_notify is_child_resource byte_is text_eq lookup insert
reaches_waiting = refl

docs_found :
    lookup (codes "docs") waiting.subscriptions
    ≡ some (record { uri = codes "docs"; recursive = true; created_at = 1; last_update = 1 })
unfolding lookup text_eq
docs_found = refl

docs_alone : lookup {V = Subscription} (codes "docs") [] ≡ none
unfolding lookup
docs_alone = refl

tick_sends_example :
    changes_for (codes "docs") (tick 5 waiting).1
    ≡ told (codes "docs") (
        about
          (codes "docs")
          (record { uri = codes "docs"; recursive = true; created_at = 1; last_update = 1 })
          waiting.batched_changes)
tick_sends_example = tick_sends waiting 5 (codes "docs") _ (docs_alone, tt) docs_found

-- The list names the resource that is gone.
docs_hears :
    (tick 5 waiting).1
    ≡ resources_changed
        (record { uri = codes "docs"; added = []; modified = []; removed = codes "docs/a" ∷ [] })
      ∷ []
unfolding tick send_batched_notifications visit_batch visit_subscriptions note_group covers
    is_child_resource byte_is text_eq lookup insert add_changes add_change updates_in updates_for
    updates_of send_groups is_empty_group
docs_hears = refl

-- A manager that sends once, and is stopped with a second change queued.
abbrev sooner : List ManagerEvent
sooner = subscribes (codes "docs") true 1 ∷ notifies gone ∷ receives ∷ ticks 5 ∷ notifies gone ∷ []

abbrev later : List ManagerEvent
later = receives ∷ ticks 9 ∷ unsubscribes (codes "docs") ∷ []

abbrev over : ResourceSubscriptionManager
over = record { subscriptions = []; changes = gone ∷ []; batched_changes = []; stopped = true }

abbrev sent_once : List Notification
sent_once =
    resources_changed
      (record { uri = codes "docs"; added = []; modified = []; removed = codes "docs/a" ∷ [] })
    ∷ []

ends_silent :
    run new_resource_subscription_manager (sooner ++ stops ∷ later) ≡ some (over, sent_once)
unfolding run step new_resource_subscription_manager subscribe unsubscribe stop
    notify_resource_change receive_next receive should_notify is_child_resource byte_is text_eq
    lookup insert remove tick send_batched_notifications visit_batch visit_subscriptions note_group
    covers add_changes add_change updates_in updates_for updates_of send_groups is_empty_group
    touch_groups touch
ends_silent = refl

run-stops_example :
    (q : ResourceSubscriptionManager) × (run new_resource_subscription_manager sooner
      ≡ some (q, sent_once))
    × All (λ e. is_harmless e ≡ true) later
run-stops_example =
    run-stops new_resource_subscription_manager over sooner later sent_once ends_silent

should_notify_iff_example : (should_notify waiting (codes "docs/a") ≡ true) ↔ (
    (k : Text) × (sub : Subscription) × In (k, sub) waiting.subscriptions
    × Covers k sub (codes "docs/a"))
should_notify_iff_example = should_notify_iff waiting (codes "docs/a")
