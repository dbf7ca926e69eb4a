-- ===== src/Server/Subscriptions.antt =====
-- pkg/server/subscriptions.go, with ResourceContents and ResourcesChangedParams of
-- pkg/protocol/resources.go. The goroutine that batches the changes is the two events `receives` and
-- `ticks`; times are numbers, and each event that reads the clock has its time. The notifier's errors
-- are only logged, so what it is handed is all that counts.
pub mod Batching
pub mod Covering
pub mod Grouping
pub mod Keys
pub mod Delivery
pub mod Told
pub mod Lifetime
use mcp_sdk_go.Base.Text.{Text, codes, text_eq}
use mcp_sdk_go.Base.Dict.{Dict, lookup, insert, remove}
use mcp_sdk_go.Base.{
  ℕ, Bool, true, false, ◌&&◌, ◌||◌, not, List, [], ◌∷◌, ◌++◌, length, take, drop, any, Option, none,
  some, ltb, leb, ◌==◌, if◌then◌else◌,
}
use mcp_sdk_go.Server.Resources.{Resource}

pub record Subscription : Type 0 where
  pub uri : Text
  pub recursive : Bool
  pub created_at : ℕ
  pub last_update : ℕ

pub record ResourceContents : Type 0 where
  pub uri : Text
  pub kind : Text
  pub content : Text
  pub encoding : Text
  pub metadata : Dict Text

pub data ResourceChangeType : Type 0 where
  resource_added resource_modified resource_removed resource_updated : ResourceChangeType

pub record ResourceChange : Type 0 where
  pub kind : ResourceChangeType
  pub resource : Option Resource
  pub contents : Option ResourceContents
  pub uri : Text

-- Its `Resources` are always nil here.
pub record ResourcesChangedParams : Type 0 where
  pub uri : Text
  pub added : List Resource
  pub modified : List Resource
  pub removed : List Text

-- The calls of the notifier; an update is never a deletion here.
pub data Notification : Type 0 where
  resources_changed : ResourcesChangedParams → Notification
  resource_contents : Text → ResourceContents → Notification

-- The manager and its goroutine: the queue of the channel, the batch, and whether Stop has run.
pub record ResourceSubscriptionManager : Type 0 where
  pub subscriptions : Dict Subscription
  pub changes : List ResourceChange
  pub batched_changes : Dict (List ResourceChange)
  pub stopped : Bool

unfoldable pub new_resource_subscription_manager : ResourceSubscriptionManager
new_resource_subscription_manager = record {
  subscriptions = [];
  changes = [];
  batched_changes = [];
  stopped = false;
}

-- `s[i] == c`, for an index within the text.
unfoldable pub byte_is : List ℕ → ℕ → Bool
byte_is [] c = false
byte_is (b ∷ bs) c = b == c

unfoldable pub is_child_resource : Text → Text → Bool
is_child_resource child_uri parent_uri =
    if leb (length child_uri) (length parent_uri)
    then false
    else text_eq (take (length parent_uri) child_uri) parent_uri
      && byte_is (drop (length parent_uri) child_uri) b'/'

-- The error of Subscribe is always nil.
unfoldable pub subscribe :
    ResourceSubscriptionManager → Text → Bool → ℕ → ResourceSubscriptionManager
subscribe m uri recursive now = elim (lookup uri m.subscriptions) [
  | some _ ↦ m
  | none ↦ record m { subscriptions = insert uri sub m.subscriptions }
]
  where
    sub : Subscription
    sub = record { uri = uri; recursive = recursive; created_at = now; last_update = now }

-- The error names the URI.
unfoldable pub unsubscribe :
    ResourceSubscriptionManager → Text → ResourceSubscriptionManager × Option Text
unsubscribe m uri = elim (lookup uri m.subscriptions) [
  | none ↦ (m, some uri)
  | some _ ↦ (record m { subscriptions = remove uri m.subscriptions }, none)
]

abbrev pub has_key : Text → Dict Subscription → Bool
has_key uri subs = elim (lookup uri subs) [ none ↦ false | some _ ↦ true ]

unfoldable pub is_subscribed : ResourceSubscriptionManager → Text → Bool
is_subscribed m uri =
    has_key uri m.subscriptions
    || any (λ (e : Text × Subscription). e.1.recursive && is_child_resource uri e.0) m.subscriptions

unfoldable pub should_notify : ResourceSubscriptionManager → Text → Bool
should_notify m uri =
    has_key uri m.subscriptions
    || any
        (λ (e : Text × Subscription).
          e.1.recursive && (text_eq uri e.0 || is_child_resource uri e.0))
        m.subscriptions

abbrev pub channel_size : ℕ
channel_size = 100

-- `none` is the panic of a send on a closed channel: Stop has closed it.
unfoldable pub notify_resource_change :
    ResourceSubscriptionManager → ResourceChange → Option ResourceSubscriptionManager
notify_resource_change m change =
    if m.stopped
    then none
    else if ltb (length m.changes) channel_size
    then some (record m { changes = m.changes ++ change ∷ [] })
    else some m

-- A missing key reads as the nil slice.
abbrev pub batch_at : Text → Dict (List ResourceChange) → List ResourceChange
batch_at uri batch = elim (lookup uri batch) [ none ↦ [] | some cs ↦ cs ]

-- The case of processChanges that takes a change off the channel.
unfoldable pub receive : ResourceSubscriptionManager → ResourceChange → ResourceSubscriptionManager
receive m change =
    if should_notify m change.uri
    then record m {
      batched_changes =
          insert change.uri (batch_at change.uri m.batched_changes ++ change ∷ [])
            m.batched_changes;
    }
    else m

-- The test of sendBatchedNotifications.
unfoldable pub covers : Text → Subscription → Text → Bool
covers sub_uri sub uri = text_eq uri sub_uri || (sub.recursive && is_child_resource uri sub_uri)

abbrev pub empty_group : Text → ResourcesChangedParams
empty_group uri = record { uri = uri; added = []; modified = []; removed = [] }

unfoldable pub add_change : ResourcesChangedParams → ResourceChange → ResourcesChangedParams
add_change g change = elim change.kind [
  | resource_added ↦ elim change.resource [
    | none ↦ g
    | some r ↦ record g { added = g.added ++ r ∷ [] }
  ]
  | resource_modified ↦ elim change.resource [
    | none ↦ g
    | some r ↦ record g { modified = g.modified ++ r ∷ [] }
  ]
  | resource_removed ↦ record g { removed = g.removed ++ change.uri ∷ [] }
  | resource_updated ↦ g
]

unfoldable pub add_changes : ResourcesChangedParams → List ResourceChange → ResourcesChangedParams
add_changes g [] = g
add_changes g (c ∷ cs) = add_changes (add_change g c) cs

abbrev pub group_at : Text → Dict ResourcesChangedParams → ResourcesChangedParams
group_at sub_uri groups = elim (lookup sub_uri groups) [ none ↦ empty_group sub_uri | some g ↦ g ]
