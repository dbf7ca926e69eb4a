-- ===== src/Transport/Pending.antt =====
-- The pending requests of BaseTransport in pkg/transport/transport.go: WaitForResponse, HandleResponse
-- and Cleanup, with the channels between them. Calls that wait at the same time interleave as events:
-- where a wait begins, where it takes what its channel has, and where its context is done.
pub mod Ready
pub mod Waiting
pub mod Delivery
use mcp_sdk_go.Base.Text.{Text}
use mcp_sdk_go.Base.Dict.{Dict, lookup, insert, remove}
use mcp_sdk_go.Base.{
  ℕ, ◌+◌, Bool, true, false, List, [], ◌∷◌, Option, none, some, ◌==◌, if◌then◌else◌,
}
use mcp_sdk_go.Transport.Dispatch.{Response}

-- A channel with room for one response.
pub record ResponseChannel : Type 0 where
  pub content : Option Response
  pub closed : Bool

abbrev pub fresh_channel : ResponseChannel
fresh_channel = record { content = none; closed = false }

-- Channels are numbered in the order in which they are made. The calls of WaitForResponse that have not
-- returned are known by their channel, with their id.
pub record PendingRequests : Type 0 where
  pub pending_requests : Dict ℕ
  pub channels : ℕ → ResponseChannel
  pub waiting : ℕ → Option Text
  pub next_channel : ℕ

unfoldable pub no_waits : PendingRequests
no_waits = record {
  pending_requests = [];
  channels = λ c. fresh_channel;
  waiting = λ c. none;
  next_channel = 0;
}

abbrev pub set_channel {ℓ} : {A : Type ℓ} → ℕ → A → (ℕ → A) → ℕ → A
set_channel c v channels i = if i == c then v else channels i

-- The first half of WaitForResponse; the channel that it makes is the one returned.
unfoldable pub begin_wait : PendingRequests → Text → PendingRequests × ℕ
begin_wait w id = (
  record {
    pending_requests = insert id w.next_channel w.pending_requests;
    channels = set_channel w.next_channel fresh_channel w.channels;
    waiting = set_channel w.next_channel (some id) w.waiting;
    next_channel = w.next_channel + 1;
  },
  w.next_channel,
)

-- HandleResponse either sends, or finds no request; a send waits for ever on a full channel, with the
-- lock held, and panics on a closed one.
pub data Sending : Type 0 where
  sent not_pending blocks panics : Sending

unfoldable pub handle_response : PendingRequests → Response → PendingRequests × Sending
handle_response w response = elim (lookup response.id w.pending_requests) [
  | none ↦ (w, not_pending)
  | some c ↦ if (w.channels c).closed then (w, panics) else elim (w.channels c).content [
    | some _ ↦ (w, blocks)
    | none ↦ (
      record w {
        pending_requests = remove response.id w.pending_requests;
        channels = set_channel c (record { content = some response; closed = false }) w.channels;
      },
      sent,
    )
  ]
]

-- What a wait returns from its channel: a response, nothing from a closed one (a nil pointer); or it
-- waits on. A call that has returned takes nothing any more.
pub data Taken : Type 0 where
  takes_response : Response → Taken
  takes_nil waits_on has_returned : Taken

unfoldable pub take_response : PendingRequests → ℕ → PendingRequests × Taken
take_response w c = elim (w.waiting c) [
  | none ↦ (w, has_returned)
  | some id ↦ elim (w.channels c).content [
    | some response ↦ (
      record w {
        channels = set_channel c (record (w.channels c) { content = none }) w.channels;
        waiting = set_channel c none w.waiting;
      },
      takes_response response,
    )
    | none ↦
        if (w.channels c).closed
        then (record w { waiting = set_channel c none w.waiting }, takes_nil)
        else (w, waits_on)
  ]
]

-- The context of a wait is done, and the wait returns its error.
unfoldable pub give_up : PendingRequests → ℕ → PendingRequests
give_up w c = elim (w.waiting c) [
  | none ↦ w
  | some id ↦ record w {
    pending_requests = remove id w.pending_requests;
    waiting = set_channel c none w.waiting;
  }
]

unfoldable pub close_all : Dict ℕ → (ℕ → ResponseChannel) → ℕ → ResponseChannel
close_all [] channels = channels
close_all ((id, c) ∷ m) channels =
    close_all m (set_channel c (record (channels c) { closed = true }) channels)

unfoldable pub cleanup : PendingRequests → PendingRequests
cleanup w = record w { pending_requests = []; channels = close_all w.pending_requests w.channels }

pub data WaitEvent : Type 0 where
  waits : Text → WaitEvent
  arrives : Response → WaitEvent
  takes : ℕ → WaitEvent
  gives_up : ℕ → WaitEvent
  cleans_up : WaitEvent

pub data WaitResult : Type 0 where
  waiting_at : ℕ → WaitResult
  sending : Sending → WaitResult
  taken : Taken → WaitResult
  no_result : WaitResult

unfoldable pub step_wait : PendingRequests → WaitEvent → PendingRequests × WaitResult
step_wait w (waits id) = let (w', c) = begin_wait w id in (w', waiting_at c)
step_wait w (arrives response) = let (w', r) = handle_response w response in (w', sending r)
step_wait w (takes c) = let (w', r) = take_response w c in (w', taken r)
step_wait w (gives_up c) = (give_up w c, no_result)
step_wait w cleans_up = (cleanup w, no_result)

unfoldable pub run_waits : PendingRequests → List WaitEvent → PendingRequests × List WaitResult
run_waits w [] = (w, [])
run_waits w (e ∷ es) =
    let (w', r) = step_wait w e in let (w'', rs) = run_waits w' es in (w'', r ∷ rs)
