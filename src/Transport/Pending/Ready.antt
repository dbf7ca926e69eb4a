-- ===== src/Transport/Pending/Ready.antt =====
-- The channels of pending requests in pkg/transport/transport.go are always ready for a response.
use mcp_sdk_go.Base.Text.{Text, text_eq, text_eq_iff}
use mcp_sdk_go.Base.Dict.{lookup, remove, lookup-insert, lookup-remove}
use mcp_sdk_go.Base.{
  Option, ℕ, ◌<◌, ◌≡◌, refl, sym, ◌∙◌, ap, true, false, List, [], ◌∷◌, none, some, ◌==◌, Bool-cases,
  Option-cases, inl, inr, arith, In,
}
use mcp_sdk_go.Transport.Dispatch.{Response}
use mcp_sdk_go.Transport.Pending.{
  ResponseChannel, fresh_channel, PendingRequests, no_waits, set_channel, begin_wait, sent,
  not_pending, blocks, panics, handle_response, take_response, give_up, cleanup, WaitEvent, waits,
  arrives, takes, gives_up, cleans_up, WaitResult, sending, step_wait, run_waits,
}

-- The channel of each pending request has been made, is open and empty, and is no other request's.
pub record IsReady (w : PendingRequests) : Type 0 where
  pub made : (k : Text) (c : ℕ) → lookup k w.pending_requests ≡ some c → c < w.next_channel
  pub empty :
      (k : Text) (c : ℕ) → lookup k w.pending_requests ≡ some c → w.channels c ≡ fresh_channel
  pub own :
      (j k : Text) (c : ℕ)
      → lookup j w.pending_requests ≡ some c
      → lookup k w.pending_requests ≡ some c
      → text_eq j k ≡ true

pub begin_wait-IsReady : (w : PendingRequests) (id : Text) → IsReady w → IsReady (begin_wait w id).0
unfolding begin_wait
begin_wait-IsReady w id r = record {
  made = λ k c e. ground (arith, lookup-insert id k w.next_channel w.pending_requests, r.made k c);
  empty = λ k c e.
      ground (arith, lookup-insert id k w.next_channel w.pending_requests, r.made k c, r.empty k c);
  own = λ j k c e f. ground (
    arith,
    lookup-insert id k w.next_channel w.pending_requests,
    lookup-insert id j w.next_channel w.pending_requests,
    r.made k c,
    r.made j c,
    r.own j k c,
    text_eq_iff j k,
    text_eq_iff id j,
    text_eq_iff id k,
  );
}

-- A response that comes to a pending request is sent to its channel.
pub handle_response-sent :
    (w : PendingRequests) (response : Response) (c : ℕ)
    → IsReady w
    → lookup response.id w.pending_requests ≡ some c
    → handle_response w response ≡ (
      record w {
        pending_requests = remove response.id w.pending_requests;
        channels = set_channel c (record { content = some response; closed = false }) w.channels;
      },
      sent,
    )
unfolding handle_response
handle_response-sent w response c r e =
    let full = r.empty response.id c e in rw (e, handle_response) (rw full refl)

pub handle_response-none :
    (w : PendingRequests) (response : Response)
    → lookup response.id w.pending_requests ≡ none
    → handle_response w response ≡ (w, not_pending)
unfolding handle_response
handle_response-none w response e = rw (e, handle_response) refl

sent-IsReady :
    (w : PendingRequests) (id : Text) (c : ℕ) (v : ResponseChannel)
    → IsReady w
    → lookup id w.pending_requests ≡ some c
    → IsReady (record w {
      pending_requests = remove id w.pending_requests;
      channels = set_channel c v w.channels;
    })
sent-IsReady w id c v r h = record {
  made = λ k d e. ground (arith, lookup-remove id k w.pending_requests, r.made k d);
  empty = λ k d e.
      ground
        (arith, lookup-remove id k w.pending_requests, r.empty k d, r.own id k c, r.own id k d);
  own = λ j k d e f. ground (
    arith,
    lookup-remove id k w.pending_requests,
    lookup-remove id j w.pending_requests,
    r.own j k d,
  );
}

given_up-IsReady :
    (w : PendingRequests) (id : Text) (waiting : ℕ → Option Text)
    → IsReady w
    → IsReady (record w { pending_requests = remove id w.pending_requests; waiting = waiting })
given_up-IsReady w id waiting r = record {
  made = λ k d e. ground (arith, lookup-remove id k w.pending_requests, r.made k d);
  empty = λ k d e. ground (arith, lookup-remove id k w.pending_requests, r.empty k d);
  own = λ j k d e f. ground (
    arith,
    lookup-remove id k w.pending_requests,
    lookup-remove id j w.pending_requests,
    r.own j k d,
  );
}

give_up-IsReady : (w : PendingRequests) (c : ℕ) → IsReady w → IsReady (give_up w c)
unfolding give_up
give_up-IsReady w c r = elim (Option-cases (w.waiting c)) [
  | inl over ↦ rw (over, give_up) r
  | inr (id, on) ↦ rw (on, give_up) (given_up-IsReady w id _ r)
]

cleanup-IsReady : (w : PendingRequests) → IsReady (cleanup w)
unfolding cleanup lookup
cleanup-IsReady w = record { made = λ k d e. cc; empty = λ k d e. cc; own = λ j k d e f. cc }

set_channel_fresh :
    (c d : ℕ) (channels : ℕ → ResponseChannel)
    → channels d ≡ fresh_channel
    → set_channel c (record (channels c) { content = none }) channels d ≡ fresh_channel
set_channel_fresh c d channels e = elim (Bool-cases (d == c)) [
  | inl same ↦ rw same (
      ap (λ (v : ResponseChannel). record { content = none; closed = v.closed })
        (ap channels (sym (eq_of d c same)) ∙ e))
  | inr other ↦ rw other e
]
  where
    eq_of : (a b : ℕ) → (a == b) ≡ true → a ≡ b
    eq_of a b h = ground arith

take_response-IsReady : (w : PendingRequests) (c : ℕ) → IsReady w → IsReady (take_response w c).0
unfolding take_response
take_response-IsReady w c r = elim (Option-cases (w.waiting c)) [
  | inl over ↦ rw (over, take_response) r
  | inr (id, on) ↦ elim (Option-cases (w.channels c).content) [
    | inl e ↦ elim (Bool-cases (w.channels c).closed) [
      | inl shut ↦
          rw (on, take_response)
            (rw e (rw shut (record { made = r.made; empty = r.empty; own = r.own })))
      | inr open_still ↦ rw (on, take_response) (rw e (rw open_still r))
    ]
    | inr (response, e) ↦
        rw (on, take_response)
          (rw e (record {
            made = r.made;
            empty = λ k d h. set_channel_fresh c d w.channels (r.empty k d h);
            own = r.own;
          }))
  ]
]

-- What a step does to ready channels: they stay so, and a response neither waits nor meets a closed
-- channel.
abbrev pub Proceeds : PendingRequests × WaitResult → Type 0
Proceeds (w, r) = IsReady w × (r ≡ sending blocks → ⊥) × (r ≡ sending panics → ⊥)

arrives-Proceeds :
    (w : PendingRequests) (response : Response)
    → IsReady w
    → Proceeds (step_wait w (arrives response))
unfolding step_wait
arrives-Proceeds w response r = elim (Option-cases (lookup response.id w.pending_requests)) [
  | inl e ↦ rw (handle_response-none w response e) (r, λ q. cc, λ q. cc)
  | inr (c, e) ↦
      rw (handle_response-sent w response c r e)
        (sent-IsReady w response.id c _ r e, λ q. cc, λ q. cc)
]

pub step_wait-Proceeds :
    (w : PendingRequests) (e : WaitEvent) → IsReady w → Proceeds (step_wait w e)
unfolding step_wait
step_wait-Proceeds w (waits id) r = (begin_wait-IsReady w id r, λ q. cc, λ q. cc)
step_wait-Proceeds w (arrives response) r = arrives-Proceeds w response r
step_wait-Proceeds w (takes c) r = (take_response-IsReady w c r, λ q. cc, λ q. cc)
step_wait-Proceeds w (gives_up c) r = (give_up-IsReady w c r, λ q. cc, λ q. cc)
step_wait-Proceeds w cleans_up r = (cleanup-IsReady w, λ q. cc, λ q. cc)

pub run_waits-IsReady :
    (w : PendingRequests) (es : List WaitEvent) → IsReady w → IsReady (run_waits w es).0
unfolding run_waits
run_waits-IsReady w [] r = r
run_waits-IsReady w (e ∷ es) r = run_waits-IsReady (step_wait w e).0 es (step_wait-Proceeds w e r).0

run_waits_proceeds :
    (w : PendingRequests) (es : List WaitEvent)
    → IsReady w
    → (In (sending blocks) (run_waits w es).1 → ⊥) × (In (sending panics) (run_waits w es).1 → ⊥)
unfolding run_waits
run_waits_proceeds w [] r = (λ i. i, λ i. i)
run_waits_proceeds w (e ∷ es) r =
    let (next, flows, goes) = step_wait-Proceeds w e r in
    let (more_flows, more_goes) = run_waits_proceeds (step_wait w e).0 es next in
    (
      λ i. elim i [ inl h ↦ flows (sym h) | inr j ↦ more_flows j ],
      λ i. elim i [ inl h ↦ goes (sym h) | inr j ↦ more_goes j ],
    )

pub no_waits-IsReady : IsReady no_waits
unfolding no_waits lookup
no_waits-IsReady = record { made = λ k d e. cc; empty = λ k d e. cc; own = λ j k d e f. cc }

-- Whatever waits, responses, ends of a context and cleanups a new transport has seen, HandleResponse
-- never waits on a full channel, which would keep the lock for ever, and never sends on a closed one.
pub run_waits_never_blocks :
    (es : List WaitEvent)
    → (In (sending blocks) (run_waits no_waits es).1 → ⊥)
      × (In (sending panics) (run_waits no_waits es).1 → ⊥)
run_waits_never_blocks es = run_waits_proceeds no_waits es no_waits-IsReady
