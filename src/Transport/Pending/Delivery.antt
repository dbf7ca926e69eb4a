-- ===== src/Transport/Pending/Delivery.antt =====
-- What WaitForResponse in pkg/transport/transport.go returns for a response that comes while it waits.
use mcp_sdk_go.Base.Text.{Text}
use mcp_sdk_go.Base.Dict.{Dict, lookup, lookup-insert, lookup-remove}
use mcp_sdk_go.Base.{
  ℕ, ◌<◌, ◌≡◌, ◌≢◌, refl, sym, ◌∙◌, ap, Bool, true, false, not, List, [], ◌∷◌, some, ◌==◌,
  Bool-cases, Option-cases, inl, inr, arith, All,
}
use mcp_sdk_go.Transport.Dispatch.{Response}
use mcp_sdk_go.Transport.Pending.{
  ResponseChannel, Sending, PendingRequests, no_waits, set_channel, begin_wait, sent,
  takes_response, take_response, give_up, close_all, cleanup, WaitEvent, waits, arrives, takes,
  gives_up, cleans_up, sending, step_wait, run_waits,
}
use mcp_sdk_go.Transport.Pending.Ready.{
  IsReady, handle_response-sent, handle_response-none, step_wait-Proceeds, begin_wait-IsReady,
  run_waits-IsReady, no_waits-IsReady,
}
use mcp_sdk_go.Transport.Pending.Waiting.{
  Waiting, other_wait, spares, pending-take_response, next-take_response, take_response_other,
  run_waits-Unwaited, nobody_waits, begin_wait-Waiting, run_waits-Waiting, eq_of,
}

-- The wait at a channel does not end yet.
abbrev pub leaves : ℕ → WaitEvent → Bool
leaves c (takes d) = not (c == d)
leaves c (gives_up d) = not (c == d)
leaves c _ = true

-- A call waits at a channel that has a response, and no pending request has the channel.
record Holds (c : ℕ) (response : Response) (w : PendingRequests) : Type 0 where
  has : (w.channels c).content ≡ some response
  on : w.waiting c ≡ some response.id
  was_made : c < w.next_channel
  unlisted : (k : Text) → lookup k w.pending_requests ≢ some c

content-close_all :
    (m : Dict ℕ) (channels : ℕ → ResponseChannel) (c : ℕ)
    → (close_all m channels c).content ≡ (channels c).content
unfolding close_all
content-close_all [] channels c = refl
content-close_all ((id, d) ∷ m) channels c =
    content-close_all m (set_channel d (record (channels d) { closed = true }) channels) c
    ∙ elim (Bool-cases (c == d)) [
      | inl same ↦ rw same (ap (λ i. (channels i).content) (sym (eq_of c d same)))
      | inr other ↦ rw other refl
    ]

step_wait-Holds :
    (c : ℕ) (response : Response) (w : PendingRequests) (e : WaitEvent)
    → IsReady w
    → leaves c e ≡ true
    → Holds c response w
    → Holds c response (step_wait w e).0
unfolding step_wait begin_wait give_up cleanup lookup
step_wait-Holds c response w (waits j) r s h = record {
  has = ground (arith, h.has, h.was_made);
  on = ground (arith, h.on, h.was_made);
  was_made = ground (arith, h.was_made);
  unlisted = λ k e.
      ground (arith, lookup-insert j k w.next_channel w.pending_requests, h.was_made, h.unlisted k);
}
step_wait-Holds c response w (arrives other) r s h =
    elim (Option-cases (lookup other.id w.pending_requests)) [
      | inl e ↦ rw (handle_response-none w other e) h
      | inr (d, e) ↦ rw (handle_response-sent w other d r e) (record {
        has = ground (arith, h.has, h.unlisted other.id, e);
        on = h.on;
        was_made = h.was_made;
        unlisted = λ k q. ground (arith, lookup-remove other.id k w.pending_requests, h.unlisted k);
      })
    ]
step_wait-Holds c response w (takes d) r s h =
    let apart : (c == d) ≡ false = ground arith in
    let (waits_still, same) = take_response_other w d c apart in
    record {
      has = ap (λ (v : ResponseChannel). v.content) same ∙ h.has;
      on = waits_still ∙ h.on;
      was_made = rw (next-take_response w d) h.was_made;
      unlisted = rw (pending-take_response w d) h.unlisted;
    }
step_wait-Holds c response w (gives_up d) r s h = elim (Option-cases (w.waiting d)) [
  | inl over ↦ rw (over, give_up) h
  | inr (j, there) ↦
      rw (there, give_up)
        (record {
          has = h.has;
          on = ground (arith, h.on);
          was_made = h.was_made;
          unlisted = λ k e. ground (arith, lookup-remove j k w.pending_requests, h.unlisted k);
        })
]
step_wait-Holds c response w cleans_up r s h = record {
  has = content-close_all w.pending_requests w.channels c ∙ h.has;
  on = h.on;
  was_made = h.was_made;
  unlisted = λ k e. cc;
}

run_waits-Holds :
    (c : ℕ) (response : Response) (w : PendingRequests) (es : List WaitEvent)
    → IsReady w
    → All (λ e. leaves c e ≡ true) es
    → Holds c response w
    → Holds c response (run_waits w es).0
unfolding run_waits
run_waits-Holds c response w [] r s h = h
run_waits-Holds c response w (e ∷ es) r (s, ss) h =
    run_waits-Holds c response (step_wait w e).0 es (step_wait-Proceeds w e r).0 ss
      (step_wait-Holds c response w e r s h)

-- A response that comes to a pending request is in its channel, where its own wait takes it.
arrives-Holds :
    (w : PendingRequests) (response : Response) (c : ℕ)
    → IsReady w
    → Waiting response.id c w
    → Holds c response (step_wait w (arrives response)).0
unfolding step_wait
arrives-Holds w response c r h = rw (handle_response-sent w response c r h.listed) (record {
  has = ground arith;
  on = h.on;
  was_made = r.made response.id c h.listed;
  unlisted = λ k q.
      ground
        (arith, lookup-remove response.id k w.pending_requests, r.own response.id k c h.listed);
})

taken_from :
    (w : PendingRequests) (c : ℕ) (response : Response)
    → Holds c response w
    → (take_response w c).1 ≡ takes_response response
unfolding take_response
taken_from w c response h =
    let content = h.has in let on = h.on in rw (on, take_response) (rw content refl)

-- A call of WaitForResponse, begun after any events of a new transport in which nobody waited under its
-- id, returns the first response that comes under the id, whenever it looks afterwards: the response is
-- sent to its channel, and what the call then takes is that response. Until the response comes, no other
-- call waits under the id, the context of the call goes on, and the transport is not cleaned up; after
-- that the call has not yet returned, neither by taking from its channel nor because its context is
-- done, and anything else may happen, a cleanup included.
pub run_waits-takes_response :
    (before during after : List WaitEvent) (response : Response)
    → let start = begin_wait (run_waits no_waits before).0 response.id in
      let arrival = step_wait (run_waits start.0 during).0 (arrives response) in
      All (λ e. other_wait response.id e ≡ true) before
      → All (λ e. spares response.id start.1 e ≡ true) during
      → All (λ e. leaves start.1 e ≡ true) after
      → (arrival.1 ≡ sending sent)
        × ((take_response (run_waits arrival.0 after).0 start.1).1 ≡ takes_response response)
unfolding step_wait
run_waits-takes_response before during after response o s l =
    let id = response.id in
    let w = (run_waits no_waits before).0 in
    let new = run_waits-IsReady no_waits before no_waits-IsReady in
    let unwaited = run_waits-Unwaited no_waits id before no_waits-IsReady o nobody_waits in
    let (w1, c) = begin_wait w id in
    let w2 = (run_waits w1 during).0 in
    let ready = begin_wait-IsReady w id new in
    let mine = run_waits-Waiting w1 id c during ready s (begin_wait-Waiting w id unwaited) in
    let ready2 = run_waits-IsReady w1 during ready in
    let w3 = (step_wait w2 (arrives response)).0 in
    let last =
      run_waits-Holds c response w3 after (step_wait-Proceeds w2 (arrives response) ready2).0 l
        (arrives-Holds w2 response c ready2 mine) in
    (
      ap (λ (p : PendingRequests × Sending). sending p.1)
          (handle_response-sent w2 response c ready2 mine.listed),
      taken_from (run_waits w3 after).0 c response last,
    )
