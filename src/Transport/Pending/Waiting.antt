-- ===== src/Transport/Pending/Waiting.antt =====
-- The calls that wait for a response in pkg/transport/transport.go, and what keeps one waiting.
use mcp_sdk_go.Base.Text.{Text, text_eq, text_eq_iff, text_eq_refl}
use mcp_sdk_go.Base.Dict.{lookup, lookup-insert, lookup-insert_eq, lookup-remove}
use mcp_sdk_go.Base.{
  none, subst, ℕ, ◌≡◌, ◌≢◌, refl, ◌∙◌, ap, Bool, true, false, not, List, [], ◌∷◌, some, ◌==◌,
  Bool-cases, Option-cases, inl, inr, arith, All,
}
use mcp_sdk_go.Transport.Pending.{
  fresh_channel, waits_on, ResponseChannel, PendingRequests, no_waits, begin_wait, take_response,
  give_up, cleanup, WaitEvent, waits, arrives, takes, gives_up, cleans_up, step_wait, run_waits,
}
use mcp_sdk_go.Transport.Pending.Ready.{
  IsReady, handle_response-sent, handle_response-none, step_wait-Proceeds,
}

-- No wait begins under an id.
abbrev pub other_wait : Text → WaitEvent → Bool
other_wait id (waits j) = not (text_eq j id)
other_wait id _ = true

-- Nothing happens to the request that waits at a channel under an id: no wait begins and no response
-- comes under the id, its context goes on, and the transport is not cleaned up.
abbrev pub spares : Text → ℕ → WaitEvent → Bool
spares id c (waits j) = not (text_eq j id)
spares id c (arrives response) = not (text_eq response.id id)
spares id c (takes d) = true
spares id c (gives_up d) = not (c == d)
spares id c cleans_up = false

-- No call waits under an id.
abbrev pub Unwaited : Text → PendingRequests → Type 0
Unwaited id w = (d : ℕ) → w.waiting d ≢ some id

-- What taking from a channel, and an end of a context, leave of the others.
module _ (w : PendingRequests) (d : ℕ) where
  pub pending-take_response : (take_response w d).0.pending_requests ≡ w.pending_requests
  unfolding take_response
  pending-take_response = elim (Option-cases (w.waiting d)) [
    | inl over ↦ rw (over, take_response) refl
    | inr (id, on) ↦ elim (Option-cases (w.channels d).content) [
      | inr (r, e) ↦ rw (on, take_response) (rw e refl)
      | inl e ↦ elim (Bool-cases (w.channels d).closed) [
        | inl shut ↦ rw (on, take_response) (rw e (rw shut refl))
        | inr open_still ↦ rw (on, take_response) (rw e (rw open_still refl))
      ]
    ]
  ]

  pub next-take_response : (take_response w d).0.next_channel ≡ w.next_channel
  unfolding take_response
  next-take_response = ground arith

  pub take_response_other :
      (c : ℕ)
      → (c == d) ≡ false
      → ((take_response w d).0.waiting c ≡ w.waiting c)
        × ((take_response w d).0.channels c ≡ w.channels c)
  unfolding take_response
  take_response_other c h = ground arith

  take_response_fewer :
      (c : ℕ) (id : Text) → (take_response w d).0.waiting c ≡ some id → w.waiting c ≡ some id
  unfolding take_response
  take_response_fewer c id h = ground arith

step_wait-Unwaited :
    (w : PendingRequests) (id : Text) (e : WaitEvent)
    → IsReady w
    → other_wait id e ≡ true
    → Unwaited id w
    → Unwaited id (step_wait w e).0
unfolding step_wait begin_wait give_up cleanup
step_wait-Unwaited w id (waits j) r o u = λ d q. ground (arith, u d, text_eq_iff j id)
step_wait-Unwaited w id (arrives response) r o u =
    elim (Option-cases (lookup response.id w.pending_requests)) [
      | inl e ↦ rw (handle_response-none w response e) u
      | inr (d, e) ↦ rw (handle_response-sent w response d r e) u
    ]
step_wait-Unwaited w id (takes c) r o u = λ d q. u d (take_response_fewer w c d id q)
step_wait-Unwaited w id (gives_up c) r o u = λ d q. ground (arith, u d)
step_wait-Unwaited w id cleans_up r o u = u

pub run_waits-Unwaited :
    (w : PendingRequests) (id : Text) (es : List WaitEvent)
    → IsReady w
    → All (λ e. other_wait id e ≡ true) es
    → Unwaited id w
    → Unwaited id (run_waits w es).0
unfolding run_waits
run_waits-Unwaited w id [] r o u = u
run_waits-Unwaited w id (e ∷ es) r (o, os) u =
    run_waits-Unwaited (step_wait w e).0 id es (step_wait-Proceeds w e r).0 os
      (step_wait-Unwaited w id e r o u)

pub eq_of : (a b : ℕ) → (a == b) ≡ true → a ≡ b
eq_of a b h = ground arith

-- A call waits on at an empty channel.
empty_waits :
    (w : PendingRequests) (c : ℕ) (id : Text)
    → w.waiting c ≡ some id
    → w.channels c ≡ fresh_channel
    → take_response w c ≡ (w, waits_on)
unfolding take_response
empty_waits w c id on fresh =
    let content : (w.channels c).content ≡ none = ap (λ (v : ResponseChannel). v.content) fresh in
    let still_open : (w.channels c).closed ≡ false = ap (λ (v : ResponseChannel). v.closed) fresh in
    rw (on, take_response) (rw content (rw still_open refl))

-- A request is pending at a channel, where a call waits, the only one under its id.
pub record Waiting (id : Text) (c : ℕ) (w : PendingRequests) : Type 0 where
  pub listed : lookup id w.pending_requests ≡ some c
  pub on : w.waiting c ≡ some id
  pub only : (d : ℕ) → w.waiting d ≡ some id → d ≡ c

pub nobody_waits : {id : Text} → Unwaited id no_waits
unfolding no_waits
nobody_waits d e = cc

pub begin_wait-Waiting :
    (w : PendingRequests) (id : Text)
    → Unwaited id w
    → Waiting id (begin_wait w id).1 (begin_wait w id).0
unfolding begin_wait
begin_wait-Waiting w id u = record {
  listed = lookup-insert_eq id id w.next_channel w.pending_requests (text_eq_refl id);
  on = ground arith;
  only = λ d q. ground (arith, u d);
}

step_wait-Waiting :
    (w : PendingRequests) (id : Text) (c : ℕ) (e : WaitEvent)
    → IsReady w
    → spares id c e ≡ true
    → Waiting id c w
    → Waiting id c (step_wait w e).0
unfolding step_wait begin_wait give_up
step_wait-Waiting w id c (waits j) r s h = record {
  listed = ground (arith, lookup-insert j id w.next_channel w.pending_requests, h.listed);
  on = ground (arith, h.on, r.made id c h.listed);
  only = λ d q. ground (arith, h.only d, text_eq_iff j id);
}
step_wait-Waiting w id c (arrives response) r s h =
    elim (Option-cases (lookup response.id w.pending_requests)) [
      | inl e ↦ rw (handle_response-none w response e) h
      | inr (d, e) ↦ rw (handle_response-sent w response d r e) (record {
        listed = ground (arith, lookup-remove response.id id w.pending_requests, h.listed);
        on = h.on;
        only = h.only;
      })
    ]
step_wait-Waiting w id c (takes d) r s h = elim (Bool-cases (c == d)) [
  | inl same ↦
      subst (λ i. Waiting id c (take_response w i).0) (eq_of c d same)
        (rw (empty_waits w c id h.on (r.empty id c h.listed)) h)
  | inr apart ↦ record {
    listed = rw (pending-take_response w d) h.listed;
    on = (take_response_other w d c apart).0 ∙ h.on;
    only = λ i q. h.only i (take_response_fewer w d i id q);
  }
]
step_wait-Waiting w id c (gives_up d) r s h = elim (Option-cases (w.waiting d)) [
  | inl over ↦ rw (over, give_up) h
  | inr (j, there) ↦
      let apart : text_eq j id ≡ false = ground (arith, text_eq_iff j id, h.only d) in
      rw (there, give_up)
        (record {
          listed = ground (arith, lookup-remove j id w.pending_requests, h.listed);
          on = ground (arith, h.on);
          only = λ i q. ground (arith, h.only i);
        })
]
step_wait-Waiting w id c cleans_up r s h = cc

pub run_waits-Waiting :
    (w : PendingRequests) (id : Text) (c : ℕ) (es : List WaitEvent)
    → IsReady w
    → All (λ e. spares id c e ≡ true) es
    → Waiting id c w
    → Waiting id c (run_waits w es).0
unfolding run_waits
run_waits-Waiting w id c [] r s h = h
run_waits-Waiting w id c (e ∷ es) r (s, ss) h =
    run_waits-Waiting (step_wait w e).0 id c es (step_wait-Proceeds w e r).0 ss
      (step_wait-Waiting w id c e r s h)
