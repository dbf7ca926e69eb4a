-- ===== src/Transport/Retry/Counting.antt =====
-- The retry loop of pkg/transport/reliability_middleware.go: how often it calls the next transport,
-- and what it reports to the breaker.
use mcp_sdk_go.Base.Int.{pos_part}
use mcp_sdk_go.Base.{
  ℕ, zero, suc, ◌≤◌, ◌≡◌, ◌∙◌, refl, sym, ap, ◌⊎◌, inl, inr, true, false, List, [], ◌∷◌, ◌++◌,
  Option, none, some, arith, Bool-cases,
}
use mcp_sdk_go.Transport.Breaker.{
  CircuitBreaker, can_make_call, BreakerEvent, asks, fails, succeeds, step, run,
}
use mcp_sdk_go.Transport.Retry.{
  Float, GoError, ReliabilityConfig, Reply, ok, err, Environment, breaker_open, Action, sleeps,
  calls, note_success, note_failure, wait, attempts, max_attempts, with_retry, send_request,
}
use mcp_sdk_go.Transport.Retry.Attempts.{stopped, answered, fatal, retried, attempt, seen, now}

-- What a call amounts to for the breaker.
abbrev pub event_of : {A : Type 0} → Reply A → ℕ → BreakerEvent
event_of (ok v) time = succeeds
event_of (err e) time = fails time

-- A breaker after a row of events, if there is a breaker.
abbrev pub note : Option CircuitBreaker → List BreakerEvent → Option CircuitBreaker
note none es = none
note (some cb) es = some (run cb es)

note-nil : (br : Option CircuitBreaker) → note br [] ≡ br
unfolding run
note-nil none = refl
note-nil (some cb) = refl

note-succeeds :
    (br : Option CircuitBreaker) (es : List BreakerEvent)
    → note br (succeeds ∷ es) ≡ note (note_success br) es
unfolding run step
note-succeeds none es = refl
note-succeeds (some cb) es = refl

note-fails :
    (br : Option CircuitBreaker) (t : ℕ) (es : List BreakerEvent)
    → note br (fails t ∷ es) ≡ note (note_failure br t) es
unfolding run step
note-fails none t es = refl
note-fails (some cb) t es = refl

-- The attempts that reached the next transport.
abbrev pub calls_of : List Action → List ℕ
calls_of [] = []
calls_of (sleeps d ∷ acts) = calls_of acts
calls_of (calls k ∷ acts) = k ∷ calls_of acts

abbrev pub count_up : ℕ → ℕ → List ℕ
count_up k zero = []
count_up k (suc n) = k ∷ count_up (suc k) n

module _ {fl : Float} {A : Type 0} (config : ReliabilityConfig fl) (env : Environment fl A) where
  abbrev pub events_of : List Action → List BreakerEvent
  events_of [] = []
  events_of (sleeps d ∷ acts) = events_of acts
  events_of (calls k ∷ acts) = event_of (env.reply k) (env.failed_at k) ∷ events_of acts

  events_of-seen :
      (k : ℕ) (acts : List Action)
      → events_of (seen config env k ++ acts)
        ≡ event_of (env.reply k) (env.failed_at k) ∷ events_of acts
  unfolding wait
  events_of-seen zero acts = refl
  events_of-seen (suc k) acts = refl

  calls_of-seen :
      (k : ℕ) (acts : List Action) → calls_of (seen config env k ++ acts) ≡ k ∷ calls_of acts
  unfolding wait
  calls_of-seen zero acts = refl
  calls_of-seen (suc k) acts = refl

  no_calls :
      (k : ℕ) → (events_of (wait fl config env k).0 ≡ []) × (calls_of (wait fl config env k).0 ≡ [])
  unfolding wait
  no_calls zero = (refl, refl)
  no_calls (suc k) = (refl, refl)

  events_of-seen_only :
      (k : ℕ) → events_of (seen config env k) ≡ event_of (env.reply k) (env.failed_at k) ∷ []
  unfolding wait
  events_of-seen_only zero = refl
  events_of-seen_only (suc k) = refl

  calls_of-seen_only : (k : ℕ) → calls_of (seen config env k) ≡ k ∷ []
  unfolding wait
  calls_of-seen_only zero = refl
  calls_of-seen_only (suc k) = refl

  saw_ok :
      (k : ℕ) (br : Option CircuitBreaker) (es : List BreakerEvent) (v : A)
      → env.reply k ≡ ok v
      → {fs : List BreakerEvent} → fs ≡ event_of (env.reply k) (env.failed_at k) ∷ es
      → note br fs ≡ note (note_success br) es
  saw_ok k br es v r e = rw (e, r) (note-succeeds br es)

  saw_err :
      (k : ℕ) (br : Option CircuitBreaker) (es : List BreakerEvent) (x : GoError)
      → env.reply k ≡ err x
      → {fs : List BreakerEvent} → fs ≡ event_of (env.reply k) (env.failed_at k) ∷ es
      → note br fs ≡ note (note_failure br (env.failed_at k)) es
  saw_err k br es x r e = rw (e, r) (note-fails br (env.failed_at k) es)

  attempts-note :
      (left k : ℕ) (last : Option GoError) (br : Option CircuitBreaker)
      → (now config env k last br left).breaker
        ≡ note br (events_of (now config env k last br left).actions)
  unfolding attempts
  attempts-note zero k last br = sym (note-nil br)
  attempts-note (suc left) k last br = elim (attempt config env left k last br) [
    | stopped e acts _ p where_ ↦ rw p (elim where_ [
      | inl q ↦ rw q (sym (note-nil br))
      | inr q ↦ rw q (rw ((no_calls k).0) (sym (note-nil br)))
    ])
    | answered v _ r p ↦
        rw p (sym (saw_ok k br [] v r (events_of-seen_only k) ∙ note-nil (note_success br)))
    | fatal e _ r _ p ↦ rw p (
        sym (
          saw_err k br [] e r (events_of-seen_only k)
          ∙ note-nil (note_failure br (env.failed_at k))))
    | retried r p ↦ rw p (
        attempts-note left (suc k) _ _ ∙ sym (saw_err k br _ r.error r.failed (events_of-seen k _)))
  ]

  attempts-calls :
      (left k : ℕ) (last : Option GoError) (br : Option CircuitBreaker)
      → (n : ℕ) × (n ≤ left) × (calls_of (now config env k last br left).actions ≡ count_up k n)
  unfolding attempts
  attempts-calls zero k last br = (0, omega arith, refl)
  attempts-calls (suc left) k last br = elim (attempt config env left k last br) [
    | stopped e acts _ p where_ ↦
        (0, omega arith, rw p (elim where_ [ inl q ↦ rw q | inr q ↦ rw q (rw ((no_calls k).1)) ]))
    | answered v _ r p ↦ (1, omega arith, rw p (calls_of-seen_only k))
    | fatal e _ r _ p ↦ (1, omega arith, rw p (calls_of-seen_only k))
    | retried r p ↦
        let (n, low, same) =
          attempts-calls left (suc k) (some r.error) (note_failure br (env.failed_at k)) in
        (suc n, omega arith, rw p (calls_of-seen k _ ∙ ap (◌∷◌ k) same))
  ]

  -- Whatever the next transport, the context and the breaker do, a request calls the next transport
  -- at most MaxRetries + 1 times, for the attempts 0, 1, 2 and so on in order.
  pub send_request-calls :
      (br : Option CircuitBreaker)
      → (n : ℕ) × (n ≤ pos_part (max_attempts fl config env))
        × (calls_of (send_request fl config env br).actions ≡ count_up 0 n)
  unfolding send_request with_retry
  send_request-calls none = attempts-calls _ 0 none none
  send_request-calls (some cb) = elim (Bool-cases (can_make_call cb env.started_at).1) [
    | inl h ↦ rw h (attempts-calls _ 0 none _)
    | inr h ↦ (0, omega arith, rw h)
  ]

  -- A request tells its breaker of every call once, with its outcome, after the one question at the
  -- start: the breaker it leaves is the one after those events. A request that the breaker refuses
  -- calls nothing.
  pub send_request-reports :
      (cb : CircuitBreaker)
      → let r = send_request fl config env (some cb) in
        (r.breaker ≡ some (run cb (asks env.started_at ∷ events_of r.actions)))
        × (((can_make_call cb env.started_at).1 ≡ true)
            ⊎ (((can_make_call cb env.started_at).1 ≡ false)
                × (r.result ≡ breaker_open)
                × (r.actions ≡ [])))
  unfolding send_request with_retry run step
  send_request-reports cb = elim (Bool-cases (can_make_call cb env.started_at).1) [
    | inl h ↦ rw h (attempts-note _ 0 none _, inl refl)
    | inr h ↦ rw h (refl, inr (refl, refl, refl))
  ]
