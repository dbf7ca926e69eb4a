-- ===== src/Transport/Retry/Outcome.antt =====
-- The retry loop of pkg/transport/reliability_middleware.go: which attempt decides a call.
use mcp_sdk_go.Base.Int.{pos_part}
use mcp_sdk_go.Base.{ℕ, ◌<◌, ◌≡◌, ◌↔◌, refl, Bool, true, Option, none, some, arith}
use mcp_sdk_go.Transport.Breaker.{CircuitBreaker, can_make_call}
use mcp_sdk_go.Transport.Retry.{
  Float, GoError, ReliabilityConfig, ok, Environment, answer, exhausted, attempts, max_attempts,
  with_retry, send_request,
}
use mcp_sdk_go.Transport.Retry.Attempts.{
  Open, Retries, answer-Answers, Answers-answer, exhausted-Retries, Retries-exhausted,
}

-- The first test of the breaker, if there is one.
abbrev pub admits : Option CircuitBreaker → ℕ → Bool
admits none now = true
admits (some cb) now = (can_make_call cb now).1

module _ {fl : Float} {A : Type 0} (config : ReliabilityConfig fl) (env : Environment fl A) where
  admitted_loop :
      (br : Option CircuitBreaker)
      → admits br env.started_at ≡ true
      → (br' : Option CircuitBreaker) × (send_request fl config env br
          ≡ attempts fl config env (pos_part (max_attempts fl config env)) 0 none br')
  unfolding send_request with_retry
  admitted_loop none h = (none, refl)
  admitted_loop (some cb) h = (some (can_make_call cb env.started_at).0, rw h)

  -- A request that the breaker lets through returns an answer exactly if, within MaxRetries + 1
  -- attempts, one gets that answer, all before it fail in a way that is tried again, and the
  -- context is not cancelled up to it.
  pub send_request-answer :
      (br : Option CircuitBreaker) (v : A)
      → admits br env.started_at ≡ true
      → ((send_request fl config env br).result ≡ answer v) ↔ (
          (n : ℕ) × (n < pos_part (max_attempts fl config env))
          × ((i : ℕ) → i < n → Retries config env i)
          × Open config env n
          × (env.reply n ≡ ok v))
  send_request-answer br v h = (there, back)
    where
      loop :
          (br' : Option CircuitBreaker) × (send_request fl config env br
            ≡ attempts fl config env (pos_part (max_attempts fl config env)) 0 none br')
      loop = admitted_loop br h

      there :
          (send_request fl config env br).result ≡ answer v
          → (n : ℕ) × (n < pos_part (max_attempts fl config env))
            × ((i : ℕ) → i < n → Retries config env i)
            × Open config env n
            × (env.reply n ≡ ok v)
      there e =
          let (n, low, high, (before, o, f)) =
            answer-Answers config env _ 0 none loop.0 v (rw loop.1 at e) in
          (n, omega arith, (λ i b. before i (omega arith) b), o, f)

      back :
          (n : ℕ) × (n < pos_part (max_attempts fl config env))
            × ((i : ℕ) → i < n → Retries config env i)
            × Open config env n
            × (env.reply n ≡ ok v)
          → (send_request fl config env br).result ≡ answer v
      back (n, high, before, o, f) = rw loop.1 (
          Answers-answer config env _ 0 n none loop.0 v (omega arith) (omega arith)
            ((λ i a b. before i b), o, f))

  -- And it reports exhausted retries exactly if all of those attempts fail in such a way, also where
  -- these failures have opened the breaker in between.
  pub send_request-exhausted :
      (br : Option CircuitBreaker)
      → admits br env.started_at ≡ true
      → ((l : Option GoError) × ((send_request fl config env br).result
            ≡ exhausted (max_attempts fl config env) l))
        ↔ ((i : ℕ) → i < pos_part (max_attempts fl config env) → Retries config env i)
  send_request-exhausted br h = (there, back)
    where
      loop :
          (br' : Option CircuitBreaker) × (send_request fl config env br
            ≡ attempts fl config env (pos_part (max_attempts fl config env)) 0 none br')
      loop = admitted_loop br h

      there :
          (l : Option GoError) × ((send_request fl config env br).result
              ≡ exhausted (max_attempts fl config env) l)
          → (i : ℕ) → i < pos_part (max_attempts fl config env)
          → Retries config env i
      there (l, e) i b =
          exhausted-Retries config env _ 0 none l _ loop.0 (rw loop.1 at e) i (omega arith)
            (omega arith)

      back :
          ((i : ℕ) → i < pos_part (max_attempts fl config env) → Retries config env i)
          → (l : Option GoError) × ((send_request fl config env br).result
              ≡ exhausted (max_attempts fl config env) l)
      back all =
          rw loop.1 (Retries-exhausted config env _ 0 none loop.0 (λ i a b. all i (omega arith)))
