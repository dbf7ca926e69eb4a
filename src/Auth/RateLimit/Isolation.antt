-- ===== src/Auth/RateLimit/Isolation.antt =====
-- The middleware of pkg/auth/ratelimit.go treats each key as one bucket by itself would.
use mcp_sdk_go.Base.Text.{Text}
use mcp_sdk_go.Transport.Dispatch.{Request, Response}
use mcp_sdk_go.Base.Dict.{lookup, lookup-remove, Unique, Unique-remove}
use mcp_sdk_go.Base.{
  ℕ, ◌≡◌, refl, ◌∙◌, ap, Bool, true, false, List, [], ◌∷◌, Option, none, some, if◌then◌else◌,
  Bool-cases, inl, inr,
}
use mcp_sdk_go.Base.Int.{pos}
use mcp_sdk_go.Auth.RateLimit.{
  Float64, LimitConfig, LimitContext, get_rate_limit_key, incoming_key, RateLimiter,
  new_rate_limit_middleware, limit_config, allow, get_remaining_tokens, reset_limit, passage_of,
  limit_response, passes, batch_too_large, cleanup_buckets, Passage, send_limited, handle_limited,
  consume_batch, send_batch_limited, LimitEvent, sends, handles, sends_batch, resets, sweeps,
  LimitOutcome, passage, handled, done, step_limit, run_limit,
}
use mcp_sdk_go.Auth.RateLimit.Buckets.{Kept, ask_each, step_bucket, is_about, run_bucket, told}
use mcp_sdk_go.Auth.RateLimit.Keys.{
  kept, view, choose, allow_at, allow_other, batch_at, batch_other, remaining_at, on_both,
  IsLimiter, allow-IsLimiter, consume_batch-IsLimiter, lookup-drop_unused, Unique-drop_unused,
}

module _ (fl : Float64) where
  step_limit_at :
      (k : Text) (l : RateLimiter fl) (e : LimitEvent fl)
      → Unique l.buckets
      → is_about fl k e ≡ true
      → view fl k (step_limit fl l e) ≡ step_bucket fl l.config (kept fl k l) e
  unfolding step_limit send_limited handle_limited send_batch_limited reset_limit cleanup_buckets
  step_limit_at k l (sends ctx clock) u h =
      let r = allow fl l (get_rate_limit_key ctx) clock in
      choose fl (λ (p : RateLimiter fl × Passage fl). (kept fl k p.0, passage p.1)) l.config.enabled
        (r.0, passage_of fl r.1) (l, passes)
        (ap (λ (p : Kept fl × Bool). (p.0, passage (passage_of fl p.1)))
          (allow_at fl (get_rate_limit_key ctx) k l clock h))
        refl
  step_limit_at k l (handles ctx request clock) u h =
      let r = allow fl l (incoming_key ctx) clock in
      choose fl (λ (p : RateLimiter fl × _). (kept fl k p.0, handled p.1)) l.config.enabled
        (r.0, if r.1 then none else some (limit_response fl request)) (l, none)
        (ap
          (λ (p : Kept fl × Bool).
            (p.0, handled (if p.1 then none else some (limit_response fl request))))
          (allow_at fl (incoming_key ctx) k l clock h))
        refl
  step_limit_at k l (sends_batch ctx count clock) u h =
      let key = get_rate_limit_key ctx in
      let left = get_remaining_tokens fl l key in
      let taken = consume_batch fl l key count clock in
      let out : RateLimiter fl × Passage fl → Kept fl × LimitOutcome fl =
        λ p. (kept fl k p.0, passage p.1) in
      choose fl out l.config.enabled
        (if fl.lt left (fl.of_int (pos count)) then (l, batch_too_large count left) else taken)
        (l, passes)
        (choose fl out (fl.lt left (fl.of_int (pos count))) (l, batch_too_large count left) taken
            refl
            (ap (λ (p : Kept fl × Passage fl). (p.0, passage p.1))
              (batch_at fl key k l count clock h))
          ∙ ap
              (λ (t : fl.F).
                let taken_here = ask_each fl l.config (kept fl k l) count clock in
                if fl.lt t (fl.of_int (pos count))
                then (kept fl k l, passage (batch_too_large count t))
                else (taken_here.0, passage taken_here.1))
              (remaining_at fl key k l h))
        refl
  step_limit_at k l (resets key) u h =
      ap (λ (o : Kept fl). (o, done)) (lookup-remove key k l.buckets ∙ rw h refl)
  step_limit_at k l (sweeps now) u h =
      ap (λ (o : Kept fl). (o, done)) (lookup-drop_unused fl k now l.buckets u)

  -- What a step that calls the limiter leaves, if the calls and doing nothing both leave it so.
  module _ (P : RateLimiter fl → Type 0) (l : RateLimiter fl) (old : P l) where
    send_limited_leaves :
        (ctx : LimitContext) (clock : ℕ × ℕ)
        → P (allow fl l (get_rate_limit_key ctx) clock).0
        → P (send_limited fl l ctx clock).0
    unfolding send_limited
    send_limited_leaves ctx clock new =
        let r = allow fl l (get_rate_limit_key ctx) clock in
        on_both fl (λ (p : RateLimiter fl × Passage fl). P p.0) l.config.enabled
          (r.0, passage_of fl r.1) (l, passes) new old

    handle_limited_leaves :
        (ctx : LimitContext) (request : Request) (clock : ℕ × ℕ)
        → P (allow fl l (incoming_key ctx) clock).0
        → P (handle_limited fl l ctx request clock).0
    unfolding handle_limited
    handle_limited_leaves ctx request clock new =
        let r = allow fl l (incoming_key ctx) clock in
        on_both fl (λ (p : RateLimiter fl × Option Response). P p.0) l.config.enabled
          (r.0, if r.1 then none else some (limit_response fl request)) (l, none) new old

    send_batch_leaves :
        (ctx : LimitContext) (count : ℕ) (clock : ℕ → ℕ × ℕ)
        → P (consume_batch fl l (get_rate_limit_key ctx) count clock).0
        → P (send_batch_limited fl l ctx count clock).0
    unfolding send_batch_limited
    send_batch_leaves ctx count clock new =
        let key = get_rate_limit_key ctx in
        let left = get_remaining_tokens fl l key in
        let taken = consume_batch fl l key count clock in
        let large = fl.lt left (fl.of_int (pos count)) in
        let out : RateLimiter fl × Passage fl → Type 0 = λ p. P p.0 in
        on_both fl out l.config.enabled (if large then (l, batch_too_large count left) else taken)
          (l, passes) (on_both fl out large (l, batch_too_large count left) taken old new) old

  step_limit_other :
      (k : Text) (l : RateLimiter fl) (e : LimitEvent fl)
      → is_about fl k e ≡ false
      → kept fl k (step_limit fl l e).0 ≡ kept fl k l
  unfolding step_limit reset_limit
  step_limit_other k l (sends ctx clock) h =
      send_limited_leaves (λ l'. kept fl k l' ≡ kept fl k l) l refl ctx clock
        (allow_other fl (get_rate_limit_key ctx) k l clock h)
  step_limit_other k l (handles ctx request clock) h =
      handle_limited_leaves (λ l'. kept fl k l' ≡ kept fl k l) l refl ctx request clock
        (allow_other fl (incoming_key ctx) k l clock h)
  step_limit_other k l (sends_batch ctx count clock) h =
      send_batch_leaves (λ l'. kept fl k l' ≡ kept fl k l) l refl ctx count clock
        (batch_other fl (get_rate_limit_key ctx) k l count clock h)
  step_limit_other k l (resets key) h = lookup-remove key k l.buckets ∙ rw h refl
  step_limit_other k l (sweeps now) h = cc

  step_limit-IsLimiter :
      (config : LimitConfig) (l : RateLimiter fl) (e : LimitEvent fl)
      → IsLimiter fl config l
      → IsLimiter fl config (step_limit fl l e).0
  unfolding step_limit reset_limit cleanup_buckets
  step_limit-IsLimiter config l (sends ctx clock) w =
      send_limited_leaves (IsLimiter fl config) l w ctx clock
        (allow-IsLimiter fl config (get_rate_limit_key ctx) l clock w)
  step_limit-IsLimiter config l (handles ctx request clock) w =
      handle_limited_leaves (IsLimiter fl config) l w ctx request clock
        (allow-IsLimiter fl config (incoming_key ctx) l clock w)
  step_limit-IsLimiter config l (sends_batch ctx count clock) w =
      send_batch_leaves (IsLimiter fl config) l w ctx count clock
        (consume_batch-IsLimiter fl config (get_rate_limit_key ctx) l count clock w)
  step_limit-IsLimiter config l (resets key) (e, u) = (e, Unique-remove key l.buckets u)
  step_limit-IsLimiter config l (sweeps now) (e, u) = (e, Unique-drop_unused fl now l.buckets u)

  -- What a run leaves of the bucket of a key, and tells of it.
  abbrev pub told_of :
      Text
      → RateLimiter fl × List (LimitEvent fl × LimitOutcome fl)
      → Kept fl × List (LimitEvent fl × LimitOutcome fl)
  told_of k (l, rs) = (kept fl k l, told fl k rs)

  run_limit-run_bucket :
      (k : Text) (config : LimitConfig) (l : RateLimiter fl) (es : List (LimitEvent fl))
      → IsLimiter fl config l
      → told_of k (run_limit fl l es) ≡ run_bucket fl k config (kept fl k l) es
  unfolding run_limit
  run_limit-run_bucket k config l [] w = refl
  run_limit-run_bucket k config l (e ∷ es) w =
      let r = step_limit fl l e in
      let rest = run_limit-run_bucket k config r.0 es (step_limit-IsLimiter config l e w) in
      elim (Bool-cases (is_about fl k e)) [
        | inl about ↦ rw about (
            ap (λ (p : Kept fl × List (LimitEvent fl × LimitOutcome fl)). (p.0, (e, r.1) ∷ p.1))
              rest
            ∙ ap
                (λ (p : Kept fl × LimitOutcome fl).
                  let q = run_bucket fl k config p.0 es in (q.0, (e, p.1) ∷ q.1))
                (step_limit_at k l e w.1 about ∙ ap (λ c. step_bucket fl c (kept fl k l) e) w.0))
        | inr other ↦
            rw other (rest ∙ ap (λ o. run_bucket fl k config o es) (step_limit_other k l e other))
      ]

-- Whatever is sent, handled, reset and swept, a new middleware leaves of each key's bucket, and answers
-- in the calls under that key, what one bucket by itself would with only the events about it: the calls
-- under its key and the ticks of the cleanup.
pub run_limit-each_key :
    (fl : Float64) (k : Text) (config : Option LimitConfig) (es : List (LimitEvent fl))
    → told_of fl k (run_limit fl (new_rate_limit_middleware fl config) es)
      ≡ run_bucket fl k (limit_config config) none es
unfolding new_rate_limit_middleware lookup
run_limit-each_key fl k config es =
    run_limit-run_bucket fl k (limit_config config) (new_rate_limit_middleware fl config) es
      (refl, tt)
