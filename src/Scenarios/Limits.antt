-- ===== src/Scenarios/Limits.antt =====
-- pkg/auth/ratelimit.go with whole numbers for the floats: two users and a small bucket.
use mcp_sdk_go.Base.Int.{pos, pos_part}
use mcp_sdk_go.Base.Text.{codes, text_eq}
use mcp_sdk_go.Base.Dict.{lookup, insert}
use mcp_sdk_go.Base.{
  ℕ, ◌+◌, ◌-◌, ◌*◌, ◌/◌, ◌≡◌, refl, arith, true, List, [], ◌∷◌, none, some, ltb, leb,
}
use mcp_sdk_go.Auth.RateLimit.{
  Float64, LimitConfig, LimitContext, limit_config, get_rate_limit_key, new_rate_limit_middleware,
  get_remaining_tokens, passes, limit_exceeded, refill, consume, allow, send_limited,
  send_batch_limited, LimitEvent, sends, sweeps, passage, done, cleanup_buckets, drop_unused,
  step_limit, run_limit,
}
use mcp_sdk_go.Auth.RateLimit.Buckets.{run_bucket}
use mcp_sdk_go.Auth.RateLimit.Isolation.{told_of, run_limit-each_key}
use mcp_sdk_go.Auth.RateLimit.Enough.{CountsWell, send_batch_limited-passes}

-- Tokens in whole numbers, and time in whole seconds.
abbrev whole : Float64
whole = record {
  F = ℕ;
  of_int = pos_part;
  seconds = λ d. pos_part d / 1000000000;
  mul = λ a b. a * b;
  div = λ a b. a / b;
  add = λ a b. a + b;
  sub = λ a b. a - b;
  lt = ltb;
  ge = λ a b. leb b a;
  one = 1;
  sixty = 60;
}

whole-CountsWell : CountsWell whole
whole-CountsWell = record {
  not_below = λ a b h. ground arith;
  of_int_ge = λ m n h. ground arith;
  covers_one = λ t n h. ground arith;
  one_less = λ t n s h. ground arith;
  gains = λ t n time rate h. ground arith;
}

-- Two tokens at most, and one each second.
abbrev small : LimitConfig
small = record {
  enabled = true;
  requests_per_minute = pos 60;
  requests_per_hour = pos 0;
  burst_size = pos 2;
}

abbrev ann : LimitContext
ann = record { user_id = some (codes "ann"); token = [] }

abbrev bob : LimitContext
bob = record { user_id = some (codes "bob"); token = [] }

abbrev at_once : ℕ × ℕ
at_once = (0, 0)

abbrev calls : List (LimitEvent whole)
calls =
    sends ann at_once
    ∷ sends bob at_once
    ∷ sends ann at_once
    ∷ sends ann at_once
    ∷ sweeps 300000000000
    ∷ sends ann (0, 301000000000)
    ∷ []

-- The third call of one user is refused, whatever the other does; later there are tokens again.
ann_waits :
    (run_limit whole (new_rate_limit_middleware whole (some small)) calls).1
    ≡ (sends ann at_once, passage passes)
      ∷ (sends bob at_once, passage passes)
      ∷ (sends ann at_once, passage passes)
      ∷ (sends ann at_once, passage limit_exceeded)
      ∷ (sweeps 300000000000, done)
      ∷ (sends ann (0, 301000000000), passage passes)
      ∷ []
unfolding run_limit step_limit send_limited new_rate_limit_middleware limit_config allow consume
    refill lookup insert text_eq get_rate_limit_key cleanup_buckets drop_unused
ann_waits = refl

run_limit-each_key_example :
    told_of whole
      (codes "user:ann")
      (run_limit whole (new_rate_limit_middleware whole (some small)) calls)
    ≡ run_bucket whole (codes "user:ann") (limit_config (some small)) none calls
run_limit-each_key_example = run_limit-each_key whole (codes "user:ann") (some small) calls

send_batch_limited-passes_example :
    (send_batch_limited whole (new_rate_limit_middleware whole (some small)) ann 2 (λ i. (5, 5))).1
    ≡ passes
unfolding new_rate_limit_middleware limit_config get_remaining_tokens lookup get_rate_limit_key
send_batch_limited-passes_example =
    send_batch_limited-passes whole whole-CountsWell (new_rate_limit_middleware whole (some small))
      2 60 ann 2 (λ i. (5, 5)) (refl, refl) (omega arith) (omega arith) (λ i. omega arith)
      (λ i e. omega arith) refl
