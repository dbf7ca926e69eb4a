-- ===== src/Auth/RateLimit/Buckets.antt =====
-- One bucket by itself, as the specification of the limiter of pkg/auth/ratelimit.go: what a single key
-- gets, if there are no others.
use mcp_sdk_go.Base.Text.{Text, text_eq}
use mcp_sdk_go.Base.Int.{pos}
use mcp_sdk_go.Base.{ℕ, zero, suc, Bool, true, List, [], ◌∷◌, Option, none, some, if◌then◌else◌}
use mcp_sdk_go.Auth.RateLimit.{
  Float64, LimitConfig, get_rate_limit_key, incoming_key, TokenBucket, consume, bucket_or_full,
  is_unused, Passage, passes, exceeded_in_batch, batch_too_large, passage_of, limit_response,
  LimitEvent, sends, handles, sends_batch, resets, sweeps, LimitOutcome, passage, handled, done,
}

module _ (fl : Float64) where
  abbrev pub Kept : Type 0
  Kept = Option (TokenBucket fl)

  abbrev pub ask : LimitConfig → Kept → ℕ × ℕ → Kept × Bool
  ask config o (made_at, now) =
      let (b, allowed) = consume fl config (bucket_or_full fl config o made_at) now in
      (some b, allowed)

  abbrev pub ask_each : LimitConfig → Kept → ℕ → (ℕ → ℕ × ℕ) → Kept × Passage fl
  ask_each config o zero clock = (o, passes)
  ask_each config o (suc n) clock =
      let (o', allowed) = ask config o (clock n) in
      let rest = ask_each config o' n clock in if allowed then rest else (o', exceeded_in_batch)

  abbrev pub remaining : LimitConfig → Kept → fl.F
  remaining config none = fl.of_int config.burst_size
  remaining config (some b) = b.tokens

  abbrev pub swept : ℕ → Kept → Kept
  swept now none = none
  swept now (some b) = if is_unused fl now b then none else some b

  -- What an event does to the bucket that it is about.
  abbrev pub step_bucket : LimitConfig → Kept → LimitEvent fl → Kept × LimitOutcome fl
  step_bucket config o (sends ctx clock) =
      let (o', allowed) = ask config o clock in
      if config.enabled then (o', passage (passage_of fl allowed)) else (o, passage passes)
  step_bucket config o (handles ctx request clock) =
      let (o', allowed) = ask config o clock in
      if config.enabled
      then (o', handled (if allowed then none else some (limit_response fl request)))
      else (o, handled none)
  step_bucket config o (sends_batch ctx count clock) =
      let (o', p) = ask_each config o count clock in
      if config.enabled
      then if fl.lt (remaining config o) (fl.of_int (pos count))
        then (o, passage (batch_too_large count (remaining config o)))
        else (o', passage p)
      else (o, passage passes)
  step_bucket config o (resets key) = (none, done)
  step_bucket config o (sweeps now) = (swept now o, done)

  -- The events that are about a key: the calls under it, and every tick of the cleanup.
  abbrev pub is_about : Text → LimitEvent fl → Bool
  is_about k (sends ctx clock) = text_eq (get_rate_limit_key ctx) k
  is_about k (handles ctx request clock) = text_eq (incoming_key ctx) k
  is_about k (sends_batch ctx count clock) = text_eq (get_rate_limit_key ctx) k
  is_about k (resets key) = text_eq key k
  is_about k (sweeps now) = true

  -- A bucket with the events about it, one after another.
  abbrev pub run_bucket :
      Text
      → LimitConfig
      → Kept
      → List (LimitEvent fl)
      → Kept × List (LimitEvent fl × LimitOutcome fl)
  run_bucket k config o [] = (o, [])
  run_bucket k config o (e ∷ es) =
      let (o', r) = step_bucket config o e in
      let other = run_bucket k config o es in
      let (o'', rs) = run_bucket k config o' es in
      if is_about k e then (o'', (e, r) ∷ rs) else other

  -- Of what happened, the part that is about a key.
  abbrev pub told :
      Text → List (LimitEvent fl × LimitOutcome fl) → List (LimitEvent fl × LimitOutcome fl)
  told k [] = []
  told k ((e, r) ∷ rs) = let rest = told k rs in if is_about k e then (e, r) ∷ rest else rest
