-- ===== src/Auth/RateLimit/Enough.antt =====
-- A batch through the middleware of pkg/auth/ratelimit.go for which there are tokens enough.
use mcp_sdk_go.Base.Text.{text_eq_refl}
use mcp_sdk_go.Base.Int.{pos, sub_ℕ}
use mcp_sdk_go.Base.{
  ℕ, zero, suc, ◌-◌, ◌≡◌, ◌≤◌, refl, ◌∙◌, ap, Bool, true, false, none, some, if◌then◌else◌,
  Bool-cases, inl, inr, arith, leb, subst,
}
use mcp_sdk_go.Auth.RateLimit.{
  Float64, LimitConfig, LimitContext, get_rate_limit_key, TokenBucket, RateLimiter, refill, consume,
  bucket_or_full, float_min, Passage, get_remaining_tokens, passes, consume_batch,
  exceeded_in_batch, send_batch_limited,
}
use mcp_sdk_go.Auth.RateLimit.Buckets.{Kept, ask_each, remaining}
use mcp_sdk_go.Auth.RateLimit.Keys.{kept, on_both, batch_own, remaining_at}

-- What holds of float64 where it counts, among integers up to 2^53 and what is at least one of them,
-- which not-a-number is not.
pub record CountsWell (fl : Float64) : Type 0 where
  pub not_below : (a b : fl.F) → fl.ge a b ≡ true → fl.lt a b ≡ false
  pub of_int_ge : (m n : ℕ) → n ≤ m → fl.ge (fl.of_int (pos m)) (fl.of_int (pos n)) ≡ true
  pub covers_one :
      (t : fl.F) (n : ℕ) → fl.ge t (fl.of_int (pos (suc n))) ≡ true → fl.ge t fl.one ≡ true
  pub one_less :
      (t : fl.F) (n : ℕ)
      → suc n ≤ 9007199254740992
      → fl.ge t (fl.of_int (pos (suc n))) ≡ true
      → fl.ge (fl.sub t fl.one) (fl.of_int (pos n)) ≡ true
  pub gains :
      (t : fl.F) (n time rate : ℕ)
      → fl.ge t (fl.of_int (pos n)) ≡ true
      → fl.ge
          (fl.add t (fl.mul (fl.seconds (pos time)) (fl.div (fl.of_int (pos rate)) fl.sixty)))
          (fl.of_int (pos n))
        ≡ true

sub_ℕ_exact : (a b : ℕ) → b ≤ a → sub_ℕ a b ≡ pos (a - b)
sub_ℕ_exact a b h = let below : leb b a ≡ true = ground arith in rw below refl

-- A limit of `burst` tokens, of which `rate` come each minute.
abbrev pub Grants : LimitConfig → ℕ → ℕ → Type 0
Grants config burst rate = (config.burst_size ≡ pos burst) × (config.requests_per_minute ≡ pos rate)

module _ (fl : Float64) (config : LimitConfig) where
  tokens_of : (o : Kept fl) (t : ℕ) → (bucket_or_full fl config o t).tokens ≡ remaining fl config o
  tokens_of none t = refl
  tokens_of (some b) t = refl

  -- The first of `n` requests asks at a time that is not before the bucket's.
  abbrev pub IsBefore : Kept fl → ℕ → (ℕ → ℕ × ℕ) → Type 0
  IsBefore o n clock =
      (i : ℕ) → n ≡ suc i → (bucket_or_full fl config o (clock i).0).last_refill ≤ (clock i).1

module _ (fl : Float64) (laws : CountsWell fl) (config : LimitConfig) (burst rate : ℕ)
    (grants : Grants config burst rate) where
  refill_keeps :
      (b : TokenBucket fl) (now n : ℕ)
      → n ≤ burst
      → b.last_refill ≤ now
      → fl.ge b.tokens (fl.of_int (pos n)) ≡ true
      → fl.ge (refill fl config b now) (fl.of_int (pos n)) ≡ true
  unfolding refill
  refill_keeps b now n small old enough =
      rw (grants.0, grants.1, sub_ℕ_exact now b.last_refill old)
        (min_keeps _ (fl.of_int (pos burst))
          (laws.gains b.tokens n (now - b.last_refill) rate enough) (laws.of_int_ge burst n small))
    where
      min_keeps :
          (x y : fl.F)
          → fl.ge x (fl.of_int (pos n)) ≡ true
          → fl.ge y (fl.of_int (pos n)) ≡ true
          → fl.ge (float_min fl x y) (fl.of_int (pos n)) ≡ true
      min_keeps x y p q = elim (Bool-cases (fl.lt x y)) [ inl l ↦ rw l p | inr g ↦ rw g q ]

  -- A bucket that has tokens for one more request than `n` gives one, and has `n` left.
  consume_gives :
      (b : TokenBucket fl) (now n : ℕ)
      → suc n ≤ burst
      → suc n ≤ 9007199254740992
      → b.last_refill ≤ now
      → fl.ge b.tokens (fl.of_int (pos (suc n))) ≡ true
      → consume fl config b now
        ≡ (record { tokens = fl.sub (refill fl config b now) fl.one; last_refill = now }, true)
  unfolding consume
  consume_gives b now n small exact old enough =
      rw (laws.covers_one (refill fl config b now) n (refill_keeps b now (suc n) small old enough))
        refl

  ask_each-passes :
      (o : Kept fl) (n : ℕ) (clock : ℕ → ℕ × ℕ)
      → n ≤ burst
      → n ≤ 9007199254740992
      → ((i : ℕ) → (clock (suc i)).1 ≤ (clock i).1)
      → IsBefore fl config o n clock
      → fl.ge (remaining fl config o) (fl.of_int (pos n)) ≡ true
      → (ask_each fl config o n clock).1 ≡ passes
  ask_each-passes o zero clock small exact order old enough = refl
  ask_each-passes o (suc n) clock small exact order old enough =
      let now = (clock n).1 in
      let b = bucket_or_full fl config o (clock n).0 in
      let full : fl.ge b.tokens (fl.of_int (pos (suc n))) ≡ true =
        rw (tokens_of fl config o (clock n).0) enough in
      let asked = consume_gives b now n small exact (old n refl) full in
      let b' : TokenBucket fl = record {
        tokens = fl.sub (refill fl config b now) fl.one;
        last_refill = now;
      } in
      ap (λ (p : TokenBucket fl × Bool). (ask_each_after (some p.0) p.1 n clock).1) asked
      ∙ ask_each-passes (some b') n clock (omega arith) (omega arith) order (λ i e. rw e (order i))
          (laws.one_less (refill fl config b now) n exact
            (refill_keeps b now (suc n) small (old n refl) full))
    where
      ask_each_after : Kept fl → Bool → ℕ → (ℕ → ℕ × ℕ) → Kept fl × Passage fl
      ask_each_after o' allowed n clock =
          if allowed then ask_each fl config o' n clock else (o', exceeded_in_batch)

-- A batch of no more requests than the tokens that its key has left, than the burst size and than 2^53
-- passes: once it is let in, it is never refused on the way, if the clock does not go back.
pub send_batch_limited-passes :
    (fl : Float64) (laws : CountsWell fl) (l : RateLimiter fl) (burst rate : ℕ) (ctx : LimitContext)
    (count : ℕ) (clock : ℕ → ℕ × ℕ)
    → Grants l.config burst rate
    → count ≤ burst
    → count ≤ 9007199254740992
    → ((i : ℕ) → (clock (suc i)).1 ≤ (clock i).1)
    → IsBefore fl l.config (kept fl (get_rate_limit_key ctx) l) count clock
    → fl.ge (get_remaining_tokens fl l (get_rate_limit_key ctx)) (fl.of_int (pos count)) ≡ true
    → (send_batch_limited fl l ctx count clock).1 ≡ passes
unfolding send_batch_limited
send_batch_limited-passes fl laws l burst rate ctx count clock grants small exact order old enough =
    let key = get_rate_limit_key ctx in
    let left = get_remaining_tokens fl l key in
    let through : (consume_batch fl l key count clock).1 ≡ passes =
      ap (λ (p : Kept fl × Passage fl). p.1) (batch_own fl key l count clock)
      ∙ ask_each-passes fl laws l.config burst rate grants (kept fl key l) count clock small exact
          order old
          (subst (λ (t : fl.F). fl.ge t (fl.of_int (pos count)) ≡ true)
            (remaining_at fl key key l (text_eq_refl key)) enough) in
    on_both fl (λ (p : RateLimiter fl × Passage fl). p.1 ≡ passes) l.config.enabled _ (l, passes)
      (rw (laws.not_below left (fl.of_int (pos count)) enough) through) refl
