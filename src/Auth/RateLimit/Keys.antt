-- ===== src/Auth/RateLimit/Keys.antt =====
-- The limiter of pkg/auth/ratelimit.go keeps one bucket for each key: what a key gets does not depend on
-- the other keys.
use mcp_sdk_go.Base.Text.{Text, text_eq, text_eq_iff, text_eq_refl}
use mcp_sdk_go.Base.Dict.{Dict, lookup, lookup-insert_eq, lookup-insert_ne, Unique, Unique-insert}
use mcp_sdk_go.Base.{
  ℕ, zero, suc, ◌≡◌, refl, ◌∙◌, ap, Bool, true, false, [], ◌∷◌, none, some, if◌then◌else◌,
  Bool-cases, inl, inr,
}
use mcp_sdk_go.Auth.RateLimit.{
  Float64, LimitConfig, TokenBucket, RateLimiter, consume, bucket_or_full, allow,
  get_remaining_tokens, is_unused, drop_unused, Passage, consume_batch, exceeded_in_batch,
}
use mcp_sdk_go.Auth.RateLimit.Buckets.{Kept, ask, ask_each, remaining, swept}

module _ (fl : Float64) where
  abbrev pub kept : Text → RateLimiter fl → Kept fl
  kept k l = lookup k l.buckets

  -- What a call leaves of the bucket of a key, and its result.
  abbrev pub view : {R : Type 0} → Text → RateLimiter fl × R → Kept fl × R
  view k (l, r) = (kept k l, r)

  allow_own :
      (k : Text) (l : RateLimiter fl) (c : ℕ × ℕ)
      → view k (allow fl l k c) ≡ ask fl l.config (kept k l) c
  unfolding allow
  allow_own k l (made_at, now) =
      let r = consume fl l.config (bucket_or_full fl l.config (kept k l) made_at) now in
      ap (λ (o : Kept fl). (o, r.1)) (lookup-insert_eq k k r.0 l.buckets (text_eq_refl k))

  pub allow_other :
      (j k : Text) (l : RateLimiter fl) (c : ℕ × ℕ)
      → text_eq j k ≡ false
      → kept k (allow fl l j c).0 ≡ kept k l
  unfolding allow
  allow_other j k l (made_at, now) h = lookup-insert_ne j k _ l.buckets h

  -- A function of a choice, with equal results on both sides.
  pub choose :
      {A B : Type 0} (f : A → B) (b : Bool) (x y : A) {x' y' : B}
      → f x ≡ x'
      → f y ≡ y'
      → f (if b then x else y) ≡ (if b then x' else y')
  choose f true x y p q = p
  choose f false x y p q = q

  -- What holds on both sides of a choice.
  pub on_both :
      {A : Type 0} (P : A → Type 0) (b : Bool) (x y : A) → P x → P y → P (if b then x else y)
  on_both P true x y p q = p
  on_both P false x y p q = q

  pub batch_own :
      (k : Text) (l : RateLimiter fl) (n : ℕ) (clock : ℕ → ℕ × ℕ)
      → view k (consume_batch fl l k n clock) ≡ ask_each fl l.config (kept k l) n clock
  unfolding consume_batch allow
  batch_own k l zero clock = refl
  batch_own k l (suc n) clock =
      let r = allow fl l k (clock n) in
      choose (view k) r.1 (consume_batch fl r.0 k n clock) (r.0, exceeded_in_batch)
        (batch_own k r.0 n clock) refl
      ∙ ap
          (λ (p : Kept fl × Bool).
            if p.1 then ask_each fl l.config p.0 n clock else (p.0, exceeded_in_batch))
          (allow_own k l (clock n))

  pub batch_other :
      (j k : Text) (l : RateLimiter fl) (n : ℕ) (clock : ℕ → ℕ × ℕ)
      → text_eq j k ≡ false
      → kept k (consume_batch fl l j n clock).0 ≡ kept k l
  unfolding consume_batch
  batch_other j k l zero clock h = refl
  batch_other j k l (suc n) clock h =
      let r = allow fl l j (clock n) in
      let asked = allow_other j k l (clock n) h in
      elim (Bool-cases r.1) [
        | inl ok ↦ rw ok (batch_other j k r.0 n clock h ∙ asked)
        | inr out ↦ rw out asked
      ]

  pub allow_at :
      (j k : Text) (l : RateLimiter fl) (c : ℕ × ℕ)
      → text_eq j k ≡ true
      → view k (allow fl l j c) ≡ ask fl l.config (kept k l) c
  allow_at j k l c h =
      ap (λ (i : Text). view k (allow fl l i c)) ((text_eq_iff j k).0 h) ∙ allow_own k l c

  pub batch_at :
      (j k : Text) (l : RateLimiter fl) (n : ℕ) (clock : ℕ → ℕ × ℕ)
      → text_eq j k ≡ true
      → view k (consume_batch fl l j n clock) ≡ ask_each fl l.config (kept k l) n clock
  batch_at j k l n clock h =
      ap (λ (i : Text). view k (consume_batch fl l i n clock)) ((text_eq_iff j k).0 h)
      ∙ batch_own k l n clock

  remaining_of :
      (config : LimitConfig) (o : Kept fl)
      → (elim o [ none ↦ fl.of_int config.burst_size | some b ↦ b.tokens ]) ≡ remaining fl config o
  remaining_of config none = refl
  remaining_of config (some b) = refl

  pub remaining_at :
      (j k : Text) (l : RateLimiter fl)
      → text_eq j k ≡ true
      → get_remaining_tokens fl l j ≡ remaining fl l.config (kept k l)
  unfolding get_remaining_tokens
  remaining_at j k l h =
      ap (λ (i : Text). get_remaining_tokens fl l i) ((text_eq_iff j k).0 h)
      ∙ remaining_of l.config (kept k l)

  lookup-drop_unused-none :
      (k : Text) (now : ℕ) (m : Dict (TokenBucket fl))
      → lookup k m ≡ none
      → lookup k (drop_unused fl now m) ≡ none
  unfolding drop_unused lookup
  lookup-drop_unused-none k now [] h = h
  lookup-drop_unused-none k now ((j, b) ∷ m) h = elim (Bool-cases (text_eq j k)) [
    | inl same ↦ absurd (cc)
    | inr other ↦ elim (Bool-cases (is_unused fl now b)) [
      | inl goes ↦ rw goes (lookup-drop_unused-none k now m (rw other at h))
      | inr stays ↦ rw (stays, other) (lookup-drop_unused-none k now m (rw other at h))
    ]
  ]

  pub lookup-drop_unused :
      (k : Text) (now : ℕ) (m : Dict (TokenBucket fl))
      → Unique m
      → lookup k (drop_unused fl now m) ≡ swept fl now (lookup k m)
  unfolding drop_unused lookup
  lookup-drop_unused k now [] u = refl
  lookup-drop_unused k now ((j, b) ∷ m) (h, u) = elim (Bool-cases (text_eq j k)) [
    | inl same ↦
        let gone = lookup-drop_unused-none k now m (rw ((text_eq_iff j k).0 same) at h) in
        elim (Bool-cases (is_unused fl now b)) [
          | inl goes ↦ rw (goes, same) (rw goes gone)
          | inr stays ↦ rw (stays, same) (rw stays refl)
        ]
    | inr other ↦ elim (Bool-cases (is_unused fl now b)) [
      | inl goes ↦ rw (goes, other) (lookup-drop_unused k now m u)
      | inr stays ↦ rw (stays, other) (lookup-drop_unused k now m u)
    ]
  ]

  pub Unique-drop_unused :
      (now : ℕ) (m : Dict (TokenBucket fl)) → Unique m → Unique (drop_unused fl now m)
  unfolding drop_unused
  Unique-drop_unused now [] u = tt
  Unique-drop_unused now ((j, b) ∷ m) (h, u) = elim (Bool-cases (is_unused fl now b)) [
    | inl goes ↦ rw goes (Unique-drop_unused now m u)
    | inr stays ↦ rw stays (lookup-drop_unused-none j now m h, Unique-drop_unused now m u)
  ]

  -- A limiter with the configuration `config`, in whose map no key stands twice.
  abbrev pub IsLimiter : LimitConfig → RateLimiter fl → Type 0
  IsLimiter config l = (l.config ≡ config) × Unique l.buckets

  pub allow-IsLimiter :
      (config : LimitConfig) (j : Text) (l : RateLimiter fl) (c : ℕ × ℕ)
      → IsLimiter config l
      → IsLimiter config (allow fl l j c).0
  unfolding allow
  allow-IsLimiter config j l (made_at, now) (e, u) = (e, Unique-insert j _ l.buckets u)

  pub consume_batch-IsLimiter :
      (config : LimitConfig) (j : Text) (l : RateLimiter fl) (n : ℕ) (clock : ℕ → ℕ × ℕ)
      → IsLimiter config l
      → IsLimiter config (consume_batch fl l j n clock).0
  unfolding consume_batch
  consume_batch-IsLimiter config j l zero clock w = w
  consume_batch-IsLimiter config j l (suc n) clock w =
      let r = allow fl l j (clock n) in
      let w' = allow-IsLimiter config j l (clock n) w in
      on_both (λ (p : RateLimiter fl × Passage fl). IsLimiter config p.0) r.1
        (consume_batch fl r.0 j n clock) (r.0, exceeded_in_batch)
        (consume_batch-IsLimiter config j r.0 n clock w') w'
