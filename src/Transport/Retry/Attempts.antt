-- ===== src/Transport/Retry/Attempts.antt =====
-- The retry loop of pkg/transport/reliability_middleware.go: one attempt after the other.
use mcp_sdk_go.Base.Int.{ℤ}
use mcp_sdk_go.Base.{
  ℕ, zero, suc, ◌+◌, ◌≤◌, ◌<◌, ◌≡◌, ◌⊎◌, ◌∙◌, inl, inr, refl, sym, ap, subst, true, false, List, [],
  ◌∷◌, ◌++◌, Option, none, some, arith, Option-cases, Bool-cases,
}
use mcp_sdk_go.Transport.Breaker.{CircuitBreaker}
use mcp_sdk_go.Transport.Retry.{
  Float, GoError, is_retryable_error, ReliabilityConfig, Reply, ok, err, Environment, answer,
  context_error, refused, exhausted, Action, calls, Run, note_success, note_failure, after, wait,
  judge, attempts, max_attempts,
}

module _ {fl : Float} {A : Type 0} (config : ReliabilityConfig fl) (env : Environment fl A) where
  abbrev pub interrupted : ℕ → Option GoError
  interrupted zero = none
  interrupted (suc k) = env.cancelled_in_wait (suc k)

  -- The context lets an attempt through.
  pub record Open (k : ℕ) : Type 0 where
    pub before : env.cancelled k ≡ none
    pub in_wait : interrupted k ≡ none

  -- An attempt that fails in a way that is tried again.
  pub record Retries (k : ℕ) : Type 0 where
    pub admitted : Open k
    pub error : GoError
    pub failed : env.reply k ≡ err error
    pub retryable : is_retryable_error error ≡ true

  pub waited : (k : ℕ) → (wait fl config env k).1 ≡ interrupted k
  unfolding wait
  waited zero = refl
  waited (suc k) = refl

  abbrev pub seen : ℕ → List Action
  seen k = (wait fl config env k).0 ++ calls k ∷ []

  abbrev pub now : ℕ → Option GoError → Option CircuitBreaker → ℕ → Run A
  now k last br left = attempts fl config env left k last br

  -- The ways through one attempt, each with what the loop returns.
  pub data Attempt (left k : ℕ) (last : Option GoError) (br : Option CircuitBreaker) : Type 0 where
    stopped :
        (e : GoError) (acts : List Action)
        → ¬ Open k
        → now k last br (suc left)
          ≡ record { result = context_error e; breaker = br; actions = acts }
        → acts ≡ [] ⊎ acts ≡ (wait fl config env k).0
        → Attempt left k last br
    answered :
        (v : A)
        → Open k
        → env.reply k ≡ ok v
        → now k last br (suc left)
          ≡ record { result = answer v; breaker = note_success br; actions = seen k }
        → Attempt left k last br
    fatal :
        (e : GoError)
        → Open k
        → env.reply k ≡ err e
        → is_retryable_error e ≡ false
        → now k last br (suc left) ≡ record {
          result = refused e;
          breaker = note_failure br (env.failed_at k);
          actions = seen k;
        }
        → Attempt left k last br
    retried :
        (r : Retries k)
        → now k last br (suc left)
          ≡ after (seen k) (now (suc k) (some r.error) (note_failure br (env.failed_at k)) left)
        → Attempt left k last br

  pub attempt :
      (left k : ℕ) (last : Option GoError) (br : Option CircuitBreaker) → Attempt left k last br
  unfolding attempts judge
  attempt left k last br = elim (Option-cases (env.cancelled k)) [
    | inr (e, c) ↦ stopped e [] (λ o. cc (c, o.before)) (rw (c, attempts)) (inl refl)
    | inl c ↦ elim (Option-cases (interrupted k)) [
      | inr (e, i) ↦
          stopped e (wait fl config env k).0 (λ o. cc (i, o.in_wait))
            (rw (c, attempts) (rw (waited k) (rw i))) (inr refl)
      | inl i ↦ passed c i (env.reply k) refl
    ]
  ]
    where
      passed :
          env.cancelled k ≡ none
          → interrupted k ≡ none
          → (r : Reply A) → env.reply k ≡ r
          → Attempt left k last br
      passed c i (ok v) e =
          answered v (record { before = c; in_wait = i }) e
            (rw (c, attempts) (rw (waited k) (rw i (rw e (rw e)))))
      passed c i (err x) e = elim (Bool-cases (is_retryable_error x)) [
        | inr f ↦
            fatal x (record { before = c; in_wait = i }) e f
              (rw (c, attempts) (rw (waited k) (rw i (rw e (rw f (rw e))))))
        | inl t ↦
            retried
              (record {
                admitted = record { before = c; in_wait = i };
                error = x;
                failed = e;
                retryable = t;
              })
              (rw (c, attempts) (rw (waited k) (rw i (rw e (rw t (rw e))))))
      ]

  from_here : (k i : ℕ) → k ≤ i → (k ≡ i) ⊎ (suc k ≤ i)
  from_here k i h = omega arith

  abbrev pub Answers : ℕ → ℕ → A → Type 0
  Answers k n v = ((i : ℕ) → k ≤ i → i < n → Retries i) × Open n × (env.reply n ≡ ok v)

  pub answer-Answers :
      (left k : ℕ) (last : Option GoError) (br : Option CircuitBreaker) (v : A)
      → (now k last br left).result ≡ answer v
      → (n : ℕ) × (k ≤ n) × (n < k + left) × Answers k n v
  unfolding attempts
  answer-Answers zero k last br v h = cc
  answer-Answers (suc left) k last br v h = elim (attempt left k last br) [
    | stopped e acts _ p _ ↦ cc (sym (ap (λ (r : Run A). r.result) p) ∙ h)
    | fatal e _ _ _ p ↦ cc (sym (ap (λ (r : Run A). r.result) p) ∙ h)
    | answered w o e p ↦
        let same = sym (ap (λ (r : Run A). r.result) p) ∙ h in
        (k, omega arith, omega arith, ((λ i a b. absurd (omega arith)), o, cc))
    | retried r p ↦
        let (n, low, high, (before, o, e)) =
          answer-Answers left (suc k) _ _ v (sym (ap (λ (r : Run A). r.result) p) ∙ h) in
        (
          n,
          omega arith,
          omega arith,
          (
            (λ i a b. elim (from_here k i a) [
              | inl same ↦ subst Retries same r
              | inr later ↦ before i later b
            ]),
            o,
            e,
          ),
        )
  ]

  answered_now :
      (left k : ℕ) (last : Option GoError) (br : Option CircuitBreaker) (v : A)
      → Open k
      → env.reply k ≡ ok v
      → (now k last br (suc left)).result ≡ answer v
  answered_now left k last br v o e = elim (attempt left k last br) [
    | stopped _ _ shut _ _ ↦ absurd (shut o)
    | fatal x _ f _ p ↦ cc
    | answered w _ f p ↦ rw p (cc)
    | retried r p ↦ cc (r.failed)
  ]

  -- An attempt that is tried again hands over to the next one.
  pub retried_now :
      (left k : ℕ) (last : Option GoError) (br : Option CircuitBreaker)
      → Retries k
      → (r : Retries k) × (now k last br (suc left)
          ≡ after (seen k) (now (suc k) (some r.error) (note_failure br (env.failed_at k)) left))
  retried_now left k last br r = elim (attempt left k last br) [
    | stopped _ _ shut _ _ ↦ absurd (shut r.admitted)
    | fatal x _ f t p ↦ cc (r.failed, r.retryable)
    | answered w _ f p ↦ cc (r.failed)
    | retried r' p ↦ (r', p)
  ]

  pub Answers-answer :
      (left k n : ℕ) (last : Option GoError) (br : Option CircuitBreaker) (v : A)
      → k ≤ n
      → n < k + left
      → Answers k n v
      → (now k last br left).result ≡ answer v
  Answers-answer zero k n last br v low high h = absurd (omega arith)
  Answers-answer (suc left) k n last br v low high (before, o, e) = elim (from_here k n low) [
    | inl same ↦ answered_now left k last br v (subst Open (sym same) o) (ap env.reply same ∙ e)
    | inr later ↦
        let (r, p) = retried_now left k last br (before k (omega arith) later) in
        rw p (
          Answers-answer left (suc k) n _ _ v later (omega arith)
            ((λ i a b. before i (omega arith) b), o, e))
  ]

  -- A loop that runs out of attempts has tried and failed at each of them.
  pub exhausted-Retries :
      (left k : ℕ) (last l : Option GoError) (m : ℤ) (br : Option CircuitBreaker)
      → (now k last br left).result ≡ exhausted m l
      → (i : ℕ) → k ≤ i
      → i < k + left
      → Retries i
  exhausted-Retries zero k last l m br h i a b = absurd (omega arith)
  exhausted-Retries (suc left) k last l m br h i a b = elim (attempt left k last br) [
    | stopped e acts _ p _ ↦ cc (sym (ap (λ (r : Run A). r.result) p) ∙ h)
    | fatal e _ _ _ p ↦ cc (sym (ap (λ (r : Run A). r.result) p) ∙ h)
    | answered w o e p ↦ cc (sym (ap (λ (r : Run A). r.result) p) ∙ h)
    | retried r p ↦ elim (from_here k i a) [
      | inl same ↦ subst Retries same r
      | inr later ↦
          exhausted-Retries left (suc k) _ l m _ (sym (ap (λ (r : Run A). r.result) p) ∙ h) i later
            (omega arith)
    ]
  ]

  pub Retries-exhausted :
      (left k : ℕ) (last : Option GoError) (br : Option CircuitBreaker)
      → ((i : ℕ) → k ≤ i → i < k + left → Retries i)
      → (l : Option GoError) × ((now k last br left).result
          ≡ exhausted (max_attempts fl config env) l)
  unfolding attempts
  Retries-exhausted zero k last br h = (last, refl)
  Retries-exhausted (suc left) k last br h =
      let (r, p) = retried_now left k last br (h k (omega arith) (omega arith)) in
      let (l, q) =
        Retries-exhausted left (suc k) (some r.error) (note_failure br (env.failed_at k))
          (λ i a b. h i (omega arith) (omega arith)) in
      (l, rw p q)
