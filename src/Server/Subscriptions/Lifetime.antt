-- ===== src/Server/Subscriptions/Lifetime.antt =====
-- pkg/server/subscriptions.go: a manager after Stop.
use mcp_sdk_go.Base.{
  ◌≡◌, inl, inr, refl, sym, ◌∙◌, true, List, [], ◌∷◌, ◌++◌, All, Bool, false, some, arith,
  Option-cases,
}
use mcp_sdk_go.Server.Subscriptions.{
  Notification, ResourceSubscriptionManager, subscribe, unsubscribe, notify_resource_change,
}
use mcp_sdk_go.Server.Subscriptions.Batching.{
  stop, ManagerEvent, subscribes, unsubscribes, notifies, receives, stops, ticks, step, run,
}

-- A run that does not panic is a step and a run.
run-cons :
    (m m' : ResourceSubscriptionManager) (e : ManagerEvent) (es : List ManagerEvent)
    (out : List Notification)
    → run m (e ∷ es) ≡ some (m', out)
    → (q : ResourceSubscriptionManager) × (now later : List Notification) × (step m e
        ≡ some (q, now))
      × (run q es ≡ some (m', later))
      × (now ++ later ≡ out)
unfolding run
run-cons m m' e es out h = elim (Option-cases (step m e)) [
  | inl panic ↦ absurd (cc (rw (panic, run) at h))
  | inr ((q, now), first) ↦ elim (Option-cases (run q es)) [
    | inl panic ↦ let r = rw (first, run) at h in let r' = rw panic at r in absurd (cc)
    | inr ((z, later), rest) ↦
        let r = rw (first, run) at h in
        let r' = rw rest at r in (q, now, later, first, rest ∙ cc, cc)
  ]
]

stopped_step :
    (m q : ResourceSubscriptionManager) (e : ManagerEvent) (out : List Notification)
    → m.stopped ≡ true
    → step m e ≡ some (q, out)
    → (q.stopped ≡ true) × (out ≡ [])
unfolding step subscribe unsubscribe notify_resource_change stop
stopped_step m q (subscribes uri recursive now) out s h = ground arith
stopped_step m q (unsubscribes uri) out s h = ground arith
stopped_step m q (notifies change) out s h = ground arith
stopped_step m q receives out s h = ground arith
stopped_step m q stops out s h = ground arith
stopped_step m q (ticks now) out s h = ground arith

stopped_sends_nothing :
    (m m' : ResourceSubscriptionManager) (es : List ManagerEvent) (out : List Notification)
    → m.stopped ≡ true
    → run m es ≡ some (m', out)
    → out ≡ []
unfolding run
stopped_sends_nothing m m' [] out s h = cc
stopped_sends_nothing m m' (e ∷ es) out s h =
    let (q, now, later, first, rest, joined) = run-cons m m' e es out h in
    let (still, silent) = stopped_step m q e now s first in
    let ends = stopped_sends_nothing q m' es later still rest in sym joined ∙ rw (silent, ends) refl

-- The calls that a stopped manager survives.
abbrev pub is_harmless : ManagerEvent → Bool
is_harmless (notifies change) = false
is_harmless stops = false
is_harmless (subscribes uri recursive now) = true
is_harmless (unsubscribes uri) = true
is_harmless receives = true
is_harmless (ticks now) = true

stopped_survives :
    (m q : ResourceSubscriptionManager) (e : ManagerEvent) (out : List Notification)
    → m.stopped ≡ true
    → step m e ≡ some (q, out)
    → is_harmless e ≡ true
unfolding step notify_resource_change stop
stopped_survives m q (subscribes uri recursive now) out s h = refl
stopped_survives m q (unsubscribes uri) out s h = refl
stopped_survives m q (notifies change) out s h = ground arith
stopped_survives m q receives out s h = refl
stopped_survives m q stops out s h = ground arith
stopped_survives m q (ticks now) out s h = refl

stopped-All :
    (m m' : ResourceSubscriptionManager) (es : List ManagerEvent) (out : List Notification)
    → m.stopped ≡ true
    → run m es ≡ some (m', out)
    → All (λ e. is_harmless e ≡ true) es
stopped-All m m' [] out s h = tt
stopped-All m m' (e ∷ es) out s h =
    let (q, now, later, first, rest, joined) = run-cons m m' e es out h in
    (
      stopped_survives m q e now s first,
      stopped-All q m' es later (stopped_step m q e now s first).0 rest,
    )

step-stops :
    (m q : ResourceSubscriptionManager) (out : List Notification)
    → step m stops ≡ some (q, out)
    → (q.stopped ≡ true) × (out ≡ [])
unfolding step stop
step-stops m q out h = ground arith

-- All that a manager ever sends it has sent when Stop returns, whatever is queued or batched by then
-- and whatever happens later. After Stop, a call of NotifyResourceChange or another Stop panics: a
-- history that does not panic has none.
pub run-stops :
    (m m' : ResourceSubscriptionManager) (before after : List ManagerEvent)
    (out : List Notification)
    → run m (before ++ stops ∷ after) ≡ some (m', out)
    → (q : ResourceSubscriptionManager) × (run m before ≡ some (q, out))
      × All (λ e. is_harmless e ≡ true) after
unfolding run
run-stops m m' [] after out h =
    let (q, now, later, first, rest, joined) = run-cons m m' stops after out h in
    let (still, silent) = step-stops m q now first in
    let ends = stopped_sends_nothing q m' after later still rest in
    let nothing : out ≡ [] = sym joined ∙ rw (silent, ends) refl in
    (m, rw nothing refl, stopped-All q m' after later still rest)
run-stops m m' (e ∷ es) after out h =
    let (q, now, later, first, rest, joined) = run-cons m m' e (es ++ stops ∷ after) out h in
    let (z, sent, harmless) = run-stops q m' es after later rest in
    (z, rw (first, run) (rw sent (rw joined refl)), harmless)
