-- ===== src/Auth/Middleware/Vouching.antt =====
-- Whom the middleware of pkg/auth/middleware.go lets through, with the tokens that it has cached.
use mcp_sdk_go.Base.Int.{ℤ, pos, leb_ℤ}
use mcp_sdk_go.Base.Text.{Text, text_eq, text_eq_iff}
use mcp_sdk_go.Base.Dict.{Dict, lookup, insert, remove}
use mcp_sdk_go.Base.{
  ℕ, ◌≡◌, ◌⊎◌, subst, ap, false, [], ◌∷◌, length, Option, none, some, if◌then◌else◌, All,
  Bool-cases, Option-cases, inl, inr, arith,
}
use mcp_sdk_go.Auth.ApiKey.{UserInfo, AuthOutcome, granted, denied}
use mcp_sdk_go.Server.Http.Sessions.{add_time, is_after}
use mcp_sdk_go.Auth.Middleware.{
  CacheEntry, TokenCache, AuthMiddleware, get_cached, evict, set_cached, drop_expired, note_valid,
}

module _ {V : Type 0} (P : Text × V → Type 0) where
  All-insert : (k : Text) (v : V) (m : Dict V) → P (k, v) → All P m → All P (insert k v m)
  unfolding insert
  All-insert k v [] p a = (p, tt)
  All-insert k v ((j, w) ∷ m) p (q, a) = elim (Bool-cases (text_eq j k)) [
    | inl same ↦ rw same (p, a)
    | inr other ↦ rw other (q, All-insert k v m p a)
  ]

  All-remove : (k : Text) (m : Dict V) → All P m → All P (remove k m)
  unfolding remove
  All-remove k [] a = tt
  All-remove k ((j, w) ∷ m) (q, a) = elim (Bool-cases (text_eq j k)) [
    | inl same ↦ rw same (All-remove k m a)
    | inr other ↦ rw other (q, All-remove k m a)
  ]

  lookup-All : (k : Text) (v : V) (m : Dict V) → lookup k m ≡ some v → All P m → P (k, v)
  unfolding lookup
  lookup-All k v [] e a = absurd (cc)
  lookup-All k v ((j, w) ∷ m) e (q, a) = elim (Bool-cases (text_eq j k)) [
    | inl same ↦
        let here : some w ≡ some v = rw same at e in
        subst P (ground (arith, (text_eq_iff j k).0 same, here)) q
    | inr other ↦ lookup-All k v m (rw other at e) a
  ]

module _ (validate : ℕ → Text → AuthOutcome UserInfo) (ttl : ℤ) where
  -- The provider has accepted the token for the user, and if that was not just now, less than the
  -- lifetime of the cache ago.
  abbrev pub Vouched : Text → UserInfo → ℕ → Type 0
  Vouched token user now =
      (t : ℕ) × (validate t token ≡ granted user)
      × ((t ≡ now) ⊎ (is_after now (add_time t ttl) ≡ false))

  abbrev pub Earned : Text × CacheEntry → Type 0
  Earned (k, e) = (t : ℕ) × (validate t k ≡ granted e.user_info) × (e.expires_at ≡ add_time t ttl)

  abbrev pub IsEarned : Option TokenCache → Type 0
  IsEarned none = Unit
  IsEarned (some c) = (c.ttl ≡ ttl) × All Earned c.entries

  All-evict : (seen m : Dict CacheEntry) → All Earned m → All Earned (evict seen m)
  All-evict [] m a = a
  All-evict ((k, e) ∷ rest) m a = All-remove Earned k m a

  pub All-drop_expired :
      (now : ℕ) (m : Dict CacheEntry) → All Earned m → All Earned (drop_expired now m)
  unfolding drop_expired
  All-drop_expired now [] a = tt
  All-drop_expired now ((k, e) ∷ m) (q, a) = elim (Bool-cases (is_after now e.expires_at)) [
    | inl over ↦ rw over (All-drop_expired now m a)
    | inr valid ↦ rw valid (q, All-drop_expired now m a)
  ]

  IsEarned-set_cached :
      (c : TokenCache) (token : Text) (user : UserInfo) (now : ℕ)
      (order : Dict CacheEntry → Dict CacheEntry)
      → validate now token ≡ granted user
      → IsEarned (some c)
      → IsEarned (some (set_cached c token user now order))
  unfolding set_cached
  IsEarned-set_cached c token user now order v (e, a) = (
    e,
    All-insert Earned token (record { user_info = user; expires_at = add_time now c.ttl }) _
        (now, v, ap (add_time now) e) kept,
  )
    where
      kept : All Earned (
          if leb_ℤ c.max_size (pos (length c.entries))
          then evict (order c.entries) c.entries
          else c.entries)
      kept = elim (Bool-cases (leb_ℤ c.max_size (pos (length c.entries)))) [
        | inl full ↦ rw full (All-evict (order c.entries) c.entries a)
        | inr room ↦ rw room a
      ]

  pub get_cached-Vouched :
      (c : TokenCache) (token : Text) (now : ℕ) (user : UserInfo)
      → IsEarned (some c)
      → get_cached c token now ≡ some user
      → Vouched token user now
  unfolding get_cached
  get_cached-Vouched c token now user (e, a) h = elim (Option-cases (lookup token c.entries)) [
    | inl q ↦ absurd (let bad = rw (q, get_cached) at h in cc)
    | inr (entry, q) ↦ found entry q
  ]
    where
      found : (entry : CacheEntry) → lookup token c.entries ≡ some entry → Vouched token user now
      found entry q =
          let h1 = rw (q, get_cached) at h in
          let (t, v, x) = lookup-All Earned token entry c.entries q a in
          elim (Bool-cases (is_after now entry.expires_at)) [
            | inl late ↦ absurd (let bad = rw late at h1 in cc)
            | inr valid ↦
                let same : some entry.user_info ≡ some user = rw valid at h1 in
                (t, cc, inr (subst (λ z. is_after now z ≡ false) x valid))
          ]

  -- A validated token is vouched for, and the cache stays earned.
  pub note_valid-Vouched :
      (m : AuthMiddleware) (token : Text) (now : ℕ) (order : Dict CacheEntry → Dict CacheEntry)
      (answer : AuthOutcome UserInfo)
      → validate now token ≡ answer
      → IsEarned m.token_cache
      → IsEarned (note_valid validate m token now order answer).0.token_cache
  note_valid-Vouched m token now order (denied e) v a = a
  note_valid-Vouched m token now order (granted user) v a = elim (Option-cases m.token_cache) [
    | inl q ↦ rw q (rw q tt)
    | inr (c, q) ↦ rw q (IsEarned-set_cached c token user now order v (rw q at a))
  ]
