-- ===== src/Server/Http/Origins.antt =====
-- Which origins HTTPHandler of pkg/server/http_handler.go lets in.
use mcp_sdk_go.Base.Text.{
  Text, codes, text_eq, text_eq_iff, text_eq_refl, text_eq→eq, has_prefix, has_prefix→append,
  has_prefix-append,
}
use mcp_sdk_go.Base.Search.{any-In, In-any}
use mcp_sdk_go.Base.{
  ◌≡◌, ◌≢◌, ◌↔◌, ◌⊎◌, refl, inl, inr, Bool, true, false, ◌&&◌, ◌||◌, [], ◌∷◌, ◌++◌, In, arith,
  Bool-cases,
}
use mcp_sdk_go.Server.Http.{
  HttpHandler, wildcard, localhost_patterns, is_localhost_pattern, is_localhost_origin,
  match_origin, is_origin_allowed,
}

and_parts : (a b : Bool) → (a && b) ≡ true → (a ≡ true) × (b ≡ true)
and_parts a b h = ground arith

or_true : (a : Bool) → (a || true) ≡ true
or_true true = refl
or_true false = refl

-- One of the addresses of the machine itself, with or without a port.
abbrev pub IsLocal : Text → Type 0
IsLocal origin =
    (p : Text) × In p localhost_patterns
    × ((origin ≡ p) ⊎ ((port : Text) × (origin ≡ (p ++ codes ":") ++ port)))

is_localhost_origin_iff : (origin : Text) → (is_localhost_origin origin ≡ true) ↔ IsLocal origin
unfolding is_localhost_origin
is_localhost_origin_iff origin = (
  λ h.
      let (p, i, q) =
        any-In (λ p. text_eq origin p || has_prefix origin (p ++ codes ":")) localhost_patterns h in
      (
        p,
        i,
        elim (Bool-cases (text_eq origin p)) [
          | inl e ↦ inl (text_eq→eq origin p e)
          | inr e ↦ inr (has_prefix→append origin (p ++ codes ":") (rw e at q))
        ],
      ),
  λ (p, i, w).
      In-any (λ p. text_eq origin p || has_prefix origin (p ++ codes ":")) p localhost_patterns i
        (elim w [
          | inl e ↦ ground (arith, text_eq_iff origin p)
          | inr (port, e) ↦ rw e (ground (arith, has_prefix-append (p ++ codes ":") port))
        ]),
)

is_localhost_pattern_iff :
    (allowed : Text) → (is_localhost_pattern allowed ≡ true) ↔ In allowed localhost_patterns
unfolding is_localhost_pattern
is_localhost_pattern_iff allowed = (
  λ h.
      let (p, i, q) = any-In (text_eq allowed) localhost_patterns h in
      rw (text_eq→eq allowed p q) i,
  λ i. In-any (text_eq allowed) allowed localhost_patterns i (text_eq_refl allowed),
)

-- What lets an origin in.
abbrev pub Admits : Text → Text → Type 0
Admits origin allowed =
    (allowed ≡ wildcard) ⊎ ((allowed ≡ origin) ⊎ (In allowed localhost_patterns × IsLocal origin))

match_origin_iff :
    (allowed origin : Text)
    → (match_origin allowed origin ≡ true)
      ↔ ((allowed ≡ origin) ⊎ (In allowed localhost_patterns × IsLocal origin))
unfolding match_origin
match_origin_iff allowed origin = (
  λ h. elim (Bool-cases (text_eq allowed origin)) [
    | inl e ↦ inl (text_eq→eq allowed origin e)
    | inr e ↦
        let q = rw e at h in
        let (a, b) = and_parts (is_localhost_pattern allowed) (is_localhost_origin origin) q in
        inr ((is_localhost_pattern_iff allowed).0 a, (is_localhost_origin_iff origin).0 b)
  ],
  λ w. elim w [
    | inl e ↦ ground (arith, text_eq_iff allowed origin)
    | inr (a, b) ↦
        rw ((is_localhost_pattern_iff allowed).1 a, (is_localhost_origin_iff origin).1 b)
          (or_true (text_eq allowed origin))
  ],
)

-- A request's origin is let in exactly when it is there and the list of allowed origins has the
-- wildcard, the origin itself, or an address of the machine itself while the origin is one too, with or
-- without a port. So one local address in the list lets in all of them, with any port and either
-- scheme, and a request without an origin is never let in, not even by the wildcard.
pub is_origin_allowed_iff :
    (h : HttpHandler) (origin : Text)
    → (is_origin_allowed h origin ≡ true)
      ↔ ((origin ≢ []) × ((allowed : Text) × In allowed h.allowed_origins × Admits origin allowed))
unfolding is_origin_allowed
is_origin_allowed_iff h [] = (λ q. cc, λ (n, w). absurd (n refl))
is_origin_allowed_iff h (c ∷ cs) = (
  λ q.
      let (a, i, t) =
        any-In (λ allowed. text_eq allowed wildcard || match_origin allowed (c ∷ cs))
          h.allowed_origins q in
      (
        λ e. cc,
        (
          a,
          i,
          elim (Bool-cases (text_eq a wildcard)) [
            | inl e ↦ inl (text_eq→eq a wildcard e)
            | inr e ↦ inr ((match_origin_iff a (c ∷ cs)).0 (rw e at t))
          ],
        ),
      ),
  λ (n, (a, i, w)).
      In-any (λ allowed. text_eq allowed wildcard || match_origin allowed (c ∷ cs)) a
        h.allowed_origins i
        (elim w [
          | inl e ↦ rw e (rw (text_eq_refl wildcard) refl)
          | inr m ↦ rw ((match_origin_iff a (c ∷ cs)).1 m) (or_true (text_eq a wildcard))
        ]),
)
