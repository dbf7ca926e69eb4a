-- ===== src/Server/Http/Cleaning.antt =====
-- cleanupExpiredSessions of HTTPHandler in pkg/server/http_handler.go, which runs every hour.
use mcp_sdk_go.Base.Text.{Text, text_eq, text_eq_iff}
use mcp_sdk_go.Base.Dict.{Dict, Unique, lookup, remove, lookup-remove}
use mcp_sdk_go.Base.{
  ℕ, ◌≤◌, ◌≡◌, refl, ◌∙◌, sym, ap, inl, inr, Bool, true, false, List, [], ◌∷◌, any, Option, none,
  some, arith, if◌then◌else◌, Bool-cases,
}
use mcp_sdk_go.Server.Http.{SessionInfo, HttpHandler}
use mcp_sdk_go.Server.Http.Sessions.{
  is_after, close_session, expired_sessions, drop_sessions, cleanup_expired_sessions,
}
use mcp_sdk_go.Server.Http.Validity.{lives, is_alive}

drop_sessions-lookup :
    (h : HttpHandler) (ids : List Text) (id : Text)
    → lookup id (drop_sessions h ids).sessions
      ≡ (if any (λ k. text_eq k id) ids then none else lookup id h.sessions)
unfolding drop_sessions close_session
drop_sessions-lookup h [] id = refl
drop_sessions-lookup h (k ∷ ids) id = ground (
  arith,
  drop_sessions-lookup (close_session (record h { sessions = remove k h.sessions }) k) ids id,
  lookup-remove k id h.sessions,
)

abbrev pub is_over : ℕ → Option SessionInfo → Bool
is_over now none = false
is_over now (some s) = is_after now s.expires_at

-- The expired sessions, each by its one entry.
expired-any :
    (now : ℕ) (m : Dict SessionInfo) (id : Text)
    → Unique m
    → any (λ k. text_eq k id) (expired_sessions now m) ≡ is_over now (lookup id m)
unfolding expired_sessions lookup
expired-any now [] id u = refl
expired-any now ((k, s) ∷ m) id (fresh, u) = elim (Bool-cases (text_eq k id)) [
  | inl same ↦
      let e : lookup id m ≡ none = rw ((text_eq_iff k id).0 same) at fresh in
      let rest = expired-any now m id u ∙ ap (is_over now) e in ground (arith, rest, same)
  | inr other ↦ ground (arith, expired-any now m id u, other)
]

lives_later :
    (now t : ℕ) (o : Option SessionInfo) → now ≤ t → is_over now o ≡ true → lives t o ≡ false
lives_later now t none h e = cc
lives_later now t (some s) h e = ground arith

-- From its time on the cleanup changes nothing about which sessions are valid, so that it cannot end a
-- session that a request would still find valid, nor leave one behind that is over.
pub cleanup_expired_sessions-is_alive :
    (h : HttpHandler) (now t : ℕ) (id : Text)
    → Unique h.sessions
    → now ≤ t
    → (is_alive (cleanup_expired_sessions h now) id t ≡ is_alive h id t)
      × ((is_over now (lookup id h.sessions) ≡ true)
          → lookup id (cleanup_expired_sessions h now).sessions ≡ none)
unfolding cleanup_expired_sessions
cleanup_expired_sessions-is_alive h now t id u later =
    let dropped = drop_sessions-lookup h (expired_sessions now h.sessions) id in
    let over = expired-any now h.sessions id u in
    (
      elim (Bool-cases (is_over now (lookup id h.sessions))) [
        | inl o ↦
            rw dropped (rw over (rw o (sym (lives_later now t (lookup id h.sessions) later o))))
        | inr o ↦ rw dropped (rw over (rw o refl))
      ],
      λ o. dropped ∙ rw over (rw o refl),
    )
