-- ===== src/Server/Endpoint/Cancelling.antt =====
-- How often a server of pkg/server/server.go calls a cancel function.
use mcp_sdk_go.Base.Text.{Text}
use mcp_sdk_go.Base.Dict.{Dict, lookup, insert, remove}
use mcp_sdk_go.Base.{
  ℕ, ◌+◌, ◌≤◌, ◌≡◌, refl, Bool, true, false, List, [], ◌∷◌, ◌++◌, some, arith, ◌==◌, Option-cases,
  inl, inr,
}
use mcp_sdk_go.Server.Endpoint.{
  Server, ServerOption, new_server, configure, Routes, Route, initialize, set_capability, cancel,
  subscribe_resource,
}
use mcp_sdk_go.Protocol.Jsonrpc.{Params, absent, unmarshalable, json}
use mcp_sdk_go.Server.Endpoint.Handlers.{
  Codec, handle_initialize, handle_cancel, validate_params, require_provider,
}
use mcp_sdk_go.Server.Endpoint.History.{configure-Fresh}
use mcp_sdk_go.Server.Endpoint.Features.{
  handle_subscribe_resource, subscribe_through, add_subscription,
}
use mcp_sdk_go.Server.Endpoint.Requests.{
  track_request, complete_request, cancel_request, cancel_all, stop_server,
}
use mcp_sdk_go.Server.Endpoint.Serve.{
  Moment, Shown, answers, notifies, cancels, no_handler, stop_panics, ServerEvent, asked, told,
  notifying, tracking, completing, stopping, handle, handle_initialized, serve_request,
  serve_notification, serve_stop, serve, serve_all, cancel_each,
}

abbrev pub one_if : Bool → ℕ
one_if true = 1
one_if false = 0

-- How often a cancel function is called.
abbrev pub calls_of : ℕ → List Shown → ℕ
calls_of f [] = 0
calls_of f (cancels g ∷ out) = one_if (g == f) + calls_of f out
calls_of f (answers _ ∷ out) = calls_of f out
calls_of f (notifies _ ∷ out) = calls_of f out
calls_of f (no_handler _ ∷ out) = calls_of f out
calls_of f (stop_panics ∷ out) = calls_of f out

-- How often it was given to trackRequest.
abbrev pub tracked : ℕ → List ServerEvent → ℕ
tracked f [] = 0
tracked f (tracking _ g ∷ es) = one_if (g == f) + tracked f es
tracked f (asked _ _ _ ∷ es) = tracked f es
tracked f (told _ ∷ es) = tracked f es
tracked f (notifying _ _ ∷ es) = tracked f es
tracked f (completing _ ∷ es) = tracked f es
tracked f (stopping ∷ es) = tracked f es

-- How many active requests have it.
pub held : ℕ → Dict ℕ → ℕ
held f [] = 0
held f ((k, g) ∷ m) = one_if (g == f) + held f m

held-insert :
    (f : ℕ) (k : Text) (g : ℕ) (m : Dict ℕ) → held f (insert k g m) ≤ one_if (g == f) + held f m
unfolding held insert
held-insert f k g [] = omega arith
held-insert f k g ((j, h) ∷ m) = ground (arith, held-insert f k g m)

held-remove : (f : ℕ) (k : Text) (m : Dict ℕ) → held f (remove k m) ≤ held f m
unfolding held remove
held-remove f k [] = omega arith
held-remove f k ((j, h) ∷ m) = ground (arith, held-remove f k m)

held-remove_found :
    (f : ℕ) (k : Text) (g : ℕ) (m : Dict ℕ)
    → lookup k m ≡ some g
    → one_if (g == f) + held f (remove k m) ≤ held f m
unfolding held remove lookup
held-remove_found f k g [] e = cc
held-remove_found f k g ((j, h) ∷ m) e =
    ground (arith, held-remove_found f k g m, held-remove f k m)

calls_of-append :
    (f : ℕ) (xs ys : List Shown) → calls_of f (xs ++ ys) ≡ calls_of f xs + calls_of f ys
calls_of-append f [] ys = omega arith
calls_of-append f (cancels g ∷ xs) ys = omega (arith, calls_of-append f xs ys)
calls_of-append f (answers _ ∷ xs) ys = calls_of-append f xs ys
calls_of-append f (notifies _ ∷ xs) ys = calls_of-append f xs ys
calls_of-append f (no_handler _ ∷ xs) ys = calls_of-append f xs ys
calls_of-append f (stop_panics ∷ xs) ys = calls_of-append f xs ys

calls_of-cancel_all : (f : ℕ) (m : Dict ℕ) → calls_of f (cancel_each (cancel_all m)) ≡ held f m
unfolding cancel_all held
calls_of-cancel_all f [] = refl
calls_of-cancel_all f ((k, g) ∷ m) = omega (arith, calls_of-cancel_all f m)

held_of_nil : (f : ℕ) {m : Dict ℕ} → m ≡ [] → held f m ≡ 0
unfolding held
held_of_nil f e = rw e refl

-- Each step calls a function no more often than it gives up requests that have it.
abbrev Conserves : ℕ → ℕ → Server → Server × List Shown → Type 0
Conserves f new s r = calls_of f r.1 + held f r.0.active_requests ≤ new + held f s.active_requests

stop-Conserves : (f : ℕ) (s : Server) → Conserves f 0 s (serve_stop s)
unfolding serve_stop stop_server held
stop-Conserves f s = ground (arith, calls_of-cancel_all f s.active_requests)

complete-Conserves : (f : ℕ) (s : Server) (id : Text) → Conserves f 0 s (complete_request s id, [])
unfolding complete_request
complete-Conserves f s id = ground (arith, held-remove f id s.active_requests)

handle-Conserves :
    (f : ℕ) (c : Codec) (route : Route) (at : Moment) (s : Server) (params : Params)
    → Conserves f 0 s (handle c route at s params)
unfolding handle handle_initialize validate_params handle_cancel handle_subscribe_resource
    require_provider subscribe_through add_subscription cancel_request
handle-Conserves f c initialize at s absent = ground arith
handle-Conserves f c initialize at s unmarshalable = ground arith
handle-Conserves f c initialize at s (json bytes) = ground arith
handle-Conserves f c set_capability at s params = ground arith
handle-Conserves f c cancel at s absent = ground arith
handle-Conserves f c cancel at s unmarshalable = ground arith
handle-Conserves f c cancel at s (json bytes) = elim (Option-cases (c.cancel bytes)) [
  | inl e ↦ ground arith
  | inr (p, e) ↦ elim (Option-cases (lookup p.id s.active_requests)) [
    | inl e' ↦ ground arith
    | inr (g, e') ↦ ground (arith, held-remove_found f p.id g s.active_requests)
  ]
]
handle-Conserves f c subscribe_resource at s params = ground arith
handle-Conserves f c _ at s params = ground arith

serve-Conserves :
    (f : ℕ) (c : Codec) (t : Routes) (s : Server) (e : ServerEvent)
    → Conserves f (tracked f (e ∷ [])) s (serve c t s e)
unfolding serve serve_notification serve_request track_request handle_initialized
serve-Conserves f c t s (asked at method params) = elim (Option-cases (lookup method t.requests)) [
  | inl e ↦ ground arith
  | inr (route, e) ↦ ground (arith, handle-Conserves f c route at s params)
]
serve-Conserves f c t s (told method) = ground arith
serve-Conserves f c t s (notifying _ _) = ground arith
serve-Conserves f c t s (tracking id g) = ground (arith, held-insert f id g s.active_requests)
serve-Conserves f c t s (completing id) = ground (arith, complete-Conserves f s id)
serve-Conserves f c t s stopping = ground (arith, stop-Conserves f s)

tracked-cons :
    (f : ℕ) (e : ServerEvent) (es : List ServerEvent)
    → tracked f (e ∷ es) ≡ tracked f (e ∷ []) + tracked f es
tracked-cons f (asked _ _ _) es = omega arith
tracked-cons f (told _) es = omega arith
tracked-cons f (notifying _ _) es = omega arith
tracked-cons f (tracking _ _) es = omega arith
tracked-cons f (completing _) es = omega arith
tracked-cons f stopping es = omega arith

serve_all-Conserves :
    (f : ℕ) (c : Codec) (t : Routes) (s : Server) (es : List ServerEvent)
    → Conserves f (tracked f es) s (serve_all c t s es)
unfolding serve_all
serve_all-Conserves f c t s [] = omega arith
serve_all-Conserves f c t s (e ∷ es) =
    let (s', out) = serve c t s e in
    omega (
      arith,
      serve-Conserves f c t s e,
      tracked-cons f e es,
      calls_of-append f (serve c t s e).1 (serve_all c t (serve c t s e).0 es).1,
      serve_all-Conserves f c t (serve c t s e).0 es,
    )

-- Whatever happens to a new server, it calls a cancel function at most as often as the function was
-- given to trackRequest, the calls of Stop included; the requests that still have it at the end are
-- counted with the calls.
pub serve_all-calls :
    (c : Codec) (options : List ServerOption) (es : List ServerEvent) (f : ℕ)
    → let r = serve_all c (new_server options).1 (new_server options).0 es in
      calls_of f r.1 + held f r.0.active_requests ≤ tracked f es
unfolding new_server
serve_all-calls c options es f =
    let q : held f (configure options).active_requests ≡ 0 =
      held_of_nil f (configure-Fresh options).1 in
    omega (arith, serve_all-Conserves f c (new_server options).1 (configure options) es)
