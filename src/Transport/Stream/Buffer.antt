-- ===== src/Transport/Stream/Buffer.antt =====
-- EventBuffer of pkg/transport/streamable_http.go, and what draining it into the channel of messages
-- delivers.
use mcp_sdk_go.Base.Int.{ℤ, pos, negsuc}
use mcp_sdk_go.Base.Text.{Text}
use mcp_sdk_go.Base.{
  ℕ, zero, suc, ◌+◌, ◌-◌, ◌≤◌, ◌<◌, ◌≡◌, refl, ◌∙◌, sym, ap, inl, inr, Bool, List, [], ◌∷◌, ◌++◌,
  append-nil, append_assoc, length, take, drop, length-append, length-drop, drop-drop,
  take_of_length_le, drop-nil, arith, leb, ltb, leb→le, if◌then◌else◌, Bool-cases,
}
use mcp_sdk_go.Transport.Stream.{channel_capacity, offer}

pub record EventBuffer : Type 0 where
  pub events : List Text
  pub max_size : ℕ

unfoldable pub new_event_buffer : ℤ → EventBuffer
new_event_buffer (pos zero) = record { events = []; max_size = 100 }
new_event_buffer (pos (suc n)) = record { events = []; max_size = suc n }
new_event_buffer (negsuc n) = record { events = []; max_size = 100 }

unfoldable pub add_event : EventBuffer → Text → EventBuffer
add_event b event = record b {
  events = (if leb b.max_size (length b.events) then drop 1 b.events else b.events) ++ event ∷ [];
}

unfoldable pub add_events : EventBuffer → List Text → EventBuffer
add_events b [] = b
add_events b (e ∷ es) = add_events (add_event b e) es

abbrev pub fits : List Text → Bool
fits chan = ltb (length chan) channel_capacity

-- The `break` leaves the select only, so that the loop goes on behind an event that does not fit.
unfoldable pub drain_events : List Text → List Text → List Text × ℕ
drain_events [] chan = (chan, 0)
drain_events (e ∷ es) chan =
    let (chan', n) = drain_events es (offer chan e) in (chan', if fits chan then n + 1 else n)

-- The buffer is empty then, whatever was delivered.
unfoldable pub drain_to : EventBuffer → List Text → EventBuffer × List Text × ℕ
drain_to b chan =
    let (chan', n) = drain_events b.events chan in (record b { events = [] }, chan', n)

drop-snoc :
    (k : ℕ) (xs : List Text) (e : Text)
    → k ≤ length xs
    → drop k (xs ++ e ∷ []) ≡ drop k xs ++ e ∷ []
drop-snoc zero xs e h = refl
drop-snoc (suc k) [] e h = absurd (omega arith)
drop-snoc (suc k) (x ∷ xs) e h = drop-snoc k xs e (omega arith)

-- What a buffer holds of the events that it was given: the last ones.
abbrev pub last_of : ℕ → List Text → List Text
last_of n es = drop (length es - n) es

add_event-last_of :
    (max : ℕ) (before : List Text) (e : Text)
    → 0 < max
    → (if leb max (length (last_of max before))
          then drop 1 (last_of max before)
          else last_of max before)
        ++ e ∷ []
      ≡ last_of max (before ++ e ∷ [])
add_event-last_of max before e h = elim (Bool-cases (leb max (length (last_of max before)))) [
  | inl full ↦
      let enough : max ≤ length before = omega (
        arith,
        leb→le max (length (last_of max before)) full,
        length-drop (length before - max) before,
      ) in
      rw full (
        ap (λ l. l ++ e ∷ []) (drop-drop (length before - max) 1 before)
        ∙ sym (drop-snoc (length before - max + 1) before e (omega arith))
        ∙ ap (λ k. drop k (before ++ e ∷ [])) (omega (arith, length-append before (e ∷ []))))
  | inr room ↦
      let short : length before < max = ground (arith, length-drop (length before - max) before) in
      let none_gone : length before - max ≡ 0 = omega arith in
      let none_goes : length (before ++ e ∷ []) - max ≡ 0 =
        omega (arith, length-append before (e ∷ [])) in
      rw room (rw (none_gone, none_goes) refl)
]

add_events-last_of :
    (max : ℕ) (before es : List Text)
    → 0 < max
    → (add_events (record { events = last_of max before; max_size = max }) es).events
      ≡ last_of max (before ++ es)
unfolding add_events add_event
add_events-last_of max before [] h = ap (last_of max) (sym (append-nil before))
add_events-last_of max before (e ∷ es) h =
    ap (λ l. (add_events (record { events = l; max_size = max }) es).events)
      (add_event-last_of max before e h)
    ∙ (add_events-last_of max (before ++ e ∷ []) es h
        ∙ ap (last_of max) (append_assoc before (e ∷ []) es))

offer-take :
    (chan es : List Text) (e : Text)
    → offer chan e ++ take (channel_capacity - length (offer chan e)) es
      ≡ chan ++ take (channel_capacity - length chan) (e ∷ es)
unfolding offer
offer-take chan es e = elim (Bool-cases (ltb (length chan) channel_capacity)) [
  | inl room ↦
      let one_less : channel_capacity - length chan
          ≡ suc (channel_capacity - length (chan ++ e ∷ [])) =
        ground (arith, length-append chan (e ∷ [])) in
      rw room (
        append_assoc chan (e ∷ []) (take (channel_capacity - length (chan ++ e ∷ [])) es)
        ∙ ap (λ n. chan ++ take n (e ∷ es)) (sym one_less))
  | inr full ↦
      let no_room : channel_capacity - length chan ≡ 0 = ground arith in rw full (rw no_room refl)
]

-- Draining delivers as many events as the channel has room for, the oldest first, and loses the rest.
drain_events-take :
    (es chan : List Text)
    → (drain_events es chan).0 ≡ chan ++ take (channel_capacity - length chan) es
unfolding drain_events
drain_events-take [] chan = sym (
    ap (λ (l : List Text). chan ++ l)
      (take_of_length_le (channel_capacity - length chan) [] (omega arith))
    ∙ append-nil chan)
drain_events-take (e ∷ es) chan = drain_events-take es (offer chan e) ∙ offer-take chan es e

max_size-add_events : (b : EventBuffer) (es : List Text) → (add_events b es).max_size ≡ b.max_size
unfolding add_events add_event
max_size-add_events b [] = refl
max_size-add_events b (e ∷ es) = max_size-add_events (add_event b e) es

new_event_buffer-last_of :
    (size : ℤ) (es : List Text)
    → (add_events (new_event_buffer size) es).events ≡ last_of (new_event_buffer size).max_size es
unfolding new_event_buffer
new_event_buffer-last_of (pos zero) es = add_events-last_of 100 [] es (omega arith)
new_event_buffer-last_of (pos (suc n)) es =
    ap (λ l. (add_events (record { events = l; max_size = suc n }) es).events)
      (sym (drop-nil (0 - suc n)))
    ∙ add_events-last_of (suc n) [] es (omega arith)
new_event_buffer-last_of (negsuc n) es = add_events-last_of 100 [] es (omega arith)

-- Whatever events a new buffer is given, draining it sends the last ones, as many as its size, in their
-- order, as far as the channel has room for them; what has no room is lost, since the buffer is empty
-- then.
pub drain_to-new_event_buffer :
    (size : ℤ) (es chan : List Text)
    → let b = new_event_buffer size in
      let r = drain_to (add_events b es) chan in
      (r.1 ≡ chan ++ take (channel_capacity - length chan) (last_of b.max_size es))
      × (r.0.events ≡ [])
unfolding drain_to
drain_to-new_event_buffer size es chan = (
  drain_events-take (add_events (new_event_buffer size) es).events chan
      ∙ ap (λ l. chan ++ take (channel_capacity - length chan) l)
          (new_event_buffer-last_of size es),
  refl,
)
