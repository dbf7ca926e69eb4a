-- ===== src/Server/Subscriptions/Covering.antt =====
-- pkg/server/subscriptions.go: which URIs a subscription is about.
use mcp_sdk_go.Base.Text.{Text, codes, text_eq, text_eq_iff, text_eq_refl}
use mcp_sdk_go.Base.Dict.{Dict, lookup}
use mcp_sdk_go.Base.Search.{any-In, In-any}
use mcp_sdk_go.Base.{
  ℕ, ◌≡◌, ◌⊎◌, ◌↔◌, inl, inr, refl, sym, ap, ◌∙◌, subst, Bool, true, ◌&&◌, ◌||◌, [], ◌∷◌, ◌++◌, In,
  some, arith, ◌==◌, Bool-cases, Option-cases,
}
use mcp_sdk_go.Server.Subscriptions.{
  Subscription, ResourceSubscriptionManager, byte_is, is_child_resource, has_key, should_notify,
  covers,
}

child_cons :
    (x y : ℕ) (xs ys : Text)
    → is_child_resource (x ∷ xs) (y ∷ ys) ≡ (x == y && is_child_resource xs ys)
unfolding is_child_resource text_eq
child_cons x y xs ys = ground arith

child_of :
    (child parent : Text)
    → is_child_resource child parent ≡ true
    → (t : Text) × (child ≡ parent ++ codes "/" ++ t)
unfolding is_child_resource byte_is text_eq
child_of [] parent h = absurd (ground arith)
child_of (x ∷ xs) [] h = (xs, ground arith)
child_of (x ∷ xs) (y ∷ ys) h =
    let (t, e) = child_of xs ys (ground (arith, child_cons x y xs ys)) in
    (t, ground (arith, child_cons x y xs ys))

is_child_resource_below :
    (parent t : Text) → is_child_resource (parent ++ codes "/" ++ t) parent ≡ true
unfolding is_child_resource byte_is text_eq
is_child_resource_below [] t = ground arith
is_child_resource_below (x ∷ xs) t =
    child_cons x x _ xs ∙ ground (arith, is_child_resource_below xs t)

-- A URI is a child of another exactly if it is the other, a slash, and whatever follows.
pub is_child_resource_iff :
    (child parent : Text)
    → (is_child_resource child parent ≡ true) ↔ ((t : Text) × (child ≡ parent ++ codes "/" ++ t))
is_child_resource_iff child parent = (
  child_of child parent,
  λ (t, e).
      subst (λ s. is_child_resource s parent ≡ true) (sym e) (is_child_resource_below parent t),
)

-- What a subscription is about: its URI and, if it is recursive, whatever continues it by a slash.
pub Covers : Text → Subscription → Text → Type 0
Covers sub_uri sub uri =
    (uri ≡ sub_uri) ⊎ ((sub.recursive ≡ true) × ((t : Text) × (uri ≡ sub_uri ++ codes "/" ++ t)))

covers→Covers :
    (k : Text) (sub : Subscription) (uri : Text) → covers k sub uri ≡ true → Covers k sub uri
unfolding covers Covers
covers→Covers k sub uri h = elim (Bool-cases (text_eq uri k)) [
  | inl same ↦ inl ((text_eq_iff uri k).0 same)
  | inr other ↦ inr (ground arith, child_of uri k (ground arith))
]

Covers→covers :
    (k : Text) (sub : Subscription) (uri : Text) → Covers k sub uri → covers k sub uri ≡ true
unfolding covers Covers
Covers→covers k sub uri (inl e) = rw (e, text_eq_refl k) refl
Covers→covers k sub uri (inr (r, (t, e))) = rw (e, r, is_child_resource_below k t) (ground arith)

lookup-In : {W : Type 0} (k : Text) (v : W) (m : Dict W) → lookup k m ≡ some v → In (k, v) m
unfolding lookup
lookup-In k v [] e = absurd (cc)
lookup-In {W = W} k v ((j, w) ∷ m) e = elim (Bool-cases (text_eq j k)) [
  | inl same ↦
      let q = rw same at e in
      inl (ap (λ (i : Text). (i, v)) (sym ((text_eq_iff j k).0 same)) ∙ ap (λ (u : W). (j, u)) (cc))
  | inr other ↦ inr (lookup-In k v m (ground arith))
]

In-has_key :
    (k : Text) (v : Subscription) (m : Dict Subscription) → In (k, v) m → has_key k m ≡ true
unfolding lookup
In-has_key k v [] h = absurd h
In-has_key k v ((j, w) ∷ m) (inl e) =
    let same = (text_eq_iff j k).1 (sym (ap (λ (p : Text × Subscription). p.0) e)) in
    rw (same, has_key) refl
In-has_key k v ((j, w) ∷ m) (inr h) = elim (Bool-cases (text_eq j k)) [
  | inl same ↦ rw (same, has_key) refl
  | inr other ↦ rw (other, has_key) (In-has_key k v m h)
]

has_key-In :
    (k : Text) (m : Dict Subscription) → has_key k m ≡ true → (v : Subscription) × In (k, v) m
has_key-In k m h = elim (Option-cases (lookup k m)) [
  | inl missing ↦ absurd (cc (rw (missing, has_key) at h))
  | inr (v, e) ↦ (v, lookup-In k v m e)
]

abbrev notifies : Text → Text × Subscription → Bool
notifies uri (k, sub) = sub.recursive && (text_eq uri k || is_child_resource uri k)

Covers-cases :
    (k : Text) (sub : Subscription) (uri : Text)
    → Covers k sub uri
    → (uri ≡ k) ⊎ (notifies uri (k, sub) ≡ true)
unfolding Covers
Covers-cases k sub uri (inl e) = inl e
Covers-cases k sub uri (inr (r, (t, e))) =
    inr (rw (e, r, is_child_resource_below k t) (ground arith))

-- The test for a notification passes exactly for the URIs of some subscription.
pub should_notify_iff :
    (m : ResourceSubscriptionManager) (uri : Text)
    → (should_notify m uri ≡ true)
      ↔ ((k : Text) × (sub : Subscription) × In (k, sub) m.subscriptions × Covers k sub uri)
unfolding should_notify
should_notify_iff m uri = (
  λ h. elim (Bool-cases (has_key uri m.subscriptions)) [
    | inl there ↦
        let (sub, k) = has_key-In uri m.subscriptions there in
        (uri, sub, k, (unfold Covers in inl refl))
    | inr missing ↦
        let ((k, sub), there, passes) = any-In (notifies uri) m.subscriptions (rw missing at h) in
        (k, sub, there, covers→Covers k sub uri (unfold covers in ground arith))
  ],
  λ (k, sub, there, c). elim (Covers-cases k sub uri c) [
    | inl same ↦
        rw
          (In-has_key uri sub m.subscriptions
            (subst (λ j. In (j, sub) m.subscriptions) (sym same) there))
          refl
    | inr passes ↦ rw (In-any (notifies uri) (k, sub) m.subscriptions there passes) (ground arith)
  ],
)
