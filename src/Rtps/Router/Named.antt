-- ===== src/Rtps/Router/Named.antt =====
-- The endpoint that a target of rtps/ParticipantMessageRouter.cpp names.
use mini_dds.Prelude.{
  ℕ, ◌≡◌, refl, sym, ◌∙◌, List, [], ◌∷◌, All, true, false, ◌||◌, ◌==◌, ==_iff, &&_split, Bool-cases,
  ◌⊎◌, inl, inr,
}
use mathlib.Core.Path.{subst}
use mini_dds.Rtps.Types.{entity_id_eq, entity_id_eq_iff}
use mini_dds.Rtps.Outcome.{is_unknown_entity}
use mini_dds.Rtps.Router.{
  Router, Channel, RoutedEndpointKind, reader, writer, kind_eq, is_duplicate,
}
use mini_dds.Rtps.Router.Target.{RouteTarget}
use mini_dds.Rtps.Router.Dispatch.{is_targeted}
use mini_dds.Rtps.Router.Unique.{clash, Apart, Distinct, IsUnique}
use mini_dds.Rtps.Router.Delivery.{points_to}

pointed-All : (P : ℕ → Type 0) (p : ℕ) (ps : List ℕ) → points_to p ps ≡ true → All P ps → P p
pointed-All P p [] h a = absurd (cc h)
pointed-All P p (q ∷ qs) h a = elim (Bool-cases (q == p)) [
  | inl e ↦ subst P ((==_iff q p).0 e) a.0
  | inr f ↦ pointed-All P p qs (subst (λ b. (b || points_to p qs) ≡ true) f h) a.1
]

-- Two pointers of the list are the same, or their channels do not clash.
Distinct-pointed :
    (heap : ℕ → Channel) (ps : List ℕ) (p q : ℕ)
    → Distinct heap ps
    → points_to p ps ≡ true
    → points_to q ps ≡ true
    → (p ≡ q) ⊎ ((clash (heap p) (heap q) ≡ false) ⊎ (clash (heap q) (heap p) ≡ false))
unfolding Distinct
Distinct-pointed heap [] p q d h k = absurd (cc h)
Distinct-pointed heap (x ∷ xs) p q d h k = elim (Bool-cases (x == p)) [
  | inl e ↦ elim (Bool-cases (x == q)) [
    | inl e' ↦ inl (sym ((==_iff x p).0 e) ∙ (==_iff x q).0 e')
    | inr f' ↦
        let a = pointed-All (Apart heap x) q xs (later q f' k) d.0 in
        inr (inl (subst (λ i. clash (heap i) (heap q) ≡ false) ((==_iff x p).0 e) a.1))
  ]
  | inr f ↦ elim (Bool-cases (x == q)) [
    | inl e' ↦
        let a = pointed-All (Apart heap x) p xs (later p f h) d.0 in
        inr (inr (subst (λ i. clash (heap i) (heap p) ≡ false) ((==_iff x q).0 e') a.1))
    | inr f' ↦ Distinct-pointed heap xs p q d.1 (later p f h) (later q f' k)
  ]
]
  where
    later : (i : ℕ) → (x == i) ≡ false → points_to i (x ∷ xs) ≡ true → points_to i xs ≡ true
    later i f h = subst (λ b. (b || points_to i xs) ≡ true) f h

kind_eq_sound : (a b : RoutedEndpointKind) → kind_eq a b ≡ true → a ≡ b
unfolding kind_eq
kind_eq_sound reader reader h = refl
kind_eq_sound reader writer h = absurd (cc h)
kind_eq_sound writer reader h = absurd (cc h)
kind_eq_sound writer writer h = refl

kind_eq_refl : (a : RoutedEndpointKind) → kind_eq a a ≡ true
unfolding kind_eq
kind_eq_refl reader = refl
kind_eq_refl writer = refl

-- A channel that a target names has its kind and its id.
named :
    (target : RouteTarget) (c : Channel)
    → is_unknown_entity target.entity_id ≡ false
    → is_targeted target c ≡ true
    → (c.kind ≡ target.kind) × (c.entity_id ≡ target.entity_id)
unfolding is_targeted
named target c known h =
    let both = &&_split (kind_eq c.kind target.kind) _ h in
    (
      kind_eq_sound c.kind target.kind both.0,
      (entity_id_eq_iff c.entity_id target.entity_id).0
          (subst (λ b. (b || entity_id_eq c.entity_id target.entity_id) ≡ true) known both.1),
    )

named-clash :
    (target : RouteTarget) (a b : Channel)
    → is_unknown_entity target.entity_id ≡ false
    → is_targeted target a ≡ true
    → is_targeted target b ≡ true
    → a.active ≡ true
    → b.active ≡ true
    → clash a b ≡ true
unfolding clash is_duplicate
named-clash target a b known ta tb aa ab =
    let na = named target a known ta in
    let nb = named target b known tb in
    let i = (entity_id_eq_iff target.entity_id target.entity_id).1 refl in
    let k = kind_eq_refl target.kind in rw (aa, ab, na.0, na.1, nb.0, nb.1, i, k)

-- In a router whose registrations are unique, two registered pointers are the same if their
-- channels are active and targeted by one datagram that names its entity.
pub targeted_unique :
    (target : RouteTarget) (r : Router) (p q : ℕ)
    → IsUnique r
    → is_unknown_entity target.entity_id ≡ false
    → (points_to p r.channels ≡ true) × (points_to q r.channels ≡ true)
    → (is_targeted target (r.heap p) ≡ true) × (is_targeted target (r.heap q) ≡ true)
    → ((r.heap p).active ≡ true) × ((r.heap q).active ≡ true)
    → p ≡ q
targeted_unique target r p q u known listed targeted active =
    elim (Distinct-pointed r.heap r.channels p q u.distinct listed.0 listed.1) [
      | inl e ↦ e
      | inr (inl f) ↦ absurd (
          cc (
            f,
            named-clash target (r.heap p) (r.heap q) known targeted.0 targeted.1 active.0 active.1,
          ))
      | inr (inr f) ↦ absurd (
          cc (
            f,
            named-clash target (r.heap q) (r.heap p) known targeted.1 targeted.0 active.1 active.0,
          ))
    ]
