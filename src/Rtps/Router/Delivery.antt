-- ===== src/Rtps/Router/Delivery.antt =====
-- Which endpoints a datagram reaches in `receive_loop` of rtps/ParticipantMessageRouter.cpp.
use mini_dds.Prelude.{
  ℕ, ◌≡◌, ◌≢◌, refl, sym, ap, ◌∙◌, List, [], ◌∷◌, ◌++◌, All, All-mono, any_of, Bool, true, false,
  ◌&&◌, ◌||◌, ◌==◌, ==_iff, ==_refl, if◌then◌else◌, if_holds, Bool-cases, some, inl, inr, arith,
}
use mathlib.Core.Path.{subst}
use mini_dds.Transport.{Datagram}
use mini_dds.Rtps.Router.{Router, Channel, kind_eq, put, update}
use mini_dds.Rtps.Types.{entity_id_eq}
use mini_dds.Rtps.Outcome.{is_unknown_entity}
use mini_dds.Rtps.Router.Target.{RouteTarget, route_target}
use mini_dds.Rtps.Router.Dispatch.{is_targeted, select, push, push_all, dispatch}
use mini_dds.Rtps.Router.Unique.{Distinct, IsUnique}

-- `std::find(...) != end()` on pointers.
abbrev pub points_to : ℕ → List ℕ → Bool
points_to p = any_of (λ q. q == p)

-- No pointer comes twice.
unfoldable NoDup : List ℕ → Type 0
NoDup [] = Unit
NoDup (p ∷ ps) = All (λ q. p ≢ q) ps × NoDup ps

Distinct-NoDup : (heap : ℕ → Channel) (ps : List ℕ) → Distinct heap ps → NoDup ps
unfolding Distinct NoDup
Distinct-NoDup heap [] d = tt
Distinct-NoDup heap (p ∷ ps) d = (All-mono (λ q h. h.0) ps d.0, Distinct-NoDup heap ps d.1)

select-All :
    (P : ℕ → Type 0) (target : RouteTarget) (heap : ℕ → Channel) (ps : List ℕ)
    → All P ps
    → All P (select target heap ps)
unfolding select
select-All P target heap [] a = tt
select-All P target heap (p ∷ ps) a =
    if_holds (All P) (is_targeted target (heap p)) (λ h. (a.0, select-All P target heap ps a.1))
      (λ h. select-All P target heap ps a.1)

select-NoDup :
    (target : RouteTarget) (heap : ℕ → Channel) (ps : List ℕ)
    → NoDup ps
    → NoDup (select target heap ps)
unfolding select NoDup
select-NoDup target heap [] d = tt
select-NoDup target heap (p ∷ ps) d =
    if_holds NoDup (is_targeted target (heap p))
      (λ h. (select-All (λ q. p ≢ q) target heap ps d.0, select-NoDup target heap ps d.1))
      (λ h. select-NoDup target heap ps d.1)

absent : (p : ℕ) (ps : List ℕ) → All (λ q. p ≢ q) ps → points_to p ps ≡ false
absent p [] a = refl
absent p (q ∷ qs) a =
    let n = a.0 in
    let e : (q == p) ≡ false = not-equal q p (λ h. n (sym h)) in rw (e, absent p qs a.1)
  where
    not-equal : (q p : ℕ) → q ≢ p → (q == p) ≡ false
    not-equal q p n = ground arith

-- What is selected are the targeted channels.
points_to-select :
    (target : RouteTarget) (heap : ℕ → Channel) (p : ℕ) (ps : List ℕ)
    → points_to p (select target heap ps) ≡ (points_to p ps && is_targeted target (heap p))
unfolding select
points_to-select target heap p [] = refl
points_to-select target heap p (q ∷ qs) =
    let rest = points_to-select target heap p qs in
    let P = λ (ps : List ℕ).
      points_to p ps ≡ (((q == p) || points_to p qs) && is_targeted target (heap p)) in
    if_holds P (is_targeted target (heap q))
      (λ t.
        listed_lem (q == p) (points_to p qs) (is_targeted target (heap p)) _
          (λ e. ap (λ i. is_targeted target (heap i)) (sym ((==_iff q p).0 e)) ∙ t) rest)
      (λ f.
        skipped_lem (q == p) (points_to p qs) (is_targeted target (heap p)) _
          (λ e. ap (λ i. is_targeted target (heap i)) (sym ((==_iff q p).0 e)) ∙ f) rest)
  where
    listed_lem :
        (e x t y : Bool) → (e ≡ true → t ≡ true) → y ≡ (x && t) → (e || y) ≡ ((e || x) && t)
    listed_lem e x t y h k = grind arith

    skipped_lem : (e x t y : Bool) → (e ≡ true → t ≡ false) → y ≡ (x && t) → y ≡ ((e || x) && t)
    skipped_lem e x t y h k = grind arith

pub put_hit :
    (q p : ℕ) (channel : Channel) (heap : ℕ → Channel)
    → (p == q) ≡ true
    → put q channel heap p ≡ channel
unfolding put
put_hit q p channel heap h = rw h

pub put_miss :
    (q p : ℕ) (channel : Channel) (heap : ℕ → Channel)
    → (p == q) ≡ false
    → put q channel heap p ≡ heap p
unfolding put
put_miss q p channel heap h = rw h

-- Every pointer takes the datagram once.
push_all-heap :
    (datagram : Datagram) (ps : List ℕ) (r : Router) (p : ℕ)
    → NoDup ps
    → (push_all datagram ps r).heap p
      ≡ (if points_to p ps then push datagram (r.heap p) else r.heap p)
unfolding push_all NoDup put
push_all-heap datagram [] r p d = refl
push_all-heap datagram (q ∷ qs) r p d =
    let rest = push_all-heap datagram qs (update q (push datagram) r) p d.1 in
    elim (Bool-cases (q == p)) [
      | inl e ↦ hit e rest
      | inr f ↦
          let other = put_miss q p (push datagram (r.heap q)) r.heap (swapped q p f) in
          rw (f, rest, other)
    ]
  where
    swapped : (q p : ℕ) → (q == p) ≡ false → (p == q) ≡ false
    swapped q p f = ground arith

    hit :
        (q == p) ≡ true
        → (push_all datagram qs (update q (push datagram) r)).heap p ≡ (
            if points_to p qs
            then push datagram (put q (push datagram (r.heap q)) r.heap p)
            else put q (push datagram (r.heap q)) r.heap p)
        → (push_all datagram qs (update q (push datagram) r)).heap p
          ≡ (if (q == p) || points_to p qs then push datagram (r.heap p) else r.heap p)
    hit e rest =
        let same = sym ((==_iff q p).0 e) in
        let gone = subst (λ i. points_to i qs ≡ false) (sym same) (absent q qs d.0) in
        let here =
          put_hit q p (push datagram (r.heap q)) r.heap (ap (λ i. i == q) same ∙ ==_refl q) in
        rw (e, rest, gone, here) (ap (λ i. push datagram (r.heap i)) (sym same))

served :
    (datagram : Datagram) (target : RouteTarget) (r : Router) (p : ℕ)
    → IsUnique r
    → route_target datagram.payload ≡ some target
    → (dispatch datagram r).heap p ≡ (
        if points_to p r.channels && is_targeted target (r.heap p)
        then push datagram (r.heap p)
        else r.heap p)
unfolding dispatch
served datagram target r p u h =
    let selected = select target r.heap r.channels in
    rw h (
      push_all-heap datagram selected r p
        (select-NoDup target r.heap r.channels (Distinct-NoDup r.heap r.channels u.distinct))
      ∙ ap (λ b. if b then push datagram (r.heap p) else r.heap p)
          (points_to-select target r.heap p r.channels))

-- What a push does, when it takes place: a datagram at the end of an active channel.
pushed :
    (listed : Bool) (datagram : Datagram) (target : RouteTarget) (c : Channel)
    → (if listed && is_targeted target c then push datagram c else c) ≡ (
        if listed
          && kind_eq c.kind target.kind
          && (is_unknown_entity target.entity_id || entity_id_eq c.entity_id target.entity_id)
          && c.active
        then record c { datagrams = c.datagrams ++ datagram ∷ [] }
        else c)
unfolding push is_targeted
pushed false datagram target c = refl
pushed true datagram target c = ground arith

-- In a router whose registrations are unique, a datagram that has a target goes once to the end of
-- the queue of every channel that is registered, active, of the target's kind and of the target's
-- entity, or of any entity if the target names none. Nothing else of these channels changes, and no
-- other channel does.
pub dispatch-heap :
    (datagram : Datagram) (target : RouteTarget) (r : Router) (p : ℕ)
    → IsUnique r
    → route_target datagram.payload ≡ some target
    → let c = r.heap p in
      (dispatch datagram r).heap p ≡ (
        if points_to p r.channels
          && kind_eq c.kind target.kind
          && (is_unknown_entity target.entity_id || entity_id_eq c.entity_id target.entity_id)
          && c.active
        then record c { datagrams = c.datagrams ++ datagram ∷ [] }
        else c)
dispatch-heap datagram target r p u h =
    served datagram target r p u h ∙ pushed (points_to p r.channels) datagram target (r.heap p)
