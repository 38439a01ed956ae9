-- ===== src/Rtps/Router/Registration.antt =====
-- The operations of rtps/ParticipantMessageRouter.cpp on its registrations.
use mini_dds.Prelude.{
  ℕ, ◌+◌, ◌<◌, ◌≡◌, refl, List, [], ◌∷◌, All, All-mono, All-append, any_of, Bool, true, false, ◌||◌,
  ◌==◌, if_holds, ==_refl, Option, some, arith,
}
use mini_dds.Rtps.Router.Unique.{
  clash, Apart, Distinct, IsUnique, Later, Later-refl, put-IsUnique, update-IsUnique,
  update_all-IsUnique, remove_if-All, remove_if-Distinct, Distinct-snoc,
}
use mini_dds.Transport.{Datagram}
use mini_dds.Rtps.Types.{EntityId}
use mini_dds.Rtps.Router.{
  Router, Channel, RoutedEndpointKind, RouterError, put, is_duplicate, refuse, new_channel,
  new_router, open_router, add_channel, deactivate, unregister, stop, fail,
}
use mini_dds.Rtps.Router.Dispatch.{push}
use mini_dds.Rtps.Router.Endpoints.{receive, receive_channel, from_datagrams}
use mini_dds.Rtps.Router.Steps.{
  System, Step, added, deactivated, unregistered, selected, pushed, taken, failed, stopped,
  stopping_set, forgotten, closed, failed_set, noted, told, Reach, here, next, start,
}

unregister-IsUnique : (p : ℕ) (r : Router) → IsUnique r → IsUnique (unregister p r)
unfolding unregister
unregister-IsUnique p r u = record {
  allocated = remove_if-All (λ q. q < r.allocated) (λ q. q == p) r.channels u.allocated;
  distinct = remove_if-Distinct r.heap (λ q. q == p) r.channels u.distinct;
}

deactivate-IsUnique : (p : ℕ) (r : Router) → IsUnique r → IsUnique (deactivate p r)
unfolding deactivate Later
deactivate-IsUnique p r u =
    update-IsUnique p (λ c. record c { active = false; datagrams = [] }) r
      (λ c. (refl, refl, λ h. refl)) u

push-Later : (datagram : Datagram) (c : Channel) → Later c (push datagram c)
unfolding push Later
push-Later datagram c = if_holds (Later c) c.active (λ h. (refl, refl, λ k. k)) (λ h. Later-refl c)

from_datagrams-Later : (ds : List Datagram) (c : Channel) → Later c (from_datagrams ds c).1
unfolding Later
from_datagrams-Later [] c = Later-refl c
from_datagrams-Later (d ∷ ds) c = (refl, refl, λ h. h)

receive-IsUnique : (p : ℕ) (r : Router) → IsUnique r → IsUnique (receive p r).1
unfolding receive receive_channel
receive-IsUnique p r u =
    let c = r.heap p in
    put-IsUnique p (from_datagrams c.datagrams c).1 r (from_datagrams-Later c.datagrams c) u

fail-IsUnique : (e : RouterError) (r : Router) → IsUnique r → IsUnique (fail e r)
unfolding fail Later
fail-IsUnique e r u =
    update_all-IsUnique (λ c. record c { error = some e }) r.channels
      (record r { failed = true; last_error = some e }) (λ c. (refl, refl, λ h. h))
      (record { allocated = u.allocated; distinct = u.distinct })

stop-IsUnique : (r : Router) → IsUnique (stop r)
unfolding stop Later Distinct
stop-IsUnique r =
    update_all-IsUnique (λ c. record c { active = false }) r.channels
      (record r { stopping = true; channels = [] }) (λ c. (refl, refl, λ h. refl))
      (record { allocated = tt; distinct = tt })

||_split : (a b : Bool) → (a || b) ≡ false → (a ≡ false) × (b ≡ false)
||_split true b h = absurd (cc h)
||_split false b h = (refl, h)

pub put_same : (p : ℕ) (channel : Channel) (heap : ℕ → Channel) → put p channel heap p ≡ channel
unfolding put
put_same p channel heap = rw (==_refl p)

pub put_other :
    (p q : ℕ) (channel : Channel) (heap : ℕ → Channel) → q < p → put p channel heap q ≡ heap q
unfolding put
put_other p q channel heap h = let e : (q == p) ≡ false = ground arith in rw e

not-clash :
    (entity_id : EntityId) (kind : RoutedEndpointKind) (c : Channel)
    → is_duplicate entity_id kind c ≡ false
    → clash c (new_channel entity_id kind) ≡ false
unfolding clash
not-clash entity_id kind c h = rw h

-- A channel that is not taken for a duplicate is apart from the new one.
new-Apart :
    (entity_id : EntityId) (kind : RoutedEndpointKind) (r : Router) (ps : List ℕ)
    → any_of (λ p. is_duplicate entity_id kind (r.heap p)) ps ≡ false
    → All (λ p. p < r.allocated) ps
    → All (λ q. Apart (put r.allocated (new_channel entity_id kind) r.heap) q r.allocated) ps
new-Apart entity_id kind r [] e a = tt
new-Apart entity_id kind r (p ∷ ps) e a =
    let both = ||_split (is_duplicate entity_id kind (r.heap p)) _ e in
    let new = new_channel entity_id kind in
    let same = put_same r.allocated new r.heap in
    let other = put_other r.allocated p new r.heap a.0 in
    (
      (λ h. absurd (omega arith), rw (same, other) (not-clash entity_id kind (r.heap p) both.0)),
      new-Apart entity_id kind r ps both.1 a.1,
    )

-- The new channel is in nobody's place.
fresh-Apart :
    (heap : ℕ → Channel) (n p : ℕ) (new : Channel) (ps : List ℕ)
    → p < n
    → All (λ q. q < n) ps
    → All (Apart heap p) ps
    → All (Apart (put n new heap) p) ps
fresh-Apart heap n p new [] l a d = tt
fresh-Apart heap n p new (q ∷ qs) l a d =
    let first = put_other n p new heap l in
    let second = put_other n q new heap a.0 in
    ((d.0.0, rw (first, second) d.0.1), fresh-Apart heap n p new qs l a.1 d.1)

fresh-Distinct :
    (heap : ℕ → Channel) (n : ℕ) (new : Channel) (ps : List ℕ)
    → All (λ p. p < n) ps
    → Distinct heap ps
    → Distinct (put n new heap) ps
unfolding Distinct
fresh-Distinct heap n new [] a d = tt
fresh-Distinct heap n new (p ∷ ps) a d =
    (fresh-Apart heap n p new ps a.0 a.1 d.0, fresh-Distinct heap n new ps a.1 d.1)

add_channel-IsUnique :
    (entity_id : EntityId) (kind : RoutedEndpointKind) (r : Router)
    → IsUnique r
    → IsUnique (add_channel entity_id kind r).1
unfolding add_channel refuse
add_channel-IsUnique entity_id kind r u =
    let P = λ (x : Option ℕ × Router). IsUnique x.1 in
    if_holds P (r.stopping || r.failed)
      (λ h. record { allocated = u.allocated; distinct = u.distinct })
      (λ h.
        if_holds P (any_of (λ p. is_duplicate entity_id kind (r.heap p)) r.channels)
          (λ k. record { allocated = u.allocated; distinct = u.distinct })
          (λ k. record {
            allocated =
                All-append (λ p. p < r.allocated + 1) r.channels (r.allocated ∷ [])
                  (All-mono (λ p l. omega arith) r.channels u.allocated) (omega arith, tt);
            distinct =
                Distinct-snoc (put r.allocated (new_channel entity_id kind) r.heap) r.channels
                  r.allocated
                  (fresh-Distinct r.heap r.allocated (new_channel entity_id kind) r.channels
                    u.allocated u.distinct)
                  (new-Apart entity_id kind r r.channels k u.allocated);
          }))

Step-IsUnique : {s s' : System} → Step s s' → IsUnique s.router → IsUnique s'.router
unfolding Later Distinct
Step-IsUnique (added r ts entity_id kind) u = add_channel-IsUnique entity_id kind r u
Step-IsUnique (deactivated r ts p) u = deactivate-IsUnique p r u
Step-IsUnique (unregistered r ts p) u = unregister-IsUnique p r u
Step-IsUnique (selected r target) u = u
Step-IsUnique (pushed r p ts datagram) u =
    update-IsUnique p (push datagram) r (push-Later datagram) u
Step-IsUnique (taken r ts p) u = receive-IsUnique p r u
Step-IsUnique (failed r ts e) u = fail-IsUnique e r u
Step-IsUnique (stopped r) u = stop-IsUnique r
Step-IsUnique (stopping_set r ts) u = record { allocated = u.allocated; distinct = u.distinct }
Step-IsUnique (forgotten r ts) u = record { allocated = tt; distinct = tt }
Step-IsUnique (closed r ts p) u =
    update-IsUnique p (λ channel. record channel { active = false }) r
      (λ c. (refl, refl, λ h. refl)) u
Step-IsUnique (failed_set r ts) u = record { allocated = u.allocated; distinct = u.distinct }
Step-IsUnique (noted r ts e) u = record { allocated = u.allocated; distinct = u.distinct }
Step-IsUnique (told r ts p e) u =
    update-IsUnique p (λ channel. record channel { error = some e }) r (λ c. (refl, refl, λ h. h)) u

open_router-IsUnique : (transport_is_open : Bool) → IsUnique (open_router transport_is_open)
unfolding open_router new_router Distinct
open_router-IsUnique transport_is_open =
    if_holds IsUnique transport_is_open (λ h. record { allocated = tt; distinct = tt })
      (λ h. record { allocated = tt; distinct = tt })

-- In every state that the router's threads can reach, each taking its locks in any order, the
-- router's pointers are allocated, none comes twice, and no two channels that are both active have
-- the same kind and the same entity.
pub Reach-IsUnique :
    (transport_is_open : Bool) {s : System} → Reach (start transport_is_open) s → IsUnique s.router
Reach-IsUnique transport_is_open here = open_router-IsUnique transport_is_open
Reach-IsUnique transport_is_open (next r step) =
    Step-IsUnique step (Reach-IsUnique transport_is_open r)
