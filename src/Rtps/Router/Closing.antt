-- ===== src/Rtps/Router/Closing.antt =====
-- What the endpoints of rtps/ParticipantMessageRouter.cpp receive when the router stops or fails.
use mini_dds.Prelude.{
  ℕ, zero, suc, ◌≡◌, ◌≢◌, refl, sym, ap, ◌∙◌, List, [], ◌∷◌, ◌++◌, map, length, true, false, ◌||◌,
  ◌==◌, ==_iff, ==_refl, arith, if_holds, Bool-cases, Option, none, some, inl, inr,
}
use mathlib.Core.Path.{subst}
use mini_dds.Transport.{Datagram}
use mini_dds.Rtps.Router.{Router, Channel, RouterError, put, update, update_all, stop, fail}
use mini_dds.Rtps.Router.Endpoints.{
  RoutedResult, datagram, timeout, error, receive, receive_channel, from_datagrams,
}
use mini_dds.Rtps.Router.Delivery.{points_to, put_hit, put_miss}

module _ (P : Channel → Type 0) (change : Channel → Channel) where
  update_holds :
      (q : ℕ) (r : Router) (p : ℕ)
      → ((c : Channel) → P c → P (change c))
      → P (r.heap p)
      → P ((update q change r).heap p)
  unfolding put
  update_holds q r p k h =
      if_holds P (p == q)
        (λ e. subst (λ i. P (change (r.heap i))) ((==_iff p q).0 e) (k (r.heap p) h)) (λ f. h)

  update_all-keeps :
      (ps : List ℕ) (r : Router) (p : ℕ)
      → ((c : Channel) → P c → P (change c))
      → P (r.heap p)
      → P ((update_all ps change r).heap p)
  unfolding update_all
  update_all-keeps [] r p k h = h
  update_all-keeps (q ∷ qs) r p k h =
      update_all-keeps qs (update q change r) p k (update_holds q r p k h)

  -- A change that reaches every pointer of a list: what it brings about holds of each of them.
  update_all-pointed :
      (I : Channel → Type 0) (ps : List ℕ) (r : Router) (p : ℕ)
      → ((c : Channel) → I c → P (change c))
      → ((c : Channel) → P c → I c)
      → I (r.heap p)
      → points_to p ps ≡ true
      → P ((update_all ps change r).heap p)
  unfolding update_all
  update_all-pointed I [] r p f g i h = absurd (cc h)
  update_all-pointed I (q ∷ qs) r p f g i h = elim (Bool-cases (q == p)) [
    | inl e ↦
        let same = (==_iff q p).0 e in
        let done =
          put_hit q p (change (r.heap q)) r.heap (ap (λ i. i == q) (sym same) ∙ ==_refl q) in
        update_all-keeps qs (update q change r) p (λ c k. f c (g c k))
          (subst P (sym done) (f (r.heap q) (subst (λ i. I (r.heap i)) (sym same) i)))
    | inr miss ↦
        let other = put_miss q p (change (r.heap q)) r.heap (swapped q p miss) in
        update_all-pointed I qs (update q change r) p f g (subst I (sym other) i)
          (subst (λ b. (b || points_to p qs) ≡ true) miss h)
  ]
    where
      swapped : (q p : ℕ) → (q == p) ≡ false → (p == q) ≡ false
      swapped q p f = ground arith

-- A channel whose receive does not wait.
abbrev Answers : Channel → Type 0
Answers c = (receive_channel c).0 ≢ timeout

closed-Answers :
    (c : Channel) (ds : List Datagram) (e : Option RouterError)
    → (from_datagrams ds (record c { datagrams = ds; active = false; error = e })).0 ≢ timeout
closed-Answers c [] none = λ h. absurd (cc h)
closed-Answers c [] (some e) = λ h. absurd (cc h)
closed-Answers c (d ∷ ds) e = λ h. absurd (cc h)

failed-Answers :
    (c : Channel) (ds : List Datagram) (e : RouterError)
    → (from_datagrams ds (record c { datagrams = ds; error = some e })).0 ≢ timeout
failed-Answers c [] e = λ h. absurd (cc h)
failed-Answers c (d ∷ ds) e = λ h. absurd (cc h)

-- When the router stops or fails, a receive at any endpoint that is registered then does not wait
-- for a timeout: it gives a datagram or an error.
pub receive-closing :
    (r : Router) (p : ℕ) (e : RouterError)
    → points_to p r.channels ≡ true
    → ((receive p (stop r)).0 ≢ timeout) × ((receive p (fail e r)).0 ≢ timeout)
unfolding receive stop fail receive_channel
receive-closing r p e h = (
  update_all-pointed Answers (λ c. record c { active = false }) (λ c. Unit) r.channels
      (record r { stopping = true; channels = [] }) p (λ c k. closed-Answers c c.datagrams c.error)
      (λ c k. tt) tt h,
  update_all-pointed Answers (λ c. record c { error = some e }) (λ c. Unit) r.channels
      (record r { failed = true; last_error = some e }) p (λ c k. failed-Answers c c.datagrams e)
      (λ c k. tt) tt h,
)

-- A number of receives, one after another.
unfoldable pub receive_times : ℕ → ℕ → Router → List RoutedResult
receive_times zero p r = []
receive_times (suc n) p r = let (result, r') = receive p r in result ∷ receive_times n p r'

from_datagrams-cons :
    (l ds : List Datagram) (d : Datagram) (c : Channel)
    → l ≡ d ∷ ds
    → ((from_datagrams l c).0 ≡ datagram d)
      × ((from_datagrams l c).1.datagrams ≡ ds)
      × ((from_datagrams l c).1.error ≡ c.error)
from_datagrams-cons [] ds d c h = absurd (cc h)
from_datagrams-cons (x ∷ xs) ds d c h = (cc h, cc h, refl)

drained :
    (ds : List Datagram) (r : Router) (p : ℕ) (e : RouterError)
    → (r.heap p).datagrams ≡ ds
    → (r.heap p).error ≡ some e
    → receive_times (suc (length ds)) p r ≡ map datagram ds ++ error e ∷ []
unfolding receive_times receive receive_channel
drained [] r p e h k = rw (h, k)
drained (d ∷ ds) r p e h k =
    let c = r.heap p in
    let first = from_datagrams-cons c.datagrams ds d c h in
    let here = put_hit p p (from_datagrams c.datagrams c).1 r.heap (==_refl p) in
    let rest =
      drained ds (receive p r).1 p e (ap (λ x. x.datagrams) here ∙ first.1)
        (ap (λ x. x.error) here ∙ first.2 ∙ k) in
    ap (λ x. x ∷ receive_times (suc (length ds)) p (receive p r).1) first.0
    ∙ ap (λ l. datagram d ∷ l) rest

-- After the router has failed, an endpoint that is registered then receives the datagrams that it
-- holds, in their order, and then the error.
pub fail-receive_times :
    (r : Router) (p : ℕ) (e : RouterError)
    → points_to p r.channels ≡ true
    → receive_times (suc (length (r.heap p).datagrams)) p (fail e r)
      ≡ map datagram (r.heap p).datagrams ++ error e ∷ []
unfolding fail
fail-receive_times r p e h =
    let before = (r.heap p).datagrams in
    let after =
      update_all-pointed (λ c. (c.datagrams ≡ before) × (c.error ≡ some e))
        (λ c. record c { error = some e }) (λ c. c.datagrams ≡ before) r.channels
        (record r { failed = true; last_error = some e }) p (λ c k. (k, refl)) (λ c k. k.0) refl
        h in
    drained before (fail e r) p e after.0 after.1
