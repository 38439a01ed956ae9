-- ===== src/Rtps/Router/Unique.antt =====
-- Unique registrations in rtps/ParticipantMessageRouter.cpp, and writes through a pointer.
use mini_dds.Prelude.{
  ℕ, ◌<◌, ◌≡◌, ◌≢◌, refl, sym, List, [], ◌∷◌, ◌++◌, All, All-mono, All-append, remove_if, Bool,
  true, false, ◌&&◌, ◌==◌, if_holds, ==_iff, arith,
}
use mathlib.Core.Path.{subst}
use mini_dds.Rtps.Types.{entity_id_eq}
use mini_dds.Rtps.Router.{Router, Channel, kind_eq, put, update, update_all, is_duplicate}

-- Two channels that are both active, for the same endpoint.
unfoldable pub clash : Channel → Channel → Bool
clash a b = is_duplicate b.entity_id b.kind a && b.active

-- No pointer comes twice, and no two channels clash.
abbrev pub Apart : (ℕ → Channel) → ℕ → ℕ → Type 0
Apart heap p q = (p ≢ q) × (clash (heap p) (heap q) ≡ false)

unfoldable pub Distinct : (ℕ → Channel) → List ℕ → Type 0
Distinct heap [] = Unit
Distinct heap (p ∷ ps) = All (Apart heap p) ps × Distinct heap ps

pub record IsUnique (r : Router) : Type 0 where
  pub allocated : All (λ (p : ℕ). p < r.allocated) r.channels
  pub distinct : Distinct r.heap r.channels

-- A channel that may only have been closed since.
unfoldable pub Later : Channel → Channel → Type 0
Later a b = (b.entity_id ≡ a.entity_id) × (b.kind ≡ a.kind) × (a.active ≡ false → b.active ≡ false)

pub Later-refl : (a : Channel) → Later a a
unfolding Later
Later-refl a = (refl, refl, λ h. h)

clash_false :
    (x x' y y' k e : Bool)
    → (x ≡ false → x' ≡ false)
    → (y ≡ false → y' ≡ false)
    → ((x && k && e) && y) ≡ false
    → ((x' && k && e) && y') ≡ false
clash_false x x' y y' k e h l c = grind arith

clash-Later :
    (a a' b b' : Channel) → Later a a' → Later b b' → clash a b ≡ false → clash a' b' ≡ false
unfolding Later clash is_duplicate
clash-Later a a' b b' h k c =
    rw (h.0, h.1, k.0, k.1)
      (clash_false a.active a'.active b.active b'.active (kind_eq a.kind b.kind)
        (entity_id_eq a.entity_id b.entity_id) h.2 k.2 c)

Distinct-Later :
    (heap heap' : ℕ → Channel) (ps : List ℕ)
    → ((p : ℕ) → Later (heap p) (heap' p))
    → Distinct heap ps
    → Distinct heap' ps
unfolding Distinct
Distinct-Later heap heap' [] l d = tt
Distinct-Later heap heap' (p ∷ ps) l d = (
  All-mono (λ q h. (h.0, clash-Later _ _ _ _ (l p) (l q) h.1)) ps d.0,
  Distinct-Later heap heap' ps l d.1,
)

-- A write through a pointer, seen through any pointer.
put-Later :
    (heap : ℕ → Channel) (p q : ℕ) (channel : Channel)
    → Later (heap p) channel
    → Later (heap q) (put p channel heap q)
unfolding put
put-Later heap p q channel l =
    if_holds (Later (heap q)) (q == p)
      (λ h. subst (λ i. Later (heap i) channel) (sym ((==_iff q p).0 h)) l)
      (λ h. Later-refl (heap q))

pub put-IsUnique :
    (p : ℕ) (channel : Channel) (r : Router)
    → Later (r.heap p) channel
    → IsUnique r
    → IsUnique (record r { heap = put p channel r.heap })
put-IsUnique p channel r l u = record {
  allocated = u.allocated;
  distinct =
      Distinct-Later r.heap (put p channel r.heap) r.channels (λ q. put-Later r.heap p q channel l)
        u.distinct;
}

pub update-IsUnique :
    (p : ℕ) (change : Channel → Channel) (r : Router)
    → ((c : Channel) → Later c (change c))
    → IsUnique r
    → IsUnique (update p change r)
update-IsUnique p change r l u = put-IsUnique p (change (r.heap p)) r (l (r.heap p)) u

pub update_all-IsUnique :
    (change : Channel → Channel) (ps : List ℕ) (r : Router)
    → ((c : Channel) → Later c (change c))
    → IsUnique r
    → IsUnique (update_all ps change r)
unfolding update_all
update_all-IsUnique change [] r l u = u
update_all-IsUnique change (p ∷ ps) r l u =
    update_all-IsUnique change ps (update p change r) l (update-IsUnique p change r l u)

-- Forgetting a pointer.
kept-All :
    (P : ℕ → Type 0) (b : Bool) (p : ℕ) (ps : List ℕ)
    → P p
    → All P ps
    → All P (elim b [ true ↦ ps | false ↦ p ∷ ps ])
kept-All P true p ps h a = a
kept-All P false p ps h a = (h, a)

kept-Distinct :
    (heap : ℕ → Channel) (b : Bool) (p : ℕ) (ps : List ℕ)
    → All (Apart heap p) ps
    → Distinct heap ps
    → Distinct heap (elim b [ true ↦ ps | false ↦ p ∷ ps ])
unfolding Distinct
kept-Distinct heap true p ps h d = d
kept-Distinct heap false p ps h d = (h, d)

pub remove_if-All :
    (P : ℕ → Type 0) (test : ℕ → Bool) (ps : List ℕ) → All P ps → All P (remove_if test ps)
remove_if-All P test [] a = tt
remove_if-All P test (p ∷ ps) a = kept-All P (test p) p _ a.0 (remove_if-All P test ps a.1)

pub remove_if-Distinct :
    (heap : ℕ → Channel) (test : ℕ → Bool) (ps : List ℕ)
    → Distinct heap ps
    → Distinct heap (remove_if test ps)
unfolding Distinct
remove_if-Distinct heap test [] d = tt
remove_if-Distinct heap test (p ∷ ps) d =
    kept-Distinct heap (test p) p _ (remove_if-All (Apart heap p) test ps d.0)
      (remove_if-Distinct heap test ps d.1)

-- A new pointer at the end.
pub Distinct-snoc :
    (heap : ℕ → Channel) (ps : List ℕ) (p : ℕ)
    → Distinct heap ps
    → All (λ q. Apart heap q p) ps
    → Distinct heap (ps ++ p ∷ [])
unfolding Distinct
Distinct-snoc heap [] p d a = (tt, tt)
Distinct-snoc heap (q ∷ qs) p d a =
    (All-append (Apart heap q) qs (p ∷ []) d.0 (a.0, tt), Distinct-snoc heap qs p d.1 a.1)
