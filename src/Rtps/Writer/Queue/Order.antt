-- ===== src/Rtps/Writer/Queue/Order.antt =====
-- The order of the queue of rtps/ReliableEndpoint.cpp, through every step of its threads.
use mini_dds.Prelude.{
  ℕ, zero, suc, ◌+◌, ◌%◌, ◌^◌, ◌<◌, ◌≡◌, refl, sym, ap, ◌∙◌, List, [], ◌∷◌, ◌++◌, length,
  length-append, map, Bool, true, not, ◌&&◌, ◌==◌, if_holds, Option, none, some, arith,
}
use mini_dds.Rtps.Stateless.{ReaderProxy}
use mini_dds.Rtps.Writer.{ReliableWriter, QueuedChange, Surroundings}
use mini_dds.Rtps.Writer.Deliver.{Delivery}
use mini_dds.Rtps.Writer.Queue.{
  write, proceed, enqueue, accept, take_change, first_of, forget_error, is_empty, is_delivered,
  finish_change, set_readers, completed, end_wait,
}
use mini_dds.History.{CacheChange}
use mini_dds.Rtps.Writer.Queue.Steps.{
  System, at, Step, wrote, refused, checked, recorded, submitted, set, took, delivering, finished,
  waited, Reach, here, next, outstanding, ids_after,
}
use mathlib.Core.Path.{subst}
use mathlib.Core.Option.{some_inj}

-- Ids that follow one another from the completed count to the submitted count.
pub record Ordered (completed_count submitted_count : ℕ) (ids : List ℕ) : Type 0 where
  pub consecutive : ids ≡ ids_after completed_count (length ids)
  pub last : submitted_count ≡ (completed_count + length ids) % 2 ^ 64
  pub bounded : completed_count < 2 ^ 64

abbrev pub id_of : QueuedChange → ℕ
id_of queued = queued.submission_id

abbrev pub InOrder : System → Type 0
InOrder s = Ordered s.writer.completed_count s.writer.submitted_count (map id_of (outstanding s))

ids_after-snoc :
    (count n : ℕ) → ids_after count n ++ (count + suc n) % 2 ^ 64 ∷ [] ≡ ids_after count (suc n)
unfolding ids_after
ids_after-snoc count zero = refl
ids_after-snoc count (suc n) =
    let id = (count + 1) % 2 ^ 64 in
    let e : (id + suc n) % 2 ^ 64 ≡ (count + suc (suc n)) % 2 ^ 64 = omega arith in
    let h = ids_after-snoc id n in cc (e, h)

-- The oldest of the ids is completed.
Ordered-first :
    (completed_count submitted_count id : ℕ) (ids : List ℕ)
    → Ordered completed_count submitted_count (id ∷ ids)
    → Ordered id submitted_count ids
unfolding ids_after
Ordered-first completed_count submitted_count id ids o =
    let c : id ∷ ids
        ≡ (completed_count + 1) % 2 ^ 64 ∷ ids_after ((completed_count + 1) % 2 ^ 64) (length ids) =
      o.consecutive in
    let e : id ≡ (completed_count + 1) % 2 ^ 64 = cc c in
    let l = o.last in record { consecutive = cc (c, e); last = omega arith; bounded = omega arith }

-- A further id is submitted.
Ordered-snoc :
    (completed_count submitted_count : ℕ) (ids : List ℕ)
    → Ordered completed_count submitted_count ids
    → Ordered completed_count
        ((submitted_count + 1) % 2 ^ 64)
        (ids ++ (submitted_count + 1) % 2 ^ 64 ∷ [])
Ordered-snoc completed_count submitted_count ids o =
    let id = (submitted_count + 1) % 2 ^ 64 in
    let l = o.last in
    let e : id ≡ (completed_count + suc (length ids)) % 2 ^ 64 = omega arith in
    let n : length (ids ++ id ∷ []) ≡ suc (length ids) =
      omega (arith, length-append ids (id ∷ [])) in
    let c = o.consecutive in
    let s = ids_after-snoc completed_count (length ids) in
    record {
      consecutive =
          ap (λ l. l ++ id ∷ []) c
          ∙ ap (λ i. ids_after completed_count (length ids) ++ i ∷ []) e
          ∙ s
          ∙ ap (ids_after completed_count) (sym n);
      last = omega arith;
      bounded = o.bounded;
    }

map-snoc :
    (xs : List QueuedChange) (q : QueuedChange)
    → map id_of (xs ++ q ∷ []) ≡ map id_of xs ++ id_of q ∷ []
map-snoc [] q = refl
map-snoc (x ∷ xs) q = ap (λ l. id_of x ∷ l) (map-snoc xs q)

enqueue-InOrder :
    (change : CacheChange) (readers : List ReaderProxy) (w : ReliableWriter)
    (queued : Option QueuedChange)
    → InOrder (at w queued)
    → InOrder (at (enqueue change readers w) queued)
unfolding enqueue outstanding
enqueue-InOrder change readers w none o =
    let id = (w.submitted_count + 1) % 2 ^ 64 in
    let q : QueuedChange = record { change = change; readers = readers; submission_id = id } in
    subst (Ordered w.completed_count id) (sym (map-snoc w.pending_changes q))
      (Ordered-snoc w.completed_count w.submitted_count (map id_of w.pending_changes) o)
enqueue-InOrder change readers w (some c) o =
    let id = (w.submitted_count + 1) % 2 ^ 64 in
    let q : QueuedChange = record { change = change; readers = readers; submission_id = id } in
    subst (Ordered w.completed_count id) (sym (map-snoc (c ∷ w.pending_changes) q))
      (Ordered-snoc w.completed_count w.submitted_count (map id_of (c ∷ w.pending_changes)) o)

forget_error-InOrder :
    (w : ReliableWriter) (queued : Option QueuedChange)
    → InOrder (at w queued)
    → InOrder (at (forget_error w) queued)
unfolding forget_error outstanding
forget_error-InOrder w queued o =
    if_holds (λ (v : ReliableWriter). InOrder (at v queued))
      (w.failed_count == w.observed_failure_count) (λ observed. o) (λ kept. o)

proceed-InOrder :
    {S : Type 0} (env : Surroundings S) (payload : List ℕ) (w : ReliableWriter) (t : S)
    (queued : Option QueuedChange)
    → w.config.asynchronous ≡ true
    → InOrder (at w queued)
    → InOrder (at (proceed env payload w t).1 queued)
unfolding accept outstanding
proceed-InOrder {S} env payload w t queued a o =
    if_holds (λ (r : Bool × ReliableWriter × S). InOrder (at r.1 queued)) w.config.asynchronous
      (λ h.
        enqueue-InOrder _ w.readers (record (forget_error w) { history = _ }) queued
          (forget_error-InOrder w queued o))
      (λ h. absurd (cc (a, h)))

write-InOrder :
    {S : Type 0} (env : Surroundings S) (payload : List ℕ) (w : ReliableWriter) (t : S)
    (queued : Option QueuedChange)
    → w.config.asynchronous ≡ true
    → InOrder (at w queued)
    → InOrder (at (write env payload w t).1 queued)
unfolding write outstanding
write-InOrder {S} env payload w t queued a o =
    let P = λ (r : Bool × ReliableWriter × S). InOrder (at r.1 queued) in
    if_holds P (is_empty w.readers) (λ h. o)
      (λ h.
        if_holds P (env.is_stopping t).0 (λ stops. o)
          (λ goes. proceed-InOrder env payload w (env.is_stopping t).1 queued a o))

first_of-InOrder :
    (pending : List QueuedChange) (w w' : ReliableWriter) (change : QueuedChange)
    → first_of pending w ≡ some (change, w')
    → Ordered w.completed_count w.submitted_count (map id_of pending)
    → InOrder (at w' (some change))
unfolding outstanding
first_of-InOrder [] w w' change e o = absurd (cc e)
first_of-InOrder (q ∷ rest) w w' change e o =
    let p = some_inj.0 e in
    subst (λ (r : QueuedChange × ReliableWriter). InOrder (at r.1 (some r.0))) p o

take_change-InOrder :
    (w w' : ReliableWriter) (change : QueuedChange)
    → take_change w ≡ some (change, w')
    → InOrder (at w none)
    → InOrder (at w' (some change))
unfolding take_change outstanding
take_change-InOrder w w' change e o = first_of-InOrder w.pending_changes w w' change e o

finish_change-InOrder :
    (change : QueuedChange) (delivery : Delivery) (is_stopping : Bool) (w : ReliableWriter)
    → InOrder (at w (some change))
    → InOrder (at (finish_change change delivery is_stopping w) none)
unfolding finish_change outstanding
finish_change-InOrder change delivery is_stopping w o =
    let h =
      Ordered-first w.completed_count w.submitted_count change.submission_id
        (map id_of w.pending_changes) o in
    if_holds (λ (v : ReliableWriter). InOrder (at v none))
      (not (is_delivered delivery) && not is_stopping) (λ failed. h) (λ other. h)

end_wait-InOrder :
    (target : ℕ) (is_stopping : Bool) (w : ReliableWriter) (queued : Option QueuedChange)
    → InOrder (at w queued)
    → InOrder (at (end_wait target is_stopping w).1 queued)
unfolding end_wait outstanding
end_wait-InOrder target is_stopping w queued o =
    let P = λ (r : Bool × ReliableWriter). InOrder (at r.1 queued) in
    if_holds P (not (completed target is_stopping w)) (λ a. o)
      (λ a.
        if_holds P is_stopping (λ b. o)
          (λ b. if_holds P (not (w.failed_count == w.observed_failure_count)) (λ c. o) (λ c. o)))

set_readers-InOrder :
    (readers : List ReaderProxy) (w : ReliableWriter) (queued : Option QueuedChange)
    → InOrder (at w queued)
    → InOrder (at (set_readers readers w) queued)
unfolding set_readers outstanding
set_readers-InOrder readers w queued o = o

Step-InOrder :
    {S : Type 0} (env : Surroundings S) {s s' : System} → Step env s s' → InOrder s → InOrder s'
unfolding outstanding
Step-InOrder env (wrote w queued payload t a) o = write-InOrder env payload w t queued a o
Step-InOrder env (refused w queued e) o = o
Step-InOrder env (checked w queued) o = forget_error-InOrder w queued o
Step-InOrder env (recorded w queued history) o = o
Step-InOrder env (submitted w queued change readers) o = enqueue-InOrder change readers w queued o
Step-InOrder env (set w queued readers) o = set_readers-InOrder readers w queued o
Step-InOrder env (took w w' change e) o = take_change-InOrder w w' change e o
Step-InOrder env (delivering w change h r) o = o
Step-InOrder env (finished w change d b) o = finish_change-InOrder change d b w o
Step-InOrder env (waited w queued target b) o = end_wait-InOrder target b w queued o

pub Reach-InOrder :
    {S : Type 0} (env : Surroundings S) {s s' : System} → Reach env s s' → InOrder s → InOrder s'
Reach-InOrder env here o = o
Reach-InOrder env (next r step) o = Step-InOrder env step (Reach-InOrder env r o)
