-- ===== src/Rtps/Writer/Queue/Waiting.antt =====
-- The queue of rtps/ReliableEndpoint.cpp, seen by those who count and wait.
use mini_dds.Prelude.{
  ℕ, zero, suc, ◌+◌, ◌-◌, ◌%◌, ◌^◌, ◌≤◌, ◌<◌, ◌≡◌, refl, sym, ap, ◌∙◌, List, [], ◌∷◌, length, map,
  All, Bool, true, arith,
}
use mini_dds.Rtps.Stateless.{ReaderProxy}
use mini_dds.Rtps.Types.{GuidPrefix, EntityId}
use mini_dds.Rtps.Writer.{
  ReliableWriterConfig, new_reliable_writer, ReliableWriter, QueuedChange, Surroundings,
}
use mini_dds.Rtps.Writer.Queue.{completed, end_wait, pending_change_count}
use mini_dds.Rtps.Writer.Queue.Steps.{System, Reach, outstanding, ids_after, start}
use mini_dds.Rtps.Writer.Queue.Order.{Ordered, InOrder, Reach-InOrder, id_of}
use mathlib.Core.Path.{subst}

start-InOrder :
    (prefix : GuidPrefix) (writer_id : EntityId) (readers : List ReaderProxy)
    (config : ReliableWriterConfig)
    → InOrder (start prefix writer_id readers config)
unfolding outstanding new_reliable_writer ids_after
start-InOrder prefix writer_id readers config = record {
  consecutive = refl;
  last = refl;
  bounded = omega arith;
}

length-map : (xs : List QueuedChange) → length (map id_of xs) ≡ length xs
length-map [] = refl
length-map (x ∷ xs) = ap suc (length-map xs)

Ordered-count :
    (completed_count submitted_count : ℕ) (ids : List ℕ)
    → Ordered completed_count submitted_count ids
    → length ids < 2 ^ 64
    → (submitted_count + 2 ^ 64 - completed_count) % 2 ^ 64 ≡ length ids
Ordered-count completed_count submitted_count ids o l =
    let last = o.last in let bounded = o.bounded in omega arith

-- In every state that the threads of an asynchronous writer can reach from its start, with fewer
-- than 2 ^ 64 changes outstanding, the outstanding changes, the one in delivery before those that
-- wait, have the submission ids that follow the completed count, in their order, and
-- `pending_change_count` is their number.
pub Reach-queue :
    {S : Type 0} (env : Surroundings S) (prefix : GuidPrefix) (writer_id : EntityId)
    (readers : List ReaderProxy) (config : ReliableWriterConfig) {s : System}
    → Reach env (start prefix writer_id readers config) s
    → length (outstanding s) < 2 ^ 64
    → (map id_of (outstanding s)
        ≡ ids_after s.writer.completed_count (pending_change_count s.writer))
      × (length (outstanding s) ≡ pending_change_count s.writer)
unfolding pending_change_count
Reach-queue env prefix writer_id readers config {s} r l =
    let o = Reach-InOrder env r (start-InOrder prefix writer_id readers config) in
    let same = length-map (outstanding s) in
    let n =
      Ordered-count s.writer.completed_count s.writer.submitted_count (map id_of (outstanding s)) o
        (omega arith) in
    (o.consecutive ∙ ap (ids_after s.writer.completed_count) (sym n), sym same ∙ sym n)

-- Ids that do not wrap around lie above the count that they follow.
ids_after-above :
    (target count n : ℕ)
    → target ≤ count
    → count + n < 2 ^ 64
    → All (λ id. target < id) (ids_after count n)
unfolding ids_after
ids_after-above target count zero t l = tt
ids_after-above target count (suc n) t l =
    (omega arith, ids_after-above target ((count + 1) % 2 ^ 64) n (omega arith) (omega arith))

All-of_map :
    (P : ℕ → Type 0) (qs : List QueuedChange) → All P (map id_of qs) → All (λ q. P (id_of q)) qs
All-of_map P [] a = tt
All-of_map P (q ∷ qs) a = (a.0, All-of_map P qs a.1)

end_wait_lem :
    (target : ℕ) (is_stopping : Bool) (w : ReliableWriter)
    → (end_wait target is_stopping w).0 ≡ true
    → (target ≤ w.completed_count) × (w.failed_count ≡ w.observed_failure_count)
unfolding end_wait completed
end_wait_lem target is_stopping w h = ground arith

-- In every state that the threads of an asynchronous writer can reach from its start, where the
-- completed count and the number of outstanding changes together stay below 2 ^ 64, a wait that
-- ends with success leaves no change outstanding whose submission id is up to the count that the
-- wait began with, and no failure unobserved.
pub Reach-end_wait :
    {S : Type 0} (env : Surroundings S) (prefix : GuidPrefix) (writer_id : EntityId)
    (readers : List ReaderProxy) (config : ReliableWriterConfig) {s : System} (target : ℕ)
    (is_stopping : Bool)
    → Reach env (start prefix writer_id readers config) s
    → s.writer.completed_count + length (outstanding s) < 2 ^ 64
    → (end_wait target is_stopping s.writer).0 ≡ true
    → All (λ (q : QueuedChange). target < q.submission_id) (outstanding s)
      × (s.writer.failed_count ≡ s.writer.observed_failure_count)
Reach-end_wait env prefix writer_id readers config {s} target is_stopping r l h =
    let o = Reach-InOrder env r (start-InOrder prefix writer_id readers config) in
    let same = length-map (outstanding s) in
    let e = end_wait_lem target is_stopping s.writer h in
    let above =
      ids_after-above target s.writer.completed_count (length (map id_of (outstanding s))) e.0
        (omega arith) in
    (
      All-of_map (λ id. target < id) (outstanding s)
          (subst (All (λ id. target < id)) (sym o.consecutive) above),
      e.1,
    )
