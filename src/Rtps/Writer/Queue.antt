-- ===== src/Rtps/Writer/Queue.antt =====
-- `write`, `worker_loop` and `wait_for_acknowledgments` of ReliableWriter in
-- rtps/ReliableEndpoint.cpp.
pub mod Steps
pub mod Order
pub mod Waiting
use mini_dds.Prelude.{
  ℕ, ◌+◌, ◌-◌, ◌%◌, ◌^◌, List, [], ◌∷◌, ◌++◌, length, Bool, true, false, not, ◌&&◌, ◌||◌, leb, ◌==◌,
  if◌then◌else◌, Option, none, some,
}
use mini_dds.Rtps.Stateless.{ReaderProxy, unique_readers}
use mini_dds.Rtps.Writer.{
  ReliableWriter, QueuedChange, WriterError, no_matched_readers, stopping, stopped, wait_timed_out,
  Surroundings,
}
use mini_dds.Rtps.Writer.Round.{ReaderWriteState}
use mini_dds.Rtps.Writer.Deliver.{Delivery, delivered, unfinished, undelivered, deliver_change}
use mini_dds.Rtps.Writer.Deliver.Budget.{enough_rounds}
use mini_dds.History.{CacheChange}
use mini_dds.History.Writer

-- The error of an earlier failure stays until it has been observed.
unfoldable pub forget_error : ReliableWriter → ReliableWriter
forget_error writer =
    if writer.failed_count == writer.observed_failure_count
    then record writer { last_error = none }
    else writer

-- The end of an asynchronous `write`: the change waits for the worker. The counts are uint64_t.
unfoldable pub enqueue : CacheChange → List ReaderProxy → ReliableWriter → ReliableWriter
enqueue change readers writer =
    let id = (writer.submitted_count + 1) % 2 ^ 64 in
    record writer {
      pending_changes =
          writer.pending_changes
          ++ record { change = change; readers = readers; submission_id = id } ∷ [];
      submitted_count = id;
    }

-- What `write` does up to the delivery: the change enters the history.
unfoldable pub accept : List ℕ → ReliableWriter → CacheChange × ReliableWriter
accept serialized_payload writer =
    let (change, history) = Writer.add serialized_payload writer.history in
    (change, record (forget_error writer) { history = history })

-- The error of a delivery; that the rounds run out does not occur.
abbrev pub delivery_error : Delivery → Option WriterError
delivery_error delivered = none
delivery_error unfinished = none
delivery_error (undelivered e) = some e

abbrev pub is_delivered : Delivery → Bool
is_delivered delivered = true
is_delivered unfinished = false
is_delivered (undelivered e) = false

abbrev pub set_error :
    {S : Type 0} → Delivery × List ReaderWriteState × ReliableWriter × S → Bool × ReliableWriter × S
set_error (d, states, writer, t) =
    (is_delivered d, record writer { last_error = delivery_error d }, t)

abbrev pub deliver :
    {S : Type 0} → Surroundings S → CacheChange → ReliableWriter → S → Bool × ReliableWriter × S
deliver env change writer t = set_error (
    deliver_change env change (enough_rounds writer.config env.ticks_per_ms) writer.readers writer
      t)

-- The rest of `write`, when nothing refuses the change.
abbrev pub proceed :
    {S : Type 0} → Surroundings S → List ℕ → ReliableWriter → S → Bool × ReliableWriter × S
proceed env serialized_payload writer t =
    let (change, accepted) = accept serialized_payload writer in
    if writer.config.asynchronous
    then (true, enqueue change writer.readers accepted, t)
    else deliver env change accepted t

abbrev pub is_empty : List ReaderProxy → Bool
is_empty [] = true
is_empty (reader ∷ readers) = false

unfoldable pub write :
    {S : Type 0} → Surroundings S → List ℕ → ReliableWriter → S → Bool × ReliableWriter × S
write env serialized_payload writer t =
    let (is_stopping, t') = env.is_stopping t in
    if is_empty writer.readers
    then (false, record writer { last_error = some no_matched_readers }, t)
    else if is_stopping
    then (false, record writer { last_error = some stopping }, t')
    else proceed env serialized_payload writer t'

-- `worker_loop`: it takes the oldest change, and the delivery goes on without the lock.
abbrev pub first_of : List QueuedChange → ReliableWriter → Option (QueuedChange × ReliableWriter)
first_of [] writer = none
first_of (queued ∷ rest) writer = some (queued, record writer { pending_changes = rest })

unfoldable pub take_change : ReliableWriter → Option (QueuedChange × ReliableWriter)
take_change writer = first_of writer.pending_changes writer

unfoldable pub finish_change :
    QueuedChange → Delivery → (is_stopping : Bool) → ReliableWriter → ReliableWriter
finish_change queued delivery is_stopping writer =
    let completed = record writer { completed_count = queued.submission_id } in
    if not (is_delivered delivery) && not is_stopping
    then record completed {
      failed_count = completed.failed_count + 1;
      last_error = delivery_error delivery;
    }
    else completed

unfoldable pub set_readers : List ReaderProxy → ReliableWriter → ReliableWriter
set_readers readers writer = record writer { readers = unique_readers readers }

-- `wait_for_acknowledgments` begins with the count of that moment, and waits for `completed`.
abbrev pub wait_target : ReliableWriter → ℕ
wait_target writer = writer.submitted_count

unfoldable pub completed : (target : ℕ) (is_stopping : Bool) → ReliableWriter → Bool
completed target is_stopping writer = is_stopping || leb target writer.completed_count

-- What it returns when the wait is over: a timeout when `completed` does not hold then.
unfoldable pub end_wait : (target : ℕ) (is_stopping : Bool) → ReliableWriter → Bool × ReliableWriter
end_wait target is_stopping writer =
    if not (completed target is_stopping writer)
    then (false, record writer { last_error = some wait_timed_out })
    else if is_stopping
    then (false, record writer { last_error = some stopped })
    else if not (writer.failed_count == writer.observed_failure_count)
    then (false, record writer { observed_failure_count = writer.failed_count })
    else (true, record writer { last_error = none })

-- A writer that is not asynchronous has nothing to wait for.
abbrev has_no_error : Option WriterError → Bool
has_no_error none = true
has_no_error (some e) = false

unfoldable pub wait_synchronous : ReliableWriter → Bool
wait_synchronous writer = has_no_error writer.last_error

-- The difference of two uint64_t.
unfoldable pub pending_change_count : ReliableWriter → ℕ
pending_change_count writer = (writer.submitted_count + 2 ^ 64 - writer.completed_count) % 2 ^ 64
