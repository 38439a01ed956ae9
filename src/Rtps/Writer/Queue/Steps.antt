-- ===== src/Rtps/Writer/Queue/Steps.antt =====
-- The queue of rtps/ReliableEndpoint.cpp, as its threads may interleave.
use mini_dds.Prelude.{
  ℕ, zero, suc, ◌+◌, ◌%◌, ◌^◌, ◌≡◌, List, [], ◌∷◌, Bool, true, Option, none, some,
}
use mini_dds.History.{CacheChange}
use mini_dds.History.Writer.{WriterHistory}
use mini_dds.Rtps.Stateless.{ReaderProxy}
use mini_dds.Rtps.Types.{GuidPrefix, EntityId}
use mini_dds.Rtps.Writer.{
  ReliableWriterConfig, new_reliable_writer, ReliableWriter, QueuedChange, WriterError,
  Surroundings,
}
use mini_dds.Rtps.Writer.Deliver.{Delivery}
use mini_dds.Rtps.Writer.Queue.{
  write, forget_error, enqueue, take_change, finish_change, set_readers, end_wait,
}

-- The state that the threads share, and the change that the worker delivers.
pub record System : Type 0 where
  pub writer : ReliableWriter
  pub queued : Option QueuedChange

abbrev pub at : ReliableWriter → Option QueuedChange → System
at writer queued = record { writer = writer; queued = queued }

-- What a thread may do while it holds the lock, and what a delivery does to the counts. `write`
-- lets the lock go between its check, the history and the queue: besides the whole call there are
-- its parts, for any readers that it may have copied, which other threads may come between.
pub data Step {S : Type 0} (env : Surroundings S) : System → System → Type 0 where
  wrote :
      (w : ReliableWriter) (queued : Option QueuedChange) (payload : List ℕ) (t : S)
      → w.config.asynchronous ≡ true
      → Step env (at w queued) (at (write env payload w t).1 queued)
  refused :
      (w : ReliableWriter) (queued : Option QueuedChange) (e : WriterError)
      → Step env (at w queued) (at (record w { last_error = some e }) queued)
  checked :
      (w : ReliableWriter) (queued : Option QueuedChange)
      → Step env (at w queued) (at (forget_error w) queued)
  recorded :
      (w : ReliableWriter) (queued : Option QueuedChange) (history : WriterHistory)
      → Step env (at w queued) (at (record w { history = history }) queued)
  submitted :
      (w : ReliableWriter) (queued : Option QueuedChange) (change : CacheChange)
      (readers : List ReaderProxy)
      → Step env (at w queued) (at (enqueue change readers w) queued)
  set :
      (w : ReliableWriter) (queued : Option QueuedChange) (readers : List ReaderProxy)
      → Step env (at w queued) (at (set_readers readers w) queued)
  took :
      (w w' : ReliableWriter) (change : QueuedChange)
      → take_change w ≡ some (change, w')
      → Step env (at w none) (at w' (some change))
  delivering :
      (w : ReliableWriter) (change : QueuedChange) (heartbeats retransmissions : ℕ)
      → Step env (at w (some change)) (
          at
            (record w { heartbeat_count = heartbeats; retransmission_count = retransmissions })
            (some change))
  finished :
      (w : ReliableWriter) (change : QueuedChange) (delivery : Delivery) (is_stopping : Bool)
      → Step env (at w (some change)) (at (finish_change change delivery is_stopping w) none)
  waited :
      (w : ReliableWriter) (queued : Option QueuedChange) (target : ℕ) (is_stopping : Bool)
      → Step env (at w queued) (at (end_wait target is_stopping w).1 queued)

pub data Reach {S : Type 0} (env : Surroundings S) (s : System) : System → Type 0 where
  here : Reach env s s
  next : {u v : System} → Reach env s u → Step env u v → Reach env s v

-- The changes that have been written and not completed, the oldest first.
unfoldable pub outstanding : System → List QueuedChange
outstanding s = elim s.queued [
  | none ↦ s.writer.pending_changes
  | some change ↦ change ∷ s.writer.pending_changes
]

-- The submission ids that follow a count.
unfoldable pub ids_after : (count n : ℕ) → List ℕ
ids_after count zero = []
ids_after count (suc n) = let id = (count + 1) % 2 ^ 64 in id ∷ ids_after id n

abbrev pub start : GuidPrefix → EntityId → List ReaderProxy → ReliableWriterConfig → System
start prefix writer_id readers config =
    at (new_reliable_writer prefix writer_id readers config) none
