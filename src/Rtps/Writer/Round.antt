-- ===== src/Rtps/Writer/Round.antt =====
-- One round of the loop of `deliver_change` in rtps/ReliableEndpoint.cpp.
pub mod Rules
use mini_dds.Prelude.{
  ℕ, zero, suc, ◌+◌, ◌-◌, ◌*◌, ◌/◌, min, max, List, [], ◌∷◌, length, map, all_of, Bool, true, false,
  not, ◌&&◌, leb, ◌==◌, if◌then◌else◌, Option, none, some,
}
use mini_dds.Transport.{Datagram, Endpoint, ReceiveResult, received, timed_out, failed, Transport}
use mini_dds.Rtps.Reliability.SequenceSet.{contains}
use mini_dds.Rtps.Reliability.Contents.{AckNackSubmessage}
use mini_dds.Rtps.Stateless.{ReaderProxy}
use mini_dds.History.{CacheChange}
use mini_dds.Rtps.Writer.{
  ReliableWriter, ReliableWriterConfig, WriterError, transport, retry_limit, unacknowledged,
  stopped, Surroundings,
}
use mini_dds.Rtps.Writer.Acknowledge.{
  acknack_of, acknack_acknowledges, acknack_has_requests, acknack_matches_reader,
}
use mini_dds.Rtps.Writer.Send.{transmit, send_heartbeat}

pub record ReaderWriteState : Type 0 where
  pub reader : ReaderProxy
  pub acknowledged : Bool
  pub retries : ℕ
  pub retry_deadline : ℕ
  pub heartbeat_deadline : ℕ

-- ReaderWriteState{reader}
abbrev pub new_state : ReaderProxy → ReaderWriteState
new_state reader = record {
  reader = reader;
  acknowledged = false;
  retries = 0;
  retry_deadline = 0;
  heartbeat_deadline = 0;
}

abbrev pub is_acknowledged : ReaderWriteState → Bool
is_acknowledged s = s.acknowledged

abbrev pub all_acknowledged : List ReaderWriteState → Bool
all_acknowledged = all_of is_acknowledged

unfoldable pub pending_count : List ReaderWriteState → ℕ
pending_count [] = 0
pending_count (s ∷ ss) = if s.acknowledged then pending_count ss else suc (pending_count ss)

-- The deadlines that follow a transmission, and those that follow a HEARTBEAT alone.
abbrev pub heartbeat_at :
    ReliableWriterConfig → (ticks_per_ms now : ℕ) → ReaderWriteState → ReaderWriteState
heartbeat_at config ticks_per_ms now s = record s {
  heartbeat_deadline = now + config.heartbeat_period * ticks_per_ms;
}

abbrev pub sent_at :
    ReliableWriterConfig → (ticks_per_ms now : ℕ) → ReaderWriteState → ReaderWriteState
sent_at config ticks_per_ms now s =
    heartbeat_at config ticks_per_ms now
      (record s { retry_deadline = now + config.acknowledgment_timeout * ticks_per_ms })

-- `++state.retries; retransmission_count_.fetch_add(1);`
abbrev pub retried : ReaderWriteState → ReaderWriteState
retried s = record s { retries = s.retries + 1 }

abbrev pub counted : ReliableWriter → ReliableWriter
counted writer = record writer { retransmission_count = writer.retransmission_count + 1 }

-- What one pass over the states, or a datagram, comes to: the failure that ends the delivery, or none.
abbrev pub Pass : Type 0 → Type 0
Pass S = Option WriterError × List ReaderWriteState × ReliableWriter × S

module _ {S : Type 0} (env : Surroundings S) (change : CacheChange) where
  abbrev pub with_deadlines :
      (ReaderWriteState → ReaderWriteState)
      → ReaderWriteState
      → Option WriterError × ReliableWriter × S
      → Option WriterError × ReaderWriteState × ReliableWriter × S
  with_deadlines set s (none, writer, t) = (none, set s, writer, t)
  with_deadlines set s (some e, writer, t) = (some e, s, writer, t)

  -- A change with its HEARTBEAT goes to one reader, at a time that was read before.
  unfoldable pub send_to :
      (now : ℕ)
      → ReaderWriteState
      → ReliableWriter
      → S
      → Option WriterError × ReaderWriteState × ReliableWriter × S
  send_to now s writer t =
      with_deadlines (sent_at writer.config env.ticks_per_ms now) s
        (transmit env.net change s.reader writer t)

  unfoldable pub heartbeat_to :
      (now : ℕ)
      → ReaderWriteState
      → ReliableWriter
      → S
      → Option WriterError × ReaderWriteState × ReliableWriter × S
  heartbeat_to now s writer t =
      with_deadlines (heartbeat_at writer.config env.ticks_per_ms now) s
        (send_heartbeat env.net change.sequence_number s.reader writer t)

  -- What is due for one reader; `pending` is the count of readers that wait.
  unfoldable pub service :
      (pending now : ℕ)
      → ReaderWriteState
      → ReliableWriter
      → S
      → Option WriterError × ReaderWriteState × ReliableWriter × S
  service pending now s writer t =
      if s.acknowledged
      then (none, s, writer, t)
      else if leb s.retry_deadline now
      then (if s.retries == writer.config.max_retries
          then (some (unacknowledged pending writer.config.max_retries), s, writer, t)
          else send_to now (retried s) (counted writer) t)
      else if leb s.heartbeat_deadline now
      then heartbeat_to now s writer t
      else (none, s, writer, t)

  -- The `for` loops over the states: the first failure ends them.
  abbrev pub prepend :
      Option WriterError × ReaderWriteState × ReliableWriter × S
      → List ReaderWriteState
      → Pass S
      → Pass S
  prepend (none, s, writer, t) ss (failure, ss', writer', t') = (failure, s ∷ ss', writer', t')
  prepend (some e, s, writer, t) ss rest = (some e, s ∷ ss, writer, t)

  unfoldable pub for_each :
      (ReaderWriteState
        → ReliableWriter
        → S
        → Option WriterError × ReaderWriteState × ReliableWriter × S)
      → List ReaderWriteState
      → ReliableWriter
      → S
      → Pass S
  for_each step [] writer t = (none, [], writer, t)
  for_each step (s ∷ ss) writer t =
      let first = step s writer t in prepend first ss (for_each step ss first.2 first.3)

  -- `next_event`: the least of the deadlines of the states that wait; `none` stands for
  -- `time_point::max()`.
  abbrev pub earliest : Option ℕ → ℕ → Option ℕ
  earliest none b = some b
  earliest (some a) b = some (min a b)

  unfoldable pub next_event : Option ℕ → List ReaderWriteState → Option ℕ
  next_event event [] = event
  next_event event (s ∷ ss) =
      next_event
        (if s.acknowledged
          then event
          else earliest event (min s.retry_deadline s.heartbeat_deadline))
        ss

  -- The milliseconds to wait: one at least, and fifty at most.
  abbrev pub receive_timeout : Option ℕ → (now : ℕ) → ℕ
  receive_timeout none now = 50
  receive_timeout (some event) now = min 50 (max 1 ((event - now) / env.ticks_per_ms))

  -- After a retransmission the clock is read again.
  abbrev pub resent :
      ReaderWriteState
      → Option WriterError × ReliableWriter × S
      → Option WriterError × ReaderWriteState × ReliableWriter × S
  resent s (some e, writer, t) = (some e, s, writer, t)
  resent s (none, writer, t) =
      let (now, t') = env.now t in (none, sent_at writer.config env.ticks_per_ms now s, writer, t')

  -- What an ACKNACK does for the reader that it comes from.
  unfoldable pub answer :
      AckNackSubmessage
      → ReaderWriteState
      → ReliableWriter
      → S
      → Option WriterError × ReaderWriteState × ReliableWriter × S
  answer acknack s writer t =
      if acknack_acknowledges acknack change.sequence_number && not (acknack_has_requests acknack)
      then (none, record s { acknowledged = true }, writer, t)
      else if contains acknack.reader_state change.sequence_number
      then (if s.retries == writer.config.max_retries
          then (some retry_limit, s, writer, t)
          else resent (retried s) (transmit env.net change s.reader (counted writer) t))
      else (none, s, writer, t)

  -- `std::find_if` over the states, and the answer for the one that is found.
  unfoldable pub answer_first :
      AckNackSubmessage → Endpoint → List ReaderWriteState → ReliableWriter → S → Pass S
  answer_first acknack source [] writer t = (none, [], writer, t)
  answer_first acknack source (s ∷ ss) writer t =
      let (failure, s', writer', t') = answer acknack s writer t in
      let (failure', ss', writer'', t'') = answer_first acknack source ss writer t in
      if not s.acknowledged && acknack_matches_reader acknack source s.reader
      then (failure, s' ∷ ss, writer', t')
      else (failure', s ∷ ss', writer'', t'')

  abbrev pub on_acknack :
      Option AckNackSubmessage → Endpoint → List ReaderWriteState → ReliableWriter → S → Pass S
  on_acknack none source states writer t = (none, states, writer, t)
  on_acknack (some acknack) source states writer t = answer_first acknack source states writer t

  unfoldable pub on_datagram : Datagram → List ReaderWriteState → ReliableWriter → S → Pass S
  on_datagram datagram states writer t =
      on_acknack (acknack_of writer.writer_id datagram.payload) datagram.source states writer t

  -- What is received.
  abbrev pub on_receive : ReceiveResult × S → List ReaderWriteState → ReliableWriter → Pass S
  on_receive (timed_out, t) states writer = (none, states, writer, t)
  on_receive (failed e, t) states writer = (some (transport e), states, writer, t)
  on_receive (received datagram, t) states writer = on_datagram datagram states writer t

  unfoldable pub wait_for_acknack : List ReaderWriteState → ReliableWriter → S → Pass S
  wait_for_acknack states writer t =
      let (now, t') = env.now t in
      on_receive (env.net.receive (receive_timeout (next_event none states) now) t') states writer

  -- The rest of a round follows a pass over the states that has not failed.
  abbrev pub and_wait : Pass S → Pass S
  and_wait (some e, states, writer, t) = (some e, states, writer, t)
  and_wait (none, states, writer, t) =
      if all_acknowledged states
      then (none, states, writer, t)
      else wait_for_acknack states writer t

  unfoldable pub deliver_round : List ReaderWriteState → ReliableWriter → S → Pass S
  deliver_round states writer t =
      let (stopping, t') = env.is_stopping t in
      let (now, t'') = env.now t' in
      if stopping
      then (some stopped, states, writer, t')
      else and_wait (for_each (service (pending_count states) now) states writer t'')
