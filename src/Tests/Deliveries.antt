-- ===== src/Tests/Deliveries.antt =====
-- The reliable writer at concrete inputs, over a transport that follows a script.
use mini_dds.Prelude.{
  ℕ, ◌+◌, ◌^◌, ◌<◌, ◌≡◌, ◌≢◌, refl, arith, List, [], ◌∷◌, ◌++◌, All, map, length, Bool, true, false,
  Option, none, some, ◌||◌, ◌&&◌, ltb,
}
use mini_dds.Transport.{Datagram, Endpoint, Transport, ReceiveResult, received, timed_out, failed}
use mini_dds.Transport.Recorder.{Recorded}
use mini_dds.Rtps.Stateless.{ReaderProxy}
use mini_dds.Rtps.Writer.{
  ReliableWriter, ReliableWriterConfig, QueuedChange, Surroundings, new_reliable_writer,
}
use mini_dds.Rtps.Writer.Round.{ReaderWriteState}
use mini_dds.Rtps.Writer.Deliver.{Delivery, delivered, unfinished, undelivered, deliver_change}
use mini_dds.Rtps.Writer.Deliver.Budget.{IsClock, enough_rounds}
use mini_dds.Rtps.Writer.Deliver.Ends.{deliver_change_ends}
use mini_dds.Rtps.Writer.Deliver.Evidence.{Evidence, recording}
use mini_dds.Rtps.Writer.Deliver.Receipt.{deliver_change-Acknowledges}
use mini_dds.Rtps.Writer.Queue.{write, take_change, finish_change, end_wait, pending_change_count}
use mini_dds.Rtps.Writer.Queue.Steps.{
  System, at, wrote, took, finished, Reach, here, next, outstanding, ids_after, start,
}
use mini_dds.Rtps.Writer.Queue.Order.{id_of}
use mini_dds.Rtps.Writer.Queue.Waiting.{Reach-queue, Reach-end_wait}
use mini_dds.Rtps.Writer.Acknowledge.{acknack_acknowledges}
use mini_dds.Rtps.Writer.Acknowledge.Meaning.{acknack_acknowledges-make_acknack}
use mini_dds.Rtps.Reader.Acks.{make_acknack, ack_base, ack_bits}
use mini_dds.Rtps.Reader.Acks.Bitmap.{is_known}
use mini_dds.Rtps.Reader.State.{on_data}
use mini_dds.Rtps.Reader.State.Events.{on_data-IsWriterState}
use mini_dds.Tests.Values.{
  reader_one, writer_one, prefix_one, header_bytes, address_one, change_one,
}
use mini_dds.Tests.Readers.{proxy_one, begun, begun-IsWriterState, change-IsSample}

-- What is still to arrive, and the time.
record Script : Type 0 where
  inbox : List ReceiveResult
  time : ℕ

abbrev next_of : List ReceiveResult → ℕ → ReceiveResult × Script
next_of [] time = (timed_out, record { inbox = []; time = time + 1 })
next_of (r ∷ rs) time = (r, record { inbox = rs; time = time + 1 })

abbrev script_net : Transport Script
script_net = record {
  send = λ bytes endpoint t. (true, t);
  receive = λ timeout t. next_of t.inbox t.time;
  last_error = λ t. [];
}

abbrev script : Surroundings Script
script = record {
  net = script_net;
  now = λ t. (t.time, t);
  is_stopping = λ t. (false, t);
  ticks_per_ms = 1;
}

next_of-time : (rs : List ReceiveResult) (time : ℕ) → time < (next_of rs time).1.time
next_of-time [] time = omega arith
next_of-time (r ∷ rs) time = omega arith

script-IsClock : IsClock script
script-IsClock = record {
  time = λ t. t.time;
  read_early = λ t. omega arith;
  read_late = λ t. omega arith;
  send_late = λ bytes endpoint t. omega arith;
  flag_late = λ t. omega arith;
  receive_later = λ timeout t. next_of-time t.inbox t.time;
}

abbrev config : Bool → ReliableWriterConfig
config asynchronous = record {
  acknowledgment_timeout = 2;
  heartbeat_period = 1;
  max_retries = 1;
  history_depth = 4;
  asynchronous = asynchronous;
}

abbrev writer : Bool → ReliableWriter
writer asynchronous =
    new_reliable_writer prefix_one writer_one (proxy_one ∷ []) (config asynchronous)

abbrev silent : Script
silent = record { inbox = []; time = 5 }

-- An ACKNACK for all before 8, from the reader.
abbrev acknack_eight : Datagram
acknack_eight = record {
  payload =
      header_bytes
      ++ (6 ∷ 3 ∷ 24 ∷ 0 ∷ 0 ∷ 0 ∷ 1 ∷ 7 ∷ 0 ∷ 0 ∷ 1 ∷ 2 ∷ 0 ∷ 0 ∷ 0 ∷ 0 ∷ 8 ∷ 0 ∷ 0 ∷ 0 ∷ 0 ∷ 0 ∷ 0
          ∷ 0 ∷ 1 ∷ 0 ∷ 0 ∷ 0 ∷ []);
  source = address_one;
}

abbrev answering : Recorded Script
answering = record {
  state = record { inbox = timed_out ∷ received acknack_eight ∷ []; time = 5 };
  log = [];
}

answered :
    (deliver_change (recording script) (change_one 7) 4 (proxy_one ∷ []) (writer false) answering).0
    ≡ delivered
unfolding mini_dds.Cdr.Reader.require mini_dds.Cdr.Reader.align mini_dds.Cdr.Reader.read_little
    mini_dds.Cdr.Reader.read_unsigned mini_dds.Cdr.Reader.read_uint32 mini_dds.Cdr.Reader.read_int32
    mini_dds.Cdr.Reader.read_bytes mini_dds.Cdr.Writer.align mini_dds.Cdr.Writer.push_little
    mini_dds.Cdr.Writer.write_unsigned mini_dds.Cdr.Writer.write_uint16
    mini_dds.Cdr.Writer.write_uint32 mini_dds.Cdr.Writer.write_int32 mini_dds.Cdr.Writer.write_bytes
    mini_dds.Rtps.Types.entity_id_eq mini_dds.Rtps.Types.slt64 mini_dds.Rtps.Types.sle64
    mini_dds.Rtps.Types.sle32 mini_dds.Rtps.Message.encode_message_header
    mini_dds.Rtps.Message.decode_message_header mini_dds.Rtps.Message.encode_submessage_header
    mini_dds.Rtps.Message.decode_submessage_header mini_dds.Rtps.Codec.sequence_high
    mini_dds.Rtps.Codec.sequence_low mini_dds.Rtps.Codec.make_sequence_number
    mini_dds.Rtps.Codec.write_entity_id mini_dds.Rtps.Codec.read_entity_id
    mini_dds.Rtps.Codec.write_sequence_number mini_dds.Rtps.Codec.read_sequence_number
    mini_dds.Rtps.Data.write_data mini_dds.Rtps.Data.encode_data_submessage
    mini_dds.Rtps.Data.encode_data_message mini_dds.Rtps.Stateless.data_message
    mini_dds.Transport.endpoint_eq mini_dds.Prelude.bytes_eq
    mini_dds.Rtps.Reader.Receive.targets_entity new_reliable_writer acknack_acknowledges
    mini_dds.Rtps.Writer.Acknowledge.acknack_has_requests
    mini_dds.Rtps.Writer.Acknowledge.acknack_matches_reader
    mini_dds.Rtps.Writer.Acknowledge.acknack_of mini_dds.Rtps.Writer.Send.heartbeat_for
    mini_dds.Rtps.Writer.Send.send_change mini_dds.Rtps.Writer.Send.send_heartbeat
    mini_dds.Rtps.Writer.Send.transmit mini_dds.Rtps.Writer.Round.pending_count
    mini_dds.Rtps.Writer.Round.send_to mini_dds.Rtps.Writer.Round.heartbeat_to
    mini_dds.Rtps.Writer.Round.service mini_dds.Rtps.Writer.Round.for_each
    mini_dds.Rtps.Writer.Round.next_event mini_dds.Rtps.Writer.Round.answer
    mini_dds.Rtps.Writer.Round.answer_first mini_dds.Rtps.Writer.Round.on_datagram
    mini_dds.Rtps.Writer.Round.wait_for_acknack mini_dds.Rtps.Writer.Round.deliver_round
    mini_dds.Rtps.Writer.Deliver.deliver_loop mini_dds.Rtps.Writer.Deliver.first_pass deliver_change
    mini_dds.Rtps.Reliability.SequenceSet.validate_sequence_number_set
    mini_dds.Rtps.Reliability.SequenceSet.contains mini_dds.Rtps.Reliability.SequenceSet.write_words
    mini_dds.Rtps.Reliability.SequenceSet.write_sequence_number_set
    mini_dds.Rtps.Reliability.ReadSet.read_words
    mini_dds.Rtps.Reliability.ReadSet.read_sequence_number_set
    mini_dds.Rtps.Reliability.Contents.write_heartbeat
    mini_dds.Rtps.Reliability.Contents.write_acknack mini_dds.Rtps.Reliability.Contents.write_gap
    mini_dds.Rtps.Reliability.Frame.frame mini_dds.Rtps.Reliability.Frame.content_size
    mini_dds.Rtps.Reliability.Frame.decode_body mini_dds.Rtps.Reliability.Frame.decode_frame
    mini_dds.Rtps.Reliability.Frame.append_submessage
    mini_dds.Rtps.Reliability.Heartbeat.encode_heartbeat_submessage
    mini_dds.Rtps.Reliability.Heartbeat.heartbeat_fields
    mini_dds.Rtps.Reliability.Heartbeat.decode_heartbeat_submessage
    mini_dds.Rtps.Reliability.Heartbeat.encode_heartbeat_message
    mini_dds.Rtps.Reliability.AckNack.encode_acknack_submessage
    mini_dds.Rtps.Reliability.AckNack.acknack_fields
    mini_dds.Rtps.Reliability.AckNack.decode_acknack_submessage
    mini_dds.Rtps.Reliability.AckNack.encode_acknack_message
answered = refl

deliver_change-Acknowledges_example :
    All
      (Evidence
        (writer false).writer_id
        (change_one 7).sequence_number
        (deliver_change
          (recording script)
          (change_one 7)
          4
          (proxy_one ∷ [])
          (writer false)
          answering).3.log)
      (proxy_one ∷ [])
deliver_change-Acknowledges_example =
    deliver_change-Acknowledges script (change_one 7) 4 (proxy_one ∷ []) (writer false) answering
      answered

deliver_change_ends_example :
    (deliver_change script
      (change_one 7)
      (enough_rounds (writer false).config 1)
      (proxy_one ∷ [])
      (writer false)
      silent).0
    ≢ unfinished
deliver_change_ends_example =
    deliver_change_ends script (change_one 7) (proxy_one ∷ []) (writer false) silent script-IsClock

abbrev begin_state : System
begin_state = start prefix_one writer_one (proxy_one ∷ []) (config true)

abbrev written : ReliableWriter
written = (write script (1 ∷ 2 ∷ []) (writer true) silent).1

one_written : Reach script begin_state (at written none)
unfolding new_reliable_writer
one_written = next here (wrote (writer true) none (1 ∷ 2 ∷ []) silent refl)

few : length (outstanding (at written none)) < 2 ^ 64
unfolding outstanding write new_reliable_writer mini_dds.Rtps.Stateless.unique_readers
    mini_dds.Rtps.Stateless.push_unique mini_dds.Rtps.Writer.Queue.enqueue
    mini_dds.Rtps.Writer.Queue.accept mini_dds.Rtps.Writer.Queue.forget_error
few = omega arith

Reach-queue_example :
    (map id_of (outstanding (at written none))
      ≡ ids_after written.completed_count (pending_change_count written))
    × (length (outstanding (at written none)) ≡ pending_change_count written)
Reach-queue_example =
    Reach-queue script prefix_one writer_one (proxy_one ∷ []) (config true) {s = at written none}
      one_written few

one_pending : pending_change_count written ≡ 1
unfolding pending_change_count write new_reliable_writer mini_dds.Rtps.Stateless.unique_readers
    mini_dds.Rtps.Stateless.push_unique mini_dds.Rtps.Writer.Queue.enqueue
    mini_dds.Rtps.Writer.Queue.accept mini_dds.Rtps.Writer.Queue.forget_error
one_pending = refl

-- The change is taken and delivered.
abbrev queued_one : QueuedChange
queued_one = record {
  change = record (change_one 1) { serialized_payload = 1 ∷ 2 ∷ [] };
  readers = proxy_one ∷ [];
  submission_id = 1;
}

abbrev served : ReliableWriter
served = finish_change queued_one delivered false (record written { pending_changes = [] })

one_served : Reach script begin_state (at served none)
unfolding take_change write new_reliable_writer mini_dds.Rtps.Stateless.unique_readers
    mini_dds.Rtps.Stateless.push_unique mini_dds.Rtps.Writer.Queue.enqueue
    mini_dds.Rtps.Writer.Queue.accept mini_dds.Rtps.Writer.Queue.forget_error
    mini_dds.History.Writer.add mini_dds.History.Writer.new_writer_history
one_served =
    next (next one_written (took written (record written { pending_changes = [] }) queued_one refl))
      (finished (record written { pending_changes = [] }) queued_one delivered false)

wait_ends : (end_wait 1 false served).0 ≡ true
unfolding end_wait mini_dds.Rtps.Writer.Queue.completed finish_change write new_reliable_writer
    mini_dds.Rtps.Stateless.unique_readers mini_dds.Rtps.Stateless.push_unique
    mini_dds.Rtps.Writer.Queue.enqueue mini_dds.Rtps.Writer.Queue.accept
    mini_dds.Rtps.Writer.Queue.forget_error
wait_ends = refl

none_left : served.completed_count + length (outstanding (at served none)) < 2 ^ 64
unfolding finish_change outstanding
none_left = omega arith

Reach-end_wait_example :
    All (λ (q : QueuedChange). 1 < q.submission_id) (outstanding (at served none))
    × (served.failed_count ≡ served.observed_failure_count)
Reach-end_wait_example =
    Reach-end_wait script prefix_one writer_one (proxy_one ∷ []) (config true) {s = at served none}
      1 false one_served none_left wait_ends

acknack_acknowledges-make_acknack_example :
    acknack_acknowledges
      (make_acknack reader_one writer_one 1 (on_data 5 (change_one 5) begun))
      (record { value = 3 })
    ≡ (ltb 3 (ack_base (on_data 5 (change_one 5) begun))
        || (ltb 3 (
              ack_base (on_data 5 (change_one 5) begun) + ack_bits (on_data 5 (change_one 5) begun))
            && is_known 3 (on_data 5 (change_one 5) begun)))
unfolding on_data mini_dds.Rtps.Types.slt64
acknack_acknowledges-make_acknack_example =
    acknack_acknowledges-make_acknack reader_one writer_one 1 (on_data 5 (change_one 5) begun) 3
      (on_data-IsWriterState 5 (change_one 5) begun (change-IsSample 5 (omega arith))
        begun-IsWriterState)
      (omega arith)
