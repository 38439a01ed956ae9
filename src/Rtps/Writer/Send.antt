-- ===== src/Rtps/Writer/Send.antt =====
-- `send_change` and `send_heartbeat` of ReliableWriter in rtps/ReliableEndpoint.cpp.
use mini_dds.Prelude.{ℕ, ◌+◌, List, false, ◌==◌, if◌then◌else◌, Option, none, some, Result, ok, err}
use mini_dds.Cdr.Writer.{little}
use mini_dds.Transport.{Endpoint, Transport}
use mini_dds.Rtps.Types.{SequenceNumber, int32_max}
use mini_dds.Rtps.Codec.{Error}
use mini_dds.Rtps.Data.{encode_data_message}
use mini_dds.Rtps.Reliability.Contents.{HeartbeatSubmessage}
use mini_dds.Rtps.Reliability.Heartbeat.{encode_heartbeat_message}
use mini_dds.Rtps.Stateless.{ReaderProxy, data_message}
use mini_dds.History.{CacheChange}
use mini_dds.Rtps.Writer.{ReliableWriter, WriterError, refused, transport}

abbrev pub next_heartbeat_count : ℕ → ℕ
next_heartbeat_count count = if count == int32_max then 1 else count + 1

-- The HEARTBEAT that is sent with a change names that change alone.
unfoldable pub heartbeat_for : SequenceNumber → ReaderProxy → ReliableWriter → HeartbeatSubmessage
heartbeat_for sequence_number reader writer = record {
  reader_id = reader.reader_id;
  writer_id = writer.writer_id;
  first_sequence_number = sequence_number;
  last_sequence_number = sequence_number;
  count = next_heartbeat_count writer.heartbeat_count;
  final_flag = false;
  liveliness_flag = false;
}

module _ {S : Type 0} (net : Transport S) where
  -- `none` is success.
  abbrev pub sent : Result Error (List ℕ) → Endpoint → S → Option WriterError × S
  sent (err e) endpoint t = (some (refused e), t)
  sent (ok bytes) endpoint t =
      let (done, t') = net.send bytes endpoint t in
      (if done then none else some (transport (net.last_error t')), t')

  unfoldable pub send_change :
      CacheChange → ReaderProxy → ReliableWriter → S → Option WriterError × S
  send_change change reader writer t =
      sent
        (encode_data_message (data_message writer.message_header writer.writer_id change reader)
          little)
        reader.endpoint t

  -- The count is taken also where the encoder or the transport fails.
  unfoldable pub send_heartbeat :
      SequenceNumber → ReaderProxy → ReliableWriter → S → Option WriterError × ReliableWriter × S
  send_heartbeat sequence_number reader writer t =
      let heartbeat = heartbeat_for sequence_number reader writer in
      let (failure, t') =
        sent (encode_heartbeat_message writer.message_header heartbeat little) reader.endpoint t in
      (failure, record writer { heartbeat_count = heartbeat.count }, t')

  abbrev pub heartbeat_after :
      CacheChange
      → ReaderProxy
      → ReliableWriter
      → Option WriterError × S
      → Option WriterError × ReliableWriter × S
  heartbeat_after change reader writer (some e, t) = (some e, writer, t)
  heartbeat_after change reader writer (none, t) =
      send_heartbeat change.sequence_number reader writer t

  -- `!send_change(...) || !send_heartbeat(...)`
  unfoldable pub transmit :
      CacheChange → ReaderProxy → ReliableWriter → S → Option WriterError × ReliableWriter × S
  transmit change reader writer t =
      heartbeat_after change reader writer (send_change change reader writer t)
