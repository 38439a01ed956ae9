-- ===== src/Rtps/Reader/Receive.antt =====
-- `receive_once` of ReliableReader in rtps/ReliableEndpoint.cpp, over any transport.
pub mod States
pub mod Committed
pub mod Samples
use mini_dds.Prelude.{
  ℕ, List, [], ◌∷◌, length, drop, Bool, not, ◌||◌, leb, ◌==◌, if◌then◌else◌, Option, none, some,
  Result, ok, err,
}
use mini_dds.Cdr.Writer.{little}
use mini_dds.Transport.{Endpoint, Datagram, ReceiveResult, received, timed_out, failed, Transport}
use mini_dds.Rtps.Types.{
  EntityId, GuidPrefix, Guid, entity_id_eq, guid_eq, protocol_version_default, vendor_id_default,
}
use mini_dds.Rtps.SubmessageKind
use mini_dds.Rtps.Message.{
  MessageHeader, SubmessageHeader, message_header_size, decode_message_header,
  decode_submessage_header,
}
use mini_dds.Rtps.Codec.{Error, invalid_message_header, no_submessage, truncated_submessage_header}
use mini_dds.Rtps.Data.{DataSubmessage, decode_data_submessage}
use mini_dds.Rtps.Reliability.Contents.{HeartbeatSubmessage, GapSubmessage}
use mini_dds.Rtps.Reliability.Heartbeat.{decode_heartbeat_submessage}
use mini_dds.Rtps.Reliability.AckNack.{encode_acknack_message}
use mini_dds.Rtps.Reliability.Gap.{decode_gap_submessage}
use mini_dds.Rtps.Outcome.{
  ReadError, codec, unsupported_version, transport, ReadResult, sample, timeout, ignored, error,
  is_unknown_entity,
}
use mini_dds.History.{CacheChange, alive}
use mini_dds.History.Reader.{ReaderHistory, new_reader_history}
use mini_dds.History.Reader
use mini_dds.Rtps.Reader.State.{WriterState, new_writer_state, on_data, on_heartbeat, on_gap}
use mini_dds.Rtps.Reader.Commit.{commit_contiguous}
use mini_dds.Rtps.Reader.Acks.{make_acknack, next_count}

pub record ReliableReader : Type 0 where
  pub message_header : MessageHeader
  pub reader_id : EntityId
  pub history : ReaderHistory
  pub writer_states : List WriterState
  pub acknack_count : ℕ

-- ReliableReader(participant_prefix, reader_id, history_depth)
unfoldable pub new_reliable_reader : GuidPrefix → EntityId → ℕ → ReliableReader
new_reliable_reader participant_prefix reader_id history_depth = record {
  message_header = record {
    version = protocol_version_default;
    vendor_id = vendor_id_default;
    guid_prefix = participant_prefix;
  };
  reader_id = reader_id;
  history = new_reader_history history_depth;
  writer_states = [];
  acknack_count = 0;
}

unfoldable pub targets_entity : (target local : EntityId) → Bool
targets_entity target local = is_unknown_entity target || entity_id_eq target local

-- `writer_state`: the state of a writer, with the endpoint that it was heard from last.
unfoldable pub writer_state : Guid → Endpoint → List WriterState → WriterState
writer_state guid endpoint [] = new_writer_state guid endpoint
writer_state guid endpoint (s ∷ ss) =
    if guid_eq s.writer_guid guid
    then record s { reply_endpoint = endpoint }
    else writer_state guid endpoint ss

-- The reference that `writer_state` returns is written through: the state takes its place.
unfoldable pub store : WriterState → List WriterState → List WriterState
store s [] = s ∷ []
store s (t ∷ ts) = if guid_eq t.writer_guid s.writer_guid then s ∷ ts else t ∷ store s ts

abbrev outcome : Option ReadError → ℕ → ReadResult
outcome (some e) committed = error e
outcome none committed = if committed == 0 then ignored else sample

abbrev commit_if_initialized : WriterState → ReaderHistory → ℕ × WriterState × ReaderHistory
commit_if_initialized s history =
    if s.range_initialized then commit_contiguous s history else (0, s, history)

module _ {S : Type 0} (net : Transport S) where
  abbrev sent : Result Error (List ℕ) → Endpoint → S → Option ReadError × S
  sent (err e) endpoint t = (some (codec e), t)
  sent (ok bytes) endpoint t =
      let (done, t') = net.send bytes endpoint t in
      (if done then none else some (transport (net.last_error t')), t')

  -- `none` is success. The count is taken also where the encoder or the transport fails.
  unfoldable pub send_acknack :
      WriterState → EntityId → ReliableReader → S → Option ReadError × ReliableReader × S
  send_acknack s writer_id reader t =
      let count = next_count reader.acknack_count in
      let acknack = make_acknack reader.reader_id writer_id count s in
      let (failure, t') =
        sent (encode_acknack_message reader.message_header acknack little) s.reply_endpoint t in
      (failure, record reader { acknack_count = count }, t')

  -- After the commit, or without one: the answer, and the status.
  abbrev answer :
      EntityId
      → ReliableReader
      → S
      → ℕ × WriterState × ReaderHistory
      → ReadResult × ReliableReader × S
  answer writer_id reader t (committed, s, history) =
      let reader' = record reader {
        history = history;
        writer_states = store s reader.writer_states;
      } in
      let (failure, reader'', t') = send_acknack s writer_id reader' t in
      (outcome failure committed, reader'', t')

  unfoldable pub receive_data :
      GuidPrefix
      → Endpoint
      → Result Error DataSubmessage
      → ReliableReader
      → S
      → ReadResult × ReliableReader × S
  receive_data prefix source (err e) reader t = (error (codec e), reader, t)
  receive_data prefix source (ok d) reader t =
      let guid : Guid = record { prefix = prefix; entity_id = d.writer_id } in
      let change : CacheChange = record {
        kind = alive;
        writer_guid = guid;
        sequence_number = d.writer_sequence_number;
        serialized_payload = d.serialized_payload;
      } in
      let s =
        on_data d.writer_sequence_number.value change
          (writer_state guid source reader.writer_states) in
      if targets_entity d.reader_id reader.reader_id
      then answer d.writer_id reader t (commit_if_initialized s reader.history)
      else (ignored, reader, t)

  unfoldable pub receive_heartbeat :
      GuidPrefix
      → Endpoint
      → Result Error HeartbeatSubmessage
      → ReliableReader
      → S
      → ReadResult × ReliableReader × S
  receive_heartbeat prefix source (err e) reader t = (error (codec e), reader, t)
  receive_heartbeat prefix source (ok h) reader t =
      let guid : Guid = record { prefix = prefix; entity_id = h.writer_id } in
      let s =
        on_heartbeat h.first_sequence_number.value h.last_sequence_number.value
          (writer_state guid source reader.writer_states) in
      if targets_entity h.reader_id reader.reader_id
      then answer h.writer_id reader t (commit_contiguous s reader.history)
      else (ignored, reader, t)

  unfoldable pub receive_gap :
      GuidPrefix
      → Endpoint
      → Result Error GapSubmessage
      → ReliableReader
      → S
      → ReadResult × ReliableReader × S
  receive_gap prefix source (err e) reader t = (error (codec e), reader, t)
  receive_gap prefix source (ok g) reader t =
      let guid : Guid = record { prefix = prefix; entity_id = g.writer_id } in
      let s = on_gap g.gap_start.value g.gap_list (writer_state guid source reader.writer_states) in
      if targets_entity g.reader_id reader.reader_id
      then answer g.writer_id reader t (commit_if_initialized s reader.history)
      else (ignored, reader, t)

  abbrev dispatch :
      Option SubmessageHeader
      → MessageHeader
      → Endpoint
      → List ℕ
      → ReliableReader
      → S
      → ReadResult × ReliableReader × S
  dispatch none header source submessage reader t =
      (error (codec truncated_submessage_header), reader, t)
  dispatch (some h) header source submessage reader t =
      if h.kind == SubmessageKind.user_data
      then receive_data header.guid_prefix source (decode_data_submessage submessage) reader t
      else if h.kind == SubmessageKind.heartbeat
      then receive_heartbeat header.guid_prefix source (decode_heartbeat_submessage submessage)
          reader t
      else if h.kind == SubmessageKind.gap
      then receive_gap header.guid_prefix source (decode_gap_submessage submessage) reader t
      else (ignored, reader, t)

  abbrev message :
      Option MessageHeader → Datagram → ReliableReader → S → ReadResult × ReliableReader × S
  message none datagram reader t = (error (codec invalid_message_header), reader, t)
  message (some header) datagram reader t =
      let submessage = drop message_header_size datagram.payload in
      if not (header.version.major == 2)
      then (error unsupported_version, reader, t)
      else if leb (length datagram.payload) message_header_size
      then (error (codec no_submessage), reader, t)
      else dispatch (decode_submessage_header submessage) header datagram.source submessage reader t

  abbrev delivered : ReceiveResult × S → ReliableReader → ReadResult × ReliableReader × S
  delivered (timed_out, t) reader = (timeout, reader, t)
  delivered (failed e, t) reader = (error (transport e), reader, t)
  delivered (received datagram, t) reader =
      message (decode_message_header datagram.payload) datagram reader t

  unfoldable pub receive_once : ℕ → ReliableReader → S → ReadResult × ReliableReader × S
  receive_once timeout_ms reader t = delivered (net.receive timeout_ms t) reader

-- ReliableReader::take
unfoldable pub take : ReliableReader → Option CacheChange × ReliableReader
take reader =
    let (change, history) = Reader.take reader.history in
    (change, record reader { history = history })
