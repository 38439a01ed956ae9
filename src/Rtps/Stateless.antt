-- ===== src/Rtps/Stateless.antt =====
-- rtps/StatelessEndpoint.h and StatelessEndpoint.cpp: the best-effort writer and reader, over any
-- transport.
pub mod Readers
pub mod Sample
use mini_dds.Prelude.{
  ℕ, List, [], ◌∷◌, ◌++◌, length, any_of, Bool, true, false, not, ◌&&◌, ◌==◌, if◌then◌else◌, Option,
  none, some, Result, ok, err,
}
use mini_dds.Cdr.Writer.{little}
use mini_dds.Transport.{
  Endpoint, endpoint_eq, Datagram, ReceiveResult, received, timed_out, failed, Text, Transport,
}
use mini_dds.Rtps.Types.{
  EntityId, GuidPrefix, Guid, entity_id_eq, protocol_version_default, vendor_id_default,
}
use mini_dds.Rtps.Codec.{Error}
use mini_dds.Rtps.Message.{MessageHeader}
use mini_dds.Rtps.Data.{DataMessage, encode_data_message, decode_data_message}
use mini_dds.Rtps.Outcome.{
  ReadError, codec, unsupported_version, transport, ReadResult, sample, timeout, ignored, error,
  is_unknown_entity,
}
use mini_dds.History.{CacheChange, alive}
use mini_dds.History.Writer.{WriterHistory, new_writer_history}
use mini_dds.History.Writer
use mini_dds.History.Reader.{ReaderHistory, new_reader_history}
use mini_dds.History.Reader

pub record ReaderProxy : Type 0 where
  pub endpoint : Endpoint
  pub reader_id : EntityId

unfoldable pub reader_proxy_eq : ReaderProxy → ReaderProxy → Bool
reader_proxy_eq lhs rhs =
    endpoint_eq lhs.endpoint rhs.endpoint && entity_id_eq lhs.reader_id rhs.reader_id

-- `std::find(...) != end()`
abbrev pub has_reader : ReaderProxy → List ReaderProxy → Bool
has_reader reader = any_of (λ (current : ReaderProxy). reader_proxy_eq current reader)

-- The loop of `unique_readers`.
unfoldable pub push_unique : (readers result : List ReaderProxy) → List ReaderProxy
push_unique [] result = result
push_unique (reader ∷ readers) result =
    push_unique readers (if has_reader reader result then result else result ++ reader ∷ [])

unfoldable pub unique_readers : List ReaderProxy → List ReaderProxy
unique_readers readers = push_unique readers []

-- `last_error_`: empty is `none`.
pub data WriteError : Type 0 where
  no_matched_readers : WriteError
  refused : Error → WriteError
  unsent : Text → WriteError

pub record StatelessWriter : Type 0 where
  pub message_header : MessageHeader
  pub writer_id : EntityId
  pub readers : List ReaderProxy
  pub history : WriterHistory
  pub last_error : Option WriteError

-- StatelessWriter(participant_prefix, writer_id, readers, history_depth)
unfoldable pub new_stateless_writer : GuidPrefix → EntityId → List ReaderProxy → ℕ → StatelessWriter
new_stateless_writer participant_prefix writer_id readers history_depth = record {
  message_header = record {
    version = protocol_version_default;
    vendor_id = vendor_id_default;
    guid_prefix = participant_prefix;
  };
  writer_id = writer_id;
  readers = unique_readers readers;
  history =
      new_writer_history (record { prefix = participant_prefix; entity_id = writer_id })
        history_depth;
  last_error = none;
}

unfoldable pub set_readers : List ReaderProxy → StatelessWriter → StatelessWriter
set_readers readers writer = record writer { readers = unique_readers readers }

unfoldable pub matched_reader_count : StatelessWriter → ℕ
matched_reader_count writer = length writer.readers

pub record StatelessReader : Type 0 where
  pub reader_id : EntityId
  pub history : ReaderHistory

-- StatelessReader(reader_id, history_depth)
unfoldable pub new_stateless_reader : EntityId → ℕ → StatelessReader
new_stateless_reader reader_id history_depth = record {
  reader_id = reader_id;
  history = new_reader_history history_depth;
}

-- The message that a writer sends one reader for a change.
unfoldable pub data_message : MessageHeader → EntityId → CacheChange → ReaderProxy → DataMessage
data_message header writer_id change reader = record {
  header = header;
  submessage = record {
    reader_id = reader.reader_id;
    writer_id = writer_id;
    writer_sequence_number = change.sequence_number;
    serialized_payload = change.serialized_payload;
  };
}

abbrev pub stored : Bool × ReaderHistory → StatelessReader → ReadResult × StatelessReader
stored (added, history) reader =
    (if added then sample else ignored, record reader { history = history })

-- The change that a message carries.
abbrev pub change_of : DataMessage → CacheChange
change_of message = record {
  kind = alive;
  writer_guid = record {
    prefix = message.header.guid_prefix;
    entity_id = message.submessage.writer_id;
  };
  sequence_number = message.submessage.writer_sequence_number;
  serialized_payload = message.submessage.serialized_payload;
}

-- What a reader does with a message that it has decoded.
unfoldable pub accept : Result Error DataMessage → StatelessReader → ReadResult × StatelessReader
accept (err e) reader = (error (codec e), reader)
accept (ok message) reader =
    if not (message.header.version.major == 2)
    then (error unsupported_version, reader)
    else if not (is_unknown_entity message.submessage.reader_id)
        && not (entity_id_eq message.submessage.reader_id reader.reader_id)
    then (ignored, reader)
    else stored (Reader.add (change_of message) reader.history) reader

module _ {S : Type 0} (net : Transport S) where
  abbrev sent : Result Error (List ℕ) → Endpoint → S → Option WriteError × S
  sent (err e) endpoint t = (some (refused e), t)
  sent (ok bytes) endpoint t =
      let (done, t') = net.send bytes endpoint t in
      (if done then none else some (unsent (net.last_error t')), t')

  -- The loop of `write` over the readers ends at the first that fails.
  unfoldable pub send_all :
      MessageHeader → EntityId → CacheChange → List ReaderProxy → S → Option WriteError × S
  send_all header writer_id change [] t = (none, t)
  send_all header writer_id change (reader ∷ readers) t =
      let first =
        sent (encode_data_message (data_message header writer_id change reader) little)
          reader.endpoint t in
      let rest = send_all header writer_id change readers first.1 in
      elim first.0 [ none ↦ rest | some e ↦ first ]

  abbrev succeeded : Option WriteError → Bool
  succeeded none = true
  succeeded (some e) = false

  unfoldable pub write : List ℕ → StatelessWriter → S → Bool × StatelessWriter × S
  write serialized_payload writer t =
      let (change, history) = Writer.add serialized_payload writer.history in
      let (failure, t') = send_all writer.message_header writer.writer_id change writer.readers t in
      if length writer.readers == 0
      then (false, record writer { last_error = some no_matched_readers }, t)
      else (succeeded failure, record writer { history = history; last_error = failure }, t')

  abbrev delivered : ReceiveResult × S → StatelessReader → ReadResult × StatelessReader × S
  delivered (timed_out, t) reader = (timeout, reader, t)
  delivered (failed e, t) reader = (error (transport e), reader, t)
  delivered (received datagram, t) reader =
      let (result, reader') = accept (decode_data_message datagram.payload) reader in
      (result, reader', t)

  unfoldable pub receive_once : ℕ → StatelessReader → S → ReadResult × StatelessReader × S
  receive_once timeout_ms reader t = delivered (net.receive timeout_ms t) reader

unfoldable pub take : StatelessReader → Option CacheChange × StatelessReader
take reader =
    let (change, history) = Reader.take reader.history in
    (change, record reader { history = history })
