-- ===== src/Rtps/Writer/Acknowledge.antt =====
-- What ReliableWriter makes of an ACKNACK: the helpers at the top of rtps/ReliableEndpoint.cpp.
pub mod Meaning
use mini_dds.Prelude.{
  ℕ, ◌+◌, ◌-◌, ◌%◌, ◌^◌, List, drop, length, leb, ltb, any_of, Bool, true, false, not, ◌&&◌, ◌||◌,
  ◌==◌, if◌then◌else◌, Option, none, some, Result, ok, err,
}
use mini_dds.Transport.{Endpoint, endpoint_eq}
use mini_dds.Rtps.Types.{EntityId, SequenceNumber, entity_id_eq, slt64, sle64}
use mini_dds.Rtps.SubmessageKind
use mini_dds.Rtps.Message.{
  MessageHeader, SubmessageHeader, message_header_size, decode_message_header,
  decode_submessage_header,
}
use mini_dds.Rtps.Codec.{Error}
use mini_dds.Rtps.Reliability.SequenceSet.{contains}
use mini_dds.Rtps.Reliability.Contents.{AckNackSubmessage}
use mini_dds.Rtps.Reliability.AckNack.{decode_acknack_submessage}
use mini_dds.Rtps.Outcome.{is_unknown_entity}
use mini_dds.Rtps.Stateless.{ReaderProxy}
use mini_dds.Rtps.Reader.Acks.{nonzero_word}
use mini_dds.Rtps.Reader.Receive.{targets_entity}

-- The difference of two int64_t.
abbrev pub difference64 : ℕ → ℕ → ℕ
difference64 a b = (a + 2 ^ 64 - b) % 2 ^ 64

unfoldable pub acknack_acknowledges : AckNackSubmessage → SequenceNumber → Bool
acknack_acknowledges acknack sequence_number =
    let state = acknack.reader_state in
    let offset = difference64 sequence_number.value state.bitmap_base.value in
    if slt64 sequence_number.value state.bitmap_base.value
    then true
    else sle64 0 offset && ltb offset state.num_bits && not (contains state sequence_number)

unfoldable pub acknack_has_requests : AckNackSubmessage → Bool
acknack_has_requests acknack = any_of nonzero_word acknack.reader_state.bitmap

unfoldable pub acknack_matches_reader : AckNackSubmessage → Endpoint → ReaderProxy → Bool
acknack_matches_reader acknack source reader =
    endpoint_eq source reader.endpoint
    && (is_unknown_entity reader.reader_id || targets_entity acknack.reader_id reader.reader_id)

-- The ACKNACK for this writer that a datagram carries, if it carries one.
abbrev for_writer : EntityId → Result Error AckNackSubmessage → Option AckNackSubmessage
for_writer writer_id (err e) = none
for_writer writer_id (ok acknack) =
    if not (entity_id_eq acknack.writer_id writer_id) || is_unknown_entity acknack.reader_id
    then none
    else some acknack

abbrev of_submessage : EntityId → Option SubmessageHeader → List ℕ → Option AckNackSubmessage
of_submessage writer_id none submessage = none
of_submessage writer_id (some header) submessage =
    if not (header.kind == SubmessageKind.acknack)
    then none
    else for_writer writer_id (decode_acknack_submessage submessage)

abbrev of_message : EntityId → Option MessageHeader → List ℕ → Option AckNackSubmessage
of_message writer_id none payload = none
of_message writer_id (some header) payload =
    let submessage = drop message_header_size payload in
    if not (header.version.major == 2) || leb (length payload) message_header_size
    then none
    else of_submessage writer_id (decode_submessage_header submessage) submessage

unfoldable pub acknack_of : EntityId → List ℕ → Option AckNackSubmessage
acknack_of writer_id payload = of_message writer_id (decode_message_header payload) payload
