-- ===== src/Rtps/Data.antt =====
-- rtps/Data.h and Data.cpp: the DATA submessage, and a message that holds one.
pub mod FixedFields
pub mod Encoded
pub mod RoundTrip
use mini_dds.Prelude.{
  ℕ, ◌+◌, ◌-◌, ◌%◌, ◌^◌, bit_and, bit_or, List, [], ◌∷◌, ◌++◌, length, take, drop, Bool, not, ◌||◌,
  ltb, leb, ◌==◌, if◌then◌else◌, Option, none, some, Result, ok, err,
}
use mini_dds.Cdr.Writer.{Endianness, Write, new_writer, write_uint16, write_bytes}
use mini_dds.Cdr.Writer.{◌>>◌}
use mini_dds.Rtps.Types.{EntityId, SequenceNumber, sle64}
use mini_dds.Rtps.SubmessageKind
use mini_dds.Rtps.Message.{
  MessageHeader, SubmessageHeader, little_endian, message_header_size, submessage_header_size,
  encode_message_header, decode_message_header, encode_submessage_header, decode_submessage_header,
}
use mini_dds.Rtps.Codec.{
  Error, truncated_submessage_header, invalid_message_header, no_submessage,
  sequence_number_not_positive, data_too_large, not_data, unsupported_data_key_flags,
  unsupported_inline_qos, truncated_data_content, invalid_data_fields, unsupported_data_extra_flags,
  invalid_octets_to_inline_qos, octets_exceed_content, write_entity_id, write_sequence_number,
  make_sequence_number, endianness_flag, endianness_of,
}
use FixedFields.{Fixed, read_fixed}

abbrev pub data_flag_inline_qos : ℕ
data_flag_inline_qos = 0x02

abbrev pub data_flag_data : ℕ
data_flag_data = 0x04

abbrev pub data_flag_key : ℕ
data_flag_key = 0x08

abbrev pub data_flag_non_standard_payload : ℕ
data_flag_non_standard_payload = 0x10

abbrev pub data_octets_to_inline_qos : ℕ
data_octets_to_inline_qos = 16

abbrev pub data_fixed_content_size : ℕ
data_fixed_content_size = 20

pub record DataSubmessage : Type 0 where
  pub reader_id : EntityId
  pub writer_id : EntityId
  pub writer_sequence_number : SequenceNumber
  pub serialized_payload : List ℕ

pub record DataMessage : Type 0 where
  pub header : MessageHeader
  pub submessage : DataSubmessage

unfoldable pub write_data : DataSubmessage → Write
write_data sample = do
  write_uint16 0
  write_uint16 data_octets_to_inline_qos
  write_entity_id sample.reader_id
  write_entity_id sample.writer_id
  write_sequence_number sample.writer_sequence_number
  write_bytes sample.serialized_payload

unfoldable pub encode_data_submessage : DataSubmessage → Endianness → Result Error (List ℕ)
encode_data_submessage sample endianness =
    if sle64 sample.writer_sequence_number.value 0
    then err sequence_number_not_positive
    else let content = (write_data sample (new_writer endianness)).bytes in
      if ltb (2 ^ 16 - 1) (length content)
      then err data_too_large
      else ok (
          encode_submessage_header (record {
            kind = SubmessageKind.user_data;
            flags = bit_or (endianness_flag endianness) data_flag_data;
            size = length content % 2 ^ 16;
          })
          ++ content)

-- The checks of the fixed fields, and the payload behind them.
unfoldable pub decode_data_fields : Fixed → List ℕ → Result Error DataSubmessage
decode_data_fields fixed content =
    let payload_offset = 4 + fixed.octets_to_inline_qos in
    let sequence_number = make_sequence_number fixed.high fixed.low in
    if not (fixed.extra_flags == 0)
    then err unsupported_data_extra_flags
    else if ltb fixed.octets_to_inline_qos data_octets_to_inline_qos
    then err invalid_octets_to_inline_qos
    else if ltb (length content) payload_offset
    then err octets_exceed_content
    else if sle64 sequence_number.value 0
    then err sequence_number_not_positive
    else ok (record {
      reader_id = fixed.reader_id;
      writer_id = fixed.writer_id;
      writer_sequence_number = sequence_number;
      serialized_payload = drop payload_offset content;
    })

abbrev pub or_invalid : Option Fixed → List ℕ → Result Error DataSubmessage
or_invalid none content = err invalid_data_fields
or_invalid (some fixed) content = decode_data_fields fixed content

-- `content_size`; the guard on it is the caller's.
abbrev content_size : SubmessageHeader → ℕ → ℕ
content_size header size = if header.size == 0 then size - submessage_header_size else header.size

unfoldable pub decode_data_body : SubmessageHeader → List ℕ → Result Error DataSubmessage
decode_data_body header bytes =
    let size = content_size header (length bytes) in
    let content = take size (drop submessage_header_size bytes) in
    if not (header.kind == SubmessageKind.user_data)
    then err not_data
    else if bit_and header.flags data_flag_data == 0
        || not (bit_and header.flags data_flag_key == 0)
    then err unsupported_data_key_flags
    else if not
        (bit_and header.flags (bit_or data_flag_inline_qos data_flag_non_standard_payload) == 0)
    then err unsupported_inline_qos
    else if ltb size data_fixed_content_size || ltb (length bytes) (submessage_header_size + size)
    then err truncated_data_content
    else or_invalid (read_fixed content (endianness_of (little_endian header))) content

abbrev or_truncated : Option SubmessageHeader → List ℕ → Result Error DataSubmessage
or_truncated none bytes = err truncated_submessage_header
or_truncated (some header) bytes = decode_data_body header bytes

unfoldable pub decode_data_submessage : List ℕ → Result Error DataSubmessage
decode_data_submessage bytes = or_truncated (decode_submessage_header bytes) bytes

abbrev behind_header : MessageHeader → Result Error (List ℕ) → Result Error (List ℕ)
behind_header header (err e) = err e
behind_header header (ok submessage) = ok (encode_message_header header ++ submessage)

unfoldable pub encode_data_message : DataMessage → Endianness → Result Error (List ℕ)
encode_data_message message endianness =
    behind_header message.header (encode_data_submessage message.submessage endianness)

abbrev with_header : MessageHeader → Result Error DataSubmessage → Result Error DataMessage
with_header header (err e) = err e
with_header header (ok sample) = ok (record { header = header; submessage = sample })

abbrev decode_behind : Option MessageHeader → List ℕ → Result Error DataMessage
decode_behind none bytes = err invalid_message_header
decode_behind (some header) bytes =
    if leb (length bytes) message_header_size
    then err no_submessage
    else with_header header (decode_data_submessage (drop message_header_size bytes))

unfoldable pub decode_data_message : List ℕ → Result Error DataMessage
decode_data_message bytes = decode_behind (decode_message_header bytes) bytes
