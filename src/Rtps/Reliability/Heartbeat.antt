-- ===== src/Rtps/Reliability/Heartbeat.antt =====
-- HEARTBEAT of rtps/Reliability.h and Reliability.cpp: its encoder and decoder.
use mini_dds.Prelude.{
  ℕ, List, bit_and, bit_or, ◌==◌, Bool, not, ◌||◌, if◌then◌else◌, Result, ok, err,
}
use mini_dds.Cdr.Writer.{Endianness, new_writer}
use mini_dds.Cdr.Reader.{read_int32}
use mini_dds.Rtps.Types.{sle64, slt64, sle32}
use mini_dds.Rtps.SubmessageKind
use mini_dds.Rtps.Message.{MessageHeader}
use mini_dds.Rtps.Codec.{
  Error, heartbeat_range_invalid, heartbeat_count_not_positive, not_heartbeat,
  unsupported_heartbeat_flags, invalid_heartbeat_fields, invalid_heartbeat_values, endianness_flag,
  read_entity_id, read_sequence_number,
}
use mini_dds.Rtps.Checked.{Checked, ◌>>=◌, ◌>>◌, return, reject_if, or_else}
use mini_dds.Rtps.Reliability.Frame.{Format, frame, decode_frame, append_submessage}
use mini_dds.Rtps.Reliability.Contents.{HeartbeatSubmessage, write_heartbeat}

abbrev pub heartbeat_flag_final : ℕ
heartbeat_flag_final = 0x02

abbrev pub heartbeat_flag_liveliness : ℕ
heartbeat_flag_liveliness = 0x04

abbrev pub heartbeat_flags : Endianness → (final liveliness : Bool) → ℕ
heartbeat_flags endianness final liveliness =
    bit_or (bit_or (endianness_flag endianness) (if final then heartbeat_flag_final else 0))
      (if liveliness then heartbeat_flag_liveliness else 0)

unfoldable pub encode_heartbeat_submessage :
    HeartbeatSubmessage → Endianness → Result Error (List ℕ)
encode_heartbeat_submessage heartbeat endianness =
    let first = heartbeat.first_sequence_number.value in
    if sle64 first 0 || slt64 heartbeat.last_sequence_number.value first
    then err heartbeat_range_invalid
    else if sle32 heartbeat.count 0
    then err heartbeat_count_not_positive
    else ok (
        frame SubmessageKind.heartbeat
          (heartbeat_flags endianness heartbeat.final_flag heartbeat.liveliness_flag)
          (write_heartbeat heartbeat (new_writer endianness)).bytes)

abbrev pub heartbeat_format : Format
heartbeat_format = record {
  kind = SubmessageKind.heartbeat;
  supported_flags = 0x07;
  minimum = 28;
  wrong_kind = not_heartbeat;
  wrong_flags = unsupported_heartbeat_flags;
}

unfoldable pub heartbeat_fields : ℕ → Checked HeartbeatSubmessage
heartbeat_fields flags = do
  reader_id ← or_else invalid_heartbeat_fields read_entity_id
  writer_id ← or_else invalid_heartbeat_fields read_entity_id
  first ← or_else invalid_heartbeat_fields read_sequence_number
  last ← or_else invalid_heartbeat_fields read_sequence_number
  count ← or_else invalid_heartbeat_fields read_int32
  reject_if (sle64 first.value 0 || slt64 last.value first.value || sle32 count 0)
      invalid_heartbeat_values
  return (record {
    reader_id = reader_id;
    writer_id = writer_id;
    first_sequence_number = first;
    last_sequence_number = last;
    count = count;
    final_flag = not (bit_and flags heartbeat_flag_final == 0);
    liveliness_flag = not (bit_and flags heartbeat_flag_liveliness == 0);
  })

unfoldable pub decode_heartbeat_submessage : List ℕ → Result Error HeartbeatSubmessage
decode_heartbeat_submessage = decode_frame heartbeat_format heartbeat_fields

unfoldable pub encode_heartbeat_message :
    MessageHeader → HeartbeatSubmessage → Endianness → Result Error (List ℕ)
encode_heartbeat_message header heartbeat endianness =
    append_submessage header (encode_heartbeat_submessage heartbeat endianness)
