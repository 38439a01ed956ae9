-- ===== src/Rtps/Reliability/AckNack.antt =====
-- ACKNACK of rtps/Reliability.h and Reliability.cpp: its encoder and decoder.
use mini_dds.Prelude.{
  ℕ, List, bit_and, bit_or, ◌==◌, Bool, not, if◌then◌else◌, Result, ok, err, Option, none, some,
}
use mini_dds.Cdr.Writer.{Endianness, new_writer}
use mini_dds.Cdr.Reader.{read_int32}
use mini_dds.Rtps.Types.{sle32}
use mini_dds.Rtps.SubmessageKind
use mini_dds.Rtps.Message.{MessageHeader}
use mini_dds.Rtps.Codec.{
  Error, acknack_count_not_positive, not_acknack, unsupported_acknack_flags, invalid_acknack_fields,
  endianness_flag, read_entity_id,
}
use mini_dds.Rtps.Checked.{Checked, ◌>>=◌, ◌>>◌, return, reject_if, or_else}
use mini_dds.Rtps.Reliability.SequenceSet.{validate_sequence_number_set}
use mini_dds.Rtps.Reliability.ReadSet.{read_sequence_number_set}
use mini_dds.Rtps.Reliability.Frame.{Format, frame, decode_frame, append_submessage}
use mini_dds.Rtps.Reliability.Contents.{AckNackSubmessage, write_acknack}

abbrev pub acknack_flag_final : ℕ
acknack_flag_final = 0x02

abbrev pub acknack_flags : Endianness → Bool → ℕ
acknack_flags endianness final =
    bit_or (endianness_flag endianness) (if final then acknack_flag_final else 0)

abbrev pub checked_acknack : Option Error → AckNackSubmessage → Endianness → Result Error (List ℕ)
checked_acknack (some e) acknack endianness = err e
checked_acknack none acknack endianness =
    if sle32 acknack.count 0
    then err acknack_count_not_positive
    else ok (
        frame SubmessageKind.acknack (acknack_flags endianness acknack.final_flag)
          (write_acknack acknack (new_writer endianness)).bytes)

unfoldable pub encode_acknack_submessage : AckNackSubmessage → Endianness → Result Error (List ℕ)
encode_acknack_submessage acknack endianness =
    checked_acknack (validate_sequence_number_set acknack.reader_state) acknack endianness

abbrev pub acknack_format : Format
acknack_format = record {
  kind = SubmessageKind.acknack;
  supported_flags = 0x03;
  minimum = 24;
  wrong_kind = not_acknack;
  wrong_flags = unsupported_acknack_flags;
}

unfoldable pub acknack_fields : ℕ → Checked AckNackSubmessage
acknack_fields flags = do
  reader_id ← or_else invalid_acknack_fields read_entity_id
  writer_id ← or_else invalid_acknack_fields read_entity_id
  reader_state ← read_sequence_number_set
  count ← or_else invalid_acknack_fields read_int32
  reject_if (sle32 count 0) acknack_count_not_positive
  return (record {
    reader_id = reader_id;
    writer_id = writer_id;
    reader_state = reader_state;
    count = count;
    final_flag = not (bit_and flags acknack_flag_final == 0);
  })

unfoldable pub decode_acknack_submessage : List ℕ → Result Error AckNackSubmessage
decode_acknack_submessage = decode_frame acknack_format acknack_fields

unfoldable pub encode_acknack_message :
    MessageHeader → AckNackSubmessage → Endianness → Result Error (List ℕ)
encode_acknack_message header acknack endianness =
    append_submessage header (encode_acknack_submessage acknack endianness)
