-- ===== src/Rtps/Reliability/Gap.antt =====
-- GAP of rtps/Reliability.h and Reliability.cpp: its encoder and decoder.
use mini_dds.Prelude.{ℕ, List, ◌||◌, if◌then◌else◌, Result, ok, err, Option, none, some}
use mini_dds.Cdr.Writer.{Endianness, new_writer}
use mini_dds.Rtps.Types.{sle64, slt64}
use mini_dds.Rtps.SubmessageKind
use mini_dds.Rtps.Message.{MessageHeader}
use mini_dds.Rtps.Codec.{
  Error, gap_range_invalid, not_gap, unsupported_gap_flags, invalid_gap_fields, endianness_flag,
  read_entity_id, read_sequence_number,
}
use mini_dds.Rtps.Checked.{Checked, ◌>>=◌, ◌>>◌, return, reject_if, or_else}
use mini_dds.Rtps.Reliability.SequenceSet.{validate_sequence_number_set}
use mini_dds.Rtps.Reliability.ReadSet.{read_sequence_number_set}
use mini_dds.Rtps.Reliability.Frame.{Format, frame, decode_frame, append_submessage}
use mini_dds.Rtps.Reliability.Contents.{GapSubmessage, write_gap}

abbrev pub checked_gap : Option Error → GapSubmessage → Endianness → Result Error (List ℕ)
checked_gap (some e) gap endianness = err e
checked_gap none gap endianness = ok (
    frame SubmessageKind.gap (endianness_flag endianness)
      (write_gap gap (new_writer endianness)).bytes)

unfoldable pub encode_gap_submessage : GapSubmessage → Endianness → Result Error (List ℕ)
encode_gap_submessage gap endianness =
    if sle64 gap.gap_start.value 0 || slt64 gap.gap_list.bitmap_base.value gap.gap_start.value
    then err gap_range_invalid
    else checked_gap (validate_sequence_number_set gap.gap_list) gap endianness

abbrev pub gap_format : Format
gap_format = record {
  kind = SubmessageKind.gap;
  supported_flags = 0x01;
  minimum = 28;
  wrong_kind = not_gap;
  wrong_flags = unsupported_gap_flags;
}

unfoldable pub gap_fields : ℕ → Checked GapSubmessage
gap_fields flags = do
  reader_id ← or_else invalid_gap_fields read_entity_id
  writer_id ← or_else invalid_gap_fields read_entity_id
  gap_start ← or_else invalid_gap_fields read_sequence_number
  gap_list ← read_sequence_number_set
  reject_if (sle64 gap_start.value 0 || slt64 gap_list.bitmap_base.value gap_start.value)
      gap_range_invalid
  return (record {
    reader_id = reader_id;
    writer_id = writer_id;
    gap_start = gap_start;
    gap_list = gap_list;
  })

unfoldable pub decode_gap_submessage : List ℕ → Result Error GapSubmessage
decode_gap_submessage = decode_frame gap_format gap_fields

unfoldable pub encode_gap_message :
    MessageHeader → GapSubmessage → Endianness → Result Error (List ℕ)
encode_gap_message header gap endianness =
    append_submessage header (encode_gap_submessage gap endianness)
