-- ===== src/Rtps/Codec.antt =====
-- What the codecs of src/rtps/Data.cpp and src/rtps/Reliability.cpp share: their errors, one
-- constructor for each text, and the helpers of the two anonymous namespaces, which are the same
-- code twice.
pub mod Fields
use mini_dds.Prelude.{
  ℕ, ◌+◌, ◌*◌, ◌/◌, ◌%◌, ◌^◌, ◌≡◌, List, length, bit_or, bit_and, Bool, not, ◌==◌, if◌then◌else◌,
}
use mini_dds.Cdr.Writer.{
  Endianness, big, little, Write, ◌>>◌, write_bytes, write_int32, write_uint32,
}
use mini_dds.Cdr.Reader.{Read, ◌>>=◌, pure, read_bytes, read_int32, read_uint32}
use mini_dds.Rtps.Types.{EntityId, SequenceNumber}

pub data Error : Type 0 where
  truncated_submessage_header invalid_message_header no_submessage : Error
  sequence_number_not_positive data_too_large not_data unsupported_data_key_flags : Error
  unsupported_inline_qos truncated_data_content invalid_data_fields : Error
  unsupported_data_extra_flags invalid_octets_to_inline_qos octets_exceed_content : Error
  bitmap_base_not_positive too_many_bits bitmap_size_mismatch bits_beyond_num_bits : Error
  truncated_set truncated_bitmap truncated_reliability : Error
  heartbeat_range_invalid heartbeat_count_not_positive not_heartbeat : Error
  unsupported_heartbeat_flags invalid_heartbeat_fields invalid_heartbeat_values : Error
  acknack_count_not_positive not_acknack unsupported_acknack_flags invalid_acknack_fields : Error
  gap_range_invalid not_gap unsupported_gap_flags invalid_gap_fields : Error

-- `static_cast<std::int32_t>(bits >> 32)`, as a pattern.
unfoldable pub sequence_high : SequenceNumber → ℕ
sequence_high sequence_number = sequence_number.value / 2 ^ 32 % 2 ^ 32

unfoldable pub sequence_low : SequenceNumber → ℕ
sequence_low sequence_number = sequence_number.value % 2 ^ 32

unfoldable pub make_sequence_number : (high low : ℕ) → SequenceNumber
make_sequence_number high low = record { value = bit_or (high % 2 ^ 32 * 2 ^ 32 % 2 ^ 64) low }

unfoldable pub write_entity_id : EntityId → Write
write_entity_id entity_id = write_bytes entity_id.value

-- The array takes the four bytes that were read.
unfoldable pub read_entity_id : Read EntityId
read_entity_id = do bytes ← read_bytes 4; pure (record { value = bytes })

unfoldable pub write_sequence_number : SequenceNumber → Write
write_sequence_number sequence_number = do
  write_int32 (sequence_high sequence_number)
  write_uint32 (sequence_low sequence_number)

unfoldable pub read_sequence_number : Read SequenceNumber
read_sequence_number = do high ← read_int32; low ← read_uint32; pure (make_sequence_number high low)

abbrev pub endianness_flag : Endianness → ℕ
endianness_flag little = 0x01
endianness_flag big = 0x00

-- `header.little_endian() ? little : big`
abbrev pub endianness_of : Bool → Endianness
endianness_of little_endian = if little_endian then little else big
