-- ===== src/Tests/Codecs.antt =====
-- The codecs at concrete messages.
use mini_dds.Prelude.{
  ℕ, ◌≡◌, refl, arith, List, [], ◌∷◌, ◌++◌, length, true, false, some, ok, err, ◌⊎◌, ◌≤◌, ◌<◌, ◌+◌,
}
use mini_dds.Cdr.Writer.{little, big}
use mini_dds.Rtps.Types.{SequenceNumber, IsPositive64}
use mini_dds.Rtps.Codec.{sequence_number_not_positive, data_too_large}
use mini_dds.Rtps.Message.{
  SubmessageHeader, encode_message_header, decode_message_header, encode_submessage_header,
  decode_submessage_header,
}
use mini_dds.Rtps.Message.RoundTrip.{decode-encode_message_header, decode-encode_submessage_header}
use mini_dds.Rtps.Data.{
  DataSubmessage, DataMessage, encode_data_submessage, decode_data_submessage, encode_data_message,
  decode_data_message,
}
use mini_dds.Rtps.Data.Encoded.{IsData}
use mini_dds.Rtps.Data.RoundTrip.{
  decode-encode_data_message, decode-encode_data_submessage, encode_data_submessage_cases,
}
use mini_dds.Rtps.Reliability.SequenceSet.{SequenceNumberSet}
use mini_dds.Rtps.Reliability.Contents.{HeartbeatSubmessage, AckNackSubmessage, GapSubmessage}
use mini_dds.Rtps.Reliability.Heartbeat.{encode_heartbeat_submessage, decode_heartbeat_submessage}
use mini_dds.Rtps.Reliability.AckNack.{encode_acknack_submessage, decode_acknack_submessage}
use mini_dds.Rtps.Reliability.Gap.{encode_gap_submessage, decode_gap_submessage}
use mini_dds.Rtps.Reliability.RoundTrip.Heartbeats.{IsHeartbeat, decode-encode_heartbeat_submessage}
use mini_dds.Rtps.Reliability.RoundTrip.AckNacks.{IsAckNack, decode-encode_acknack_submessage}
use mini_dds.Rtps.Reliability.RoundTrip.Gaps.{IsGap, decode-encode_gap_submessage}
use mini_dds.Tests.Values.{reader_one, writer_one, header_one, header_one-IsHeader, header_bytes}

abbrev data_one : DataSubmessage
data_one = record {
  reader_id = reader_one;
  writer_id = writer_one;
  writer_sequence_number = record { value = 7 };
  serialized_payload = 1 ∷ 2 ∷ 3 ∷ 4 ∷ [];
}

data_one-IsData : IsData data_one
data_one-IsData = record { reader = refl; writer = refl; word = omega arith }

abbrev data_bytes : List ℕ
data_bytes =
    21 ∷ 5 ∷ 24 ∷ 0 ∷ 0 ∷ 0 ∷ 16 ∷ 0 ∷ 0 ∷ 0 ∷ 1 ∷ 7 ∷ 0 ∷ 0 ∷ 1 ∷ 2 ∷ 0 ∷ 0 ∷ 0 ∷ 0 ∷ 7 ∷ 0 ∷ 0 ∷ 0
    ∷ 1 ∷ 2 ∷ 3 ∷ 4 ∷ []

data_encoded : encode_data_submessage data_one little ≡ ok data_bytes
unfolding encode_data_submessage mini_dds.Rtps.Types.sle64 mini_dds.Rtps.Data.write_data
    mini_dds.Cdr.Writer.write_bytes mini_dds.Rtps.Codec.write_sequence_number
    mini_dds.Cdr.Writer.write_uint32 mini_dds.Cdr.Writer.write_unsigned
    mini_dds.Cdr.Writer.write_int32 mini_dds.Cdr.Writer.align mini_dds.Rtps.Codec.write_entity_id
    mini_dds.Cdr.Writer.write_uint16 mini_dds.Cdr.Writer.push_little encode_submessage_header
    mini_dds.Rtps.Codec.sequence_high mini_dds.Rtps.Codec.sequence_low
data_encoded = refl

decode-encode_data_submessage_example : decode_data_submessage (data_bytes ++ 9 ∷ []) ≡ ok data_one
decode-encode_data_submessage_example =
    decode-encode_data_submessage little data_one data_bytes (9 ∷ []) data_one-IsData data_encoded

abbrev message_one : DataMessage
message_one = record { header = header_one; submessage = data_one }

message_encoded : encode_data_message message_one little ≡ ok (header_bytes ++ data_bytes)
unfolding encode_data_message encode_data_submessage mini_dds.Rtps.Types.sle64
    mini_dds.Rtps.Data.write_data mini_dds.Cdr.Writer.write_bytes
    mini_dds.Rtps.Codec.write_sequence_number mini_dds.Cdr.Writer.write_uint32
    mini_dds.Cdr.Writer.write_unsigned mini_dds.Cdr.Writer.write_int32 mini_dds.Cdr.Writer.align
    mini_dds.Rtps.Codec.write_entity_id mini_dds.Cdr.Writer.write_uint16
    mini_dds.Cdr.Writer.push_little encode_message_header encode_submessage_header
    mini_dds.Rtps.Codec.sequence_high mini_dds.Rtps.Codec.sequence_low
message_encoded = refl

decode-encode_data_message_example :
    decode_data_message ((header_bytes ++ data_bytes) ++ []) ≡ ok message_one
decode-encode_data_message_example =
    decode-encode_data_message little message_one (header_bytes ++ data_bytes) []
      header_one-IsHeader data_one-IsData message_encoded

encode_data_submessage_cases_example :
    ((¬ IsPositive64 7) × (encode_data_submessage data_one big ≡ err sequence_number_not_positive))
    ⊎ (IsPositive64 7 × (65515 < 4) × (encode_data_submessage data_one big ≡ err data_too_large))
    ⊎ (IsPositive64 7
        × (4 ≤ 65515)
        × ((bytes : List ℕ) × (encode_data_submessage data_one big ≡ ok bytes)
            × (length bytes ≡ 24 + 4)))
encode_data_submessage_cases_example = encode_data_submessage_cases big data_one data_one-IsData

decode-encode_message_header_example :
    decode_message_header (encode_message_header header_one ++ 1 ∷ []) ≡ some header_one
decode-encode_message_header_example =
    decode-encode_message_header header_one (1 ∷ []) header_one-IsHeader

abbrev gap_header : SubmessageHeader
gap_header = record { kind = 8; flags = 0; size = 300 }

decode-encode_submessage_header_example :
    decode_submessage_header (encode_submessage_header gap_header ++ 5 ∷ []) ≡ some gap_header
decode-encode_submessage_header_example =
    decode-encode_submessage_header gap_header (5 ∷ []) (omega arith)

abbrev heartbeat_one : HeartbeatSubmessage
heartbeat_one = record {
  reader_id = reader_one;
  writer_id = writer_one;
  first_sequence_number = record { value = 1 };
  last_sequence_number = record { value = 5 };
  count = 1;
  final_flag = true;
  liveliness_flag = false;
}

heartbeat_one-IsHeartbeat : IsHeartbeat heartbeat_one
heartbeat_one-IsHeartbeat = record {
  reader = refl;
  writer = refl;
  first = omega arith;
  last = omega arith;
  count = omega arith;
}

abbrev heartbeat_bytes : List ℕ
heartbeat_bytes =
    7 ∷ 3 ∷ 28 ∷ 0 ∷ 0 ∷ 0 ∷ 1 ∷ 7 ∷ 0 ∷ 0 ∷ 1 ∷ 2 ∷ 0 ∷ 0 ∷ 0 ∷ 0 ∷ 1 ∷ 0 ∷ 0 ∷ 0 ∷ 0 ∷ 0 ∷ 0 ∷ 0
    ∷ 5 ∷ 0 ∷ 0 ∷ 0 ∷ 1 ∷ 0 ∷ 0 ∷ 0 ∷ []

heartbeat_encoded : encode_heartbeat_submessage heartbeat_one little ≡ ok heartbeat_bytes
unfolding encode_heartbeat_submessage mini_dds.Rtps.Types.sle64 mini_dds.Rtps.Types.slt64
    mini_dds.Rtps.Types.sle32 mini_dds.Rtps.Reliability.Frame.frame encode_submessage_header
    mini_dds.Rtps.Reliability.Contents.write_heartbeat mini_dds.Cdr.Writer.write_int32
    mini_dds.Cdr.Writer.write_uint32 mini_dds.Cdr.Writer.write_unsigned
    mini_dds.Rtps.Codec.write_sequence_number mini_dds.Cdr.Writer.align
    mini_dds.Rtps.Codec.write_entity_id mini_dds.Cdr.Writer.write_bytes
    mini_dds.Cdr.Writer.push_little mini_dds.Rtps.Codec.sequence_high
    mini_dds.Rtps.Codec.sequence_low
heartbeat_encoded = refl

decode-encode_heartbeat_submessage_example :
    decode_heartbeat_submessage (heartbeat_bytes ++ []) ≡ ok heartbeat_one
decode-encode_heartbeat_submessage_example =
    decode-encode_heartbeat_submessage little heartbeat_one heartbeat_bytes []
      heartbeat_one-IsHeartbeat heartbeat_encoded

-- 3, 5 and 6 of the four numbers from 3 on.
abbrev set_one : SequenceNumberSet
set_one = record { bitmap_base = record { value = 3 }; num_bits = 4; bitmap = 2952790016 ∷ [] }

abbrev acknack_one : AckNackSubmessage
acknack_one = record {
  reader_id = reader_one;
  writer_id = writer_one;
  reader_state = set_one;
  count = 1;
  final_flag = false;
}

acknack_one-IsAckNack : IsAckNack acknack_one
acknack_one-IsAckNack = record {
  reader = refl;
  writer = refl;
  state = record { base = omega arith; words = (omega arith, tt) };
  count = omega arith;
}

abbrev acknack_bytes : List ℕ
acknack_bytes =
    6 ∷ 1 ∷ 28 ∷ 0 ∷ 0 ∷ 0 ∷ 1 ∷ 7 ∷ 0 ∷ 0 ∷ 1 ∷ 2 ∷ 0 ∷ 0 ∷ 0 ∷ 0 ∷ 3 ∷ 0 ∷ 0 ∷ 0 ∷ 4 ∷ 0 ∷ 0 ∷ 0
    ∷ 0 ∷ 0 ∷ 0 ∷ 176 ∷ 1 ∷ 0 ∷ 0 ∷ 0 ∷ []

acknack_encoded : encode_acknack_submessage acknack_one little ≡ ok acknack_bytes
unfolding encode_acknack_submessage
    mini_dds.Rtps.Reliability.SequenceSet.validate_sequence_number_set mini_dds.Rtps.Types.sle64
    mini_dds.Rtps.Types.sle32 mini_dds.Rtps.Reliability.Frame.frame encode_submessage_header
    mini_dds.Rtps.Reliability.Contents.write_acknack mini_dds.Cdr.Writer.write_int32
    mini_dds.Cdr.Writer.write_uint32 mini_dds.Cdr.Writer.write_unsigned
    mini_dds.Rtps.Reliability.SequenceSet.write_sequence_number_set
    mini_dds.Rtps.Reliability.SequenceSet.write_words mini_dds.Cdr.Writer.align
    mini_dds.Rtps.Codec.write_sequence_number mini_dds.Rtps.Codec.write_entity_id
    mini_dds.Cdr.Writer.write_bytes mini_dds.Cdr.Writer.push_little
    mini_dds.Rtps.Codec.sequence_high mini_dds.Rtps.Codec.sequence_low
acknack_encoded = refl

decode-encode_acknack_submessage_example :
    decode_acknack_submessage (acknack_bytes ++ []) ≡ ok acknack_one
decode-encode_acknack_submessage_example =
    decode-encode_acknack_submessage little acknack_one acknack_bytes [] acknack_one-IsAckNack
      acknack_encoded

abbrev gap_one : GapSubmessage
gap_one = record {
  reader_id = reader_one;
  writer_id = writer_one;
  gap_start = record { value = 2 };
  gap_list = set_one;
}

gap_one-IsGap : IsGap gap_one
gap_one-IsGap = record {
  reader = refl;
  writer = refl;
  start = omega arith;
  gaps = record { base = omega arith; words = (omega arith, tt) };
}

abbrev gap_bytes : List ℕ
gap_bytes =
    8 ∷ 1 ∷ 32 ∷ 0 ∷ 0 ∷ 0 ∷ 1 ∷ 7 ∷ 0 ∷ 0 ∷ 1 ∷ 2 ∷ 0 ∷ 0 ∷ 0 ∷ 0 ∷ 2 ∷ 0 ∷ 0 ∷ 0 ∷ 0 ∷ 0 ∷ 0 ∷ 0
    ∷ 3 ∷ 0 ∷ 0 ∷ 0 ∷ 4 ∷ 0 ∷ 0 ∷ 0 ∷ 0 ∷ 0 ∷ 0 ∷ 176 ∷ []

gap_encoded : encode_gap_submessage gap_one little ≡ ok gap_bytes
unfolding encode_gap_submessage mini_dds.Rtps.Types.sle64 mini_dds.Rtps.Types.slt64
    mini_dds.Rtps.Reliability.SequenceSet.validate_sequence_number_set
    mini_dds.Rtps.Reliability.Frame.frame encode_submessage_header
    mini_dds.Rtps.Reliability.Contents.write_gap
    mini_dds.Rtps.Reliability.SequenceSet.write_sequence_number_set
    mini_dds.Rtps.Reliability.SequenceSet.write_words mini_dds.Cdr.Writer.write_uint32
    mini_dds.Cdr.Writer.write_unsigned mini_dds.Cdr.Writer.align
    mini_dds.Rtps.Codec.write_sequence_number mini_dds.Cdr.Writer.write_int32
    mini_dds.Rtps.Codec.write_entity_id mini_dds.Cdr.Writer.write_bytes
    mini_dds.Cdr.Writer.push_little mini_dds.Rtps.Codec.sequence_high
    mini_dds.Rtps.Codec.sequence_low
gap_encoded = refl

decode-encode_gap_submessage_example : decode_gap_submessage (gap_bytes ++ []) ≡ ok gap_one
decode-encode_gap_submessage_example =
    decode-encode_gap_submessage little gap_one gap_bytes [] gap_one-IsGap gap_encoded
