-- ===== src/Rtps/Reliability/RoundTrip/AckNacks.antt =====
-- The round trip of ACKNACK.
use mini_dds.Prelude.{
  ℕ, ◌-◌, ◌^◌, [], ◌≤◌, ◌<◌, ◌≡◌, refl, ap, ◌∙◌, arith, List, ◌++◌, length, length-append, Bool,
  true, false, bit_and, not, ◌==◌, none, ok,
}
use mini_dds.Cdr.Writer.{Endianness, big, little, new_writer}
use mini_dds.Cdr.Bytes.{bytes32}
use mini_dds.Cdr.RoundTrip.{read_int32-Parses, length-bytes32}
use mini_dds.Cdr.Written.{then-Writes, write_int32-Writes, new_writer-Writes}
use mini_dds.Rtps.Types.{IsEntityId, sle32}
use mini_dds.Rtps.SubmessageKind
use mini_dds.Rtps.Codec.{endianness_of}
use mini_dds.Rtps.Codec.Fields.{write_entity_id-Writes, read_entity_id-Parses}
use mini_dds.Rtps.Checked.{
  Accepts, or_else-Accepts, return-Accepts, bind-Accepts, closing-Accepts, reject_if-Accepts,
}
use mini_dds.Rtps.Reliability.Contents.{AckNackSubmessage, write_acknack}
use mini_dds.Rtps.Reliability.Frame.{frame, decode_frame_lem}
use mini_dds.Rtps.Reliability.SequenceSet.{validate_sequence_number_set}
use mini_dds.Rtps.Reliability.RoundTrip.Sets.{
  IsSequenceSet, Valid, validate-Valid, set_bytes, length-set_bytes,
  write_sequence_number_set-Writes, read_sequence_number_set-Accepts,
}
use mini_dds.Rtps.Reliability.AckNack.{
  acknack_flags, encode_acknack_submessage, acknack_format, acknack_fields,
  decode_acknack_submessage,
}

-- The arrays have their sizes, and the integers their widths.
pub record IsAckNack (a : AckNackSubmessage) : Type 0 where
  pub reader : IsEntityId a.reader_id
  pub writer : IsEntityId a.writer_id
  pub state : IsSequenceSet a.reader_state
  pub count : a.count < 2 ^ 32

module _ (e : Endianness) (a : AckNackSubmessage) (v : IsAckNack a) where
  content : List ℕ
  content =
      a.reader_id.value ++ (a.writer_id.value ++ (set_bytes e a.reader_state ++ bytes32 e a.count))

  write_acknack-bytes : (write_acknack a (new_writer e)).bytes ≡ content
  unfolding write_acknack content
  write_acknack-bytes = new_writer-Writes e _ _ _ (
      then-Writes e 0 0 _ _ _ _ _ (write_entity_id-Writes e a.reader_id v.reader) (
        then-Writes e 0 0 _ _ _ _ _ (write_entity_id-Writes e a.writer_id v.writer) (
          then-Writes e 0 0 _ _ _ _ _ (write_sequence_number_set-Writes e a.reader_state)
            (write_int32-Writes e a.count))))

  -- At least 24 bytes, and at most 56.
  length-content : Valid a.reader_state → (24 ≤ length content) × (length content ≤ 56)
  unfolding content
  length-content valid =
      let (sized, few) = length-set_bytes e a.reader_state valid in
      omega (
        arith,
        v.reader,
        v.writer,
        sized,
        few,
        length-append a.reader_id.value
            (a.writer_id.value ++ (set_bytes e a.reader_state ++ bytes32 e a.count)),
        length-append a.writer_id.value (set_bytes e a.reader_state ++ bytes32 e a.count),
        length-append (set_bytes e a.reader_state) (bytes32 e a.count),
        length-bytes32 e a.count,
      )

  acknack_fields-Accepts :
      (flags : ℕ)
      → not (bit_and flags 2 == 0) ≡ a.final_flag
      → validate_sequence_number_set a.reader_state ≡ none
      → sle32 a.count 0 ≡ false
      → Accepts e 0 0 (acknack_fields flags) content a
  unfolding acknack_fields content
  acknack_fields-Accepts flags final valid positive =
      bind-Accepts e 0 0 0 _ _ _ _ a.reader_id a
        (or_else-Accepts e 0 0 _ _ _ _ (read_entity_id-Parses e a.reader_id v.reader))
        (bind-Accepts e 0 0 0 _ _ _ _ a.writer_id a
          (or_else-Accepts e 0 0 _ _ _ _ (read_entity_id-Parses e a.writer_id v.writer))
          (bind-Accepts e 0 0 0 _ _ _ _ a.reader_state a
            (read_sequence_number_set-Accepts e a.reader_state v.state valid)
            (closing-Accepts e 0 0 0 _ _ _ a.count a
              (or_else-Accepts e 0 0 _ _ _ _ (read_int32-Parses e a.count v.count))
              (reject_if-Accepts e 0 0 _ _ _ [] a positive
                (return-Accepts e 0 _ a (λ i. record a { final_flag = final i }))))))

flags_lem :
    (e : Endianness) (final : Bool)
    → let flags = acknack_flags e final in
      (bit_and flags (255 - 3) ≡ 0)
      × (endianness_of (not (bit_and flags 1 == 0)) ≡ e)
      × (not (bit_and flags 2 == 0) ≡ final)
flags_lem little false = (refl, refl, refl)
flags_lem little true = (refl, refl, refl)
flags_lem big false = (refl, refl, refl)
flags_lem big true = (refl, refl, refl)

-- What a successful encoder has checked, and what it returns.
encode_acknack_submessage-eq-ok :
    (e : Endianness) (a : AckNackSubmessage) (v : IsAckNack a) (bytes : List ℕ)
    → encode_acknack_submessage a e ≡ ok bytes
    → (validate_sequence_number_set a.reader_state ≡ none)
      × (sle32 a.count 0 ≡ false)
      × (bytes ≡ frame SubmessageKind.acknack (acknack_flags e a.final_flag) (content e a v))
unfolding encode_acknack_submessage
encode_acknack_submessage-eq-ok e a v bytes p = ground (arith, write_acknack-bytes e a v)

-- An ACKNACK whose fields have the widths of their types and that was encoded, in either byte
-- order, is decoded to the same ACKNACK, its bitmap and its flag included, whatever follows it.
pub decode-encode_acknack_submessage :
    (e : Endianness) (a : AckNackSubmessage) (bytes rest : List ℕ)
    → IsAckNack a
    → encode_acknack_submessage a e ≡ ok bytes
    → decode_acknack_submessage (bytes ++ rest) ≡ ok a
unfolding decode_acknack_submessage
decode-encode_acknack_submessage e a bytes rest v p =
    let (valid, positive, same) = encode_acknack_submessage-eq-ok e a v bytes p in
    let (supported, order, final) = flags_lem e a.final_flag in
    let (long, short) = length-content e a v (validate-Valid a.reader_state valid) in
    ap (λ (bs : List ℕ). decode_acknack_submessage (bs ++ rest)) same
    ∙ decode_frame_lem acknack_format acknack_fields e (acknack_flags e a.final_flag)
        (content e a v) a rest long (omega arith) (omega arith) supported order
        (acknack_fields-Accepts e a v _ final valid positive)
