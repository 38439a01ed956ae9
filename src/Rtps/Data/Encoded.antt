-- ===== src/Rtps/Data/Encoded.antt =====
-- The bytes of a DATA submessage, and what the decoder does with them.
use mini_dds.Prelude.{
  ℕ, ◌+◌, ◌%◌, ◌^◌, ◌≤◌, ◌<◌, ◌≡◌, refl, sym, ap, ◌∙◌, arith, List, ◌++◌, append_assoc, length,
  length-append, take-append, drop, drop-append, false, bit_or, le→ltb_false, Option, some, ok,
}
use mini_dds.Cdr.Writer.{Endianness, big, little, new_writer}
use mini_dds.Cdr.Reader.{CdrReader, new_reader}
use mini_dds.Cdr.Bytes.{bytes16, bytes32}
use mini_dds.Cdr.RoundTrip.{
  Parses, bind-Parses, last-Parses, read_uint16-Parses, read_uint32-Parses, read_int32-Parses,
  new_reader-Ready, length-bytes16, length-bytes32,
}
use mini_dds.Cdr.Written.{then-Writes, write_uint16-Writes, write_bytes-Writes, new_writer-Writes}
use mini_dds.Rtps.Types.{IsEntityId, sle64}
use mini_dds.Rtps.SubmessageKind
use mini_dds.Rtps.Message.{SubmessageHeader, encode_submessage_header}
use mini_dds.Rtps.Codec.{endianness_flag, sequence_high, sequence_low}
use mini_dds.Rtps.Codec.Fields.{
  write_entity_id-Writes, read_entity_id-Parses, write_sequence_number-Writes,
  make_sequence_number_halves, high-lt, low-lt,
}
use mini_dds.Rtps.Data.{
  DataSubmessage, data_flag_data, or_invalid, write_data, encode_data_submessage, decode_data_body,
  decode_data_fields,
}
use mini_dds.Rtps.Data.FixedFields.{Fixed, fixed_fields, read_fixed}

-- The arrays have their sizes and the sequence number is a 64-bit pattern.
pub record IsData (d : DataSubmessage) : Type 0 where
  pub reader : IsEntityId d.reader_id
  pub writer : IsEntityId d.writer_id
  pub word : d.writer_sequence_number.value < 2 ^ 64

module _ (e : Endianness) (d : DataSubmessage) (v : IsData d) where
  -- What stands before the payload.
  unfoldable pub fixed_bytes : List ℕ
  fixed_bytes =
      bytes16 e 0
      ++ (bytes16 e 16
          ++ (d.reader_id.value
              ++ (d.writer_id.value
                  ++ (bytes32 e (sequence_high d.writer_sequence_number)
                      ++ bytes32 e (sequence_low d.writer_sequence_number)))))

  unfoldable pub fixed_of : Fixed
  fixed_of = record {
    extra_flags = 0;
    octets_to_inline_qos = 16;
    reader_id = d.reader_id;
    writer_id = d.writer_id;
    high = sequence_high d.writer_sequence_number;
    low = sequence_low d.writer_sequence_number;
  }

  unfoldable pub content : List ℕ
  content = fixed_bytes ++ d.serialized_payload

  pub write_data-bytes : (write_data d (new_writer e)).bytes ≡ content
  unfolding write_data content fixed_bytes
  write_data-bytes =
      new_writer-Writes e _ _ _ (
        then-Writes e 0 2 _ _ _ _ _ (write_uint16-Writes e 0 2 0 refl refl) (
          then-Writes e 2 0 _ _ _ _ _ (write_uint16-Writes e 2 0 16 refl refl) (
            then-Writes e 0 0 _ _ _ _ _ (write_entity_id-Writes e d.reader_id v.reader) (
              then-Writes e 0 0 _ _ _ _ _ (write_entity_id-Writes e d.writer_id v.writer) (
                then-Writes e 0 0 _ _ _ _ _ (write_sequence_number-Writes e _)
                  (write_bytes-Writes e 0 _ d.serialized_payload refl))))))
      ∙ simp append_assoc

  fixed_fields-Parses : Parses e 0 0 fixed_fields fixed_bytes fixed_of
  unfolding fixed_fields fixed_bytes fixed_of
  fixed_fields-Parses =
      bind-Parses e 0 2 _ _ _ _ _ 0 _ (read_uint16-Parses e 0 2 0 (omega arith) refl refl) (
        bind-Parses e 2 0 _ _ _ _ _ 16 _ (read_uint16-Parses e 2 0 16 (omega arith) refl refl) (
          bind-Parses e 0 0 _ _ _ _ _ d.reader_id _ (read_entity_id-Parses e d.reader_id v.reader) (
            bind-Parses e 0 0 _ _ _ _ _ d.writer_id _ (read_entity_id-Parses e d.writer_id v.writer)
              (bind-Parses e 0 0 _ _ _ _ _ (sequence_high d.writer_sequence_number) _
                (read_int32-Parses e _ (high-lt d.writer_sequence_number))
                (last-Parses e 0 0 _ _ _ (sequence_low d.writer_sequence_number) _ refl
                  (read_uint32-Parses e _ (low-lt d.writer_sequence_number)))))))

  read_fixed_lem : (rest : List ℕ) → read_fixed (fixed_bytes ++ rest) e ≡ some fixed_of
  unfolding read_fixed
  read_fixed_lem rest =
      let (r', parsed, left) =
        fixed_fields-Parses (new_reader (fixed_bytes ++ rest) e) rest
          (new_reader-Ready e (fixed_bytes ++ rest)) in
      ap (λ (p : Option Fixed × CdrReader). p.0) parsed

  pub read_fixed-content : read_fixed content e ≡ some fixed_of
  unfolding content
  read_fixed-content = read_fixed_lem d.serialized_payload

  length-fixed_bytes : length fixed_bytes ≡ 20
  unfolding fixed_bytes
  length-fixed_bytes = simp (length-append, length-bytes16, length-bytes32, v.reader, v.writer)

  unfoldable pub header : SubmessageHeader
  header = record {
    kind = SubmessageKind.user_data;
    flags = bit_or (endianness_flag e) data_flag_data;
    size = length content % 2 ^ 16;
  }

  pub size-lt : header.size < 2 ^ 16
  unfolding header
  size-lt = omega arith

  pub length-content : length content ≡ 20 + length d.serialized_payload
  unfolding content
  length-content = omega (arith, length-append fixed_bytes d.serialized_payload, length-fixed_bytes)

  -- The fields are accepted and the payload is what follows them.
  pub decode_data_fields_lem :
      sle64 d.writer_sequence_number.value 0 ≡ false → decode_data_fields fixed_of content ≡ ok d
  unfolding decode_data_fields fixed_of content
  decode_data_fields_lem positive =
      rw
        (
          make_sequence_number_halves d.writer_sequence_number v.word,
          positive,
          le→ltb_false (length (fixed_bytes ++ d.serialized_payload)) 20 long,
        )
        (rw payload)
    where
      long : 20 ≤ length (fixed_bytes ++ d.serialized_payload)
      long = omega (arith, length-content)

      payload : drop 20 (fixed_bytes ++ d.serialized_payload) ≡ d.serialized_payload
      payload =
          ap (λ (n : ℕ). drop n (fixed_bytes ++ d.serialized_payload)) (sym length-fixed_bytes)
          ∙ drop-append fixed_bytes d.serialized_payload

-- The guards on the header and on the size let the content through.
pub decode_data_body_lem :
    (e : Endianness) (d : DataSubmessage) (v : IsData d) (bytes rest : List ℕ)
    → drop 4 bytes ≡ content e d v ++ rest
    → length bytes ≡ 4 + (length (content e d v) + length rest)
    → length (content e d v) < 2 ^ 16
    → decode_data_body (header e d v) bytes
      ≡ or_invalid (read_fixed (content e d v) e) (content e d v)
unfolding decode_data_body header
decode_data_body_lem little d v bytes rest behind total small =
    ground (arith, length-content little d v, take-append (content little d v) rest)
decode_data_body_lem big d v bytes rest behind total small =
    ground (arith, length-content big d v, take-append (content big d v) rest)

unfoldable pub encoded : (e : Endianness) (d : DataSubmessage) → IsData d → List ℕ
encoded e d v = encode_submessage_header (header e d v) ++ content e d v

-- What a successful encoder has checked, and what it returns.
pub encode_data_submessage-eq-ok :
    (e : Endianness) (d : DataSubmessage) (v : IsData d) (bytes : List ℕ)
    → encode_data_submessage d e ≡ ok bytes
    → (sle64 d.writer_sequence_number.value 0 ≡ false)
      × (length (content e d v) < 2 ^ 16)
      × (bytes ≡ encoded e d v)
unfolding encode_data_submessage encoded header
encode_data_submessage-eq-ok e d v bytes h = ground (arith, write_data-bytes e d v)
