-- ===== src/Rtps/Data/RoundTrip.antt =====
-- The DATA codec of rtps/Data.cpp: its encoder and its decoder together.
use mini_dds.Prelude.{
  ℕ, ◌+◌, ◌-◌, ◌^◌, ◌≤◌, ◌<◌, ◌≡◌, refl, ap, ◌∙◌, arith, List, ◌++◌, append_assoc, length,
  length-append, false, Bool-cases, ltb, lt→leb_false, Result-cases, ok, err, inl, inr, ◌⊎◌, ◌↔◌,
}
use mini_dds.Cdr.Writer.{Endianness}
use mini_dds.Rtps.Types.{sle64, not-sle64-zero, IsPositive64}
use mini_dds.Rtps.Message.{MessageHeader, encode_message_header, encode_submessage_header}
use mini_dds.Rtps.Message.RoundTrip.{
  IsHeader, length-encode_message_header, decode-encode_message_header, drop-encode_message_header,
  decode-encode_submessage_header, length-encode_submessage_header, drop-encode_submessage_header,
}
use mini_dds.Rtps.Codec.{sequence_number_not_positive, data_too_large}
use mini_dds.Rtps.Data.{
  DataSubmessage, DataMessage, encode_data_message, decode_data_message, encode_data_submessage,
  decode_data_submessage,
}
use mini_dds.Rtps.Data.Encoded.{
  IsData, content, header, size-lt, length-content, write_data-bytes, read_fixed-content,
  decode_data_fields_lem, decode_data_body_lem, encoded, encode_data_submessage-eq-ok,
}

-- A DATA submessage whose fields have the widths of their types is refused for its sequence number
-- if that is not positive, else for its size if its payload has more than 65515 bytes, and is else
-- encoded to 24 bytes more than its payload has.
pub encode_data_submessage_cases :
    (e : Endianness) (d : DataSubmessage)
    → IsData d
    → ((¬ IsPositive64 d.writer_sequence_number.value)
        × (encode_data_submessage d e ≡ err sequence_number_not_positive))
      ⊎ (IsPositive64 d.writer_sequence_number.value
          × (65515 < length d.serialized_payload)
          × (encode_data_submessage d e ≡ err data_too_large))
      ⊎ (IsPositive64 d.writer_sequence_number.value
          × (length d.serialized_payload ≤ 65515)
          × ((bytes : List ℕ) × (encode_data_submessage d e ≡ ok bytes)
              × (length bytes ≡ 24 + length d.serialized_payload)))
unfolding encode_data_submessage
encode_data_submessage_cases e d v = elim (Bool-cases (sle64 d.writer_sequence_number.value 0)) [
  | inl negative ↦ inl (λ p. cc (positive_test.1 p), rw negative)
  | inr positive ↦ elim (Bool-cases (ltb (2 ^ 16 - 1) (length (content e d v)))) [
    | inl large ↦ inr (
        inl (
          positive_test.0 positive,
          ground (arith, length-content e d v),
          rw (positive, write_data-bytes e d v, large),
        ))
    | inr fits ↦ inr (
        inr (
          positive_test.0 positive,
          ground (arith, length-content e d v),
          (
            encoded e d v,
            rw (positive, write_data-bytes e d v, fits) (unfold encoded header in refl),
            length-encoded,
          ),
        ))
  ]
]
  where
    positive_test :
        (sle64 d.writer_sequence_number.value 0 ≡ false)
        ↔ IsPositive64 d.writer_sequence_number.value
    positive_test = not-sle64-zero d.writer_sequence_number.value v.word

    length-encoded : length (encoded e d v) ≡ 24 + length d.serialized_payload
    length-encoded =
        unfold encoded in
        omega (
          arith,
          length-append (encode_submessage_header (header e d v)) (content e d v),
          length-encode_submessage_header (header e d v),
          length-content e d v,
        )

length-encoded_rest :
    (e : Endianness) (d : DataSubmessage) (v : IsData d) (rest : List ℕ)
    → length (encode_submessage_header (header e d v) ++ (content e d v ++ rest))
      ≡ 4 + (length (content e d v) + length rest)
length-encoded_rest e d v rest = omega (
  arith,
  length-append (encode_submessage_header (header e d v)) (content e d v ++ rest),
  length-append (content e d v) rest,
  length-encode_submessage_header (header e d v),
)

decode-encoded :
    (e : Endianness) (d : DataSubmessage) (v : IsData d) (rest : List ℕ)
    → sle64 d.writer_sequence_number.value 0 ≡ false
    → length (content e d v) < 2 ^ 16
    → decode_data_submessage (encoded e d v ++ rest) ≡ ok d
unfolding encoded decode_data_submessage
decode-encoded e d v rest positive small =
    rw
      (
        append_assoc,
        decode-encode_submessage_header (header e d v) (content e d v ++ rest) (size-lt e d v),
      )
      (decode_data_body_lem e d v _ rest (drop-encode_submessage_header (header e d v) _)
          (length-encoded_rest e d v rest) small
        ∙ rw (read_fixed-content e d v) (decode_data_fields_lem e d v positive))

-- A DATA submessage that was encoded is decoded to the same submessage, in either byte order and
-- whatever follows it in the datagram.
pub decode-encode_data_submessage :
    (e : Endianness) (d : DataSubmessage) (bytes rest : List ℕ)
    → IsData d
    → encode_data_submessage d e ≡ ok bytes
    → decode_data_submessage (bytes ++ rest) ≡ ok d
decode-encode_data_submessage e d bytes rest v h =
    let (positive, small, same) = encode_data_submessage-eq-ok e d v bytes h in
    ap (λ (bs : List ℕ). decode_data_submessage (bs ++ rest)) same
    ∙ decode-encoded e d v rest positive small

encode_data_message-eq-ok :
    (e : Endianness) (m : DataMessage) (bytes : List ℕ)
    → encode_data_message m e ≡ ok bytes
    → (submessage : List ℕ) × (encode_data_submessage m.submessage e ≡ ok submessage)
      × (bytes ≡ encode_message_header m.header ++ submessage)
unfolding encode_data_message
encode_data_message-eq-ok e m bytes h =
    elim (Result-cases (encode_data_submessage m.submessage e)) [
      | inl (submessage, p) ↦ (submessage, p, ground (arith, p))
      | inr (x, p) ↦ ground (arith, p)
    ]

length-encode_data_submessage :
    (e : Endianness) (d : DataSubmessage) (bytes : List ℕ)
    → IsData d
    → encode_data_submessage d e ≡ ok bytes
    → 4 ≤ length bytes
unfolding encoded
length-encode_data_submessage e d bytes v h =
    let (positive, small, same) = encode_data_submessage-eq-ok e d v bytes h in
    omega (
      arith,
      ap length same,
      length-append (encode_submessage_header (header e d v)) (content e d v),
      length-encode_submessage_header (header e d v),
    )

decode_data_message_behind :
    (h : MessageHeader) (submessage : List ℕ) (d : DataSubmessage)
    → IsHeader h
    → 4 ≤ length submessage
    → decode_data_submessage submessage ≡ ok d
    → decode_data_message (encode_message_header h ++ submessage)
      ≡ ok (record { header = h; submessage = d })
unfolding decode_data_message
decode_data_message_behind h submessage d v some_bytes decoded = rw (
  decode-encode_message_header h submessage v,
  lt→leb_false (length (encode_message_header h ++ submessage)) 20 long,
  drop-encode_message_header h submessage v,
  decoded,
)
  where
    long : 20 < length (encode_message_header h ++ submessage)
    long = omega (
      arith,
      length-append (encode_message_header h) submessage,
      length-encode_message_header h v,
    )

-- A DATA message whose header and submessage have the widths of their types and that was encoded,
-- in either byte order, is decoded to the same message, whatever follows it in the datagram.
pub decode-encode_data_message :
    (e : Endianness) (m : DataMessage) (bytes rest : List ℕ)
    → IsHeader m.header
    → IsData m.submessage
    → encode_data_message m e ≡ ok bytes
    → decode_data_message (bytes ++ rest) ≡ ok m
decode-encode_data_message e m bytes rest vh vd h =
    let (submessage, encoded_as, same) = encode_data_message-eq-ok e m bytes h in
    ap (λ (bs : List ℕ). decode_data_message (bs ++ rest)) same
    ∙ ap decode_data_message (append_assoc (encode_message_header m.header) submessage rest)
    ∙ decode_data_message_behind m.header (submessage ++ rest) m.submessage vh
        (omega (
          arith,
          length-append submessage rest,
          length-encode_data_submessage e m.submessage submessage vd encoded_as,
        ))
        (decode-encode_data_submessage e m.submessage submessage rest vd encoded_as)
