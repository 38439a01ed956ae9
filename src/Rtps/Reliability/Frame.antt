-- ===== src/Rtps/Reliability/Frame.antt =====
-- What the three encoders and the three decoders of rtps/Reliability.cpp have in common: a
-- submessage header in front of the content, and the size of the content.
use mini_dds.Prelude.{
  ℕ, ◌+◌, ◌-◌, ◌%◌, ◌^◌, ◌≤◌, ◌<◌, ◌≡◌, bit_and, List, ◌++◌, append_assoc, append-nil, [], ==_refl,
  length, take, take-append, drop, not, ◌||◌, ltb, ◌==◌, if◌then◌else◌, Option, none, some, Result,
  ok, err, arith, length-append, ap, ◌∙◌,
}
use mini_dds.Cdr.Writer.{Endianness}
use mini_dds.Cdr.Reader.{CdrReader, new_reader}
use mini_dds.Cdr.RoundTrip.{new_reader-Ready}
use mini_dds.Rtps.Message.{
  SubmessageHeader, MessageHeader, little_endian, submessage_header_size, encode_message_header,
  encode_submessage_header, decode_submessage_header,
}
use mini_dds.Rtps.Message.RoundTrip.{
  decode-encode_submessage_header, drop-encode_submessage_header, length-encode_submessage_header,
}
use mini_dds.Rtps.Codec.{Error, truncated_submessage_header, truncated_reliability, endianness_of}
use mini_dds.Rtps.Checked.{Checked, Accepts}

-- The header with the content behind it.
unfoldable pub frame : (kind flags : ℕ) → List ℕ → List ℕ
frame kind flags content =
    encode_submessage_header (record { kind = kind; flags = flags; size = length content % 2 ^ 16 })
    ++ content

-- `header.length == 0 ? size - submessage_header_size : header.length`
abbrev pub size_of_content : SubmessageHeader → ℕ → ℕ
size_of_content header size =
    if header.size == 0 then size - submessage_header_size else header.size

-- `content_size`: the size of the content, if the content is there and has at least `minimum` bytes.
unfoldable pub content_size : SubmessageHeader → (size minimum : ℕ) → Option ℕ
content_size header size minimum =
    let result = size_of_content header size in
    if ltb result minimum || ltb size (submessage_header_size + result) then none else some result

-- A kind of submessage: how a decoder tells it and what it demands.
pub record Format : Type 0 where
  pub kind : ℕ
  pub supported_flags : ℕ
  pub minimum : ℕ
  pub wrong_kind : Error
  pub wrong_flags : Error

abbrev contents : {A : Type 0} → Option ℕ → SubmessageHeader → List ℕ → Checked A → Result Error A
contents none header bytes fields = err truncated_reliability
contents (some size) header bytes fields =
    (fields (
      new_reader (take size (drop submessage_header_size bytes))
        (endianness_of (little_endian header)))).0

-- What the three decoders do before the fields; `~supported` of a byte is 255 - supported.
unfoldable pub decode_body :
    {A : Type 0} → Format → (ℕ → Checked A) → SubmessageHeader → List ℕ → Result Error A
decode_body format fields header bytes =
    if not (header.kind == format.kind)
    then err format.wrong_kind
    else if not (bit_and header.flags (255 - format.supported_flags) == 0)
    then err format.wrong_flags
    else contents (content_size header (length bytes) format.minimum) header bytes
        (fields header.flags)

abbrev or_truncated :
    {A : Type 0} → Option SubmessageHeader → (SubmessageHeader → Result Error A) → Result Error A
or_truncated none k = err truncated_submessage_header
or_truncated (some header) k = k header

-- A decoder: `fields` reads and checks the content, under the flags of the header.
unfoldable pub decode_frame : {A : Type 0} → Format → (ℕ → Checked A) → List ℕ → Result Error A
decode_frame format fields bytes =
    or_truncated (decode_submessage_header bytes) (λ header. decode_body format fields header bytes)

-- `append_submessage` behind an encoder that succeeds.
unfoldable pub append_submessage : MessageHeader → Result Error (List ℕ) → Result Error (List ℕ)
append_submessage header (err e) = err e
append_submessage header (ok submessage) = ok (encode_message_header header ++ submessage)

module _ {A : Type 0} (format : Format) (fields : ℕ → Checked A) (e : Endianness) (flags : ℕ)
    (content : List ℕ) where
  header_of : SubmessageHeader
  header_of = record { kind = format.kind; flags = flags; size = length content % 2 ^ 16 }

  content_size_lem :
      (n : ℕ)
      → format.minimum ≤ length content
      → 0 < format.minimum
      → length content < 2 ^ 16
      → 4 + length content ≤ n
      → content_size header_of n format.minimum ≡ some (length content)
  unfolding content_size header_of
  content_size_lem n long positive small room = ground arith

  size_of_content_lem :
      (n : ℕ)
      → 0 < length content
      → length content < 2 ^ 16
      → size_of_content header_of n ≡ length content
  unfolding header_of
  size_of_content_lem n positive small = ground arith

  window :
      (rest : List ℕ)
      → take (length content) (drop 4 (encode_submessage_header header_of ++ (content ++ rest)))
        ≡ content
  window rest =
      ap (take (length content)) (drop-encode_submessage_header header_of (content ++ rest))
      ∙ take-append content rest

  total :
      (rest : List ℕ)
      → 4 + length content ≤ length (encode_submessage_header header_of ++ (content ++ rest))
  total rest = omega (
    arith,
    length-append (encode_submessage_header header_of) (content ++ rest),
    length-append content rest,
    length-encode_submessage_header header_of,
  )

  size-lt : header_of.size < 2 ^ 16
  unfolding header_of
  size-lt = omega arith

  first-eq-ok :
      (a : A)
      → Accepts e 0 0 (fields flags) content a
      → (fields flags (new_reader content e)).0 ≡ ok a
  first-eq-ok a accepts =
      let (r', q, h') =
        accepts (new_reader content e) [] (rw (append-nil content) (new_reader-Ready e content)) in
      ap (λ (p : Result Error A × CdrReader). p.0) q

  contents_lem :
      (a : A) (rest : List ℕ)
      → endianness_of (not (bit_and flags 0x01 == 0)) ≡ e
      → Accepts e 0 0 (fields flags) content a
      → contents
          (some (length content))
          header_of
          (encode_submessage_header header_of ++ (content ++ rest))
          (fields flags)
        ≡ ok a
  unfolding header_of
  contents_lem a rest order accepts =
      ap
        (λ (xs : List ℕ).
          (fields flags (new_reader xs (endianness_of (little_endian header_of)))).0)
        (window rest)
      ∙ ap (λ (o : Endianness). (fields flags (new_reader content o)).0) order
      ∙ first-eq-ok a accepts

  decode_body_lem :
      (a : A) (rest : List ℕ)
      → format.minimum ≤ length content
      → 0 < format.minimum
      → length content < 2 ^ 16
      → bit_and flags (255 - format.supported_flags) ≡ 0
      → endianness_of (not (bit_and flags 0x01 == 0)) ≡ e
      → Accepts e 0 0 (fields flags) content a
      → decode_body format fields header_of
          (encode_submessage_header header_of ++ (content ++ rest))
        ≡ ok a
  unfolding decode_body header_of
  decode_body_lem a rest long positive small supported order accepts =
      rw (content_size_lem _ long positive small (total rest), contents_lem a rest order accepts)
        (unfold header_of in rw (==_refl format.kind, supported))

  -- A frame is taken apart as it was put together.
  pub decode_frame_lem :
      (a : A) (rest : List ℕ)
      → format.minimum ≤ length content
      → 0 < format.minimum
      → length content < 2 ^ 16
      → bit_and flags (255 - format.supported_flags) ≡ 0
      → endianness_of (not (bit_and flags 0x01 == 0)) ≡ e
      → Accepts e 0 0 (fields flags) content a
      → decode_frame format fields (frame format.kind flags content ++ rest) ≡ ok a
  unfolding decode_frame frame header_of
  decode_frame_lem a rest long positive small supported order accepts = rw (append_assoc) (
      ap
        (λ (o : Option SubmessageHeader). or_truncated o (λ header.
          decode_body format fields header
            (encode_submessage_header header_of ++ (content ++ rest))))
        (decode-encode_submessage_header header_of (content ++ rest) size-lt)
      ∙ decode_body_lem a rest long positive small supported order accepts)
