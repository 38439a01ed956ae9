-- ===== src/Rtps/Reliability/RoundTrip/Gaps.antt =====
-- The round trip of GAP.
use mini_dds.Prelude.{
  ℕ, ◌-◌, ◌^◌, [], ◌≤◌, ◌<◌, ◌≡◌, refl, ap, ◌∙◌, arith, List, ◌++◌, length, length-append, false,
  ◌||◌, bit_and, not, ◌==◌, none, ok,
}
use mini_dds.Cdr.Writer.{Endianness, big, little, new_writer}
use mini_dds.Cdr.Written.{then-Writes, new_writer-Writes}
use mini_dds.Rtps.Types.{IsEntityId, sle64, slt64}
use mini_dds.Rtps.SubmessageKind
use mini_dds.Rtps.Codec.{endianness_flag, endianness_of}
use mini_dds.Rtps.Codec.Fields.{
  length-sequence_bytes, sequence_bytes, write_entity_id-Writes, read_entity_id-Parses,
  write_sequence_number-Writes, read_sequence_number-Parses,
}
use mini_dds.Rtps.Checked.{
  Accepts, or_else-Accepts, return-Accepts, bind-Accepts, closing-Accepts, reject_if-Accepts,
}
use mini_dds.Rtps.Reliability.Contents.{GapSubmessage, write_gap}
use mini_dds.Rtps.Reliability.Frame.{frame, decode_frame_lem}
use mini_dds.Rtps.Reliability.SequenceSet.{validate_sequence_number_set}
use mini_dds.Rtps.Reliability.RoundTrip.Sets.{
  IsSequenceSet, Valid, validate-Valid, set_bytes, length-set_bytes,
  write_sequence_number_set-Writes, read_sequence_number_set-Accepts,
}
use mini_dds.Rtps.Reliability.Gap.{
  encode_gap_submessage, gap_format, gap_fields, decode_gap_submessage,
}

-- The arrays have their sizes, and the integers their widths.
pub record IsGap (g : GapSubmessage) : Type 0 where
  pub reader : IsEntityId g.reader_id
  pub writer : IsEntityId g.writer_id
  pub start : g.gap_start.value < 2 ^ 64
  pub gaps : IsSequenceSet g.gap_list

module _ (e : Endianness) (g : GapSubmessage) (v : IsGap g) where
  content : List ℕ
  content =
      g.reader_id.value
      ++ (g.writer_id.value ++ (sequence_bytes e g.gap_start ++ set_bytes e g.gap_list))

  write_gap-bytes : (write_gap g (new_writer e)).bytes ≡ content
  unfolding write_gap content
  write_gap-bytes = new_writer-Writes e _ _ _ (
      then-Writes e 0 0 _ _ _ _ _ (write_entity_id-Writes e g.reader_id v.reader) (
        then-Writes e 0 0 _ _ _ _ _ (write_entity_id-Writes e g.writer_id v.writer) (
          then-Writes e 0 0 _ _ _ _ _ (write_sequence_number-Writes e g.gap_start)
            (write_sequence_number_set-Writes e g.gap_list))))

  -- At least 28 bytes, and at most 60.
  length-content : Valid g.gap_list → (28 ≤ length content) × (length content ≤ 60)
  unfolding content
  length-content valid =
      let (sized, few) = length-set_bytes e g.gap_list valid in
      omega (
        arith,
        v.reader,
        v.writer,
        sized,
        few,
        length-append g.reader_id.value
            (g.writer_id.value ++ (sequence_bytes e g.gap_start ++ set_bytes e g.gap_list)),
        length-append g.writer_id.value (sequence_bytes e g.gap_start ++ set_bytes e g.gap_list),
        length-append (sequence_bytes e g.gap_start) (set_bytes e g.gap_list),
        length-sequence_bytes e g.gap_start,
      )

  gap_fields-Accepts :
      (flags : ℕ)
      → validate_sequence_number_set g.gap_list ≡ none
      → (sle64 g.gap_start.value 0 || slt64 g.gap_list.bitmap_base.value g.gap_start.value) ≡ false
      → Accepts e 0 0 (gap_fields flags) content g
  unfolding gap_fields content
  gap_fields-Accepts flags valid good =
      bind-Accepts e 0 0 0 _ _ _ _ g.reader_id g
        (or_else-Accepts e 0 0 _ _ _ _ (read_entity_id-Parses e g.reader_id v.reader))
        (bind-Accepts e 0 0 0 _ _ _ _ g.writer_id g
          (or_else-Accepts e 0 0 _ _ _ _ (read_entity_id-Parses e g.writer_id v.writer))
          (bind-Accepts e 0 0 0 _ _ _ _ g.gap_start g
            (or_else-Accepts e 0 0 _ _ _ _ (read_sequence_number-Parses e g.gap_start v.start))
            (closing-Accepts e 0 0 0 _ _ _ g.gap_list g
              (read_sequence_number_set-Accepts e g.gap_list v.gaps valid)
              (reject_if-Accepts e 0 0 _ _ _ [] g good (return-Accepts e 0 g g refl)))))

flags_lem :
    (e : Endianness)
    → (bit_and (endianness_flag e) (255 - 1) ≡ 0)
      × (endianness_of (not (bit_and (endianness_flag e) 1 == 0)) ≡ e)
flags_lem little = (refl, refl)
flags_lem big = (refl, refl)

-- What a successful encoder has checked, and what it returns.
encode_gap_submessage-eq-ok :
    (e : Endianness) (g : GapSubmessage) (v : IsGap g) (bytes : List ℕ)
    → encode_gap_submessage g e ≡ ok bytes
    → (validate_sequence_number_set g.gap_list ≡ none)
      × ((sle64 g.gap_start.value 0 || slt64 g.gap_list.bitmap_base.value g.gap_start.value)
          ≡ false)
      × (bytes ≡ frame SubmessageKind.gap (endianness_flag e) (content e g v))
unfolding encode_gap_submessage
encode_gap_submessage-eq-ok e g v bytes p = ground (arith, write_gap-bytes e g v)

-- A GAP whose fields have the widths of their types and that was encoded, in either byte order, is
-- decoded to the same GAP, whatever follows it.
pub decode-encode_gap_submessage :
    (e : Endianness) (g : GapSubmessage) (bytes rest : List ℕ)
    → IsGap g
    → encode_gap_submessage g e ≡ ok bytes
    → decode_gap_submessage (bytes ++ rest) ≡ ok g
unfolding decode_gap_submessage
decode-encode_gap_submessage e g bytes rest v p =
    let (valid, good, same) = encode_gap_submessage-eq-ok e g v bytes p in
    let (supported, order) = flags_lem e in
    let (long, short) = length-content e g v (validate-Valid g.gap_list valid) in
    ap (λ (bs : List ℕ). decode_gap_submessage (bs ++ rest)) same
    ∙ decode_frame_lem gap_format gap_fields e (endianness_flag e) (content e g v) g rest long
        (omega arith) (omega arith) supported order (gap_fields-Accepts e g v _ valid good)
