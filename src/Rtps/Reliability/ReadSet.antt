-- ===== src/Rtps/Reliability/ReadSet.antt =====
-- `read_sequence_number_set` of rtps/Reliability.cpp.
use mini_dds.Prelude.{ℕ, zero, suc, List, [], ◌∷◌, Option, none, some, ltb, err, ok}
use mini_dds.Cdr.Reader.{read_uint32}
use mini_dds.Rtps.Types.{sle64}
use mini_dds.Rtps.Codec.{
  Error, truncated_set, truncated_bitmap, bitmap_base_not_positive, too_many_bits,
  read_sequence_number,
}
use mini_dds.Rtps.Checked.{Checked, ◌>>=◌, ◌>>◌, return, reject_if, or_else}
use mini_dds.Rtps.Reliability.SequenceSet.{
  SequenceNumberSet, required_bitmap_words, sequence_number_set_max_bits,
  validate_sequence_number_set,
}

-- The loop over the words of the bitmap.
unfoldable pub read_words : ℕ → Checked (List ℕ)
read_words zero = return []
read_words (suc n) = do
  word ← or_else truncated_bitmap read_uint32
  words ← read_words n
  return (word ∷ words)

abbrev pub validated : SequenceNumberSet → Option Error → Checked SequenceNumberSet
validated set none r = (ok set, r)
validated set (some e) r = (err e, r)

unfoldable pub read_sequence_number_set : Checked SequenceNumberSet
read_sequence_number_set = do
  bitmap_base ← or_else truncated_set read_sequence_number
  num_bits ← or_else truncated_set read_uint32
  reject_if (sle64 bitmap_base.value 0) bitmap_base_not_positive
  reject_if (ltb sequence_number_set_max_bits num_bits) too_many_bits
  bitmap ← read_words (required_bitmap_words num_bits)
  let set : SequenceNumberSet = record {
    bitmap_base = bitmap_base;
    num_bits = num_bits;
    bitmap = bitmap;
  }
  validated set (validate_sequence_number_set set)
