-- ===== src/Rtps/Reliability/SequenceSet.antt =====
-- SequenceNumberSet of rtps/Reliability.h and Reliability.cpp.
use mini_dds.Prelude.{
  ℕ, ◌+◌, ◌-◌, ◌/◌, ◌%◌, ◌^◌, bit_and, List, [], ◌∷◌, length, get_or, Bool, false, not, ◌&&◌, ltb,
  ◌==◌, if◌then◌else◌, Option, none, some,
}
use mini_dds.Cdr.Writer.{Write, ◌>>◌, write_uint32}
use mini_dds.Rtps.Types.{SequenceNumber, sle64, slt64}
use mini_dds.Rtps.Codec.{
  Error, bitmap_base_not_positive, too_many_bits, bitmap_size_mismatch, bits_beyond_num_bits,
  write_sequence_number,
}

abbrev pub sequence_number_set_max_bits : ℕ
sequence_number_set_max_bits = 256

pub record SequenceNumberSet : Type 0 where
  pub bitmap_base : SequenceNumber
  pub num_bits : ℕ
  pub bitmap : List ℕ

-- `bitmap.back()`, of a bitmap that is not empty.
abbrev pub back : List ℕ → ℕ
back xs = get_or xs (length xs - 1) 0

abbrev pub required_bitmap_words : ℕ → ℕ
required_bitmap_words num_bits = (num_bits + 31) / 32

abbrev pub beyond_num_bits : SequenceNumberSet → Bool
beyond_num_bits set =
    let remaining_bits = set.num_bits % 32 in
    not (remaining_bits == 0)
    && not (length set.bitmap == 0)
    && not (bit_and (back set.bitmap) (2 ^ (32 - remaining_bits) - 1) == 0)

-- `none` is a valid set.
unfoldable pub validate_sequence_number_set : SequenceNumberSet → Option Error
validate_sequence_number_set set =
    if sle64 set.bitmap_base.value 0
    then some bitmap_base_not_positive
    else if ltb sequence_number_set_max_bits set.num_bits
    then some too_many_bits
    else if not (length set.bitmap == required_bitmap_words set.num_bits)
    then some bitmap_size_mismatch
    else if beyond_num_bits set
    then some bits_beyond_num_bits
    else none

unfoldable pub contains : SequenceNumberSet → SequenceNumber → Bool
contains set sequence_number =
    let offset = (sequence_number.value + 2 ^ 64 - set.bitmap_base.value) % 2 ^ 64 in
    let word = offset / 32 in
    let bit = offset % 32 in
    if slt64 sequence_number.value set.bitmap_base.value
    then false
    else if not (ltb offset set.num_bits)
    then false
    else ltb word (length set.bitmap)
      && not (bit_and (get_or set.bitmap word 0) (2 ^ (31 - bit)) == 0)

unfoldable pub write_words : List ℕ → Write
write_words [] w = w
write_words (word ∷ words) w = write_words words (write_uint32 word w)

unfoldable pub write_sequence_number_set : SequenceNumberSet → Write
write_sequence_number_set set = do
  write_sequence_number set.bitmap_base
  write_uint32 set.num_bits
  write_words set.bitmap
