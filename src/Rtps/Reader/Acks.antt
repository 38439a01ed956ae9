-- ===== src/Rtps/Reader/Acks.antt =====
-- `send_acknack` of rtps/ReliableEndpoint.cpp: the ACKNACK that answers a writer.
pub mod Bitmap
pub mod Missing
use mini_dds.Prelude.{
  ℕ, zero, suc, ◌+◌, ◌-◌, ◌*◌, ◌/◌, ◌%◌, ◌^◌, bit_or, List, [], ◌∷◌, get_or, set, replicate, any_of,
  min, Bool, true, false, not, ◌||◌, ◌==◌, if◌then◌else◌,
}
use mini_dds.Rtps.Types.{EntityId, SequenceNumber, sle64, int64_max, int32_max}
use mini_dds.Rtps.Reliability.SequenceSet.{SequenceNumberSet, sequence_number_set_max_bits}
use mini_dds.Rtps.Reliability.Contents.{AckNackSubmessage}
use mini_dds.Rtps.Reader.Sets.{member, max_key}
use mini_dds.Rtps.Reader.State.{WriterState, next64}

-- `bitmap[offset / 32] |= 1 << (31 - offset % 32)`
unfoldable pub mark : ℕ → List ℕ → List ℕ
mark offset bitmap =
    set bitmap (offset / 32) (bit_or (get_or bitmap (offset / 32) 0) (2 ^ (31 - offset % 32)))

-- The loop over the offsets, over the rounds that are left.
unfoldable pub mark_missing : (rounds offset base : ℕ) → WriterState → List ℕ → List ℕ
mark_missing zero offset base s bitmap = bitmap
mark_missing (suc rounds) offset base s bitmap =
    let sequence = (base + offset) % 2 ^ 64 in
    mark_missing rounds (offset + 1) base s (
      if member sequence s.received || member sequence s.irrelevant
      then bitmap
      else mark offset bitmap)

abbrev pub ack_base : WriterState → ℕ
ack_base s =
    if s.highest_contiguous == int64_max then s.highest_contiguous else next64 s.highest_contiguous

abbrev pub last_known : WriterState → ℕ
last_known s = max_key s.last_announced s.pending

-- How many numbers are spoken of: none where nothing beyond the contiguous range is known.
abbrev pub ack_bits : WriterState → ℕ
ack_bits s =
    if sle64 (ack_base s) (last_known s)
    then min (last_known s + 1 - ack_base s) sequence_number_set_max_bits
    else 0

unfoldable pub reader_state : WriterState → SequenceNumberSet
reader_state s =
    let base = ack_base s in
    let num_bits = ack_bits s in
    record {
      bitmap_base = record { value = base };
      num_bits = num_bits;
      bitmap = mark_missing num_bits 0 base s (replicate ((num_bits + 31) / 32) 0);
    }

-- `++acknack_count_`, from 0 again at the end of its range.
abbrev pub next_count : ℕ → ℕ
next_count count = if count == int32_max then 1 else count + 1

abbrev pub nonzero_word : ℕ → Bool
nonzero_word word = not (word == 0)

unfoldable pub make_acknack :
    (reader_id writer_id : EntityId) → (count : ℕ) → WriterState → AckNackSubmessage
make_acknack reader_id writer_id count s =
    let state = reader_state s in
    record {
      reader_id = reader_id;
      writer_id = writer_id;
      reader_state = state;
      count = count;
      final_flag = not (any_of nonzero_word state.bitmap);
    }
