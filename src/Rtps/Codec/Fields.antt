-- ===== src/Rtps/Codec/Fields.antt =====
-- The fields that DATA, HEARTBEAT, ACKNACK and GAP share, written and read back.
use native.Mathlib.Nat.{mod-eq_of_lt}
use mini_dds.Prelude.{
  ℕ, ◌+◌, ◌*◌, ◌/◌, ◌%◌, ◌^◌, ◌<◌, ◌≡◌, refl, arith, List, ◌++◌, length, length-append,
}
use mathlib.Core.Path.{subst}
use mini_dds.Prelude.Bits.{bit_or_low}
use mini_dds.Cdr.Writer.{Endianness}
use mini_dds.Cdr.Reader.{read_bytes}
use mini_dds.Cdr.Bytes.{bytes32}
use mini_dds.Cdr.RoundTrip.{
  length-bytes32, Parses, last-Parses, bind-Parses, read_bytes-Parses, read_int32-Parses,
  read_uint32-Parses,
}
use mini_dds.Cdr.Written.{
  Writes, then-Writes, write_bytes-Writes, write_int32-Writes, write_uint32-Writes,
}
use mini_dds.Rtps.Types.{EntityId, IsEntityId, SequenceNumber}
use mini_dds.Rtps.Codec.{
  sequence_high, sequence_low, make_sequence_number, write_entity_id, read_entity_id,
  write_sequence_number, read_sequence_number,
}

-- The two halves of a 64-bit number make it up again.
pub make_sequence_number_halves :
    (n : SequenceNumber)
    → n.value < 2 ^ 64
    → make_sequence_number (sequence_high n) (sequence_low n) ≡ n
unfolding make_sequence_number sequence_high sequence_low
make_sequence_number_halves n h =
    rw
      (
        mod-eq_of_lt fits,
        bit_or_low 32 (n.value / 2 ^ 32 % 2 ^ 32 % 2 ^ 32) (n.value % 2 ^ 32) (omega arith),
      )
      (λ i. record { value = whole i })
  where
    fits : n.value / 2 ^ 32 % 2 ^ 32 % 2 ^ 32 * 2 ^ 32 < 2 ^ 64
    fits = omega arith

    whole : n.value / 2 ^ 32 % 2 ^ 32 % 2 ^ 32 * 2 ^ 32 + n.value % 2 ^ 32 ≡ n.value
    whole = omega arith

pub write_entity_id-Writes :
    (e : Endianness) (id : EntityId) → IsEntityId id → Writes e 0 0 (write_entity_id id) id.value
unfolding write_entity_id
write_entity_id-Writes e id h = write_bytes-Writes e 0 0 id.value (omega arith)

pub read_entity_id-Parses :
    (e : Endianness) (id : EntityId) → IsEntityId id → Parses e 0 0 read_entity_id id.value id
unfolding read_entity_id
read_entity_id-Parses e id h = last-Parses e 0 0 (read_bytes 4) _ id.value id.value id refl (
    subst (λ (n : ℕ). Parses e 0 0 (read_bytes n) id.value id.value) h
      (read_bytes-Parses e 0 0 id.value (omega arith)))

-- A sequence number is its high word and its low word.
abbrev pub sequence_bytes : Endianness → SequenceNumber → List ℕ
sequence_bytes e n = bytes32 e (sequence_high n) ++ bytes32 e (sequence_low n)

pub length-sequence_bytes : (e : Endianness) (n : SequenceNumber) → length (sequence_bytes e n) ≡ 8
length-sequence_bytes e n = simp (length-append, length-bytes32)

pub high-lt : (n : SequenceNumber) → sequence_high n < 2 ^ 32
unfolding sequence_high
high-lt n = omega arith

pub low-lt : (n : SequenceNumber) → sequence_low n < 2 ^ 32
unfolding sequence_low
low-lt n = omega arith

pub write_sequence_number-Writes :
    (e : Endianness) (n : SequenceNumber)
    → Writes e 0 0 (write_sequence_number n) (sequence_bytes e n)
unfolding write_sequence_number
write_sequence_number-Writes e n =
    then-Writes e 0 0 0 _ _ _ _ (write_int32-Writes e _) (write_uint32-Writes e _)

pub read_sequence_number-Parses :
    (e : Endianness) (n : SequenceNumber)
    → n.value < 2 ^ 64
    → Parses e 0 0 read_sequence_number (sequence_bytes e n) n
unfolding read_sequence_number
read_sequence_number-Parses e n h =
    bind-Parses e 0 0 0 _ _ _ _ (sequence_high n) n
      (read_int32-Parses e (sequence_high n) (high-lt n))
      (last-Parses e 0 0 _ _ _ (sequence_low n) n (make_sequence_number_halves n h)
        (read_uint32-Parses e (sequence_low n) (low-lt n)))
