-- ===== src/Discovery/ParameterList/Fields.antt =====
-- The parts of a parameter as bytes.
use mini_dds.Prelude.{
  ℕ, ◌-◌, ◌/◌, ◌^◌, ◌≤◌, ◌<◌, ◌≡◌, refl, arith, List, ◌++◌, length, drop, replicate, length-append,
  length-replicate,
}
use mini_dds.Prelude.Bits.{bit_or_high, bit_or_low}
use mini_dds.Cdr.Writer.{Endianness, big, little, u8}
use mini_dds.Discovery.ParameterList.{uint16_bytes, read_uint16, aligned_size}

-- A value as it stands in the message.
abbrev pub padded : List ℕ → List ℕ
padded value = value ++ replicate (aligned_size (length value) - length value) 0x00

pub read_uint16_lem :
    (v : ℕ) (e : Endianness) (rest : List ℕ)
    → v < 2 ^ 16
    → read_uint16 (uint16_bytes v e ++ rest) e ≡ v
unfolding read_uint16 uint16_bytes
read_uint16_lem v little rest h = omega (arith, bit_or_high 8 (u8 v) (u8 (v / 2 ^ 8)) (omega arith))
read_uint16_lem v big rest h = omega (arith, bit_or_low 8 (u8 (v / 2 ^ 8)) (u8 v) (omega arith))

pub drop-uint16_bytes :
    (v : ℕ) (e : Endianness) (rest : List ℕ) → drop 2 (uint16_bytes v e ++ rest) ≡ rest
unfolding uint16_bytes
drop-uint16_bytes v little rest = refl
drop-uint16_bytes v big rest = refl

pub length-uint16_bytes : (v : ℕ) (e : Endianness) → length (uint16_bytes v e) ≡ 2
unfolding uint16_bytes
length-uint16_bytes v little = omega arith
length-uint16_bytes v big = omega arith

pub length-padded : (value : List ℕ) → length (padded value) ≡ aligned_size (length value)
length-padded value = omega (
  arith,
  length-append value (replicate (aligned_size (length value) - length value) 0x00),
  length-replicate {A = ℕ} (aligned_size (length value) - length value) 0x00,
)

pub drop-4 :
    (v w : ℕ) (e : Endianness) (rest : List ℕ)
    → drop 4 (uint16_bytes v e ++ (uint16_bytes w e ++ rest)) ≡ rest
unfolding uint16_bytes
drop-4 v w little rest = refl
drop-4 v w big rest = refl

pub length-front :
    (v w : ℕ) (e : Endianness) (rest : List ℕ)
    → 4 ≤ length (uint16_bytes v e ++ (uint16_bytes w e ++ rest))
length-front v w e rest = omega (
  arith,
  length-append (uint16_bytes v e) (uint16_bytes w e ++ rest),
  length-append (uint16_bytes w e) rest,
  length-uint16_bytes v e,
  length-uint16_bytes w e,
)
