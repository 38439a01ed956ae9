-- ===== src/Cdr/Reader.antt =====
-- CdrReader of serialization/Cdr.cpp.
use mini_dds.Prelude.{
  ℕ, zero, suc, ◌+◌, ◌-◌, ◌*◌, ◌%◌, ◌^◌, bit_or, List, length, get_or, take, drop, Bool, true,
  false, ◌||◌, not, ltb, ◌==◌, if◌then◌else◌, Option, none, some,
}
use mini_dds.Cdr.Writer.{Endianness, big, little, padding}

pub record CdrReader : Type 0 where
  pub bytes : List ℕ
  pub offset : ℕ
  pub endianness : Endianness
  pub valid : Bool

-- CdrReader(data, size, endianness)
abbrev pub new_reader : List ℕ → Endianness → CdrReader
new_reader bytes e = record { bytes = bytes; offset = 0; endianness = e; valid = true }

-- A read: a value or `false`, and the reader after it.
abbrev pub Read : Type 0 → Type 0
Read A = CdrReader → Option A × CdrReader

abbrev after : {A B : Type 0} → Option A × CdrReader → (A → Read B) → Option B × CdrReader
after (none, r) f = (none, r)
after (some a, r) f = f a r

-- `&&` of two reads, and `||` of their negations: the second runs if the first succeeds.
infixl 5 ◌>>=◌ ◌>>◌
abbrev pub ◌>>=◌ : {A B : Type 0} → Read A → (A → Read B) → Read B
◌>>=◌ m f r = after (m r) f

abbrev pub ◌>>◌ : {A B : Type 0} → Read A → Read B → Read B
m >> k = m >>= λ _. k

abbrev pub pure : {A : Type 0} → A → Read A
pure a r = (some a, r)

-- `valid_ = false; return false`
abbrev pub invalidate : {A : Type 0} → Read A
invalidate r = (none, record r { valid = false })

abbrev pub advance : ℕ → CdrReader → CdrReader
advance n r = record r { offset = r.offset + n }

abbrev skip : ℕ → Read (Unit {0})
skip n r = (some tt, advance n r)

unfoldable pub require : ℕ → Read (Unit {0})
require count r =
    if not r.valid || ltb (length r.bytes - r.offset) count then invalidate r else (some tt, r)

unfoldable pub align : ℕ → Read (Unit {0})
align alignment r = let gap = padding alignment r.offset in (require gap >> skip gap) r

-- The two loops of `read_unsigned`; `at` is `data_ + offset_`.
unfoldable pub read_little : (rounds index : ℕ) → List ℕ → (at value : ℕ) → ℕ
read_little zero index bytes at value = value
read_little (suc rounds) index bytes at value =
    read_little rounds (index + 1) bytes at
      (bit_or value (get_or bytes (at + index) 0 * 2 ^ (index * 8) % 2 ^ 64))

unfoldable pub read_big : (rounds index : ℕ) → List ℕ → (at value : ℕ) → ℕ
read_big zero index bytes at value = value
read_big (suc rounds) index bytes at value =
    read_big rounds (index + 1) bytes at
      (bit_or (value * 2 ^ 8 % 2 ^ 64) (get_or bytes (at + index) 0))

abbrev pub collect : Endianness → ℕ → List ℕ → ℕ → ℕ
collect little count bytes at = read_little count 0 bytes at 0
collect big count bytes at = read_big count 0 bytes at 0

abbrev fetch : ℕ → Read ℕ
fetch count r = (some (collect r.endianness count r.bytes r.offset), advance count r)

unfoldable pub read_unsigned : ℕ → Read ℕ
read_unsigned count = align count >> require count >> fetch count

unfoldable pub read_uint8 : Read ℕ
read_uint8 = require 1 >> λ r. (some (get_or r.bytes r.offset 0), advance 1 r)

abbrev pub cast : ℕ → Read ℕ → Read ℕ
cast bits m = m >>= λ value. pure (value % 2 ^ bits)

unfoldable pub read_uint16 : Read ℕ
read_uint16 = cast 16 (read_unsigned 2)

unfoldable pub read_uint32 : Read ℕ
read_uint32 = cast 32 (read_unsigned 4)

unfoldable pub read_uint64 : Read ℕ
read_uint64 = read_unsigned 8

-- `static_cast<std::int32_t>` keeps the bit pattern.
unfoldable pub read_int32 : Read ℕ
read_int32 = read_uint32

abbrev slice : ℕ → Read (List ℕ)
slice count r = (some (take count (drop r.offset r.bytes)), advance count r)

unfoldable pub read_bytes : ℕ → Read (List ℕ)
read_bytes count = require count >> slice count

-- The last byte must be 0, and is not part of the text.
abbrev pub string_body : ℕ → Read (List ℕ)
string_body encoded_length r =
    if get_or r.bytes (r.offset + encoded_length - 1) 0 == 0
    then (some (take (encoded_length - 1) (drop r.offset r.bytes)), advance encoded_length r)
    else invalidate r

abbrev pub nonzero_length : ℕ → Read (Unit {0})
nonzero_length encoded_length r = if encoded_length == 0 then invalidate r else (some tt, r)

-- Every failure marks the reader invalid, as the failing read has done already.
unfoldable pub read_string : Read (List ℕ)
read_string = do
  encoded_length ← read_uint32
  nonzero_length encoded_length
  require encoded_length
  string_body encoded_length

unfoldable pub remaining : CdrReader → ℕ
remaining r = if r.valid then length r.bytes - r.offset else 0
