-- ===== src/Cdr/Writer.antt =====
-- CdrWriter of serialization/Cdr.cpp.
use mini_dds.Prelude.{
  ℕ, zero, suc, ◌+◌, ◌-◌, ◌*◌, ◌/◌, ◌%◌, ◌^◌, List, [], ◌∷◌, ◌++◌, length, replicate, leb,
  if◌then◌else◌, Option, none, some,
}

pub data Endianness : Type 0 where
  big little : Endianness

pub record CdrWriter : Type 0 where
  pub endianness : Endianness
  pub bytes : List ℕ

abbrev pub u8 : ℕ → ℕ
u8 n = n % 2 ^ 8

-- CdrWriter(endianness)
abbrev pub new_writer : Endianness → CdrWriter
new_writer e = record { endianness = e; bytes = [] }

abbrev pub put : List ℕ → CdrWriter → CdrWriter
put xs w = record w { bytes = w.bytes ++ xs }

-- What `align` inserts at a size.
abbrev pub padding : ℕ → ℕ → ℕ
padding alignment size = (alignment - size % alignment) % alignment

-- One write after another.
abbrev pub Write : Type 0
Write = CdrWriter → CdrWriter

infixl 5 ◌>>◌
abbrev pub ◌>>◌ : Write → Write → Write
◌>>◌ f g w = g (f w)

unfoldable pub align : ℕ → CdrWriter → CdrWriter
align alignment w = put (replicate (padding alignment (length w.bytes)) 0) w

-- The two loops of `write_unsigned`, over the rounds that are left.
unfoldable pub push_little : (rounds index value : ℕ) → List ℕ → List ℕ
push_little zero index value bytes = bytes
push_little (suc rounds) index value bytes =
    push_little rounds (index + 1) value (bytes ++ u8 (value / 2 ^ (index * 8)) ∷ [])

unfoldable pub push_big : (rounds index count value : ℕ) → List ℕ → List ℕ
push_big zero index count value bytes = bytes
push_big (suc rounds) index count value bytes =
    push_big rounds (index + 1) count value
      (bytes ++ u8 (value / 2 ^ ((count - index - 1) * 8)) ∷ [])

abbrev push : Endianness → (count value : ℕ) → List ℕ → List ℕ
push little count value bytes = push_little count 0 value bytes
push big count value bytes = push_big count 0 count value bytes

unfoldable pub write_unsigned : (value count : ℕ) → CdrWriter → CdrWriter
write_unsigned value count w =
    let aligned = align count w in
    record aligned { bytes = push w.endianness count value aligned.bytes }

unfoldable pub write_uint8 : ℕ → CdrWriter → CdrWriter
write_uint8 value = put (value ∷ [])

unfoldable pub write_uint16 : ℕ → CdrWriter → CdrWriter
write_uint16 value = write_unsigned value 2

unfoldable pub write_uint32 : ℕ → CdrWriter → CdrWriter
write_uint32 value = write_unsigned value 4

unfoldable pub write_uint64 : ℕ → CdrWriter → CdrWriter
write_uint64 value = write_unsigned value 8

-- `static_cast<std::uint32_t>` keeps the bit pattern.
unfoldable pub write_int32 : ℕ → CdrWriter → CdrWriter
write_int32 value = write_uint32 value

unfoldable pub write_bytes : List ℕ → CdrWriter → CdrWriter
write_bytes = put

-- `none` is the `length_error` that is thrown.
unfoldable pub write_string : List ℕ → CdrWriter → Option CdrWriter
write_string value w =
    if leb (2 ^ 32 - 1) (length value)
    then none
    else some (put (0 ∷ []) (put value (write_uint32 ((length value + 1) % 2 ^ 32) w)))
