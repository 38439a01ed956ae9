-- ===== src/Cdr/Payload.antt =====
-- serialization/SerializedPayload.h and SerializedPayload.cpp: a text as a serialized payload.
pub mod RoundTrip
use mini_dds.Prelude.{
  ℕ, ◌+◌, ◌*◌, ◌/◌, ◌%◌, ◌^◌, bit_or, List, [], ◌∷◌, ◌++◌, length, get_or, drop, all_of, Bool, true,
  false, not, ◌&&◌, ltb, ◌==◌, if◌then◌else◌, Option, none, some, Result, ok, err,
}
use mini_dds.Cdr.Writer.{Endianness, big, little, CdrWriter, new_writer, write_string, u8}
use mini_dds.Cdr.Reader.{CdrReader, Read, new_reader, read_string, read_bytes, remaining}

-- The texts of `error`: one constructor for each.
pub data PayloadError : Type 0 where
  shorter_than_header unsupported_representation invalid_string : PayloadError
  too_many_trailing nonzero_trailing : PayloadError

-- enum class RepresentationIdentifier
abbrev pub cdr_big_endian : ℕ
cdr_big_endian = 0x0000

abbrev pub cdr_little_endian : ℕ
cdr_little_endian = 0x0001

abbrev pub representation : Endianness → ℕ
representation little = cdr_little_endian
representation big = cdr_big_endian

abbrev pub payload_header : Endianness → List ℕ
payload_header e = u8 (representation e / 2 ^ 8) ∷ u8 (representation e) ∷ 0 ∷ 0 ∷ []

abbrev pub after_header : Endianness → Option CdrWriter → Option (List ℕ)
after_header e none = none
after_header e (some w) = some (payload_header e ++ w.bytes)

-- `none` is the `length_error` that `write_string` throws.
unfoldable pub serialize_string_payload : List ℕ → Endianness → Option (List ℕ)
serialize_string_payload value e = after_header e (write_string value (new_writer e))

unfoldable pub representation_endianness : ℕ → Option Endianness
representation_endianness representation =
    if representation == cdr_little_endian
    then some little
    else if representation == cdr_big_endian
    then some big
    else none

abbrev pub is_zero : ℕ → Bool
is_zero byte = byte == 0

abbrev pub padded : List ℕ → Option (List ℕ) → Result PayloadError (List ℕ)
padded value none = err nonzero_trailing
padded value (some padding) = if all_of is_zero padding then ok value else err nonzero_trailing

-- What follows the text: three zero bytes at most.
abbrev pub checked_trailing : Option (List ℕ) × CdrReader → Result PayloadError (List ℕ)
checked_trailing (none, r) = err invalid_string
checked_trailing (some value, r) =
    if ltb 3 (remaining r)
    then err too_many_trailing
    else padded value (read_bytes (remaining r) r).0

abbrev pub read_value : Option Endianness → List ℕ → Result PayloadError (List ℕ)
read_value none payload = err unsupported_representation
read_value (some e) payload = checked_trailing (read_string (new_reader (drop 4 payload) e))

unfoldable pub deserialize_string_payload : List ℕ → Result PayloadError (List ℕ)
deserialize_string_payload payload =
    let representation = bit_or (get_or payload 0 0 * 2 ^ 8 % 2 ^ 16) (get_or payload 1 0) in
    if ltb (length payload) 4
    then err shorter_than_header
    else read_value (representation_endianness representation) payload
