-- ===== src/Discovery/ParameterList.antt =====
-- discovery/ParameterList.h and ParameterList.cpp: the parameter lists of discovery messages.
pub mod Fields
pub mod RoundTrip
use mini_dds.Prelude.{
  ℕ, zero, suc, ◌+◌, ◌-◌, ◌*◌, ◌/◌, ◌%◌, ◌^◌, bit_or, List, [], ◌∷◌, ◌++◌, length, get_or, take,
  drop, replicate, find_if, Bool, not, ◌||◌, ltb, ◌==◌, if◌then◌else◌, Option, Result, ok, err,
}
use mini_dds.Cdr.Writer.{Endianness, big, little, u8}

abbrev pub parameter_id_pad : ℕ
parameter_id_pad = 0x0000

abbrev pub parameter_id_sentinel : ℕ
parameter_id_sentinel = 0x0001

abbrev pub representation_pl_cdr_big_endian : ℕ
representation_pl_cdr_big_endian = 0x0002

abbrev pub representation_pl_cdr_little_endian : ℕ
representation_pl_cdr_little_endian = 0x0003

pub record Parameter : Type 0 where
  pub id : ℕ
  pub value : List ℕ

abbrev pub ParameterList : Type 0
ParameterList = List Parameter

-- One constructor for each error text.
pub data ParameterError : Type 0 where
  sentinel_given value_too_large : ParameterError
  too_short unsupported_representation nonzero_sentinel truncated_value no_sentinel : ParameterError

-- The two bytes that `append_uint16` appends.
unfoldable pub uint16_bytes : ℕ → Endianness → List ℕ
uint16_bytes value little = u8 value ∷ u8 (value / 2 ^ 8) ∷ []
uint16_bytes value big = u8 (value / 2 ^ 8) ∷ u8 value ∷ []

unfoldable pub read_uint16 : List ℕ → Endianness → ℕ
read_uint16 bytes little = bit_or (get_or bytes 0 0) (get_or bytes 1 0 * 2 ^ 8) % 2 ^ 16
read_uint16 bytes big = bit_or (get_or bytes 0 0 * 2 ^ 8) (get_or bytes 1 0) % 2 ^ 16

-- `(size + 3) & ~3` clears the two lowest bits.
abbrev pub aligned_size : ℕ → ℕ
aligned_size size = (size + 3) / 4 * 4

abbrev representation_of : Endianness → ℕ
representation_of little = representation_pl_cdr_little_endian
representation_of big = representation_pl_cdr_big_endian

-- The four bytes at the front.
abbrev pub encapsulation : Endianness → List ℕ
encapsulation e = u8 (representation_of e / 2 ^ 8) ∷ u8 (representation_of e) ∷ 0x00 ∷ 0x00 ∷ []

-- What one round of the loop of the encoder appends.
abbrev pub parameter_bytes : Endianness → Parameter → List ℕ
parameter_bytes e parameter =
    let wire_size = aligned_size (length parameter.value) in
    uint16_bytes parameter.id e
    ++ (uint16_bytes (wire_size % 2 ^ 16) e
        ++ (parameter.value ++ replicate (wire_size - length parameter.value) 0x00))

unfoldable pub encode_parameters :
    ParameterList → Endianness → List ℕ → Result ParameterError (List ℕ)
encode_parameters [] e payload =
    ok (payload ++ (uint16_bytes parameter_id_sentinel e ++ uint16_bytes 0 e))
encode_parameters (parameter ∷ parameters) e payload =
    let rest = encode_parameters parameters e (payload ++ parameter_bytes e parameter) in
    if parameter.id == parameter_id_sentinel
    then err sentinel_given
    else if ltb (2 ^ 16 - 1) (aligned_size (length parameter.value))
    then err value_too_large
    else rest

unfoldable pub encode_parameter_list : ParameterList → Endianness → Result ParameterError (List ℕ)
encode_parameter_list parameters e = encode_parameters parameters e (encapsulation e)

-- The loop of the decoder, on the bytes from `offset` on. Each round takes four bytes at least.
unfoldable pub decode_parameters :
    (fuel : ℕ) → List ℕ → Endianness → ParameterList → Result ParameterError ParameterList
decode_parameters zero bytes e parameters = err no_sentinel
decode_parameters (suc fuel) bytes e parameters =
    let id = read_uint16 bytes e in
    let size = read_uint16 (drop 2 bytes) e in
    let behind = drop 4 bytes in
    let parameter : Parameter = record { id = id; value = take size behind } in
    let rest =
      decode_parameters fuel (drop size behind) e
        (if not (id == parameter_id_pad) then parameters ++ parameter ∷ [] else parameters) in
    if ltb (length bytes) 4
    then err no_sentinel
    else if id == parameter_id_sentinel
    then (if not (size == 0) then err nonzero_sentinel else ok parameters)
    else if not (size % 4 == 0) || ltb (length behind) size
    then err truncated_value
    else rest

abbrev pub with_endianness :
    Endianness
    → Result ParameterError ParameterList
    → Result ParameterError (ParameterList × Endianness)
with_endianness e (ok parameters) = ok (parameters, e)
with_endianness e (err x) = err x

abbrev decode_body : Endianness → List ℕ → Result ParameterError (ParameterList × Endianness)
decode_body e payload = with_endianness e (decode_parameters (length payload) (drop 4 payload) e [])

unfoldable pub decode_parameter_list : List ℕ → Result ParameterError (ParameterList × Endianness)
decode_parameter_list payload =
    let representation = bit_or (get_or payload 0 0 * 2 ^ 8) (get_or payload 1 0) % 2 ^ 16 in
    if ltb (length payload) 8
    then err too_short
    else if representation == representation_pl_cdr_little_endian
    then decode_body little payload
    else if representation == representation_pl_cdr_big_endian
    then decode_body big payload
    else err unsupported_representation

-- `nullptr` is `none`.
unfoldable pub find_parameter : ParameterList → ℕ → Option Parameter
find_parameter parameters id = find_if (λ (parameter : Parameter). parameter.id == id) parameters
