-- ===== src/Rtps/Message.antt =====
-- rtps/Message.h and Message.cpp: the headers of a message and of a submessage.
-- A decoder takes the bytes from its pointer on, as many as its size says; `none` is `false`.
pub mod RoundTrip
use mini_dds.Prelude.{
  ℕ, ◌+◌, ◌*◌, ◌/◌, ◌%◌, ◌^◌, bit_and, bit_or, List, [], ◌∷◌, ◌++◌, length, get_or, take, drop,
  Bool, not, ◌||◌, ltb, ◌==◌, bytes_eq, if◌then◌else◌, Option, none, some,
}
use mini_dds.Cdr.Writer.{u8}
use mini_dds.Rtps.Types.{ProtocolVersion, VendorId, GuidPrefix}

-- "RTPS"
abbrev pub protocol_magic : List ℕ
protocol_magic = b'R' ∷ b'T' ∷ b'P' ∷ b'S' ∷ []

abbrev pub message_header_size : ℕ
message_header_size = 20

abbrev pub submessage_header_size : ℕ
submessage_header_size = 4

pub record MessageHeader : Type 0 where
  pub version : ProtocolVersion
  pub vendor_id : VendorId
  pub guid_prefix : GuidPrefix

-- `kind` is any byte, as the cast in the decoder allows: see SubmessageKind.
pub record SubmessageHeader : Type 0 where
  pub kind : ℕ
  pub flags : ℕ
  pub size : ℕ

abbrev pub little_endian : SubmessageHeader → Bool
little_endian header = not (bit_and header.flags 0x01 == 0)

unfoldable pub encode_message_header : MessageHeader → List ℕ
encode_message_header header =
    protocol_magic
    ++ header.version.major
      ∷ header.version.minor
      ∷ get_or header.vendor_id.value 0 0
      ∷ get_or header.vendor_id.value 1 0
      ∷ header.guid_prefix.value

unfoldable pub decode_message_header : List ℕ → Option MessageHeader
decode_message_header bytes =
    if ltb (length bytes) message_header_size || not (bytes_eq (take 4 bytes) protocol_magic)
    then none
    else some (record {
      version = record { major = get_or bytes 4 0; minor = get_or bytes 5 0 };
      vendor_id = record { value = get_or bytes 6 0 ∷ get_or bytes 7 0 ∷ [] };
      guid_prefix = record { value = take 12 (drop 8 bytes) };
    })

unfoldable pub encode_submessage_header : SubmessageHeader → List ℕ
encode_submessage_header header =
    if little_endian header
    then header.kind ∷ header.flags ∷ u8 header.size ∷ u8 (header.size / 2 ^ 8) ∷ []
    else header.kind ∷ header.flags ∷ u8 (header.size / 2 ^ 8) ∷ u8 header.size ∷ []

abbrev decoded_size : Bool → ℕ → ℕ → ℕ
decoded_size little b2 b3 =
    if little then bit_or b2 (b3 * 2 ^ 8) % 2 ^ 16 else bit_or (b2 * 2 ^ 8) b3 % 2 ^ 16

unfoldable pub decode_submessage_header : List ℕ → Option SubmessageHeader
decode_submessage_header bytes =
    let flags = get_or bytes 1 0 in
    if ltb (length bytes) submessage_header_size
    then none
    else some (record {
      kind = get_or bytes 0 0;
      flags = flags;
      size = decoded_size (not (bit_and flags 0x01 == 0)) (get_or bytes 2 0) (get_or bytes 3 0);
    })
