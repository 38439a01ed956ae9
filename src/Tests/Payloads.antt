-- ===== src/Tests/Payloads.antt =====
-- A serialized text at a concrete input.
use mini_dds.Prelude.{ℕ, ◌≡◌, refl, arith, List, [], ◌∷◌, ◌++◌, replicate, some, ok, err}
use mini_dds.Cdr.Writer.{little}
use mini_dds.Cdr.Payload.{serialize_string_payload, deserialize_string_payload, too_many_trailing}
use mini_dds.Cdr.Payload.RoundTrip.{deserialize-serialize_string_payload}

abbrev text : List ℕ
text = b'h' ∷ b'i' ∷ []

abbrev text_payload : List ℕ
text_payload = 0 ∷ 1 ∷ 0 ∷ 0 ∷ 3 ∷ 0 ∷ 0 ∷ 0 ∷ b'h' ∷ b'i' ∷ 0 ∷ []

text_serialized : serialize_string_payload text little ≡ some text_payload
unfolding serialize_string_payload mini_dds.Cdr.Writer.write_string mini_dds.Cdr.Writer.write_uint32
    mini_dds.Cdr.Writer.write_unsigned mini_dds.Cdr.Writer.push_little mini_dds.Cdr.Writer.align
text_serialized = refl

deserialize-serialize_string_payload_example :
    deserialize_string_payload (text_payload ++ replicate 1 0) ≡ ok text
deserialize-serialize_string_payload_example =
    deserialize-serialize_string_payload little text text_payload 1 text_serialized (omega arith)

four_trailing : deserialize_string_payload (text_payload ++ replicate 4 0) ≡ err too_many_trailing
unfolding deserialize_string_payload mini_dds.Cdr.Payload.representation_endianness
    mini_dds.Cdr.Reader.read_string mini_dds.Cdr.Reader.read_uint32
    mini_dds.Cdr.Reader.read_unsigned mini_dds.Cdr.Reader.align mini_dds.Cdr.Reader.require
    mini_dds.Cdr.Reader.read_little mini_dds.Cdr.Reader.remaining
four_trailing = refl
