-- ===== src/Rtps/Data/FixedFields.antt =====
-- The fixed fields of a DATA submessage, as `decode_data_submessage` of rtps/Data.cpp reads them.
use mini_dds.Prelude.{ℕ, List, Option}
use mini_dds.Cdr.Writer.{Endianness}
use mini_dds.Cdr.Reader.{Read, ◌>>=◌, pure, new_reader, read_uint16, read_int32, read_uint32}
use mini_dds.Rtps.Types.{EntityId}
use mini_dds.Rtps.Codec.{read_entity_id}

pub record Fixed : Type 0 where
  pub extra_flags : ℕ
  pub octets_to_inline_qos : ℕ
  pub reader_id : EntityId
  pub writer_id : EntityId
  pub high : ℕ
  pub low : ℕ

unfoldable pub fixed_fields : Read Fixed
fixed_fields = do
  extra_flags ← read_uint16
  octets_to_inline_qos ← read_uint16
  reader_id ← read_entity_id
  writer_id ← read_entity_id
  high ← read_int32
  low ← read_uint32
  pure (record {
    extra_flags = extra_flags;
    octets_to_inline_qos = octets_to_inline_qos;
    reader_id = reader_id;
    writer_id = writer_id;
    high = high;
    low = low;
  })

unfoldable pub read_fixed : List ℕ → Endianness → Option Fixed
read_fixed content endianness = (fixed_fields (new_reader content endianness)).0
