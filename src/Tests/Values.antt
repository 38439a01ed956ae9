-- ===== src/Tests/Values.antt =====
-- The inputs that the tests share.
use mini_dds.Prelude.{ℕ, List, [], ◌∷◌, refl}
use mini_dds.Transport.{Endpoint}
use mini_dds.Rtps.Types.{GuidPrefix, EntityId, Guid, protocol_version_default, vendor_id_default}
use mini_dds.Rtps.Message.{MessageHeader}
use mini_dds.Rtps.Message.RoundTrip.{IsHeader}
use mini_dds.History.{CacheChange, alive}

abbrev pub prefix_one : GuidPrefix
prefix_one = record { value = 1 ∷ 2 ∷ 3 ∷ 4 ∷ 5 ∷ 6 ∷ 7 ∷ 8 ∷ 9 ∷ 10 ∷ 11 ∷ 12 ∷ [] }

abbrev pub reader_one : EntityId
reader_one = record { value = 0 ∷ 0 ∷ 1 ∷ 7 ∷ [] }

abbrev pub writer_one : EntityId
writer_one = record { value = 0 ∷ 0 ∷ 1 ∷ 2 ∷ [] }

abbrev pub guid_one : Guid
guid_one = record { prefix = prefix_one; entity_id = writer_one }

abbrev pub header_one : MessageHeader
header_one = record {
  version = protocol_version_default;
  vendor_id = vendor_id_default;
  guid_prefix = prefix_one;
}

pub header_one-IsHeader : IsHeader header_one
header_one-IsHeader = record { vendor = refl; prefix = refl }

abbrev pub header_bytes : List ℕ
header_bytes =
    82 ∷ 84 ∷ 80 ∷ 83 ∷ 2 ∷ 3 ∷ 0 ∷ 0 ∷ 1 ∷ 2 ∷ 3 ∷ 4 ∷ 5 ∷ 6 ∷ 7 ∷ 8 ∷ 9 ∷ 10 ∷ 11 ∷ 12 ∷ []

abbrev pub address_one : Endpoint
address_one = record { address = b'a' ∷ []; port = 7411 }

abbrev pub change_one : ℕ → CacheChange
change_one n = record {
  kind = alive;
  writer_guid = guid_one;
  sequence_number = record { value = n };
  serialized_payload = 1 ∷ 2 ∷ 3 ∷ 4 ∷ [];
}
