-- ===== src/Rtps/Types.antt =====
-- rtps/Types.h. An array of bytes is the list of its bytes. A signed integer is its bit pattern:
-- an `int64_t` is a number below 2 ^ 64, and a pattern from 2 ^ 63 on stands for a negative value.
use mini_dds.Prelude.{
  ℕ, ◌+◌, ◌-◌, ◌%◌, ◌^◌, ◌<◌, ◌≡◌, ◌↔◌, arith, List, [], ◌∷◌, length, Bool, true, false, ◌&&◌, ltb,
  leb, ◌==◌, bytes_eq, bytes_eq_iff,
}

pub record ProtocolVersion : Type 0 where
  pub major : ℕ
  pub minor : ℕ

pub record VendorId : Type 0 where
  pub value : List ℕ

pub record GuidPrefix : Type 0 where
  pub value : List ℕ

pub record EntityId : Type 0 where
  pub value : List ℕ

pub record Guid : Type 0 where
  pub prefix : GuidPrefix
  pub entity_id : EntityId

pub record SequenceNumber : Type 0 where
  pub value : ℕ

abbrev pub vendor_id_default : VendorId
vendor_id_default = record { value = 0 ∷ 0 ∷ [] }

-- EntityId{}, the unknown entity.
abbrev pub entity_id_default : EntityId
entity_id_default = record { value = 0 ∷ 0 ∷ 0 ∷ 0 ∷ [] }

-- ProtocolVersion{2, 3}
abbrev pub protocol_version_default : ProtocolVersion
protocol_version_default = record { major = 2; minor = 3 }

unfoldable pub entity_id_eq : EntityId → EntityId → Bool
entity_id_eq lhs rhs = bytes_eq lhs.value rhs.value

unfoldable pub guid_prefix_eq : GuidPrefix → GuidPrefix → Bool
guid_prefix_eq lhs rhs = bytes_eq lhs.value rhs.value

unfoldable pub guid_eq : Guid → Guid → Bool
guid_eq lhs rhs = guid_prefix_eq lhs.prefix rhs.prefix && entity_id_eq lhs.entity_id rhs.entity_id

unfoldable pub sequence_number_eq : SequenceNumber → SequenceNumber → Bool
sequence_number_eq lhs rhs = lhs.value == rhs.value

pub entity_id_eq_iff : (a b : EntityId) → (entity_id_eq a b ≡ true) ↔ (a ≡ b)
unfolding entity_id_eq
entity_id_eq_iff a b = ground (arith, bytes_eq_iff a.value b.value)

pub guid_prefix_eq_iff : (a b : GuidPrefix) → (guid_prefix_eq a b ≡ true) ↔ (a ≡ b)
unfolding guid_prefix_eq
guid_prefix_eq_iff a b = ground (arith, bytes_eq_iff a.value b.value)

pub guid_eq_iff : (a b : Guid) → (guid_eq a b ≡ true) ↔ (a ≡ b)
unfolding guid_eq
guid_eq_iff a b =
    ground (arith, guid_prefix_eq_iff a.prefix b.prefix, entity_id_eq_iff a.entity_id b.entity_id)

pub sequence_number_eq_iff : (a b : SequenceNumber) → (sequence_number_eq a b ≡ true) ↔ (a ≡ b)
unfolding sequence_number_eq
sequence_number_eq_iff a b = ground arith

-- `a < b` and `a <= b` of two patterns of `bits` bits, as signed integers.
abbrev pub bias64 : ℕ → ℕ
bias64 v = (v + 2 ^ 63) % 2 ^ 64

abbrev pub bias32 : ℕ → ℕ
bias32 v = (v + 2 ^ 31) % 2 ^ 32

unfoldable pub slt64 : ℕ → ℕ → Bool
slt64 a b = ltb (bias64 a) (bias64 b)

unfoldable pub sle64 : ℕ → ℕ → Bool
sle64 a b = leb (bias64 a) (bias64 b)

unfoldable pub sle32 : ℕ → ℕ → Bool
sle32 a b = leb (bias32 a) (bias32 b)

-- INT64_MAX and INT32_MAX
abbrev pub int64_max : ℕ
int64_max = 2 ^ 63 - 1

abbrev pub int32_max : ℕ
int32_max = 2 ^ 31 - 1

-- A pattern of a positive value.
abbrev pub IsPositive64 : ℕ → Type 0
IsPositive64 v = (0 < v) × (v < 2 ^ 63)

pub slt64_lem : (a b : ℕ) → a < 2 ^ 63 → b < 2 ^ 63 → slt64 a b ≡ ltb a b
unfolding slt64
slt64_lem a b ha hb = ground arith

pub sle64_lem : (a b : ℕ) → a < 2 ^ 63 → b < 2 ^ 63 → sle64 a b ≡ leb a b
unfolding sle64
sle64_lem a b ha hb = ground arith

pub not-sle64-zero : (v : ℕ) → v < 2 ^ 64 → (sle64 v 0 ≡ false) ↔ IsPositive64 v
unfolding sle64
not-sle64-zero v h = ground arith

abbrev pub IsEntityId : EntityId → Type 0
IsEntityId id = length id.value ≡ 4
