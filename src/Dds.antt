-- ===== src/Dds.antt =====
-- The entity identifiers that a participant gives out: dds/DomainParticipant.h and
-- DomainParticipant.cpp.
pub mod Allocation
use mini_dds.Prelude.{ℕ, ◌+◌, ◌/◌, ◌%◌, ◌^◌, bit_and, List, [], ◌∷◌, ◌==◌, if◌then◌else◌}
use mini_dds.Cdr.Writer.{u8}
use mini_dds.Rtps.Types.{EntityId}

-- The counters of ParticipantState, each a uint32_t.
pub record ParticipantState : Type 0 where
  pub next_writer_key : ℕ
  pub next_reader_key : ℕ

abbrev pub new_participant_state : ParticipantState
new_participant_state = record { next_writer_key = 1; next_reader_key = 1 }

-- The key without its upper byte; 0 is replaced.
abbrev pub user_key : ℕ → ℕ
user_key key = let low = bit_and key 0x00ffffff in if low == 0 then 1 else low

unfoldable pub make_user_entity_id : (key kind : ℕ) → EntityId
make_user_entity_id key kind =
    let low = user_key key in
    record { value = u8 (low / 2 ^ 16) ∷ u8 (low / 2 ^ 8) ∷ u8 low ∷ kind ∷ [] }

abbrev pub writer_kind : ℕ
writer_kind = 0x03

abbrev pub reader_kind : ℕ
reader_kind = 0x04

unfoldable pub allocate_writer_id : ParticipantState → EntityId × ParticipantState
allocate_writer_id state = (
  make_user_entity_id state.next_writer_key writer_kind,
  record state { next_writer_key = (state.next_writer_key + 1) % 2 ^ 32 },
)

unfoldable pub allocate_reader_id : ParticipantState → EntityId × ParticipantState
allocate_reader_id state = (
  make_user_entity_id state.next_reader_key reader_kind,
  record state { next_reader_key = (state.next_reader_key + 1) % 2 ^ 32 },
)
