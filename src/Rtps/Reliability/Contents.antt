-- ===== src/Rtps/Reliability/Contents.antt =====
-- The three structures of rtps/Reliability.h, and what their encoders write behind the header.
use mini_dds.Prelude.{ℕ, Bool}
use mini_dds.Cdr.Writer.{Write, ◌>>◌, write_int32}
use mini_dds.Rtps.Types.{EntityId, SequenceNumber}
use mini_dds.Rtps.Codec.{write_entity_id, write_sequence_number}
use mini_dds.Rtps.Reliability.SequenceSet.{SequenceNumberSet, write_sequence_number_set}

pub record HeartbeatSubmessage : Type 0 where
  pub reader_id : EntityId
  pub writer_id : EntityId
  pub first_sequence_number : SequenceNumber
  pub last_sequence_number : SequenceNumber
  pub count : ℕ
  pub final_flag : Bool
  pub liveliness_flag : Bool

pub record AckNackSubmessage : Type 0 where
  pub reader_id : EntityId
  pub writer_id : EntityId
  pub reader_state : SequenceNumberSet
  pub count : ℕ
  pub final_flag : Bool

pub record GapSubmessage : Type 0 where
  pub reader_id : EntityId
  pub writer_id : EntityId
  pub gap_start : SequenceNumber
  pub gap_list : SequenceNumberSet

unfoldable pub write_heartbeat : HeartbeatSubmessage → Write
write_heartbeat heartbeat = do
  write_entity_id heartbeat.reader_id
  write_entity_id heartbeat.writer_id
  write_sequence_number heartbeat.first_sequence_number
  write_sequence_number heartbeat.last_sequence_number
  write_int32 heartbeat.count

unfoldable pub write_acknack : AckNackSubmessage → Write
write_acknack acknack = do
  write_entity_id acknack.reader_id
  write_entity_id acknack.writer_id
  write_sequence_number_set acknack.reader_state
  write_int32 acknack.count

unfoldable pub write_gap : GapSubmessage → Write
write_gap gap = do
  write_entity_id gap.reader_id
  write_entity_id gap.writer_id
  write_sequence_number gap.gap_start
  write_sequence_number_set gap.gap_list
