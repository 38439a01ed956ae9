-- ===== src/History/Writer.antt =====
-- WriterHistory of history/History.cpp.
pub mod Log
use mini_dds.Prelude.{ℕ, ◌+◌, ◌%◌, ◌^◌, max, List, [], ◌∷◌, ◌++◌, length, find_if, Option}
use mini_dds.Rtps.Types.{Guid, SequenceNumber, sequence_number_eq}
use mini_dds.History.{CacheChange, alive, trim}

pub record WriterHistory : Type 0 where
  pub writer_guid : Guid
  pub depth : ℕ
  pub next_sequence_number : ℕ
  pub changes : List CacheChange

-- WriterHistory(writer_guid, depth)
unfoldable pub new_writer_history : Guid → ℕ → WriterHistory
new_writer_history writer_guid depth = record {
  writer_guid = writer_guid;
  depth = max 1 depth;
  next_sequence_number = 1;
  changes = [];
}

unfoldable pub add : List ℕ → WriterHistory → CacheChange × WriterHistory
add serialized_payload h =
    let change : CacheChange = record {
      kind = alive;
      writer_guid = h.writer_guid;
      sequence_number = record { value = h.next_sequence_number };
      serialized_payload = serialized_payload;
    } in
    (
      change,
      record h {
        next_sequence_number = (h.next_sequence_number + 1) % 2 ^ 64;
        changes = trim h.depth (h.changes ++ change ∷ []);
      },
    )

unfoldable pub find : SequenceNumber → WriterHistory → Option CacheChange
find sequence_number h =
    find_if (λ (change : CacheChange). sequence_number_eq change.sequence_number sequence_number)
      h.changes

unfoldable pub size : WriterHistory → ℕ
size h = length h.changes
