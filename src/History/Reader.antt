-- ===== src/History/Reader.antt =====
-- ReaderHistory of history/History.cpp.
pub mod Distinct
pub mod Appended
use mini_dds.Prelude.{
  ℕ, max, List, [], ◌∷◌, ◌++◌, length, any_of, Bool, true, false, ◌&&◌, if◌then◌else◌, Option, none,
  some,
}
use mini_dds.Rtps.Types.{Guid, SequenceNumber, guid_eq, sequence_number_eq}
use mini_dds.History.{CacheChange, trim}

pub record ReaderHistory : Type 0 where
  pub depth : ℕ
  pub changes : List CacheChange

-- ReaderHistory(depth)
unfoldable pub new_reader_history : ℕ → ReaderHistory
new_reader_history depth = record { depth = max 1 depth; changes = [] }

-- The test of `add` and of `contains`.
abbrev pub is_change : Guid → SequenceNumber → CacheChange → Bool
is_change writer_guid sequence_number change =
    guid_eq change.writer_guid writer_guid
    && sequence_number_eq change.sequence_number sequence_number

unfoldable pub contains : Guid → SequenceNumber → ReaderHistory → Bool
contains writer_guid sequence_number h = any_of (is_change writer_guid sequence_number) h.changes

unfoldable pub add : CacheChange → ReaderHistory → Bool × ReaderHistory
add change h =
    if any_of (is_change change.writer_guid change.sequence_number) h.changes
    then (false, h)
    else (true, record h { changes = trim h.depth (h.changes ++ change ∷ []) })

abbrev pub take_front : List CacheChange → ReaderHistory → Option CacheChange × ReaderHistory
take_front [] h = (none, h)
take_front (change ∷ rest) h = (some change, record h { changes = rest })

unfoldable pub take : ReaderHistory → Option CacheChange × ReaderHistory
take h = take_front h.changes h

unfoldable pub size : ReaderHistory → ℕ
size h = length h.changes
