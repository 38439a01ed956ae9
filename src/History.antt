-- ===== src/History.antt =====
-- history/CacheChange.h, History.h and History.cpp: the caches of a writer and of a reader.
-- Each operation runs under the mutex of its history, so it is one step.
pub mod Writer
pub mod Reader
mod Trim
use mini_dds.Prelude.{ℕ, List}
use mini_dds.Rtps.Types.{Guid, SequenceNumber}
unfoldable pub use Trim.{trim}

pub data ChangeKind : Type 0 where
  alive not_alive_disposed : ChangeKind

pub record CacheChange : Type 0 where
  pub kind : ChangeKind
  pub writer_guid : Guid
  pub sequence_number : SequenceNumber
  pub serialized_payload : List ℕ
