-- ===== src/Rtps/Writer.antt =====
-- ReliableWriter of rtps/ReliableEndpoint.h and ReliableEndpoint.cpp.
pub mod Acknowledge
pub mod Send
pub mod Round
pub mod Deliver
pub mod Queue
use mini_dds.Prelude.{ℕ, List, [], Bool, max, Option, none, false}
use mini_dds.Transport.{Text, Transport}
use mini_dds.Rtps.Types.{EntityId, GuidPrefix, protocol_version_default, vendor_id_default}
use mini_dds.Rtps.Codec.{Error}
use mini_dds.Rtps.Message.{MessageHeader}
use mini_dds.Rtps.Stateless.{ReaderProxy, unique_readers}
use mini_dds.History.{CacheChange}
use mini_dds.History.Writer.{WriterHistory, new_writer_history}

-- The durations are in milliseconds.
pub record ReliableWriterConfig : Type 0 where
  pub acknowledgment_timeout : ℕ
  pub heartbeat_period : ℕ
  pub max_retries : ℕ
  pub history_depth : ℕ
  pub asynchronous : Bool

abbrev pub reliable_writer_config_default : ReliableWriterConfig
reliable_writer_config_default = record {
  acknowledgment_timeout = 500;
  heartbeat_period = 100;
  max_retries = 3;
  history_depth = 16;
  asynchronous = false;
}

-- Why a delivery fails, and what is kept in `last_error_`: one constructor for each text.
pub data WriterError : Type 0 where
  refused : Error → WriterError
  transport : Text → WriterError
  stopped retry_limit : WriterError
  unacknowledged : (pending retries : ℕ) → WriterError
  no_matched_readers stopping wait_timed_out : WriterError

pub record QueuedChange : Type 0 where
  pub change : CacheChange
  pub readers : List ReaderProxy
  pub submission_id : ℕ

pub record ReliableWriter : Type 0 where
  pub message_header : MessageHeader
  pub writer_id : EntityId
  pub config : ReliableWriterConfig
  pub history : WriterHistory
  pub readers : List ReaderProxy
  pub pending_changes : List QueuedChange
  pub submitted_count : ℕ
  pub completed_count : ℕ
  pub failed_count : ℕ
  pub observed_failure_count : ℕ
  pub heartbeat_count : ℕ
  pub retransmission_count : ℕ
  pub last_error : Option WriterError

-- A duration that is not positive becomes one millisecond.
abbrev pub positive_config : ReliableWriterConfig → ReliableWriterConfig
positive_config config = record config {
  acknowledgment_timeout = max 1 config.acknowledgment_timeout;
  heartbeat_period = max 1 config.heartbeat_period;
}

-- ReliableWriter(participant_prefix, writer_id, readers, config), without its thread.
unfoldable pub new_reliable_writer :
    GuidPrefix → EntityId → List ReaderProxy → ReliableWriterConfig → ReliableWriter
new_reliable_writer participant_prefix writer_id readers config = record {
  message_header = record {
    version = protocol_version_default;
    vendor_id = vendor_id_default;
    guid_prefix = participant_prefix;
  };
  writer_id = writer_id;
  config = positive_config config;
  history =
      new_writer_history (record { prefix = participant_prefix; entity_id = writer_id })
        config.history_depth;
  readers = unique_readers readers;
  pending_changes = [];
  submitted_count = 0;
  completed_count = 0;
  failed_count = 0;
  observed_failure_count = 0;
  heartbeat_count = 0;
  retransmission_count = 0;
  last_error = none;
}

-- What surrounds the writer: its transport, the steady clock, and the flag `stopping_`, which another
-- thread may set at any time. Time is in ticks of the clock.
pub record Surroundings (S : Type 0) : Type 0 where
  pub net : Transport S
  pub now : S → ℕ × S
  pub is_stopping : S → Bool × S
  pub ticks_per_ms : ℕ
