-- ===== src/Rtps/Outcome.antt =====
-- ReaderReceiveResult of rtps/StatelessEndpoint.h, and the helper that the two endpoint files share.
use mini_dds.Prelude.{Bool}
use mini_dds.Transport.{Text}
use mini_dds.Rtps.Types.{EntityId, entity_id_eq, entity_id_default}
use mini_dds.Rtps.Codec.{Error}

-- What a receive reports as its error, or keeps in `last_error_`.
pub data ReadError : Type 0 where
  codec : Error → ReadError
  unsupported_version : ReadError
  transport : Text → ReadError

-- ReaderReceiveResult: its status, with the error that goes with it.
pub data ReadResult : Type 0 where
  sample timeout ignored : ReadResult
  error : ReadError → ReadResult

abbrev pub is_unknown_entity : EntityId → Bool
is_unknown_entity entity_id = entity_id_eq entity_id entity_id_default
