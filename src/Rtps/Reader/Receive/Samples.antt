-- ===== src/Rtps/Reader/Receive/Samples.antt =====
-- A DATA at a ReliableReader, from its decoding to the answer: `receive_once` of
-- rtps/ReliableEndpoint.cpp.
use mini_dds.Prelude.{
  ◌≤◌, ◌≡◌, ◌⊎◌, List, length, Bool, true, false, not, ◌||◌, ◌==◌, Option, none, some, All,
  if◌then◌else◌,
}
use mathlib.Core.List.{Mem}
use mini_dds.Transport.{Endpoint, Transport}
use mini_dds.Rtps.Types.{Guid, guid_eq}
use mini_dds.Rtps.Outcome.{ReadError, ReadResult, sample, ignored, error}
use mini_dds.History.{CacheChange}
use mini_dds.History.Reader.{ReaderHistory}
use mini_dds.Rtps.Reader.Sets.{member, find}
use mini_dds.Rtps.Reader.State.{WriterState}
use mini_dds.Rtps.Reader.State.Invariant.{IsWriterState}
use mini_dds.Rtps.Reader.State.Samples.{is_taken}
use mini_dds.Rtps.Reader.Commit.Deliveries.{add_changes}
use mini_dds.Rtps.Reader.Commit.Ordered.{IsRising}
use mini_dds.Rtps.Reader.Receive.{ReliableReader, writer_state, store, send_acknack}

-- What a DATA does to the state of its writer and to the history, by its change and by whether it
-- is for the reader, and what is answered.
pub record IsSampled (change : CacheChange) (targeted : Bool) (old new : WriterState)
    (before after : ReaderHistory) (failure : Option ReadError) (result : ReadResult) : Type 0 where
  pub kept : old.highest_contiguous ≤ new.highest_contiguous
  pub taken : (not targeted || is_taken change.sequence_number.value new) ≡ true
  pub given : List CacheChange
  pub added : add_changes given before ≡ after
  pub rising : IsRising change.writer_guid old.highest_contiguous new.highest_contiguous given
  pub sampled :
      (not targeted
          || is_taken change.sequence_number.value old
          || member change.sequence_number.value old.irrelevant
        ≡ true)
      ⊎ ((find change.sequence_number.value new.pending ≡ some change) ⊎ Mem change given)
  pub answered :
      ((e : ReadError) × (failure ≡ some e) × (result ≡ error e))
      ⊎ ((failure ≡ none) × (result ≡ (if length given == 0 then ignored else sample)))

module _ {S : Type 0} (net : Transport S) where
  -- The same of the reader as a whole, the states of the other writers included; the failure is that
  -- of sending the ACKNACK of the state that is stored.
  pub record IsReceived (source : Endpoint) (change : CacheChange) (targeted : Bool) (t : S)
      (before after : ReliableReader) (result : ReadResult) : Type 0 where
    pub states : All IsWriterState after.writer_states
    pub others :
        (g : Guid)
        → writer_state g source after.writer_states ≡ (
            if guid_eq change.writer_guid g
            then writer_state change.writer_guid source after.writer_states
            else writer_state g source before.writer_states)
    pub failure : Option ReadError
    pub sending :
        ((targeted ≡ false) × (failure ≡ none))
        ⊎ ((s : WriterState) × (after.writer_states ≡ store s before.writer_states)
            × (failure
                ≡ (send_acknack net s change.writer_guid.entity_id
                    (record after { acknack_count = before.acknack_count })
                    t).0))
    pub own :
        IsSampled change targeted
          (writer_state change.writer_guid source before.writer_states)
          (writer_state change.writer_guid source after.writer_states)
          before.history
          after.history
          failure
          result
