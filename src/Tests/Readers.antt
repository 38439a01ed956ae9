-- ===== src/Tests/Readers.antt =====
-- The reliable and the best-effort reader at concrete states.
use mini_dds.Prelude.{
  ℕ, ◌≡◌, refl, sym, ap, ◌∙◌, arith, List, [], ◌∷◌, ◌++◌, length, Bool, true, false, not, ◌&&◌,
  ◌||◌, ltb, leb, if◌then◌else◌, some, none, ok, ◌+◌, ◌≤◌, ◌<◌, ◌⊎◌,
}
use mini_dds.Cdr.Writer.{little}
use mini_dds.Rtps.Types.{SequenceNumber, int64_max}
use mini_dds.Rtps.Data.{encode_data_message, decode_data_message}
use mini_dds.Rtps.Data.Encoded.{IsData}
use mini_dds.Rtps.Outcome.{sample, ignored}
use mini_dds.Rtps.Stateless.{
  ReaderProxy, StatelessReader, data_message, accept, unique_readers, has_reader,
}
use mini_dds.Rtps.Stateless.Sample.{kept_change, accept-decode_data_message}
use mini_dds.Rtps.Stateless.Readers.{IsUnique, unique_readers-IsUnique}
use mini_dds.Rtps.Reliability.SequenceSet.{SequenceNumberSet, contains}
use mini_dds.Rtps.Reader.Sets.{find, member}
use mini_dds.Rtps.Reader.State.{WriterState, new_writer_state, on_data, on_heartbeat, on_gap}
use mini_dds.Rtps.Reader.State.Invariant.{IsWriterState, IsSample, new_writer_state-IsWriterState}
use mini_dds.Rtps.Reader.State.Events.{
  on_data-IsWriterState, on_heartbeat-IsLater, on_gap-IsLater, IsLater,
}
use mini_dds.Rtps.Reader.Commit.{commit_contiguous}
use mini_dds.Rtps.Reader.Commit.Deliveries.{IsCommit, add_changes}
use mini_dds.Rtps.Reader.Commit.Loop.{commit_contiguous_lem}
use mini_dds.Rtps.Reader.Commit.Ordered.{IsRising, commit_contiguous-IsRising}
use mini_dds.Rtps.Reader.Acks.{reader_state, ack_base, ack_bits}
use mini_dds.Rtps.Reader.Acks.Bitmap.{is_known}
use mini_dds.Rtps.Reader.Acks.Missing.{contains-reader_state}
use mini_dds.History.{CacheChange}
use mini_dds.History.Reader.{ReaderHistory, new_reader_history}
use mini_dds.History.Reader
use mini_dds.History.Reader.Appended.{IsAppended}
use mini_dds.History.Reader.Distinct.{IsQueue, new_reader_history-IsQueue}
use mini_dds.Tests.Values.{
  reader_one, writer_one, guid_one, header_one, header_one-IsHeader, header_bytes, address_one,
  change_one,
}

-- 2 and 4 wait, and 3 is irrelevant.
abbrev waiting : WriterState
waiting = record {
  writer_guid = guid_one;
  reply_endpoint = address_one;
  highest_contiguous = 1;
  last_announced = 6;
  range_initialized = true;
  received = 2 ∷ 4 ∷ [];
  irrelevant = 3 ∷ [];
  pending = (2, change_one 2) ∷ (4, change_one 4) ∷ [];
}

abbrev fresh_state : WriterState
fresh_state = new_writer_state guid_one address_one

fresh_state-IsWriterState : IsWriterState fresh_state
fresh_state-IsWriterState = new_writer_state-IsWriterState guid_one address_one

pub change-IsSample : (n : ℕ) → n ≤ int64_max → IsSample guid_one n (change_one n)
change-IsSample n h = record { bounded = h; numbered = refl; written = refl }

abbrev pub empty_history : ReaderHistory
empty_history = new_reader_history 8

-- The state after DATA 1, which begins the range.
abbrev pub begun : WriterState
begun = on_data 1 (change_one 1) fresh_state

pub begun-IsWriterState : IsWriterState begun
begun-IsWriterState =
    on_data-IsWriterState 1 (change_one 1) fresh_state (change-IsSample 1 (omega arith))
      fresh_state-IsWriterState

begun-initialized : begun.range_initialized ≡ true
unfolding on_data mini_dds.Rtps.Types.slt64
begun-initialized = refl

commit_contiguous_example :
    IsCommit 0 waiting empty_history (commit_contiguous waiting empty_history)
commit_contiguous_example = commit_contiguous_lem waiting empty_history (omega arith)

-- Two samples are given: 2 and 4.
committed_two : (commit_contiguous waiting empty_history).0 ≡ 2
unfolding commit_contiguous mini_dds.Rtps.Reader.Commit.commit_loop
    mini_dds.Rtps.Reader.Commit.round mini_dds.Rtps.Types.slt64 mini_dds.Rtps.Reader.Sets.erase
    mini_dds.Rtps.Reader.Sets.erase_key
committed_two = refl

highest_four : (commit_contiguous waiting empty_history).1.highest_contiguous ≡ 4
unfolding commit_contiguous mini_dds.Rtps.Reader.Commit.commit_loop
    mini_dds.Rtps.Reader.Commit.round mini_dds.Rtps.Types.slt64 mini_dds.Rtps.Reader.Sets.erase
    mini_dds.Rtps.Reader.Sets.erase_key
highest_four = refl

commit_contiguous-IsRising_example :
    IsWriterState (commit_contiguous begun empty_history).1
    × (begun.highest_contiguous ≤ (commit_contiguous begun empty_history).1.highest_contiguous)
    × ((cs : List CacheChange) × (length cs ≡ (commit_contiguous begun empty_history).0)
        × (add_changes cs empty_history ≡ (commit_contiguous begun empty_history).2)
        × IsRising begun.writer_guid begun.highest_contiguous
            (commit_contiguous begun empty_history).1.highest_contiguous
            cs)
commit_contiguous-IsRising_example =
    commit_contiguous-IsRising begun empty_history begun-initialized begun-IsWriterState

on_heartbeat-IsLater_example : IsLater fresh_state (on_heartbeat 3 9 fresh_state)
on_heartbeat-IsLater_example =
    on_heartbeat-IsLater 3 9 fresh_state (omega arith) (omega arith) (omega arith) (omega arith)
      fresh_state-IsWriterState

abbrev set_three : SequenceNumberSet
set_three = record { bitmap_base = record { value = 3 }; num_bits = 4; bitmap = 2952790016 ∷ [] }

on_gap-IsLater_example : IsLater fresh_state (on_gap 1 set_three fresh_state)
on_gap-IsLater_example =
    on_gap-IsLater 1 set_three fresh_state (omega arith) (omega arith) (omega arith)
      fresh_state-IsWriterState

contains-reader_state_example :
    contains (reader_state (on_data 5 (change_one 5) begun)) (record { value = 3 }) ≡ (
      leb (ack_base (on_data 5 (change_one 5) begun)) 3
      && ltb 3
          (ack_base (on_data 5 (change_one 5) begun) + ack_bits (on_data 5 (change_one 5) begun))
      && not (is_known 3 (on_data 5 (change_one 5) begun)))
unfolding on_data mini_dds.Rtps.Types.slt64
contains-reader_state_example =
    contains-reader_state (on_data 5 (change_one 5) begun) 3
      (on_data-IsWriterState 5 (change_one 5) begun (change-IsSample 5 (omega arith))
        begun-IsWriterState)
      (omega arith)

-- 3 is asked for, and 4 is there.
asks_three : contains (reader_state waiting) (record { value = 3 }) ≡ false
unfolding contains mini_dds.Rtps.Types.slt64 reader_state mini_dds.Rtps.Types.sle64
    mini_dds.Rtps.Reader.Sets.max_key mini_dds.Rtps.Reader.Acks.mark_missing
    mini_dds.Rtps.Reader.Acks.mark
asks_three = refl

asks_five : contains (reader_state waiting) (record { value = 5 }) ≡ true
unfolding contains mini_dds.Rtps.Types.slt64 reader_state mini_dds.Rtps.Types.sle64
    mini_dds.Rtps.Reader.Sets.max_key mini_dds.Rtps.Reader.Acks.mark_missing
    mini_dds.Rtps.Reader.Acks.mark
asks_five = refl

abbrev pub proxy_one : ReaderProxy
proxy_one = record { endpoint = address_one; reader_id = reader_one }

abbrev stateless_one : StatelessReader
stateless_one = record { reader_id = reader_one; history = empty_history }

abbrev pub sent_bytes : List ℕ
sent_bytes =
    header_bytes
    ++ (21 ∷ 5 ∷ 24 ∷ 0 ∷ 0 ∷ 0 ∷ 16 ∷ 0 ∷ 0 ∷ 0 ∷ 1 ∷ 7 ∷ 0 ∷ 0 ∷ 1 ∷ 2 ∷ 0 ∷ 0 ∷ 0 ∷ 0 ∷ 7 ∷ 0 ∷ 0
        ∷ 0 ∷ 1 ∷ 2 ∷ 3 ∷ 4 ∷ [])

sent_encoded :
    encode_data_message (data_message header_one writer_one (change_one 7) proxy_one) little
    ≡ ok sent_bytes
unfolding encode_data_message mini_dds.Rtps.Data.encode_data_submessage mini_dds.Rtps.Types.sle64
    data_message mini_dds.Rtps.Data.write_data mini_dds.Cdr.Writer.write_bytes
    mini_dds.Rtps.Codec.write_sequence_number mini_dds.Cdr.Writer.write_uint32
    mini_dds.Cdr.Writer.write_unsigned mini_dds.Cdr.Writer.write_int32 mini_dds.Cdr.Writer.align
    mini_dds.Rtps.Codec.write_entity_id mini_dds.Cdr.Writer.write_uint16
    mini_dds.Cdr.Writer.push_little mini_dds.Rtps.Message.encode_message_header
    mini_dds.Rtps.Message.encode_submessage_header mini_dds.Rtps.Codec.sequence_high
    mini_dds.Rtps.Codec.sequence_low
sent_encoded = refl

sent-IsData : IsData (data_message header_one writer_one (change_one 7) proxy_one).submessage
unfolding data_message
sent-IsData = record { reader = refl; writer = refl; word = omega arith }

accept-decode_data_message_example :
    IsQueue (accept (decode_data_message sent_bytes) stateless_one).1.history
    × (Reader.contains guid_one
          (record { value = 7 })
          (accept (decode_data_message sent_bytes) stateless_one).1.history
        ≡ true)
    × (((Reader.contains guid_one (record { value = 7 }) empty_history ≡ true)
          × (accept (decode_data_message sent_bytes) stateless_one ≡ (ignored, stateless_one)))
        ⊎ ((Reader.contains guid_one (record { value = 7 }) empty_history ≡ false)
            × ((accept (decode_data_message sent_bytes) stateless_one).0 ≡ sample)
            × IsAppended
                (kept_change header_one writer_one (change_one 7))
                empty_history
                (accept (decode_data_message sent_bytes) stateless_one).1.history))
unfolding mini_dds.Rtps.Types.entity_id_eq mini_dds.Prelude.bytes_eq
accept-decode_data_message_example =
    accept-decode_data_message little header_one writer_one (change_one 7) proxy_one stateless_one
      sent_bytes header_one-IsHeader refl sent-IsData sent_encoded same_reader
      (new_reader_history-IsQueue 8)
  where
    same_reader : true ≡ true
    same_reader = refl

unique_readers-IsUnique_example :
    IsUnique (unique_readers (proxy_one ∷ proxy_one ∷ []))
    × ((x : ReaderProxy)
        → has_reader x (unique_readers (proxy_one ∷ proxy_one ∷ []))
          ≡ has_reader x (proxy_one ∷ proxy_one ∷ []))
unique_readers-IsUnique_example = unique_readers-IsUnique (proxy_one ∷ proxy_one ∷ [])
