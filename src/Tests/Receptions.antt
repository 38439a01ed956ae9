-- ===== src/Tests/Receptions.antt =====
-- A DATA at a reliable reader that has a writer's first sample waiting.
use mini_dds.Prelude.{ℕ, ◌≡◌, refl, List, [], ◌∷◌, map, true, ok}
use mini_dds.Transport.{Transport, timed_out}
use mini_dds.Rtps.Types.{int64_max}
use mini_dds.Rtps.Data.{DataSubmessage}
use mini_dds.History.{CacheChange}
use mini_dds.Rtps.Reader.Receive.{ReliableReader, new_reliable_reader, targets_entity, receive_data}
use mini_dds.Tests.Values.{reader_one, writer_one, header_one, address_one, change_one}
use mini_dds.Tests.Readers.{begun, empty_history}

abbrev quiet_net : Transport ℕ
quiet_net = record {
  send = λ bytes endpoint t. (true, t);
  receive = λ timeout t. (timed_out, t);
  last_error = λ t. [];
}

abbrev live : ReliableReader
live = record (new_reliable_reader header_one.guid_prefix reader_one 8) {
  history = empty_history;
  writer_states = begun ∷ [];
}

abbrev data_of : ℕ → DataSubmessage
data_of n = record {
  reader_id = reader_one;
  writer_id = writer_one;
  writer_sequence_number = record { value = n };
  serialized_payload = 1 ∷ 2 ∷ 3 ∷ 4 ∷ [];
}

-- 2 follows 1, and both are given.
both_given :
    (receive_data quiet_net header_one.guid_prefix address_one
      (ok (data_of 2))
      live
      0).1.history.changes
    ≡ change_one 1 ∷ change_one 2 ∷ []
unfolding new_reliable_reader receive_data targets_entity mini_dds.Rtps.Types.entity_id_eq
    mini_dds.Prelude.bytes_eq mini_dds.Rtps.Reader.Receive.send_acknack
    mini_dds.Rtps.Reader.State.on_data mini_dds.Rtps.Types.slt64
    mini_dds.Rtps.Reader.Receive.writer_state mini_dds.Rtps.Types.guid_eq
    mini_dds.Rtps.Types.guid_prefix_eq mini_dds.Rtps.Reader.Sets.insert
    mini_dds.Rtps.Reader.Commit.commit_contiguous mini_dds.Rtps.Reader.Commit.commit_loop
    mini_dds.Rtps.Reader.Sets.emplace mini_dds.Rtps.Reader.Commit.round
    mini_dds.Rtps.Reader.Sets.erase_key mini_dds.History.Reader.add mini_dds.History.Reader.contains
    mini_dds.History.trim mini_dds.History.Reader.new_reader_history mini_dds.Rtps.Reader.Sets.erase
    mini_dds.Rtps.Types.sequence_number_eq
both_given = refl

-- 3 waits for 2.
one_given :
    (receive_data quiet_net header_one.guid_prefix address_one
      (ok (data_of 3))
      live
      0).1.history.changes
    ≡ change_one 1 ∷ []
unfolding new_reliable_reader receive_data targets_entity mini_dds.Rtps.Types.entity_id_eq
    mini_dds.Prelude.bytes_eq mini_dds.Rtps.Reader.Receive.send_acknack
    mini_dds.Rtps.Reader.State.on_data mini_dds.Rtps.Types.slt64
    mini_dds.Rtps.Reader.Receive.writer_state mini_dds.Rtps.Types.guid_eq
    mini_dds.Rtps.Types.guid_prefix_eq mini_dds.Rtps.Reader.Sets.insert
    mini_dds.Rtps.Reader.Commit.commit_contiguous mini_dds.Rtps.Reader.Commit.commit_loop
    mini_dds.Rtps.Reader.Sets.emplace mini_dds.Rtps.Reader.Commit.round
    mini_dds.Rtps.Reader.Sets.erase_key mini_dds.History.Reader.add mini_dds.History.Reader.contains
    mini_dds.History.trim mini_dds.History.Reader.new_reader_history mini_dds.Rtps.Reader.Sets.erase
    mini_dds.Rtps.Types.sequence_number_eq
one_given = refl
