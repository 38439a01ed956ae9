-- ===== src/Rtps/Stateless/Sample.antt =====
-- From a StatelessWriter's message to a StatelessReader's history: rtps/StatelessEndpoint.cpp.
use mini_dds.Prelude.{
  ℕ, ◌≡◌, refl, sym, ap, ◌∙◌, List, [], ◌⊎◌, inl, inr, Bool, true, false, not, ◌&&◌, ◌||◌, ok,
  append-nil,
}
use mini_dds.Cdr.Writer.{Endianness}
use mini_dds.Rtps.Types.{EntityId, entity_id_eq}
use mini_dds.Rtps.Message.{MessageHeader}
use mini_dds.Rtps.Message.RoundTrip.{IsHeader}
use mini_dds.Rtps.Data.{DataMessage, encode_data_message, decode_data_message}
use mini_dds.Rtps.Data.Encoded.{IsData}
use mini_dds.Rtps.Data.RoundTrip.{decode-encode_data_message}
use mini_dds.Rtps.Outcome.{sample, ignored, is_unknown_entity}
use mini_dds.History.{CacheChange, alive}
use mini_dds.History.Reader.Appended.{IsAppended, add-IsAppended}
use mini_dds.History.Reader.{add, contains}
use mini_dds.History.Reader.Distinct.{IsQueue, add-IsQueue}
use mini_dds.Rtps.Stateless.{ReaderProxy, StatelessReader, data_message, accept, change_of, stored}

-- The change as the reader keeps it.
abbrev pub kept_change : MessageHeader → EntityId → CacheChange → CacheChange
kept_change header writer_id change = record change {
  kind = alive;
  writer_guid = record { prefix = header.guid_prefix; entity_id = writer_id };
}

not_elsewhere : (a b : Bool) → (a || b) ≡ true → (not a && not b) ≡ false
not_elsewhere true b h = refl
not_elsewhere false true h = refl
not_elsewhere false false h = cc

accept-ok :
    (message : DataMessage) (reader : StatelessReader)
    → message.header.version.major ≡ 2
    → (is_unknown_entity message.submessage.reader_id
        || entity_id_eq message.submessage.reader_id reader.reader_id)
      ≡ true
    → accept (ok message) reader ≡ stored (add (change_of message) reader.history) reader
unfolding accept
accept-ok message reader major target = rw (major, not_elsewhere _ _ target) refl

stored-add :
    (c : CacheChange) (reader : StatelessReader)
    → IsQueue reader.history
    → let r = stored (add c reader.history) reader in
      let held = contains c.writer_guid c.sequence_number reader.history in
      IsQueue r.1.history
      × (contains c.writer_guid c.sequence_number r.1.history ≡ true)
      × (((held ≡ true) × (r ≡ (ignored, reader)))
          ⊎ ((held ≡ false) × (r.0 ≡ sample) × IsAppended c reader.history r.1.history))
stored-add c reader q = elim (add-IsQueue c reader.history q).1 [
  | inl h ↦ rw h.1 (q, h.0, inl (h.0, refl))
  | inr h ↦ (
    (add-IsQueue c reader.history q).0,
    h.2,
    inr (h.0, rw h.1 refl, add-IsAppended c reader.history q h.0),
  )
]

-- A DATA message that a writer with major version 2 has encoded for a reader, or for any reader,
-- from values of the widths of their types, and that arrives as it was encoded: a reader whose
-- history is a bounded queue of distinct changes either holds a change of that writer and number
-- already, answers `ignored` and stays as it is, or answers `sample`, and its history then has the
-- change, with the payload that was sent, behind the youngest of those it had, as many as there is
-- room for. The history is such a queue afterwards and holds the writer's number.
pub accept-decode_data_message :
    (e : Endianness) (header : MessageHeader) (writer_id : EntityId) (change : CacheChange)
    (proxy : ReaderProxy) (reader : StatelessReader) (bytes : List ℕ)
    → IsHeader header
    → header.version.major ≡ 2
    → IsData (data_message header writer_id change proxy).submessage
    → encode_data_message (data_message header writer_id change proxy) e ≡ ok bytes
    → (is_unknown_entity proxy.reader_id || entity_id_eq proxy.reader_id reader.reader_id) ≡ true
    → IsQueue reader.history
    → let c = kept_change header writer_id change in
      let r = accept (decode_data_message bytes) reader in
      let held = contains c.writer_guid c.sequence_number reader.history in
      IsQueue r.1.history
      × (contains c.writer_guid c.sequence_number r.1.history ≡ true)
      × (((held ≡ true) × (r ≡ (ignored, reader)))
          ⊎ ((held ≡ false) × (r.0 ≡ sample) × IsAppended c reader.history r.1.history))
unfolding data_message accept
accept-decode_data_message e header writer_id change proxy reader bytes vh major vd h target q =
    let m = data_message header writer_id change proxy in
    let decoded : decode_data_message bytes ≡ ok m =
      ap decode_data_message (sym (append-nil bytes))
      ∙ decode-encode_data_message e m bytes [] vh vd h in
    rw (decoded, accept-ok m reader major target)
      (stored-add (kept_change header writer_id change) reader q)
