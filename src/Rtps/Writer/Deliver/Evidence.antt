-- ===== src/Rtps/Writer/Deliver/Evidence.antt =====
-- What `deliver_change` of rtps/ReliableEndpoint.cpp has received when it succeeds.
use mini_dds.Prelude.{
  ℕ, ◌≡◌, refl, sym, ap, ◌∙◌, ◌⊎◌, inl, inr, List, true, false, not, ◌&&◌, leb, ◌==◌, if_holds,
  &&_split, not_true→false, Option, none, some, Result, ok, err,
}
use mathlib.Core.List.{Mem}
use mathlib.Core.Path.{subst}
use mini_dds.Transport.{Datagram, Endpoint}
use mini_dds.Transport.Recorder.{Recorded, recorded, recorder}
use mini_dds.Rtps.Codec.{Error}
use mini_dds.Rtps.Types.{SequenceNumber, EntityId}
use mini_dds.Rtps.Reliability.SequenceSet.{contains}
use mini_dds.Rtps.Reliability.Contents.{AckNackSubmessage}
use mini_dds.Rtps.Stateless.{ReaderProxy}
use mini_dds.History.{CacheChange}
use mini_dds.Rtps.Writer.{ReliableWriter, WriterError, Surroundings}
use mini_dds.Rtps.Writer.Acknowledge.{
  acknack_of, acknack_acknowledges, acknack_has_requests, acknack_matches_reader,
}
use mini_dds.Rtps.Writer.Send.{transmit, heartbeat_after, sent, send_change, send_heartbeat}
use mini_dds.Rtps.Writer.Round.{
  ReaderWriteState, sent_at, heartbeat_at, send_to, heartbeat_to, retried, counted, service, answer,
  with_deadlines, resent,
}
use mini_dds.Rtps.Writer.Round.Rules.{Passage, Lasting, Moment, Stepped}

-- The surroundings, with the datagrams that have been received.
abbrev pub recording : {S : Type 0} → Surroundings S → Surroundings (Recorded S)
recording env = record {
  net = recorder env.net;
  now = λ t. recorded t.log (env.now t.state);
  is_stopping = λ t. recorded t.log (env.is_stopping t.state);
  ticks_per_ms = env.ticks_per_ms;
}

-- A datagram from the reader whose ACKNACK has all up to the sequence number and asks for nothing.
pub record Acknowledges (writer_id : EntityId) (sequence_number : SequenceNumber)
    (reader : ReaderProxy) (datagram : Datagram) : Type 0 where
  pub acknack : AckNackSubmessage
  pub carried : acknack_of writer_id datagram.payload ≡ some acknack
  pub matches : acknack_matches_reader acknack datagram.source reader ≡ true
  pub known : acknack_acknowledges acknack sequence_number ≡ true
  pub complete : acknack_has_requests acknack ≡ false

pub record Evidence (writer_id : EntityId) (sequence_number : SequenceNumber) (log : List Datagram)
    (reader : ReaderProxy) : Type 0 where
  pub datagram : Datagram
  pub arrived : Mem datagram log
  pub acknowledges : Acknowledges writer_id sequence_number reader datagram

module _ {S : Type 0} (env : Surroundings S) (change : CacheChange) (writer_id : EntityId) where
  -- The log only grows, and the writer keeps its identity.
  abbrev pub log_passage : Passage (Recorded S)
  log_passage = record {
    Later = λ m m'.
        (m'.0.writer_id ≡ m.0.writer_id) × ((d : Datagram) → Mem d m.1.log → Mem d m'.1.log);
    stay = λ m. (refl, λ d h. h);
    chain = λ m m' m'' l k. (k.0 ∙ l.0, λ d h. k.1 d (l.1 d h));
  }

  Evidence-lasts :
      (m m' : Moment (Recorded S)) (reader : ReaderProxy)
      → log_passage.Later m m'
      → Evidence writer_id change.sequence_number m.1.log reader
      → Evidence writer_id change.sequence_number m'.1.log reader
  Evidence-lasts m m' reader l e = record {
    datagram = e.datagram;
    arrived = l.1 e.datagram e.arrived;
    acknowledges = e.acknowledges;
  }

  -- A reader that counts as acknowledged has given evidence.
  abbrev pub Honest : (log : List Datagram) → ReaderWriteState → Type 0
  Honest log s = (s.acknowledged ≡ false) ⊎ Evidence writer_id change.sequence_number log s.reader

  pub Honest-lasts :
      (m m' : Moment (Recorded S)) (s : ReaderWriteState)
      → log_passage.Later m m'
      → Honest m.1.log s
      → Honest m'.1.log s
  Honest-lasts m m' s l (inl h) = inl h
  Honest-lasts m m' s l (inr e) = inr (Evidence-lasts m m' s.reader l e)

  abbrev pub honest : Lasting log_passage
  honest = record {
    At = λ m s. (m.0.writer_id ≡ writer_id) × Honest m.1.log s;
    lasts = λ m m' s l h. (l.0 ∙ h.0, Honest-lasts m m' s l h.1);
  }

  -- What a transmission leaves as it was.
  abbrev Unchanged :
      (w : ReliableWriter) (t : Recorded S)
      → Option WriterError × ReliableWriter × Recorded S
      → Type 0
  Unchanged w t r = (r.1.writer_id ≡ w.writer_id) × (r.2.log ≡ t.log)

  sent-log :
      (r : Result Error (List ℕ)) (endpoint : Endpoint) (t : Recorded S)
      → (sent (recorder env.net) r endpoint t).1.log ≡ t.log
  sent-log (err e) endpoint t = refl
  sent-log (ok bytes) endpoint t = refl

  send_heartbeat-Unchanged :
      (sequence_number : SequenceNumber) (reader : ReaderProxy) (w : ReliableWriter)
      (t : Recorded S)
      → Unchanged w t (send_heartbeat (recorder env.net) sequence_number reader w t)
  unfolding send_heartbeat
  send_heartbeat-Unchanged sequence_number reader w t = (refl, sent-log _ reader.endpoint t)

  heartbeat_after-Unchanged :
      (reader : ReaderProxy) (w : ReliableWriter) (t : Recorded S)
      (r : Option WriterError × Recorded S)
      → r.1.log ≡ t.log
      → Unchanged w t (heartbeat_after (recorder env.net) change reader w r)
  heartbeat_after-Unchanged reader w t (some e, t') l = (refl, l)
  heartbeat_after-Unchanged reader w t (none, t') l =
      let h = send_heartbeat-Unchanged change.sequence_number reader w t' in (h.0, h.1 ∙ l)

  transmit-Unchanged :
      (reader : ReaderProxy) (w : ReliableWriter) (t : Recorded S)
      → Unchanged w t (transmit (recorder env.net) change reader w t)
  unfolding transmit send_change
  transmit-Unchanged reader w t =
      heartbeat_after-Unchanged reader w t _ (sent-log _ reader.endpoint t)

  -- A step, from one state that is honest to another.
  abbrev pub Tells :
      Moment (Recorded S)
      → Option WriterError × ReaderWriteState × ReliableWriter × Recorded S
      → Type 0
  Tells = Stepped (recording env) change log_passage honest.At

  later :
      (w w' : ReliableWriter) (t t' : Recorded S)
      → w'.writer_id ≡ w.writer_id
      → t'.log ≡ t.log
      → log_passage.Later (w, t) (w', t')
  later w w' t t' i l = (i, λ d h. subst (λ log. Mem d log) (sym l) h)

  with_deadlines-Tells :
      (set : ReaderWriteState → ReaderWriteState) (s : ReaderWriteState) (w : ReliableWriter)
      (t : Recorded S) (r : Option WriterError × ReliableWriter × Recorded S)
      → honest.At (w, t) (set s)
      → Unchanged w t r
      → Tells (w, t) (with_deadlines (recording env) change set s r)
  with_deadlines-Tells set s w t (some e, w', t') h u = tt
  with_deadlines-Tells set s w t (none, w', t') h u =
      let l = later w w' t t' u.0 u.1 in (honest.lasts (w, t) (w', t') (set s) l h, l)

  pub send_to-Tells :
      (now : ℕ) (s : ReaderWriteState) (w : ReliableWriter) (t : Recorded S)
      → honest.At (w, t) s
      → Tells (w, t) (send_to (recording env) change now s w t)
  unfolding send_to
  send_to-Tells now s w t h =
      with_deadlines-Tells (sent_at w.config env.ticks_per_ms now) s w t _ h
        (transmit-Unchanged s.reader w t)

  pub service-Tells :
      (pending now : ℕ) (s : ReaderWriteState) (w : ReliableWriter) (t : Recorded S)
      → honest.At (w, t) s
      → Tells (w, t) (service (recording env) change pending now s w t)
  unfolding service heartbeat_to
  service-Tells pending now s w t h =
      let stays : Tells (w, t) (none, s, w, t) = (h, log_passage.stay (w, t)) in
      if_holds (Tells (w, t)) s.acknowledged (λ done. stays)
        (λ waits.
          if_holds (Tells (w, t)) (leb s.retry_deadline now)
            (λ due.
              if_holds (Tells (w, t)) (s.retries == w.config.max_retries) (λ last. tt)
                (λ more. send_to-Tells now (retried s) (counted w) t h))
            (λ early.
              if_holds (Tells (w, t)) (leb s.heartbeat_deadline now)
                (λ beat.
                  with_deadlines-Tells (heartbeat_at w.config env.ticks_per_ms now) s w t _ h
                    (send_heartbeat-Unchanged change.sequence_number s.reader w t))
                (λ idle. stays)))

  resent-Tells :
      (s : ReaderWriteState) (w : ReliableWriter) (t : Recorded S)
      (r : Option WriterError × ReliableWriter × Recorded S)
      → honest.At (w, t) s
      → Unchanged w t r
      → Tells (w, t) (resent (recording env) change s r)
  resent-Tells s w t (some e, w', t') h u = tt
  resent-Tells s w t (none, w', t') h u =
      let l = later w w' t t' u.0 u.1 in (honest.lasts (w, t) (w', t') s l h, l)

  -- The answer to an ACKNACK that has been received.
  pub answer-Tells :
      (acknack : AckNackSubmessage) (datagram : Datagram) (s : ReaderWriteState)
      (w : ReliableWriter) (t : Recorded S)
      → acknack_of w.writer_id datagram.payload ≡ some acknack
      → Mem datagram t.log
      → acknack_matches_reader acknack datagram.source s.reader ≡ true
      → honest.At (w, t) s
      → Tells (w, t) (answer (recording env) change acknack s w t)
  unfolding answer
  answer-Tells acknack datagram s w t carried arrived matches h =
      let stays = log_passage.stay (w, t) in
      if_holds (Tells (w, t))
        (acknack_acknowledges acknack change.sequence_number && not (acknack_has_requests acknack))
        (λ done.
          let both = &&_split (acknack_acknowledges acknack change.sequence_number) _ done in
          (
            (
              h.0,
              inr (record {
                datagram = datagram;
                arrived = arrived;
                acknowledges = record {
                  acknack = acknack;
                  carried = ap (λ i. acknack_of i datagram.payload) (sym h.0) ∙ carried;
                  matches = matches;
                  known = both.0;
                  complete = not_true→false (acknack_has_requests acknack) both.1;
                };
              }),
            ),
            stays,
          ))
        (λ other.
          if_holds (Tells (w, t)) (contains acknack.reader_state change.sequence_number)
            (λ asked.
              if_holds (Tells (w, t)) (s.retries == w.config.max_retries) (λ last. tt)
                (λ more.
                  resent-Tells (retried s) w t _ h (transmit-Unchanged s.reader (counted w) t)))
            (λ idle. (h, stays)))
