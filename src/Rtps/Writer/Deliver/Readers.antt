-- ===== src/Rtps/Writer/Deliver/Readers.antt =====
-- The readers that the states of `deliver_change` of rtps/ReliableEndpoint.cpp name.
use mini_dds.Prelude.{
  ℕ, zero, suc, ◌≡◌, refl, ap, ◌∙◌, List, [], ◌∷◌, map, not, ◌&&◌, leb, ◌==◌, if_holds, Option,
  none, some,
}
use mini_dds.Transport.{Endpoint, ReceiveResult, received, timed_out, failed}
use mini_dds.Rtps.Reliability.SequenceSet.{contains}
use mini_dds.Rtps.Reliability.Contents.{AckNackSubmessage}
use mini_dds.Rtps.Stateless.{ReaderProxy}
use mini_dds.History.{CacheChange}
use mini_dds.Rtps.Writer.{ReliableWriter, WriterError, Surroundings}
use mini_dds.Rtps.Writer.Acknowledge.{
  acknack_of, acknack_matches_reader, acknack_acknowledges, acknack_has_requests,
}
use mini_dds.Rtps.Writer.Send.{transmit, send_heartbeat}
use mini_dds.Rtps.Writer.Round.{
  ReaderWriteState, new_state, all_acknowledged, Pass, prepend, for_each, service, pending_count,
  with_deadlines, send_to, heartbeat_to, retried, counted, sent_at, heartbeat_at, answer, resent,
  answer_first, receive_timeout, next_event, on_acknack, on_datagram, on_receive, wait_for_acknack,
  and_wait, deliver_round,
}
use mini_dds.Rtps.Writer.Deliver.{Delivery, deliver_loop, first_pass, deliver_change}

abbrev pub state_reader : ReaderWriteState → ReaderProxy
state_reader s = s.reader

-- A change of the fields that are not the reader.
abbrev KeepsReader : (ReaderWriteState → ReaderWriteState) → Type 0
KeepsReader set = (s : ReaderWriteState) → (set s).reader ≡ s.reader

module _ {S : Type 0} (env : Surroundings S) (change : CacheChange) where
  with_deadlines_reader :
      (set : ReaderWriteState → ReaderWriteState) (s : ReaderWriteState)
      (r : Option WriterError × ReliableWriter × S)
      → KeepsReader set
      → (with_deadlines env change set s r).1.reader ≡ s.reader
  with_deadlines_reader set s (none, w, t) k = k s
  with_deadlines_reader set s (some e, w, t) k = refl

  send_to_reader :
      (now : ℕ) (s : ReaderWriteState) (w : ReliableWriter) (t : S)
      → (send_to env change now s w t).1.reader ≡ s.reader
  unfolding send_to
  send_to_reader now s w t =
      with_deadlines_reader (sent_at w.config env.ticks_per_ms now) s
        (transmit env.net change s.reader w t) (λ u. refl)

  service_reader :
      (pending now : ℕ) (s : ReaderWriteState) (w : ReliableWriter) (t : S)
      → (service env change pending now s w t).1.reader ≡ s.reader
  unfolding service heartbeat_to
  service_reader pending now s w t =
      let same =
        λ (r : Option WriterError × ReaderWriteState × ReliableWriter × S). r.1.reader ≡ s.reader in
      if_holds same s.acknowledged (λ done. refl)
        (λ waits.
          if_holds same (leb s.retry_deadline now)
            (λ due.
              if_holds same (s.retries == w.config.max_retries) (λ last. refl)
                (λ more. send_to_reader now (retried s) (counted w) t))
            (λ early.
              if_holds same (leb s.heartbeat_deadline now)
                (λ beat.
                  with_deadlines_reader (heartbeat_at w.config env.ticks_per_ms now) s
                    (send_heartbeat env.net change.sequence_number s.reader w t) (λ u. refl))
                (λ idle. refl)))

  resent_reader :
      (s : ReaderWriteState) (r : Option WriterError × ReliableWriter × S)
      → (resent env change s r).1.reader ≡ s.reader
  resent_reader s (some e, w, t) = refl
  resent_reader s (none, w, t) = refl

  answer_reader :
      (acknack : AckNackSubmessage) (s : ReaderWriteState) (w : ReliableWriter) (t : S)
      → (answer env change acknack s w t).1.reader ≡ s.reader
  unfolding answer
  answer_reader acknack s w t =
      let same =
        λ (r : Option WriterError × ReaderWriteState × ReliableWriter × S). r.1.reader ≡ s.reader in
      if_holds same
        (acknack_acknowledges acknack change.sequence_number && not (acknack_has_requests acknack))
        (λ done. refl)
        (λ other.
          if_holds same (contains acknack.reader_state change.sequence_number)
            (λ asked.
              if_holds same (s.retries == w.config.max_retries) (λ last. refl)
                (λ more.
                  resent_reader (retried s) (transmit env.net change s.reader (counted w) t)))
            (λ idle. refl))

  prepend_readers :
      (s : ReaderWriteState) (ss : List ReaderWriteState)
      (first : Option WriterError × ReaderWriteState × ReliableWriter × S) (rest : Pass S)
      → first.1.reader ≡ s.reader
      → map state_reader rest.1 ≡ map state_reader ss
      → map state_reader (prepend env change first ss rest).1 ≡ map state_reader (s ∷ ss)
  prepend_readers s ss (none, s', w, t) rest h k = cc (h, k)
  prepend_readers s ss (some e, s', w, t) rest h k = cc h

  for_each_readers :
      (step : ReaderWriteState
        → ReliableWriter
        → S
        → Option WriterError × ReaderWriteState × ReliableWriter × S)
      → ((s : ReaderWriteState) (w : ReliableWriter) (t : S) → (step s w t).1.reader ≡ s.reader)
      → (ss : List ReaderWriteState) (w : ReliableWriter) (t : S)
      → map state_reader (for_each env change step ss w t).1 ≡ map state_reader ss
  unfolding for_each
  for_each_readers step same [] w t = refl
  for_each_readers step same (s ∷ ss) w t =
      let r = step s w t in
      prepend_readers s ss r (for_each env change step ss r.2 r.3) (same s w t)
        (for_each_readers step same ss r.2 r.3)

  answer_first_readers :
      (acknack : AckNackSubmessage) (source : Endpoint) (ss : List ReaderWriteState)
      (w : ReliableWriter) (t : S)
      → map state_reader (answer_first env change acknack source ss w t).1 ≡ map state_reader ss
  unfolding answer_first
  answer_first_readers acknack source [] w t = refl
  answer_first_readers acknack source (s ∷ ss) w t =
      if_holds (λ (r : Pass S). map state_reader r.1 ≡ map state_reader (s ∷ ss))
        (not s.acknowledged && acknack_matches_reader acknack source s.reader)
        (λ found. ap (λ r. r ∷ map state_reader ss) (answer_reader acknack s w t))
        (λ other. ap (λ rs. s.reader ∷ rs) (answer_first_readers acknack source ss w t))

  on_acknack_readers :
      (acknack : Option AckNackSubmessage) (source : Endpoint) (ss : List ReaderWriteState)
      (w : ReliableWriter) (t : S)
      → map state_reader (on_acknack env change acknack source ss w t).1 ≡ map state_reader ss
  on_acknack_readers none source ss w t = refl
  on_acknack_readers (some acknack) source ss w t = answer_first_readers acknack source ss w t

  on_receive_readers :
      (r : ReceiveResult × S) (ss : List ReaderWriteState) (w : ReliableWriter)
      → map state_reader (on_receive env change r ss w).1 ≡ map state_reader ss
  unfolding on_datagram
  on_receive_readers (timed_out, t) ss w = refl
  on_receive_readers (failed e, t) ss w = refl
  on_receive_readers (received d, t) ss w =
      on_acknack_readers (acknack_of w.writer_id d.payload) d.source ss w t

  and_wait_readers :
      (r : Pass S) → map state_reader (and_wait env change r).1 ≡ map state_reader r.1
  unfolding wait_for_acknack
  and_wait_readers (some e, ss, w, t) = refl
  and_wait_readers (none, ss, w, t) =
      if_holds (λ (r : Pass S). map state_reader r.1 ≡ map state_reader ss) (all_acknowledged ss)
        (λ done. refl)
        (λ waits.
          let read = env.now t in
          on_receive_readers
            (env.net.receive (receive_timeout env change (next_event env change none ss) read.0)
              read.1)
            ss w)

  round_readers :
      (ss : List ReaderWriteState) (w : ReliableWriter) (t : S)
      → map state_reader (deliver_round env change ss w t).1 ≡ map state_reader ss
  unfolding deliver_round
  round_readers ss w t =
      if_holds (λ (r : Pass S). map state_reader r.1 ≡ map state_reader ss) (env.is_stopping t).0
        (λ stops. refl)
        (λ goes.
          let read = env.now (env.is_stopping t).1 in
          let step = service env change (pending_count ss) read.0 in
          and_wait_readers (for_each env change step ss w read.1)
          ∙ for_each_readers step (service_reader (pending_count ss) read.0) ss w read.1)

  deliver_loop_readers :
      (n : ℕ) (r : Pass S) → map state_reader (deliver_loop env change n r).1 ≡ map state_reader r.1
  unfolding deliver_loop
  deliver_loop_readers n (some e, ss, w, t) = refl
  deliver_loop_readers zero (none, ss, w, t) = refl
  deliver_loop_readers (suc n) (none, ss, w, t) =
      if_holds
        (λ (r : Delivery × List ReaderWriteState × ReliableWriter × S).
          map state_reader r.1 ≡ map state_reader ss)
        (all_acknowledged ss) (λ done. refl)
        (λ waits. deliver_loop_readers n (deliver_round env change ss w t) ∙ round_readers ss w t)

  new_states_readers :
      (readers : List ReaderProxy) → map state_reader (map new_state readers) ≡ readers
  new_states_readers [] = refl
  new_states_readers (r ∷ rs) = ap (λ l. r ∷ l) (new_states_readers rs)

  pub deliver_change_readers :
      (rounds : ℕ) (readers : List ReaderProxy) (w : ReliableWriter) (t : S)
      → map state_reader (deliver_change env change rounds readers w t).1 ≡ readers
  unfolding deliver_change first_pass
  deliver_change_readers rounds readers w t =
      let read = env.now t in
      deliver_loop_readers rounds (first_pass env change readers w t)
      ∙ for_each_readers (send_to env change read.0) (send_to_reader read.0) (map new_state readers)
          w read.1
      ∙ new_states_readers readers
