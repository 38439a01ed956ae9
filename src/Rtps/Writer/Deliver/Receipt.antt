-- ===== src/Rtps/Writer/Deliver/Receipt.antt =====
-- What the passes, the rounds and a delivery of rtps/ReliableEndpoint.cpp have received.
use mini_dds.Prelude.{
  ℕ, zero, suc, ◌≡◌, refl, sym, ap, ◌∙◌, ◌⊎◌, inl, inr, List, [], ◌∷◌, map, All, All-mono, All-map,
  Bool, true, false, not, if◌then◌else◌, if_holds, &&_split, Option, none, some,
}
use mathlib.Core.List.{Mem, mem-cons_self, mem-cons_of_mem}
use mathlib.Core.Path.{subst}
use mini_dds.Transport.{Datagram, ReceiveResult, received, timed_out, failed}
use mini_dds.Transport.Recorder.{Recorded, noted}
use mini_dds.Rtps.Types.{EntityId}
use mini_dds.Rtps.Reliability.Contents.{AckNackSubmessage}
use mini_dds.Rtps.Stateless.{ReaderProxy}
use mini_dds.History.{CacheChange}
use mini_dds.Rtps.Writer.{ReliableWriter, WriterError, Surroundings}
use mini_dds.Rtps.Writer.Acknowledge.{acknack_of}
use mini_dds.Rtps.Writer.Round.{
  ReaderWriteState, new_state, all_acknowledged, Pass, for_each, service, pending_count, send_to,
  answer_first, on_acknack, on_datagram, on_receive, wait_for_acknack, and_wait, deliver_round,
}
use mini_dds.Rtps.Writer.Round.Rules.{
  Unless, Moment, Lasting, Passed, All-lasts, for_each-Passed, answer_first-Passed,
}
use mini_dds.Rtps.Writer.Deliver.{
  Delivery, delivered, unfinished, deliver_loop, first_pass, deliver_change,
}
use mini_dds.Rtps.Writer.Deliver.Readers.{state_reader, deliver_change_readers}
use mini_dds.Rtps.Writer.Deliver.Evidence.{
  recording, Evidence, log_passage, honest, Tells, send_to-Tells, service-Tells, answer-Tells,
}

module _ {S : Type 0} (env : Surroundings S) (change : CacheChange) (writer_id : EntityId) where
  abbrev Passes : Moment (Recorded S) → Pass (Recorded S) → Type 0
  Passes =
      Passed (recording env) change (log_passage env change writer_id)
        (honest env change writer_id).At

  abbrev HonestStates : Moment (Recorded S) → List ReaderWriteState → Type 0
  HonestStates m = All ((honest env change writer_id).At m)

  -- The states are honest when a pass has not failed.
  abbrev Tell : Pass (Recorded S) → Type 0
  Tell r = Unless r.0 (HonestStates (r.2, r.3) r.1)

  Passes-Tell : (m : Moment (Recorded S)) (r : Pass (Recorded S)) → Passes m r → Tell r
  Passes-Tell m (none, ss, w, t) h = h.0
  Passes-Tell m (some e, ss, w, t) h = tt

  -- What has arrived, beside what the states tell.
  abbrev arrived : Datagram → AckNackSubmessage → Lasting (log_passage env change writer_id)
  arrived datagram acknack = record {
    At = λ m s.
        (honest env change writer_id).At m s
        × Mem datagram m.1.log
        × (acknack_of writer_id datagram.payload ≡ some acknack);
    lasts = λ m m' s l h. ((honest env change writer_id).lasts m m' s l h.0, l.1 datagram h.1, h.2);
  }

  pass-Tell :
      (step : ReaderWriteState
        → ReliableWriter
        → Recorded S
        → Option WriterError × ReaderWriteState × ReliableWriter × Recorded S)
      → ((s : ReaderWriteState) (w : ReliableWriter) (t : Recorded S)
          → (honest env change writer_id).At (w, t) s
          → Tells env change writer_id (w, t) (step s w t))
      → (states : List ReaderWriteState) (w : ReliableWriter) (t : Recorded S)
      → HonestStates (w, t) states
      → Tell (for_each (recording env) change step states w t)
  pass-Tell step tells states w t h =
      Passes-Tell (w, t) (for_each (recording env) change step states w t)
        (for_each-Passed (recording env) change (log_passage env change writer_id)
          (honest env change writer_id) (honest env change writer_id) step tells states w t h)

  on_acknack-Tell :
      (acknack : Option AckNackSubmessage) (datagram : Datagram) (states : List ReaderWriteState)
      (w : ReliableWriter) (t : Recorded S)
      → acknack_of w.writer_id datagram.payload ≡ acknack
      → Mem datagram t.log
      → HonestStates (w, t) states
      → Tell (on_acknack (recording env) change acknack datagram.source states w t)
  on_acknack-Tell none datagram states w t e l h = h
  on_acknack-Tell (some acknack) datagram states w t e l h =
      Passes-Tell (w, t) (answer_first (recording env) change acknack datagram.source states w t)
        (answer_first-Passed (recording env) change (log_passage env change writer_id)
          (arrived datagram acknack) (honest env change writer_id) acknack datagram.source
          (λ s w' t' found k.
            answer-Tells env change writer_id acknack datagram s w' t'
              (ap (λ i. acknack_of i datagram.payload) k.0.0 ∙ k.2) k.1
              (&&_split (not s.acknowledged) _ found).1 k.0)
          (λ m s k. k.0) states w t
          (All-mono (λ s k. (k, l, ap (λ i. acknack_of i datagram.payload) (sym k.0) ∙ e)) states
            h))

  on_receive-Tell :
      (log : List Datagram) (r : ReceiveResult × S) (states : List ReaderWriteState)
      (w : ReliableWriter)
      → ((t : S) → HonestStates (w, record { state = t; log = log }) states)
      → Tell (on_receive (recording env) change (noted log r) states w)
  unfolding on_datagram
  on_receive-Tell log (timed_out, t) states w h = h t
  on_receive-Tell log (failed e, t) states w h = tt
  on_receive-Tell log (received datagram, t) states w h =
      let t' : Recorded S = record { state = t; log = datagram ∷ log } in
      let t0 : Recorded S = record { state = t; log = log } in
      on_acknack-Tell (acknack_of w.writer_id datagram.payload) datagram states w t' refl
        mem-cons_self
        (All-lasts (recording env) change (log_passage env change writer_id)
          (honest env change writer_id) (w, t0) (w, t') states
          (refl, λ d k. mem-cons_of_mem datagram k) (h t))

  wait-Tell :
      (states : List ReaderWriteState) (w : ReliableWriter) (t : Recorded S)
      → HonestStates (w, t) states
      → Tell (wait_for_acknack (recording env) change states w t)
  unfolding wait_for_acknack
  wait-Tell states w t h = on_receive-Tell t.log _ states w (λ u. h)

  and_wait-Tell : (r : Pass (Recorded S)) → Tell r → Tell (and_wait (recording env) change r)
  and_wait-Tell (some e, states, w, t) h = tt
  and_wait-Tell (none, states, w, t) h =
      if_holds Tell (all_acknowledged states) (λ done. h) (λ waits. wait-Tell states w t h)

  round-Tell :
      (states : List ReaderWriteState) (w : ReliableWriter) (t : Recorded S)
      → HonestStates (w, t) states
      → Tell (deliver_round (recording env) change states w t)
  unfolding deliver_round
  round-Tell states w t h =
      let stopping = (recording env).is_stopping t in
      let read = (recording env).now stopping.1 in
      if_holds Tell stopping.0 (λ stops. tt)
        (λ goes. and_wait-Tell _ (
          pass-Tell (service (recording env) change (pending_count states) read.0)
            (service-Tells env change writer_id (pending_count states) read.0) states w read.1 h))

  -- A delivery that succeeds has evidence from every reader.
  abbrev Proven : Delivery × List ReaderWriteState × ReliableWriter × Recorded S → Type 0
  Proven d =
      d.0 ≡ delivered → All (λ s. Evidence writer_id change.sequence_number d.3.log s.reader) d.1

  acknowledged-proven :
      (w : ReliableWriter) (t : Recorded S) (states : List ReaderWriteState)
      → all_acknowledged states ≡ true
      → HonestStates (w, t) states
      → All (λ s. Evidence writer_id change.sequence_number t.log s.reader) states
  acknowledged-proven w t [] e h = tt
  acknowledged-proven w t (s ∷ ss) e h =
      let both = &&_split s.acknowledged (all_acknowledged ss) e in
      (shown s both.0 h.0.1, acknowledged-proven w t ss both.1 h.1)
    where
      shown :
          (s : ReaderWriteState)
          → s.acknowledged ≡ true
          → (s.acknowledged ≡ false) ⊎ Evidence writer_id change.sequence_number t.log s.reader
          → Evidence writer_id change.sequence_number t.log s.reader
      shown s a (inl b) = absurd (cc (a, b))
      shown s a (inr p) = p

  pub deliver_loop-Proven :
      (n : ℕ) (r : Pass (Recorded S)) → Tell r → Proven (deliver_loop (recording env) change n r)
  unfolding deliver_loop
  deliver_loop-Proven n (some e, states, w, t) h = λ q. absurd (cc q)
  deliver_loop-Proven zero (none, states, w, t) h =
      λ q. acknowledged-proven w t states (is_delivered (all_acknowledged states) q) h
    where
      is_delivered : (b : Bool) → (if b then delivered else unfinished) ≡ delivered → b ≡ true
      is_delivered true q = refl
      is_delivered false q = absurd (cc q)
  deliver_loop-Proven (suc n) (none, states, w, t) h =
      if_holds Proven (all_acknowledged states) (λ done q. acknowledged-proven w t states done h)
        (λ waits.
          deliver_loop-Proven n (deliver_round (recording env) change states w t)
            (round-Tell states w t h))

  new_states-honest :
      (w : ReliableWriter) (t : Recorded S) (readers : List ReaderProxy)
      → w.writer_id ≡ writer_id
      → HonestStates (w, t) (map new_state readers)
  new_states-honest w t [] e = tt
  new_states-honest w t (r ∷ rs) e = ((e, inl refl), new_states-honest w t rs e)

  pub first_pass-Tell :
      (readers : List ReaderProxy) (w : ReliableWriter) (t : Recorded S)
      → w.writer_id ≡ writer_id
      → Tell (first_pass (recording env) change readers w t)
  unfolding first_pass
  first_pass-Tell readers w t e =
      let read = (recording env).now t in
      pass-Tell (send_to (recording env) change read.0) (send_to-Tells env change writer_id read.0)
        (map new_state readers) w read.1 (new_states-honest w read.1 readers e)

-- When `deliver_change` succeeds, with whatever transport, clock and number of rounds, then for
-- every reader that it was given a datagram has been received that carries an ACKNACK for this
-- writer, comes from the reader, acknowledges the sequence number of the change and asks for no
-- number.
pub deliver_change-Acknowledges :
    {S : Type 0} (env : Surroundings S) (change : CacheChange) (rounds : ℕ)
    (readers : List ReaderProxy) (writer : ReliableWriter) (t : Recorded S)
    → (deliver_change (recording env) change rounds readers writer t).0 ≡ delivered
    → All
        (Evidence writer.writer_id change.sequence_number
          (deliver_change (recording env) change rounds readers writer t).3.log)
        readers
unfolding deliver_change
deliver_change-Acknowledges env change rounds readers writer t h =
    let r = deliver_change (recording env) change rounds readers writer t in
    let pass = first_pass (recording env) change readers writer t in
    subst (All (Evidence writer.writer_id change.sequence_number r.3.log))
      (deliver_change_readers (recording env) change rounds readers writer t)
      (All-map (Evidence writer.writer_id change.sequence_number r.3.log) state_reader r.1 (
        deliver_loop-Proven env change writer.writer_id rounds pass
          (first_pass-Tell env change writer.writer_id readers writer t refl) h))
