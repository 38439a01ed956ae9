-- ===== src/Rtps/Writer/Deliver/Spend.antt =====
-- What each step of `deliver_change` of rtps/ReliableEndpoint.cpp spends of its rounds.
use mini_dds.Prelude.{
  ℕ, suc, ◌+◌, ◌-◌, ◌*◌, ◌≤◌, ◌<◌, ◌≡◌, refl, ap, ◌∙◌, inr, List, true, false, not, ◌&&◌, leb, ◌==◌,
  if_holds, Option, none, some, Result, ok, err, arith,
}
use mini_dds.Transport.{Endpoint}
use mini_dds.Rtps.Types.{SequenceNumber}
use mini_dds.Rtps.Codec.{Error}
use mini_dds.Rtps.Reliability.SequenceSet.{contains}
use mini_dds.Rtps.Reliability.Contents.{AckNackSubmessage}
use mini_dds.Rtps.Stateless.{ReaderProxy}
use mini_dds.History.{CacheChange}
use mini_dds.Rtps.Writer.{ReliableWriter, ReliableWriterConfig, WriterError, Surroundings}
use mini_dds.Rtps.Writer.Acknowledge.{acknack_acknowledges, acknack_has_requests}
use mini_dds.Rtps.Writer.Send.{transmit, heartbeat_after, sent, send_change, send_heartbeat}
use mini_dds.Rtps.Writer.Round.{
  ReaderWriteState, sent_at, heartbeat_at, send_to, heartbeat_to, retried, counted, service, answer,
  with_deadlines, resent,
}
use mini_dds.Rtps.Writer.Round.Rules.{Moment, Stepped}
use mini_dds.Rtps.Writer.Deliver.Budget.{
  IsClock, budget, budget_spend, Costs, Costs-mono, Costs-acknowledged, Costs-Waits, Costs-early,
  time_passage, costs_from, costs_now, le_refl, le_trans,
}

module _ {S : Type 0} (env : Surroundings S) (change : CacheChange) (clock : IsClock env) where
  -- A transmission keeps the configuration, and time goes on.
  abbrev GoesOn : (w : ReliableWriter) (t : S) → Option WriterError × ReliableWriter × S → Type 0
  GoesOn w t r = (r.1.config ≡ w.config) × (clock.time t ≤ clock.time r.2)

  sent-time :
      (r : Result Error (List ℕ)) (endpoint : Endpoint) (t : S)
      → clock.time t ≤ clock.time (sent env.net r endpoint t).1
  sent-time (err e) endpoint t = omega arith
  sent-time (ok bytes) endpoint t = clock.send_late bytes endpoint t

  send_heartbeat-time :
      (sequence_number : SequenceNumber) (reader : ReaderProxy) (w : ReliableWriter) (t : S)
      → GoesOn w t (send_heartbeat env.net sequence_number reader w t)
  unfolding send_heartbeat
  send_heartbeat-time sequence_number reader w t = (refl, sent-time _ reader.endpoint t)

  heartbeat_after-time :
      (reader : ReaderProxy) (w : ReliableWriter) (t : S) (r : Option WriterError × S)
      → clock.time t ≤ clock.time r.1
      → GoesOn w t (heartbeat_after env.net change reader w r)
  heartbeat_after-time reader w t (some e, t') l = (refl, l)
  heartbeat_after-time reader w t (none, t') l =
      let h = send_heartbeat-time change.sequence_number reader w t' in (h.0, le_trans _ _ _ l h.1)

  pub transmit-time :
      (reader : ReaderProxy) (w : ReliableWriter) (t : S)
      → GoesOn w t (transmit env.net change reader w t)
  unfolding transmit send_change
  transmit-time reader w t = heartbeat_after-time reader w t _ (sent-time _ reader.endpoint t)

  module _ (config : ReliableWriterConfig) where
    abbrev timeout : ℕ
    timeout = config.acknowledgment_timeout * env.ticks_per_ms

    -- A step ends in a failure, or it takes a reader to a cost below n from the given time on.
    abbrev pub Leaves :
        (past now n : ℕ)
        → Moment S
        → Option WriterError × ReaderWriteState × ReliableWriter × S
        → Type 0
    Leaves past now n =
        Stepped env change (time_passage env change clock config)
          (costs_from env change clock config past now n).At

    -- The deadlines that a success sets.
    with_deadlines-Leaves :
        (set : ReaderWriteState → ReaderWriteState) (past now n : ℕ) (s : ReaderWriteState)
        (w : ReliableWriter) (t : S) (r : Option WriterError × ReliableWriter × S)
        → w.config ≡ config
        → past ≤ clock.time t
        → Costs config timeout now n (set s)
        → GoesOn w t r
        → Leaves past now n (w, t) (with_deadlines env change set s r)
    with_deadlines-Leaves set past now n s w t (some e, w', t') c l h g = tt
    with_deadlines-Leaves set past now n s w t (none, w', t') c l h g =
        ((g.0 ∙ c, le_trans _ _ _ l g.1, h), g)

    sent_at-Costs :
        (c : ReliableWriterConfig) (now n : ℕ) (s : ReaderWriteState)
        → c ≡ config
        → s.retries ≤ config.max_retries
        → budget (config.max_retries - s.retries) timeout + timeout < n
        → Costs config timeout now n (sent_at c env.ticks_per_ms now s)
    unfolding Costs
    sent_at-Costs c now n s e r h =
        let same = ap (λ k. k.acknowledgment_timeout * env.ticks_per_ms) e in inr (r, omega arith)

    pub send_to-Leaves :
        (now now' n : ℕ) (s : ReaderWriteState) (w : ReliableWriter) (t : S)
        → w.config ≡ config
        → now ≤ clock.time t
        → now ≤ now'
        → s.retries ≤ config.max_retries
        → budget (config.max_retries - s.retries) timeout + timeout < n
        → Leaves now now' n (w, t) (send_to env change now s w t)
    unfolding send_to
    send_to-Leaves now now' n s w t c l k r h =
        with_deadlines-Leaves (sent_at w.config env.ticks_per_ms now) now now' n s w t _ c l
          (Costs-mono config timeout now now' n _ k (sent_at-Costs w.config now n s c r h))
          (transmit-time s.reader w t)

    -- A HEARTBEAT alone leaves the retry deadline.
    heartbeat_to-Leaves :
        (now n : ℕ) (s : ReaderWriteState) (w : ReliableWriter) (t : S)
        → w.config ≡ config
        → now ≤ clock.time t
        → Costs config timeout (now + 1) n s
        → Leaves now (now + 1) n (w, t) (heartbeat_to env change now s w t)
    unfolding heartbeat_to Costs
    heartbeat_to-Leaves now n s w t c l h =
        with_deadlines-Leaves (heartbeat_at w.config env.ticks_per_ms now) now (now + 1) n s w t _ c
          l h (send_heartbeat-time change.sequence_number s.reader w t)

    -- A retransmission spends one of the retries.
    retried-budget :
        (now n : ℕ) (s : ReaderWriteState)
        → s.retries < config.max_retries
        → budget (config.max_retries - s.retries) timeout + (s.retry_deadline - now) < suc n
        → budget (config.max_retries - (s.retries + 1)) timeout + timeout < n
    retried-budget now n s l h =
        let spent = budget_spend config.max_retries s.retries timeout l in omega arith

    stays-Leaves :
        (past now n : ℕ) (s : ReaderWriteState) (w : ReliableWriter) (t : S)
        → w.config ≡ config
        → past ≤ clock.time t
        → Costs config timeout now n s
        → Leaves past now n (w, t) (none, s, w, t)
    stays-Leaves past now n s w t c l h = ((c, l, h), (refl, omega arith))

    more_retries :
        (s : ReaderWriteState) (w : ReliableWriter)
        → w.config ≡ config
        → (s.retries == w.config.max_retries) ≡ false
        → s.retries ≤ config.max_retries
        → s.retries < config.max_retries
    more_retries s w c more l = let same = ap (λ k. k.max_retries) c in ground arith

    -- A reader that is due spends a retry or fails; any other waits one tick less.
    pub service-Leaves :
        (pending now n : ℕ) (s : ReaderWriteState) (w : ReliableWriter) (t : S)
        → (costs_from env change clock config now now (suc n)).At (w, t) s
        → Leaves now (now + 1) n (w, t) (service env change pending now s w t)
    unfolding service
    service-Leaves pending now n s w t h =
        let L = Leaves now (now + 1) n (w, t) in
        if_holds L s.acknowledged
          (λ done.
            stays-Leaves now (now + 1) n s w t h.0 h.1
              (Costs-acknowledged config timeout (now + 1) n s done))
          (λ waits.
            let cost = Costs-Waits config timeout now (suc n) s waits h.2 in
            if_holds L (leb s.retry_deadline now)
              (λ due.
                if_holds L (s.retries == w.config.max_retries) (λ last. tt)
                  (λ more.
                    let left = more_retries s w h.0 more cost.0 in
                    send_to-Leaves now (now + 1) n (retried s) (counted w) t h.0 h.1 (omega arith)
                      (omega arith) (retried-budget now n s left cost.1)))
              (λ early.
                let waited = Costs-early config timeout now n s (ground arith) cost in
                if_holds L (leb s.heartbeat_deadline now)
                  (λ beat. heartbeat_to-Leaves now n s w t h.0 h.1 waited)
                  (λ idle. stays-Leaves now (now + 1) n s w t h.0 h.1 waited)))

    -- What follows a retransmission that an ACKNACK asks for: a reading of the clock.
    abbrev Answered :
        (n : ℕ) → Moment S → Option WriterError × ReaderWriteState × ReliableWriter × S → Type 0
    Answered n =
        Stepped env change (time_passage env change clock config)
          (costs_now env change clock config n).At

    resent-Answered :
        (n : ℕ) (s : ReaderWriteState) (w : ReliableWriter) (t : S)
        (r : Option WriterError × ReliableWriter × S)
        → w.config ≡ config
        → s.retries ≤ config.max_retries
        → budget (config.max_retries - s.retries) timeout + timeout < n
        → GoesOn w t r
        → Answered n (w, t) (resent env change s r)
    resent-Answered n s w t (some e, w', t') c h b g = tt
    resent-Answered n s w t (none, w', t') c h b g =
        let late = clock.read_late t' in
        let early = clock.read_early t' in
        (
          (
            g.0 ∙ c,
            Costs-mono config timeout (env.now t').0 _ n _ late
                (sent_at-Costs w'.config (env.now t').0 n s (g.0 ∙ c) h b),
          ),
          (g.0, omega arith),
        )

    stays-Answered :
        (n : ℕ) (s : ReaderWriteState) (w : ReliableWriter) (t : S)
        → (costs_now env change clock config n).At (w, t) s
        → Answered n (w, t) (none, s, w, t)
    stays-Answered n s w t h = (h, (refl, le_refl (clock.time t)))

    -- An ACKNACK spends a retry, or nothing.
    pub answer-Answered :
        (acknack : AckNackSubmessage) (n : ℕ) (s : ReaderWriteState) (w : ReliableWriter) (t : S)
        → s.acknowledged ≡ false
        → (costs_now env change clock config n).At (w, t) s
        → Answered n (w, t) (answer env change acknack s w t)
    unfolding answer
    answer-Answered acknack n s w t waits h =
        let L = Answered n (w, t) in
        let cost = Costs-Waits config timeout (clock.time t) n s waits h.1 in
        if_holds L
          (acknack_acknowledges acknack change.sequence_number
            && not (acknack_has_requests acknack))
          (λ done.
            let s' = record s { acknowledged = true } in
            stays-Answered n s' w t
              (h.0, Costs-acknowledged config timeout (clock.time t) n s' refl))
          (λ other.
            if_holds L (contains acknack.reader_state change.sequence_number)
              (λ asked.
                if_holds L (s.retries == w.config.max_retries) (λ last. tt)
                  (λ more.
                    let left = more_retries s w h.0 more cost.0 in
                    let spent = budget_spend config.max_retries s.retries timeout left in
                    resent-Answered n (retried s) w t
                      (transmit env.net change s.reader (counted w) t) h.0 (omega arith)
                      (omega arith) (transmit-time s.reader (counted w) t)))
              (λ idle. stays-Answered n s w t h))
