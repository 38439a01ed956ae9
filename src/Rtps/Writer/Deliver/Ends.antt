-- ===== src/Rtps/Writer/Deliver/Ends.antt =====
-- The rounds that `deliver_change` of rtps/ReliableEndpoint.cpp takes.
use mini_dds.Prelude.{
  ℕ, zero, suc, ◌+◌, ◌-◌, ◌≤◌, ◌<◌, ◌≡◌, ◌≢◌, refl, ap, ◌∙◌, inl, inr, List, [], ◌∷◌, map, All,
  All-mono, Bool, true, false, not, ◌&&◌, if_holds, Option, none, some, arith, &&_split,
}
use mini_dds.Transport.{ReceiveResult, received, timed_out, failed, Datagram}
use mini_dds.Rtps.Reliability.Contents.{AckNackSubmessage}
use mini_dds.Rtps.Stateless.{ReaderProxy}
use mini_dds.History.{CacheChange}
use mini_dds.Rtps.Writer.{ReliableWriter, ReliableWriterConfig, Surroundings}
use mini_dds.Rtps.Writer.Acknowledge.{acknack_of}
use mini_dds.Rtps.Writer.Round.{
  answer_first, receive_timeout, next_event, ReaderWriteState, new_state, all_acknowledged, Pass,
  for_each, service, pending_count, send_to, on_acknack, on_datagram, on_receive, wait_for_acknack,
  and_wait, deliver_round,
}
use mini_dds.Rtps.Writer.Round.Rules.{Unless, Lasting, Passed, for_each-Passed, answer_first-Passed}
use mini_dds.Rtps.Writer.Deliver.{Delivery, unfinished, deliver_loop, first_pass, deliver_change}
use mini_dds.Rtps.Writer.Deliver.Budget.{
  IsClock, budget, enough_rounds, Costs, Costs-mono, Costs-acknowledged, costs_from, costs_now,
  time_passage, le_refl, le_trans,
}
use mini_dds.Rtps.Writer.Deliver.Spend.{service-Leaves, send_to-Leaves, answer-Answered}

is_waiting : (a b : Bool) → (not a && b) ≡ true → a ≡ false
is_waiting true b h = absurd (cc h)
is_waiting false b h = refl

module _ {S : Type 0} (env : Surroundings S) (change : CacheChange) (clock : IsClock env)
    (config : ReliableWriterConfig) where
  -- Every reader costs less than n after a pass that has not failed.
  abbrev Cheap : (n : ℕ) → Pass S → Type 0
  Cheap n r = Unless r.0 (All ((costs_now env change clock config n).At (r.2, r.3)) r.1)

  abbrev CheapStates : (n : ℕ) → ReliableWriter × S → List ReaderWriteState → Type 0
  CheapStates n m = All ((costs_now env change clock config n).At m)

  Passed-Cheap :
      (n : ℕ) (m : ReliableWriter × S) (r : Pass S)
      → Passed env change
          (time_passage env change clock config)
          (costs_now env change clock config n).At
          m
          r
      → Cheap n r
  Passed-Cheap n m (none, ss, w, t) h = h.0
  Passed-Cheap n m (some e, ss, w, t) h = tt

  on_acknack-Cheap :
      (n : ℕ) (acknack : Option AckNackSubmessage) (datagram : Datagram)
      (states : List ReaderWriteState) (w : ReliableWriter) (t : S)
      → CheapStates n (w, t) states
      → Cheap n (on_acknack env change acknack datagram.source states w t)
  on_acknack-Cheap n none datagram states w t h = h
  on_acknack-Cheap n (some acknack) datagram states w t h =
      let costs = costs_now env change clock config n in
      Passed-Cheap n (w, t) (answer_first env change acknack datagram.source states w t)
        (answer_first-Passed env change (time_passage env change clock config) costs costs acknack
          datagram.source
          (λ s w' t' found.
            answer-Answered env change clock config acknack n s w' t'
              (is_waiting s.acknowledged _ found))
          (λ m s k. k) states w t h)

  on_receive-Cheap :
      (n : ℕ) (r : ReceiveResult × S) (states : List ReaderWriteState) (w : ReliableWriter)
      → CheapStates n (w, r.1) states
      → Cheap n (on_receive env change r states w)
  unfolding on_datagram
  on_receive-Cheap n (timed_out, t) states w h = h
  on_receive-Cheap n (failed e, t) states w h = tt
  on_receive-Cheap n (received datagram, t) states w h =
      on_acknack-Cheap n (acknack_of w.writer_id datagram.payload) datagram states w t h

  wait-Cheap :
      (now n : ℕ) (states : List ReaderWriteState) (w : ReliableWriter) (t : S)
      → All ((costs_from env change clock config now (now + 1) n).At (w, t)) states
      → Cheap n (wait_for_acknack env change states w t)
  unfolding wait_for_acknack
  wait-Cheap now n states w t h =
      let read = env.now t in
      let timeout = receive_timeout env change (next_event env change none states) read.0 in
      let early = clock.read_early t in
      let late = clock.read_late t in
      let later = clock.receive_later timeout read.1 in
      on_receive-Cheap n (env.net.receive timeout read.1) states w (
        All-mono
          (λ s k. (k.0, Costs-mono config _ (now + 1) _ n s (let past = k.1 in omega arith) k.2))
          states h)

  -- Acknowledged readers cost nothing.
  acknowledged-CheapStates :
      (now n : ℕ) (w : ReliableWriter) (t : S) (states : List ReaderWriteState)
      → all_acknowledged states ≡ true
      → All ((costs_from env change clock config now (now + 1) n).At (w, t)) states
      → CheapStates n (w, t) states
  acknowledged-CheapStates now n w t [] h a = tt
  acknowledged-CheapStates now n w t (s ∷ ss) h a =
      let both = &&_split s.acknowledged (all_acknowledged ss) h in
      (
        (a.0.0, Costs-acknowledged config _ (clock.time t) n s both.0),
        acknowledged-CheapStates now n w t ss both.1 a.1,
      )

  and_wait-Cheap :
      (now n : ℕ) (m : ReliableWriter × S) (r : Pass S)
      → Passed env change
          (time_passage env change clock config)
          (costs_from env change clock config now (now + 1) n).At
          m
          r
      → Cheap n (and_wait env change r)
  and_wait-Cheap now n m (some e, states, w, t) h = tt
  and_wait-Cheap now n m (none, states, w, t) h =
      if_holds (Cheap n) (all_acknowledged states)
        (λ done. acknowledged-CheapStates now n w t states done h.0)
        (λ waits. wait-Cheap now n states w t h.0)

  -- A round that does not fail costs every reader one at least.
  round-Cheap :
      (n : ℕ) (states : List ReaderWriteState) (w : ReliableWriter) (t : S)
      → CheapStates (suc n) (w, t) states
      → Cheap n (deliver_round env change states w t)
  unfolding deliver_round
  round-Cheap n states w t h =
      let t' = (env.is_stopping t).1 in
      let now = (env.now t').0 in
      let t'' = (env.now t').1 in
      let order = time_passage env change clock config in
      let before = costs_from env change clock config now now (suc n) in
      let after = costs_from env change clock config now (now + 1) n in
      if_holds (Cheap n) (env.is_stopping t).0 (λ stops. tt)
        (λ goes.
          and_wait-Cheap now n (w, t'')
            (for_each env change (service env change (pending_count states) now) states w t'')
            (for_each-Passed env change order before after
              (service env change (pending_count states) now)
              (λ s w' u. service-Leaves env change clock config (pending_count states) now n s w' u)
              states w t''
              (All-mono
                (λ s k. (
                  k.0,
                  clock.read_late t',
                  Costs-mono config _ _ now (suc n) s
                      (le_trans _ _ _ (clock.flag_late t) (clock.read_early t')) k.1,
                ))
                states h)))

  CheapStates-zero :
      (m : ReliableWriter × S) (states : List ReaderWriteState)
      → CheapStates 0 m states
      → all_acknowledged states ≡ true
  unfolding Costs
  CheapStates-zero m [] h = refl
  CheapStates-zero m (s ∷ ss) ((c, inl a), h) = cc (a, CheapStates-zero m ss h)
  CheapStates-zero m (s ∷ ss) ((c, inr k), h) = absurd (let l = k.1 in omega arith)

  deliver_loop-Cheap :
      (n : ℕ) (r : Pass S) → Cheap n r → (deliver_loop env change n r).0 ≢ unfinished
  unfolding deliver_loop
  deliver_loop-Cheap n (some e, states, w, t) h = λ q. absurd (cc q)
  deliver_loop-Cheap zero (none, states, w, t) h =
      if_holds (λ d. d ≢ unfinished) (all_acknowledged states) (λ done q. absurd (cc q))
        (λ waits. absurd (cc (waits, CheapStates-zero (w, t) states h)))
  deliver_loop-Cheap (suc n) (none, states, w, t) h =
      if_holds (λ (d : Delivery × List ReaderWriteState × ReliableWriter × S). d.0 ≢ unfinished)
        (all_acknowledged states) (λ done q. absurd (cc q))
        (λ waits.
          deliver_loop-Cheap n (deliver_round env change states w t) (round-Cheap n states w t h))

  -- A reader that has not been sent to.
  abbrev new_from : (now : ℕ) → Lasting (time_passage env change clock config)
  new_from now = record {
    At = λ m s. (m.0.config ≡ config) × (now ≤ clock.time m.1) × (s.retries ≡ 0);
    lasts = λ m m' s l h. (l.0 ∙ h.0, le_trans _ _ _ h.1 l.1, h.2);
  }

  new_states :
      (now : ℕ) (w : ReliableWriter) (t : S) (readers : List ReaderProxy)
      → w.config ≡ config
      → now ≤ clock.time t
      → All ((new_from now).At (w, t)) (map new_state readers)
  new_states now w t [] c l = tt
  new_states now w t (r ∷ rs) c l = ((c, l, refl), new_states now w t rs c l)

  from_Cheap :
      (now n : ℕ) (m : ReliableWriter × S) (r : Pass S)
      → Passed env change
          (time_passage env change clock config)
          (costs_from env change clock config now now n).At
          m
          r
      → Cheap n r
  from_Cheap now n m (some e, ss, w, t) h = tt
  from_Cheap now n m (none, ss, w, t) h =
      All-mono (λ s k. (k.0, Costs-mono config _ now (clock.time t) n s k.1 k.2)) ss h.0

  first_budget :
      (s : ReaderWriteState) (timeout : ℕ)
      → s.retries ≡ 0
      → budget (config.max_retries - s.retries) timeout + timeout
        < budget (suc config.max_retries) timeout
  unfolding budget
  first_budget s timeout h =
      let e : config.max_retries - s.retries ≡ config.max_retries = omega arith in
      let same = ap (λ k. budget k timeout) e in omega arith

  first_pass-Cheap :
      (readers : List ReaderProxy) (w : ReliableWriter) (t : S)
      → w.config ≡ config
      → Cheap (enough_rounds config env.ticks_per_ms) (first_pass env change readers w t)
  unfolding first_pass
  first_pass-Cheap readers w t c =
      let (now, t') = env.now t in
      let n = enough_rounds config env.ticks_per_ms in
      from_Cheap now n (w, t')
        (for_each env change (send_to env change now) (map new_state readers) w t')
        (for_each-Passed env change (time_passage env change clock config) (new_from now)
          (costs_from env change clock config now now n) (send_to env change now)
          (λ s w' u k.
            send_to-Leaves env change clock config now now n s w' u k.0 k.1 (le_refl now)
              (omega arith) (first_budget s _ k.2))
          (map new_state readers) w t' (new_states now w t' readers c (clock.read_late t)))

-- `deliver_change` ends, by success or by a failure, within a number of rounds: the retries allowed
-- and one, each times the ticks of the acknowledgment timeout and one. The clock is steady, and
-- every receive takes a tick at least.
pub deliver_change_ends :
    {S : Type 0} (env : Surroundings S) (change : CacheChange) (readers : List ReaderProxy)
    (writer : ReliableWriter) (t : S)
    → IsClock env
    → (deliver_change env change (enough_rounds writer.config env.ticks_per_ms) readers writer t).0
      ≢ unfinished
unfolding deliver_change
deliver_change_ends env change readers writer t clock =
    deliver_loop-Cheap env change clock writer.config _ (first_pass env change readers writer t)
      (first_pass-Cheap env change clock writer.config readers writer t refl)
