-- ===== src/Rtps/Writer/Deliver/Budget.antt =====
-- The rounds that `deliver_change` of rtps/ReliableEndpoint.cpp may take: what each step spends.
use mini_dds.Prelude.{
  ℕ, zero, suc, ◌+◌, ◌-◌, ◌*◌, ◌≤◌, ◌<◌, ◌≡◌, refl, ap, ◌∙◌, ◌⊎◌, inl, inr, List, true, false,
  arith,
}
use mini_dds.Transport.{Endpoint}
use mini_dds.History.{CacheChange}
use mini_dds.Rtps.Writer.{ReliableWriterConfig, Surroundings}
use mini_dds.Rtps.Writer.Round.{ReaderWriteState}
use mini_dds.Rtps.Writer.Round.Rules.{Passage, Lasting}

-- The clock is steady: a reading lies between the times before and after it, no call goes back in
-- time, and a receive, which waits a millisecond or for a datagram, takes a tick at least.
pub record IsClock {S : Type 0} (env : Surroundings S) : Type 0 where
  pub time : S → ℕ
  pub read_early : (t : S) → time t ≤ (env.now t).0
  pub read_late : (t : S) → (env.now t).0 ≤ time (env.now t).1
  pub send_late :
      (bytes : List ℕ) (endpoint : Endpoint) (t : S)
      → time t ≤ time (env.net.send bytes endpoint t).1
  pub flag_late : (t : S) → time t ≤ time (env.is_stopping t).1
  pub receive_later : (timeout : ℕ) (t : S) → time t < time (env.net.receive timeout t).1

-- The ticks that a number of retries may take.
unfoldable pub budget : (retries timeout : ℕ) → ℕ
budget zero timeout = 0
budget (suc retries) timeout = suc timeout + budget retries timeout

-- The rounds that are enough for a delivery: each lasts a tick at least.
abbrev pub enough_rounds : ReliableWriterConfig → (ticks_per_ms : ℕ) → ℕ
enough_rounds config ticks_per_ms =
    budget (suc config.max_retries) (config.acknowledgment_timeout * ticks_per_ms)

pub le_refl : (a : ℕ) → a ≤ a
le_refl a = omega arith

pub le_trans : (a b c : ℕ) → a ≤ b → b ≤ c → a ≤ c
le_trans a b c h k = omega arith

next_retry : (most retries : ℕ) → retries < most → most - retries ≡ suc (most - (retries + 1))
next_retry most retries h = omega arith

pub budget_spend :
    (most retries timeout : ℕ)
    → retries < most
    → budget (most - retries) timeout ≡ suc timeout + budget (most - (retries + 1)) timeout
unfolding budget
budget_spend most retries timeout h = ap (λ k. budget k timeout) (next_retry most retries h)

-- What a reader may still cost, counted from the time T: nothing once it has acknowledged.
unfoldable pub Costs :
    ReliableWriterConfig → (timeout now : ℕ) → (n : ℕ) → ReaderWriteState → Type 0
Costs config timeout now n s =
    (s.acknowledged ≡ true)
    ⊎ ((s.retries ≤ config.max_retries)
        × (budget (config.max_retries - s.retries) timeout + (s.retry_deadline - now) < n))

pub Costs-mono :
    (config : ReliableWriterConfig) (timeout now now' n : ℕ) (s : ReaderWriteState)
    → now ≤ now'
    → Costs config timeout now n s
    → Costs config timeout now' n s
unfolding Costs
Costs-mono config timeout now now' n s l (inl a) = inl a
Costs-mono config timeout now now' n s l (inr h) = inr (h.0, omega arith)

pub Costs-acknowledged :
    (config : ReliableWriterConfig) (timeout now n : ℕ) (s : ReaderWriteState)
    → s.acknowledged ≡ true
    → Costs config timeout now n s
unfolding Costs
Costs-acknowledged config timeout now n s a = inl a

-- The cost of a reader that waits.
abbrev pub Waits : ReliableWriterConfig → (timeout now n : ℕ) → ReaderWriteState → Type 0
Waits config timeout now n s =
    (s.retries ≤ config.max_retries)
    × (budget (config.max_retries - s.retries) timeout + (s.retry_deadline - now) < n)

pub Costs-Waits :
    (config : ReliableWriterConfig) (timeout now n : ℕ) (s : ReaderWriteState)
    → s.acknowledged ≡ false
    → Costs config timeout now n s
    → Waits config timeout now n s
unfolding Costs
Costs-Waits config timeout now n s a (inl b) = absurd (cc (a, b))
Costs-Waits config timeout now n s a (inr h) = h

pub Costs-early :
    (config : ReliableWriterConfig) (timeout now n : ℕ) (s : ReaderWriteState)
    → now < s.retry_deadline
    → Waits config timeout now (suc n) s
    → Costs config timeout (now + 1) n s
unfolding Costs
Costs-early config timeout now n s l h = inr (h.0, omega arith)

module _ {S : Type 0} (env : Surroundings S) (change : CacheChange) (clock : IsClock env)
    (config : ReliableWriterConfig) where
  -- Time goes on, and the configuration stays.
  abbrev pub time_passage : Passage S
  time_passage = record {
    Later = λ m m'. (m'.0.config ≡ m.0.config) × (clock.time m.1 ≤ clock.time m'.1);
    stay = λ m. (refl, le_refl (clock.time m.1));
    chain = λ m m' m'' l k. (k.0 ∙ l.0, le_trans _ _ _ l.1 k.1);
  }

  -- A reader costs less than n from a time on, and an earlier time is past.
  abbrev pub costs_from : (past now n : ℕ) → Lasting time_passage
  costs_from past now n = record {
    At = λ m s.
        (m.0.config ≡ config)
        × (past ≤ clock.time m.1)
        × Costs config (config.acknowledgment_timeout * env.ticks_per_ms) now n s;
    lasts = λ m m' s l h. (l.0 ∙ h.0, le_trans _ _ _ h.1 l.1, h.2);
  }

  -- It costs less than n as from the present.
  abbrev pub costs_now : (n : ℕ) → Lasting time_passage
  costs_now n = record {
    At = λ m s.
        (m.0.config ≡ config)
        × Costs config (config.acknowledgment_timeout * env.ticks_per_ms) (clock.time m.1) n s;
    lasts = λ m m' s l h. (l.0 ∙ h.0, Costs-mono config _ _ _ n s l.1 h.1);
  }
