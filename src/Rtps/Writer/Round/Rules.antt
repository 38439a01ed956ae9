-- ===== src/Rtps/Writer/Round/Rules.antt =====
-- Rules for the loops over the states: what each step keeps, the loop keeps.
use mini_dds.Prelude.{
  List, [], ◌∷◌, All, All-mono, true, not, ◌&&◌, if_holds, Option, none, some, ◌≡◌,
}
use mini_dds.Transport.{Endpoint}
use mini_dds.History.{CacheChange}
use mini_dds.Rtps.Reliability.Contents.{AckNackSubmessage}
use mini_dds.Rtps.Writer.{ReliableWriter, WriterError, Surroundings}
use mini_dds.Rtps.Writer.Acknowledge.{acknack_matches_reader}
use mini_dds.Rtps.Writer.Round.{ReaderWriteState, Pass, prepend, for_each, answer, answer_first}

-- What holds unless there is a failure.
abbrev pub Unless {ℓ} : Option WriterError → Type ℓ → Type ℓ
Unless none P = P
Unless (some e) P = Unit

-- A writer in its surroundings, at one time.
abbrev pub Moment : Type 0 → Type 0
Moment S = ReliableWriter × S

-- What relates a moment to a later one.
pub record Passage (S : Type 0) : Type 1 where
  pub Later : Moment S → Moment S → Type 0
  pub stay : (m : Moment S) → Later m m
  pub chain : (m m' m'' : Moment S) → Later m m' → Later m' m'' → Later m m''

-- What holds of a state at a moment, and goes on to hold.
pub record Lasting {S : Type 0} (order : Passage S) : Type 1 where
  pub At : Moment S → ReaderWriteState → Type 0
  pub lasts : (m m' : Moment S) (s : ReaderWriteState) → order.Later m m' → At m s → At m' s

module _ {S : Type 0} (env : Surroundings S) (change : CacheChange) (order : Passage S) where
  abbrev pub Stepped :
      (Moment S → ReaderWriteState → Type 0)
      → Moment S
      → Option WriterError × ReaderWriteState × ReliableWriter × S
      → Type 0
  Stepped Q m r = Unless r.0 (Q (r.2, r.3) r.1 × order.Later m (r.2, r.3))

  abbrev pub Passed : (Moment S → ReaderWriteState → Type 0) → Moment S → Pass S → Type 0
  Passed Q m r = Unless r.0 (All (Q (r.2, r.3)) r.1 × order.Later m (r.2, r.3))

  pub All-lasts :
      (P : Lasting order) (m m' : Moment S) (ss : List ReaderWriteState)
      → order.Later m m'
      → All (P.At m) ss
      → All (P.At m') ss
  All-lasts P m m' [] l a = tt
  All-lasts P m m' (s ∷ ss) l a = (P.lasts m m' s l a.0, All-lasts P m m' ss l a.1)

  prepend-Passed :
      (Q : Lasting order) (m : Moment S)
      (first : Option WriterError × ReaderWriteState × ReliableWriter × S)
      (ss : List ReaderWriteState) (rest : Pass S)
      → Stepped Q.At m first
      → Unless first.0 (Passed Q.At (first.2, first.3) rest)
      → Passed Q.At m (prepend env change first ss rest)
  prepend-Passed Q m (none, s, w', t') ss (none, ss', w'', t'') h k =
      ((Q.lasts (w', t') (w'', t'') s k.1 h.0, k.0), order.chain m (w', t') (w'', t'') h.1 k.1)
  prepend-Passed Q m (none, s, w', t') ss (some e, ss', w'', t'') h k = tt
  prepend-Passed Q m (some e, s, w', t') ss rest h k = tt

  carried :
      (P Q : Lasting order) (m : Moment S) (ss : List ReaderWriteState)
      (next : ReliableWriter → S → Pass S)
      (r : Option WriterError × ReaderWriteState × ReliableWriter × S)
      → ((w : ReliableWriter) (t : S) → All (P.At (w, t)) ss → Passed Q.At (w, t) (next w t))
      → All (P.At m) ss
      → Stepped Q.At m r
      → Unless r.0 (Passed Q.At (r.2, r.3) (next r.2 r.3))
  carried P Q m ss next (none, s, w', t') go a h = go w' t' (All-lasts P m (w', t') ss h.1 a)
  carried P Q m ss next (some e, s, w', t') go a h = tt

  -- A step that takes one state from P to Q, at whatever time, takes a list from P to Q.
  pub for_each-Passed :
      (P Q : Lasting order)
      (step : ReaderWriteState
        → ReliableWriter
        → S
        → Option WriterError × ReaderWriteState × ReliableWriter × S)
      → ((s : ReaderWriteState) (w : ReliableWriter) (t : S)
          → P.At (w, t) s
          → Stepped Q.At (w, t) (step s w t))
      → (ss : List ReaderWriteState) (w : ReliableWriter) (t : S) → All (P.At (w, t)) ss
      → Passed Q.At (w, t) (for_each env change step ss w t)
  unfolding for_each
  for_each-Passed P Q step one [] w t a = (tt, order.stay (w, t))
  for_each-Passed P Q step one (s ∷ ss) w t a =
      prepend-Passed Q (w, t) (step s w t) ss _ (one s w t a.0)
        (carried P Q (w, t) ss (for_each env change step ss) (step s w t)
          (for_each-Passed P Q step one ss) a.1 (one s w t a.0))

  answered-Passed :
      (Q : Lasting order) (m : Moment S) (ss : List ReaderWriteState)
      (r : Option WriterError × ReaderWriteState × ReliableWriter × S)
      → All (Q.At m) ss
      → Stepped Q.At m r
      → Passed Q.At m (r.0, r.1 ∷ ss, r.2, r.3)
  answered-Passed Q m ss (none, s, w', t') a h = ((h.0, All-lasts Q m (w', t') ss h.1 a), h.1)
  answered-Passed Q m ss (some e, s, w', t') a h = tt

  skipped-Passed :
      (Q : Lasting order) (m : Moment S) (s : ReaderWriteState) (r : Pass S)
      → Q.At m s
      → Passed Q.At m r
      → Passed Q.At m (r.0, s ∷ r.1, r.2, r.3)
  skipped-Passed Q m s (none, ss, w', t') q h = ((Q.lasts m (w', t') s h.1 q, h.0), h.1)
  skipped-Passed Q m s (some e, ss, w', t') q h = tt

  -- So does an ACKNACK, which one state at most answers.
  pub answer_first-Passed :
      (P Q : Lasting order) (acknack : AckNackSubmessage) (source : Endpoint)
      → ((s : ReaderWriteState) (w : ReliableWriter) (t : S)
          → (not s.acknowledged && acknack_matches_reader acknack source s.reader) ≡ true
          → P.At (w, t) s
          → Stepped Q.At (w, t) (answer env change acknack s w t))
      → ((m : Moment S) (s : ReaderWriteState) → P.At m s → Q.At m s)
      → (ss : List ReaderWriteState) (w : ReliableWriter) (t : S) → All (P.At (w, t)) ss
      → Passed Q.At (w, t) (answer_first env change acknack source ss w t)
  unfolding answer_first
  answer_first-Passed P Q acknack source one weaken [] w t a = (tt, order.stay (w, t))
  answer_first-Passed P Q acknack source one weaken (s ∷ ss) w t a =
      if_holds (Passed Q.At (w, t))
        (not s.acknowledged && acknack_matches_reader acknack source s.reader)
        (λ found.
          answered-Passed Q (w, t) ss (answer env change acknack s w t)
            (All-mono (weaken (w, t)) ss a.1) (one s w t found a.0))
        (λ other.
          skipped-Passed Q (w, t) s (answer_first env change acknack source ss w t)
            (weaken (w, t) s a.0) (answer_first-Passed P Q acknack source one weaken ss w t a.1))
