-- ===== src/Rtps/Reader/Receive/Committed.antt =====
-- The commit of a ReliableReader whose range may not have begun: rtps/ReliableEndpoint.cpp.
use mini_dds.Prelude.{
  ℕ, zero, suc, ◌+◌, ◌≤◌, ◌≡◌, ◌⊎◌, inl, inr, refl, sym, arith, List, [], length, Bool, true, false,
  Option, none, some, Bool-cases, if_holds, ◌==◌, ==_iff,
}
use mathlib.Core.Path.{subst}
use mathlib.Core.List.{Mem, mem-cons_self, mem-cons_of_mem}
use mini_dds.History.{CacheChange}
use mini_dds.History.Reader.{ReaderHistory}
use mini_dds.Rtps.Reader.Sets.{member, find}
use mini_dds.Rtps.Reader.State.{WriterState}
use mini_dds.Rtps.Reader.State.Invariant.{IsWriterState}
use mini_dds.Rtps.Reader.State.Samples.{is_taken}
use mini_dds.Rtps.Reader.Commit.Deliveries.{between, one_delivery, deliveries, add_changes}
use mini_dds.Rtps.Reader.Commit.Loop.{commit_contiguous_lem}
use mini_dds.Rtps.Reader.Commit.Ordered.{IsRising, deliveries-IsRising, IsAdvanced-IsWriterState}
use mini_dds.Rtps.Reader.Receive.{commit_if_initialized}

one_delivery-Mem :
    (c : CacheChange) (skipped : Bool) (o : Option CacheChange) (rest : List CacheChange)
    → Mem c rest
    → Mem c (one_delivery skipped o rest)
one_delivery-Mem c true o rest m = m
one_delivery-Mem c false none rest m = m
one_delivery-Mem c false (some d) rest m = mem-cons_of_mem d m

-- A sample in the range that is not irrelevant is among what is given.
deliveries-Mem :
    (count low n : ℕ) (s : WriterState) (c : CacheChange)
    → between low (low + count) n ≡ true
    → member n s.irrelevant ≡ false
    → find n s.pending ≡ some c
    → Mem c (deliveries count low s)
unfolding deliveries
deliveries-Mem zero low n s c b i e = absurd (ground (arith, b))
deliveries-Mem (suc count) low n s c b i e = elim (Bool-cases (n == low + 1)) [
  | inl first ↦
      let k : n ≡ low + 1 = (==_iff n (low + 1)).0 first in
      let i' = subst (λ (m : ℕ). member m s.irrelevant ≡ false) k i in
      let e' = subst (λ (m : ℕ). find m s.pending ≡ some c) k e in rw (i', e') mem-cons_self
  | inr later ↦
      one_delivery-Mem c _ _ _ (deliveries-Mem count (low + 1) n s c (ground (arith, b, later)) i e)
]

-- What the commit makes of a state and a history, or leaves of them.
pub record IsCommitted (s : WriterState) (h : ReaderHistory) (r : ℕ × WriterState × ReaderHistory)
    : Type 0 where
  pub state : IsWriterState r.1
  pub written : r.1.writer_guid ≡ s.writer_guid
  pub kept : s.highest_contiguous ≤ r.1.highest_contiguous
  pub taken : (n : ℕ) → is_taken n s ≡ true → is_taken n r.1 ≡ true
  pub given : List CacheChange
  pub counted : length given ≡ r.0
  pub added : add_changes given h ≡ r.2
  pub rising : IsRising s.writer_guid s.highest_contiguous r.1.highest_contiguous given
  pub sampled :
      (n : ℕ) (c : CacheChange)
      → member n s.irrelevant ≡ false
      → find n s.pending ≡ some c
      → (find n r.1.pending ≡ some c) ⊎ Mem c given

pub commit_if_initialized-IsCommitted :
    (s : WriterState) (h : ReaderHistory)
    → IsWriterState s
    → IsCommitted s h (commit_if_initialized s h)
commit_if_initialized-IsCommitted s h v =
    if_holds (IsCommitted s h) s.range_initialized
      (λ initialized.
        let c = commit_contiguous_lem s h v.highest_bounded in
        let high = s.highest_contiguous + c.count in
        record {
          state = IsAdvanced-IsWriterState _ s _ c.contiguous.bounded initialized v c.advanced;
          written = c.advanced.written;
          kept = omega (arith, c.advanced.highest);
          taken = λ n t. ground (arith, c.advanced.highest, c.advanced.received_after n, t);
          given = deliveries c.count s.highest_contiguous s;
          counted = omega (arith, c.committed);
          added = sym c.added;
          rising = deliveries-IsRising c.count _ _ s v (omega (arith, c.advanced.highest));
          sampled = λ n d i e. elim (Bool-cases (between s.highest_contiguous high n)) [
            | inl within ↦ inr (deliveries-Mem c.count s.highest_contiguous n s d within i e)
            | inr beyond ↦ inl (rw (c.advanced.pending_after n, beyond) e)
          ];
        })
      (λ fresh. record {
        state = v;
        written = refl;
        kept = omega arith;
        taken = λ n t. t;
        given = [];
        counted = refl;
        added = refl;
        rising = tt;
        sampled = λ n d i e. inl e;
      })
