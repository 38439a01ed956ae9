-- ===== src/Rtps/Reader/Commit/Ordered.antt =====
-- The order of what `commit_contiguous` of rtps/ReliableEndpoint.cpp gives the history.
use mini_dds.Prelude.{
  ℕ, zero, suc, ◌+◌, ◌≤◌, ◌<◌, ◌≡◌, refl, sym, arith, List, [], ◌∷◌, length, Bool, true, false,
  Option, none, some,
}
use mathlib.Core.Path.{subst}
use mini_dds.Rtps.Types.{Guid, int64_max}
use mini_dds.History.{CacheChange}
use mini_dds.History.Reader.{ReaderHistory}
use mini_dds.Rtps.Reader.State.{WriterState}
use mini_dds.Rtps.Reader.State.Invariant.{IsSample, IsWriterState}
use mini_dds.Rtps.Reader.Commit.{commit_contiguous}
use mini_dds.Rtps.Reader.Commit.Deliveries.{deliveries, IsAdvanced, one_delivery, add_changes}
use mini_dds.Rtps.Reader.Commit.Loop.{commit_contiguous_lem}

-- Changes of one writer, their numbers strictly rising above `low` and none above `high`.
abbrev pub IsRising : Guid → (low high : ℕ) → List CacheChange → Type 0
IsRising guid low high [] = Unit {0}
IsRising guid low high (c ∷ cs) =
    (low < c.sequence_number.value)
    × (c.sequence_number.value ≤ high)
    × (c.writer_guid ≡ guid)
    × IsRising guid c.sequence_number.value high cs

IsRising-lower :
    (guid : Guid) (low low' high : ℕ) (cs : List CacheChange)
    → low ≤ low'
    → IsRising guid low' high cs
    → IsRising guid low high cs
IsRising-lower guid low low' high [] h r = tt
IsRising-lower guid low low' high (c ∷ cs) h r = (omega (arith, r.0, h), r.1, r.2, r.3)

one_delivery-IsRising :
    (guid : Guid) (low high : ℕ) (skipped : Bool) (o : Option CacheChange) (rest : List CacheChange)
    → low + 1 ≤ high
    → ((c : CacheChange) → o ≡ some c → IsSample guid (low + 1) c)
    → IsRising guid (low + 1) high rest
    → IsRising guid low high (one_delivery skipped o rest)
one_delivery-IsRising guid low high true o rest h l r =
    IsRising-lower guid low (low + 1) high rest (omega arith) r
one_delivery-IsRising guid low high false none rest h l r =
    IsRising-lower guid low (low + 1) high rest (omega arith) r
one_delivery-IsRising guid low high false (some c) rest h l r =
    let e = (l c refl).numbered in
    (
      omega (arith, e),
      omega (arith, e, h),
      (l c refl).written,
      subst (λ (n : ℕ). IsRising guid n high rest) (sym e) r,
    )

pub deliveries-IsRising :
    (count low high : ℕ) (s : WriterState)
    → IsWriterState s
    → low + count ≤ high
    → IsRising s.writer_guid low high (deliveries count low s)
unfolding deliveries
deliveries-IsRising zero low high s v h = tt
deliveries-IsRising (suc count) low high s v h =
    one_delivery-IsRising s.writer_guid low high _ _ _ (omega (arith, h)) (v.labelled (low + 1))
      (deliveries-IsRising count (low + 1) high s v (omega (arith, h)))

pub IsAdvanced-IsWriterState :
    (high : ℕ) (s t : WriterState)
    → high ≤ int64_max
    → s.range_initialized ≡ true
    → IsWriterState s
    → IsAdvanced high s t
    → IsWriterState t
IsAdvanced-IsWriterState high s t h i v a = record {
  highest_bounded = omega (arith, a.highest, h);
  announced_bounded = omega (arith, a.announced, v.announced_bounded);
  fresh = λ e. ground (arith, a.initialized);
  labelled = λ n c e.
      subst (λ (g : Guid). IsSample g n c) (sym a.written)
        (v.labelled n c (ground (arith, a.pending_after n, e)));
  held = λ n. ground (arith, a.received_after n, a.pending_after n, v.held n);
}

-- `commit_contiguous` of a well-formed state whose range is initialized keeps it well-formed, never
-- moves its contiguous range back, and gives the history exactly as many changes as it counts, all
-- of the writer, with strictly rising numbers above the old range and within the new one.
pub commit_contiguous-IsRising :
    (s : WriterState) (h : ReaderHistory)
    → s.range_initialized ≡ true
    → IsWriterState s
    → IsWriterState (commit_contiguous s h).1
      × (s.highest_contiguous ≤ (commit_contiguous s h).1.highest_contiguous)
      × ((cs : List CacheChange) × (length cs ≡ (commit_contiguous s h).0)
          × (add_changes cs h ≡ (commit_contiguous s h).2)
          × IsRising s.writer_guid s.highest_contiguous
              (commit_contiguous s h).1.highest_contiguous
              cs)
commit_contiguous-IsRising s h i v =
    let c = commit_contiguous_lem s h v.highest_bounded in
    (
      IsAdvanced-IsWriterState _ s _ c.contiguous.bounded i v c.advanced,
      omega (arith, c.advanced.highest),
      (
        deliveries c.count s.highest_contiguous s,
        omega (arith, c.committed),
        sym c.added,
        deliveries-IsRising c.count _ _ s v (omega (arith, c.advanced.highest)),
      ),
    )
