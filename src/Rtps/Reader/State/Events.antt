-- ===== src/Rtps/Reader/State/Events.antt =====
-- WriterState under DATA, HEARTBEAT and GAP: the handlers of rtps/ReliableEndpoint.cpp.
use mini_dds.Prelude.{
  ℕ, ◌-◌, ◌≤◌, ◌<◌, ◌≡◌, arith, true, ◌&&◌, ◌||◌, not, ◌==◌, Bool-cases, inl, inr, if_holds,
}
use mini_dds.Rtps.Types.{int64_max, slt64, sle64, slt64_lem, sle64_lem}
use mini_dds.Rtps.Reliability.SequenceSet.{SequenceNumberSet}
use mini_dds.History.{CacheChange}
use mini_dds.Rtps.Reader.Sets.{member}
use mini_dds.Rtps.Reader.State.{
  WriterState, next64, previous64, max64, on_data, on_heartbeat, on_gap, heartbeat_range, gap_range,
}
use mini_dds.Rtps.Reader.State.Invariant.{
  IsSample, IsWriterState, max64_bounded, jump-IsWriterState, announce-IsWriterState,
  put-IsWriterState,
}

-- A sample of the writer under its own number.
pub on_data-IsWriterState :
    (n : ℕ) (c : CacheChange) (s : WriterState)
    → IsSample s.writer_guid n c
    → IsWriterState s
    → IsWriterState (on_data n c s)
unfolding on_data
on_data-IsWriterState n c s l v =
    let t : WriterState = record s {
      range_initialized = s.range_initialized || n == 1;
      last_announced = max64 s.last_announced n;
    } in
    let w : IsWriterState t =
      announce-IsWriterState _ _ s (max64_bounded s.last_announced n v.announced_bounded l.bounded)
        (λ e. ground arith) v in
    elim (Bool-cases (slt64 s.highest_contiguous n && not (member n s.received))) [
      | inl new ↦ rw new (put-IsWriterState n c t l (ground arith) w)
      | inr old ↦ rw old w
    ]

previous64_lem : (a : ℕ) → 1 ≤ a → a ≤ int64_max → previous64 a ≡ a - 1
previous64_lem a h k = omega arith

-- `t` is a state that is no older than `s`.
pub record IsLater (s t : WriterState) : Type 0 where
  pub state : IsWriterState t
  pub kept : s.highest_contiguous ≤ t.highest_contiguous

heartbeat_range-IsLater :
    (first : ℕ) (s : WriterState)
    → 1 ≤ first
    → first ≤ int64_max
    → s.highest_contiguous < int64_max
    → IsWriterState s
    → IsLater s (heartbeat_range first s)
heartbeat_range-IsLater first s h k u v =
    let p = previous64_lem first h k in
    if_holds (IsLater s) (not s.range_initialized)
      (λ new. record {
        state = record {
          highest_bounded = omega (arith, p);
          announced_bounded = v.announced_bounded;
          fresh = λ e. cc;
          labelled = v.labelled;
          held = v.held;
        };
        kept = omega (arith, v.fresh (ground arith));
      })
      (λ known.
        if_holds (IsLater s) (slt64 (next64 s.highest_contiguous) first)
          (λ beyond. record {
            state = jump-IsWriterState _ _ _ s (omega (arith, p)) (λ e. ground arith) v;
            kept = ground (arith, p, slt64_lem (next64 s.highest_contiguous) first);
          })
          (λ within. record { state = v; kept = omega arith }))

-- A HEARTBEAT whose first number is a positive number of int64_t and whose last is at most its
-- greatest keeps a well-formed state well-formed and never moves its contiguous range back, where
-- that range does not end at the greatest number of int64_t.
pub on_heartbeat-IsLater :
    (first last : ℕ) (s : WriterState)
    → 1 ≤ first
    → first ≤ int64_max
    → last ≤ int64_max
    → s.highest_contiguous < int64_max
    → IsWriterState s
    → IsLater s (on_heartbeat first last s)
unfolding on_heartbeat
on_heartbeat-IsLater first last s h k l u v =
    let r = heartbeat_range-IsLater first s h k u v in
    record {
      state =
          announce-IsWriterState _ _ _ (max64_bounded _ last r.state.announced_bounded l) (λ e. e)
            r.state;
      kept = r.kept;
    }

gap_range-IsLater :
    (start gap_end : ℕ) (s : WriterState)
    → gap_end ≤ int64_max
    → s.highest_contiguous < int64_max
    → IsWriterState s
    → IsLater s (gap_range start gap_end s)
gap_range-IsLater start gap_end s h u v =
    if_holds (IsLater s)
      (sle64 start (next64 s.highest_contiguous) && sle64 (next64 s.highest_contiguous) gap_end)
      (λ within. record {
        state = jump-IsWriterState _ _ true s h (λ e. cc) v;
        kept = ground (arith, sle64_lem (next64 s.highest_contiguous) gap_end);
      })
      (λ beyond. record {
        state = record {
          highest_bounded = v.highest_bounded;
          announced_bounded = v.announced_bounded;
          fresh = v.fresh;
          labelled = v.labelled;
          held = v.held;
        };
        kept = omega arith;
      })

-- A GAP whose base is a positive number of int64_t keeps a well-formed state well-formed and never
-- moves its contiguous range back, where that range does not end at the greatest number of int64_t.
pub on_gap-IsLater :
    (start : ℕ) (set : SequenceNumberSet) (s : WriterState)
    → 1 ≤ set.bitmap_base.value
    → set.bitmap_base.value ≤ int64_max
    → s.highest_contiguous < int64_max
    → IsWriterState s
    → IsLater s (on_gap start set s)
unfolding on_gap
on_gap-IsLater start set s h k u v =
    let p = previous64_lem set.bitmap_base.value h k in
    let r = gap_range-IsLater start (previous64 set.bitmap_base.value) s (omega (arith, p)) u v in
    record {
      state = record {
        highest_bounded = r.state.highest_bounded;
        announced_bounded = r.state.announced_bounded;
        fresh = r.state.fresh;
        labelled = r.state.labelled;
        held = r.state.held;
      };
      kept = r.kept;
    }
