-- ===== src/Rtps/Reader/Commit/Loop.antt =====
-- The loop of `commit_contiguous` as a whole.
use mini_dds.Prelude.{ℕ, zero, suc, ◌+◌, ◌≤◌, ◌<◌, ◌≡◌, refl, ap, ◌∙◌, arith, ◌⊎◌, inl, inr, true}
use mini_dds.Rtps.Types.{int64_max}
use mini_dds.History.Reader.{ReaderHistory, add}
use mini_dds.Rtps.Reader.State.{WriterState}
use mini_dds.Rtps.Reader.Commit.{rounds, commit_loop, commit_contiguous}
use mini_dds.Rtps.Reader.Commit.Rounds.{
  at_end, at_gap, at_irrelevant, at_sample, round-cases, rounds-skipped, rounds-step_to, is_missing,
}
use mini_dds.Rtps.Reader.Commit.Deliveries.{deliveries, IsAdvanced, IsContiguous, IsCommit}
use mini_dds.Rtps.Reader.Commit.Steps.{after_skipped, after_step_to}

IsAdvanced-refl : (s : WriterState) → IsAdvanced (s.highest_contiguous + 0) s s
IsAdvanced-refl s = record {
  highest = omega arith;
  irrelevant_after = λ n. ground arith;
  received_after = λ n. ground arith;
  pending_after = λ n. ground arith;
  written = refl;
  announced = refl;
  initialized = refl;
}

only_here :
    (s : WriterState)
    → s.highest_contiguous ≤ int64_max
    → (s.highest_contiguous + 0 ≡ int64_max) ⊎ (is_missing (s.highest_contiguous + 0 + 1) s ≡ true)
    → IsContiguous 0 s.highest_contiguous s
only_here s h m = record { bounded = omega (arith, h); present = λ n. ground arith; maximal = m }

stopped :
    (before : ℕ) (s : WriterState) (h : ReaderHistory)
    → IsContiguous 0 s.highest_contiguous s
    → IsCommit before s h (before, s, h)
unfolding deliveries
stopped before s h c = record {
  count = 0;
  contiguous = c;
  advanced = IsAdvanced-refl s;
  committed = omega arith;
  added = refl;
}

commit_loop-IsCommit :
    (fuel before : ℕ) (s : WriterState) (h : ReaderHistory)
    → s.highest_contiguous ≤ int64_max
    → rounds s < fuel
    → IsCommit before s h (commit_loop fuel before s h)
unfolding commit_loop
commit_loop-IsCommit zero before s h bound enough = absurd (omega arith)
commit_loop-IsCommit (suc fuel) before s h bound enough = elim (round-cases s bound) [
  | at_end e r ↦
      rw (r, commit_loop)
        (stopped before s h (only_here s (omega (arith, e)) (inl (omega (arith, e)))))
  | at_gap e m r ↦
      rw (r, commit_loop)
        (stopped before s h
          (only_here s (omega (arith, e)) (inr (ap (λ (k : ℕ). is_missing k s) (omega arith) ∙ m))))
  | at_irrelevant e m r ↦
      rw (r, commit_loop)
        (after_skipped before s h _ m (
          commit_loop-IsCommit fuel before _ h (omega (arith, e))
            (omega (arith, enough, rounds-skipped _ s m))))
  | at_sample e m v f r ↦
      rw (r, commit_loop)
        (after_step_to before s h v _ m f (
          commit_loop-IsCommit fuel (before + 1) _ (add v h).1 (omega (arith, e))
            (omega (arith, enough, rounds-step_to _ v s f))))
]

-- `commit_contiguous` of a state whose highest contiguous number is one of int64_t: there is a
-- count of numbers after it that are all marked irrelevant or held as samples, and the next number
-- is neither, or the range of int64_t ends there. The samples among them enter the history in the
-- order of their numbers and are what is counted; the state is advanced to the last of them, loses
-- exactly their entries and keeps the others. The loop has the rounds it needs.
pub commit_contiguous_lem :
    (s : WriterState) (h : ReaderHistory)
    → s.highest_contiguous ≤ int64_max
    → IsCommit 0 s h (commit_contiguous s h)
unfolding commit_contiguous
commit_contiguous_lem s h bound = commit_loop-IsCommit (rounds s + 1) 0 s h bound (omega arith)
