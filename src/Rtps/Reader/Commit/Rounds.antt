-- ===== src/Rtps/Reader/Commit/Rounds.antt =====
-- The three outcomes of a round of `commit_contiguous`, and what is left for the later ones.
use mini_dds.Prelude.{
  ℕ, ◌+◌, ◌≤◌, ◌<◌, ◌≡◌, refl, arith, inl, inr, Bool, true, false, ◌&&◌, not, none, some,
  Bool-cases, Option-cases, ltb, ltb→lt, ltb_false→le,
}
use mini_dds.Rtps.Types.{slt64, slt64_lem, int64_max}
use mini_dds.History.{CacheChange}
use mini_dds.Rtps.Reader.Sets.{member, find, erase}
use mini_dds.Rtps.Reader.Sets.Lookup.{length-erase, length-erase_key, length-erase_key_le}
use mini_dds.Rtps.Reader.State.{WriterState, next64}
use mini_dds.Rtps.Reader.Commit.{stop, skip, commit, round, step_to, rounds}

-- The number is neither marked irrelevant nor held as a sample: the reader waits for it.
abbrev pub is_missing : ℕ → WriterState → Bool
is_missing n s =
    not (member n s.irrelevant) && elim (find n s.pending) [ none ↦ true | some c ↦ false ]

abbrev pub skipped : ℕ → WriterState → WriterState
skipped next s = record (step_to next s) { irrelevant = erase next s.irrelevant }

pub data RoundCase (s : WriterState) : Type 0 where
  at_end : s.highest_contiguous ≡ int64_max → round s ≡ stop → RoundCase s
  at_gap :
      s.highest_contiguous < int64_max
      → is_missing (s.highest_contiguous + 1) s ≡ true
      → round s ≡ stop
      → RoundCase s
  at_irrelevant :
      s.highest_contiguous < int64_max
      → member (s.highest_contiguous + 1) s.irrelevant ≡ true
      → round s ≡ skip (skipped (s.highest_contiguous + 1) s)
      → RoundCase s
  at_sample :
      s.highest_contiguous < int64_max
      → member (s.highest_contiguous + 1) s.irrelevant ≡ false
      → (c : CacheChange) → find (s.highest_contiguous + 1) s.pending ≡ some c
      → round s ≡ commit c (step_to (s.highest_contiguous + 1) s)
      → RoundCase s

next64_lem : (a : ℕ) → a ≤ int64_max → next64 a ≡ a + 1
next64_lem a h = omega arith

before_end : (a : ℕ) → a < int64_max → slt64 a int64_max ≡ true
before_end a h = ground (arith, slt64_lem a int64_max)

at_the_end : slt64 int64_max int64_max ≡ false
at_the_end = ground (arith, slt64_lem int64_max int64_max)

cases_inside : (s : WriterState) → s.highest_contiguous < int64_max → RoundCase s
unfolding round
cases_inside s h =
    let e = next64_lem s.highest_contiguous (omega (arith, h)) in
    let b = before_end s.highest_contiguous h in
    elim (Bool-cases (member (s.highest_contiguous + 1) s.irrelevant)) [
      | inl m ↦ at_irrelevant h m (rw (b, e, m) refl)
      | inr m ↦ elim (Option-cases (find (s.highest_contiguous + 1) s.pending)) [
        | inl f ↦ at_gap h (rw (m, f) refl) (rw (b, e, m, f) refl)
        | inr f ↦ at_sample h m f.0 f.1 (rw (b, e, m, f.1) refl)
      ]
    ]

pub round-cases : (s : WriterState) → s.highest_contiguous ≤ int64_max → RoundCase s
unfolding round
round-cases s h = elim (Bool-cases (ltb s.highest_contiguous int64_max)) [
  | inl inside ↦ cases_inside s (ltb→lt _ _ inside)
  | inr outside ↦
      let e : s.highest_contiguous ≡ int64_max = omega (arith, h, ltb_false→le _ _ outside) in
      at_end e (rw (e, at_the_end) refl)
]

-- Each round takes an entry out of one of the two.
pub rounds-skipped :
    (next : ℕ) (s : WriterState)
    → member next s.irrelevant ≡ true
    → rounds (skipped next s) < rounds s
rounds-skipped next s h =
    omega (arith, length-erase next s.irrelevant h, length-erase_key_le next s.pending)

pub rounds-step_to :
    (next : ℕ) (c : CacheChange) (s : WriterState)
    → find next s.pending ≡ some c
    → rounds (step_to next s) < rounds s
rounds-step_to next c s h = omega (arith, length-erase_key next c s.pending h)
