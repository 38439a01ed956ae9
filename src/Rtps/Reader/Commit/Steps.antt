-- ===== src/Rtps/Reader/Commit/Steps.antt =====
-- One round of the loop of `commit_contiguous`, beside the rounds after it.
use mini_dds.Prelude.{
  ℕ, zero, suc, ◌+◌, ◌≤◌, ◌<◌, ◌≡◌, refl, sym, ap, ◌∙◌, arith, inl, inr, List, length, Bool, true,
  false, ◌&&◌, not, Option, none, some, ltb, if◌then◌else◌, Bool-cases, ltb→lt, ltb_false→le,
}
use mathlib.Core.Path.{subst}
use mini_dds.History.{CacheChange}
use mini_dds.History.Reader.{ReaderHistory, add}
use mini_dds.Rtps.Reader.Sets.{member, find, erase, erase_key}
use mini_dds.Rtps.Reader.Sets.Lookup.{
  member-erase, member-erase_other, find-erase_key, find-erase_key_other,
}
use mini_dds.Rtps.Reader.State.{WriterState}
use mini_dds.Rtps.Reader.Commit.{step_to}
use mini_dds.Rtps.Reader.Commit.Rounds.{is_missing, skipped}
use mini_dds.Rtps.Reader.Commit.Deliveries.{
  deliveries, add_changes, between, IsAdvanced, IsContiguous, Agree, IsCommit,
}

is_missing-Agree :
    (low n : ℕ) (s t : WriterState) → Agree low s t → low < n → is_missing n s ≡ is_missing n t
is_missing-Agree low n s t a h = rw (a.irrelevant_same n h, a.pending_same n h) refl

deliveries-Agree :
    (count low high : ℕ) (s t : WriterState)
    → Agree low s t
    → low ≤ high
    → deliveries count high s ≡ deliveries count high t
unfolding deliveries
deliveries-Agree zero low high s t a h = refl
deliveries-Agree (suc count) low high s t a h =
    rw
      (
        a.irrelevant_same (high + 1) (omega (arith, h)),
        a.pending_same (high + 1) (omega (arith, h)),
        deliveries-Agree count low (high + 1) s t a (omega (arith, h)),
      )
      refl

present_before :
    (count low n : ℕ) (s t : WriterState)
    → Agree (low + 1) s t
    → is_missing (low + 1) t ≡ false
    → (between (low + 1) (low + 1 + count) n && is_missing n s) ≡ false
    → (between low (low + suc count) n && is_missing n t) ≡ false
present_before count low n s t a here c = elim (Bool-cases (ltb (low + 1) n)) [
  | inl later ↦
      let same = is_missing-Agree (low + 1) n s t a (ltb→lt _ _ later) in ground (arith, same, c)
  | inr first ↦ elim (Bool-cases (ltb low n)) [
    | inr before ↦ rw before refl
    | inl now ↦
        let e : low + 1 ≡ n = omega (arith, ltb→lt _ _ now, ltb_false→le _ _ first) in
        ground (arith, ap (λ (k : ℕ). is_missing k t) e, here)
  ]
]

IsContiguous-Agree :
    (count low : ℕ) (s t : WriterState)
    → Agree (low + 1) s t
    → is_missing (low + 1) t ≡ false
    → IsContiguous count (low + 1) s
    → IsContiguous (suc count) low t
IsContiguous-Agree count low s t a here c = record {
  bounded = omega (arith, c.bounded);
  present = λ n. present_before count low n s t a here (c.present n);
  maximal = elim c.maximal [
    | inl e ↦ inl (omega (arith, e))
    | inr m ↦ inr (
        ap (λ (k : ℕ). is_missing k t) (omega arith)
        ∙ sym (is_missing-Agree (low + 1) (low + 1 + count + 1) s t a (omega arith))
        ∙ m)
  ];
}

skipped-Agree :
    (s : WriterState) → Agree (s.highest_contiguous + 1) (skipped (s.highest_contiguous + 1) s) s
skipped-Agree s = record {
  irrelevant_same = λ n h. member-erase_other n _ s.irrelevant (λ e. omega (arith, e, h));
  pending_same = λ n h. find-erase_key_other n _ s.pending (λ e. omega (arith, e, h));
}

step_to-Agree :
    (s : WriterState) → Agree (s.highest_contiguous + 1) (step_to (s.highest_contiguous + 1) s) s
step_to-Agree s = record {
  irrelevant_same = λ n h. refl;
  pending_same = λ n h. find-erase_key_other n _ s.pending (λ e. omega (arith, e, h));
}

-- One number more is done with.
member_after :
    (low high n : ℕ) (xs : List ℕ) (b : Bool)
    → low + 1 ≤ high
    → b ≡ (not (between (low + 1) high n) && member n (erase (low + 1) xs))
    → b ≡ (not (between low high n) && member n xs)
member_after low high n xs b h e =
    ground (arith, member-erase (low + 1) xs, member-erase_other n (low + 1) xs)

find_after :
    (low high n : ℕ) (xs : List (ℕ × CacheChange)) (o : Option CacheChange)
    → low + 1 ≤ high
    → o ≡ (if between (low + 1) high n then none else find n (erase_key (low + 1) xs))
    → o ≡ (if between low high n then none else find n xs)
find_after low high n xs o h e =
    ground (arith, find-erase_key (low + 1) xs, find-erase_key_other n (low + 1) xs)

member_kept :
    (low high n : ℕ) (xs : List ℕ) (b : Bool)
    → low + 1 ≤ high
    → member (low + 1) xs ≡ false
    → b ≡ (not (between (low + 1) high n) && member n xs)
    → b ≡ (not (between low high n) && member n xs)
member_kept low high n xs b h absent e = ground arith

IsAdvanced-skipped :
    (high : ℕ) (s t : WriterState)
    → s.highest_contiguous + 1 ≤ high
    → IsAdvanced high (skipped (s.highest_contiguous + 1) s) t
    → IsAdvanced high s t
IsAdvanced-skipped high s t h a = record {
  highest = a.highest;
  irrelevant_after = λ n. member_after _ high n s.irrelevant _ h (a.irrelevant_after n);
  received_after = λ n. member_after _ high n s.received _ h (a.received_after n);
  pending_after = λ n. find_after _ high n s.pending _ h (a.pending_after n);
  written = a.written;
  announced = a.announced;
  initialized = a.initialized;
}

IsAdvanced-step_to :
    (high : ℕ) (s t : WriterState)
    → s.highest_contiguous + 1 ≤ high
    → member (s.highest_contiguous + 1) s.irrelevant ≡ false
    → IsAdvanced high (step_to (s.highest_contiguous + 1) s) t
    → IsAdvanced high s t
IsAdvanced-step_to high s t h m a = record {
  highest = a.highest;
  irrelevant_after = λ n. member_kept _ high n s.irrelevant _ h m (a.irrelevant_after n);
  received_after = λ n. member_after _ high n s.received _ h (a.received_after n);
  pending_after = λ n. find_after _ high n s.pending _ h (a.pending_after n);
  written = a.written;
  announced = a.announced;
  initialized = a.initialized;
}

pub after_skipped :
    (before : ℕ) (s : WriterState) (h : ReaderHistory) (r : ℕ × WriterState × ReaderHistory)
    → member (s.highest_contiguous + 1) s.irrelevant ≡ true
    → IsCommit before (skipped (s.highest_contiguous + 1) s) h r
    → IsCommit before s h r
unfolding deliveries
after_skipped before s h r m c =
    let low = s.highest_contiguous in
    let same = deliveries-Agree c.count (low + 1) (low + 1) _ s (skipped-Agree s) (omega arith) in
    let top : low + 1 + c.count ≡ low + suc c.count = omega arith in
    record {
      count = suc c.count;
      contiguous = IsContiguous-Agree c.count low _ s (skipped-Agree s) (rw m refl) c.contiguous;
      advanced =
          IsAdvanced-skipped _ s r.1 (omega arith)
            (subst (λ (k : ℕ). IsAdvanced k (skipped (low + 1) s) r.1) top c.advanced);
      committed = rw m (c.committed ∙ ap (λ (cs : List CacheChange). before + length cs) same);
      added = rw m (c.added ∙ ap (λ (cs : List CacheChange). add_changes cs h) same);
    }

pub after_step_to :
    (before : ℕ) (s : WriterState) (h : ReaderHistory) (v : CacheChange)
    (r : ℕ × WriterState × ReaderHistory)
    → member (s.highest_contiguous + 1) s.irrelevant ≡ false
    → find (s.highest_contiguous + 1) s.pending ≡ some v
    → IsCommit (before + 1) (step_to (s.highest_contiguous + 1) s) (add v h).1 r
    → IsCommit before s h r
unfolding deliveries
after_step_to before s h v r m f c =
    let low = s.highest_contiguous in
    let same = deliveries-Agree c.count (low + 1) (low + 1) _ s (step_to-Agree s) (omega arith) in
    let top : low + 1 + c.count ≡ low + suc c.count = omega arith in
    record {
      count = suc c.count;
      contiguous =
          IsContiguous-Agree c.count low _ s (step_to-Agree s) (rw (m, f) refl) c.contiguous;
      advanced =
          IsAdvanced-step_to _ s r.1 (omega arith) m
            (subst (λ (k : ℕ). IsAdvanced k (step_to (low + 1) s) r.1) top c.advanced);
      committed =
          rw (m, f) (omega (arith, c.committed, ap (λ (cs : List CacheChange). length cs) same));
      added = rw (m, f) (c.added ∙ ap (λ (cs : List CacheChange). add_changes cs (add v h).1) same);
    }
