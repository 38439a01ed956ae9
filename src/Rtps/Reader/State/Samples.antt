-- ===== src/Rtps/Reader/State/Samples.antt =====
-- A DATA at the state of its writer: what becomes of its number and its sample.
use mini_dds.Prelude.{
  ℕ, ◌≤◌, ◌≡◌, ◌⊎◌, inl, inr, refl, sym, ◌∙◌, arith, Bool, true, false, not, ◌&&◌, ◌||◌, leb,
  ==_refl, some, Bool-cases, if_holds,
}
use mini_dds.Rtps.Types.{int64_max, slt64}
use mini_dds.History.{CacheChange}
use mini_dds.Rtps.Reader.Sets.{member, find}
use mini_dds.Rtps.Reader.Sets.Lookup.{is_held, member-insert, find-emplace}
use mini_dds.Rtps.Reader.State.{WriterState, on_data}
use mini_dds.Rtps.Reader.State.Invariant.{IsWriterState}

-- The number is done with, or is held as a sample that waits for those before it.
abbrev pub is_taken : ℕ → WriterState → Bool
is_taken n s = leb n s.highest_contiguous || member n s.received

-- A DATA takes its number, whether it is new or not.
pub on_data-is_taken :
    (n : ℕ) (c : CacheChange) (s : WriterState)
    → n ≤ int64_max
    → s.highest_contiguous ≤ int64_max
    → is_taken n (on_data n c s) ≡ true
unfolding on_data slt64
on_data-is_taken n c s h k = ground (arith, member-insert n n s.received)

pub writer_guid-on_data :
    (n : ℕ) (c : CacheChange) (s : WriterState) → (on_data n c s).writer_guid ≡ s.writer_guid
unfolding on_data
writer_guid-on_data n c s =
    if_holds (λ (t : WriterState). t.writer_guid ≡ s.writer_guid)
      (slt64 s.highest_contiguous n && not (member n s.received)) (λ h. refl) (λ h. refl)

pub highest-on_data :
    (n : ℕ) (c : CacheChange) (s : WriterState)
    → (on_data n c s).highest_contiguous ≡ s.highest_contiguous
unfolding on_data
highest-on_data n c s =
    if_holds (λ (t : WriterState). t.highest_contiguous ≡ s.highest_contiguous)
      (slt64 s.highest_contiguous n && not (member n s.received)) (λ h. refl) (λ h. refl)

-- Its sample is kept, unless its number was done with or irrelevant.
pub on_data-sampled :
    (n : ℕ) (c : CacheChange) (s : WriterState)
    → n ≤ int64_max
    → IsWriterState s
    → (is_taken n s ≡ true)
      ⊎ ((member n s.irrelevant ≡ true)
          ⊎ ((member n (on_data n c s).irrelevant ≡ false)
              × (find n (on_data n c s).pending ≡ some c)))
unfolding on_data slt64
on_data-sampled n c s k v = elim (Bool-cases (is_taken n s)) [
  | inl old ↦ inl old
  | inr new ↦ elim (Bool-cases (member n s.irrelevant)) [
    | inl passed ↦ inr (inl passed)
    | inr wanted ↦
        let absent : is_held n s.pending ≡ false = sym (v.held n) ∙ ground (arith, new) in
        let kept : (slt64 s.highest_contiguous n && not (member n s.received)) ≡ true =
          ground (arith, new, v.highest_bounded) in
        inr (inr (rw kept (wanted, find-emplace n n c s.pending absent ∙ rw (==_refl n) refl)))
  ]
]
