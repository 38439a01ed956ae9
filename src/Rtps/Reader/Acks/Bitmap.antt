-- ===== src/Rtps/Reader/Acks/Bitmap.antt =====
-- The bitmap of an ACKNACK, bit by bit.
use mini_dds.Prelude.{
  ℕ, zero, suc, ◌+◌, ◌-◌, ◌*◌, ◌/◌, ◌%◌, ◌^◌, bit_or, ◌≤◌, ◌<◌, ◌≡◌, refl, ap, ◌∙◌, arith, List,
  get_or, get_or-set, length, length-set, Bool, not, ◌&&◌, ◌||◌, ltb, leb, ◌==◌, if◌then◌else◌,
  Bool-cases, if_holds, inl, inr,
}
use mini_dds.Prelude.Bits.Single.{test_bit, test_bit-bit_or}
use mini_dds.Rtps.Reader.Sets.{member}
use mini_dds.Rtps.Reader.State.{WriterState}
use mini_dds.Rtps.Reader.Acks.{mark, mark_missing}

-- The bit for an offset: the first is the highest of the first word.
abbrev pub bit_at : List ℕ → ℕ → Bool
bit_at bitmap offset = test_bit (get_or bitmap (offset / 32) 0) (31 - offset % 32)

same_place : (o p : ℕ) → o / 32 ≡ p / 32 → (31 - o % 32 == 31 - p % 32) ≡ (o == p)
same_place o p h = ground arith

bit_at-mark :
    (o p : ℕ) (bitmap : List ℕ)
    → o / 32 < length bitmap
    → bit_at (mark o bitmap) p ≡ (o == p || bit_at bitmap p)
unfolding mark
bit_at-mark o p bitmap h = elim (Bool-cases (o / 32 == p / 32)) [
  | inl same ↦
      let q : o / 32 ≡ p / 32 = ground arith in
      let word : get_or (mark o bitmap) (p / 32) 0
          ≡ bit_or (get_or bitmap (p / 32) 0) (2 ^ (31 - o % 32)) =
        ground (
          arith,
          get_or-set bitmap (o / 32) (p / 32)
              (bit_or (get_or bitmap (o / 32) 0) (2 ^ (31 - o % 32))) 0 h,
          ap (λ (n : ℕ). get_or bitmap n 0) q,
        ) in
      ap (λ (n : ℕ). test_bit n (31 - p % 32)) word
      ∙ test_bit-bit_or (31 - p % 32) (31 - o % 32) (get_or bitmap (p / 32) 0)
      ∙ ap (λ (b : Bool). b || bit_at bitmap p) (same_place o p q)
  | inr other ↦
      let word : get_or (mark o bitmap) (p / 32) 0 ≡ get_or bitmap (p / 32) 0 = ground (
        arith,
        get_or-set bitmap (o / 32) (p / 32) (bit_or (get_or bitmap (o / 32) 0) (2 ^ (31 - o % 32)))
            0 h,
      ) in
      ap (λ (n : ℕ). test_bit n (31 - p % 32)) word ∙ ground arith
]

length-mark : (o : ℕ) (bitmap : List ℕ) → length (mark o bitmap) ≡ length bitmap
unfolding mark
length-mark o bitmap = length-set bitmap (o / 32) _

-- The reader has the number, or need not have it.
abbrev pub is_known : ℕ → WriterState → Bool
is_known n s = member n s.received || member n s.irrelevant

one_round :
    (offset base : ℕ) (s : WriterState) (bitmap : List ℕ) (p : ℕ)
    → offset / 32 < length bitmap
    → bit_at (if is_known ((base + offset) % 2 ^ 64) s then bitmap else mark offset bitmap) p
      ≡ ((offset == p && not (is_known ((base + offset) % 2 ^ 64) s)) || bit_at bitmap p)
one_round offset base s bitmap p h = ground (arith, bit_at-mark offset p bitmap h)

length-step :
    (offset base : ℕ) (s : WriterState) (bitmap : List ℕ)
    → length (if is_known ((base + offset) % 2 ^ 64) s then bitmap else mark offset bitmap)
      ≡ length bitmap
length-step offset base s bitmap =
    if_holds (λ (bs : List ℕ). length bs ≡ length bitmap) (is_known ((base + offset) % 2 ^ 64) s)
      (λ k. refl) (λ k. length-mark offset bitmap)

pub length-mark_missing :
    (rounds offset base : ℕ) (s : WriterState) (bitmap : List ℕ)
    → length (mark_missing rounds offset base s bitmap) ≡ length bitmap
unfolding mark_missing
length-mark_missing zero offset base s bitmap = refl
length-mark_missing (suc rounds) offset base s bitmap =
    length-mark_missing rounds (offset + 1) base s _ ∙ length-step offset base s bitmap

-- The later rounds and this one together.
joined :
    (offset rounds p : ℕ) (b known here : Bool)
    → (offset ≡ p → here ≡ known)
    → ((leb (offset + 1) p && ltb p (offset + 1 + rounds) && not known)
        || ((offset == p && not here) || b))
      ≡ ((leb offset p && ltb p (offset + suc rounds) && not known) || b)
joined offset rounds p b known here h = ground (arith, h)

pub bit_at-mark_missing :
    (rounds offset base : ℕ) (s : WriterState) (bitmap : List ℕ) (p : ℕ)
    → offset + rounds ≤ 32 * length bitmap
    → bit_at (mark_missing rounds offset base s bitmap) p ≡ (
        (leb offset p && ltb p (offset + rounds) && not (is_known ((base + p) % 2 ^ 64) s))
        || bit_at bitmap p)
unfolding mark_missing
bit_at-mark_missing zero offset base s bitmap p h = ground arith
bit_at-mark_missing (suc rounds) offset base s bitmap p h =
    let step = if is_known ((base + offset) % 2 ^ 64) s then bitmap else mark offset bitmap in
    let sized : length step ≡ length bitmap = length-step offset base s bitmap in
    bit_at-mark_missing rounds (offset + 1) base s step p (omega (arith, sized, h))
    ∙ ap
        (λ (b : Bool).
          (leb (offset + 1) p
            && ltb p (offset + 1 + rounds)
            && not (is_known ((base + p) % 2 ^ 64) s))
          || b)
        (one_round offset base s bitmap p (omega (arith, h)))
    ∙ joined offset rounds p (bit_at bitmap p) (is_known ((base + p) % 2 ^ 64) s)
        (is_known ((base + offset) % 2 ^ 64) s)
        (λ q. ap (λ (n : ℕ). is_known ((base + n) % 2 ^ 64) s) q)
