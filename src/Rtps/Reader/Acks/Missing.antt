-- ===== src/Rtps/Reader/Acks/Missing.antt =====
-- What an ACKNACK asks for.
use mini_dds.Prelude.{
  ℕ, zero, suc, ◌+◌, ◌-◌, ◌/◌, ◌%◌, ◌^◌, ◌≤◌, ◌<◌, ◌≡◌, refl, ap, ◌∙◌, arith, List, [], ◌∷◌, get_or,
  length, replicate, length-replicate, Bool, true, false, not, ◌&&◌, ◌||◌, ltb, leb, Bool-cases,
  Option-cases, if_holds, inl, inr, ==_refl, ltb_false→le, ltb→lt, lt→leb_false,
}
use mini_dds.Prelude.Bits.Single.{test_bit, bit_and_single}
use mini_dds.History.{CacheChange}
use mini_dds.Rtps.Types.{slt64, slt64_lem, sle64_lem, int64_max}
use mini_dds.Rtps.Reliability.SequenceSet.{SequenceNumberSet, contains}
use mini_dds.Rtps.Reader.Sets.{member, max_key, keys, find}
use mini_dds.Rtps.Reader.Sets.Lookup.{member-keys}
use mini_dds.Rtps.Reader.State.{WriterState}
use mini_dds.Rtps.Reader.State.Invariant.{IsWriterState}
use mini_dds.Rtps.Reader.Acks.{ack_base, ack_bits, last_known, reader_state}
use mini_dds.Rtps.Reader.Acks.Bitmap.{bit_at, is_known, bit_at-mark_missing, length-mark_missing}

max_key_bounded :
    (ms : List (ℕ × CacheChange)) (low : ℕ)
    → low ≤ int64_max
    → ((n : ℕ) → member n (keys ms) ≡ true → n ≤ int64_max)
    → max_key low ms ≤ int64_max
unfolding max_key
max_key_bounded [] low h k = h
max_key_bounded ((m, v) ∷ ms) low h k =
    max_key_bounded ms _
      (if_holds (λ (n : ℕ). n ≤ int64_max) (slt64 low m) (λ e. k m (ground (arith, ==_refl m)))
        (λ e. h))
      (λ n e. k n (ground (arith, e)))

pub ack_base_bounded : (s : WriterState) → s.highest_contiguous ≤ int64_max → ack_base s ≤ int64_max
ack_base_bounded s h = ground arith

known_key :
    (s : WriterState) → IsWriterState s → (n : ℕ) → member n (keys s.pending) ≡ true → n ≤ int64_max
known_key s v n e = elim (Option-cases (find n s.pending)) [
  | inl f ↦ absurd (ground (arith, member-keys n s.pending))
  | inr f ↦ (v.labelled n f.0 f.1).bounded
]

pub last_known_bounded : (s : WriterState) → IsWriterState s → last_known s ≤ int64_max
last_known_bounded s v =
    max_key_bounded s.pending s.last_announced v.announced_bounded (known_key s v)

-- The numbers that it speaks of are numbers of int64_t.
pub ack_bits_bounded : (s : WriterState) → IsWriterState s → (ack_base s + ack_bits s ≤ 2 ^ 63)
ack_bits_bounded s v = ground (
  arith,
  sle64_lem (ack_base s) (last_known s),
  ack_base_bounded s v.highest_bounded,
  last_known_bounded s v,
)

get_or-zeros : (n i : ℕ) → get_or {A = ℕ} (replicate n 0) i 0 ≡ 0
get_or-zeros zero i = refl
get_or-zeros (suc n) zero = refl
get_or-zeros (suc n) (suc i) = get_or-zeros n i

test_bit-zero : (k : ℕ) → test_bit 0 k ≡ false
test_bit-zero zero = refl
test_bit-zero (suc k) = test_bit-zero k

bit_at-zeros : (n p : ℕ) → bit_at (replicate n 0) p ≡ false
bit_at-zeros n p =
    ap (λ (w : ℕ). test_bit w (31 - p % 32)) (get_or-zeros n (p / 32)) ∙ test_bit-zero (31 - p % 32)

-- `contains` reads the bit of a set whose words are there.
contains-bit_at :
    (set : SequenceNumberSet) (n : ℕ)
    → set.bitmap_base.value < 2 ^ 63
    → n < 2 ^ 63
    → length set.bitmap ≡ (set.num_bits + 31) / 32
    → contains set (record { value = n }) ≡ (
        leb set.bitmap_base.value n
        && ltb n (set.bitmap_base.value + set.num_bits)
        && bit_at set.bitmap (n - set.bitmap_base.value))
unfolding contains
contains-bit_at set n hb hn sized = elim (Bool-cases (ltb n set.bitmap_base.value)) [
  | inl below ↦
      rw (slt64_lem n set.bitmap_base.value hn hb, below, lt→leb_false _ _ (ltb→lt _ _ below)) refl
  | inr above ↦
      let at = n - set.bitmap_base.value in
      let offset : (n + 2 ^ 64 - set.bitmap_base.value) % 2 ^ 64 ≡ at =
        omega (arith, ltb_false→le _ _ above, hn) in
      rw
        (
          slt64_lem n set.bitmap_base.value hn hb,
          above,
          offset,
          bit_and_single (31 - at % 32) (get_or set.bitmap (at / 32) 0),
        )
        (ground (arith, sized, ltb_false→le _ _ above))
]

asked :
    (base bits n : ℕ) (s : WriterState) (zero_bit : Bool)
    → n < 2 ^ 63
    → zero_bit ≡ false
    → (leb base n
        && ltb n (base + bits)
        && ((leb 0 (n - base)
              && ltb (n - base) (0 + bits)
              && not (is_known ((base + (n - base)) % 2 ^ 64) s))
            || zero_bit))
      ≡ (leb base n && ltb n (base + bits) && not (is_known n s))
asked base bits n s zero_bit h z = elim (Bool-cases (leb base n)) [
  | inl from ↦
      let q : (base + (n - base)) % 2 ^ 64 ≡ n = ground arith in
      ground (arith, z, ap (λ (k : ℕ). is_known k s) q)
  | inr before ↦ rw before refl
]

-- The ACKNACK set of a well-formed state asks for a number of int64_t exactly if it lies from the
-- base of the set on and below the end of what the set speaks of, and the reader neither has
-- received it nor knows it to be irrelevant.
pub contains-reader_state :
    (s : WriterState) (n : ℕ)
    → IsWriterState s
    → n < 2 ^ 63
    → contains (reader_state s) (record { value = n })
      ≡ (leb (ack_base s) n && ltb n (ack_base s + ack_bits s) && not (is_known n s))
unfolding reader_state
contains-reader_state s n v h =
    let base = ack_base s in
    let bits = ack_bits s in
    let words = (bits + 31) / 32 in
    let zeros : List ℕ = replicate words 0 in
    contains-bit_at (reader_state s) n (omega (arith, ack_base_bounded s v.highest_bounded)) h
      (length-mark_missing bits 0 base s zeros ∙ length-replicate words 0)
    ∙ ap (λ (b : Bool). leb base n && ltb n (base + bits) && b)
        (bit_at-mark_missing bits 0 base s zeros (n - base)
          (omega (arith, length-replicate {A = ℕ} words 0)))
    ∙ asked base bits n s (bit_at zeros (n - base)) h (bit_at-zeros words (n - base))
