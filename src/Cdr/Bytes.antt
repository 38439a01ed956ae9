-- ===== src/Cdr/Bytes.antt =====
-- What the loops of `write_unsigned` write and those of `read_unsigned` read, for the two widths on
-- the wire: 2 and 4 bytes.
use mini_dds.Prelude.{
  ℕ, ◌+◌, ◌*◌, ◌/◌, ◌%◌, ◌^◌, ◌<◌, bit_or, ◌≡◌, ap, ◌∙◌, arith, List, [], ◌∷◌, ◌++◌, append_assoc,
  get_or, drop, get_or-drop,
}
use native.Mathlib.Nat.{div-one}
use mini_dds.Prelude.Bits.{bit_or_high, bit_or_low, zero-bit_or}
use mini_dds.Cdr.Writer.{Endianness, big, little, push_little, push_big}
use mini_dds.Cdr.Reader.{read_little, read_big, collect}

-- The bytes of a 16-bit and of a 32-bit value in either order.
abbrev pub bytes16 : Endianness → ℕ → List ℕ
bytes16 little v = (v % 256) ∷ (v / 256 % 256) ∷ []
bytes16 big v = (v / 256 % 256) ∷ (v % 256) ∷ []

abbrev pub bytes32 : Endianness → ℕ → List ℕ
bytes32 little v = (v % 256) ∷ (v / 256 % 256) ∷ (v / 65536 % 256) ∷ (v / 16777216 % 256) ∷ []
bytes32 big v = (v / 16777216 % 256) ∷ (v / 65536 % 256) ∷ (v / 256 % 256) ∷ (v % 256) ∷ []

pub push_little_two : (v : ℕ) (xs : List ℕ) → push_little 2 0 v xs ≡ xs ++ bytes16 little v
unfolding push_little
push_little_two v xs = simp (append_assoc, div-one)

pub push_big_two : (v : ℕ) (xs : List ℕ) → push_big 2 0 2 v xs ≡ xs ++ bytes16 big v
unfolding push_big
push_big_two v xs = simp (append_assoc, div-one)

pub push_little_four : (v : ℕ) (xs : List ℕ) → push_little 4 0 v xs ≡ xs ++ bytes32 little v
unfolding push_little
push_little_four v xs = simp (append_assoc, div-one)

pub push_big_four : (v : ℕ) (xs : List ℕ) → push_big 4 0 4 v xs ≡ xs ++ bytes32 big v
unfolding push_big
push_big_four v xs = simp (append_assoc, div-one)

byte_at :
    (bs : List ℕ) (at i : ℕ) (front : List ℕ)
    → drop at bs ≡ front
    → get_or bs (at + i) 0 ≡ get_or front i 0
byte_at bs at i front e = get_or-drop at i bs 0 ∙ ap (λ (l : List ℕ). get_or l i 0) e

shifted : (x k : ℕ) → x * 2 ^ k < 2 ^ 64 → x * 2 ^ k % 2 ^ 64 ≡ x * 2 ^ k
shifted x k h = omega arith

join_little :
    (a b c d : ℕ)
    → a < 256
    → b < 256
    → c < 256
    → d < 256
    → bit_or
        (bit_or (bit_or (bit_or 0 (a * 2 ^ 0 % 2 ^ 64)) (b * 2 ^ 8 % 2 ^ 64)) (c * 2 ^ 16 % 2 ^ 64))
        (d * 2 ^ 24 % 2 ^ 64)
      ≡ a + b * 256 + c * 65536 + d * 16777216
join_little a b c d ha hb hc hd =
    rw
      (
        shifted a 0 (omega arith),
        shifted b 8 (omega arith),
        shifted c 16 (omega arith),
        shifted d 24 (omega arith),
        zero-bit_or,
        bit_or_high 8 (a * 2 ^ 0) b (omega arith),
        bit_or_high 16 (a * 2 ^ 0 + b * 2 ^ 8) c (omega arith),
        bit_or_high 24 (a * 2 ^ 0 + b * 2 ^ 8 + c * 2 ^ 16) d (omega arith),
      )
      (omega arith)

join_big :
    (a b c d : ℕ)
    → a < 256
    → b < 256
    → c < 256
    → d < 256
    → bit_or (bit_or (bit_or (bit_or 0 a * 2 ^ 8 % 2 ^ 64) b * 2 ^ 8 % 2 ^ 64) c * 2 ^ 8 % 2 ^ 64) d
      ≡ d + c * 256 + b * 65536 + a * 16777216
join_big a b c d ha hb hc hd =
    rw
      (
        zero-bit_or,
        shifted a 8 (omega arith),
        bit_or_low 8 a b hb,
        shifted (a * 2 ^ 8 + b) 8 (omega arith),
        bit_or_low 8 (a * 2 ^ 8 + b) c hc,
        shifted ((a * 2 ^ 8 + b) * 2 ^ 8 + c) 8 (omega arith),
        bit_or_low 8 ((a * 2 ^ 8 + b) * 2 ^ 8 + c) d hd,
      )
      (omega arith)

pub read_little_four :
    (bs : List ℕ) (at a b c d : ℕ) (rest : List ℕ)
    → drop at bs ≡ a ∷ b ∷ c ∷ d ∷ rest
    → a < 256
    → b < 256
    → c < 256
    → d < 256
    → read_little 4 0 bs at 0 ≡ a + b * 256 + c * 65536 + d * 16777216
unfolding read_little
read_little_four bs at a b c d rest e ha hb hc hd =
    rw (byte_at bs at 0 _ e, byte_at bs at 1 _ e, byte_at bs at 2 _ e, byte_at bs at 3 _ e)
      (join_little a b c d ha hb hc hd)

pub read_big_four :
    (bs : List ℕ) (at a b c d : ℕ) (rest : List ℕ)
    → drop at bs ≡ a ∷ b ∷ c ∷ d ∷ rest
    → a < 256
    → b < 256
    → c < 256
    → d < 256
    → read_big 4 0 bs at 0 ≡ d + c * 256 + b * 65536 + a * 16777216
unfolding read_big
read_big_four bs at a b c d rest e ha hb hc hd =
    rw (byte_at bs at 0 _ e, byte_at bs at 1 _ e, byte_at bs at 2 _ e, byte_at bs at 3 _ e)
      (join_big a b c d ha hb hc hd)

digits_sum :
    (v : ℕ)
    → v < 2 ^ 32
    → v % 256 + v / 256 % 256 * 256 + v / 65536 % 256 * 65536 + v / 16777216 % 256 * 16777216 ≡ v
digits_sum v h = omega arith

-- A 32-bit value written at a place is read there.
pub read_four :
    (e : Endianness) (bs : List ℕ) (at v : ℕ) (rest : List ℕ)
    → v < 2 ^ 32
    → drop at bs ≡ bytes32 e v ++ rest
    → collect e 4 bs at ≡ v
read_four little bs at v rest h p =
    read_little_four bs at _ _ _ _ rest p (omega arith) (omega arith) (omega arith) (omega arith)
    ∙ digits_sum v h
read_four big bs at v rest h p =
    read_big_four bs at _ _ _ _ rest p (omega arith) (omega arith) (omega arith) (omega arith)
    ∙ digits_sum v h

join_two_little :
    (a b : ℕ)
    → a < 256
    → b < 256
    → bit_or (bit_or 0 (a * 2 ^ 0 % 2 ^ 64)) (b * 2 ^ 8 % 2 ^ 64) ≡ a + b * 256
join_two_little a b ha hb =
    rw
      (
        shifted a 0 (omega arith),
        shifted b 8 (omega arith),
        zero-bit_or,
        bit_or_high 8 (a * 2 ^ 0) b (omega arith),
      )
      (omega arith)

join_two_big : (a b : ℕ) → a < 256 → b < 256 → bit_or (bit_or 0 a * 2 ^ 8 % 2 ^ 64) b ≡ b + a * 256
join_two_big a b ha hb =
    rw (zero-bit_or, shifted a 8 (omega arith), bit_or_low 8 a b hb) (omega arith)

pub read_two :
    (e : Endianness) (bs : List ℕ) (at v : ℕ) (rest : List ℕ)
    → v < 2 ^ 16
    → drop at bs ≡ bytes16 e v ++ rest
    → collect e 2 bs at ≡ v
unfolding read_little read_big
read_two little bs at v rest h p =
    rw (byte_at bs at 0 _ p, byte_at bs at 1 _ p)
      (join_two_little (v % 256) (v / 256 % 256) (omega arith) (omega arith) ∙ omega arith)
read_two big bs at v rest h p =
    rw (byte_at bs at 0 _ p, byte_at bs at 1 _ p)
      (join_two_big (v / 256 % 256) (v % 256) (omega arith) (omega arith) ∙ omega arith)
