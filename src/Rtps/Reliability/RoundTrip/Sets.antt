-- ===== src/Rtps/Reliability/RoundTrip/Sets.antt =====
-- The round trip of a SequenceNumberSet.
use mathlib.Core.Path.{subst}
use mini_dds.Prelude.{
  ℕ, ◌+◌, ◌*◌, ◌^◌, ◌≤◌, ◌<◌, ◌≡◌, refl, sym, le→ltb_false, arith, List, [], ◌∷◌, ◌++◌, append-nil,
  length, length-append, false, none, All,
}
use mini_dds.Cdr.Writer.{Endianness}
use mini_dds.Cdr.Bytes.{bytes32}
use mini_dds.Cdr.RoundTrip.{read_uint32-Parses, length-bytes32}
use mini_dds.Cdr.Written.{Writes, then-Writes, write_uint32-Writes}
use mini_dds.Rtps.Types.{sle64}
use mini_dds.Rtps.Codec.Fields.{
  sequence_bytes, write_sequence_number-Writes, read_sequence_number-Parses,
}
use mini_dds.Rtps.Checked.{
  Accepts, or_else-Accepts, return-Accepts, bind-Accepts, closing-Accepts, last-Accepts,
  reject_if-Accepts,
}
use mini_dds.Rtps.Reliability.SequenceSet.{
  SequenceNumberSet, required_bitmap_words, validate_sequence_number_set, write_words,
  write_sequence_number_set,
}
use mini_dds.Rtps.Reliability.ReadSet.{read_words, read_sequence_number_set}

-- The base is a 64-bit pattern and the words are 32-bit words.
pub record IsSequenceSet (s : SequenceNumberSet) : Type 0 where
  pub base : s.bitmap_base.value < 2 ^ 64
  pub words : All (λ (w : ℕ). w < 2 ^ 32) s.bitmap

abbrev pub words_bytes : Endianness → List ℕ → List ℕ
words_bytes e [] = []
words_bytes e (w ∷ ws) = bytes32 e w ++ words_bytes e ws

abbrev pub set_bytes : Endianness → SequenceNumberSet → List ℕ
set_bytes e s = sequence_bytes e s.bitmap_base ++ (bytes32 e s.num_bits ++ words_bytes e s.bitmap)

pub length-words_bytes : (e : Endianness) (ws : List ℕ) → length (words_bytes e ws) ≡ 4 * length ws
length-words_bytes e [] = refl
length-words_bytes e (w ∷ ws) = omega (
  arith,
  length-append (bytes32 e w) (words_bytes e ws),
  length-bytes32 e w,
  length-words_bytes e ws,
)

nothing-Writes : (e : Endianness) (k : ℕ) → Writes e k k (λ w. w) []
nothing-Writes e k w o h =
    (λ i. record w { bytes = sym (append-nil w.bytes) i }, rw (append-nil w.bytes) h)

write_words-Writes :
    (e : Endianness) (ws : List ℕ) → Writes e 0 0 (write_words ws) (words_bytes e ws)
unfolding write_words
write_words-Writes e [] = nothing-Writes e 0
write_words-Writes e (x ∷ ws) =
    then-Writes e 0 0 0 _ _ _ _ (write_uint32-Writes e x) (write_words-Writes e ws)

pub write_sequence_number_set-Writes :
    (e : Endianness) (s : SequenceNumberSet)
    → Writes e 0 0 (write_sequence_number_set s) (set_bytes e s)
unfolding write_sequence_number_set
write_sequence_number_set-Writes e s =
    then-Writes e 0 0 0 _ _ _ _ (write_sequence_number-Writes e _)
      (then-Writes e 0 0 0 _ _ _ _ (write_uint32-Writes e _) (write_words-Writes e s.bitmap))

read_words-Accepts :
    (e : Endianness) (ws : List ℕ)
    → All (λ (w : ℕ). w < 2 ^ 32) ws
    → Accepts e 0 0 (read_words (length ws)) (words_bytes e ws) ws
unfolding read_words
read_words-Accepts e [] small = return-Accepts e 0 [] [] refl
read_words-Accepts e (w ∷ ws) small =
    bind-Accepts e 0 0 0 _ _ _ _ w (w ∷ ws)
      (or_else-Accepts e 0 0 _ _ _ _ (read_uint32-Parses e w small.0))
      (last-Accepts e 0 0 _ _ _ ws (w ∷ ws) refl (read_words-Accepts e ws small.1))

-- What a valid set satisfies.
pub record Valid (s : SequenceNumberSet) : Type 0 where
  pub positive : sle64 s.bitmap_base.value 0 ≡ false
  pub narrow : s.num_bits ≤ 256
  pub sized : length s.bitmap ≡ required_bitmap_words s.num_bits

pub validate-Valid : (s : SequenceNumberSet) → validate_sequence_number_set s ≡ none → Valid s
unfolding validate_sequence_number_set
validate-Valid s h = record { positive = ground arith; narrow = ground arith; sized = ground arith }

pub length-set_bytes :
    (e : Endianness) (s : SequenceNumberSet)
    → Valid s
    → (length (set_bytes e s) ≡ 12 + 4 * length s.bitmap) × (length s.bitmap ≤ 8)
length-set_bytes e s v = (
  simp (length-append, length-bytes32, length-words_bytes) (omega arith),
  omega (arith, v.sized, v.narrow),
)

pub read_sequence_number_set-Accepts :
    (e : Endianness) (s : SequenceNumberSet)
    → IsSequenceSet s
    → validate_sequence_number_set s ≡ none
    → Accepts e 0 0 read_sequence_number_set (set_bytes e s) s
unfolding read_sequence_number_set
read_sequence_number_set-Accepts e s w h =
    let v = validate-Valid s h in
    bind-Accepts e 0 0 0 _ _ _ _ s.bitmap_base s
      (or_else-Accepts e 0 0 _ _ _ _ (read_sequence_number-Parses e s.bitmap_base w.base))
      (bind-Accepts e 0 0 0 _ _ _ _ s.num_bits s
        (or_else-Accepts e 0 0 _ _ _ _ (read_uint32-Parses e s.num_bits (omega (arith, v.narrow))))
        (reject_if-Accepts e 0 0 _ _ _ _ s v.positive (
          reject_if-Accepts e 0 0 _ _ _ _ s (le→ltb_false 256 s.num_bits v.narrow) (
            closing-Accepts e 0 0 0 _ _ _ s.bitmap s
              (subst (λ (n : ℕ). Accepts e 0 0 (read_words n) (words_bytes e s.bitmap) s.bitmap)
                v.sized (read_words-Accepts e s.bitmap w.words))
              (λ r rest ready. (r, rw h, ready))))))
