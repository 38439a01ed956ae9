-- ===== src/Cdr/Written.antt =====
-- What the writer appends: a rule for each kind of field, and one for a sequence of fields.

use mini_dds.Prelude.{
  ℕ, ◌+◌, ◌%◌, ◌≡◌, refl, ap, ◌∙◌, arith, List, ◌++◌, append_assoc, append-nil, length,
  length-append,
}
use mini_dds.Cdr.Writer.{
  Endianness, big, little, CdrWriter, Write, ◌>>◌, new_writer, put, padding, align, write_unsigned,
  write_uint16, write_uint32, write_int32, write_bytes,
}
use mini_dds.Cdr.Bytes.{
  bytes16, bytes32, push_little_two, push_big_two, push_little_four, push_big_four,
}

-- From a size that is `k` past a multiple of 4 the write appends `xs`, and ends `l` past one.
abbrev pub Writes : Endianness → ℕ → ℕ → Write → List ℕ → Type 0
Writes e k l f xs =
    (w : CdrWriter)
    → w.endianness ≡ e
    → length w.bytes % 4 ≡ k
    → (f w ≡ put xs w) × (length (put xs w).bytes % 4 ≡ l)

pub then-Writes :
    (e : Endianness) (k l n : ℕ) (f g : Write) (xs ys : List ℕ)
    → Writes e k l f xs
    → Writes e l n g ys
    → Writes e k n (f >> g) (xs ++ ys)
then-Writes e k l n f g xs ys first second w o h =
    let (p, h') = first w o h in
    let (q, h'') = second (put xs w) o h' in
    (ap g p ∙ q ∙ joined, rw (← append_assoc w.bytes xs ys) h'')
  where
    joined : put ys (put xs w) ≡ put (xs ++ ys) w
    joined = λ i. record w { bytes = append_assoc w.bytes xs ys i }

pub align_none :
    (alignment : ℕ) (w : CdrWriter) → padding alignment (length w.bytes) ≡ 0 → align alignment w ≡ w
unfolding align
align_none alignment w h = rw h (λ i. record w { bytes = append-nil w.bytes i })

pub write_uint32-Writes : (e : Endianness) (v : ℕ) → Writes e 0 0 (write_uint32 v) (bytes32 e v)
unfolding write_uint32 write_unsigned
write_uint32-Writes little v w o h = (
  rw (align_none 4 w (omega arith), o, push_little_four v w.bytes),
  omega (arith, length-append w.bytes (bytes32 little v)),
)
write_uint32-Writes big v w o h = (
  rw (align_none 4 w (omega arith), o, push_big_four v w.bytes),
  omega (arith, length-append w.bytes (bytes32 big v)),
)

pub write_int32-Writes : (e : Endianness) (v : ℕ) → Writes e 0 0 (write_int32 v) (bytes32 e v)
unfolding write_int32
write_int32-Writes e v = write_uint32-Writes e v

pub write_uint16-Writes :
    (e : Endianness) (k l v : ℕ)
    → k % 2 ≡ 0
    → (k + 2) % 4 ≡ l
    → Writes e k l (write_uint16 v) (bytes16 e v)
unfolding write_uint16 write_unsigned
write_uint16-Writes little k l v even p w o h = (
  rw (align_none 2 w (omega arith), o, push_little_two v w.bytes),
  omega (arith, length-append w.bytes (bytes16 little v)),
)
write_uint16-Writes big k l v even p w o h = (
  rw (align_none 2 w (omega arith), o, push_big_two v w.bytes),
  omega (arith, length-append w.bytes (bytes16 big v)),
)

pub write_bytes-Writes :
    (e : Endianness) (k l : ℕ) (xs : List ℕ)
    → (k + length xs) % 4 ≡ l
    → Writes e k l (write_bytes xs) xs
unfolding write_bytes
write_bytes-Writes e k l xs p w o h = (refl, omega (arith, length-append w.bytes xs))

-- A fresh writer holds what was written.
pub new_writer-Writes :
    (e : Endianness) (l : ℕ) (f : Write) (xs : List ℕ)
    → Writes e 0 l f xs
    → (f (new_writer e)).bytes ≡ xs
new_writer-Writes e l f xs h =
    ap (λ (w : CdrWriter). w.bytes) (h (new_writer e) refl (omega arith)).0
