-- ===== src/Cdr/RoundTrip.antt =====
-- What a reader makes of bytes that the writer made: a rule for each kind of field, and one for a
-- sequence of fields.
use mini_dds.Prelude.{
  ℕ, ◌+◌, ◌%◌, ◌^◌, ◌≤◌, ◌<◌, ◌≡◌, refl, ap, ◌∙◌, arith, List, [], ◌++◌, append_assoc, length,
  length-append, take-append, drop, drop-append, drop-drop, true, some,
}
use native.Mathlib.Nat.{add-zero, mod-eq_of_lt}
use mini_dds.Cdr.Writer.{Endianness, big, little, padding}
use mini_dds.Cdr.Reader.{
  CdrReader, Read, new_reader, ◌>>=◌, pure, advance, require, align, cast, collect, read_unsigned,
  read_uint16, read_uint32, read_int32, read_bytes,
}
use mini_dds.Cdr.Bytes.{bytes16, bytes32, read_four, read_two}

-- A reader that has `xs` left to read, at an offset that is `phase` past a multiple of 4.
pub record Ready (e : Endianness) (phase : ℕ) (xs : List ℕ) (r : CdrReader) : Type 0 where
  pub order : r.endianness ≡ e
  pub sound : r.valid ≡ true
  pub here : drop r.offset r.bytes ≡ xs
  pub fits : r.offset + length xs ≡ length r.bytes
  pub phased : r.offset % 4 ≡ phase

-- The read `m` takes `xs` from the front, whatever follows, and returns `a`.
abbrev pub Parses : {A : Type 0} → Endianness → ℕ → ℕ → Read A → List ℕ → A → Type 0
Parses e phase phase' m xs a =
    (r : CdrReader) (rest : List ℕ)
    → Ready e phase (xs ++ rest) r
    → (r' : CdrReader) × (m r ≡ (some a, r')) × Ready e phase' rest r'

pub pure-Parses : {A : Type 0} (e : Endianness) (k : ℕ) (a : A) → Parses e k k (pure a) [] a
pure-Parses e k a r rest h = (r, refl, h)

pub bind-Parses :
    {A B : Type 0} (e : Endianness) (k l n : ℕ) (m : Read A) (f : A → Read B) (xs ys : List ℕ)
    (a : A) (b : B)
    → Parses e k l m xs a
    → Parses e l n (f a) ys b
    → Parses e k n (m >>= f) (xs ++ ys) b
bind-Parses e k l n m f xs ys a b first second r rest h =
    let (r', e', h') = first r (ys ++ rest) (rw append_assoc at h) in
    let (r'', e'', h'') = second r' rest h' in (r'', rw e' e'', h'')

-- The last field of a record.
pub last-Parses :
    {A B : Type 0} (e : Endianness) (k l : ℕ) (m : Read A) (make : A → B) (xs : List ℕ) (a : A)
    (b : B)
    → make a ≡ b
    → Parses e k l m xs a
    → Parses e k l (m >>= λ x. pure (make x)) xs b
last-Parses e k l m make xs a b p field r rest h =
    let (r', e', h') = field r rest h in (r', rw e' (rw p), h')

pub require_lem :
    (count : ℕ) (r : CdrReader)
    → r.valid ≡ true
    → r.offset + count ≤ length r.bytes
    → require count r ≡ (some tt, r)
unfolding require
require_lem count r v h = ground arith

advance-zero : (r : CdrReader) → advance 0 r ≡ r
advance-zero r = λ i. record r { offset = add-zero r.offset i }

align_lem :
    (alignment : ℕ) (r : CdrReader)
    → r.valid ≡ true
    → r.offset ≤ length r.bytes
    → padding alignment r.offset ≡ 0
    → align alignment r ≡ (some tt, r)
unfolding align
align_lem alignment r v h p =
    rw (p, require_lem 0 r v (omega arith)) (ap (λ (s : CdrReader). (some tt, s)) (advance-zero r))

-- Moving past the front of what is left.
pub advance-Ready :
    (e : Endianness) (k l : ℕ) (xs rest : List ℕ) (r : CdrReader)
    → Ready e k (xs ++ rest) r
    → (k + length xs) % 4 ≡ l
    → Ready e l rest (advance (length xs) r)
advance-Ready e k l xs rest r h p = record {
  order = h.order;
  sound = h.sound;
  here =
      drop-drop r.offset (length xs) r.bytes ∙ ap (drop (length xs)) h.here ∙ drop-append xs rest;
  fits = omega (arith, h.fits, length-append xs rest);
  phased = omega (arith, h.phased);
}

read_unsigned_lem :
    (count : ℕ) (r : CdrReader)
    → r.valid ≡ true
    → r.offset + count ≤ length r.bytes
    → padding count r.offset ≡ 0
    → read_unsigned count r ≡ (some (collect r.endianness count r.bytes r.offset), advance count r)
unfolding read_unsigned
read_unsigned_lem count r v h p = rw (align_lem count r v (omega arith) p, require_lem count r v h)

pub length-bytes32 : (e : Endianness) (v : ℕ) → length (bytes32 e v) ≡ 4
length-bytes32 little v = refl
length-bytes32 big v = refl

pub length-bytes16 : (e : Endianness) (v : ℕ) → length (bytes16 e v) ≡ 2
length-bytes16 little v = refl
length-bytes16 big v = refl

-- A value of `count` bytes, `xs`, is read where `xs` stand.
value-Parses :
    (e : Endianness) (k l bits : ℕ) (xs : List ℕ) (v : ℕ)
    → ((bs : List ℕ) (at : ℕ) (rest : List ℕ)
        → drop at bs ≡ xs ++ rest
        → collect e (length xs) bs at ≡ v)
    → v < 2 ^ bits
    → (k + length xs) % 4 ≡ l
    → ((o : ℕ) → o % 4 ≡ k → padding (length xs) o ≡ 0)
    → Parses e k l (cast bits (read_unsigned (length xs))) xs v
value-Parses e k l bits xs v found small q aligned r rest h = (
  advance (length xs) r,
  rw (
    read_unsigned_lem (length xs) r h.sound (omega (arith, h.fits, length-append xs rest))
        (aligned r.offset h.phased),
    h.order,
    found r.bytes r.offset rest h.here,
    mod-eq_of_lt small,
  ),
  advance-Ready e k l xs rest r h q,
)

pub read_uint32-Parses :
    (e : Endianness) (v : ℕ) → v < 2 ^ 32 → Parses e 0 0 read_uint32 (bytes32 e v) v
unfolding read_uint32
read_uint32-Parses little v small =
    value-Parses little 0 0 32 (bytes32 little v) v
      (λ bs at rest h. read_four little bs at v rest small h) small refl (λ o h. omega arith)
read_uint32-Parses big v small =
    value-Parses big 0 0 32 (bytes32 big v) v (λ bs at rest h. read_four big bs at v rest small h)
      small refl (λ o h. omega arith)

pub read_int32-Parses :
    (e : Endianness) (v : ℕ) → v < 2 ^ 32 → Parses e 0 0 read_int32 (bytes32 e v) v
unfolding read_int32
read_int32-Parses e v small = read_uint32-Parses e v small

-- A 16-bit value stands at an even offset.
pub read_uint16-Parses :
    (e : Endianness) (k l v : ℕ)
    → v < 2 ^ 16
    → k % 2 ≡ 0
    → (k + 2) % 4 ≡ l
    → Parses e k l read_uint16 (bytes16 e v) v
unfolding read_uint16
read_uint16-Parses little k l v small even p =
    value-Parses little k l 16 (bytes16 little v) v
      (λ bs at rest h. read_two little bs at v rest small h) small p (λ o h. omega arith)
read_uint16-Parses big k l v small even p =
    value-Parses big k l 16 (bytes16 big v) v (λ bs at rest h. read_two big bs at v rest small h)
      small p (λ o h. omega arith)

pub read_bytes-Parses :
    (e : Endianness) (k l : ℕ) (xs : List ℕ)
    → (k + length xs) % 4 ≡ l
    → Parses e k l (read_bytes (length xs)) xs xs
unfolding read_bytes
read_bytes-Parses e k l xs p r rest h = (
  advance (length xs) r,
  rw (
    require_lem (length xs) r h.sound (omega (arith, h.fits, length-append xs rest)),
    h.here,
    take-append xs rest,
  ),
  advance-Ready e k l xs rest r h p,
)

-- A fresh reader stands at the front of its bytes.
pub new_reader-Ready : (e : Endianness) (xs : List ℕ) → Ready e 0 xs (new_reader xs e)
new_reader-Ready e xs = record {
  order = refl;
  sound = refl;
  here = refl;
  fits = omega arith;
  phased = omega arith;
}
