-- ===== src/Cdr/Payload/RoundTrip.antt =====
-- The bytes of a text of serialization/SerializedPayload.cpp, written and read.
use mini_dds.Prelude.{
  ℕ, zero, suc, ◌+◌, ◌-◌, ◌%◌, ◌^◌, ◌≤◌, ◌<◌, ◌≡◌, refl, sym, ap, ◌∙◌, arith, List, [], ◌∷◌, ◌++◌,
  append_assoc, append-nil, length, length-append, length-replicate, replicate, get_or, get_or-drop,
  take-append, all_of, true, false, ltb, leb, ◌==◌, Bool-cases, inl, inr, Option, none, some, ok,
}
use mathlib.Core.Option.{some_inj}
use mathlib.Core.Path.{subst}
use mini_dds.Cdr.Writer.{
  Endianness, big, little, CdrWriter, new_writer, write_string, write_uint32, put,
}
use mini_dds.Cdr.Reader.{
  nonzero_length, string_body, ◌>>=◌, CdrReader, new_reader, read_string, read_uint32, remaining,
  require, advance,
}
use mini_dds.Cdr.Bytes.{bytes32}
use mini_dds.Cdr.Written.{write_uint32-Writes, new_writer-Writes}
use mini_dds.Cdr.RoundTrip.{
  require_lem, advance-Ready, Ready, Parses, bind-Parses, read_uint32-Parses, read_bytes-Parses,
  new_reader-Ready,
}
use mini_dds.Cdr.Payload.{
  serialize_string_payload, deserialize_string_payload, payload_header, representation_endianness,
  after_header, checked_trailing, read_value, is_zero,
}

-- The bytes of a text in CDR.
abbrev string_bytes : Endianness → List ℕ → List ℕ
string_bytes e value = bytes32 e (length value + 1) ++ (value ++ 0 ∷ [])

-- What is written, when the length fits.
written_string :
    (e : Endianness) (value : List ℕ)
    → length value + 1 < 2 ^ 32
    → (put (0 ∷ []) (put value (write_uint32 ((length value + 1) % 2 ^ 32) (new_writer e)))).bytes
      ≡ string_bytes e value
written_string e value h =
    let n : (length value + 1) % 2 ^ 32 ≡ length value + 1 = omega arith in
    let start =
      new_writer-Writes e 0 (write_uint32 (length value + 1)) _
        (write_uint32-Writes e (length value + 1)) in
    rw (n, start) (append_assoc (bytes32 e (length value + 1)) value (0 ∷ []))

write_string_lem :
    (e : Endianness) (value : List ℕ) (w : CdrWriter)
    → write_string value (new_writer e) ≡ some w
    → (w.bytes ≡ string_bytes e value) × (length value + 1 < 2 ^ 32)
unfolding write_string
write_string_lem e value w h = elim (Bool-cases (leb (2 ^ 32 - 1) (length value))) [
  | inl long ↦ absurd (cc (h, long))
  | inr fits ↦
      let small : length value + 1 < 2 ^ 32 = ground arith in
      let same = some_inj.0 (rw fits at h) in
      (ap (λ x. x.bytes) (sym same) ∙ written_string e value small, small)
]

-- The terminator stands where the text ends.
get_or-terminator : (value rest : List ℕ) → get_or ((value ++ 0 ∷ []) ++ rest) (length value) 0 ≡ 0
get_or-terminator [] rest = refl
get_or-terminator (x ∷ xs) rest = get_or-terminator xs rest

body-Parses :
    (e : Endianness) (value : List ℕ)
    → Parses e 0
        ((length value + 1) % 4)
        (nonzero_length (length value + 1) >>= λ x.
          require (length value + 1) >>= λ y. string_body (length value + 1))
        (value ++ 0 ∷ [])
        value
body-Parses e value r rest h =
    let n : length (value ++ 0 ∷ []) ≡ length value + 1 =
      omega (arith, length-append value (0 ∷ [])) in
    let all = length-append (value ++ 0 ∷ []) rest in
    let fits = h.fits in
    let nonzero : (length value + 1 == 0) ≡ false = ground arith in
    let at : r.offset + (length value + 1) - 1 ≡ r.offset + length value = omega arith in
    let text : length value + 1 - 1 ≡ length value = omega arith in
    let zero_end =
      get_or-drop r.offset (length value) r.bytes 0
      ∙ ap (λ l. get_or l (length value) 0) h.here
      ∙ get_or-terminator value rest in
    let front = append_assoc value (0 ∷ []) rest in
    (
      advance (length value + 1) r,
      rw (
        nonzero,
        require_lem (length value + 1) r h.sound (omega arith),
        at,
        zero_end,
        text,
        h.here,
        front,
        take-append value (0 ∷ [] ++ rest),
      ),
      subst (λ k. Ready e ((length value + 1) % 4) rest (advance k r)) n
          (advance-Ready e 0 ((length value + 1) % 4) (value ++ 0 ∷ []) rest r h (omega arith)),
    )

read_string-Parses :
    (e : Endianness) (value : List ℕ)
    → length value + 1 < 2 ^ 32
    → Parses e 0 ((length value + 1) % 4) read_string (string_bytes e value) value
unfolding read_string
read_string-Parses e value h =
    bind-Parses e 0 0 ((length value + 1) % 4) read_uint32
      (λ n. nonzero_length n >>= λ x. require n >>= λ y. string_body n)
      (bytes32 e (length value + 1)) (value ++ 0 ∷ []) (length value + 1) value
      (read_uint32-Parses e (length value + 1) h) (body-Parses e value)

remaining_lem :
    (e : Endianness) (k : ℕ) (xs : List ℕ) (r : CdrReader)
    → Ready e k xs r
    → remaining r ≡ length xs
unfolding remaining
remaining_lem e k xs r h = let fits = h.fits in let sound = h.sound in ground arith

-- Zero bytes are read to the end.
zeros-all_of : (n : ℕ) → all_of is_zero (replicate n 0) ≡ true
zeros-all_of zero = refl
zeros-all_of (suc n) = zeros-all_of n

checked_trailing_lem :
    (e : Endianness) (k n : ℕ) (value : List ℕ) (r : CdrReader)
    → n ≤ 3
    → Ready e k (replicate n 0) r
    → checked_trailing (some value, r) ≡ ok value
checked_trailing_lem e k n value r small h =
    let zeros : List ℕ = replicate n 0 in
    let m = length-replicate {A = ℕ} n 0 in
    let left : remaining r ≡ length zeros = remaining_lem e k zeros r h in
    let few : ltb 3 (length zeros) ≡ false = ground arith in
    let read =
      read_bytes-Parses e k ((k + length zeros) % 4) zeros refl r []
        (subst (λ l. Ready e k l r) (sym (append-nil zeros)) h) in
    rw (left, few, read.1, zeros-all_of n)

header_representation :
    (e : Endianness) (rest : List ℕ)
    → deserialize_string_payload (payload_header e ++ rest)
      ≡ read_value (some e) (payload_header e ++ rest)
unfolding deserialize_string_payload representation_endianness
header_representation little rest = ground arith
header_representation big rest = ground arith

-- A text that was serialized, in either byte order, is deserialized to the same text, also with up
-- to three zero bytes after it.
pub deserialize-serialize_string_payload :
    (e : Endianness) (value payload : List ℕ) (padding : ℕ)
    → serialize_string_payload value e ≡ some payload
    → padding ≤ 3
    → deserialize_string_payload (payload ++ replicate padding 0) ≡ ok value
unfolding serialize_string_payload
deserialize-serialize_string_payload e value payload padding h small =
    returns (write_string value (new_writer e)) refl h
  where
    returns :
        (written : Option CdrWriter)
        → write_string value (new_writer e) ≡ written
        → after_header e written ≡ some payload
        → deserialize_string_payload (payload ++ replicate padding 0) ≡ ok value
    returns none w k = absurd (cc k)
    returns (some w') w k =
        let written = write_string_lem e value w' w in
        let zeros : List ℕ = replicate padding 0 in
        let bytes : payload_header e ++ string_bytes e value ≡ payload =
          ap (λ l. payload_header e ++ l) (sym written.0) ∙ some_inj.0 k in
        let read =
          read_string-Parses e value written.1 (new_reader (string_bytes e value ++ zeros) e) zeros
            (new_reader-Ready e (string_bytes e value ++ zeros)) in
        ap (λ p. deserialize_string_payload (p ++ zeros)) (sym bytes)
        ∙ header_representation e (string_bytes e value ++ zeros)
        ∙ ap checked_trailing read.1
        ∙ checked_trailing_lem e _ padding value read.0 small read.2
