-- ===== src/Discovery/ParameterList/RoundTrip.antt =====
-- The encoder and the decoder of discovery/ParameterList.cpp together.
use mini_dds.Prelude.{
  ℕ, zero, suc, ◌+◌, ◌-◌, ◌%◌, ◌^◌, ◌≤◌, ◌<◌, ◌≡◌, refl, sym, ap, ◌∙◌, arith, List, [], ◌∷◌, ◌++◌,
  length, take, drop, length-append, take-append, drop-append, append_assoc, append-nil, Bool, true,
  false, not, ◌||◌, ltb, ◌==◌, if◌then◌else◌, ok, Bool-cases, inl, inr, ltb_false→le, ok_injective,
  le→ltb_false,
}
use mini_dds.Cdr.Writer.{Endianness, big, little}
use mini_dds.Discovery.ParameterList.{
  Parameter, ParameterList, parameter_id_pad, parameter_id_sentinel, uint16_bytes, read_uint16,
  aligned_size, encapsulation, parameter_bytes, encode_parameters, encode_parameter_list,
  decode_parameters, decode_parameter_list, with_endianness,
}
use mini_dds.Discovery.ParameterList.Fields.{
  padded, read_uint16_lem, drop-uint16_bytes, length-uint16_bytes, length-padded, drop-4,
  length-front,
}

-- The parameters that a reader gets.
abbrev one_parameter : Bool → Parameter → ParameterList → ParameterList
one_parameter is_pad p ps = if not is_pad then record p { value = padded p.value } ∷ ps else ps

unfoldable pub readable : ParameterList → ParameterList
readable [] = []
readable (p ∷ ps) = one_parameter (p.id == parameter_id_pad) p (readable ps)

-- The identifiers are uint16_t.
abbrev pub HasIds : ParameterList → Type 0
HasIds [] = Unit {0}
HasIds (p ∷ ps) = (p.id < 2 ^ 16) × HasIds ps

abbrev all_bytes : Endianness → ParameterList → List ℕ
all_bytes e [] = uint16_bytes parameter_id_sentinel e ++ uint16_bytes 0 e
all_bytes e (p ∷ ps) = parameter_bytes e p ++ all_bytes e ps

-- None is refused: no sentinel, and every value fits.
abbrev Fits : ParameterList → Type 0
Fits [] = Unit {0}
Fits (p ∷ ps) =
    ((p.id == parameter_id_sentinel) ≡ false)
    × (aligned_size (length p.value) ≤ 2 ^ 16 - 1)
    × Fits ps

encode_parameters-eq-ok :
    (ps : ParameterList) (e : Endianness) (payload out : List ℕ)
    → encode_parameters ps e payload ≡ ok out
    → Fits ps × (out ≡ payload ++ all_bytes e ps)
unfolding encode_parameters
encode_parameters-eq-ok [] e payload out h = (tt, sym (ok_injective h))
encode_parameters-eq-ok (p ∷ ps) e payload out h =
    elim (Bool-cases (p.id == parameter_id_sentinel)) [
      | inl sentinel ↦ cc (rw sentinel at h)
      | inr fine ↦ elim (Bool-cases (ltb (2 ^ 16 - 1) (aligned_size (length p.value)))) [
        | inl long ↦ cc (rw (fine, long) at h)
        | inr short ↦
            let r =
              encode_parameters-eq-ok ps e (payload ++ parameter_bytes e p) out
                (rw (fine, short) at h) in
            (
              (fine, ltb_false→le _ _ short, r.0),
              r.1 ∙ append_assoc payload (parameter_bytes e p) (all_bytes e ps),
            )
      ]
    ]

-- One round, on bytes of which it reads the given parts.
decode_parameters-step :
    (fuel : ℕ) (bytes : List ℕ) (e : Endianness) (acc : ParameterList) (id size : ℕ)
    (behind value more : List ℕ)
    → read_uint16 bytes e ≡ id
    → read_uint16 (drop 2 bytes) e ≡ size
    → drop 4 bytes ≡ behind
    → take size behind ≡ value
    → drop size behind ≡ more
    → ltb (length bytes) 4 ≡ false
    → (id == parameter_id_sentinel) ≡ false
    → (not (size % 4 == 0) || ltb (length behind) size) ≡ false
    → decode_parameters (suc fuel) bytes e acc
      ≡ decode_parameters fuel more e (
          if not (id == parameter_id_pad)
          then acc ++ record { id = id; value = value } ∷ []
          else acc)
unfolding decode_parameters
decode_parameters-step fuel bytes e acc id size behind value more hi hs hb hv hm long fine fits =
    rw (hi, hs, hb, hv, hm, long, fine, fits) refl

kept :
    (is_pad : Bool) (p : Parameter) (acc : ParameterList)
    → (if not is_pad then acc ++ record p { value = padded p.value } ∷ [] else acc)
      ≡ acc ++ one_parameter is_pad p []
kept true p acc = sym (append-nil acc)
kept false p acc = refl

decode_parameters-parameter :
    (fuel : ℕ) (e : Endianness) (p : Parameter) (more : List ℕ) (acc : ParameterList)
    → p.id < 2 ^ 16
    → (p.id == parameter_id_sentinel) ≡ false
    → aligned_size (length p.value) ≤ 2 ^ 16 - 1
    → decode_parameters (suc fuel) (parameter_bytes e p ++ more) e acc
      ≡ decode_parameters fuel more e (acc ++ one_parameter (p.id == parameter_id_pad) p [])
decode_parameters-parameter fuel e p more acc hp fine fits =
    let w = aligned_size (length p.value) in
    let w' = w % 2 ^ 16 in
    let value = padded p.value in
    let size : w' ≡ length value = omega (arith, length-padded p.value, fits) in
    let shape : parameter_bytes e p ++ more
        ≡ uint16_bytes p.id e ++ (uint16_bytes w' e ++ (value ++ more)) =
      append_assoc (uint16_bytes p.id e) (uint16_bytes w' e ++ value) more
      ∙ ap (λ (bs : List ℕ). uint16_bytes p.id e ++ bs)
          (append_assoc (uint16_bytes w' e) value more) in
    rw shape (
      decode_parameters-step fuel _ e acc p.id w' (value ++ more) value more
        (read_uint16_lem p.id e _ hp)
        (ap (λ (bs : List ℕ). read_uint16 bs e) (drop-uint16_bytes p.id e _)
          ∙ read_uint16_lem w' e (value ++ more) (omega arith))
        (drop-4 p.id w' e (value ++ more)) (rw size (take-append value more))
        (rw size (drop-append value more))
        (le→ltb_false _ _ (length-front p.id w' e (value ++ more))) fine
        (ground (arith, size, length-append value more, length-padded p.value))
      ∙ ap (decode_parameters fuel more e) (kept (p.id == parameter_id_pad) p acc))

readable_cons :
    (p : Parameter) (ps acc : ParameterList)
    → (acc ++ one_parameter (p.id == parameter_id_pad) p []) ++ readable ps
      ≡ acc ++ readable (p ∷ ps)
unfolding readable
readable_cons p ps acc = elim (Bool-cases (p.id == parameter_id_pad)) [
  | inl pad ↦ rw (pad, append-nil acc) refl
  | inr value ↦ rw value (append_assoc acc _ (readable ps))
]

decode_parameters-sentinel :
    (fuel : ℕ) (e : Endianness) (acc : ParameterList)
    → decode_parameters (suc fuel) (all_bytes e []) e acc ≡ ok acc
unfolding decode_parameters uint16_bytes read_uint16
decode_parameters-sentinel fuel little acc = refl
decode_parameters-sentinel fuel big acc = refl

-- A round for each parameter and one for the sentinel are enough.
decode_parameters-all :
    (ps : ParameterList) (fuel : ℕ) (e : Endianness) (acc : ParameterList)
    → Fits ps
    → HasIds ps
    → length ps < fuel
    → decode_parameters fuel (all_bytes e ps) e acc ≡ ok (acc ++ readable ps)
unfolding readable
decode_parameters-all ps zero e acc f h enough = absurd (omega (arith, enough))
decode_parameters-all [] (suc fuel) e acc f h enough =
    decode_parameters-sentinel fuel e acc ∙ ap ok (sym (append-nil acc))
decode_parameters-all (p ∷ ps) (suc fuel) e acc f h enough =
    decode_parameters-parameter fuel e p (all_bytes e ps) acc h.0 f.0 f.1
    ∙ decode_parameters-all ps fuel e _ f.2 h.1 (omega (arith, enough))
    ∙ ap ok (readable_cons p ps acc)

length-all_bytes : (e : Endianness) (ps : ParameterList) → 4 + length ps ≤ length (all_bytes e ps)
length-all_bytes e [] = omega (
  arith,
  length-append (uint16_bytes parameter_id_sentinel e) (uint16_bytes 0 e),
  length-uint16_bytes parameter_id_sentinel e,
  length-uint16_bytes 0 e,
)
length-all_bytes e (p ∷ ps) = omega (
  arith,
  length-append (parameter_bytes e p) (all_bytes e ps),
  length-front p.id (aligned_size (length p.value) % 2 ^ 16) e (padded p.value),
  length-all_bytes e ps,
)

decode_encapsulated :
    (ps : ParameterList) (e : Endianness)
    → Fits ps
    → HasIds ps
    → decode_parameter_list (encapsulation e ++ all_bytes e ps) ≡ ok (readable ps, e)
unfolding decode_parameter_list
decode_encapsulated ps little f h =
    let payload = encapsulation little ++ all_bytes little ps in
    let long : 8 + length ps ≤ length payload = omega (arith, length-all_bytes little ps) in
    rw (le→ltb_false (length payload) 8 (omega (arith, long))) (
      ap (with_endianness little)
        (decode_parameters-all ps (length payload) little [] f h (omega (arith, long))))
decode_encapsulated ps big f h =
    let payload = encapsulation big ++ all_bytes big ps in
    let long : 8 + length ps ≤ length payload = omega (arith, length-all_bytes big ps) in
    rw (le→ltb_false (length payload) 8 (omega (arith, long))) (
      ap (with_endianness big)
        (decode_parameters-all ps (length payload) big [] f h (omega (arith, long))))

-- A parameter list whose identifiers are 16-bit numbers and that was encoded is decoded with the
-- byte order it was written in: the same identifiers in the same order, each value filled up with
-- zeros to a multiple of four bytes, and without the parameters that have the padding identifier.
pub decode-encode_parameter_list :
    (ps : ParameterList) (e : Endianness) (bytes : List ℕ)
    → HasIds ps
    → encode_parameter_list ps e ≡ ok bytes
    → decode_parameter_list bytes ≡ ok (readable ps, e)
unfolding encode_parameter_list
decode-encode_parameter_list ps e bytes h k =
    let (fits, same) = encode_parameters-eq-ok ps e (encapsulation e) bytes k in
    rw same (decode_encapsulated ps e fits h)
