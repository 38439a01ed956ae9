-- ===== src/Rtps/Message/RoundTrip.antt =====
-- The two headers of rtps/Message.cpp, written and read back.

use mini_dds.Prelude.{
  ℕ, ◌*◌, ◌/◌, ◌%◌, ◌^◌, ◌<◌, bit_or, ◌≡◌, refl, sym, ap, ◌∙◌, arith, List, [], ◌∷◌, ◌++◌, length,
  length-append, get_or, take, take-append, drop, drop-append, le→ltb_false, bytes_eq, some,
}
use mini_dds.Prelude.Bits.{bit_or_high, bit_or_low}
use mini_dds.Rtps.Message.{
  MessageHeader, SubmessageHeader, encode_message_header, decode_message_header,
  encode_submessage_header, decode_submessage_header,
}

-- The arrays of a header have their sizes.
pub record IsHeader (h : MessageHeader) : Type 0 where
  pub vendor : length h.vendor_id.value ≡ 2
  pub prefix : length h.guid_prefix.value ≡ 12

pub length-encode_message_header :
    (h : MessageHeader) → IsHeader h → length (encode_message_header h) ≡ 20
unfolding encode_message_header
length-encode_message_header h v = omega (arith, v.prefix)

two_items : (xs : List ℕ) → length xs ≡ 2 → get_or xs 0 0 ∷ get_or xs 1 0 ∷ [] ≡ xs
two_items [] h = absurd (omega arith)
two_items (a ∷ []) h = absurd (omega arith)
two_items (a ∷ b ∷ []) h = refl
two_items (a ∷ b ∷ c ∷ xs) h = absurd (omega arith)

take_all : (n : ℕ) (xs ys : List ℕ) → length xs ≡ n → take n (xs ++ ys) ≡ xs
take_all n xs ys h = ap (λ (k : ℕ). take k (xs ++ ys)) (sym h) ∙ take-append xs ys

-- A message header whose arrays have the lengths of their types is read back as it was written,
-- whatever follows it.
pub decode-encode_message_header :
    (h : MessageHeader) (rest : List ℕ)
    → IsHeader h
    → decode_message_header (encode_message_header h ++ rest) ≡ some h
unfolding decode_message_header encode_message_header bytes_eq
decode-encode_message_header h rest v = rw (
  take_all 12 h.guid_prefix.value rest v.prefix,
  two_items h.vendor_id.value v.vendor,
  le→ltb_false (length (encode_message_header h ++ rest)) 20 (
      omega
        (arith, length-encode_message_header h v, length-append (encode_message_header h) rest)),
)

decoded_size_little :
    (n : ℕ) → n < 2 ^ 16 → bit_or (n % 2 ^ 8) (n / 2 ^ 8 % 2 ^ 8 * 2 ^ 8) % 2 ^ 16 ≡ n
decoded_size_little n h =
    rw (bit_or_high 8 (n % 2 ^ 8) (n / 2 ^ 8 % 2 ^ 8) (omega arith)) (omega arith)

decoded_size_big :
    (n : ℕ) → n < 2 ^ 16 → bit_or (n / 2 ^ 8 % 2 ^ 8 * 2 ^ 8) (n % 2 ^ 8) % 2 ^ 16 ≡ n
decoded_size_big n h = rw (bit_or_low 8 (n / 2 ^ 8 % 2 ^ 8) (n % 2 ^ 8) (omega arith)) (omega arith)

-- A submessage header with a 16-bit size is read back as it was written, in the byte order that its
-- own flags name, whatever follows it.
pub decode-encode_submessage_header :
    (h : SubmessageHeader) (rest : List ℕ)
    → h.size < 2 ^ 16
    → decode_submessage_header (encode_submessage_header h ++ rest) ≡ some h
unfolding decode_submessage_header encode_submessage_header
decode-encode_submessage_header h rest small =
    ground (arith, decoded_size_little h.size small, decoded_size_big h.size small)

pub length-encode_submessage_header :
    (h : SubmessageHeader) → length (encode_submessage_header h) ≡ 4
unfolding encode_submessage_header
length-encode_submessage_header h = ground arith

-- What follows a submessage header is its content.
pub drop-encode_submessage_header :
    (h : SubmessageHeader) (xs : List ℕ) → drop 4 (encode_submessage_header h ++ xs) ≡ xs
unfolding encode_submessage_header
drop-encode_submessage_header h xs = ground arith

pub drop-encode_message_header :
    (h : MessageHeader) (xs : List ℕ) → IsHeader h → drop 20 (encode_message_header h ++ xs) ≡ xs
drop-encode_message_header h xs v =
    ap (λ (n : ℕ). drop n (encode_message_header h ++ xs)) (sym (length-encode_message_header h v))
    ∙ drop-append (encode_message_header h) xs
