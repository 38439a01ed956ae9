-- ===== src/Rtps/Reliability/RoundTrip/Heartbeats.antt =====
-- The round trip of HEARTBEAT.
use mini_dds.Prelude.{
  ℕ, ◌-◌, ◌^◌, [], ◌<◌, ◌≡◌, refl, ap, ◌∙◌, arith, List, ◌++◌, length, length-append, Bool, true,
  false, ◌||◌, bit_and, not, ◌==◌, ok,
}
use mini_dds.Cdr.Writer.{Endianness, big, little, new_writer}
use mini_dds.Cdr.Bytes.{bytes32}
use mini_dds.Cdr.RoundTrip.{read_int32-Parses, length-bytes32}
use mini_dds.Cdr.Written.{then-Writes, write_int32-Writes, new_writer-Writes}
use mini_dds.Rtps.Types.{IsEntityId, sle64, slt64, sle32}
use mini_dds.Rtps.SubmessageKind
use mini_dds.Rtps.Codec.{endianness_of}
use mini_dds.Rtps.Codec.Fields.{
  sequence_bytes, write_entity_id-Writes, read_entity_id-Parses, write_sequence_number-Writes,
  read_sequence_number-Parses,
}
use mini_dds.Rtps.Checked.{
  Accepts, or_else-Accepts, return-Accepts, bind-Accepts, closing-Accepts, reject_if-Accepts,
}
use mini_dds.Rtps.Reliability.Contents.{HeartbeatSubmessage, write_heartbeat}
use mini_dds.Rtps.Reliability.Frame.{frame, decode_frame_lem}
use mini_dds.Rtps.Reliability.Heartbeat.{
  heartbeat_flags, encode_heartbeat_submessage, heartbeat_format, heartbeat_fields,
  decode_heartbeat_submessage,
}

-- The arrays have their sizes, and the integers their widths.
pub record IsHeartbeat (h : HeartbeatSubmessage) : Type 0 where
  pub reader : IsEntityId h.reader_id
  pub writer : IsEntityId h.writer_id
  pub first : h.first_sequence_number.value < 2 ^ 64
  pub last : h.last_sequence_number.value < 2 ^ 64
  pub count : h.count < 2 ^ 32

module _ (e : Endianness) (h : HeartbeatSubmessage) (v : IsHeartbeat h) where
  content : List ℕ
  content =
      h.reader_id.value
      ++ (h.writer_id.value
          ++ (sequence_bytes e h.first_sequence_number
              ++ (sequence_bytes e h.last_sequence_number ++ bytes32 e h.count)))

  write_heartbeat-bytes : (write_heartbeat h (new_writer e)).bytes ≡ content
  unfolding write_heartbeat content
  write_heartbeat-bytes = new_writer-Writes e _ _ _ (
      then-Writes e 0 0 _ _ _ _ _ (write_entity_id-Writes e h.reader_id v.reader) (
        then-Writes e 0 0 _ _ _ _ _ (write_entity_id-Writes e h.writer_id v.writer) (
          then-Writes e 0 0 _ _ _ _ _ (write_sequence_number-Writes e _) (
            then-Writes e 0 0 _ _ _ _ _ (write_sequence_number-Writes e _)
              (write_int32-Writes e h.count)))))

  length-content : length content ≡ 28
  unfolding content
  length-content = simp (length-append, length-bytes32, v.reader, v.writer)

  heartbeat_fields-Accepts :
      (flags : ℕ)
      → not (bit_and flags 2 == 0) ≡ h.final_flag
      → not (bit_and flags 4 == 0) ≡ h.liveliness_flag
      → (sle64 h.first_sequence_number.value 0
          || slt64 h.last_sequence_number.value h.first_sequence_number.value
          || sle32 h.count 0)
        ≡ false
      → Accepts e 0 0 (heartbeat_fields flags) content h
  unfolding heartbeat_fields content
  heartbeat_fields-Accepts flags final liveliness good =
      bind-Accepts e 0 0 0 _ _ _ _ h.reader_id h
        (or_else-Accepts e 0 0 _ _ _ _ (read_entity_id-Parses e h.reader_id v.reader))
        (bind-Accepts e 0 0 0 _ _ _ _ h.writer_id h
          (or_else-Accepts e 0 0 _ _ _ _ (read_entity_id-Parses e h.writer_id v.writer))
          (bind-Accepts e 0 0 0 _ _ _ _ h.first_sequence_number h
            (or_else-Accepts e 0 0 _ _ _ _ (read_sequence_number-Parses e _ v.first))
            (bind-Accepts e 0 0 0 _ _ _ _ h.last_sequence_number h
              (or_else-Accepts e 0 0 _ _ _ _ (read_sequence_number-Parses e _ v.last))
              (closing-Accepts e 0 0 0 _ _ _ h.count h
                (or_else-Accepts e 0 0 _ _ _ _ (read_int32-Parses e h.count v.count))
                (reject_if-Accepts e 0 0 _ _ _ [] h good (
                  return-Accepts e 0 _ h
                    (λ i. record h { final_flag = final i; liveliness_flag = liveliness i })))))))

flags_lem :
    (e : Endianness) (final liveliness : Bool)
    → let flags = heartbeat_flags e final liveliness in
      (bit_and flags (255 - 7) ≡ 0)
      × (endianness_of (not (bit_and flags 1 == 0)) ≡ e)
      × (not (bit_and flags 2 == 0) ≡ final)
      × (not (bit_and flags 4 == 0) ≡ liveliness)
flags_lem little false false = (refl, refl, refl, refl)
flags_lem little false true = (refl, refl, refl, refl)
flags_lem little true false = (refl, refl, refl, refl)
flags_lem little true true = (refl, refl, refl, refl)
flags_lem big false false = (refl, refl, refl, refl)
flags_lem big false true = (refl, refl, refl, refl)
flags_lem big true false = (refl, refl, refl, refl)
flags_lem big true true = (refl, refl, refl, refl)

-- What a successful encoder has checked, and what it returns.
encode_heartbeat_submessage-eq-ok :
    (e : Endianness) (h : HeartbeatSubmessage) (v : IsHeartbeat h) (bytes : List ℕ)
    → encode_heartbeat_submessage h e ≡ ok bytes
    → ((sle64 h.first_sequence_number.value 0
          || slt64 h.last_sequence_number.value h.first_sequence_number.value
          || sle32 h.count 0)
        ≡ false)
      × (bytes
          ≡ frame SubmessageKind.heartbeat
              (heartbeat_flags e h.final_flag h.liveliness_flag)
              (content e h v))
unfolding encode_heartbeat_submessage
encode_heartbeat_submessage-eq-ok e h v bytes p = ground (arith, write_heartbeat-bytes e h v)

-- A HEARTBEAT whose fields have the widths of their types and that was encoded, in either byte
-- order, is decoded to the same HEARTBEAT, its flags included, whatever follows it.
pub decode-encode_heartbeat_submessage :
    (e : Endianness) (h : HeartbeatSubmessage) (bytes rest : List ℕ)
    → IsHeartbeat h
    → encode_heartbeat_submessage h e ≡ ok bytes
    → decode_heartbeat_submessage (bytes ++ rest) ≡ ok h
unfolding decode_heartbeat_submessage
decode-encode_heartbeat_submessage e h bytes rest v p =
    let (good, same) = encode_heartbeat_submessage-eq-ok e h v bytes p in
    let (supported, order, final, liveliness) = flags_lem e h.final_flag h.liveliness_flag in
    ap (λ (bs : List ℕ). decode_heartbeat_submessage (bs ++ rest)) same
    ∙ decode_frame_lem heartbeat_format heartbeat_fields e
        (heartbeat_flags e h.final_flag h.liveliness_flag) (content e h v) h rest
        (omega (arith, length-content e h v)) (omega arith) (omega (arith, length-content e h v))
        supported order (heartbeat_fields-Accepts e h v _ final liveliness good)
