-- ===== src/Rtps/Writer/Acknowledge/Meaning.antt =====
-- What the writer of rtps/ReliableEndpoint.cpp takes from an ACKNACK of the reader there.
use mini_dds.Prelude.{
  ℕ, ◌+◌, ◌-◌, ◌^◌, ◌≤◌, ◌<◌, ◌≡◌, refl, leb, ltb, Bool, true, not, ◌&&◌, ◌||◌, if◌then◌else◌,
  arith, Bool-cases, inl, inr,
}
use mini_dds.Rtps.Types.{EntityId, slt64, sle64, sle64_lem, slt64_lem, int64_max}
use mini_dds.Rtps.Reliability.SequenceSet.{contains}
use mini_dds.Rtps.Reader.State.{WriterState}
use mini_dds.Rtps.Reader.State.Invariant.{IsWriterState}
use mini_dds.Rtps.Reader.Acks.{make_acknack, reader_state, ack_base, ack_bits}
use mini_dds.Rtps.Reader.Acks.Bitmap.{is_known}
use mini_dds.Rtps.Reader.Acks.Missing.{contains-reader_state, ack_base_bounded}
use mini_dds.Rtps.Writer.Acknowledge.{acknack_acknowledges, difference64}

-- The two conditions of the code, on numbers of int64_t.
acknowledged :
    (base bits n : ℕ) (asked known : Bool)
    → base ≤ int64_max
    → n < 2 ^ 63
    → asked ≡ (leb base n && ltb n (base + bits) && not known)
    → (if slt64 n base
        then true
        else sle64 0 (difference64 n base) && ltb (difference64 n base) bits && not asked)
      ≡ (ltb n base || (ltb n (base + bits) && known))
acknowledged base bits n asked known b h c =
    let before = slt64_lem n base h (omega arith) in
    elim (Bool-cases (ltb n base)) [
      | inl below ↦ rw (before, below) refl
      | inr above ↦ rw (before, above) (beyond base bits n asked known (ground arith) b h c)
    ]
  where
    beyond :
        (base bits n : ℕ) (asked known : Bool)
        → base ≤ n
        → base ≤ int64_max
        → n < 2 ^ 63
        → asked ≡ (leb base n && ltb n (base + bits) && not known)
        → (sle64 0 (difference64 n base) && ltb (difference64 n base) bits && not asked)
          ≡ (ltb n (base + bits) && known)
    beyond base bits n asked known l b h c =
        let d : difference64 n base ≡ n - base = omega arith in
        let positive = sle64_lem 0 (n - base) (omega arith) (omega arith) in
        rw (d, positive, c) (ground arith)

-- The writer takes a number of int64_t for acknowledged by the ACKNACK that a reader makes of a
-- well-formed state exactly if the number lies below the base of the set, or below the end of what
-- the set speaks of and the reader has received it or knows it to be irrelevant.
pub acknack_acknowledges-make_acknack :
    (reader_id writer_id : EntityId) (count : ℕ) (s : WriterState) (n : ℕ)
    → IsWriterState s
    → n < 2 ^ 63
    → acknack_acknowledges (make_acknack reader_id writer_id count s) (record { value = n })
      ≡ (ltb n (ack_base s) || (ltb n (ack_base s + ack_bits s) && is_known n s))
unfolding acknack_acknowledges make_acknack reader_state
acknack_acknowledges-make_acknack reader_id writer_id count s n v h =
    acknowledged (ack_base s) (ack_bits s) n (contains (reader_state s) (record { value = n }))
      (is_known n s) (ack_base_bounded s v.highest_bounded) h (contains-reader_state s n v h)
