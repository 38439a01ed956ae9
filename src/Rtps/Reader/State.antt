-- ===== src/Rtps/Reader/State.antt =====
-- WriterState, and what a DATA, a HEARTBEAT and a GAP do to it before the commit.
pub mod Invariant
pub mod Events
pub mod Samples
use mini_dds.Prelude.{
  ℕ, zero, suc, ◌+◌, ◌-◌, ◌%◌, ◌^◌, List, [], ◌∷◌, min, Bool, true, false, not, ◌&&◌, ◌||◌, ◌==◌,
  if◌then◌else◌,
}
use mini_dds.Transport.{Endpoint}
use mini_dds.Rtps.Types.{Guid, SequenceNumber, slt64, sle64, int64_max}
use mini_dds.History.{CacheChange}
use mini_dds.Rtps.Reliability.SequenceSet.{
  SequenceNumberSet, sequence_number_set_max_bits, contains,
}
use mini_dds.Rtps.Reader.Sets.{member, insert, emplace, erase_front, erase_erased}

pub record WriterState : Type 0 where
  pub writer_guid : Guid
  pub reply_endpoint : Endpoint
  pub highest_contiguous : ℕ
  pub last_announced : ℕ
  pub range_initialized : Bool
  pub received : List ℕ
  pub irrelevant : List ℕ
  pub pending : List (ℕ × CacheChange)

-- WriterState{} with the two fields that `writer_state` sets.
abbrev pub new_writer_state : Guid → Endpoint → WriterState
new_writer_state writer_guid reply_endpoint = record {
  writer_guid = writer_guid;
  reply_endpoint = reply_endpoint;
  highest_contiguous = 0;
  last_announced = 0;
  range_initialized = false;
  received = [];
  irrelevant = [];
  pending = [];
}

-- `a + 1`, `a - 1` and `std::max(a, b)` of int64_t.
abbrev pub next64 : ℕ → ℕ
next64 a = (a + 1) % 2 ^ 64

abbrev pub previous64 : ℕ → ℕ
previous64 a = (a + (2 ^ 64 - 1)) % 2 ^ 64

abbrev pub max64 : ℕ → ℕ → ℕ
max64 a b = if slt64 a b then b else a

-- A sample that is new and beyond the contiguous range is kept.
abbrev keep : ℕ → CacheChange → WriterState → WriterState
keep sequence change s =
    if slt64 s.highest_contiguous sequence && not (member sequence s.received)
    then record s {
      received = insert sequence s.received;
      pending = emplace sequence change s.pending;
    }
    else s

unfoldable pub on_data : ℕ → CacheChange → WriterState → WriterState
on_data sequence change s = keep sequence change (record s {
  range_initialized = s.range_initialized || sequence == 1;
  last_announced = max64 s.last_announced sequence;
})

-- Drop what waits up to a bound, and go on behind it.
abbrev pub jump : (ℕ → Bool) → ℕ → WriterState → WriterState
jump dropped highest s = record s {
  received = erase_erased dropped s.pending s.received;
  pending = erase_front dropped s.pending;
  highest_contiguous = highest;
}

abbrev heartbeat_range : ℕ → WriterState → WriterState
heartbeat_range first s =
    if not s.range_initialized
    then record s { highest_contiguous = previous64 first; range_initialized = true }
    else if slt64 (next64 s.highest_contiguous) first
    then jump (λ key. slt64 key first) (previous64 first) s
    else s

unfoldable pub on_heartbeat : (first last : ℕ) → WriterState → WriterState
on_heartbeat first last s =
    let ranged = heartbeat_range first s in
    record ranged { last_announced = max64 ranged.last_announced last }

-- `for (sequence = start; sequence <= end; ++sequence)`, over the rounds that are left.
unfoldable pub insert_range : (rounds start : ℕ) → List ℕ → List ℕ
insert_range zero start xs = xs
insert_range (suc rounds) start xs = insert_range rounds (next64 start) (insert start xs)

-- The last number of a range that is remembered: at most 256 from its start.
abbrev pub remembered_end : (start last : ℕ) → ℕ
remembered_end start last =
    let bound = start + sequence_number_set_max_bits - 1 in
    if slt64 (int64_max - sequence_number_set_max_bits + 1) start
    then last
    else if slt64 bound last
    then bound
    else last

-- The rounds of that loop, none if the range is empty.
abbrev pub range_rounds : (start last : ℕ) → ℕ
range_rounds start last = if sle64 start last then last + 1 - start else 0

unfoldable pub insert_marked : (rounds offset : ℕ) → SequenceNumberSet → List ℕ → List ℕ
insert_marked zero offset set xs = xs
insert_marked (suc rounds) offset set xs =
    let sequence = (set.bitmap_base.value + offset) % 2 ^ 64 in
    insert_marked rounds (offset + 1) set
      (if contains set (record { value = sequence }) then insert sequence xs else xs)

abbrev gap_range : (start gap_end : ℕ) → WriterState → WriterState
gap_range start gap_end s =
    let next = next64 s.highest_contiguous in
    if sle64 start next && sle64 next gap_end
    then record (jump (λ key. sle64 key gap_end) gap_end s) { range_initialized = true }
    else record s {
      irrelevant =
          insert_range (range_rounds start (remembered_end start gap_end)) start s.irrelevant;
    }

unfoldable pub on_gap : ℕ → SequenceNumberSet → WriterState → WriterState
on_gap start set s =
    let ranged = gap_range start (previous64 set.bitmap_base.value) s in
    record ranged { irrelevant = insert_marked set.num_bits 0 set ranged.irrelevant }
