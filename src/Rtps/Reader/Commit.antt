-- ===== src/Rtps/Reader/Commit.antt =====
-- `commit_contiguous` of rtps/ReliableEndpoint.cpp: the samples that have become contiguous go to
-- the history.
pub mod Deliveries
pub mod Rounds
pub mod Steps
pub mod Loop
pub mod Ordered
use mini_dds.Prelude.{
  ℕ, zero, suc, ◌+◌, List, [], ◌∷◌, length, Bool, true, false, Option, none, some, if◌then◌else◌,
}
use mini_dds.Rtps.Types.{slt64, int64_max}
use mini_dds.History.{CacheChange}
use mini_dds.History.Reader.{ReaderHistory, add}
use mini_dds.Rtps.Reader.Sets.{member, find, erase, erase_key}
use mini_dds.Rtps.Reader.State.{WriterState, next64}

-- `next` needs no longer be waited for.
abbrev pub step_to : ℕ → WriterState → WriterState
step_to next s = record s {
  received = erase next s.received;
  pending = erase_key next s.pending;
  highest_contiguous = next;
}

-- One round: what it commits, or `none` where the loop ends.
pub data Round : Type 0 where
  stop : Round
  skip : WriterState → Round
  commit : CacheChange → WriterState → Round

abbrev pending_round : Option CacheChange → ℕ → WriterState → Round
pending_round none next s = stop
pending_round (some change) next s = commit change (step_to next s)

unfoldable pub round : WriterState → Round
round s =
    let next = next64 s.highest_contiguous in
    if slt64 s.highest_contiguous int64_max
    then (if member next s.irrelevant
        then skip (record (step_to next s) { irrelevant = erase next s.irrelevant })
        else pending_round (find next s.pending) next s)
    else stop

-- The loop, with the history that it adds to and the number of samples committed. Each round takes
-- an entry out of `irrelevant` or of `pending`, which bounds the rounds.
unfoldable pub commit_loop :
    (fuel committed : ℕ) → WriterState → ReaderHistory → ℕ × WriterState × ReaderHistory
commit_loop zero committed s history = (committed, s, history)
commit_loop (suc fuel) committed s history = elim (round s) [
  | stop ↦ (committed, s, history)
  | skip s' ↦ commit_loop fuel committed s' history
  | commit change s' ↦ commit_loop fuel (committed + 1) s' (add change history).1
]

abbrev pub rounds : WriterState → ℕ
rounds s = length s.irrelevant + length s.pending

unfoldable pub commit_contiguous : WriterState → ReaderHistory → ℕ × WriterState × ReaderHistory
commit_contiguous s history = commit_loop (rounds s + 1) 0 s history
