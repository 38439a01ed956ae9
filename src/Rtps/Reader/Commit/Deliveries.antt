-- ===== src/Rtps/Reader/Commit/Deliveries.antt =====
-- What `commit_contiguous` does, stated without its loop.
use mini_dds.Prelude.{
  ℕ, zero, suc, ◌+◌, ◌≤◌, ◌<◌, ◌≡◌, ◌⊎◌, List, [], ◌∷◌, length, Bool, true, false, ◌&&◌, not,
  Option, none, some, ltb, leb, if◌then◌else◌,
}
use mini_dds.Rtps.Types.{int64_max}
use mini_dds.History.{CacheChange}
use mini_dds.History.Reader.{ReaderHistory, add}
use mini_dds.Rtps.Reader.Sets.{member, find}
use mini_dds.Rtps.Reader.State.{WriterState}
use mini_dds.Rtps.Reader.Commit.Rounds.{is_missing}

-- The samples among the `count` numbers after `low`, in the order of their numbers, without the
-- irrelevant ones.
abbrev pub one_delivery : Bool → Option CacheChange → List CacheChange → List CacheChange
one_delivery true held rest = rest
one_delivery false none rest = rest
one_delivery false (some c) rest = c ∷ rest

unfoldable pub deliveries : (count low : ℕ) → WriterState → List CacheChange
deliveries zero low s = []
deliveries (suc count) low s =
    one_delivery (member (low + 1) s.irrelevant) (find (low + 1) s.pending)
      (deliveries count (low + 1) s)

abbrev pub add_changes : List CacheChange → ReaderHistory → ReaderHistory
add_changes [] h = h
add_changes (c ∷ cs) h = add_changes cs (add c h).1

abbrev pub between : (low high n : ℕ) → Bool
between low high n = ltb low n && leb n high

-- The state `t` is `s` with the numbers up to `high` done with.
pub record IsAdvanced (high : ℕ) (s t : WriterState) : Type 0 where
  pub highest : t.highest_contiguous ≡ high
  pub irrelevant_after :
      (n : ℕ)
      → member n t.irrelevant ≡ (not (between s.highest_contiguous high n) && member n s.irrelevant)
  pub received_after :
      (n : ℕ)
      → member n t.received ≡ (not (between s.highest_contiguous high n) && member n s.received)
  pub pending_after :
      (n : ℕ)
      → find n t.pending ≡ (if between s.highest_contiguous high n then none else find n s.pending)
  pub written : t.writer_guid ≡ s.writer_guid
  pub announced : t.last_announced ≡ s.last_announced
  pub initialized : t.range_initialized ≡ s.range_initialized

-- The numbers from `low` on to `low + count` are there, and the next one is not, or does not exist.
pub record IsContiguous (count low : ℕ) (s : WriterState) : Type 0 where
  pub bounded : low + count ≤ int64_max
  pub present : (n : ℕ) → (between low (low + count) n && is_missing n s) ≡ false
  pub maximal : (low + count ≡ int64_max) ⊎ (is_missing (low + count + 1) s ≡ true)

-- The two states agree above `low`.
pub record Agree (low : ℕ) (s t : WriterState) : Type 0 where
  pub irrelevant_same : (n : ℕ) → low < n → member n s.irrelevant ≡ member n t.irrelevant
  pub pending_same : (n : ℕ) → low < n → find n s.pending ≡ find n t.pending

-- What a run of the loop gives, which had counted `before` already.
pub record IsCommit (before : ℕ) (s : WriterState) (h : ReaderHistory)
    (r : ℕ × WriterState × ReaderHistory) : Type 0 where
  pub count : ℕ
  pub contiguous : IsContiguous count s.highest_contiguous s
  pub advanced : IsAdvanced (s.highest_contiguous + count) s r.1
  pub committed : r.0 ≡ before + length (deliveries count s.highest_contiguous s)
  pub added : r.2 ≡ add_changes (deliveries count s.highest_contiguous s) h
