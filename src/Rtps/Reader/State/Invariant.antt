-- ===== src/Rtps/Reader/State/Invariant.antt =====
-- The well-formedness of WriterState of rtps/ReliableEndpoint.h, and the changes its handlers share.
use mini_dds.Prelude.{
  ℕ, ◌≤◌, ◌≡◌, refl, sym, ◌∙◌, arith, Bool, false, some, ◌==◌, Bool-cases, inl, inr,
}
use mathlib.Core.Path.{subst}
use mini_dds.Transport.{Endpoint}
use mini_dds.Rtps.Types.{Guid, int64_max}
use mini_dds.History.{CacheChange}
use mini_dds.Rtps.Reader.Sets.{member, find, insert, emplace}
use mini_dds.Rtps.Reader.Sets.Lookup.{
  is_held, member-insert, find-emplace, find-erase_front, member-erase_erased,
}
use mini_dds.Rtps.Reader.State.{WriterState, new_writer_state, max64, jump}

-- The change belongs to the writer and has the number, which is one of int64_t.
pub record IsSample (guid : Guid) (n : ℕ) (c : CacheChange) : Type 0 where
  pub bounded : n ≤ int64_max
  pub numbered : c.sequence_number.value ≡ n
  pub written : c.writer_guid ≡ guid

pub record IsWriterState (s : WriterState) : Type 0 where
  pub highest_bounded : s.highest_contiguous ≤ int64_max
  pub announced_bounded : s.last_announced ≤ int64_max
  pub fresh : s.range_initialized ≡ false → s.highest_contiguous ≡ 0
  pub labelled : (n : ℕ) (c : CacheChange) → find n s.pending ≡ some c → IsSample s.writer_guid n c
  pub held : (n : ℕ) → member n s.received ≡ is_held n s.pending

pub new_writer_state-IsWriterState :
    (guid : Guid) (endpoint : Endpoint) → IsWriterState (new_writer_state guid endpoint)
new_writer_state-IsWriterState guid endpoint = record {
  highest_bounded = omega arith;
  announced_bounded = omega arith;
  fresh = λ e. refl;
  labelled = λ n c e. cc;
  held = λ n. refl;
}

pub max64_bounded : (a b : ℕ) → a ≤ int64_max → b ≤ int64_max → max64 a b ≤ int64_max
max64_bounded a b ha hb = ground arith

-- Entries go, up to a bound that becomes the highest number.
pub jump-IsWriterState :
    (dropped : ℕ → Bool) (highest : ℕ) (initialized : Bool) (s : WriterState)
    → highest ≤ int64_max
    → (initialized ≡ false → highest ≡ 0)
    → IsWriterState s
    → IsWriterState (record (jump dropped highest s) { range_initialized = initialized })
jump-IsWriterState dropped highest initialized s h i v = record {
  highest_bounded = h;
  announced_bounded = v.announced_bounded;
  fresh = i;
  labelled = λ n c e. v.labelled n c (ground (arith, find-erase_front dropped n s.pending, e));
  held = λ n. ground (
    arith,
    member-erase_erased dropped n s.pending s.received,
    find-erase_front dropped n s.pending,
    v.held n,
  );
}

-- The fields beside the entries and the highest number.
pub announce-IsWriterState :
    (announced : ℕ) (initialized : Bool) (s : WriterState)
    → announced ≤ int64_max
    → (initialized ≡ false → s.range_initialized ≡ false)
    → IsWriterState s
    → IsWriterState (record s { range_initialized = initialized; last_announced = announced })
announce-IsWriterState announced initialized s h i v = record {
  highest_bounded = v.highest_bounded;
  announced_bounded = h;
  fresh = λ e. v.fresh (i e);
  labelled = v.labelled;
  held = v.held;
}

put_labelled :
    (n k : ℕ) (c d : CacheChange) (s : WriterState)
    → IsSample s.writer_guid n c
    → is_held n s.pending ≡ false
    → find k (emplace n c s.pending) ≡ some d
    → IsWriterState s
    → IsSample s.writer_guid k d
put_labelled n k c d s l absent e v =
    let e' = sym (find-emplace k n c s.pending absent) ∙ e in
    elim (Bool-cases (n == k)) [
      | inl same ↦
          subst (λ (m : ℕ). IsSample s.writer_guid m d) (ground arith)
            (subst (IsSample s.writer_guid n) (ground arith) l)
      | inr other ↦ v.labelled k d (rw other at e')
    ]

pub put-IsWriterState :
    (n : ℕ) (c : CacheChange) (s : WriterState)
    → IsSample s.writer_guid n c
    → member n s.received ≡ false
    → IsWriterState s
    → IsWriterState (record s { received = insert n s.received; pending = emplace n c s.pending })
put-IsWriterState n c s l m v =
    let absent : is_held n s.pending ≡ false = sym (v.held n) ∙ m in
    record {
      highest_bounded = v.highest_bounded;
      announced_bounded = v.announced_bounded;
      fresh = v.fresh;
      labelled = λ k d e. put_labelled n k c d s l absent e v;
      held = λ k.
          ground
            (arith, find-emplace k n c s.pending absent, member-insert k n s.received, v.held k);
    }
