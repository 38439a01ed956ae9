-- ===== src/History/Reader/Distinct.antt =====
-- ReaderHistory of history/History.cpp as a queue of changes told apart by writer and number.
use mini_dds.Prelude.{
  ℕ, ◌≤◌, ◌≡◌, refl, ap, ◌⊎◌, inl, inr, arith, List, [], ◌∷◌, ◌++◌, length, any_of, Bool, true,
  false, ltb, Bool-cases, none, some,
}
use mini_dds.Rtps.Types.{guid_eq_iff, sequence_number_eq_iff}
use mini_dds.History.{CacheChange, trim}
use mini_dds.History.Trim.{length-trim}
use mini_dds.History.Reader.{
  ReaderHistory, is_change, contains, add, take, take_front, new_reader_history,
}

-- The test for the writer and the number of `c`.
abbrev pub same_as : CacheChange → CacheChange → Bool
same_as c = is_change c.writer_guid c.sequence_number

abbrev pub Distinct : List CacheChange → Type 0
Distinct [] = Unit {0}
Distinct (x ∷ xs) = (any_of (same_as x) xs ≡ false) × Distinct xs

pub record IsQueue (h : ReaderHistory) : Type 0 where
  pub room : 1 ≤ h.depth
  pub bounded : length h.changes ≤ h.depth
  pub distinct : Distinct h.changes

same_as_refl : (c : CacheChange) → same_as c c ≡ true
same_as_refl c = ground (
  arith,
  guid_eq_iff c.writer_guid c.writer_guid,
  sequence_number_eq_iff c.sequence_number c.sequence_number,
)

same_as_comm : (c d : CacheChange) → same_as c d ≡ false → same_as d c ≡ false
same_as_comm c d h = ground (
  arith,
  guid_eq_iff c.writer_guid d.writer_guid,
  guid_eq_iff d.writer_guid c.writer_guid,
  sequence_number_eq_iff c.sequence_number d.sequence_number,
  sequence_number_eq_iff d.sequence_number c.sequence_number,
)

any_of-append_one :
    (p : CacheChange → Bool) (xs : List CacheChange) (y : CacheChange)
    → any_of p xs ≡ false
    → p y ≡ false
    → any_of p (xs ++ y ∷ []) ≡ false
any_of-append_one p [] y h k = ground arith
any_of-append_one p (x ∷ xs) y h k = ground (arith, any_of-append_one p xs y)

Distinct-append_one :
    (xs : List CacheChange) (y : CacheChange)
    → Distinct xs
    → any_of (same_as y) xs ≡ false
    → Distinct (xs ++ y ∷ [])
Distinct-append_one [] y d h = (refl, tt)
Distinct-append_one (x ∷ xs) y d h = (
  any_of-append_one (same_as x) xs y d.0 (same_as_comm y x (ground arith)),
  Distinct-append_one xs y d.1 (ground arith),
)

Distinct-trim : (depth : ℕ) (xs : List CacheChange) → Distinct xs → Distinct (trim depth xs)
unfolding trim
Distinct-trim depth [] d = tt
Distinct-trim depth (x ∷ xs) d = elim (Bool-cases (ltb depth (length (x ∷ xs)))) [
  | inl long ↦ rw long (Distinct-trim depth xs d.1)
  | inr fits ↦ rw fits d
]

any_of-last :
    (p : CacheChange → Bool) (xs : List CacheChange) (y : CacheChange)
    → p y ≡ true
    → any_of p (xs ++ y ∷ []) ≡ true
any_of-last p [] y k = ground arith
any_of-last p (x ∷ xs) y k = ground (arith, any_of-last p xs y)

-- The newest entry is never trimmed away.
any_of-trim_last :
    (p : CacheChange → Bool) (depth : ℕ) (xs : List CacheChange) (y : CacheChange)
    → 1 ≤ depth
    → p y ≡ true
    → any_of p (trim depth (xs ++ y ∷ [])) ≡ true
unfolding trim
any_of-trim_last p depth [] y h k = ground arith
any_of-trim_last p depth (x ∷ xs) y h k =
    ground (arith, any_of-trim_last p depth xs y, any_of-last p xs y)

pub new_reader_history-IsQueue : (depth : ℕ) → IsQueue (new_reader_history depth)
unfolding new_reader_history
new_reader_history-IsQueue depth = record {
  room = omega arith;
  bounded = omega arith;
  distinct = tt;
}

-- In a reader's history that is a bounded queue of distinct changes, a change whose writer and
-- number are held already is refused and leaves the history as it was; any other is taken in and is
-- held afterwards, and the history stays a bounded queue of distinct changes.
pub add-IsQueue :
    (c : CacheChange) (h : ReaderHistory)
    → IsQueue h
    → IsQueue (add c h).1
      × (((contains c.writer_guid c.sequence_number h ≡ true) × (add c h ≡ (false, h)))
          ⊎ ((contains c.writer_guid c.sequence_number h ≡ false)
              × ((add c h).0 ≡ true)
              × (contains c.writer_guid c.sequence_number (add c h).1 ≡ true)))
unfolding add contains
add-IsQueue c h v = elim (Bool-cases (any_of (same_as c) h.changes)) [
  | inl held ↦ rw held (v, inl (refl, refl))
  | inr fresh ↦ rw fresh (
    record {
      room = v.room;
      bounded = omega (arith, length-trim h.depth (h.changes ++ c ∷ []));
      distinct = Distinct-trim h.depth _ (Distinct-append_one h.changes c v.distinct fresh);
    },
    inr (refl, refl, any_of-trim_last (same_as c) h.depth h.changes c v.room (same_as_refl c)),
  )
]

taken :
    (h : ReaderHistory) (cs : List CacheChange)
    → h.changes ≡ cs
    → IsQueue h
    → IsQueue (take_front cs h).1
      × (((h.changes ≡ []) × (take_front cs h ≡ (none, h)))
          ⊎ ((c : CacheChange) × ((take_front cs h).0 ≡ some c)
              × (h.changes ≡ c ∷ (take_front cs h).1.changes)
              × (any_of (same_as c) (take_front cs h).1.changes ≡ false)))
taken h [] e v = (v, inl (e, refl))
taken h (c ∷ cs) e v =
    let rest = rw e at v.distinct in
    (
      record { room = v.room; bounded = omega (arith, ap length e, v.bounded); distinct = rest.1 },
      inr (c, refl, e, rest.0),
    )

-- `take` from a reader's history that is a bounded queue of distinct changes gives the oldest
-- change, leaves the younger ones in their order as such a queue, and what it gave is no longer
-- held. It gives nothing only if nothing is held.
pub take-IsQueue :
    (h : ReaderHistory)
    → IsQueue h
    → IsQueue (take h).1
      × (((h.changes ≡ []) × (take h ≡ (none, h)))
          ⊎ ((c : CacheChange) × ((take h).0 ≡ some c)
              × (h.changes ≡ c ∷ (take h).1.changes)
              × (contains c.writer_guid c.sequence_number (take h).1 ≡ false)))
unfolding take contains
take-IsQueue h v = taken h h.changes refl v
