-- ===== src/History/Reader/Appended.antt =====
-- What `add` of history/History.cpp does with a change that is not held.
use mini_dds.Prelude.{
  ℕ, suc, ◌≤◌, ◌≡◌, refl, ap, arith, List, [], ◌∷◌, ◌++◌, length, length-append, min, ltb,
  ltb_false→le, false, Bool-cases, inl, inr,
}
use mini_dds.History.{CacheChange, trim}
use mini_dds.History.Trim.{length-trim, trim_room}
use mini_dds.History.Reader.{ReaderHistory, contains, add}
use mini_dds.History.Reader.Distinct.{IsQueue}

-- The change is behind the younger ones of those that were held, as many as there is room for.
pub record IsAppended (c : CacheChange) (h t : ReaderHistory) : Type 0 where
  pub dropped : List CacheChange
  pub rest : List CacheChange
  pub split : h.changes ≡ dropped ++ rest
  pub size : suc (length rest) ≡ min h.depth (suc (length h.changes))
  pub result : t ≡ record h { changes = rest ++ c ∷ [] }

-- Trimming drops from the front alone, and never the newest entry.
trim-append_one :
    (depth : ℕ) (xs : List CacheChange) (y : CacheChange)
    → 1 ≤ depth
    → (dropped : List CacheChange) × (rest : List CacheChange) × (xs ≡ dropped ++ rest)
      × (trim depth (xs ++ y ∷ []) ≡ rest ++ y ∷ [])
unfolding trim
trim-append_one depth [] y h = ([], [], refl, ground arith)
trim-append_one depth (x ∷ xs) y h = elim (Bool-cases (ltb depth (length (x ∷ (xs ++ y ∷ []))))) [
  | inl long ↦
      let (dropped, rest, e, t) = trim-append_one depth xs y h in
      (x ∷ dropped, rest, ap (λ l. x ∷ l) e, rw long t)
  | inr fits ↦ (
    [],
    x ∷ xs,
    refl,
    trim_room depth (x ∷ (xs ++ y ∷ [])) (ltb_false→le depth (length (x ∷ (xs ++ y ∷ []))) fits),
  )
]

pub add-IsAppended :
    (c : CacheChange) (h : ReaderHistory)
    → IsQueue h
    → contains c.writer_guid c.sequence_number h ≡ false
    → IsAppended c h (add c h).1
unfolding contains add
add-IsAppended c h q fresh =
    let (dropped, rest, e, t) = trim-append_one h.depth h.changes c q.room in
    let n = length-trim h.depth (h.changes ++ c ∷ []) in
    let m = length-append h.changes (c ∷ []) in
    let k = length-append rest (c ∷ []) in
    let l = ap length t in
    record {
      dropped = dropped;
      rest = rest;
      split = e;
      size = omega arith;
      result = rw (fresh, t) refl;
    }
