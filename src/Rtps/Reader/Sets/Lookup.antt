-- ===== src/Rtps/Reader/Sets/Lookup.antt =====
-- What a set and a map answer after an entry is put in or erased.
use mini_dds.Prelude.{
  ℕ, ◌≤◌, ◌<◌, ◌≡◌, refl, arith, List, [], ◌∷◌, length, Bool, true, false, ◌||◌, ◌==◌,
  if◌then◌else◌, not, ◌&&◌, none, some,
}
use mini_dds.Rtps.Reader.Sets.{
  member, insert, erase, find, keys, emplace, erase_key, erase_front, erase_erased,
}

pub member-erase : (n : ℕ) (xs : List ℕ) → member n (erase n xs) ≡ false
unfolding erase
member-erase n [] = refl
member-erase n (x ∷ xs) = ground (arith, member-erase n xs)

pub member-erase_other : (m n : ℕ) (xs : List ℕ) → ¬ (m ≡ n) → member m (erase n xs) ≡ member m xs
unfolding erase
member-erase_other m n [] h = refl
member-erase_other m n (x ∷ xs) h = ground (arith, member-erase_other m n xs h)

pub length-erase_le : (n : ℕ) (xs : List ℕ) → length (erase n xs) ≤ length xs
unfolding erase
length-erase_le n [] = omega arith
length-erase_le n (x ∷ xs) = ground (arith, length-erase_le n xs)

pub length-erase : (n : ℕ) (xs : List ℕ) → member n xs ≡ true → length (erase n xs) < length xs
unfolding erase
length-erase n [] h = cc
length-erase n (x ∷ xs) h = ground (arith, length-erase_le n xs, length-erase n xs)

module _ {V : Type 0} where
  pub find-erase_key : (n : ℕ) (xs : List (ℕ × V)) → find n (erase_key n xs) ≡ none
  unfolding erase_key
  find-erase_key n [] = refl
  find-erase_key n ((m, v) ∷ xs) = ground (arith, find-erase_key n xs)

  pub find-erase_key_other :
      (m n : ℕ) (xs : List (ℕ × V)) → ¬ (m ≡ n) → find m (erase_key n xs) ≡ find m xs
  unfolding erase_key
  find-erase_key_other m n [] h = refl
  find-erase_key_other m n ((k, v) ∷ xs) h = ground (arith, find-erase_key_other m n xs h)

  pub length-erase_key_le : (n : ℕ) (xs : List (ℕ × V)) → length (erase_key n xs) ≤ length xs
  unfolding erase_key
  length-erase_key_le n [] = omega arith
  length-erase_key_le n ((m, v) ∷ xs) = ground (arith, length-erase_key_le n xs)

  pub length-erase_key :
      (n : ℕ) (v : V) (xs : List (ℕ × V)) → find n xs ≡ some v → length (erase_key n xs) < length xs
  unfolding erase_key
  length-erase_key n v [] h = cc
  length-erase_key n v ((m, w) ∷ xs) h =
      ground (arith, length-erase_key_le n xs, length-erase_key n v xs)

pub member-insert : (m n : ℕ) (xs : List ℕ) → member m (insert n xs) ≡ (n == m || member m xs)
unfolding insert
member-insert m n xs = ground arith

module _ {V : Type 0} where
  abbrev pub is_held : ℕ → List (ℕ × V) → Bool
  is_held n xs = elim (find n xs) [ none ↦ false | some v ↦ true ]

  pub member-keys : (n : ℕ) (xs : List (ℕ × V)) → member n (keys xs) ≡ is_held n xs
  member-keys n [] = refl
  member-keys n ((m, v) ∷ xs) = ground (arith, member-keys n xs)

  pub find-emplace :
      (m n : ℕ) (v : V) (xs : List (ℕ × V))
      → is_held n xs ≡ false
      → find m (emplace n v xs) ≡ (if n == m then some v else find m xs)
  unfolding emplace
  find-emplace m n v xs h = rw (member-keys n xs, h) refl

  pub find-erase_front :
      (test : ℕ → Bool) (n : ℕ) (xs : List (ℕ × V))
      → find n (erase_front test xs) ≡ (if test n then none else find n xs)
  unfolding erase_front
  find-erase_front test n [] = ground arith
  find-erase_front test n ((m, v) ∷ xs) = ground (arith, find-erase_front test n xs)

  pub member-erase_erased :
      (test : ℕ → Bool) (n : ℕ) (ms : List (ℕ × V)) (xs : List ℕ)
      → member n (erase_erased test ms xs) ≡ (not (test n && is_held n ms) && member n xs)
  unfolding erase_erased
  member-erase_erased test n [] xs = ground arith
  member-erase_erased test n ((m, v) ∷ ms) xs = ground (
    arith,
    member-erase_erased test n ms (erase m xs),
    member-erase_erased test n ms xs,
    member-erase m xs,
    member-erase_other n m xs,
  )
