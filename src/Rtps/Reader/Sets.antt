-- ===== src/Rtps/Reader/Sets.antt =====
-- What the reader uses of std::set<int64_t> and std::map<int64_t, CacheChange>. A set is the list of
-- its elements and a map that of its entries, each key once. Both are ordered by key in the program,
-- so that a loop from `begin()` while the key is small visits exactly the small keys, and
-- `rbegin()` is the greatest.
pub mod Lookup
use mini_dds.Prelude.{
  ℕ, List, [], ◌∷◌, map, any_of, remove_if, Bool, true, false, ◌==◌, if◌then◌else◌, Option, none,
  some,
}
use mini_dds.Rtps.Types.{slt64}

abbrev pub member : ℕ → List ℕ → Bool
member n = any_of (λ (m : ℕ). m == n)

-- `insert`; its answer is `not (member n xs)`.
unfoldable pub insert : ℕ → List ℕ → List ℕ
insert n xs = if member n xs then xs else n ∷ xs

unfoldable pub erase : ℕ → List ℕ → List ℕ
erase n = remove_if (λ (m : ℕ). m == n)

module _ {V : Type 0} where
  abbrev pub find : ℕ → List (ℕ × V) → Option V
  find n [] = none
  find n ((m, v) ∷ xs) = if m == n then some v else find n xs

  abbrev pub keys : List (ℕ × V) → List ℕ
  keys [] = []
  keys ((m, v) ∷ xs) = m ∷ keys xs

  -- `emplace` changes nothing where the key is there.
  unfoldable pub emplace : ℕ → V → List (ℕ × V) → List (ℕ × V)
  emplace n v xs = if member n (keys xs) then xs else (n, v) ∷ xs

  abbrev has_key : ℕ → ℕ × V → Bool
  has_key n (m, v) = m == n

  unfoldable pub erase_key : ℕ → List (ℕ × V) → List (ℕ × V)
  erase_key n = remove_if (has_key n)

  -- The loop that erases from `begin()` on while the key passes the test.
  abbrev key_passes : (ℕ → Bool) → ℕ × V → Bool
  key_passes test (m, v) = test m

  unfoldable pub erase_front : (ℕ → Bool) → List (ℕ × V) → List (ℕ × V)
  erase_front test = remove_if (key_passes test)

  -- The same loop on the set beside the map: it loses the keys that the map loses.
  unfoldable pub erase_erased : (ℕ → Bool) → List (ℕ × V) → List ℕ → List ℕ
  erase_erased test [] xs = xs
  erase_erased test ((m, v) ∷ ms) xs = erase_erased test ms (if test m then erase m xs else xs)

  -- `std::max(low, rbegin()->first)`, or `low` for an empty map.
  unfoldable pub max_key : ℕ → List (ℕ × V) → ℕ
  max_key low [] = low
  max_key low ((m, v) ∷ xs) = max_key (if slt64 low m then m else low) xs
