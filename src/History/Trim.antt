-- ===== src/History/Trim.antt =====
-- The loop `while (changes_.size() > depth_) changes_.pop_front();` of history/History.cpp.
use mini_dds.Prelude.{
  ℕ, suc, ◌-◌, ◌≤◌, ◌<◌, ◌≡◌, refl, ap, ◌∙◌, arith, List, [], ◌∷◌, ◌++◌, length, length-append,
  drop, drop-nil, sym, length-drop, ltb, ltb→lt, ltb_false→le, Bool-cases, if◌then◌else◌, inl, inr,
  min, All,
}

module _ {ℓ} {A : Type ℓ} where
  unfoldable pub trim : ℕ → List A → List A
  trim depth [] = []
  trim depth (x ∷ xs) =
      let rest = trim depth xs in if ltb depth (length (x ∷ xs)) then rest else x ∷ xs

  -- The loop keeps the last `depth` entries.
  pub trim_lem : (depth : ℕ) (xs : List A) → trim depth xs ≡ drop (length xs - depth) xs
  unfolding trim
  trim_lem depth [] = sym (drop-nil (length {A = A} [] - depth))
  trim_lem depth (x ∷ xs) = elim (Bool-cases (ltb depth (length (x ∷ xs)))) [
    | inl long ↦ rw long (
        trim_lem depth xs
        ∙ ap (λ (n : ℕ). drop n (x ∷ xs)) (one_more (ltb→lt depth (length (x ∷ xs)) long)))
    | inr fits ↦
        rw fits
          (ap (λ (n : ℕ). drop n (x ∷ xs)) (none_over (ltb_false→le depth (length (x ∷ xs)) fits)))
  ]
    where
      one_more : depth < suc (length xs) → suc (length xs - depth) ≡ suc (length xs) - depth
      one_more h = omega arith

      none_over : suc (length xs) ≤ depth → 0 ≡ suc (length xs) - depth
      none_over h = omega arith

  pub length-trim : (depth : ℕ) (xs : List A) → length (trim depth xs) ≡ min depth (length xs)
  length-trim depth xs = rw (trim_lem depth xs, length-drop) (omega arith)

  -- With room for one more the loop drops nothing, else the oldest.
  pub trim_room : (depth : ℕ) (xs : List A) → length xs ≤ depth → trim depth xs ≡ xs
  unfolding trim
  trim_room depth [] h = refl
  trim_room depth (x ∷ xs) h = ground arith

  -- Trimming before and after an addition is trimming after it.
  pub trim-trim_append :
      (depth : ℕ) (xs : List A) (y : A)
      → trim depth (trim depth xs ++ y ∷ []) ≡ trim depth (xs ++ y ∷ [])
  unfolding trim
  trim-trim_append depth [] y = refl
  trim-trim_append depth (x ∷ xs) y =
      ground (arith, trim-trim_append depth xs y, length-append xs (y ∷ []))

  pub trim-All {κ} : (P : A → Type κ) (depth : ℕ) (xs : List A) → All P xs → All P (trim depth xs)
  unfolding trim
  trim-All P depth [] h = tt
  trim-All P depth (x ∷ xs) h = elim (Bool-cases (ltb depth (length (x ∷ xs)))) [
    | inl long ↦ rw long (trim-All P depth xs h.1)
    | inr fits ↦ rw fits h
  ]
