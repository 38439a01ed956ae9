-- ===== src/Prelude/Bits/Single.antt =====
-- One bit of a number: what `& (1 << k)` tests and `|= 1 << k` sets.
use Prim.Native.Nat.{
  ℕ, zero, suc, ◌+◌, ◌-◌, ◌*◌, ◌/◌, ◌%◌, ◌^◌, ◌≤◌, ◌<◌, min, bit_and, bit_or, bit_and-bitwise,
}
use mathlib.Core.Path.{◌≡◌, refl, ap, ◌∙◌}
use mathlib.Core.Bool.{Bool, not, ◌||◌}
use native.Mathlib.Nat.{pow-suc}
use native.Mathlib.Omega.{arith}
use mini_dds.Prelude.Tests.{◌==◌}
use mini_dds.Prelude.Bits.{enough, bit_or_lowest, bit_or-zero}

-- The bit of `w` at place `k`, from the lowest on.
abbrev pub test_bit : ℕ → ℕ → Bool
test_bit w zero = w % 2 == 1
test_bit w (suc k) = test_bit (w / 2) k

bit_and_lowest : (a b : ℕ) → bit_and a b ≡ 2 * bit_and (a / 2) (b / 2) + min (a % 2) (b % 2)
bit_and_lowest zero b = omega (arith, bit_and-bitwise 0 b, bit_and-bitwise 0 (b / 2))
bit_and_lowest (suc a) b = omega (
  arith,
  bit_and-bitwise (suc a) b,
  bit_and-bitwise (suc a / 2) (b / 2),
  enough (λ n. 0) min a (suc a / 2) (suc a / 2) (b / 2) (omega arith) (omega arith),
)

bit_and-zero : (bound a : ℕ) → a ≤ bound → bit_and a 0 ≡ 0
bit_and-zero bound zero h = refl
bit_and-zero zero (suc a) h = absurd (omega arith)
bit_and-zero (suc bound) (suc a) h =
    omega (arith, bit_and_lowest (suc a) 0, bit_and-zero bound (suc a / 2) (omega arith))

pub bit_and_single : (k w : ℕ) → not (bit_and w (2 ^ k) == 0) ≡ test_bit w k
bit_and_single zero w =
    ground (arith, bit_and_lowest w 1, bit_and-zero (w / 2) (w / 2) (omega arith))
bit_and_single (suc k) w =
    ground (arith, bit_and_lowest w (2 ^ suc k), pow-suc 2 k, bit_and_single k (w / 2))

twice : (k : ℕ) → 2 ^ suc k / 2 ≡ 2 ^ k
twice k = omega (arith, pow-suc 2 k)

pub test_bit-bit_or : (j k w : ℕ) → test_bit (bit_or w (2 ^ k)) j ≡ (k == j || test_bit w j)
test_bit-bit_or zero zero w = ground (arith, bit_or_lowest w 1)
test_bit-bit_or (suc j) zero w =
    let half : bit_or w 1 / 2 ≡ w / 2 = omega (arith, bit_or_lowest w 1, bit_or-zero (w / 2)) in
    ground (arith, ap (λ (n : ℕ). test_bit n j) half)
test_bit-bit_or zero (suc k) w = ground (arith, bit_or_lowest w (2 ^ suc k), pow-suc 2 k)
test_bit-bit_or (suc j) (suc k) w =
    let half : bit_or w (2 ^ suc k) / 2 ≡ bit_or (w / 2) (2 ^ k) =
      omega (arith, bit_or_lowest w (2 ^ suc k), pow-suc 2 k, ap (bit_or (w / 2)) (twice k)) in
    ground (arith, ap (λ (n : ℕ). test_bit n j) half, test_bit-bit_or j k (w / 2))

-- The mask of the lowest bits keeps a number that has no others.
pub bit_and_low : (k a : ℕ) → a < 2 ^ k → bit_and a (2 ^ k - 1) ≡ a
bit_and_low zero a h = let e : a ≡ 0 = omega arith in rw e refl
bit_and_low (suc k) a h =
    let p = pow-suc 2 k in
    let half : (2 ^ suc k - 1) / 2 ≡ 2 ^ k - 1 = omega arith in
    let odd : (2 ^ suc k - 1) % 2 ≡ 1 = omega arith in
    let rest = ap (bit_and (a / 2)) half ∙ bit_and_low k (a / 2) (omega arith) in
    let all = bit_and_lowest a (2 ^ suc k - 1) in omega arith
