-- ===== src/Prelude/Bits.antt =====
-- Laws of `|` and `&` at variables: each native operation is a recursion on binary digits, and
-- disjoint fields join by addition.
pub mod Single
use Prim.Native.Nat.{
  ℕ, zero, suc, ◌+◌, ◌-◌, ◌*◌, ◌/◌, ◌%◌, ◌^◌, ◌≤◌, ◌<◌, min, max, bit_and, bit_or, digits,
  bit_and-bitwise, bit_or-bitwise,
}
use mathlib.Core.Path.{◌≡◌, refl, ap}
use native.Mathlib.Nat.{pow-suc}
use native.Mathlib.Omega.{arith}

-- The fuel of `digits` does not matter once it covers the first operand.
module _ (base : ℕ → ℕ) (digit : ℕ → ℕ → ℕ) where
  pub enough : (k l a b : ℕ) → a ≤ k → a ≤ l → digits base digit k a b ≡ digits base digit l a b
  enough zero zero a b h j = refl
  enough zero (suc l) zero b h j = refl
  enough (suc k) zero zero b h j = refl
  enough (suc k) (suc l) zero b h j = refl
  enough zero (suc l) (suc a) b h j = absurd (omega arith)
  enough (suc k) zero (suc a) b h j = absurd (omega arith)
  enough (suc k) (suc l) (suc a) b h j =
      omega (arith, enough k l (suc a / 2) (b / 2) (omega arith) (omega arith))

pub bit_or_lowest : (a b : ℕ) → bit_or a b ≡ 2 * bit_or (a / 2) (b / 2) + max (a % 2) (b % 2)
bit_or_lowest zero b = omega (arith, bit_or-bitwise 0 b, bit_or-bitwise 0 (b / 2))
bit_or_lowest (suc a) b = omega (
  arith,
  bit_or-bitwise (suc a) b,
  bit_or-bitwise (suc a / 2) (b / 2),
  enough (λ n. n) max a (suc a / 2) (suc a / 2) (b / 2) (omega arith) (omega arith),
)

pub zero-bit_or : (b : ℕ) → bit_or 0 b ≡ b
zero-bit_or b = bit_or-bitwise 0 b

bit_or-zero_upto : (bound a : ℕ) → a ≤ bound → bit_or a 0 ≡ a
bit_or-zero_upto bound zero h = refl
bit_or-zero_upto zero (suc a) h = absurd (omega arith)
bit_or-zero_upto (suc bound) (suc a) h =
    omega (arith, bit_or_lowest (suc a) 0, bit_or-zero_upto bound (suc a / 2) (omega arith))

pub bit_or-zero : (a : ℕ) → bit_or a 0 ≡ a
bit_or-zero a = bit_or-zero_upto a a (omega arith)

twice_field : (q k : ℕ) → q * 2 ^ suc k ≡ 2 * (q * 2 ^ k)
twice_field q k = omega (arith, ap (λ (p : ℕ). q * p) (pow-suc 2 k))

-- `low | (high << k)`
pub bit_or_high : (k low high : ℕ) → low < 2 ^ k → bit_or low (high * 2 ^ k) ≡ low + high * 2 ^ k
bit_or_high zero zero high h = ground (arith, zero-bit_or (high * 1))
bit_or_high zero (suc low) high h = absurd (omega arith)
bit_or_high (suc k) low high h = ground (
  arith,
  bit_or_lowest low (high * 2 ^ suc k),
  twice_field high k,
  pow-suc 2 k,
  bit_or_high k (low / 2) high (omega (arith, pow-suc 2 k)),
)

-- `(high << k) | low`
pub bit_or_low : (k high low : ℕ) → low < 2 ^ k → bit_or (high * 2 ^ k) low ≡ high * 2 ^ k + low
bit_or_low zero high zero h = ground (arith, bit_or-zero (high * 1))
bit_or_low zero high (suc low) h = absurd (omega arith)
bit_or_low (suc k) high low h = ground (
  arith,
  bit_or_lowest (high * 2 ^ suc k) low,
  twice_field high k,
  pow-suc 2 k,
  bit_or_low k high (low / 2) (omega (arith, pow-suc 2 k)),
)
