-- ===== src/Base/Bits.antt =====
-- `&` with 0xFEFF and `|` of disjoint fields, read as arithmetic.
use Prim.Native.Nat.{
  ℕ, zero, suc, ◌+◌, ◌*◌, ◌/◌, ◌%◌, ◌≤◌, ◌<◌, min, max, digits, bit_and, bit_or, bit_and-bitwise,
  bit_or-bitwise,
}
use mathlib.Core.Path.{◌≡◌, refl, ap, ap₂}
use native.Mathlib.Omega.{arith}

-- The digit recursion does not depend on its fuel.
module _ (base : ℕ → ℕ) (op : ℕ → ℕ → ℕ) where
  enough_fuel : (f g a b : ℕ) → a ≤ f → a ≤ g → digits base op f a b ≡ digits base op g a b
  enough_fuel zero zero a b p q = refl
  enough_fuel (suc f) zero zero b p q = refl
  enough_fuel zero (suc g) zero b p q = refl
  enough_fuel (suc f) (suc g) zero b p q = refl
  enough_fuel (suc f) (suc g) (suc a) b p q =
      rw (enough_fuel f g (suc a / 2) (b / 2) (omega arith) (omega arith))
  enough_fuel zero (suc g) (suc a) b p q = absurd (omega arith)
  enough_fuel (suc f) zero (suc a) b p q = absurd (omega arith)

pub bit_and_digit : (a b : ℕ) → bit_and a b ≡ 2 * bit_and (a / 2) (b / 2) + min (a % 2) (b % 2)
bit_and_digit zero b = simp bit_and-bitwise (omega arith)
bit_and_digit (suc a) b = simp bit_and-bitwise (
    omega (
      arith,
      enough_fuel (λ _. 0) min a (suc a / 2) (suc a / 2) (b / 2) (omega arith) (omega arith),
    ))

pub bit_or_digit : (a b : ℕ) → bit_or a b ≡ 2 * bit_or (a / 2) (b / 2) + max (a % 2) (b % 2)
bit_or_digit zero b = simp bit_or-bitwise (omega arith)
bit_or_digit (suc a) b = simp bit_or-bitwise (
    omega (
      arith,
      enough_fuel (λ y. y) max a (suc a / 2) (suc a / 2) (b / 2) (omega arith) (omega arith),
    ))

pub bit_or-zero : (n a : ℕ) → a ≤ n → bit_or a 0 ≡ a
bit_or-zero n zero h = refl
bit_or-zero zero (suc a) h = absurd (omega arith)
bit_or-zero (suc n) (suc a) h =
    omega (arith, bit_or_digit (suc a) 0, bit_or-zero n (suc a / 2) (omega arith))

-- One binary digit, with the halves named so that steps chain.
bit_or_step : (a b c d r : ℕ) → a ≡ 2 * c → b ≡ 2 * d + r → r < 2 → bit_or a b ≡ 2 * bit_or c d + r
bit_or_step a b c d r p q h = ground (
  arith,
  bit_or_digit a b,
  ap₂ bit_or (half-eq a c 0 (omega arith) (omega arith)) (half-eq b d r q h),
)
  where
    half-eq : (x y s : ℕ) → x ≡ 2 * y + s → s < 2 → x / 2 ≡ y
    half-eq x y s e l = omega arith

bit_and_step : (a b m : ℕ) → b ≡ 2 * m + 1 → bit_and a b ≡ 2 * bit_and (a / 2) m + a % 2
bit_and_step a b m e = ground (arith, bit_and_digit a b, ap (bit_and (a / 2)) (half-eq b m e))
  where
    half-eq : (x y : ℕ) → x ≡ 2 * y + 1 → x / 2 ≡ y
    half-eq x y p = omega arith

bit_or_nibble : (a b r : ℕ) → r < 16 → bit_or (16 * a) (16 * b + r) ≡ 16 * bit_or a b + r
bit_or_nibble a b r h = omega (
  arith,
  bit_or_step (16 * a) (16 * b + r) (8 * a) (8 * b + r / 2) (r % 2),
  bit_or_step (8 * a) (8 * b + r / 2) (4 * a) (4 * b + r / 4) (r / 2 % 2),
  bit_or_step (4 * a) (4 * b + r / 4) (2 * a) (2 * b + r / 8) (r / 4 % 2),
  bit_or_step (2 * a) (2 * b + r / 8) a b (r / 8),
)

-- `|` of a multiple of 256 with a number adds up above the low byte, which it keeps.
pub bit_or_byte : (a b r : ℕ) → r < 256 → bit_or (256 * a) (256 * b + r) ≡ 256 * bit_or a b + r
bit_or_byte a b r h =
    omega (
      arith,
      regroup,
      bit_or_nibble (16 * a) (16 * b + r / 16) (r % 16),
      bit_or_nibble a b (r / 16),
    )
  where
    regroup :
        bit_or (256 * a) (256 * b + r) ≡ bit_or (16 * (16 * a)) (16 * (16 * b + r / 16) + r % 16)
    regroup = ap₂ bit_or (omega arith) (omega arith)

bit_and_nibble : (a m : ℕ) → bit_and a (16 * m + 15) ≡ 16 * bit_and (a / 2 / 2 / 2 / 2) m + a % 16
bit_and_nibble a m = omega (
  arith,
  bit_and_step a (16 * m + 15) (8 * m + 7),
  bit_and_step (a / 2) (8 * m + 7) (4 * m + 3),
  bit_and_step (a / 2 / 2) (4 * m + 3) (2 * m + 1),
  bit_and_step (a / 2 / 2 / 2) (2 * m + 1) m,
)

-- Masking with ones in the low byte keeps the low byte.
pub bit_and_low_byte : (a m : ℕ) → bit_and a (256 * m + 255) % 256 ≡ a % 256
bit_and_low_byte a m =
    omega (arith, regroup, bit_and_nibble a (16 * m + 15), bit_and_nibble (a / 2 / 2 / 2 / 2) m)
  where
    regroup : bit_and a (256 * m + 255) ≡ bit_and a (16 * (16 * m + 15) + 15)
    regroup = ap (bit_and a) (omega arith)

bit_or_pos : (n a b : ℕ) → b ≤ n → 0 < b → 0 < bit_or a b
bit_or_pos zero a b h p = absurd (omega arith)
bit_or_pos (suc n) a b h p = ground (arith, bit_or_digit a b, bit_or_pos n (a / 2) (b / 2))

-- `sum | 0x0100` is never zero.
pub bit_or_256_pos : (a : ℕ) → 0 < bit_or a 0x100
bit_or_256_pos a = bit_or_pos 256 a 0x100 (omega arith) (omega arith)

bit_and-zero : (n a : ℕ) → a ≤ n → bit_and a 0 ≡ 0
bit_and-zero n zero h = refl
bit_and-zero zero (suc a) h = absurd (omega arith)
bit_and-zero (suc n) (suc a) h =
    omega (arith, bit_and_digit (suc a) 0, bit_and-zero n (suc a / 2) (omega arith))

-- Masking with 0xFF is the remainder by 256.
pub bit_and_byte : (a : ℕ) → bit_and a 0xFF ≡ a % 256
bit_and_byte a = omega (
  arith,
  bit_and_nibble a 15,
  bit_and_nibble (a / 2 / 2 / 2 / 2) 0,
  bit_and-zero a (a / 2 / 2 / 2 / 2 / 2 / 2 / 2 / 2) (omega arith),
)
