-- ===== src/Base/Bits.antt =====
-- `|` of disjoint fields as a sum, at every width, and masks of low bits as remainders.
use Prim.Native.Nat.{
  ℕ, zero, suc, ◌+◌, ◌*◌, ◌/◌, ◌%◌, ◌^◌, ◌≤◌, ◌<◌, max, min, bit_or, bit_and, digits, bitwise,
  bit_or-bitwise, bit_and-bitwise, bit_xor, bit_xor-bitwise, differ,
}
use mathlib.Core.Path.{◌≡◌, refl, ap, ◌∙◌}
use native.Mathlib.Omega.{arith}
use native.Mathlib.Nat.{pow-suc, le_refl}

-- The fuel of the digit recursion does not matter once it is enough.
module _ (z : ℕ → ℕ) (f : ℕ → ℕ → ℕ) where
  enough_digits : (n m a b : ℕ) → a ≤ n → a ≤ m → digits z f n a b ≡ digits z f m a b
  enough_digits zero zero a b p q = refl
  enough_digits zero (suc m) zero b p q = refl
  enough_digits zero (suc m) (suc a) b p q = absurd (omega arith)
  enough_digits (suc n) zero zero b p q = refl
  enough_digits (suc n) zero (suc a) b p q = absurd (omega arith)
  enough_digits (suc n) (suc m) zero b p q = refl
  enough_digits (suc n) (suc m) (suc a) b p q =
      rw (enough_digits n m (suc a / 2) (b / 2) (omega arith) (omega arith))

  lowest_digit :
      (a b : ℕ)
      → bitwise z f (suc a) b ≡ bitwise z f (suc a / 2) (b / 2) * 2 + f (suc a % 2) (b % 2)
  lowest_digit a b =
      omega (arith, enough_digits a (suc a / 2) (suc a / 2) (b / 2) (omega arith) (le_refl _))

pub bit_or-halves : (a b : ℕ) → bit_or a b ≡ bit_or (a / 2) (b / 2) * 2 + max (a % 2) (b % 2)
bit_or-halves zero b = simp bit_or-bitwise (omega arith)
bit_or-halves (suc a) b = simp bit_or-bitwise (lowest_digit (λ y. y) max a b)

pub bit_and-halves : (a b : ℕ) → bit_and a b ≡ bit_and (a / 2) (b / 2) * 2 + min (a % 2) (b % 2)
bit_and-halves zero b = simp bit_and-bitwise (omega arith)
bit_and-halves (suc a) b = simp bit_and-bitwise (lowest_digit (λ y. 0) min a b)

zero-bit_or : (b : ℕ) → bit_or 0 b ≡ b
zero-bit_or b = simp bit_or-bitwise refl

double : (q k : ℕ) → q * 2 ^ suc k ≡ 2 * (q * 2 ^ k)
double q k = omega (arith, ap (λ (t : ℕ). q * t) (pow-suc 2 k))

-- `r | (q << k)` is a sum where `r` fits below the shift.
pub bit_or-shifted : (k r q : ℕ) → r < 2 ^ k → bit_or r (q * 2 ^ k) ≡ r + q * 2 ^ k
bit_or-shifted zero zero q h = zero-bit_or (q * 2 ^ 0) ∙ omega arith
bit_or-shifted zero (suc r) q h = absurd (omega arith)
bit_or-shifted (suc k) r q h = ground (
  arith,
  bit_or-halves r (q * 2 ^ suc k),
  double q k,
  pow-suc 2 k,
  bit_or-shifted k (r / 2) q (omega (arith, pow-suc 2 k)),
)

pub bit_xor-halves : (a b : ℕ) → bit_xor a b ≡ bit_xor (a / 2) (b / 2) * 2 + differ (a % 2) (b % 2)
bit_xor-halves zero b = simp bit_xor-bitwise (omega arith)
bit_xor-halves (suc a) b = simp bit_xor-bitwise (lowest_digit (λ y. y) differ a b)

differ-le : (a b : ℕ) → a ≤ 1 → b ≤ 1 → differ a b ≤ 1
differ-le zero b p q = q
differ-le (suc a) zero p q = p
differ-le (suc a) (suc b) p q = differ-le a b (omega arith) (omega arith)

-- `^` stays within the width of its operands.
pub bit_xor-lt : (k a b : ℕ) → a < 2 ^ k → b < 2 ^ k → bit_xor a b < 2 ^ k
bit_xor-lt zero zero zero ha hb = omega arith
bit_xor-lt zero zero (suc b) ha hb = absurd (omega arith)
bit_xor-lt zero (suc a) b ha hb = absurd (omega arith)
bit_xor-lt (suc k) a b ha hb = omega (
  arith,
  bit_xor-halves a b,
  differ-le (a % 2) (b % 2) (omega arith) (omega arith),
  pow-suc 2 k,
  bit_xor-lt k (a / 2) (b / 2) (omega (arith, pow-suc 2 k)) (omega (arith, pow-suc 2 k)),
)

bit_and_zero-le : (b : ℕ) → bit_and 0 b ≤ 0
bit_and_zero-le b = simp bit_and-bitwise (omega arith)

-- `&` is no larger than its first operand.
pub bit_and-le : (n a b : ℕ) → a ≤ n → bit_and a b ≤ a
bit_and-le zero zero b h = bit_and_zero-le b
bit_and-le zero (suc a) b h = absurd (omega arith)
bit_and-le (suc n) zero b h = bit_and_zero-le b
bit_and-le (suc n) (suc a) b h =
    omega (arith, bit_and-halves (suc a) b, bit_and-le n (suc a / 2) (b / 2) (omega arith))

bit_or_zero : (n a : ℕ) → a ≤ n → bit_or a 0 ≡ a
bit_or_zero n zero h = zero-bit_or 0
bit_or_zero zero (suc a) h = absurd (omega arith)
bit_or_zero (suc n) (suc a) h =
    omega (arith, bit_or-halves (suc a) 0, bit_or_zero n (suc a / 2) (omega arith))

-- `(q << k) | r`, the same with the operands in the other order.
pub bit_or_high : (k q r : ℕ) → r < 2 ^ k → bit_or (q * 2 ^ k) r ≡ q * 2 ^ k + r
bit_or_high zero q zero h = omega (arith, bit_or_zero (q * 2 ^ 0) (q * 2 ^ 0) (le_refl _))
bit_or_high zero q (suc r) h = absurd (omega arith)
bit_or_high (suc k) q r h = ground (
  arith,
  bit_or-halves (q * 2 ^ suc k) r,
  double q k,
  pow-suc 2 k,
  bit_or_high k q (r / 2) (omega (arith, pow-suc 2 k)),
)
