-- ===== src/Prelude/Bits.antt =====
-- Bounds on the bitwise disjunction of words, by induction on the digits that it is made of.
use Prim.Native.Nat.{
  ℕ, zero, suc, ◌+◌, ◌*◌, ◌/◌, ◌%◌, ◌^◌, ◌≤◌, ◌<◌, max, bit_or, digits, bit_or-bitwise,
}
use mathlib.Core.Path.{◌≡◌, refl, ap}
use native.Mathlib.Nat.{pow-suc}
use native.Mathlib.Omega.{arith}

abbrev or_digits : ℕ → ℕ → ℕ → ℕ
or_digits n a b = digits (λ d. d) max n a b

or_digits-le : (n a b : ℕ) → a ≤ n → a ≤ or_digits n a b
or_digits-le zero a b h = omega arith
or_digits-le (suc n) zero b h = omega arith
or_digits-le (suc n) (suc a) b h = omega (arith, or_digits-le n (suc a / 2) (b / 2) (omega arith))

or_digits-lt : (n k a b : ℕ) → a < 2 ^ k → b < 2 ^ k → or_digits n a b < 2 ^ k
or_digits-lt zero k a b p q = q
or_digits-lt (suc n) k zero b p q = q
or_digits-lt (suc n) zero (suc a) b p q = absurd (omega arith)
or_digits-lt (suc n) (suc k) (suc a) b p q =
    let half : 2 ^ suc k ≡ 2 ^ k * 2 = pow-suc 2 k in
    omega (
      arith,
      half,
      or_digits-lt n k (suc a / 2) (b / 2) (omega (arith, half)) (omega (arith, half)),
    )

-- The last digit of a disjunction, and what it leaves to be done.
record Last (n a b : ℕ) : Type 0 where
  pub left : ℕ
  pub enough : a / 2 ≤ left
  pub split : or_digits n a b ≡ or_digits left (a / 2) (b / 2) * 2 + max (a % 2) (b % 2)

or_digits-Last : (n a b : ℕ) → a ≤ n → Last n a b
or_digits-Last n zero b h = record { left = 0; enough = omega arith; split = by_count n }
  where
    by_count : (k : ℕ) → or_digits k 0 b ≡ b / 2 * 2 + max 0 (b % 2)
    by_count zero = omega arith
    by_count (suc k) = omega arith
or_digits-Last zero (suc a) b h = absurd (omega arith)
or_digits-Last (suc n) (suc a) b h = record { left = n; enough = omega arith; split = refl }

-- The digits of `s` fill up the low digits of a number whose high digits are `q`.
or_digits-high :
    (m n q r s : ℕ)
    → r < 2 ^ m
    → s < 2 ^ m
    → q * 2 ^ m + r ≤ n
    → q * 2 ^ m + s ≤ or_digits n (q * 2 ^ m + r) s
or_digits-high zero n q r s p h e = omega (arith, or_digits-le n (q * 2 ^ 0 + r) s e)
or_digits-high (suc m) n q r s p h e =
    let half : 2 ^ suc m ≡ 2 ^ m * 2 = pow-suc 2 m in
    let shifted : q * 2 ^ suc m ≡ 2 * (q * 2 ^ m) = omega (arith, ap (λ (t : ℕ). q * t) half) in
    let last = or_digits-Last n (q * 2 ^ suc m + r) s e in
    let halved : (q * 2 ^ suc m + r) / 2 ≡ q * 2 ^ m + r / 2 = omega (arith, shifted) in
    let high =
      or_digits-high m last.left q (r / 2) (s / 2) (omega (arith, half)) (omega (arith, half))
        (omega (arith, halved, last.enough)) in
    omega (arith, shifted, last.split, ap (λ (t : ℕ). or_digits last.left t (s / 2)) halved, high)

-- `|` only sets bits, and stays within the width of its words.
pub bit_or-le : (a b : ℕ) → a ≤ bit_or a b
bit_or-le a b = omega (arith, bit_or-bitwise a b, or_digits-le a a b (omega arith))

pub bit_or-lt : (k a b : ℕ) → a < 2 ^ k → b < 2 ^ k → bit_or a b < 2 ^ k
bit_or-lt k a b p q = omega (arith, bit_or-bitwise a b, or_digits-lt a k a b p q)

-- It fills up the low bits of a number with those of `s`.
pub bit_or-high : (m q r s : ℕ) → r < 2 ^ m → s < 2 ^ m → q * 2 ^ m + s ≤ bit_or (q * 2 ^ m + r) s
bit_or-high m q r s p h = omega (
  arith,
  bit_or-bitwise (q * 2 ^ m + r) s,
  or_digits-high m (q * 2 ^ m + r) q r s p h (omega arith),
)
