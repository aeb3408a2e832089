-- ===== src/PowerOfTwo.antt =====
-- src/base/bip_buf.c: `next_power_of_two`, on `uint32_t` words.
use native.Mathlib.Decide.{dec_le}
use native.Mathlib.Nat.{
  pow-suc, one-le-pow, le-div_iff_mul-le, pow-le-pow_right, div-le_self, mul-sub, div-lt_iff_lt-mul,
}
use kj_cpp_redis.Prelude.Bits.{bit_or-le, bit_or-lt, bit_or-high}
use Prim.Native.Nat.{bit_or}
use kj_cpp_redis.Prelude.{
  ℕ, zero, suc, ◌+◌, ◌-◌, ◌*◌, ◌/◌, ◌^◌, ◌≤◌, ◌<◌, ◌≡◌, ◌∙◌, ap, arith, add_u32, sub_u32, count_eq,
}

-- `x |= x >> k`
abbrev pub smear : ℕ → ℕ → ℕ
smear k x = bit_or x (x / 2 ^ k)

smear-lt : (k x : ℕ) → x < 2 ^ 31 → smear k x < 2 ^ 31
smear-lt k x h = bit_or-lt 31 x (x / 2 ^ k) h (omega arith)

unfoldable pub next_power_of_two : ℕ → ℕ
next_power_of_two x =
    let x0 = sub_u32 x 1 in
    let x1 = smear 1 x0 in
    let x2 = smear 2 x1 in
    let x3 = smear 4 x2 in let x4 = smear 8 x3 in let x5 = smear 16 x4 in add_u32 x5 1

-- Up to 2^31 the result is at least the argument, and is itself at most 2^31.
pub next_power_of_two_bounds :
    (x : ℕ) → 0 < x → x ≤ 2 ^ 31 → (x ≤ next_power_of_two x) × (next_power_of_two x ≤ 2 ^ 31)
unfolding next_power_of_two
next_power_of_two_bounds x pos h =
    let x0 = sub_u32 x 1 in
    let x1 = smear 1 x0 in
    let x2 = smear 2 x1 in
    let x3 = smear 4 x2 in
    let x4 = smear 8 x3 in
    let b0 : x0 < 2 ^ 31 = omega arith in
    let b1 : x1 < 2 ^ 31 = smear-lt 1 x0 b0 in
    let b2 : x2 < 2 ^ 31 = smear-lt 2 x1 b1 in
    let b3 : x3 < 2 ^ 31 = smear-lt 4 x2 b2 in
    let b4 : x4 < 2 ^ 31 = smear-lt 8 x3 b3 in
    let b5 : smear 16 x4 < 2 ^ 31 = smear-lt 16 x4 b4 in
    omega (
      arith,
      bit_or-le x0 (x0 / 2 ^ 1),
      bit_or-le x1 (x1 / 2 ^ 2),
      bit_or-le x2 (x2 / 2 ^ 4),
      bit_or-le x3 (x3 / 2 ^ 8),
      bit_or-le x4 (x4 / 2 ^ 16),
    )

power_sum : (m j : ℕ) → 2 ^ (m + j) ≡ 2 ^ m * 2 ^ j
power_sum m zero = count_eq (λ n. 2 ^ n) (m + 0) m (omega arith) ∙ omega arith
power_sum m (suc j) =
    count_eq (λ n. 2 ^ n) (m + suc j) (suc (m + j)) (omega arith)
    ∙ omega (
      arith,
      pow-suc 2 (m + j),
      pow-suc 2 j,
      power_sum m j,
      ap (λ (t : ℕ). 2 ^ m * t) (pow-suc 2 j),
    )

-- Of the `k` low bits of the word the `j` highest are set, and no bit above them is.
record Top (k j x : ℕ) : Type 0 where
  pub high : 2 ^ k ≤ x + 2 ^ (k - j)
  pub low : x < 2 ^ k

powers_below : (k j : ℕ) → j ≤ k → 2 ^ (k - j) ≤ 2 ^ (k - 2 * j) * 2 ^ j
powers_below k j h = elim (dec_le (2 * j) k) [
  | yes twice ↦
      omega (
        arith,
        power_sum (k - 2 * j) j,
        count_eq (λ n. 2 ^ n) (k - j) (k - 2 * j + j) (omega arith),
      )
  | no over ↦ omega (
    arith,
    pow-le-pow_right {n = 2} (omega arith) {i = k - j} {j = j} (omega arith),
    count_eq (λ n. 2 ^ n * 2 ^ j) (k - 2 * j) 0 (omega arith),
  )
]

-- The shifted word has ones where the word has its first zeros.
shifted_high : (k j x : ℕ) → j ≤ k → Top k j x → 2 ^ (k - j) ≤ x / 2 ^ j + 2 ^ (k - 2 * j)
shifted_high k j x h t =
    let m : ℕ = 2 ^ (k - j) in
    let a : ℕ = 2 ^ (k - 2 * j) in
    let whole : 2 ^ k ≡ m * 2 ^ j =
      count_eq (λ n. 2 ^ n) k (k - j + j) (omega arith) ∙ power_sum (k - j) j in
    let part : (m - a) * 2 ^ j ≤ x =
      omega (arith, whole, powers_below k j h, t, mul-sub (2 ^ j) m a) in
    omega (
      arith,
      (le-div_iff_mul-le {k = 2 ^ j} {x = m - a} {y = x} (one-le-pow j 2 (omega arith))).1 part,
    )

smear-low : (k j x : ℕ) → x < 2 ^ k → smear j x < 2 ^ k
smear-low k j x h = bit_or-lt k x (x / 2 ^ j) h (omega (arith, div-le_self x (2 ^ j)))

smear-high : (k j x : ℕ) → j ≤ k → Top k j x → 2 ^ k ≤ smear j x + 2 ^ (k - 2 * j)
smear-high k j x h t =
    let m : ℕ = 2 ^ (k - j) in
    let q : ℕ = 2 ^ j - 1 in
    let s : ℕ = x / 2 ^ j in
    let whole : 2 ^ k ≡ m * 2 ^ j =
      count_eq (λ n. 2 ^ n) k (k - j + j) (omega arith) ∙ power_sum (k - j) j in
    let front : q * m + m ≡ m * 2 ^ j = omega (
      arith,
      whole,
      mul-sub m (2 ^ j) 1,
      pow-le-pow_right {n = 2} (omega arith) {i = k - j} {j = k} (omega arith),
    ) in
    let small : s < m =
      (div-lt_iff_lt-mul {k = 2 ^ j} {x = x} {y = m} (one-le-pow j 2 (omega arith))).1
        (omega (arith, whole, t)) in
    let filled = bit_or-high (k - j) q (x - q * m) s (omega (arith, front, whole, t)) small in
    omega (
      arith,
      filled,
      front,
      whole,
      shifted_high k j x h t,
      count_eq (λ y. bit_or y s) (q * m + (x - q * m)) x (omega (arith, front, whole, t)),
    )

smear-Top : (k j x : ℕ) → Top k j x → Top k (2 * j) (smear j x)
smear-Top k j x t = record {
  high = elim (dec_le j k) [
    | yes h ↦ smear-high k j x h t
    | no over ↦ omega (
      arith,
      t,
      bit_or-le x (x / 2 ^ j),
      count_eq (λ n. 2 ^ n) (k - j) 0 (omega arith),
      one-le-pow (k - 2 * j) 2,
    )
  ];
  low = smear-low k j x t.low;
}

below-Top : (k x : ℕ) → x ≤ 2 ^ k → 2 ^ k < 2 * x → 2 ^ k ≤ 2 ^ 31 → Top k 1 (sub_u32 x 1)
below-Top zero x h l bound = record { high = omega arith; low = omega arith }
below-Top (suc k) x h l bound = record {
  high = omega (arith, pow-suc 2 k, count_eq (λ n. 2 ^ n) (suc k - 1) k (omega arith));
  low = omega arith;
}

-- For an argument above the half of a power of two up to 2^31, and at most that power,
-- next_power_of_two returns that power.
pub next_power_of_two_lem :
    (k x : ℕ) → x ≤ 2 ^ k → 2 ^ k < 2 * x → k ≤ 31 → next_power_of_two x ≡ 2 ^ k
unfolding next_power_of_two
next_power_of_two_lem k x h l small =
    let x0 : ℕ = sub_u32 x 1 in
    let bound : 2 ^ k ≤ 2 ^ 31 = pow-le-pow_right {n = 2} (omega arith) {i = k} {j = 31} small in
    let t1 : Top k 2 (smear 1 x0) = smear-Top k 1 x0 (below-Top k x h l bound) in
    let t2 : Top k 4 (smear 2 (smear 1 x0)) = smear-Top k 2 _ t1 in
    let t3 = smear-Top k 4 _ t2 in
    let t4 = smear-Top k 8 _ t3 in
    let t5 = smear-Top k 16 _ t4 in
    omega (arith, t5, bound, count_eq (λ n. 2 ^ n) (k - 2 * 16) 0 (omega arith))
