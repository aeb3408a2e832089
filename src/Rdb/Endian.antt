-- ===== src/Rdb/Endian.antt =====
-- src/base/endian.c: the order of the bytes of a word in memory. The host is little endian, so the
-- `ifbe` macros of endian.h do nothing.
use native.Mathlib.Nat.{pow-suc}
use kj_cpp_redis.Prelude.{
  ℕ, zero, suc, ◌+◌, ◌*◌, ◌/◌, ◌%◌, ◌^◌, ◌<◌, ◌≡◌, refl, ap, List, [], ◌∷◌, arith, length,
}

-- The bytes from the pointer on, with the first two, four or eight reversed.
unfoldable pub memrev16 : List ℕ → List ℕ
memrev16 (a ∷ b ∷ rest) = b ∷ a ∷ rest
memrev16 bytes = bytes

unfoldable pub memrev32 : List ℕ → List ℕ
memrev32 (a ∷ b ∷ c ∷ d ∷ rest) = d ∷ c ∷ b ∷ a ∷ rest
memrev32 bytes = bytes

unfoldable pub memrev64 : List ℕ → List ℕ
memrev64 (a ∷ b ∷ c ∷ d ∷ e ∷ f ∷ g ∷ h ∷ rest) = h ∷ g ∷ f ∷ e ∷ d ∷ c ∷ b ∷ a ∷ rest
memrev64 bytes = bytes

-- The word that the host reads from bytes, the lowest first.
abbrev pub le_word : List ℕ → ℕ
le_word [] = 0
le_word (b ∷ bs) = b + 256 * le_word bs

-- The `w` bytes of a word.
abbrev pub le_bytes : ℕ → ℕ → List ℕ
le_bytes zero n = []
le_bytes (suc w) n = n % 256 ∷ le_bytes w (n / 256)

pub length-le_bytes : (w n : ℕ) → length (le_bytes w n) ≡ w
length-le_bytes zero n = refl
length-le_bytes (suc w) n = ap suc (length-le_bytes w (n / 256))

pub le_word-le_bytes : (w n : ℕ) → n < 256 ^ w → le_word (le_bytes w n) ≡ n
le_word-le_bytes zero n h = omega arith
le_word-le_bytes (suc w) n h =
    omega (arith, le_word-le_bytes w (n / 256) (omega (arith, pow-suc 256 w)))

-- Reversed, the bytes of a word are those of the other order.
abbrev pub be_bytes32 : ℕ → List ℕ
be_bytes32 n = n / 2 ^ 24 % 256 ∷ n / 2 ^ 16 % 256 ∷ n / 2 ^ 8 % 256 ∷ n % 256 ∷ []

pub le_word-memrev32 : (n : ℕ) → n < 2 ^ 32 → le_word (memrev32 (be_bytes32 n)) ≡ n
unfolding memrev32
le_word-memrev32 n h = omega arith
