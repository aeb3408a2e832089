-- ===== src/Prelude/Int.antt =====
-- Signed integers: `pos n` is n, `negsuc n` is -(n + 1).
use Prim.Native.Nat.{ℕ, ◌-◌, ◌*◌, ◌^◌}
use kj_cpp_redis.Prelude.Tests.{ltb, if◌then◌else◌}

pub data ℤ : Type 0 where
  pos : ℕ → ℤ
  negsuc : ℕ → ℤ

-- The word of `w` bits `n`, read in two's complement.
abbrev pub to_signed : ℕ → ℕ → ℤ
to_signed w n = if ltb (2 * n) (2 ^ w) then pos n else negsuc (2 ^ w - n - 1)
