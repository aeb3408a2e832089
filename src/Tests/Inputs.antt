-- ===== src/Tests/Inputs.antt =====
-- Strings and buffers that the tests share.
use Prim.Native.Char.{code}
use Prim.Native.String.{String}
use kj_cpp_redis.BipBuf.{BipBuf}
use kj_cpp_redis.Prelude.{ℕ, zero, suc, ◌%◌, ◌^◌, List, [], ◌∷◌, ◌++◌, ◌≡◌, refl, ap, length}

abbrev pub codes : String → List ℕ
codes String.[] = []
codes (String.◌∷◌ c s) = code c ∷ codes s

abbrev pub zeros : ℕ → List ℕ
zeros zero = []
zeros (suc n) = 0 ∷ zeros n

pub zeros-length : (n : ℕ) → length (zeros n) ≡ n
zeros-length zero = refl
zeros-length (suc n) = ap suc (zeros-length n)

-- A buffer with the string committed.
abbrev pub input : List ℕ → BipBuf
input s = record {
  buffer = s ++ s;
  available_capacity = length s;
  committed_sum = length s % 2 ^ 32;
  a_start = 0;
  a_end = length s;
  r_start = 0;
  r_end = 0;
}
