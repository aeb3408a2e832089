-- ===== src/Rdb/Text/Spec.antt =====
-- A string as a dump holds it, and the text that it stands for.
use kj_cpp_redis.Prelude.Int.{pos, to_signed}
use kj_cpp_redis.Rdb.Endian.{le_bytes}
use kj_cpp_redis.Rdb.StoreLen.{store_len_bytes}
use kj_cpp_redis.Rdb.Types.{Calls}
use kj_cpp_redis.Prelude.{ℕ, ◌-◌, ◌^◌, ◌<◌, ◌≡◌, arith, refl, ap, some, List, ◌∷◌, ◌++◌, length}

-- The bytes themselves, a word of 8, 16 or 32 bits, or compressed bytes with those they stand for.
pub data Text : Type 0 where
  plain : List ℕ → Text
  int8 int16 int32 : ℕ → Text
  packed : List ℕ → List ℕ → Text

abbrev pub text_bytes : Text → List ℕ
text_bytes (plain s) = store_len_bytes (length s) ++ s
text_bytes (int8 n) = 192 ∷ le_bytes 1 n
text_bytes (int16 n) = 193 ∷ le_bytes 2 n
text_bytes (int32 n) = 194 ∷ le_bytes 4 n
text_bytes (packed c raw) =
    195 ∷ (store_len_bytes (length c) ++ (store_len_bytes (length raw) ++ c))

abbrev pub text_of : Calls → Text → List ℕ
text_of calls (plain s) = s
text_of calls (int8 n) = calls.print_int (to_signed 8 n)
text_of calls (int16 n) = calls.print_int (to_signed 16 n)
text_of calls (int32 n) = calls.print_int (to_signed 32 n)
text_of calls (packed c raw) = raw

-- The text that the code makes of it: it reads a word of 8 bits without its sign.
abbrev pub read_of : Calls → Text → List ℕ
read_of calls (int8 n) = calls.print_int (pos n)
read_of calls (plain s) = text_of calls (plain s)
read_of calls (int16 n) = text_of calls (int16 n)
read_of calls (int32 n) = text_of calls (int32 n)
read_of calls (packed c raw) = text_of calls (packed c raw)

-- Lengths of 32 bits, words of their widths, and bytes that `lzf_decompress` gives for the compressed.
abbrev pub FitRead : Calls → Text → Type 0
FitRead calls (plain s) = length s < 2 ^ 32
FitRead calls (int8 n) = n < 2 ^ 8
FitRead calls (int16 n) = n < 2 ^ 16
FitRead calls (int32 n) = n < 2 ^ 32
FitRead calls (packed c raw) =
    (length c < 2 ^ 32) × (length raw < 2 ^ 32) × (calls.lzf_decompress c (length raw) ≡ some raw)

-- A text for which the code has memory (its lengths and 1 do not wrap), and whose word of 8 bits is not
-- negative.
abbrev pub FitText : Calls → Text → Type 0
FitText calls (plain s) = length s < 2 ^ 32 - 1
FitText calls (int8 n) = n < 2 ^ 7
FitText calls (int16 n) = FitRead calls (int16 n)
FitText calls (int32 n) = FitRead calls (int32 n)
FitText calls (packed c raw) =
    (length c < 2 ^ 32 - 1)
    × (length raw < 2 ^ 32 - 1)
    × (calls.lzf_decompress c (length raw) ≡ some raw)

pub FitText-FitRead : (calls : Calls) (t : Text) → FitText calls t → FitRead calls t
FitText-FitRead calls (plain s) h = omega arith
FitText-FitRead calls (int8 n) h = omega arith
FitText-FitRead calls (int16 n) h = h
FitText-FitRead calls (int32 n) h = h
FitText-FitRead calls (packed c raw) h = (omega (arith, h.0), omega (arith, h.1), h.2)

small_pos : (n : ℕ) → n < 2 ^ 7 → pos n ≡ to_signed 8 n
small_pos n h = ground arith

-- Of a text that fits, the code makes the text that it stands for.
pub read_of-text_of :
    (calls : Calls) (t : Text) → FitText calls t → read_of calls t ≡ text_of calls t
read_of-text_of calls (plain s) h = refl
read_of-text_of calls (int8 n) h = ap calls.print_int (small_pos n h)
read_of-text_of calls (int16 n) h = refl
read_of-text_of calls (int32 n) h = refl
read_of-text_of calls (packed c raw) h = refl
