-- ===== src/Rdb/StoreLen.antt =====
-- Lengths and integers as a dump holds them, read back by `rdb_object_read_store_len` and
-- `rdb_object_read_int`.
use kj_cpp_redis.BipBuf.Content.{get_committed_size-length}
use kj_cpp_redis.BipBuf.Inv.{IsValid}
use kj_cpp_redis.BipBuf.{BipBuf, get_contiguous_block}
use kj_cpp_redis.Rdb.Endian.{memrev32, le_word, le_bytes, be_bytes32}
use kj_cpp_redis.Rdb.Helper.{read_store_len, read_int, enc_int16, enc_int32, sign_extend}
use kj_cpp_redis.Prelude.Int.{to_signed}
use kj_cpp_redis.Prelude.{
  ℕ, ◌+◌, ◌/◌, ◌%◌, ◌^◌, ◌<◌, ◌≡◌, ap, false, none, some, List, [], ◌∷◌, ◌++◌, ltb, if◌then◌else◌,
  take, length, length-take, arith,
}

-- How a dump holds a length.
abbrev pub store_len_bytes : ℕ → List ℕ
store_len_bytes n =
    if ltb n 64
    then (n ∷ [])
    else if ltb n (2 ^ 14)
    then ((64 + n / 256) ∷ n % 256 ∷ [])
    else (128 ∷ be_bytes32 n)

le_word_taken :
    (n : ℕ) (rest : List ℕ) → n < 2 ^ 32 → le_word (take 4 (memrev32 (be_bytes32 n ++ rest))) ≡ n
unfolding memrev32
le_word_taken n rest h = omega arith

-- A length below 2^32 in its one, two or five bytes at the front of a valid buffer is read back, is
-- no encoding, and its bytes are counted.
pub read_store_len-bytes :
    {bb : BipBuf} (n : ℕ) (rest : List ℕ)
    → IsValid bb
    → n < 2 ^ 32
    → get_contiguous_block bb ≡ store_len_bytes n ++ rest
    → read_store_len bb
      ≡ some (record { bytes = length (store_len_bytes n); is_encoded = false; out = n })
unfolding read_store_len
read_store_len-bytes {bb} n rest v h e =
    ground (arith, get_committed_size-length v, ap length e, le_word_taken n rest h)

-- On a valid buffer that holds only a proper part of the bytes of a length,
-- rdb_object_read_store_len returns 0.
pub read_store_len_short :
    {bb : BipBuf} (n k : ℕ)
    → IsValid bb
    → n < 2 ^ 32
    → k < length (store_len_bytes n)
    → get_contiguous_block bb ≡ take k (store_len_bytes n)
    → read_store_len bb ≡ none
unfolding read_store_len
read_store_len_short {bb} n k v h short e =
    ground (arith, get_committed_size-length v, ap length e, length-take k (store_len_bytes n))

-- An integer of two bytes at the front of a valid buffer is read with its sign.
pub read_int-int16 :
    {bb : BipBuf} (n : ℕ) (rest : List ℕ)
    → IsValid bb
    → n < 2 ^ 16
    → get_contiguous_block bb ≡ le_bytes 2 n ++ rest
    → (read_int bb enc_int16 ≡ some (2, sign_extend n))
      × (to_signed 32 (sign_extend n) ≡ to_signed 16 n)
unfolding read_int
read_int-int16 {bb} n rest v h e = ground (arith, get_committed_size-length v, ap length e)

pub read_int-int32 :
    {bb : BipBuf} (n : ℕ) (rest : List ℕ)
    → IsValid bb
    → n < 2 ^ 32
    → get_contiguous_block bb ≡ le_bytes 4 n ++ rest
    → read_int bb enc_int32 ≡ some (4, n)
unfolding read_int
read_int-int32 {bb} n rest v h e = ground (arith, get_committed_size-length v, ap length e)
