-- ===== src/Rdb/Helper.antt =====
-- src/base/rdb_parser/build_helper.c: lengths, integers and types at the front of the input. What a
-- function returns is the count of bytes that it has read and `*out`; a return of 0 is `none`.
use kj_cpp_redis.BipBuf.{BipBuf, get_committed_size, get_contiguous_block, decommit}
use kj_cpp_redis.Rdb.Endian.{memrev32, le_word}
use kj_cpp_redis.Prelude.{
  ℕ, ◌+◌, ◌-◌, ◌*◌, ◌/◌, ◌%◌, ◌^◌, Bool, true, false, Option, none, some, ltb, ◌==◌, if◌then◌else◌,
  take, drop, get_or,
}

-- `rdb_object_calc_crc` without CHECK_CRC, on the buffer and `rp->parsed`.
unfoldable pub calc_crc : BipBuf → ℕ → ℕ → BipBuf × ℕ
calc_crc bb parsed bytes = ((decommit bb bytes).0, (parsed + bytes) % 2 ^ 64)

-- What `rdb_object_read_store_len` returns, with `*is_encoded`.
pub record StoreLen : Type 0 where
  pub bytes : ℕ
  pub is_encoded : Bool
  pub out : ℕ

-- `rdb_object_read_store_len`. `p & 0xc0` are the two high bits of a byte, `p & 0x3f` the six low ones.
unfoldable pub read_store_len : BipBuf → Option StoreLen
read_store_len bb =
    let size = get_committed_size bb in
    let p = get_contiguous_block bb in
    let low = get_or p 0 0 % 64 in
    let type = get_or p 0 0 / 64 in
    if ltb size 1
    then none
    else if type == 0
    then some (record { bytes = 1; is_encoded = false; out = low })
    else if type == 1
    then (if ltb size 2
        then none
        else some (record { bytes = 2; is_encoded = false; out = low * 2 ^ 8 + get_or p 1 0 }))
    else if type == 2
    then (if ltb size 5
        then none
        else some (record {
          bytes = 5;
          is_encoded = false;
          out = le_word (take 4 (memrev32 (drop 1 p)));
        }))
    else some (record { bytes = 1; is_encoded = true; out = low })

-- `RDB_ENC_INT8`, `RDB_ENC_INT16` and `RDB_ENC_INT32`
abbrev pub enc_int8 : ℕ
enc_int8 = 0

abbrev pub enc_int16 : ℕ
enc_int16 = 1

abbrev pub enc_int32 : ℕ
enc_int32 = 2

-- A word of 16 bits as `int32_t`, which is its 32-bit word.
abbrev pub sign_extend : ℕ → ℕ
sign_extend n = if ltb n (2 ^ 15) then n else n + 2 ^ 32 - 2 ^ 16

-- `rdb_object_read_int`; `*out` is a 32-bit word.
unfoldable pub read_int : BipBuf → ℕ → Option (ℕ × ℕ)
read_int bb enc =
    let size = get_committed_size bb in
    let p = get_contiguous_block bb in
    if ltb size 1
    then none
    else if enc == enc_int8
    then some (1, get_or p 0 0)
    else if enc == enc_int16
    then (if ltb size 2 then none else some (2, sign_extend (le_word (take 2 p))))
    else if ltb size 4
    then none
    else some (4, le_word (take 4 p))

-- `rdb_object_read_type`
unfoldable pub read_type : BipBuf → Option (ℕ × ℕ)
read_type bb =
    if ltb (get_committed_size bb) 1 then none else some (1, get_or (get_contiguous_block bb) 0 0)
