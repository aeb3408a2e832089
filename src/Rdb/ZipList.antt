-- ===== src/Rdb/ZipList.antt =====
-- src/base/rdb_parser/ziplist.c: lists in one block of memory. A pointer is the memory from it on.
pub mod Entry
pub mod RoundTrip
use kj_cpp_redis.Prelude.Int.{ℤ, pos, negsuc, to_signed}
use kj_cpp_redis.Rdb.Endian.{le_word}
use kj_cpp_redis.Prelude.{
  ℕ, zero, suc, ◌+◌, ◌-◌, ◌*◌, ◌/◌, ◌%◌, ◌^◌, Bool, ◌&&◌, Option, none, some, List, [], ◌∷◌, ltb,
  leb, ◌==◌, if◌then◌else◌, take, drop, get_or, window, length, add_u32, ◌>>=◌,
}

-- `ZIP_END`, `ZIP_BIG_PREVLEN` and `ZIPLIST_HEADER_SIZE`
abbrev pub zip_end : ℕ
zip_end = 255

abbrev pub zip_big_prevlen : ℕ
zip_big_prevlen = 254

abbrev pub ziplist_header_size : ℕ
ziplist_header_size = 10

-- `ZIP_INT_8B`, `ZIP_INT_16B`, `ZIP_INT_24B`, `ZIP_INT_32B` and `ZIP_INT_64B`
abbrev pub zip_int_8b : ℕ
zip_int_8b = 0xfe

abbrev pub zip_int_16b : ℕ
zip_int_16b = 0xc0

abbrev pub zip_int_24b : ℕ
zip_int_24b = 0xf0

abbrev pub zip_int_32b : ℕ
zip_int_32b = 0xd0

abbrev pub zip_int_64b : ℕ
zip_int_64b = 0xe0

-- `ZIP_STR_MASK`, which is the encoding of no string, and `ZIP_IS_STR`: `enc & 0xc0` is
-- `enc / 64 * 64` for a byte.
abbrev pub zip_str_mask : ℕ
zip_str_mask = 0xc0

abbrev pub zip_is_str : ℕ → Bool
zip_is_str enc = ltb (enc / 64 * 64) zip_str_mask

-- `ZIP_ENTRY_ENCODING`
unfoldable pub zip_entry_encoding : List ℕ → ℕ
zip_entry_encoding ptr =
    if ltb (get_or ptr 0 0) zip_str_mask then get_or ptr 0 0 / 64 * 64 else get_or ptr 0 0

-- `zipIntSize`; an encoding of no integer is reported on stderr and has the size 0.
unfoldable pub zip_int_size : ℕ → ℕ
zip_int_size encoding =
    if encoding == zip_int_8b
    then 1
    else if encoding == zip_int_16b
    then 2
    else if encoding == zip_int_24b
    then 3
    else if encoding == zip_int_32b
    then 4
    else if encoding == zip_int_64b
    then 8
    else 0

-- What `ZIP_DECODE_LENGTH` sets.
pub record LengthField : Type 0 where
  pub encoding : ℕ
  pub lensize : ℕ
  pub len : ℕ

-- `ZIP_DECODE_LENGTH`. The encoding of a string is one of the three, so the report of another is
-- never reached.
unfoldable pub zip_decode_length : List ℕ → LengthField
zip_decode_length ptr =
    let encoding = zip_entry_encoding ptr in
    let byte = λ (i : ℕ). get_or ptr i 0 in
    if ltb encoding zip_str_mask
    then (if encoding == 0
        then record { encoding = encoding; lensize = 1; len = byte 0 % 64 }
        else if encoding == 64
        then record { encoding = encoding; lensize = 2; len = byte 0 % 64 * 2 ^ 8 + byte 1 }
        else record {
          encoding = encoding;
          lensize = 5;
          len = byte 1 * 2 ^ 24 + byte 2 * 2 ^ 16 + byte 3 * 2 ^ 8 + byte 4;
        })
    else record { encoding = encoding; lensize = 1; len = zip_int_size encoding }

-- `ZIP_DECODE_PREVLENSIZE` and `ZIP_DECODE_PREVLEN`
unfoldable pub zip_decode_prevlensize : List ℕ → ℕ
zip_decode_prevlensize ptr = if ltb (get_or ptr 0 0) zip_big_prevlen then 1 else 5

unfoldable pub zip_decode_prevlen : List ℕ → ℕ
zip_decode_prevlen ptr =
    if zip_decode_prevlensize ptr == 1 then get_or ptr 0 0 else le_word (window ptr 1 4)

-- `zipRawEntryLength`
unfoldable pub zip_raw_entry_length : List ℕ → ℕ
zip_raw_entry_length p =
    let prevlensize = zip_decode_prevlensize p in
    let field = zip_decode_length (drop prevlensize p) in
    add_u32 (add_u32 prevlensize field.lensize) field.len

-- `zlentry`
pub record ZlEntry : Type 0 where
  pub prevrawlensize : ℕ
  pub prevrawlen : ℕ
  pub lensize : ℕ
  pub len : ℕ
  pub headersize : ℕ
  pub encoding : ℕ
  pub p : List ℕ

-- `zipEntry`
unfoldable pub zip_entry : List ℕ → ZlEntry
zip_entry p =
    let prevlensize = zip_decode_prevlensize p in
    let field = zip_decode_length (drop prevlensize p) in
    record {
      prevrawlensize = prevlensize;
      prevrawlen = zip_decode_prevlen p;
      lensize = field.lensize;
      len = field.len;
      headersize = add_u32 prevlensize field.lensize;
      encoding = field.encoding;
      p = p;
    }

-- `x >> 8` of a signed integer
abbrev pub shift_right_8 : ℤ → ℤ
shift_right_8 (pos n) = pos (n / 2 ^ 8)
shift_right_8 (negsuc n) = negsuc (n / 2 ^ 8)

-- `zipLoadInteger`; `none` is the assertion that fails. An integer of 24 bits is the upper three bytes
-- of `i32`.
unfoldable pub zip_load_integer : List ℕ → ℕ → Option ℤ
zip_load_integer p encoding =
    if encoding == zip_int_8b
    then some (to_signed 8 (get_or p 0 0))
    else if encoding == zip_int_16b
    then some (to_signed 16 (le_word (take 2 p)))
    else if encoding == zip_int_32b
    then some (to_signed 32 (le_word (take 4 p)))
    else if encoding == zip_int_24b
    then some (shift_right_8 (to_signed 32 (le_word (0 ∷ take 3 p))))
    else if encoding == zip_int_64b
    then some (to_signed 64 (le_word (take 8 p)))
    else if leb 0xf1 encoding && leb encoding 0xfd
    then some (pos (encoding % 16 - 1))
    else none

-- `ziplistNext`; `none` is NULL.
unfoldable pub ziplist_next : List ℕ → Option (List ℕ)
ziplist_next p =
    let next = drop (zip_raw_entry_length p) p in
    if get_or p 0 0 == zip_end then none else if get_or next 0 0 == zip_end then none else some next

-- `o_snprintf(s, 30, "%lld", v)` is of another library: `print_int`.
module _ (print_int : ℤ → List ℕ) where
  -- `ziplistGet`: the length of the entry and its text; `none` is a failed assertion.
  unfoldable pub ziplist_get : List ℕ → Option (ℕ × List ℕ)
  ziplist_get p =
      let entry = zip_entry p in
      let n = add_u32 entry.headersize entry.len in
      if zip_is_str entry.encoding
      then some (n, window p entry.headersize entry.len)
      else elim (zip_load_integer (drop entry.headersize p) entry.encoding) [
        | none ↦ none
        | some v64 ↦ some (n, print_int v64)
      ]

  -- The loop of `load_ziplist_list_or_set`: the values in the order of the chain. The first argument
  -- is fuel; `none` is fuel that ran out, a failed assertion, or a list without an end.
  unfoldable pub list_loop : ℕ → List ℕ → Option (List (List ℕ))
  list_loop zero p = none
  list_loop (suc fuel) [] = none
  list_loop (suc fuel) (b ∷ p') = if b == zip_end then some [] else do
    (n, s) ← ziplist_get (b ∷ p')
    rest ← list_loop fuel (drop n (b ∷ p'))
    some (s ∷ rest)

  -- An entry takes two bytes at least, so the size of the memory is fuel enough.
  unfoldable pub load_ziplist_list_or_set : List ℕ → Option (List (List ℕ))
  load_ziplist_list_or_set zl = list_loop (length zl) (drop ziplist_header_size zl)

  -- The loop of `load_ziplist_hash_or_zset`: two entries a round, the key and the value.
  unfoldable pub hash_loop : ℕ → List ℕ → Option (List (List ℕ × List ℕ))
  hash_loop zero p = none
  hash_loop (suc fuel) [] = none
  hash_loop (suc fuel) (b ∷ p') = if b == zip_end then some [] else do
    (n, skey) ← ziplist_get (b ∷ p')
    (m, sval) ← ziplist_get (drop n (b ∷ p'))
    rest ← hash_loop fuel (drop m (drop n (b ∷ p')))
    some ((skey, sval) ∷ rest)

  unfoldable pub load_ziplist_hash_or_zset : List ℕ → Option (List (List ℕ × List ℕ))
  load_ziplist_hash_or_zset zl = hash_loop (length zl) (drop ziplist_header_size zl)
