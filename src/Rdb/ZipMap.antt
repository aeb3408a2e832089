-- ===== src/Rdb/ZipMap.antt =====
-- src/base/rdb_parser/zipmap.c: maps in one block of memory. `zm` is the memory from the pointer on.
pub mod RoundTrip
use kj_cpp_redis.Rdb.Endian.{le_word, le_bytes, length-le_bytes, le_word-le_bytes}
use kj_cpp_redis.Prelude.{
  ℕ, zero, suc, ◌+◌, ◌-◌, ◌*◌, ◌/◌, ◌%◌, ◌^◌, ◌<◌, ◌≤◌, ◌≡◌, ◌⊎◌, ◌∙◌, ap, ap₂, refl, sym, Option,
  none, some, List, [], ◌∷◌, ◌++◌, ltb, leb, ◌==◌, if◌then◌else◌, take, drop, get_or, window,
  length, length-append, take-prefix, drop-prefix, drop-drop, append_assoc, window_eq, count_eq,
  add_u32, arith,
}

-- `ZM_END` and `ZM_BIGLEN`
abbrev pub zm_end : ℕ
zm_end = 0xff

abbrev pub zm_biglen : ℕ
zm_biglen = 0xfd

-- `__zipmap_entry_len_size`
unfoldable pub entry_len_size : List ℕ → ℕ
entry_len_size entry =
    if ltb (get_or entry 0 0) zm_biglen then 1 else if get_or entry 0 0 == zm_biglen then 5 else 0

-- `__zipmap_entry_strlen`
unfoldable pub entry_strlen : List ℕ → ℕ
entry_strlen entry =
    if entry_len_size entry == 1
    then get_or entry 0 0
    else if entry_len_size entry == 5
    then le_word (take 4 (drop 1 entry))
    else 0

-- `__zipmap_entry_len`
unfoldable pub entry_len : List ℕ → ℕ
entry_len entry = add_u32 (entry_len_size entry) (entry_strlen entry)

-- `load_zipmap` behind `++zm`: the pairs of key and value, in the order of the chain. The first
-- argument is fuel; `none` is fuel that ran out, or a map without an end.
unfoldable pub load_loop : ℕ → List ℕ → Option (List (List ℕ × List ℕ))
load_loop zero zm = none
load_loop (suc fuel) [] = none
load_loop (suc fuel) (e ∷ zm') =
    let zm = e ∷ zm' in
    let key = window zm (entry_len_size zm) (entry_strlen zm) in
    let zm1 = drop (entry_len zm) zm in
    let val = window zm1 (entry_len_size zm1 + 1) (entry_strlen zm1) in
    let zm2 = drop (entry_len zm1 + 1) zm1 in
    let rest = load_loop fuel zm2 in
    if e == zm_end then some [] else elim rest [ none ↦ none | some kvs ↦ some ((key, val) ∷ kvs) ]

-- An entry takes a byte at least, so the size of the memory is fuel enough.
unfoldable pub load_zipmap : List ℕ → Option (List (List ℕ × List ℕ))
load_zipmap zm = load_loop (length zm) (drop 1 zm)
