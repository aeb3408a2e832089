-- ===== src/Rdb/Text.antt =====
-- src/base/rdb_parser/build_string_value.c and build_lzf_string_value.c: the builders of strings. `val` is
-- the string behind the pointer, and comes back as it is left.
pub mod Spec
pub mod Rounds
pub mod Pieces
pub mod Packed
pub mod RoundTrip
use kj_cpp_redis.BipBuf.{get_committed_size, get_contiguous_block}
use kj_cpp_redis.Prelude.Int.{to_signed}
use kj_cpp_redis.Rdb.Builder.{
  alloc_object_builder, builder, update, consume, with_store_len, ob_loop,
}
use kj_cpp_redis.Rdb.Helper.{StoreLen, read_store_len, read_int}
use kj_cpp_redis.Rdb.Types.{
  Code, over, again, premature, invalid_string_enc, invalid_nb_state, lzf_failed, ObjectBuilder,
  RdbParser, Calls,
}
use kj_cpp_redis.Prelude.{
  ℕ, suc, ◌+◌, ◌-◌, Bool, Option, none, some, List, [], ◌∷◌, ◌++◌, ltb, leb, ◌==◌, if◌then◌else◌,
  length, take, sub_size,
}

abbrev pub Outcome : Type 0
Outcome = Code × RdbParser × List ℕ

-- `RDB_ENC_LZF`
abbrev pub enc_lzf : ℕ
enc_lzf = 3

-- `__build_lzf_string_compress_len`
unfoldable pub lzf_compress_len : RdbParser → ℕ → List ℕ → Outcome
unfolding with_store_len
lzf_compress_len rp i val = with_store_len rp val λ l. (
  again,
  update (consume rp l.bytes) i λ ob. record ob { state = 2; c_len = l.out; len = 0 },
  val,
)

-- `__build_lzf_string_raw_len`
unfoldable pub lzf_raw_len : RdbParser → ℕ → List ℕ → Outcome
unfolding with_store_len
lzf_raw_len rp i val =
    with_store_len rp val
      λ l. (again, update (consume rp l.bytes) i λ ob. record ob { state = 3; len = l.out }, val)

-- How many bytes are taken of those that are wanted.
abbrev pub consume_size : ℕ → ℕ → ℕ
consume_size buf_size want_size = if ltb want_size buf_size then want_size else buf_size

-- `__build_lzf_string_lzf`
unfoldable pub lzf_lzf : Calls → RdbParser → ℕ → List ℕ → Outcome
lzf_lzf calls rp i val =
    let ob = builder rp i in
    let want_size = sub_size ob.c_len (length ob.tmp_val) in
    let n = consume_size (get_committed_size rp.bb) want_size in
    let tmp_val = ob.tmp_val ++ take n (get_contiguous_block rp.bb) in
    let rp1 = update (consume rp n) i λ ob1. record ob1 { tmp_val = tmp_val } in
    if want_size == n
    then elim (calls.lzf_decompress tmp_val ob.len) [
      | none ↦ (lzf_failed, rp1, val)
      | some raw ↦ (over, rp1, raw)
    ]
    else (premature, rp1, val)

unfoldable pub lzf_step : Calls → ℕ → RdbParser → List ℕ → Outcome
unfolding lzf_compress_len lzf_raw_len lzf_lzf
lzf_step calls i rp val =
    let state = (builder rp i).state in
    if leb state 1
    then lzf_compress_len rp i val
    else if state == 2
    then lzf_raw_len rp i val
    else if state == 3
    then lzf_lzf calls rp i val
    else (invalid_nb_state, rp, val)

-- `build_lzf_string_value`: a round for each length, and one for the bytes.
unfoldable pub build_lzf_string_value : Calls → RdbParser → ℕ → List ℕ → Outcome
unfolding lzf_step ob_loop alloc_object_builder
build_lzf_string_value calls rp i val =
    let depth = (builder rp i).depth + 1 in
    ob_loop 3 (lzf_step calls depth) (alloc_object_builder rp depth) val

-- `__build_string_store_len`. The memory of `store_len + 1` bytes, a sum that wraps at 2^32, is not
-- modelled: a string below 2^32 - 1 bytes has it.
unfoldable pub string_store_len : RdbParser → ℕ → List ℕ → Outcome
unfolding with_store_len
string_store_len rp i val = with_store_len rp val λ l.
    let fill = λ (s : ℕ) (ob : ObjectBuilder). record ob {
      state = s;
      store_len = l.out;
      c_len = 0;
      len = 0;
    } in
    if l.is_encoded
    then (again, update (consume rp l.bytes) i (fill 2), val)
    else (again, update (consume rp l.bytes) i (fill 3), [])

-- `__build_string_enc`. The code passes an `int32_t` to the format `%ld`; `print_int` is what it prints for
-- the number.
unfoldable pub string_enc : Calls → RdbParser → ℕ → List ℕ → Outcome
unfolding build_lzf_string_value
string_enc calls rp i val =
    let enc = (builder rp i).store_len in
    if leb enc 2
    then elim (read_int rp.bb enc) [
      | none ↦ (premature, rp, val)
      | some (n, enc_int) ↦ (over, consume rp n, calls.print_int (to_signed 32 enc_int))
    ]
    else if enc == enc_lzf
    then build_lzf_string_value calls rp i val
    else (invalid_string_enc, rp, val)

-- `__build_string_plain`
unfoldable pub string_plain : RdbParser → ℕ → List ℕ → Outcome
string_plain rp i val =
    let want_size = sub_size (builder rp i).store_len (length val) in
    let n = consume_size (get_committed_size rp.bb) want_size in
    let val1 = val ++ take n (get_contiguous_block rp.bb) in
    if want_size == n then (over, consume rp n, val1) else (premature, consume rp n, val1)

unfoldable pub string_step : Calls → ℕ → RdbParser → List ℕ → Outcome
unfolding string_store_len string_enc string_plain
string_step calls i rp val =
    let state = (builder rp i).state in
    if leb state 1
    then string_store_len rp i val
    else if state == 2
    then string_enc calls rp i val
    else if state == 3
    then string_plain rp i val
    else (invalid_nb_state, rp, val)

-- `build_string_value`: a round for the length, and one for what follows it.
unfoldable pub build_string_value : Calls → RdbParser → ℕ → List ℕ → Outcome
unfolding string_step ob_loop alloc_object_builder
build_string_value calls rp i val =
    let depth = (builder rp i).depth + 1 in
    ob_loop 2 (string_step calls depth) (alloc_object_builder rp depth) val
