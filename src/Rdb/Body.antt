-- ===== src/Rdb/Body.antt =====
-- src/base/rdb_parser/build_header.c, build_body.c and build_footer.c: the parts of a dump.
pub mod Spec
pub mod Rounds
pub mod Taken
pub mod Whole
use kj_cpp_redis.BipBuf.{BipBuf, get_committed_size, get_contiguous_block}
use kj_cpp_redis.Rdb.Builder.{alloc_object_builder, builder, set_state, consume, ob_loop}
use kj_cpp_redis.Rdb.Chain.{Outcome}
use kj_cpp_redis.Rdb.Endian.{memrev32, memrev64, le_word}
use kj_cpp_redis.Rdb.Helper.{StoreLen, read_store_len}
use kj_cpp_redis.Rdb.Object.{
  build_object_detail_kv, build_opcode_aux, walk_object, build_object_type,
}
use kj_cpp_redis.Rdb.Types.{
  Code, over, again, abort, premature, invalid_magic_string, invalid_nb_type, invalid_nb_state,
  RdbObject, RdbParser, Calls,
}
use kj_cpp_redis.Prelude.{
  ℕ, zero, suc, ◌+◌, ◌-◌, ◌*◌, ◌/◌, ◌%◌, ◌^◌, Bool, true, false, ◌&&◌, ◌||◌, Option, none, some,
  List, [], ◌∷◌, ltb, leb, ◌==◌, if◌then◌else◌, take, window, get_or,
}

-- `atoi` of a string that ends where the list does: white space, a sign, digits. An `int` is a 32-bit
-- word.
unfoldable pub digits_value : List ℕ → ℕ → ℕ
digits_value [] acc = acc
digits_value (c ∷ cs) acc =
    let rest = digits_value cs (acc * 10 + (c - 48)) in if leb 48 c && leb c 57 then rest else acc

unfoldable pub atoi : List ℕ → ℕ
atoi [] = 0
atoi (c ∷ cs) =
    let behind = atoi cs in
    if c == 32 || leb 9 c && leb c 13
    then behind
    else if c == b'-'
    then (2 ^ 32 - digits_value cs 0) % 2 ^ 32
    else if c == b'+'
    then digits_value cs 0
    else digits_value (c ∷ cs) 0

-- `MAGIC_STR`, "REDIS"
abbrev pub magic_str : List ℕ
magic_str = b'R' ∷ b'E' ∷ b'D' ∷ b'I' ∷ b'S' ∷ []

abbrev pub equal : List ℕ → List ℕ → Bool
equal [] [] = true
equal [] (y ∷ ys) = false
equal (x ∷ xs) [] = false
equal (x ∷ xs) (y ∷ ys) = x == y && equal xs ys

-- `build_header`
unfoldable pub build_header : RdbParser → Code × RdbParser
build_header rp =
    let ptr = get_contiguous_block rp.bb in
    if ltb (get_committed_size rp.bb) 9
    then (premature, rp)
    else if equal (take 5 ptr) magic_str
    then (over, consume (record rp { version = atoi (window ptr 5 4) }) 9)
    else (invalid_magic_string, rp)

-- `build_footer` without CHECK_CRC
unfoldable pub build_footer : RdbParser → Code × RdbParser
build_footer rp = (over, rp)

-- `__read_db_selector`
unfoldable pub read_db_selector : BipBuf → Option (ℕ × ℕ)
read_db_selector bb = elim (read_store_len bb) [ none ↦ none | some l ↦ some (l.bytes, l.out) ]

-- `__read_expire_time`; `*out` is a 32-bit word. The bytes are reversed, as by `memrev64` and `memrev32`
-- and not by the `ifbe` macros.
unfoldable pub read_expire_time : BipBuf → Bool → Option (ℕ × ℕ)
read_expire_time bb is_ms =
    let size = get_committed_size bb in
    let ptr = get_contiguous_block bb in
    if is_ms
    then (if ltb size 8 then none else some (8, le_word (memrev64 (take 8 ptr)) / 1000 % 2 ^ 32))
    else if ltb size 4
    then none
    else some (4, le_word (memrev32 (take 4 ptr)))

-- The calls of `o_cb` in `__build_object_detail_kv_val`: the next object, or OB_ABORT.
unfoldable pub next_object : Calls → RdbParser → ℕ → Outcome
next_object calls rp i =
    let (goes_on, rp1) = walk_object calls rp in
    if goes_on then (again, set_state rp1 i 1, tt) else (abort, rp1, tt)

-- The opcodes RDB_OPCODE_AUX, RDB_OPCODE_EXPIRETIME_MS, RDB_OPCODE_EXPIRETIME, RDB_OPCODE_SELECTDB and
-- RDB_OPCODE_EOF
abbrev pub opcode_aux : ℕ
opcode_aux = 250

abbrev pub opcode_expiretime_ms : ℕ
opcode_expiretime_ms = 252

abbrev pub opcode_expiretime : ℕ
opcode_expiretime = 253

abbrev pub opcode_selectdb : ℕ
opcode_selectdb = 254

abbrev pub opcode_eof : ℕ
opcode_eof = 255

-- A builder that is over hands the object on.
unfoldable pub when_over : Calls → ℕ → Outcome → Outcome
when_over calls i out = elim out.0 [ over ↦ next_object calls out.1 i | other ↦ (other, out.1, tt) ]

-- The `switch (o->type)` of `__build_object_detail_kv_val` in build_body.c
unfoldable pub object_detail_of_type : Calls → RdbParser → ℕ → ℕ → Outcome
object_detail_of_type calls rp i t =
    if t == opcode_aux
    then when_over calls i (build_opcode_aux calls rp i)
    else if t == opcode_selectdb
    then elim (read_db_selector rp.bb) [
      | none ↦ (premature, rp, tt)
      | some (n, selector) ↦
          next_object calls (consume (record rp { o = record rp.o { db_selector = selector } }) n) i
    ]
    else if t == opcode_expiretime || t == opcode_expiretime_ms
    then elim (read_expire_time rp.bb (t == opcode_expiretime_ms)) [
      | none ↦ (premature, rp, tt)
      | some (n, expire) ↦
          next_object calls (consume (record rp { o = record rp.o { expire = expire } }) n) i
    ]
    else if leb t 4 || leb 9 t && leb t 13
    then when_over calls i (build_object_detail_kv calls rp i)
    else if t == opcode_eof
    then (over, rp, tt)
    else (invalid_nb_type, rp, tt)

-- `__build_object_detail_kv_val` of build_body.c
unfoldable pub build_object_detail : Calls → RdbParser → ℕ → Outcome
build_object_detail calls rp i = object_detail_of_type calls rp i rp.o.type

unfoldable pub body_step : Calls → ℕ → RdbParser → Unit {0} → Outcome
body_step calls i rp u =
    let state = (builder rp i).state in
    if leb state 1
    then build_object_type rp i
    else if state == 2
    then build_object_detail calls rp i
    else (invalid_nb_state, rp, tt)

-- `build_body`, whose builder has the depth 0. A round takes a byte at least, while the loop is not over.
unfoldable pub build_body : Calls → RdbParser → Outcome
build_body calls rp =
    ob_loop (suc (suc (get_committed_size rp.bb))) (body_step calls 0) (alloc_object_builder rp 0)
      tt
