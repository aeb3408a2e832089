-- ===== src/Rdb/Object.antt =====
-- src/base/rdb_parser/build_object_detail_kv.c, build_object_detail_kv_val.c, build_opcode_aux.c and
-- build_dumped_data.c: the builders of an object.
pub mod Spec
pub mod Built
pub mod Aux
use kj_cpp_redis.Rdb.Block.{
  build_intset_value, build_zipmap_value, build_zl_list_value, build_zl_hash_value,
}
use kj_cpp_redis.Rdb.Builder.{
  alloc_object_builder, pop_object_builder, builder, set_state, consume, ob_loop,
}
use kj_cpp_redis.Rdb.Chain.{Outcome, build_list_or_set_value, build_hash_or_zset_value}
use kj_cpp_redis.Rdb.Helper.{read_type}
use kj_cpp_redis.Rdb.Text.{build_string_value}
use kj_cpp_redis.Rdb.Types.{
  Code, over, again, abort, premature, invalid_nb_type, invalid_nb_state, RdbObject, empty_object,
  RdbParser, Calls,
}
use kj_cpp_redis.Prelude.{
  ℕ, ◌+◌, Bool, true, false, ◌||◌, Option, none, some, List, [], ◌∷◌, ◌++◌, leb, ◌==◌,
  if◌then◌else◌,
}

-- A string of the object that `build_string_value` fills: how `o` is set.
unfoldable pub build_string_of_o :
    Calls → RdbParser → ℕ → List ℕ → (RdbObject → List ℕ → RdbObject) → Code × RdbParser
build_string_of_o calls rp i val put =
    let (rc, rp1, val1) = build_string_value calls rp i val in
    (rc, record rp1 { o = put rp1.o val1 })

-- `build_object_detail_kv_val`, by the type: RDB_TYPE_STRING, RDB_TYPE_LIST, RDB_TYPE_SET, RDB_TYPE_ZSET,
-- RDB_TYPE_HASH, RDB_TYPE_HASH_ZIPMAP, RDB_TYPE_LIST_ZIPLIST, RDB_TYPE_SET_INTSET,
-- RDB_TYPE_ZSET_ZIPLIST and RDB_TYPE_HASH_ZIPLIST.
unfoldable pub build_object_detail_kv_val : Calls → RdbParser → ℕ → Outcome
build_object_detail_kv_val calls rp i =
    let t = rp.o.type in
    if t == 0
    then (let (rc, rp1) = build_string_of_o calls rp i rp.o.val (λ o v. record o { val = v }) in
        (rc, rp1, tt))
    else if t == 1 || t == 2
    then build_list_or_set_value calls rp i
    else if t == 3 || t == 4
    then build_hash_or_zset_value calls rp i
    else if t == 9
    then build_zipmap_value calls rp i
    else if t == 10
    then build_zl_list_value calls rp i
    else if t == 11
    then build_intset_value calls rp i
    else if t == 12 || t == 13
    then build_zl_hash_value calls rp i
    else (invalid_nb_type, rp, tt)

-- `__build_object_detail_kv_key`
unfoldable pub object_detail_kv_key : Calls → RdbParser → ℕ → Outcome
object_detail_kv_key calls rp i =
    let (rc, rp1) = build_string_of_o calls rp i rp.o.key (λ o v. record o { key = v }) in
    elim rc [ over ↦ (again, set_state rp1 i 2, tt) | other ↦ (other, rp1, tt) ]

unfoldable pub kv_step : Calls → ℕ → RdbParser → Unit {0} → Outcome
kv_step calls i rp u =
    let state = (builder rp i).state in
    if leb state 1
    then object_detail_kv_key calls rp i
    else if state == 2
    then build_object_detail_kv_val calls rp i
    else (invalid_nb_state, rp, tt)

-- `build_object_detail_kv`: a round for the key, and one for the value.
unfoldable pub build_object_detail_kv : Calls → RdbParser → ℕ → Outcome
build_object_detail_kv calls rp i =
    let depth = (builder rp i).depth + 1 in
    ob_loop 2 (kv_step calls depth) (alloc_object_builder rp depth) tt

-- `build_opcode_aux`. No string builder returns OB_AGAIN, so the loop has one round, which may end in the
-- `return OB_AGAIN` behind the assignment to the parent's state.
unfoldable pub build_opcode_aux : Calls → RdbParser → ℕ → Outcome
build_opcode_aux calls rp i =
    let depth = (builder rp i).depth + 1 in
    let rp0 = alloc_object_builder rp depth in
    let state = (builder rp0 depth).state in
    if leb state 1
    then (let (rc, rp1) =
          build_string_of_o calls rp0 depth rp.o.aux_key (λ o v. record o { aux_key = v }) in
        elim rc [ over ↦ (again, set_state rp1 i 2, tt) | other ↦ (other, rp1, tt) ])
    else if state == 2
    then (let (rc, rp1) =
          build_string_of_o calls rp0 depth rp.o.aux_val (λ o v. record o { aux_val = v }) in
        elim rc [ over ↦ (over, pop_object_builder rp1, tt) | other ↦ (other, rp1, tt) ])
    else (invalid_nb_state, rp0, tt)

-- `if (0 == rp->o_cb(rp->o, rp->o_payload)) rdb_object_clear(rp);`, and whether the walk goes on.
unfoldable pub walk_object : Calls → RdbParser → Bool × RdbParser
walk_object calls rp =
    let rp1 = record rp { walked = rp.walked ++ (rp.o ∷ []) } in
    if calls.o_cb rp.walked rp.o == 0 then (true, record rp1 { o = empty_object }) else (false, rp1)

-- `__build_object_type` and `__build_dumped_data_object_type`
unfoldable pub build_object_type : RdbParser → ℕ → Outcome
build_object_type rp i = elim (read_type rp.bb) [
  | none ↦ (premature, rp, tt)
  | some (n, type) ↦
      (again, set_state (consume (record rp { o = record rp.o { type = type } }) n) i 2, tt)
]

unfoldable pub dumped_data_step : Calls → ℕ → RdbParser → Unit {0} → Outcome
dumped_data_step calls i rp u =
    let state = (builder rp i).state in
    if leb state 1
    then build_object_type rp i
    else if state == 2
    then (let (rc, rp1, u1) = build_object_detail_kv_val calls rp i in
        elim rc [
          | over ↦
              let (goes_on, rp2) = walk_object calls rp1 in
              if goes_on then (over, rp2, tt) else (abort, rp2, tt)
          | other ↦ (other, rp1, tt)
        ])
    else (invalid_nb_state, rp, tt)

-- `build_dumped_data`, whose builder has the depth 0: a round for the type, and one for the value.
unfoldable pub build_dumped_data : Calls → RdbParser → Outcome
build_dumped_data calls rp = ob_loop 2 (dumped_data_step calls 0) (alloc_object_builder rp 0) tt
