-- ===== src/Rdb/Chain.antt =====
-- src/base/rdb_parser/build_list_or_set_value.c and build_hash_or_zset_value.c: the builders of values
-- that are sequences of strings. `vall` and `size` are always those of the object `o`.
pub mod Links
pub mod Lists
pub mod Hashes
pub mod Pairs
pub mod Empty
use kj_cpp_redis.BipBuf.{get_committed_size}
use kj_cpp_redis.Rdb.Builder.{
  alloc_object_builder, builder, update, set_state, consume, with_store_len, ob_loop,
}
use kj_cpp_redis.Rdb.Helper.{StoreLen}
use kj_cpp_redis.Rdb.Text.{build_string_value}
use kj_cpp_redis.Rdb.Types.{
  Code, over, again, invalid_nb_state, Kv, RdbObject, ObjectBuilder, RdbParser, Calls,
}
use kj_cpp_redis.Prelude.{
  ℕ, suc, ◌+◌, Bool, Option, some, List, [], ◌∷◌, ◌++◌, ltb, leb, ◌==◌, if◌then◌else◌, length,
  add_u32,
}

-- The builders of an object fill nothing but the parser's `o`.
abbrev pub Outcome : Type 0
Outcome = Code × RdbParser × Unit {0}

-- `alloc_rdb_kv_chain_link(rp->o_pool, ll)`, with the strings that are set next: the link comes last,
-- whether `ll` points to the first link, to the last or to NULL.
unfoldable pub alloc_kv_chain_link : List Kv → Kv → List Kv
alloc_kv_chain_link vall kv = vall ++ (kv ∷ [])

-- `o->vall_tail = alloc_rdb_kv_chain_link(rp->o_pool, ll);`
unfoldable pub push_kv : RdbObject → Kv → RdbObject
push_kv o kv = record o { vall = alloc_kv_chain_link o.vall kv; vall_tail = some (length o.vall) }

-- `__build_list_or_set_store_len` and `__build_hash_or_zset_store_len`: both go on with state 2.
unfoldable pub chain_store_len : RdbParser → ℕ → Outcome
chain_store_len rp i = with_store_len rp tt λ l. (
  again,
  update (consume rp l.bytes) i λ ob. record ob { state = 2; store_len = l.out; len = 0 },
  tt,
)

-- What follows a string that is over: the link, the cleared strings of the builder and its count; then
-- the next state `s`, or the end.
unfoldable pub push_link : RdbParser → ℕ → Kv → ℕ → Outcome
push_link rp i kv s =
    let rp1 =
      update (record rp { o = push_kv rp.o kv }) i
        λ ob. record ob { tmp_key = []; tmp_val = []; len = add_u32 ob.len 1 } in
    let ob = builder rp1 i in
    if ltb ob.len ob.store_len
    then (again, set_state rp1 i s, tt)
    else (over, record rp1 { o = record rp1.o { size = ob.len } }, tt)

-- `__build_list_or_set_loop_val`. Its builder has no `tmp_key`.
unfoldable pub list_loop_val : Calls → RdbParser → ℕ → Outcome
list_loop_val calls rp i =
    let ob = builder rp i in
    let (rc, rp1, tmp_val) = build_string_value calls rp i ob.tmp_val in
    if ltb ob.len ob.store_len
    then elim rc [
      | over ↦ push_link rp1 i (record { key = []; val = tmp_val }) 2
      | other ↦ (other, update rp1 i (λ ob1. record ob1 { tmp_val = tmp_val }), tt)
    ]
    else (again, set_state rp i 2, tt)

unfoldable pub list_step : Calls → ℕ → RdbParser → Unit {0} → Outcome
list_step calls i rp u =
    let state = (builder rp i).state in
    if leb state 1
    then chain_store_len rp i
    else if state == 2
    then list_loop_val calls rp i
    else (invalid_nb_state, rp, tt)

-- A round takes a byte at least, while the loop is not over.
abbrev pub chain_fuel : RdbParser → ℕ
chain_fuel rp = suc (suc (get_committed_size rp.bb))

-- `build_list_or_set_value`
unfoldable pub build_list_or_set_value : Calls → RdbParser → ℕ → Outcome
build_list_or_set_value calls rp i =
    let depth = (builder rp i).depth + 1 in
    ob_loop (chain_fuel rp) (list_step calls depth) (alloc_object_builder rp depth) tt

-- `__build_hash_or_zset_loop_key`
unfoldable pub hash_loop_key : Calls → RdbParser → ℕ → Outcome
hash_loop_key calls rp i =
    let ob = builder rp i in
    let (rc, rp1, tmp_key) = build_string_value calls rp i ob.tmp_key in
    let rp2 = update rp1 i λ ob1. record ob1 { tmp_key = tmp_key } in
    if ltb ob.len ob.store_len
    then elim rc [ over ↦ (again, set_state rp2 i 3, tt) | other ↦ (other, rp2, tt) ]
    else (again, set_state rp i 3, tt)

-- `__build_hash_or_zset_loop_val`
unfoldable pub hash_loop_val : Calls → RdbParser → ℕ → Outcome
hash_loop_val calls rp i =
    let ob = builder rp i in
    let (rc, rp1, tmp_val) = build_string_value calls rp i ob.tmp_val in
    if ltb ob.len ob.store_len
    then elim rc [
      | over ↦ push_link rp1 i (record { key = (builder rp1 i).tmp_key; val = tmp_val }) 2
      | other ↦ (other, update rp1 i (λ ob1. record ob1 { tmp_val = tmp_val }), tt)
    ]
    else (again, set_state rp i 3, tt)

unfoldable pub hash_step : Calls → ℕ → RdbParser → Unit {0} → Outcome
hash_step calls i rp u =
    let state = (builder rp i).state in
    if leb state 1
    then chain_store_len rp i
    else if state == 2
    then hash_loop_key calls rp i
    else if state == 3
    then hash_loop_val calls rp i
    else (invalid_nb_state, rp, tt)

-- `build_hash_or_zset_value`
unfoldable pub build_hash_or_zset_value : Calls → RdbParser → ℕ → Outcome
build_hash_or_zset_value calls rp i =
    let depth = (builder rp i).depth + 1 in
    ob_loop (chain_fuel rp) (hash_step calls depth) (alloc_object_builder rp depth) tt
