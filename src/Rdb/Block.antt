-- ===== src/Rdb/Block.antt =====
-- src/base/rdb_parser/build_intset_value.c, build_zipmap_value.c, build_zl_list_value.c and
-- build_zl_hash_value.c: the builders of values that are one block of memory in a string.
pub mod Built
use kj_cpp_redis.Prelude.Int.{ℤ}
use kj_cpp_redis.Rdb.Builder.{builder, update}
use kj_cpp_redis.Rdb.Chain.{Outcome, alloc_kv_chain_link}
use kj_cpp_redis.Rdb.Endian.{le_word}
use kj_cpp_redis.Rdb.IntSet.{IntSet, intset_get}
use kj_cpp_redis.Rdb.Text.{build_string_value}
use kj_cpp_redis.Rdb.Types.{Code, over, stuck, Kv, RdbObject, ObjectBuilder, RdbParser, Calls}
use kj_cpp_redis.Rdb.ZipList.{load_ziplist_list_or_set, load_ziplist_hash_or_zset}
use kj_cpp_redis.Rdb.ZipMap.{load_zipmap}
use kj_cpp_redis.Prelude.{
  ℕ, zero, suc, ◌+◌, Option, none, some, List, [], ◌∷◌, take, drop, window, length,
}

-- `(intset_t*)block`
abbrev pub to_intset : List ℕ → IntSet
to_intset block = record {
  encoding = le_word (take 4 block);
  length = le_word (window block 4 4);
  contents = drop 8 block;
}

-- The links of the loop of `build_intset_value`, `count` of them from `i` on. `i` is below the length, so
-- that `intset_get` gives an element.
unfoldable pub intset_links : Calls → IntSet → ℕ → ℕ → List Kv
intset_links calls is zero i = []
intset_links calls is (suc count) i = elim (intset_get is i) [
  | none ↦ []
  | some v64 ↦ record { key = []; val = calls.print_int v64 } ∷ intset_links calls is count (suc i)
]

unfoldable pub val_links : List (List ℕ) → List Kv
val_links [] = []
val_links (v ∷ vs) = record { key = []; val = v } ∷ val_links vs

unfoldable pub pair_links : List (List ℕ × List ℕ) → List Kv
pair_links [] = []
pair_links ((k, v) ∷ kvs) = record { key = k; val = v } ∷ pair_links kvs

-- The links at the end of the chain, one after the other.
unfoldable pub alloc_links : List Kv → List Kv → List Kv
alloc_links vall [] = vall
alloc_links vall (kv ∷ kvs) = alloc_links (alloc_kv_chain_link vall kv) kvs

-- What the four builders share: the block is a string in `ob->tmp_val`, and `load` gives the links and
-- the size. `none` is a block that the loader does not come to the end of.
unfoldable pub build_block : (List ℕ → Option (List Kv × ℕ)) → Calls → RdbParser → ℕ → Outcome
build_block load calls rp i =
    let (rc, rp1, tmp_val) = build_string_value calls rp i (builder rp i).tmp_val in
    let rp2 = update rp1 i λ ob. record ob { tmp_val = tmp_val } in
    elim rc [
      | over ↦ elim (load tmp_val) [
        | none ↦ (stuck, rp2, tt)
        | some (kvs, size) ↦
            let o = record rp2.o { vall = alloc_links rp2.o.vall kvs; size = size } in
            (over, update (record rp2 { o = o }) i (λ ob. record ob { tmp_val = [] }), tt)
      ]
      | other ↦ (other, rp2, tt)
    ]

unfoldable pub load_intset : Calls → List ℕ → Option (List Kv × ℕ)
load_intset calls block =
    let is = to_intset block in some (intset_links calls is is.length 0, is.length)

unfoldable pub load_pairs : Option (List (List ℕ × List ℕ)) → Option (List Kv × ℕ)
load_pairs none = none
load_pairs (some kvs) = some (pair_links kvs, length kvs)

unfoldable pub load_vals : Option (List (List ℕ)) → Option (List Kv × ℕ)
load_vals none = none
load_vals (some vs) = some (val_links vs, length vs)

-- `build_intset_value`
unfoldable pub build_intset_value : Calls → RdbParser → ℕ → Outcome
build_intset_value calls = build_block (load_intset calls) calls

-- `build_zipmap_value`
unfoldable pub build_zipmap_value : Calls → RdbParser → ℕ → Outcome
build_zipmap_value calls = build_block (λ block. load_pairs (load_zipmap block)) calls

-- `build_zl_list_value`
unfoldable pub build_zl_list_value : Calls → RdbParser → ℕ → Outcome
build_zl_list_value calls =
    build_block (λ block. load_vals (load_ziplist_list_or_set calls.print_int block)) calls

-- `build_zl_hash_value`
unfoldable pub build_zl_hash_value : Calls → RdbParser → ℕ → Outcome
build_zl_hash_value calls =
    build_block (λ block. load_pairs (load_ziplist_hash_or_zset calls.print_int block)) calls
