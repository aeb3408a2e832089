-- ===== src/Rdb/Object/Spec.antt =====
-- A value as a dump holds it, and the object that it stands for.
use kj_cpp_redis.Rdb.Block.Built.{with_links}
use kj_cpp_redis.Rdb.Block.{load_intset, load_pairs, load_vals}
use kj_cpp_redis.Rdb.Chain.Hashes.{pairs_bytes, FitPairs, push_pairs}
use kj_cpp_redis.Rdb.Chain.Lists.{texts_bytes, FitTexts, push_texts}
use kj_cpp_redis.Rdb.StoreLen.{store_len_bytes}
use kj_cpp_redis.Rdb.Text.Spec.{Text, text_bytes, text_of, FitText}
use kj_cpp_redis.Rdb.Types.{Kv, RdbObject, Calls}
use kj_cpp_redis.Rdb.ZipList.{load_ziplist_list_or_set, load_ziplist_hash_or_zset}
use kj_cpp_redis.Rdb.ZipMap.{load_zipmap}
use kj_cpp_redis.Prelude.{ℕ, ◌^◌, ◌<◌, ◌≡◌, Option, some, List, ◌∷◌, ◌++◌, length}

-- The types of values that are one block.
pub data BlockType : Type 0 where
  hash_zipmap list_ziplist set_intset zset_ziplist hash_ziplist : BlockType

abbrev pub block_type : BlockType → ℕ
block_type hash_zipmap = 9
block_type list_ziplist = 10
block_type set_intset = 11
block_type zset_ziplist = 12
block_type hash_ziplist = 13

-- The loader of a block.
abbrev pub load_of : Calls → BlockType → List ℕ → Option (List Kv × ℕ)
load_of calls hash_zipmap bytes = load_pairs (load_zipmap bytes)
load_of calls list_ziplist bytes = load_vals (load_ziplist_list_or_set calls.print_int bytes)
load_of calls set_intset bytes = load_intset calls bytes
load_of calls zset_ziplist bytes = load_pairs (load_ziplist_hash_or_zset calls.print_int bytes)
load_of calls hash_ziplist bytes = load_pairs (load_ziplist_hash_or_zset calls.print_int bytes)

-- The types of values that are sequences of strings, and of pairs of strings.
pub data ListType : Type 0 where
  list set : ListType

pub data HashType : Type 0 where
  zset hash : HashType

abbrev pub list_type : ListType → ℕ
list_type list = 1
list_type set = 2

abbrev pub hash_type : HashType → ℕ
hash_type zset = 3
hash_type hash = 4

-- A sequence has an element at least; a block comes with the links that it is loaded as, and their size.
pub data Value : Type 0 where
  string : Text → Value
  texts : ListType → Text → List Text → Value
  pairs : HashType → Text × Text → List (Text × Text) → Value
  block : BlockType → Text → List Kv → ℕ → Value

abbrev pub value_type : Value → ℕ
value_type (string t) = 0
value_type (texts lt t ts) = list_type lt
value_type (pairs ht kv kvs) = hash_type ht
value_type (block bt t kvs size) = block_type bt

abbrev pub value_bytes : Value → List ℕ
value_bytes (string t) = text_bytes t
value_bytes (texts lt t ts) = store_len_bytes (length (t ∷ ts)) ++ texts_bytes (t ∷ ts)
value_bytes (pairs ht kv kvs) = store_len_bytes (length (kv ∷ kvs)) ++ pairs_bytes (kv ∷ kvs)
value_bytes (block bt t kvs size) = text_bytes t

abbrev pub FitValue : Calls → Value → Type 0
FitValue calls (string t) = FitText calls t
FitValue calls (texts lt t ts) = (length (t ∷ ts) < 2 ^ 32) × FitTexts calls (t ∷ ts)
FitValue calls (pairs ht kv kvs) = (length (kv ∷ kvs) < 2 ^ 32) × FitPairs calls (kv ∷ kvs)
FitValue calls (block bt t kvs size) =
    FitText calls t × (load_of calls bt (text_of calls t) ≡ some (kvs, size))

-- An object with the value.
abbrev pub with_value : Calls → RdbObject → Value → RdbObject
with_value calls o (string t) = record o { val = text_of calls t }
with_value calls o (texts lt t ts) = record (push_texts calls o (t ∷ ts)) { size = length (t ∷ ts) }
with_value calls o (pairs ht kv kvs) = record (push_pairs calls o (kv ∷ kvs)) {
  size = length (kv ∷ kvs);
}
with_value calls o (block bt t kvs size) = with_links o kvs size
