-- ===== src/Tests/Dumps.antt =====
-- Lengths, integers, sets and maps of a dump.
use kj_cpp_redis.BipBuf.Inv.{IsValid}
use kj_cpp_redis.BipBuf.{get_contiguous_block, get_committed_size}
use kj_cpp_redis.Rdb.Helper.{read_store_len}
use kj_cpp_redis.Rdb.IntSet.{intset_get, words_bytes, signed_at, intset_get_lem}
use kj_cpp_redis.Rdb.StoreLen.{read_store_len_short}
use kj_cpp_redis.Rdb.ZipMap.RoundTrip.{zipmap_bytes, load_zipmap_lem}
use kj_cpp_redis.Rdb.ZipMap.{load_zipmap}
use kj_cpp_redis.Tests.Inputs.{codes, zeros, input}
use kj_cpp_redis.Prelude.{ℕ, ◌≡◌, List, [], ◌∷◌, some, none, refl, arith, inl}

-- 70000 takes four bytes behind the first; these are three of the five.
abbrev part_of_length : List ℕ
part_of_length = 128 ∷ 0 ∷ 1 ∷ []

part-IsValid : IsValid (input part_of_length)
part-IsValid = ground arith

part-block : get_contiguous_block (input part_of_length) ≡ part_of_length
unfolding get_contiguous_block get_committed_size
part-block = refl

read_store_len_short_example : read_store_len (input part_of_length) ≡ none
read_store_len_short_example =
    read_store_len_short 70000 3 part-IsValid (omega arith) (omega arith) part-block

abbrev some_words : List ℕ
some_words = 65535 ∷ 1 ∷ 300 ∷ []

intset_get_lem_example :
    intset_get (record { encoding = 2; length = 3; contents = words_bytes 2 some_words }) 2
    ≡ signed_at 2 some_words 2
intset_get_lem_example = intset_get_lem 2 some_words 2 (inl refl) (omega arith)

abbrev some_map : List (List ℕ × List ℕ)
some_map = (codes "foo", codes "bar") ∷ (codes "", zeros 260) ∷ []

load_zipmap_lem_example : load_zipmap (zipmap_bytes some_map) ≡ some some_map
load_zipmap_lem_example = load_zipmap_lem some_map (omega arith)
