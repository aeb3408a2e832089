-- ===== src/Tests/Blocks.antt =====
-- Ziplists in memory.
use kj_cpp_redis.Prelude.Int.{ℤ, pos, negsuc}
use kj_cpp_redis.Rdb.ZipList.Entry.{
  Item, string, integer, immediate, short, medium, ziplist_get-entry,
}
use kj_cpp_redis.Rdb.ZipList.RoundTrip.{
  AllFit, entries_bytes, flat, load_ziplist_list_or_set_lem, load_ziplist_hash_or_zset_lem,
  ziplist_next-ziplist_get,
}
use kj_cpp_redis.Rdb.ZipList.{
  ziplist_get, ziplist_next, zip_raw_entry_length, load_ziplist_list_or_set,
  load_ziplist_hash_or_zset,
}
use kj_cpp_redis.Reply.Read.Decimal.{decimal}
use kj_cpp_redis.Tests.Inputs.{codes, zeros}
use kj_cpp_redis.Prelude.{ℕ, suc, ◌-◌, ◌^◌, ◌≡◌, refl, some, List, [], ◌∷◌, ◌++◌, drop, arith}

abbrev print : ℤ → List ℕ
print (pos n) = decimal n
print (negsuc n) = b'-' ∷ decimal (suc n)

-- A string, -2 in three bytes, 300 in two, and 12.
abbrev some_items : List Item
some_items =
    string (codes "ab") ∷ integer medium (2 ^ 24 - 2) ∷ integer short 300 ∷ immediate 12 ∷ []

some_items-AllFit : AllFit some_items
some_items-AllFit = ground arith

load_ziplist_list_or_set_lem_example :
    load_ziplist_list_or_set print (zeros 10 ++ entries_bytes 0 some_items)
    ≡ some (codes "ab" ∷ print (negsuc 1) ∷ print (pos 300) ∷ print (pos 12) ∷ [])
load_ziplist_list_or_set_lem_example =
    load_ziplist_list_or_set_lem print (zeros 10) some_items refl some_items-AllFit

abbrev some_pairs : List (Item × Item)
some_pairs =
    (string (codes "ab"), integer medium (2 ^ 24 - 2)) ∷ (integer short 300, immediate 12) ∷ []

load_ziplist_hash_or_zset_lem_example :
    load_ziplist_hash_or_zset print (zeros 10 ++ entries_bytes 0 (flat some_pairs))
    ≡ some ((codes "ab", print (negsuc 1)) ∷ (print (pos 300), print (pos 12)) ∷ [])
load_ziplist_hash_or_zset_lem_example =
    load_ziplist_hash_or_zset_lem print (zeros 10) some_pairs refl some_items-AllFit

abbrev some_entries : List ℕ
some_entries = entries_bytes 0 some_items

first_entry : ziplist_get print some_entries ≡ some (4, codes "ab")
first_entry = ziplist_get-entry print 0 (string (codes "ab")) (drop 4 some_entries) (omega arith)

ziplist_next-ziplist_get_example :
    (ziplist_next some_entries ≡ some (drop 4 some_entries))
    × (zip_raw_entry_length some_entries ≡ 4)
ziplist_next-ziplist_get_example =
    ziplist_next-ziplist_get print some_entries 4 (codes "ab") first_entry (omega arith)
      (omega arith)
