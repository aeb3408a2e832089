-- ===== src/Rdb/Body/Spec.antt =====
-- The records of the body of a dump, and the objects that they stand for.
use kj_cpp_redis.Rdb.Body.{opcode_expiretime_ms, opcode_expiretime, opcode_selectdb, opcode_eof}
use kj_cpp_redis.Rdb.Endian.{le_bytes}
use kj_cpp_redis.Rdb.Object.Spec.{Value, value_type, value_bytes, FitValue, with_value}
use kj_cpp_redis.Rdb.StoreLen.{store_len_bytes}
use kj_cpp_redis.Rdb.Text.Spec.{Text, text_bytes, text_of, FitText}
use kj_cpp_redis.Rdb.Types.{RdbObject, empty_object, Calls}
use kj_cpp_redis.Prelude.{ℕ, ◌+◌, ◌*◌, ◌/◌, ◌%◌, ◌^◌, ◌<◌, ◌≡◌, List, [], ◌∷◌, ◌++◌}

-- A key with its value, a database, or an expire time in seconds or milliseconds.
pub data Record : Type 0 where
  entry : Text → Value → Record
  selectdb expiretime expiretime_ms : ℕ → Record

abbrev pub record_type : Record → ℕ
record_type (entry key v) = value_type v
record_type (selectdb n) = opcode_selectdb
record_type (expiretime n) = opcode_expiretime
record_type (expiretime_ms n) = opcode_expiretime_ms

-- What follows the type.
abbrev pub detail_bytes : Record → List ℕ
detail_bytes (entry key v) = text_bytes key ++ value_bytes v
detail_bytes (selectdb n) = store_len_bytes n
detail_bytes (expiretime n) = le_bytes 4 n
detail_bytes (expiretime_ms n) = le_bytes 8 n

abbrev pub FitRecord : Calls → Record → Type 0
FitRecord calls (entry key v) = FitText calls key × FitValue calls v
FitRecord calls (selectdb n) = n < 2 ^ 32
FitRecord calls (expiretime n) = n < 2 ^ 32
FitRecord calls (expiretime_ms n) = n < 2 ^ 64

abbrev pub typed : Record → RdbObject
typed r = record empty_object { type = record_type r }

-- The object that a record stands for; an expire time is in seconds, and a word of 32 bits.
abbrev pub object_of : Calls → Record → RdbObject
object_of calls (entry key v) =
    with_value calls (record (typed (entry key v)) { key = text_of calls key }) v
object_of calls (selectdb n) = record (typed (selectdb n)) { db_selector = n }
object_of calls (expiretime n) = record (typed (expiretime n)) { expire = n }
object_of calls (expiretime_ms n) = record (typed (expiretime_ms n)) { expire = n / 1000 % 2 ^ 32 }

-- The number with the given bytes, the highest first, behind those of `n`.
abbrev pub be_word : ℕ → List ℕ → ℕ
be_word n [] = n
be_word n (b ∷ bs) = be_word (256 * n + b) bs

-- The object that the callback gets: that of the record, but for an expire time, whose bytes the code
-- reads with the highest first.
abbrev pub seen_of : Calls → Record → RdbObject
seen_of calls (entry key v) = object_of calls (entry key v)
seen_of calls (selectdb n) = object_of calls (selectdb n)
seen_of calls (expiretime n) = record (object_of calls (expiretime n)) {
  expire = be_word 0 (le_bytes 4 n);
}
seen_of calls (expiretime_ms n) = record (object_of calls (expiretime_ms n)) {
  expire = be_word 0 (le_bytes 8 n) / 1000 % 2 ^ 32;
}

abbrev pub records_bytes : List Record → List ℕ
records_bytes [] = opcode_eof ∷ []
records_bytes (r ∷ rs) = record_type r ∷ (detail_bytes r ++ records_bytes rs)

abbrev pub FitRecords : Calls → List Record → Type 0
FitRecords calls [] = Unit {0}
FitRecords calls (r ∷ rs) = FitRecord calls r × FitRecords calls rs

-- The callback has seen `walked`, and goes on after each of the objects.
abbrev pub Accepts : Calls → List RdbObject → List Record → Type 0
Accepts calls walked [] = Unit {0}
Accepts calls walked (r ∷ rs) =
    (calls.o_cb walked (seen_of calls r) ≡ 0) × Accepts calls (walked ++ (seen_of calls r ∷ [])) rs

abbrev pub seen_objects : Calls → List Record → List RdbObject
seen_objects calls [] = []
seen_objects calls (r ∷ rs) = seen_of calls r ∷ seen_objects calls rs
