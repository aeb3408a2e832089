-- ===== src/Tests/Objects.antt =====
-- Values, bodies and whole dumps.
use kj_cpp_redis.BipBuf.Inv.{IsValid}
use kj_cpp_redis.BipBuf.{get_contiguous_block, get_committed_size, get_reservation_size}
use kj_cpp_redis.Prelude.Int.{ℤ, pos, negsuc}
use kj_cpp_redis.Rdb.Body.Spec.{
  Record, entry, selectdb, expiretime, records_bytes, FitRecords, Accepts,
}
use kj_cpp_redis.Rdb.Body.Whole.{BuiltBody, build_body-BuiltBody}
use kj_cpp_redis.Rdb.Body.{atoi, digits_value, build_body}
use kj_cpp_redis.Rdb.Builder.Loop.{with_top, Holds, Ready}
use kj_cpp_redis.Rdb.Builder.{zero_builder, ob_loop}
use kj_cpp_redis.Rdb.Chain.Empty.{ob_loop_empty}
use kj_cpp_redis.Rdb.Chain.Lists.{texts_bytes}
use kj_cpp_redis.Rdb.Chain.Hashes.{pairs_bytes}
use kj_cpp_redis.Rdb.Chain.{list_step, hash_step}
use kj_cpp_redis.Rdb.Object.Spec.{Value, string, texts, pairs, list, hash}
use kj_cpp_redis.Rdb.Parse.Dump.{header_bytes, version_bytes, Parsed, parse_object_once-Parsed}
use kj_cpp_redis.Rdb.Parse.Dumped.{dumped_bytes, FitValues, AcceptsValues, dumped_objects}
use kj_cpp_redis.Rdb.Parse.Fed.{parse_dumped_data-ParsedValues}
use kj_cpp_redis.Rdb.Parse.File.{parse_file, parse_file-Parsed}
use kj_cpp_redis.Rdb.Parse.{parse_object_once, parse_dumped_data}
use kj_cpp_redis.Rdb.StoreLen.{store_len_bytes}
use kj_cpp_redis.Rdb.Text.RoundTrip.{
  BuiltAs, BuiltText, build_string_value-BuiltText, build_string_value-int8,
}
use kj_cpp_redis.Rdb.Text.Spec.{text_of, Text, plain, int8, int16, packed, text_bytes}
use kj_cpp_redis.Rdb.Text.{build_string_value}
use kj_cpp_redis.Rdb.Types.{premature, stuck, empty_object, RdbParser, Calls}
use kj_cpp_redis.Reply.Read.Decimal.{decimal}
use kj_cpp_redis.Tests.Inputs.{codes, zeros, input}
use kj_cpp_redis.Prelude.{ℕ, suc, ◌-◌, ◌≤◌, ◌≡◌, refl, some, List, [], ◌∷◌, ◌++◌, take, arith}

-- Integers in decimal, a compression that keeps half of a string that repeats, and a callback that goes
-- on.
abbrev some_print : ℤ → List ℕ
some_print (pos n) = decimal n
some_print (negsuc n) = b'-' ∷ decimal (suc n)

abbrev some_calls : Calls
some_calls = record {
  print_int = some_print;
  lzf_decompress = λ c n. some (take n (c ++ c));
  o_cb = λ walked o. 0;
}

-- A parser, idle, with the bytes in its input.
abbrev with_input : List ℕ → RdbParser
with_input bytes = record {
  version = 5;
  parsed = 0;
  state = 0;
  stack_ob = [];
  bb = input bytes;
  o = empty_object;
  walked = [];
}

-- The same with the builder of the body on the stack.
abbrev in_body : List ℕ → RdbParser
in_body bytes = record (with_input bytes) { stack_ob = zero_builder ∷ [] }

abbrev some_texts : List Text
some_texts = int16 1000 ∷ packed (codes "ab") (codes "abab") ∷ []

abbrev some_list : List ℕ
some_list = store_len_bytes 3 ++ (texts_bytes (plain (codes "x") ∷ some_texts) ++ codes "!")

abbrev some_hash : List ℕ
some_hash = store_len_bytes 1 ++ (pairs_bytes ((plain (codes "k"), int8 7) ∷ []) ++ codes "!")

abbrev some_records : List Record
some_records =
    selectdb 2
    ∷ expiretime 5
    ∷ entry (plain (codes "s")) (string (int8 7))
    ∷ entry (plain (codes "l")) (texts list (plain (codes "x")) some_texts)
    ∷ entry (plain (codes "h")) (pairs hash (plain (codes "k"), int8 7) [])
    ∷ []

abbrev some_dump : List ℕ
some_dump = header_bytes b'0' b'0' b'0' b'6' ++ (records_bytes some_records ++ codes "!")

some_body-Holds :
    Holds
      (with_input (records_bytes some_records ++ codes "!"))
      (records_bytes some_records ++ codes "!")
unfolding get_contiguous_block get_committed_size
some_body-Holds = record { valid = ground arith; left = refl }

some_dump-Holds : Holds (with_input some_dump) some_dump
unfolding get_contiguous_block get_committed_size
some_dump-Holds = record { valid = ground arith; left = refl }

some_records-Fit : FitRecords some_calls some_records
some_records-Fit = ground arith

some_records-Accepts : Accepts some_calls [] some_records
some_records-Accepts = ground arith

parse_object_once-Parsed_example :
    Parsed some_calls
      (with_input some_dump)
      (atoi (version_bytes b'0' b'0' b'0' b'6'))
      some_records
      (codes "!")
      (parse_object_once some_calls (with_input some_dump))
parse_object_once-Parsed_example =
    parse_object_once-Parsed some_calls (with_input some_dump) b'0' b'0' b'0' b'6' some_records
      (codes "!") refl refl refl some_records-Fit some_records-Accepts some_dump-Holds

-- "0006" is 6.
version_read : atoi (version_bytes b'0' b'0' b'0' b'6') ≡ 6
unfolding atoi digits_value
version_read = refl

build_body-BuiltBody_example :
    BuiltBody some_calls
      (with_input (records_bytes some_records ++ codes "!"))
      some_records
      (codes "!")
      (build_body some_calls (with_input (records_bytes some_records ++ codes "!")))
build_body-BuiltBody_example =
    build_body-BuiltBody some_calls (with_input (records_bytes some_records ++ codes "!"))
      some_records (codes "!") refl refl some_records-Fit some_records-Accepts some_body-Holds

-- The builder of the body is the parent of the next.
in_body-Ready : (bytes : List ℕ) (room : ℕ) → room ≤ 255 → Ready (in_body bytes) 0 room
in_body-Ready bytes room h = record { next = refl; small = omega arith }

-- Two bytes that stand for four.
abbrev some_packed : Text
some_packed = packed (codes "ab") (codes "abab")

packed-Holds : Holds (in_body (text_bytes some_packed ++ [])) (text_bytes some_packed ++ [])
unfolding get_contiguous_block get_committed_size
packed-Holds = record { valid = ground arith; left = refl }

build_string_value-BuiltText_example :
    BuiltText some_calls
      (in_body (text_bytes some_packed ++ []))
      some_packed
      []
      (build_string_value some_calls (in_body (text_bytes some_packed ++ [])) 0 [])
build_string_value-BuiltText_example =
    build_string_value-BuiltText some_calls (in_body (text_bytes some_packed ++ [])) 0 []
      some_packed [] (in_body-Ready (text_bytes some_packed ++ []) 2 (omega arith)) (ground arith)
      packed-Holds

-- -2 in one byte.
abbrev minus_two : List ℕ
minus_two = text_bytes (int8 254) ++ codes "!"

minus_two-Holds : Holds (in_body minus_two) minus_two
unfolding get_contiguous_block get_committed_size
minus_two-Holds = record { valid = ground arith; left = refl }

build_string_value-int8_example :
    BuiltAs
      (in_body minus_two)
      (some_print (pos 254))
      (codes "!")
      (build_string_value some_calls (in_body minus_two) 0 [])
    × (text_of some_calls (int8 254) ≡ some_print (negsuc (255 - 254)))
build_string_value-int8_example =
    build_string_value-int8 some_calls (in_body minus_two) 0 [] 254 (codes "!")
      (in_body-Ready minus_two 2 (omega arith)) (omega arith) (omega arith) minus_two-Holds

abbrev no_element : List ℕ
no_element = 0 ∷ codes "!"

no_element-Holds : Holds (in_body no_element) no_element
unfolding get_contiguous_block get_committed_size
no_element-Holds = record { valid = ground arith; left = refl }

ob_loop_empty_example :
    let start = with_top (in_body no_element) (record zero_builder { depth = 1 }) in
    ((ob_loop 1000 (list_step some_calls 1) start tt).0 ≡ stuck)
    × ((ob_loop 1000 (hash_step some_calls 1) start tt).0 ≡ stuck)
ob_loop_empty_example =
    ob_loop_empty some_calls 1000 (in_body no_element) (codes "!") (omega arith) no_element-Holds

-- "ab" and "cd" of a string of four bytes.
abbrev first_piece : List ℕ
first_piece = 4 ∷ codes "ab"

-- The field "v" with its value "1", whose key is taken already.
abbrev aux_value : List ℕ
aux_value = text_bytes (plain (codes "1")) ++ codes "!"

zeros-IsValid : IsValid (with_input (zeros 64)).bb
zeros-IsValid = ground arith

-- A string and a hash, and a footer of ten bytes.
abbrev some_values : List Value
some_values = pairs hash (plain (codes "k"), int8 7) [] ∷ []

abbrev dump_payload : List ℕ
dump_payload = dumped_bytes (string (int8 7) ∷ some_values) ++ zeros 10

some_values-Fit : FitValues some_calls (string (int8 7) ∷ some_values)
some_values-Fit = ground arith

some_values-Accepted : AcceptsValues some_calls [] (string (int8 7) ∷ some_values)
some_values-Accepted = ground arith

parse_dumped_data-ParsedValues_example :
    let out =
      parse_dumped_data 1 4 some_calls (λ walked o. 0) (with_input (zeros 64)) dump_payload in
    (out.0 ≡ some premature)
    × (out.1.walked ≡ dumped_objects some_calls (string (int8 7) ∷ some_values))
    × (out.1.version ≡ 5)
parse_dumped_data-ParsedValues_example =
    parse_dumped_data-ParsedValues 0 4 some_calls (λ walked o. 0) (with_input (zeros 64))
      (string (int8 7)) some_values (zeros 10) zeros-IsValid (omega arith) refl (omega arith)
      some_values-Fit some_values-Accepted

-- A parser with an empty buffer, and a file with a dump that it takes.
abbrev empty_input : RdbParser
empty_input = record (with_input []) { bb = record (input (zeros 100)) { a_end = 0 } }

empty_input-IsValid : IsValid empty_input.bb
empty_input-IsValid = ground arith

empty_input-block :
    (get_contiguous_block empty_input.bb ≡ []) × (get_reservation_size empty_input.bb ≡ 0)
unfolding get_contiguous_block get_committed_size get_reservation_size
empty_input-block = (refl, refl)

parse_file-Parsed_example :
    Parsed some_calls empty_input
      (atoi (version_bytes b'0' b'0' b'0' b'6'))
      some_records
      (codes "!")
      (parse_file some_calls empty_input some_dump)
parse_file-Parsed_example =
    parse_file-Parsed some_calls empty_input b'0' b'0' b'0' b'6' some_records (codes "!") refl refl
      refl empty_input-IsValid (empty_input-block.1) (empty_input-block.0) (omega arith)
      some_records-Fit some_records-Accepts
