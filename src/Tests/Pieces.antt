-- ===== src/Tests/Pieces.antt =====
-- A bulk string of 5 bytes, two of which have been gathered, and the lines of numbers.
use kj_cpp_redis.BipBuf.Inv.{IsValid}
use kj_cpp_redis.BipBuf.{get_contiguous_block, get_committed_size}
use kj_cpp_redis.NxBuf.{Buf, text}
use kj_cpp_redis.Reply.Builder.{zero_builder, consume}
use kj_cpp_redis.Reply.Text.Bulk.{Gathered, appended, plain-premature}
use kj_cpp_redis.Reply.Text.Frame.{plain-over, plain-invalid}
use kj_cpp_redis.Reply.RoundTrip.Overwrite.{plain-overwrites}
use kj_cpp_redis.Reply.Text.{build_simple_string_plain, build_bulk_string_plain}
use kj_cpp_redis.Reply.Types.{over, premature, invalid_bulk_string, Context, Node, empty_node}
use kj_cpp_redis.Tests.Inputs.{codes, zeros, zeros-length, input}
use kj_cpp_redis.Prelude.{ℕ, ◌+◌, take, ◌-◌, ◌≡◌, ◌++◌, List, [], ◌∷◌, refl, arith, ap, length, inl}

abbrev some_buf : Buf
some_buf = record { memory = codes "he" ++ zeros 6; pos = 0; last = 2 }

some_buf-Gathered : Gathered 5 (codes "he") some_buf
some_buf-Gathered = record { at_start = refl; filled = refl; holds = refl; size = refl }

abbrev some_context : List ℕ → Context
some_context s = record {
  stack = record zero_builder { state = 2; store_len = 5; len = 1 } ∷ [];
  bb = input s;
  parsed = 0;
}

abbrev some_node : Node
some_node = record empty_node { vall = some_buf ∷ [] }

rest-IsValid : IsValid (input (codes "llo\r\n:1"))
rest-IsValid = ground arith

rest-joined : codes "he" ++ get_contiguous_block (input (codes "llo\r\n:1")) ≡ codes "hello\r\n:1"
unfolding get_contiguous_block get_committed_size
rest-joined = refl

plain-over_example :
    let c = some_context (codes "llo\r\n:1") in
    (done : Buf) × (build_bulk_string_plain 0 c some_node
      ≡ (over, consume c (7 - 2), record some_node { vall = done ∷ []; bytes = 5 }))
    × (text done ≡ codes "hello")
plain-over_example =
    plain-over (codes "hello") (codes ":1") 0 (some_context (codes "llo\r\n:1")) some_node
      (omega arith) rest-IsValid refl refl some_buf-Gathered (omega arith) refl rest-joined

part-IsValid : IsValid (input (codes "ll"))
part-IsValid = ground arith

part-block : get_contiguous_block (input (codes "ll")) ≡ codes "ll"
unfolding get_contiguous_block get_committed_size
part-block = refl

plain-premature_example :
    let c = some_context (codes "ll") in
    let s = get_contiguous_block c.bb in
    build_bulk_string_plain 0 c some_node
    ≡ (premature, consume c (length s), record some_node { vall = appended some_buf s ∷ [] })
plain-premature_example =
    plain-premature 0 (some_context (codes "ll")) some_node (omega arith) part-IsValid refl refl
      some_buf-Gathered (omega arith) (omega (arith, ap length part-block))

bad_end-IsValid : IsValid (input (codes "lloxy"))
bad_end-IsValid = ground arith

bad_end-joined : codes "he" ++ get_contiguous_block (input (codes "lloxy")) ≡ codes "helloxy"
unfolding get_contiguous_block get_committed_size
bad_end-joined = refl

plain-invalid_example :
    let c = some_context (codes "lloxy") in
    (whole : Buf) × (build_bulk_string_plain 0 c some_node
      ≡ (invalid_bulk_string, c, record some_node { vall = whole ∷ [] }))
    × Gathered 5 (codes "helloxy") whole
plain-invalid_example =
    plain-invalid (codes "hello") [] b'x' b'y' 0 (some_context (codes "lloxy")) some_node
      (omega arith) bad_end-IsValid refl refl some_buf-Gathered (omega arith) refl bad_end-joined
      (inl (omega arith))

line_rest-block : get_contiguous_block (input (codes "llo\r\n:1")) ≡ codes "llo\r\n:1"
unfolding get_contiguous_block get_committed_size
line_rest-block = refl

-- "llo" arrives behind "he".
plain-overwrites_example :
    let c = some_context (codes "llo\r\n:1") in
    (c' : Context) × (b' : Buf) × (k : ℕ) × (build_simple_string_plain zeros 0 c some_node
      ≡ (over, c', record some_node { vall = b' ∷ []; bytes = k }))
    × (length (text b') ≡ 2 + 3)
    × (take 3 (text b') ≡ codes "llo")
plain-overwrites_example =
    plain-overwrites zeros zeros-length 0 (some_context (codes "llo\r\n:1")) some_node some_buf 2
      (codes "llo") (codes ":1") rest-IsValid line_rest-block (omega arith) (omega arith) refl refl
      refl (omega arith) (omega arith)
