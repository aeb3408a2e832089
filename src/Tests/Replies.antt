-- ===== src/Tests/Replies.antt =====
-- Replies as a server writes them.
use kj_cpp_redis.BipBuf.Inv.{IsValid}
use kj_cpp_redis.BipBuf.{get_contiguous_block, get_committed_size}
use kj_cpp_redis.Reply.Builder.{alloc_reply_builder, push_reply_builder}
use kj_cpp_redis.Reply.Parse.{ReplyParser, create_reply_parser, build_reply, parse_once}
use kj_cpp_redis.Reply.Read.Decimal.{decimal}
use kj_cpp_redis.Reply.RoundTrip.Replies.{IsWaiting, RepresentList, parse_once_lem}
use kj_cpp_redis.Reply.RoundTrip.Scalar.{Built}
use kj_cpp_redis.Reply.RoundTrip.Whole.{base, IsFresh, build_reply-Built}
use kj_cpp_redis.Reply.Spec.{
  text_value, error_value, bulk_value, negative, null_bulk, array_value, Values, no_values,
  more_values, encode, encode_all, body, AreWritable, IsWritable, nesting_all, nesting,
}
use kj_cpp_redis.Reply.Types.{premature, Context, empty_reply}
use kj_cpp_redis.Tests.Inputs.{codes, zeros, zeros-length, input}
use kj_cpp_redis.Prelude.{ℕ, List, [], ◌≡◌, ◌<◌, refl, true, arith}

-- "+OK", ":-12", "$5 hello", and an array that holds a null and an array of "-ERR" and "$0".
abbrev some_values : Values
some_values = more_values (text_value (codes "OK")) (
    more_values (negative 12) (
      more_values (bulk_value (codes "hello")) (
        more_values
          (array_value (
            more_values null_bulk (
              more_values
                (array_value
                  (more_values (error_value (codes "ERR")) (more_values (bulk_value []) no_values)))
                no_values)))
          no_values)))

abbrev some_input : List ℕ
some_input = codes "+OK\r\n:-12\r\n$5\r\nhello\r\n*2\r\n$-1\r\n*2\r\n-ERR\r\n$0\r\n\r\n"

some_values_encoded : encode_all some_values [] ≡ some_input
unfolding encode_all body decimal
some_values_encoded = refl

abbrev some_parser : ReplyParser
some_parser = create_reply_parser (input some_input)

input-IsValid : IsValid (input some_input)
input-IsValid = ground arith

some_parser-IsWaiting : IsWaiting some_parser (encode_all some_values [])
unfolding encode_all body decimal get_contiguous_block get_committed_size alloc_reply_builder
    push_reply_builder
some_parser-IsWaiting = record {
  idle = refl;
  blank_reply = refl;
  start = refl;
  valid = input-IsValid;
  left = refl;
}

some_values-AreWritable : AreWritable some_values
unfolding AreWritable
some_values-AreWritable = ground arith

some_values-nesting : nesting_all some_values < 14
unfolding nesting_all
some_values-nesting = omega arith

parse_once_lem_example :
    let (rc, p', seen) = parse_once zeros (λ seen r. true) some_parser in
    (rc ≡ premature) × IsWaiting p' [] × RepresentList seen some_values
parse_once_lem_example =
    parse_once_lem zeros zeros-length (λ seen r. true) (λ seen r. refl) some_values some_parser
      some_values-AreWritable some_values-nesting some_parser-IsWaiting

-- The first of the values, with the others behind it.
abbrev others : List ℕ
others = codes ":-12\r\n"

first-IsValid : IsValid (input (codes "+OK\r\n:-12\r\n"))
first-IsValid = ground arith

abbrev first_context : Context
first_context = record { stack = []; bb = input (codes "+OK\r\n:-12\r\n"); parsed = 0 }

first-IsFresh : IsFresh first_context
unfolding alloc_reply_builder push_reply_builder
first-IsFresh = refl

first-block : get_contiguous_block first_context.bb ≡ encode (text_value (codes "OK")) others
unfolding get_contiguous_block get_committed_size body
first-block = refl

first-IsWritable : IsWritable (text_value (codes "OK"))
unfolding IsWritable
first-IsWritable = ground arith

first-nesting : nesting (text_value (codes "OK")) < 14
unfolding nesting
first-nesting = omega arith

build_reply-Built_example :
    Built
      (base first_context)
      (text_value (codes "OK"))
      others
      (build_reply zeros first_context empty_reply)
build_reply-Built_example =
    build_reply-Built zeros zeros-length first_context (text_value (codes "OK")) others
      first-IsFresh first-IsWritable first-nesting first-IsValid first-block
