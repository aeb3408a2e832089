-- ===== src/Reply/Read.antt =====
-- src/base/reply_parser/reply_build_helper.c and r_build_integer.c: leading bytes and integers.
pub mod Integer
pub mod Decimal
use kj_cpp_redis.BipBuf.{BipBuf, get_committed_size, get_contiguous_block, find_str}
use kj_cpp_redis.Strstr.Crlf.{crlf}
use kj_cpp_redis.Reply.Types.{
  Code, over, premature, Context, LeadingType, simple_string, error_string, integer, bulk_string,
  array,
}
use kj_cpp_redis.Reply.Builder.{consume}
use kj_cpp_redis.Prelude.{
  ℕ, zero, suc, ◌+◌, ◌-◌, ◌*◌, ◌%◌, ◌^◌, Bool, true, false, Option, none, some, List, [], ◌∷◌, ltb,
  ◌==◌, if◌then◌else◌, length, take, get_or, add_size, sub_size,
}

-- `redis_reply_read_leading`: the byte at the front, if there is one.
unfoldable pub read_leading : BipBuf → Option ℕ
read_leading bb =
    if ltb (get_committed_size bb) 1 then none else some (get_or (get_contiguous_block bb) 0 0)

-- The `switch (leading)` of `__build_reply_type` and `__build_array_element_type`.
unfoldable pub leading_type : ℕ → Option LeadingType
leading_type c =
    if c == b'+'
    then some simple_string
    else if c == b'-'
    then some error_string
    else if c == b':'
    then some integer
    else if c == b'$'
    then some bulk_string
    else if c == b'*'
    then some array
    else none

-- `(*ptr) - '0'` as a 64-bit word; `char` is signed.
abbrev pub char_minus_zero : ℕ → ℕ
char_minus_zero c = ((if ltb c 128 then c else 2 ^ 64 - 256 + c) + 2 ^ 64 - 48) % 2 ^ 64

-- The `for` loop over the characters: `v64` and whether `negative_mul` is -1.
unfoldable pub to_integer : List ℕ → ℕ → Bool → ℕ
to_integer [] v64 negative = if negative then (2 ^ 64 - v64) % 2 ^ 64 else v64
to_integer (c ∷ cs) v64 negative =
    to_integer cs (if c == b'-' then v64 else (v64 * 10 + char_minus_zero c) % 2 ^ 64)
      (if c == b'-' then true else negative)

-- `redis_reply_read_integer`: the bytes to consume and the value; `none` is a return of 0.
unfoldable pub read_integer : BipBuf → Option (ℕ × ℕ)
unfolding to_integer
read_integer bb =
    let p1 = get_contiguous_block bb in
    if ltb (get_committed_size bb) 2 then none else elim (find_str bb crlf) [
      | none ↦ none
      | some p2 ↦
          let append_size = sub_size (length p1) (length p2) in
          some (add_size append_size 2, to_integer (take append_size p1) 0 false)
    ]

-- `r_build_integer`: the last component is `*intval`, which is set only if the code is `over`.
unfoldable pub build_integer : Context → Code × Context × ℕ
unfolding read_integer
build_integer c = elim (read_integer c.bb) [
  | none ↦ (premature, c, 0)
  | some (n, intval) ↦ (over, consume c n, intval)
]
