-- ===== src/Reply/Read/Integer.antt =====
-- `redis_reply_read_integer` on a line of digits.
use kj_cpp_redis.BipBuf.Content.{get_committed_size-length, length-block}
use kj_cpp_redis.BipBuf.Inv.{IsValid}
use kj_cpp_redis.BipBuf.{BipBuf, get_committed_size, get_contiguous_block, find_str}
use kj_cpp_redis.Strstr.Crlf.{crlf}
use kj_cpp_redis.Strstr.Prefix.{Lacks, fast_strstr_at_first}
use kj_cpp_redis.Reply.Read.{read_integer, to_integer}
use kj_cpp_redis.Prelude.{
  ℕ, ◌+◌, ◌^◌, ◌<◌, ◌≡◌, ◌∙◌, ap, false, some, List, [], ◌∷◌, ◌++◌, arith, length, take, sub_size,
  length-append, take-prefix,
}

-- The search finds the end of a line with no '\r' in it.
pub find_str-line :
    (bb : BipBuf) (line rest : List ℕ)
    → get_contiguous_block bb ≡ line ++ (13 ∷ 10 ∷ rest)
    → Lacks 13 line
    → find_str bb crlf ≡ some (13 ∷ 10 ∷ rest)
unfolding find_str
find_str-line bb line rest e h = rw e (fast_strstr_at_first 13 (10 ∷ []) line rest h)

-- On a valid buffer that starts with a line that has no CR, redis_reply_read_integer returns the
-- value of its characters and its length with the two bytes of the end.
pub read_integer-line :
    {bb : BipBuf} (line rest : List ℕ)
    → IsValid bb
    → get_contiguous_block bb ≡ line ++ (13 ∷ 10 ∷ rest)
    → Lacks 13 line
    → read_integer bb ≡ some (length line + 2, to_integer line 0 false)
unfolding read_integer
read_integer-line {bb} line rest v e h =
    let sizes : length (get_contiguous_block bb) ≡ length line + (length rest + 2) =
      ap length e ∙ length-append line (13 ∷ 10 ∷ rest) ∙ omega arith in
    let short : get_committed_size bb < 2 ^ 62 =
      omega (arith, get_committed_size-length v, length-block v) in
    ground (
      arith,
      find_str-line bb line rest e h,
      get_committed_size-length v,
      taken (get_contiguous_block bb)
          (sub_size (length (get_contiguous_block bb)) (length rest + 2)),
    )
  where
    taken :
        (block : List ℕ) (n : ℕ)
        → block ≡ line ++ (13 ∷ 10 ∷ rest)
        → n ≡ length line
        → take n block ≡ line
    taken block n p q = rw (p, q) (take-prefix line (13 ∷ 10 ∷ rest))
