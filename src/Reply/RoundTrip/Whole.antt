-- ===== src/Reply/RoundTrip/Whole.antt =====
-- A whole reply.
use kj_cpp_redis.BipBuf.Content.{get_committed_size-length, length-block}
use kj_cpp_redis.BipBuf.Inv.{IsValid}
use kj_cpp_redis.BipBuf.{get_contiguous_block}
use kj_cpp_redis.Reply.Array.{build_content, build_array}
use kj_cpp_redis.Reply.Builder.Loop.{
  with_top, alloc-with_top, builder-with_top, set_builder-with_top, pop-with_top, consume-with_top,
  consume-block, rrb_loop-again, rrb_loop-over,
}
use kj_cpp_redis.Reply.Builder.{Outcome, consume, rrb_loop, alloc_reply_builder}
use kj_cpp_redis.Reply.Parse.{
  depth_bound, build_reply_type, build_reply_content, reply_states, build_reply,
}
use kj_cpp_redis.Reply.Read.Decimal.{decimal}
use kj_cpp_redis.Reply.RoundTrip.Arrays.{content-Built}
use kj_cpp_redis.Reply.RoundTrip.Elements.{leading_type-lead, read_leading-cons}
use kj_cpp_redis.Reply.RoundTrip.Row.{length-body}
use kj_cpp_redis.Reply.RoundTrip.Rounds.{new_builder}
use kj_cpp_redis.Reply.RoundTrip.Scalar.{Built, blank, stack-consume}
use kj_cpp_redis.Reply.Spec.{
  Value, text_value, error_value, bulk_value, number, negative, null_bulk, null_array, array_value,
  Values, no_values, more_values, lead, type_of, count, body, encode, encode_all, IsWritable,
  nesting, nesting_all,
}
use kj_cpp_redis.Reply.Types.{over, again, Context, ReplyBuilder, Reply, empty_reply}
use kj_cpp_redis.Prelude.{
  ℕ, ◌≤◌, ◌<◌, ◌≡◌, ◌∙◌, ap, refl, sym, List, [], ◌∷◌, ◌++◌, arith, length, length-append, subst,
  ap₂,
}

-- Each level of nesting takes a byte.
mutual
  unfolding nesting nesting_all body encode_all

  nesting-length : (v : Value) (rest : List ℕ) → nesting v ≤ length (body v rest)
  nesting-length (text_value s) rest = omega arith
  nesting-length (error_value s) rest = omega arith
  nesting-length (bulk_value s) rest = omega arith
  nesting-length (number n) rest = omega arith
  nesting-length (negative n) rest = omega arith
  nesting-length null_bulk rest = omega arith
  nesting-length null_array rest = omega (arith, length-body null_array rest)
  nesting-length (array_value vs) rest = omega (
    arith,
    length-append (decimal (count vs)) (13 ∷ 10 ∷ encode_all vs rest),
    nesting_all-length vs rest,
  )

  nesting_all-length : (vs : Values) (rest : List ℕ) → nesting_all vs ≤ length (encode_all vs rest)
  nesting_all-length no_values rest = omega arith
  nesting_all-length (more_values v vs) rest = omega (
    arith,
    length-body v (encode_all vs rest),
    nesting-length v (encode_all vs rest),
    nesting_all-length vs rest,
  )

type_round :
    (fresh : ℕ → List ℕ) (f : ℕ) (c : Context) (v : Value) (rest : List ℕ)
    → c.stack ≡ []
    → IsValid c.bb
    → get_contiguous_block c.bb ≡ encode v rest
    → reply_states fresh f 0 (with_top c (new_builder 0)) empty_reply
      ≡ (again, with_top (consume c 1) (record (new_builder 0) { state = 2 }), blank (type_of v))
unfolding reply_states build_reply_type
type_round fresh f c v rest none_yet valid e =
    let top1 : length (consume c 1).stack ≡ 0 = ap length (stack-consume c 1 ∙ none_yet) in
    ground (
      arith,
      builder-with_top c 0 (ap length none_yet) (new_builder 0),
      read_leading-cons (with_top c (new_builder 0)) (lead v) (body v rest) valid e,
      leading_type-lead v,
      consume-with_top c (new_builder 0) 1,
      builder-with_top (consume c 1) 0 top1 (new_builder 0),
      set_builder-with_top (consume c 1) 0 top1 (new_builder 0)
          (record (new_builder 0) { state = 2 }),
    )

content_round :
    (fresh : ℕ → List ℕ) (f : ℕ) (c : Context) (v : Value)
    → length c.stack ≡ 0
    → reply_states fresh f 0 (with_top c (record (new_builder 0) { state = 2 })) (blank (type_of v))
      ≡ build_content fresh
          (build_array fresh f)
          (type_of v)
          0
          (with_top c (record (new_builder 0) { state = 2 }))
          (blank (type_of v))
unfolding reply_states build_reply_content
content_round fresh f c v top =
    ground (arith, builder-with_top c 0 top (record (new_builder 0) { state = 2 }))

-- Before a reply, the stack of builders is empty or holds a new one.
abbrev pub base : Context → Context
base c = record c { stack = [] }

abbrev pub IsFresh : Context → Type 0
IsFresh c = alloc_reply_builder c 0 ≡ with_top (base c) (new_builder 0)

pub IsFresh-empty : (c : Context) → c.stack ≡ [] → IsFresh c
IsFresh-empty c e =
    alloc-with_top c 0 (ap length e) (omega arith)
    ∙ ap (λ (t : List ReplyBuilder). record c { stack = t ++ (new_builder 0 ∷ []) }) e

-- On a fresh stack of builders and a valid buffer that starts with the encoding of a writable value,
-- nested less than 14 deep, r_build_reply returns RRB_OVER, the reply represents the value, the rest
-- of the input stays and the stack is empty.
pub build_reply-Built :
    (fresh : ℕ → List ℕ) (fresh_length : (n : ℕ) → length (fresh n) ≡ n) (c : Context) (v : Value)
    (rest : List ℕ)
    → IsFresh c
    → IsWritable v
    → nesting v < 14
    → IsValid c.bb
    → get_contiguous_block c.bb ≡ encode v rest
    → Built (base c) v rest (build_reply fresh c empty_reply)
unfolding build_reply
build_reply-Built fresh fresh_length c v rest start w deep valid e =
    let states : Context → Reply → Outcome = reply_states fresh (depth_bound fresh c) 0 in
    let b : ReplyBuilder = record (new_builder 0) { state = 2 } in
    let c1 : Context = consume (base c) 1 in
    let top1 : length c1.stack ≡ 0 = ap length (stack-consume (base c) 1) in
    let (v1, e1) = consume-block (base c) (lead v ∷ []) (body v rest) valid e in
    let built =
      content-Built fresh fresh_length (depth_bound fresh c) v 0 (with_top c1 b) rest w
        (omega (
          arith,
          nesting-length v rest,
          ap length e,
          get_committed_size-length valid,
          length-block valid,
        ))
        (omega (arith, length-append c1.stack (b ∷ [])))
        (ap (λ (t : ReplyBuilder). t.depth) (builder-with_top c1 0 top1 b)) (omega arith) v1 e1 in
    let out : Outcome =
      build_content fresh (build_array fresh (depth_bound fresh c)) (type_of v) 0 (with_top c1 b)
        (blank (type_of v)) in
    let c2 : Context = record (out.1) { stack = c1.stack } in
    let done : out ≡ (over, with_top c2 b, out.2) =
      ap₂ (λ x y. (x, y, out.2)) built.code
        (ap (λ (t : List ReplyBuilder). record (out.1) { stack = t }) built.stack) in
    let run : build_reply fresh c empty_reply ≡ (over, c2, out.2) =
      ap (λ t. rrb_loop 2 states t empty_reply) start
      ∙ rrb_loop-again states 1 _ _ _ _
          (type_round fresh (depth_bound fresh c) (base c) v rest refl valid e)
      ∙ rrb_loop-over states 0 _ _ _ _ (content_round fresh (depth_bound fresh c) c1 v top1 ∙ done)
      ∙ ap (λ t. (over, t, out.2)) (pop-with_top c2 b) in
    subst (Built (base c) v rest) (sym run) (record {
      code = refl;
      valid = built.valid;
      left = built.left;
      stack = stack-consume (base c) 1;
      represents = built.represents;
    })
