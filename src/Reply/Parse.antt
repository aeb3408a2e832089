-- ===== src/Reply/Parse.antt =====
-- src/base/reply_parser/r_build_reply.c and reply_parser.c: one reply, and all replies of the input.
use kj_cpp_redis.BipBuf.{BipBuf, get_committed_size}
use kj_cpp_redis.Reply.Types.{
  Code, over, again, abort, premature, invalid_leading_char, invalid_state, stuck, Context, Reply,
  reply, empty_reply, ParserState, parse_idle, parse_over,
}
use kj_cpp_redis.Reply.Builder.{Outcome, consume, builder, set_state, alloc_reply_builder, rrb_loop}
use kj_cpp_redis.Reply.Read.{read_leading, leading_type}
use kj_cpp_redis.Reply.Array.{build_content, build_array, node_type}
use kj_cpp_redis.Prelude.{
  ℕ, zero, suc, ◌+◌, Bool, ◌||◌, none, some, List, [], ◌∷◌, ◌++◌, length, ◌==◌, if◌then◌else◌,
}

-- `__build_reply_type`; `i` is the builder `rrb`.
unfoldable pub build_reply_type : ℕ → Context → Reply → Outcome
build_reply_type i c (reply r arrval) = elim (read_leading c.bb) [
  | none ↦ (premature, c, reply r arrval)
  | some leading ↦ elim (leading_type leading) [
    | none ↦ (invalid_leading_char, c, reply r arrval)
    | some type ↦ (again, set_state (consume c 1) i 2, reply (record r { type = type }) arrval)
  ]
]

-- `redis_reply_parser_t`, without its pools and its callback.
pub record ReplyParser : Type 0 where
  pub state : ParserState
  pub context : Context
  pub r : Reply

-- `create_reply_parser`: its state before any input, which arrives in `bb`.
abbrev pub create_reply_parser : BipBuf → ReplyParser
create_reply_parser bb = record {
  state = parse_idle;
  context = record { stack = []; bb = bb; parsed = 0 };
  r = empty_reply;
}

module _ (fresh : ℕ → List ℕ) where
  -- How deep arrays can still nest: not deeper than builders and bytes there are.
  abbrev pub depth_bound : Context → ℕ
  depth_bound c = get_committed_size c.bb + length c.stack + 1

  -- `__build_reply_content`
  unfoldable pub build_reply_content : ℕ → ℕ → Context → Reply → Outcome
  build_reply_content fuel i c r = build_content fresh (build_array fresh fuel) (node_type r) i c r

  -- The `switch` of the loop.
  unfoldable pub reply_states : ℕ → ℕ → Context → Reply → Outcome
  reply_states fuel i c r =
      let s = (builder c i).state in
      if s == 0 || s == 1
      then build_reply_type i c r
      else if s == 2
      then build_reply_content fuel i c r
      else (invalid_state, c, r)

  -- `r_build_reply`, at depth 0. Two rounds are enough.
  unfoldable pub build_reply : Context → Reply → Outcome
  build_reply c r = rrb_loop 2 (reply_states (depth_bound c) 0) (alloc_reply_builder c 0) r

  -- What `redis_reply_parse_once` does with the code of one `r_build_reply`: the callback gets the
  -- reply, and `r_cb` says whether it returned 0. `redis_reply_clear` empties the reply.
  unfoldable pub deliver :
      (List Reply → Reply → Bool)
      → ReplyParser
      → List Reply
      → Outcome
      → Code × ReplyParser × List Reply
  deliver r_cb p seen (rc, c, r) = elim rc [
    | over ↦
        if r_cb seen r
        then (over, record p { context = c; r = empty_reply }, seen ++ (r ∷ []))
        else (abort, record p { state = parse_over; context = c; r = r }, seen ++ (r ∷ []))
    | other ↦ (other, record p { context = c; r = r }, seen)
  ]

  -- The `while` loop, with fuel, from a code of RRB_AGAIN or RRB_OVER; the last component is the
  -- list of replies that the callback got.
  unfoldable pub parse_loop :
      ℕ → (List Reply → Reply → Bool) → ReplyParser → List Reply → Code × ReplyParser × List Reply
  parse_loop zero r_cb p seen = (stuck, p, seen)
  parse_loop (suc fuel) r_cb p seen =
      let (rc, p', seen') = deliver r_cb p seen (build_reply p.context p.r) in
      let rest = parse_loop fuel r_cb p' seen' in
      elim rc [ over ↦ rest | again ↦ rest | other ↦ (other, p', seen') ]

  -- `redis_reply_parse_once`
  unfoldable pub parse_once :
      (List Reply → Reply → Bool) → ReplyParser → Code × ReplyParser × List Reply
  parse_once r_cb p = elim p.state [
    | parse_over ↦ (again, p, [])
    | _ ↦ parse_loop (get_committed_size p.context.bb + 1) r_cb p []
  ]
