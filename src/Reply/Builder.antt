-- ===== src/Reply/Builder.antt =====
-- src/base/reply_parser/reply_builder.c and reply_builder.h: the stack of builders and the loop that
-- runs one. The stack is the list of its live elements; a pointer to one is its index.
pub mod Loop
use kj_cpp_redis.BipBuf.{BipBuf, decommit}
use kj_cpp_redis.Reply.Types.{
  Code, over, again, abort, premature, invalid_leading_char, invalid_state, invalid_bulk_string,
  stuck, Context, Reply, ReplyBuilder,
}
use kj_cpp_redis.Prelude.{
  ℕ, zero, suc, ◌+◌, ◌-◌, ◌%◌, ◌^◌, Option, none, some, List, [], ◌∷◌, ◌++◌, get_elem?, get_or, set,
  length, take,
}

-- The result of a builder function: the code, the context and the reply that it fills.
abbrev pub Outcome : Type 0
Outcome = Code × Context × Reply

-- A builder that `nx_memzero` has cleared.
abbrev pub zero_builder : ReplyBuilder
zero_builder = record { depth = 0; state = 0; store_len = 0; len = 0; arridx = 0 }

-- `stack_push_reply_builder`, with the depth that `stack_alloc_reply_builder` sets next.
unfoldable pub push_reply_builder : Context → ℕ → Context
push_reply_builder c depth = record c {
  stack = c.stack ++ (record zero_builder { depth = depth % 256 } ∷ []);
}

-- `stack_pop_reply_builder`
unfoldable pub pop_reply_builder : Context → Context
pop_reply_builder c = record c { stack = take (length c.stack - 1) c.stack }

-- `stack_alloc_reply_builder`
unfoldable pub alloc_reply_builder : Context → ℕ → Context
unfolding push_reply_builder
alloc_reply_builder c depth = elim (get_elem? c.stack depth) [
  | none ↦ push_reply_builder c depth
  | some _ ↦ c
]

-- `*rrb`, at the builder of index `i`
abbrev pub builder : Context → ℕ → ReplyBuilder
builder c i = get_or c.stack i zero_builder

abbrev pub set_builder : Context → ℕ → ReplyBuilder → Context
set_builder c i b = record c { stack = set c.stack i b }

abbrev pub set_state : Context → ℕ → ℕ → Context
set_state c i s = set_builder c i (record (builder c i) { state = s })

-- `bip_buf_decommit(bb, n); rrp->parsed += n;`
unfoldable pub consume : Context → ℕ → Context
consume c n = record c { bb = (decommit c.bb n).0; parsed = (c.parsed + n) % 2 ^ 64 }

-- `do … while (rc == RRB_AGAIN)`, and the pop of RRB_LOOP_END. The first argument is fuel.
unfoldable pub rrb_loop : ℕ → (Context → Reply → Outcome) → Context → Reply → Outcome
rrb_loop zero body c r = (stuck, c, r)
rrb_loop (suc fuel) body c r =
    let (rc, c', r') = body c r in
    elim rc [
      | again ↦ rrb_loop fuel body c' r'
      | over ↦ (over, pop_reply_builder c', r')
      | other ↦ (other, c', r')
    ]
