-- ===== src/Reply/Builder/Loop.antt =====
-- The stack of builders with one on top, and the rounds of the builders' loop.
use kj_cpp_redis.BipBuf.Content.{decommit-block}
use kj_cpp_redis.BipBuf.Inv.{IsValid, decommit-IsValid}
use kj_cpp_redis.BipBuf.{get_contiguous_block}
use kj_cpp_redis.Reply.Builder.{
  Outcome, zero_builder, builder, set_builder, alloc_reply_builder, pop_reply_builder, consume,
  rrb_loop,
}
use kj_cpp_redis.Reply.Types.{over, again, Context, Reply, ReplyBuilder}
use kj_cpp_redis.Prelude.{
  get_elem?_end, get_or_end, set_end, ℕ, suc, ◌-◌, ◌<◌, ◌≡◌, ◌∙◌, ap, refl, List, [], ◌∷◌, ◌++◌,
  arith, length, take, drop, length-append, take-prefix, drop-prefix, count_eq,
}

-- The context with `b` pushed on its stack.
abbrev pub with_top : Context → ReplyBuilder → Context
with_top c b = record c { stack = c.stack ++ (b ∷ []) }

module _ (c : Context) (k : ℕ) (top : length c.stack ≡ k) where
  -- A new sub-builder is cleared, but for its depth.
  pub alloc-with_top :
      k < 256 → alloc_reply_builder c k ≡ with_top c (record zero_builder { depth = k })
  unfolding alloc_reply_builder
  alloc-with_top h = rw (← top) (ground (arith, get_elem?_end c.stack))

  pub builder-with_top : (b : ReplyBuilder) → builder (with_top c b) k ≡ b
  builder-with_top b = rw (← top) (get_or_end c.stack b zero_builder)

  pub set_builder-with_top : (b b' : ReplyBuilder) → set_builder (with_top c b) k b' ≡ with_top c b'
  set_builder-with_top b b' =
      rw (← top) (ap (λ (t : List ReplyBuilder). record c { stack = t }) (set_end c.stack b b'))

pub pop-with_top : (c : Context) (b : ReplyBuilder) → pop_reply_builder (with_top c b) ≡ c
unfolding pop_reply_builder
pop-with_top c b =
    ap (λ (t : List ReplyBuilder). record c { stack = t })
      (count_eq (λ k. take k (c.stack ++ (b ∷ []))) (length (c.stack ++ (b ∷ [])) - 1)
          (length c.stack) (omega (arith, length-append c.stack (b ∷ [])))
        ∙ take-prefix c.stack (b ∷ []))

pub consume-with_top :
    (c : Context) (b : ReplyBuilder) (n : ℕ) → consume (with_top c b) n ≡ with_top (consume c n) b
unfolding consume
consume-with_top c b n = refl

-- Consuming bytes takes them from the front of the input.
pub consume-block :
    (c : Context) (front rest : List ℕ)
    → IsValid c.bb
    → get_contiguous_block c.bb ≡ front ++ rest
    → IsValid (consume c (length front)).bb
      × (get_contiguous_block (consume c (length front)).bb ≡ rest)
unfolding consume
consume-block c front rest v e = (
  decommit-IsValid (length front) v,
  (decommit-block (length front) v).0 ∙ ap (drop (length front)) e ∙ drop-prefix front rest,
)

module _ (body : Context → Reply → Outcome) (fuel : ℕ) (c c' : Context) (r r' : Reply) where
  pub rrb_loop-again :
      body c r ≡ (again, c', r') → rrb_loop (suc fuel) body c r ≡ rrb_loop fuel body c' r'
  unfolding rrb_loop
  rrb_loop-again e = ground arith

  pub rrb_loop-over :
      body c r ≡ (over, c', r') → rrb_loop (suc fuel) body c r ≡ (over, pop_reply_builder c', r')
  unfolding rrb_loop
  rrb_loop-over e = ground arith
