-- ===== src/Reply/RoundTrip/Rounds.antt =====
-- The rounds of a builder of two states that is started afresh.
use kj_cpp_redis.Reply.Builder.Loop.{
  with_top, alloc-with_top, builder-with_top, pop-with_top, rrb_loop-again, rrb_loop-over,
}
use kj_cpp_redis.Reply.Builder.{Outcome, zero_builder, builder, rrb_loop, alloc_reply_builder}
use kj_cpp_redis.Reply.Text.{two_states}
use kj_cpp_redis.Reply.Types.{
  Code, over, again, Context, ReplyBuilder, Node, Reply, reply, Elements,
}
use kj_cpp_redis.Prelude.{ℕ, ◌+◌, ◌<◌, ◌≡◌, ◌∙◌, ap, refl, arith, length, count_eq}

-- One round of `two_states`, at a builder on top of the stack.
module _ (first second : Context → Node → Code × Context × Node) (c : Context) (k : ℕ)
    (top : length c.stack ≡ k) (b : ReplyBuilder) (n : Node) (a : Elements) {rc : Code}
    {c' : Context} {n' : Node} where
  pub two_states-first :
      b.state ≡ 0
      → first (with_top c b) n ≡ (rc, c', n')
      → two_states first second k (with_top c b) (reply n a) ≡ (rc, c', reply n' a)
  unfolding two_states
  two_states-first s e = ground (arith, builder-with_top c k top b)

  pub two_states-second :
      b.state ≡ 2
      → second (with_top c b) n ≡ (rc, c', n')
      → two_states first second k (with_top c b) (reply n a) ≡ (rc, c', reply n' a)
  unfolding two_states
  two_states-second s e = ground (arith, builder-with_top c k top b)

abbrev pub Rounds : Type 0
Rounds = ℕ → Context → Node → Code × Context × Node

-- `r_build_simple_string` and `r_build_bulk_string`, by their two functions.
abbrev pub run_two : Rounds → Rounds → ℕ → Context → Reply → Outcome
run_two first second i c r =
    let depth = (builder c i).depth + 1 in
    rrb_loop 2 (two_states (first depth) (second depth) depth) (alloc_reply_builder c depth) r

-- The sub-builder that a run starts with.
abbrev pub new_builder : ℕ → ReplyBuilder
new_builder k = record zero_builder { depth = k }

module _ (first second : Rounds) (i : ℕ) (c : Context) (n : Node) (a : Elements)
    (top : length c.stack ≡ i + 1) (depth : (builder c i).depth ≡ i) (deep : i < 255) where
  run_two-start :
      run_two first second i c (reply n a)
      ≡ rrb_loop 2
          (two_states (first (i + 1)) (second (i + 1)) (i + 1))
          (with_top c (new_builder (i + 1)))
          (reply n a)
  run_two-start =
      count_eq
        (λ d. rrb_loop 2 (two_states (first d) (second d) d) (alloc_reply_builder c d) (reply n a))
        ((builder c i).depth + 1) (i + 1) (omega arith)
      ∙ ap (λ t. rrb_loop 2 (two_states (first (i + 1)) (second (i + 1)) (i + 1)) t (reply n a))
          (alloc-with_top c (i + 1) top (omega arith))

  pub run_two-over :
      (c1 : Context) (b : ReplyBuilder) (n1 : Node)
      → first (i + 1) (with_top c (new_builder (i + 1))) n ≡ (over, with_top c1 b, n1)
      → run_two first second i c (reply n a) ≡ (over, c1, reply n1 a)
  run_two-over c1 b n1 e =
      run_two-start
      ∙ rrb_loop-over (two_states (first (i + 1)) (second (i + 1)) (i + 1)) 1 _ _ _ _ (
          two_states-first (first (i + 1)) (second (i + 1)) c (i + 1) top (new_builder (i + 1)) n a
            refl e)
      ∙ ap (λ t. (over, t, reply n1 a)) (pop-with_top c1 b)

  pub run_two-again :
      (c1 c2 : Context) (b1 b2 : ReplyBuilder) (n1 n2 : Node)
      → first (i + 1) (with_top c (new_builder (i + 1))) n ≡ (again, with_top c1 b1, n1)
      → length c1.stack ≡ i + 1
      → b1.state ≡ 2
      → second (i + 1) (with_top c1 b1) n1 ≡ (over, with_top c2 b2, n2)
      → run_two first second i c (reply n a) ≡ (over, c2, reply n2 a)
  run_two-again c1 c2 b1 b2 n1 n2 e top1 s e2 =
      run_two-start
      ∙ rrb_loop-again (two_states (first (i + 1)) (second (i + 1)) (i + 1)) 1 _ _ _ _ (
          two_states-first (first (i + 1)) (second (i + 1)) c (i + 1) top (new_builder (i + 1)) n a
            refl e)
      ∙ rrb_loop-over (two_states (first (i + 1)) (second (i + 1)) (i + 1)) 0 _ _ _ _
          (two_states-second (first (i + 1)) (second (i + 1)) c1 (i + 1) top1 b1 n1 a s e2)
      ∙ ap (λ t. (over, t, reply n2 a)) (pop-with_top c2 b2)
