-- ===== src/Reply/RoundTrip/Row.antt =====
-- The rounds of the builder of an array.
use kj_cpp_redis.BipBuf.Inv.{IsValid}
use kj_cpp_redis.BipBuf.{get_contiguous_block, get_committed_size}
use kj_cpp_redis.Reply.Array.{build_array, build_array_len, array_states}
use kj_cpp_redis.Reply.Builder.Loop.{
  with_top, alloc-with_top, builder-with_top, set_builder-with_top, consume-with_top,
}
use kj_cpp_redis.Reply.Builder.{Outcome, builder, consume, rrb_loop, alloc_reply_builder}
use kj_cpp_redis.Reply.Read.Decimal.{
  decimal, decimal-Lacks, to_integer-decimal, to_integer_negative,
}
use kj_cpp_redis.Reply.RoundTrip.Elements.{join}
use kj_cpp_redis.Reply.RoundTrip.Rounds.{new_builder}
use kj_cpp_redis.Reply.RoundTrip.Scalar.{after_line, build_integer-line, stack-consume}
use kj_cpp_redis.Reply.Spec.{
  Value, text_value, error_value, bulk_value, number, negative, null_bulk, null_array, array_value,
  Values, no_values, more_values, count, body, encode_all, RepresentAll,
}
use kj_cpp_redis.Reply.Types.{
  over, again, Context, ReplyBuilder, unknown, Node, Reply, reply, null, elements, Replies, nil,
}
use kj_cpp_redis.Prelude.{
  ℕ, suc, ◌+◌, ◌*◌, ◌^◌, ◌≤◌, ◌<◌, ◌≡◌, ◌∙◌, ap, true, List, ◌∷◌, ◌++◌, arith, length,
  length-append, count_eq,
}

-- A value takes at least one byte behind its leading byte, and an element at least two.
mutual
  unfolding body encode_all

  pub length-body : (v : Value) (rest : List ℕ) → length rest + 1 ≤ length (body v rest)
  length-body (text_value s) rest = omega (arith, length-append s (13 ∷ 10 ∷ rest))
  length-body (error_value s) rest = omega (arith, length-append s (13 ∷ 10 ∷ rest))
  length-body (bulk_value s) rest = omega (
    arith,
    length-append (decimal (length s)) (13 ∷ 10 ∷ (s ++ (13 ∷ 10 ∷ rest))),
    length-append s (13 ∷ 10 ∷ rest),
  )
  length-body (number n) rest = omega (arith, length-append (decimal n) (13 ∷ 10 ∷ rest))
  length-body (negative n) rest = omega (arith, length-append (decimal n) (13 ∷ 10 ∷ rest))
  length-body null_bulk rest = omega (arith, length-append (decimal 1) (13 ∷ 10 ∷ rest))
  length-body null_array rest = omega (arith, length-append (decimal 1) (13 ∷ 10 ∷ rest))
  length-body (array_value vs) rest = omega (
    arith,
    length-append (decimal (count vs)) (13 ∷ 10 ∷ encode_all vs rest),
    length-encode_all vs rest,
  )

  pub length-encode_all :
      (vs : Values) (rest : List ℕ) → length rest + 2 * count vs ≤ length (encode_all vs rest)
  length-encode_all no_values rest = omega arith
  length-encode_all (more_values v vs) rest =
      omega (arith, length-body v (encode_all vs rest), length-encode_all vs rest)

-- The rounds that the elements take, and some more.
abbrev pub rounds : Values → ℕ → ℕ
rounds no_values x = x
rounds (more_values v vs) x = suc (suc (rounds vs x))

pub rounds_lem : (vs : Values) (x : ℕ) → rounds vs x ≡ 2 * count vs + x
rounds_lem no_values x = omega arith
rounds_lem (more_values v vs) x = omega (arith, rounds_lem vs x)

-- What the loop of an array does with the elements that are left.
pub record Filled (c : Context) (vs : Values) (rest : List ℕ) (r : Node) (rs : Replies)
    (out : Outcome) : Type 0 where
  pub code : out.0 ≡ over
  pub valid : IsValid out.1.bb
  pub left : get_contiguous_block out.1.bb ≡ rest
  pub stack : out.1.stack ≡ c.stack
  pub node : Node
  pub kept : (node.type ≡ r.type) × (node.is_null ≡ r.is_null)
  pub added : Replies
  pub result : out.2 ≡ reply node (elements (join rs added))
  pub represent : RepresentAll added vs

-- The states of the builder of an array: before its length, and before an element.
abbrev pub row_builder : ReplyBuilder → ℕ → ReplyBuilder
row_builder b n = record b { store_len = 0; len = n; state = 2 }

module _ (fresh : ℕ → List ℕ) (fresh_length : (n : ℕ) → length (fresh n) ≡ n) where
  pub len-round :
      (nested : ℕ → Context → Reply → Outcome) (c : Context) (k : ℕ) (top : length c.stack ≡ k)
      (b : ReplyBuilder) (r : Node) (n : ℕ) (rest : List ℕ)
      → IsValid c.bb
      → get_contiguous_block c.bb ≡ decimal n ++ (13 ∷ 10 ∷ rest)
      → 0 < n
      → n < 2 ^ 31
      → b.state ≡ 0
      → array_states fresh nested k (with_top c b) (reply r null)
        ≡ (again, with_top (after_line c (decimal n)) (row_builder b n), reply r (elements nil))
  unfolding array_states build_array_len
  len-round nested c k top b r n rest v e pos small s =
      let m : ℕ = length (decimal n) + 2 in
      let top' : length (consume c m).stack ≡ k = ap length (stack-consume c m) ∙ top in
      ground (
        arith,
        builder-with_top c k top b,
        build_integer-line (with_top c b) (decimal n) rest v e (decimal-Lacks n (omega arith)),
        to_integer-decimal n (omega arith),
        consume-with_top c b m,
        builder-with_top (consume c m) k top' b,
        set_builder-with_top (consume c m) k top' b (row_builder b n),
      )

  pub null-round :
      (nested : ℕ → Context → Reply → Outcome) (c : Context) (k : ℕ) (top : length c.stack ≡ k)
      (b : ReplyBuilder) (r : Node) (rest : List ℕ)
      → IsValid c.bb
      → get_contiguous_block c.bb ≡ (b'-' ∷ decimal 1) ++ (13 ∷ 10 ∷ rest)
      → b.state ≡ 0
      → array_states fresh nested k (with_top c b) (reply r null) ≡ (
        over,
        with_top (after_line c (b'-' ∷ decimal 1)) b,
        reply (record r { is_null = true; elemtype = unknown }) null,
      )
  unfolding array_states build_array_len
  null-round nested c k top b r rest v e s =
      let line : List ℕ = b'-' ∷ decimal 1 in
      let m : ℕ = length line + 2 in
      ground (
        arith,
        builder-with_top c k top b,
        build_integer-line (with_top c b) line rest v e
            (omega arith, decimal-Lacks 1 (omega arith)),
        to_integer_negative 1 (omega arith) (omega arith),
        consume-with_top c b m,
      )

  -- A run of the builder of an array starts with a new builder on the stack.
  pub array-start :
      (g i : ℕ) (c : Context) (r : Reply)
      → length c.stack ≡ i + 1
      → (builder c i).depth ≡ i
      → i < 255
      → build_array fresh (suc g) i c r
        ≡ rrb_loop
            (get_committed_size c.bb + 2)
            (array_states fresh (build_array fresh g) (i + 1))
            (with_top c (new_builder (i + 1)))
            r
  unfolding build_array
  array-start g i c r top depth deep =
      count_eq
        (λ d.
          rrb_loop (get_committed_size c.bb + 2) (array_states fresh (build_array fresh g) d)
            (alloc_reply_builder c d) r)
        ((builder c i).depth + 1) (i + 1) (omega arith)
      ∙ ap
          (λ t.
            rrb_loop (get_committed_size c.bb + 2)
              (array_states fresh (build_array fresh g) (i + 1)) t r)
          (alloc-with_top c (i + 1) top (omega arith))
