-- ===== src/Reply/RoundTrip/Arrays.antt =====
-- Values that are in the buffer whole, arrays that nest included.
use kj_cpp_redis.BipBuf.Inv.{IsValid}
use kj_cpp_redis.BipBuf.{get_contiguous_block, get_committed_size}
use kj_cpp_redis.Reply.Array.{replies_length, build_content, build_array, array_states}
use kj_cpp_redis.Reply.Builder.Loop.{with_top, builder-with_top, consume-block}
use kj_cpp_redis.Reply.Builder.{builder, consume, rrb_loop}
use kj_cpp_redis.Reply.Read.Decimal.{decimal}
use kj_cpp_redis.Reply.RoundTrip.Elements.{replies_length-push}
use kj_cpp_redis.Reply.RoundTrip.Lines.{text-Built, error-Built}
use kj_cpp_redis.Reply.RoundTrip.Rounds.{new_builder}
use kj_cpp_redis.Reply.RoundTrip.Scalar.{
  Built, blank, after_line, after_line_lem, stack-consume, number-Built, negative-Built,
}
use kj_cpp_redis.Reply.RoundTrip.Strings.{bulk-Built, null_bulk-Built}
use kj_cpp_redis.Reply.Spec.{
  Value, text_value, error_value, bulk_value, number, negative, null_bulk, null_array, array_value,
  Values, no_values, more_values, lead, type_of, count, body, encode_all, IsWritable, AreWritable,
  nesting, nesting_all, RepresentAll,
}
use kj_cpp_redis.Reply.Types.{
  Context, ReplyBuilder, Node, empty_node, reply, elements, Replies, nil,
}
use kj_cpp_redis.Prelude.{
  ℕ, zero, suc, ◌+◌, ◌*◌, ◌-◌, ◌≤◌, ◌<◌, ◌≡◌, ◌∙◌, ap, refl, sym, List, [], ◌∷◌, arith, length,
  length-append,
}
use kj_cpp_redis.Reply.RoundTrip.Row.{Filled, rounds, row_builder}
use kj_cpp_redis.Reply.RoundTrip.Parts.{null_array-Built, array-Built, last-Filled, next-Filled}

module _ (fresh : ℕ → List ℕ) (fresh_length : (n : ℕ) → length (fresh n) ≡ n) where
  mutual
    unfolding body encode_all IsWritable AreWritable nesting nesting_all RepresentAll build_content
        replies_length

    pub content-Built :
        (g : ℕ) (v : Value) (i : ℕ) (c : Context) (rest : List ℕ)
        → IsWritable v
        → nesting v ≤ g
        → length c.stack ≡ i + 1
        → (builder c i).depth ≡ i
        → i + nesting v < 255
        → IsValid c.bb
        → get_contiguous_block c.bb ≡ body v rest
        → Built c v rest
            (build_content fresh (build_array fresh g) (type_of v) i c (blank (type_of v)))
    content-Built g (text_value s) i c rest w n top depth deep v e =
        text-Built fresh fresh_length i c s rest top depth (omega arith) v e (w.0) (w.1)
    content-Built g (error_value s) i c rest w n top depth deep v e =
        error-Built fresh fresh_length i c s rest top depth (omega arith) v e (w.0) (w.1)
    content-Built g (bulk_value s) i c rest w n top depth deep v e =
        bulk-Built fresh fresh_length i c s rest top depth (omega arith) w v e
    content-Built g (number m) i c rest w n top depth deep v e = number-Built c m rest w v e
    content-Built g (negative m) i c rest w n top depth deep v e =
        negative-Built c m rest (w.0) (w.1) v e
    content-Built g null_bulk i c rest w n top depth deep v e =
        null_bulk-Built fresh fresh_length i c rest top depth (omega arith) v e
    content-Built zero null_array i c rest w n top depth deep v e = absurd (omega arith)
    content-Built (suc g) null_array i c rest w n top depth deep v e =
        null_array-Built fresh fresh_length g i c rest top depth (omega arith) v e
    content-Built zero (array_value vs) i c rest w n top depth deep v e = absurd (omega arith)
    content-Built (suc g) (array_value vs) i c rest w n top depth deep v e =
        let k : ℕ = i + 1 in
        let m : ℕ = count vs in
        let c1 : Context = after_line c (decimal m) in
        let (v1, e1) = after_line_lem c (decimal m) (encode_all vs rest) v e in
        let top1 : length c1.stack ≡ k =
          ap length (stack-consume c (length (decimal m) + 2)) ∙ top in
        array-Built fresh fresh_length g vs i c rest top depth (omega arith) (w.0) (w.1) v e (
          elements-Filled g vs (get_committed_size c.bb + 1 - 2 * m) k c1
            (row_builder (new_builder k) m) (record empty_node { type = type_of (array_value vs) })
            nil rest (w.0) (w.2) (omega arith) top1 refl (omega arith) refl refl (omega arith) v1
            e1)

    elements-Filled :
        (g : ℕ) (vs : Values) (x k : ℕ) (c : Context) (b : ReplyBuilder) (r : Node) (rs : Replies)
        (rest : List ℕ)
        → 0 < count vs
        → AreWritable vs
        → nesting_all vs ≤ g
        → length c.stack ≡ k
        → b.depth ≡ k
        → k + nesting_all vs < 255
        → b.state ≡ 2
        → b.arridx ≡ replies_length rs
        → b.len ≡ replies_length rs + count vs
        → IsValid c.bb
        → get_contiguous_block c.bb ≡ encode_all vs rest
        → Filled c vs rest r rs (
            rrb_loop
              (rounds vs x)
              (array_states fresh (build_array fresh g) k)
              (with_top c b)
              (reply r (elements rs)))
    elements-Filled g no_values x k c b r rs rest some_v w n top depth deep s j l valid e =
        absurd (omega arith)
    elements-Filled g (more_values v no_values) x k c b r rs rest some_v w n top depth deep s j l
          valid e =
        let (v1, e1) = consume-block c (lead v ∷ []) (body v rest) valid e in
        let top1 : length (consume c 1).stack ≡ k = ap length (stack-consume c 1) ∙ top in
        last-Filled fresh fresh_length (build_array fresh g) v x k c b r rs rest top s j
          (omega arith) valid e
          (content-Built g v k (with_top (consume c 1) (record b { state = 3 })) rest (w.0)
            (omega arith)
            (omega (arith, length-append (consume c 1).stack (record b { state = 3 } ∷ [])))
            (ap (λ (t : ReplyBuilder). t.depth)
                (builder-with_top (consume c 1) k top1 (record b { state = 3 }))
              ∙ depth)
            (omega arith) v1 e1)
    elements-Filled g (more_values v (more_values u us)) x k c b r rs rest some_v w n top depth deep
          s j l valid e =
        let (v1, e1) =
          consume-block c (lead v ∷ []) (body v (encode_all (more_values u us) rest)) valid e in
        let top1 : length (consume c 1).stack ≡ k = ap length (stack-consume c 1) ∙ top in
        let built =
          content-Built g v k (with_top (consume c 1) (record b { state = 3 }))
            (encode_all (more_values u us) rest) (w.0) (omega arith)
            (omega (arith, length-append (consume c 1).stack (record b { state = 3 } ∷ [])))
            (ap (λ (t : ReplyBuilder). t.depth)
                (builder-with_top (consume c 1) k top1 (record b { state = 3 }))
              ∙ depth)
            (omega arith) v1 e1 in
        next-Filled fresh fresh_length (build_array fresh g) v (more_values u us) x k c b r rs rest
          top s j (omega arith) valid e built
          (elements-Filled g (more_values u us) x k _ _ _ _ rest (omega arith) (w.1) (omega arith)
            top1 depth (omega arith) refl (sym (replies_length-push rs _))
            (omega (arith, replies_length-push rs _)) built.valid built.left)
