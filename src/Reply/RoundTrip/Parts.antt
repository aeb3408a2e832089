-- ===== src/Reply/RoundTrip/Parts.antt =====
-- The parts of an array: its length, its last element, and the others.
use kj_cpp_redis.BipBuf.Content.{get_committed_size-length, length-block}
use kj_cpp_redis.BipBuf.Inv.{IsValid}
use kj_cpp_redis.BipBuf.{get_contiguous_block, get_committed_size}
use kj_cpp_redis.Reply.Array.{replies_length, push_reply, build_content, build_array, array_states}
use kj_cpp_redis.Reply.Builder.Loop.{with_top, pop-with_top, rrb_loop-again, rrb_loop-over}
use kj_cpp_redis.Reply.Builder.{Outcome, builder, consume, rrb_loop}
use kj_cpp_redis.Reply.Read.Decimal.{decimal}
use kj_cpp_redis.Reply.RoundTrip.Elements.{
  join-push, push-join, element_type-round, element-again, element-over, element_context,
}
use kj_cpp_redis.Reply.RoundTrip.Rounds.{new_builder}
use kj_cpp_redis.Reply.RoundTrip.Scalar.{Built, blank, after_line, after_line_lem, stack-consume}
use kj_cpp_redis.Reply.Spec.{
  Value, null_array, array_value, Values, no_values, more_values, lead, type_of, count, body,
  encode_all, Represents, RepresentAll,
}
use kj_cpp_redis.Reply.Types.{
  over, Context, ReplyBuilder, LeadingType, unknown, Node, empty_node, Reply, reply, null, elements,
  Replies, nil, cons,
}
use kj_cpp_redis.Prelude.{
  ℕ, suc, ◌+◌, ◌*◌, ◌-◌, ◌^◌, ◌≤◌, ◌<◌, ◌≡◌, ◌∙◌, ap, refl, sym, true, false, List, ◌∷◌, arith,
  length, length-append, count_eq, subst,
}
use kj_cpp_redis.Reply.RoundTrip.Row.{
  Filled, rounds, rounds_lem, row_builder, length-encode_all, len-round, null-round, array-start,
}

-- An array whose length and elements have been read stands for its values.
array-Represents :
    (n : Node) (ys : Replies) (vs : Values) (t : LeadingType)
    → n.type ≡ type_of (array_value vs)
    → n.is_null ≡ false
    → RepresentAll ys vs
    → Represents (reply n (elements ys)) (array_value vs)
unfolding Represents
array-Represents n ys vs t e h rep = (e, h, rep)

module _ (fresh : ℕ → List ℕ) (fresh_length : (n : ℕ) → length (fresh n) ≡ n) where
  pub null_array-Built :
      (g i : ℕ) (c : Context) (rest : List ℕ)
      → length c.stack ≡ i + 1
      → (builder c i).depth ≡ i
      → i < 255
      → IsValid c.bb
      → get_contiguous_block c.bb ≡ body null_array rest
      → Built c null_array rest (build_array fresh (suc g) i c (blank (type_of null_array)))
  unfolding body Represents
  null_array-Built g i c rest top depth deep v e =
      let line : List ℕ = b'-' ∷ decimal 1 in
      let b : ReplyBuilder = new_builder (i + 1) in
      let r : Node = record empty_node { type = type_of null_array } in
      let built : build_array fresh (suc g) i c (reply r null) ≡ (
        over,
        after_line c line,
        reply (record r { is_null = true; elemtype = unknown }) null,
      ) =
        array-start fresh fresh_length g i c (reply r null) top depth deep
        ∙ count_eq
            (λ f.
              rrb_loop f (array_states fresh (build_array fresh g) (i + 1)) (with_top c b)
                (reply r null))
            (get_committed_size c.bb + 2) (suc (get_committed_size c.bb + 1)) (omega arith)
        ∙ rrb_loop-over (array_states fresh (build_array fresh g) (i + 1))
            (get_committed_size c.bb + 1) _ _ _ _
            (null-round fresh fresh_length (build_array fresh g) c (i + 1) top b r rest v e refl)
        ∙ ap (λ t. (over, t, reply (record r { is_null = true; elemtype = unknown }) null))
            (pop-with_top (after_line c line) b) in
      ground (arith, built, after_line_lem c line rest v e, stack-consume c (length line + 2))

  pub array-Built :
      (g : ℕ) (vs : Values) (i : ℕ) (c : Context) (rest : List ℕ)
      → length c.stack ≡ i + 1
      → (builder c i).depth ≡ i
      → i < 255
      → 0 < count vs
      → count vs < 2 ^ 31
      → IsValid c.bb
      → get_contiguous_block c.bb ≡ body (array_value vs) rest
      → Filled
          (after_line c (decimal (count vs)))
          vs
          rest
          (record empty_node { type = type_of (array_value vs) })
          nil
          (rrb_loop
            (rounds vs (get_committed_size c.bb + 1 - 2 * count vs))
            (array_states fresh (build_array fresh g) (i + 1))
            (with_top
              (after_line c (decimal (count vs)))
              (row_builder (new_builder (i + 1)) (count vs)))
            (reply (record empty_node { type = type_of (array_value vs) }) (elements nil)))
      → Built c
          (array_value vs)
          rest
          (build_array fresh (suc g) i c (blank (type_of (array_value vs))))
  unfolding body
  array-Built g vs i c rest top depth deep some_v few v e done =
      let m : ℕ = count vs in
      let states : Context → Reply → Outcome = array_states fresh (build_array fresh g) (i + 1) in
      let b : ReplyBuilder = new_builder (i + 1) in
      let r : Node = record empty_node { type = type_of (array_value vs) } in
      let c1 : Context = after_line c (decimal m) in
      let size : 2 * m ≤ get_committed_size c.bb = omega (
        arith,
        get_committed_size-length v,
        length-block v,
        ap length e,
        length-append (decimal m) (13 ∷ 10 ∷ encode_all vs rest),
        length-encode_all vs rest,
      ) in
      let out : Outcome =
        rrb_loop (rounds vs (get_committed_size c.bb + 1 - 2 * m)) states
          (with_top c1 (row_builder b m)) (reply r (elements nil)) in
      let built : build_array fresh (suc g) i c (reply r null) ≡ out =
        array-start fresh fresh_length g i c (reply r null) top depth deep
        ∙ count_eq (λ f. rrb_loop f states (with_top c b) (reply r null))
            (get_committed_size c.bb + 2) (suc (rounds vs (get_committed_size c.bb + 1 - 2 * m)))
            (omega (arith, rounds_lem vs (get_committed_size c.bb + 1 - 2 * m)))
        ∙ rrb_loop-again states (rounds vs (get_committed_size c.bb + 1 - 2 * m)) _ _ _ _ (
            len-round fresh fresh_length (build_array fresh g) c (i + 1) top b r m
              (encode_all vs rest) v e some_v few refl) in
      subst (Built c (array_value vs) rest) (sym built) (record {
        code = done.code;
        valid = done.valid;
        left = done.left;
        stack = done.stack ∙ stack-consume c (length (decimal m) + 2);
        represents =
            subst (λ y. Represents y (array_value vs)) (sym done.result)
              (array-Represents done.node done.added vs (type_of (array_value vs)) (done.kept.0)
                (done.kept.1) done.represent);
      })

  -- The last element, which ends the array.
  pub last-Filled :
      (nested : ℕ → Context → Reply → Outcome) (v : Value) (x k : ℕ) (c : Context)
      (b : ReplyBuilder) (r : Node) (rs : Replies) (rest : List ℕ)
      → length c.stack ≡ k
      → b.state ≡ 2
      → b.arridx ≡ replies_length rs
      → b.len ≤ replies_length rs + 1
      → IsValid c.bb
      → get_contiguous_block c.bb ≡ lead v ∷ body v rest
      → Built (with_top (consume c 1) (record b { state = 3 })) v rest (
          build_content fresh nested
            (type_of v)
            k
            (with_top (consume c 1) (record b { state = 3 }))
            (blank (type_of v)))
      → Filled c (more_values v no_values) rest r rs (
          rrb_loop
            (rounds (more_values v no_values) x)
            (array_states fresh nested k)
            (with_top c b)
            (reply r (elements rs)))
  unfolding RepresentAll
  last-Filled nested v x k c b r rs rest top s j l valid e built =
      let b3 : ReplyBuilder = record b { state = 3 } in
      let c1 : Context = consume c 1 in
      let top1 : length c1.stack ≡ k = ap length (stack-consume c 1) ∙ top in
      let el : Outcome =
        build_content fresh nested (type_of v) k (with_top c1 b3) (blank (type_of v)) in
      let c2 : Context = element_context fresh nested c1 k top1 b3 r rs v rest in
      let r1 : Node = record r { elemtype = type_of v } in
      let run : rrb_loop (suc (suc x)) (array_states fresh nested k) (with_top c b)
            (reply r (elements rs))
          ≡ (over, c2, reply r1 (elements (push_reply rs (el.2)))) =
        rrb_loop-again (array_states fresh nested k) (suc x) _ _ _ _
          (element_type-round fresh nested c k top b r rs v (body v rest) valid e s)
        ∙ rrb_loop-over (array_states fresh nested k) x _ _ _ _
            (element-over fresh nested c1 k top1 b3 r1 rs v rest built refl j refl l)
        ∙ ap (λ t. (over, t, reply r1 (elements (push_reply rs (el.2)))))
            (pop-with_top c2 (record b3 { arridx = replies_length rs + 1 })) in
      subst (Filled c (more_values v no_values) rest r rs) (sym run) (record {
        code = refl;
        valid = built.valid;
        left = built.left;
        stack = stack-consume c 1;
        node = r1;
        kept = (refl, refl);
        added = cons (el.2) nil;
        result = ap (λ t. reply r1 (elements t)) (push-join rs (el.2));
        represent = (built.represents, tt);
      })

  -- An element that is not the last one.
  pub next-Filled :
      (nested : ℕ → Context → Reply → Outcome) (v : Value) (us : Values) (x k : ℕ) (c : Context)
      (b : ReplyBuilder) (r : Node) (rs : Replies) (rest : List ℕ) (top : length c.stack ≡ k)
      → b.state ≡ 2
      → b.arridx ≡ replies_length rs
      → replies_length rs + 2 ≤ b.len
      → IsValid c.bb
      → get_contiguous_block c.bb ≡ lead v ∷ body v (encode_all us rest)
      → let b3 : ReplyBuilder = record b { state = 3 } in
        let c1 : Context = consume c 1 in
        let top1 : length c1.stack ≡ k = ap length (stack-consume c 1) ∙ top in
        let el : Outcome =
          build_content fresh nested (type_of v) k (with_top c1 b3) (blank (type_of v)) in
        Built (with_top c1 b3) v (encode_all us rest) el
        → Filled
            (record (el.1) { stack = c1.stack })
            us
            rest
            (record r { elemtype = type_of v })
            (push_reply rs (el.2))
            (rrb_loop
              (rounds us x)
              (array_states fresh nested k)
              (with_top
                (record (el.1) { stack = c1.stack })
                (record b3 { arridx = replies_length rs + 1; state = 2 }))
              (reply (record r { elemtype = type_of v }) (elements (push_reply rs (el.2)))))
        → Filled c (more_values v us) rest r rs (
            rrb_loop
              (rounds (more_values v us) x)
              (array_states fresh nested k)
              (with_top c b)
              (reply r (elements rs)))
  unfolding RepresentAll
  next-Filled nested v us x k c b r rs rest top s j l valid e built others =
      let b3 : ReplyBuilder = record b { state = 3 } in
      let c1 : Context = consume c 1 in
      let top1 : length c1.stack ≡ k = ap length (stack-consume c 1) ∙ top in
      let el : Outcome =
        build_content fresh nested (type_of v) k (with_top c1 b3) (blank (type_of v)) in
      let r1 : Node = record r { elemtype = type_of v } in
      subst (Filled c (more_values v us) rest r rs)
        (sym (
          rrb_loop-again (array_states fresh nested k) (suc (rounds us x)) _ _ _ _ (
            element_type-round fresh nested c k top b r rs v (body v (encode_all us rest)) valid e
              s)
          ∙ rrb_loop-again (array_states fresh nested k) (rounds us x) _ _ _ _ (
              element-again fresh nested c1 k top1 b3 r1 rs v (encode_all us rest) built refl j refl
                l)))
        (record {
          code = others.code;
          valid = others.valid;
          left = others.left;
          stack = others.stack ∙ stack-consume c 1;
          node = others.node;
          kept = others.kept;
          added = cons (el.2) others.added;
          result =
              others.result
              ∙ ap (λ t. reply others.node (elements t)) (join-push rs (el.2) others.added);
          represent = (built.represents, others.represent);
        })
