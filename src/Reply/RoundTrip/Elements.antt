-- ===== src/Reply/RoundTrip/Elements.antt =====
-- The two rounds that an element of an array takes.
use kj_cpp_redis.BipBuf.Content.{get_committed_size-length}
use kj_cpp_redis.BipBuf.Inv.{IsValid}
use kj_cpp_redis.BipBuf.{get_contiguous_block}
use kj_cpp_redis.Reply.Array.{
  replies_at, set_reply, push_reply, replies_length, element_at, after_element, build_content,
  build_array_element, build_array_element_type, array_states, node_type,
}
use kj_cpp_redis.Reply.Builder.Loop.{
  with_top, builder-with_top, set_builder-with_top, consume-with_top,
}
use kj_cpp_redis.Reply.Builder.{Outcome, consume}
use kj_cpp_redis.Reply.Read.{read_leading, leading_type}
use kj_cpp_redis.Reply.RoundTrip.Scalar.{Built, blank, stack-consume}
use kj_cpp_redis.Reply.Spec.{
  Value, text_value, error_value, bulk_value, number, negative, null_bulk, null_array, array_value,
  lead, type_of,
}
use kj_cpp_redis.Reply.Types.{
  over, again, Context, ReplyBuilder, LeadingType, Node, Reply, reply, elements, Replies, nil, cons,
}
use kj_cpp_redis.Prelude.{
  ℕ, ◌+◌, ◌≤◌, ◌≡◌, ◌∙◌, ap, ap₂, refl, none, some, List, ◌∷◌, arith, length,
}

pub leading_type-lead : (v : Value) → leading_type (lead v) ≡ some (type_of v)
unfolding leading_type
leading_type-lead (text_value s) = refl
leading_type-lead (error_value s) = refl
leading_type-lead (bulk_value s) = refl
leading_type-lead (number n) = refl
leading_type-lead (negative n) = refl
leading_type-lead null_bulk = refl
leading_type-lead null_array = refl
leading_type-lead (array_value vs) = refl

pub read_leading-cons :
    (c : Context) (x : ℕ) (rest : List ℕ)
    → IsValid c.bb
    → get_contiguous_block c.bb ≡ x ∷ rest
    → read_leading c.bb ≡ some x
unfolding read_leading
read_leading-cons c x rest v e = ground (arith, get_committed_size-length v)

-- Elements in a row.
abbrev pub join : Replies → Replies → Replies
join nil ys = ys
join (cons x xs) ys = cons x (join xs ys)

pub join-push :
    (xs : Replies) (y : Reply) (ys : Replies) → join (push_reply xs y) ys ≡ join xs (cons y ys)
unfolding push_reply
join-push nil y ys = refl
join-push (cons x xs) y ys = ap (cons x) (join-push xs y ys)

pub push-join : (xs : Replies) (y : Reply) → push_reply xs y ≡ join xs (cons y nil)
unfolding push_reply
push-join nil y = refl
push-join (cons x xs) y = ap (cons x) (push-join xs y)

pub replies_length-push :
    (xs : Replies) (y : Reply) → replies_length (push_reply xs y) ≡ replies_length xs + 1
unfolding push_reply replies_length
replies_length-push nil y = omega arith
replies_length-push (cons x xs) y = omega (arith, replies_length-push xs y)

replies_at_end : (xs : Replies) → replies_at xs (replies_length xs) ≡ none
unfolding replies_at replies_length
replies_at_end nil = refl
replies_at_end (cons x xs) = replies_at_end xs

set_reply_end :
    (xs : Replies) (y v : Reply)
    → set_reply (push_reply xs y) (replies_length xs) v ≡ push_reply xs v
unfolding set_reply push_reply replies_length
set_reply_end nil y v = refl
set_reply_end (cons x xs) y v = ap (cons x) (set_reply_end xs y v)

element_at_end :
    (rs : Replies) (j : ℕ) (t : LeadingType)
    → j ≡ replies_length rs
    → element_at rs j t ≡ (push_reply rs (blank t), blank t)
unfolding element_at
element_at_end rs j t e = ground (arith, replies_at_end rs)

module _ (fresh : ℕ → List ℕ) (nested : ℕ → Context → Reply → Outcome) (c : Context) (k : ℕ)
    (top : length c.stack ≡ k) (b : ReplyBuilder) (r : Node) (rs : Replies) (v : Value)
    (rest : List ℕ) where
  -- The leading byte of the element.
  pub element_type-round :
      IsValid c.bb
      → get_contiguous_block c.bb ≡ lead v ∷ rest
      → b.state ≡ 2
      → array_states fresh nested k (with_top c b) (reply r (elements rs)) ≡ (
        again,
        with_top (consume c 1) (record b { state = 3 }),
        reply (record r { elemtype = type_of v }) (elements rs),
      )
  unfolding array_states build_array_element_type
  element_type-round valid e s =
      let top' : length (consume c 1).stack ≡ k = ap length (stack-consume c 1) ∙ top in
      ground (
        arith,
        builder-with_top c k top b,
        read_leading-cons (with_top c b) (lead v) rest valid e,
        leading_type-lead v,
        consume-with_top c b 1,
        builder-with_top (consume c 1) k top' b,
        set_builder-with_top (consume c 1) k top' b (record b { state = 3 }),
      )

  abbrev element_outcome : Outcome
  element_outcome = build_content fresh nested (type_of v) k (with_top c b) (blank (type_of v))

  -- What the builder of the element leaves, without the builder of the array.
  abbrev pub element_context : Context
  element_context = record (element_outcome.1) { stack = c.stack }

  context_eq :
      Built (with_top c b) v rest element_outcome → element_outcome.1 ≡ with_top element_context b
  context_eq built =
      ap (λ (t : List ReplyBuilder). record (element_outcome.1) { stack = t }) built.stack

  outcome_eq :
      Built (with_top c b) v rest element_outcome
      → element_outcome ≡ (over, with_top element_context b, element_outcome.2)
  outcome_eq built = ap₂ (λ x y. (x, y, element_outcome.2)) built.code (context_eq built)

  -- The round of an element, by the index and by the element under it.
  abbrev round_with : ℕ → Replies × Reply → Outcome
  round_with arridx p =
      after_element k r (p.0) arridx
        (build_content fresh nested (node_type (p.1)) k (with_top c b) (p.1))

  abbrev round_at : ℕ → Outcome
  round_at arridx = round_with arridx (element_at rs arridx r.elemtype)

  build_array_element-end :
      Built (with_top c b) v rest element_outcome
      → b.arridx ≡ replies_length rs
      → r.elemtype ≡ type_of v
      → build_array_element fresh nested k (with_top c b) (reply r (elements rs))
        ≡ after_element k r
            (push_reply rs (blank (type_of v)))
            (replies_length rs)
            (over, with_top element_context b, element_outcome.2)
  unfolding build_array_element
  build_array_element-end built j t =
      ap round_at (ap (λ (x : ReplyBuilder). x.arridx) (builder-with_top c k top b) ∙ j)
      ∙ ap (round_with (replies_length rs)) (
          element_at_end rs (replies_length rs) r.elemtype refl
          ∙ ap (λ y. (push_reply rs (blank y), blank y)) t)
      ∙ ap (after_element k r (push_reply rs (blank (type_of v))) (replies_length rs))
          (outcome_eq built)

  element_round :
      Built (with_top c b) v rest element_outcome
      → b.state ≡ 3
      → b.arridx ≡ replies_length rs
      → r.elemtype ≡ type_of v
      → array_states fresh nested k (with_top c b) (reply r (elements rs))
        ≡ after_element k r
            (push_reply rs (blank (type_of v)))
            (replies_length rs)
            (over, with_top element_context b, element_outcome.2)
  unfolding array_states
  element_round built s j t =
      ground (arith, builder-with_top c k top b) ∙ build_array_element-end built j t

  -- Behind the last byte of the element the array either goes on or is complete.
  pub element-again :
      Built (with_top c b) v rest element_outcome
      → b.state ≡ 3
      → b.arridx ≡ replies_length rs
      → r.elemtype ≡ type_of v
      → replies_length rs + 2 ≤ b.len
      → array_states fresh nested k (with_top c b) (reply r (elements rs)) ≡ (
        again,
        with_top element_context (record b { arridx = replies_length rs + 1; state = 2 }),
        reply r (elements (push_reply rs (element_outcome.2))),
      )
  unfolding after_element
  element-again built s j t more =
      element_round built s j t
      ∙ ground (
        arith,
        set_reply_end rs (blank (type_of v)) (element_outcome.2),
        builder-with_top element_context k top b,
        set_builder-with_top element_context k top b (record b { arridx = replies_length rs + 1 }),
        builder-with_top element_context k top (record b { arridx = replies_length rs + 1 }),
        set_builder-with_top element_context k top (record b { arridx = replies_length rs + 1 })
            (record b { arridx = replies_length rs + 1; state = 2 }),
      )

  pub element-over :
      Built (with_top c b) v rest element_outcome
      → b.state ≡ 3
      → b.arridx ≡ replies_length rs
      → r.elemtype ≡ type_of v
      → b.len ≤ replies_length rs + 1
      → array_states fresh nested k (with_top c b) (reply r (elements rs)) ≡ (
        over,
        with_top element_context (record b { arridx = replies_length rs + 1 }),
        reply r (elements (push_reply rs (element_outcome.2))),
      )
  unfolding after_element
  element-over built s j t last =
      element_round built s j t
      ∙ ground (
        arith,
        set_reply_end rs (blank (type_of v)) (element_outcome.2),
        builder-with_top element_context k top b,
        set_builder-with_top element_context k top b (record b { arridx = replies_length rs + 1 }),
      )
