-- ===== src/Reply/Array.antt =====
-- src/base/reply_parser/r_build_array.c: arrays, whose elements may be arrays again.
use kj_cpp_redis.BipBuf.{get_committed_size}
use kj_cpp_redis.Reply.Types.{
  over, again, premature, invalid_leading_char, invalid_state, stuck, Context, LeadingType, unknown,
  simple_string, error_string, integer, bulk_string, array, Node, empty_node, Reply, reply,
  Elements, null, elements, Replies, nil, cons,
}
use kj_cpp_redis.Reply.Builder.{
  Outcome, consume, builder, set_builder, set_state, alloc_reply_builder, rrb_loop,
}
use kj_cpp_redis.Reply.Read.{build_integer, read_leading, leading_type}
use kj_cpp_redis.Reply.Text.{build_simple_string, build_bulk_string}
use kj_cpp_redis.Prelude.{
  ℕ, zero, suc, ◌+◌, ◌%◌, ◌^◌, ◌&&◌, ◌||◌, Option, none, some, List, ltb, leb, ◌==◌, if◌then◌else◌,
}

-- `nx_array_at(r->arrval, index)`; NULL is `none`.
unfoldable pub replies_at : Replies → ℕ → Option Reply
replies_at nil i = none
replies_at (cons r rs) zero = some r
replies_at (cons r rs) (suc i) = replies_at rs i

unfoldable pub set_reply : Replies → ℕ → Reply → Replies
set_reply nil i v = nil
set_reply (cons r rs) zero v = cons v rs
set_reply (cons r rs) (suc i) v = cons r (set_reply rs i v)

-- `nx_array_push`
unfoldable pub push_reply : Replies → Reply → Replies
push_reply nil v = cons v nil
push_reply (cons r rs) v = cons r (push_reply rs v)

unfoldable pub replies_length : Replies → ℕ
replies_length nil = 0
replies_length (cons r rs) = suc (replies_length rs)

-- `r->elemtype`, and the elements of `r->arrval`.
abbrev pub items : Elements → Replies
items null = nil
items (elements rs) = rs

abbrev pub node_type : Reply → LeadingType
node_type (reply n a) = n.type

-- `__build_array_len`; `i` is the builder `rrb`.
unfoldable pub build_array_len : ℕ → Context → Reply → Outcome
build_array_len i c (reply r arrval) =
    let (rc, c', len) = build_integer c in
    elim rc [
      | over ↦
          if ltb 0 len && ltb len (2 ^ 63)
          then (
            again,
            set_builder c' i
                (record (builder c' i) { store_len = 0; len = len % 2 ^ 32; state = 2 }),
            reply r (elements nil),
          )
          else (over, c', reply (record r { is_null = leb (2 ^ 63) len; elemtype = unknown }) null)
      | other ↦ (other, c', reply r arrval)
    ]

-- `__build_array_element_type`
unfoldable pub build_array_element_type : ℕ → Context → Reply → Outcome
build_array_element_type i c (reply r arrval) = elim (read_leading c.bb) [
  | none ↦ (premature, c, reply r arrval)
  | some leading ↦ elim (leading_type leading) [
    | none ↦ (invalid_leading_char, c, reply r arrval)
    | some type ↦ (again, set_state (consume c 1) i 3, reply (record r { elemtype = type }) arrval)
  ]
]

-- The element under `rrb->arridx`, which is pushed if it is not there yet.
unfoldable pub element_at : Replies → ℕ → LeadingType → Replies × Reply
element_at rs arridx elemtype =
    let fresh = reply (record empty_node { type = elemtype }) null in
    elim (replies_at rs arridx) [ some r2 ↦ (rs, r2) | none ↦ (push_reply rs fresh, fresh) ]

-- What `__build_array_element` does when the builder of the element returns.
unfoldable pub after_element : ℕ → Node → Replies → ℕ → Outcome → Outcome
after_element i r rs arridx (rc, c, r2) =
    let done = reply r (elements (set_reply rs arridx r2)) in
    let c' = set_builder c i (record (builder c i) { arridx = arridx + 1 }) in
    elim rc [
      | over ↦
          if leb (arridx + 1 + 1) (builder c i).len
          then (again, set_state c' i 2, done)
          else (over, c', done)
      | other ↦ (other, c, done)
    ]

-- `r_build_integer(rrp, rrb, bb, &r->intval)`
unfoldable pub build_integer_reply : Context → Reply → Outcome
build_integer_reply c (reply r arrval) =
    let (rc, c', intval) = build_integer c in
    elim rc [
      | over ↦ (over, c', reply (record r { intval = intval }) arrval)
      | other ↦ (other, c', reply r arrval)
    ]

module _ (fresh : ℕ → List ℕ) where
  -- The `switch (r2->type)`, which is that of `__build_reply_content` too. `nested` is `r_build_array`.
  unfoldable pub build_content :
      (ℕ → Context → Reply → Outcome) → LeadingType → ℕ → Context → Reply → Outcome
  build_content nested simple_string i c r = build_simple_string fresh i c r
  build_content nested error_string i c r = build_simple_string fresh i c r
  build_content nested integer i c r = build_integer_reply c r
  build_content nested bulk_string i c r = build_bulk_string fresh i c r
  build_content nested array i c r = nested i c r
  build_content nested unknown i c r = (invalid_leading_char, c, r)

  -- `__build_array_element`
  unfoldable pub build_array_element :
      (ℕ → Context → Reply → Outcome) → ℕ → Context → Reply → Outcome
  build_array_element nested i c (reply r arrval) =
      let arridx = (builder c i).arridx in
      let (rs, r2) = element_at (items arrval) arridx r.elemtype in
      after_element i r rs arridx (build_content nested (node_type r2) i c r2)

  -- The `switch` of the loop.
  unfoldable pub array_states : (ℕ → Context → Reply → Outcome) → ℕ → Context → Reply → Outcome
  array_states nested i c r =
      let s = (builder c i).state in
      if s == 0 || s == 1
      then build_array_len i c r
      else if s == 2
      then build_array_element_type i c r
      else if s == 3
      then build_array_element nested i c r
      else (invalid_state, c, r)

  -- `r_build_array`. The first argument bounds how deep arrays nest. Each round of the loop consumes a
  -- byte or ends the loop, so the bytes that there are bound the rounds.
  unfoldable pub build_array : ℕ → ℕ → Context → Reply → Outcome
  build_array zero i c r = (stuck, c, r)
  build_array (suc fuel) i c r =
      let depth = (builder c i).depth + 1 in
      rrb_loop (get_committed_size c.bb + 2) (array_states (build_array fuel) depth)
        (alloc_reply_builder c depth) r
