-- ===== src/Reply/Text.antt =====
-- src/base/reply_parser/r_build_simple_string.c and r_build_bulk_string.c: the two string builders.
-- The reply that they fill is a `Node` here, since they leave `arrval` alone.
pub mod Bulk
pub mod Frame
use kj_cpp_redis.BipBuf.{BipBuf, get_committed_size, get_contiguous_block, find_str}
use kj_cpp_redis.NxBuf.{Buf, buf_size, free_space, text, create_temp_buf}
use kj_cpp_redis.Strstr.Crlf.{crlf}
use kj_cpp_redis.Reply.Types.{
  Code, over, again, premature, invalid_state, invalid_bulk_string, stuck, Context, Node, Reply,
  reply,
}
use kj_cpp_redis.Reply.Builder.{
  Outcome, consume, builder, set_builder, alloc_reply_builder, rrb_loop,
}
use kj_cpp_redis.Reply.Read.{build_integer}
use kj_cpp_redis.Prelude.{
  ℕ, zero, suc, ◌+◌, ◌-◌, ◌*◌, ◌%◌, ◌^◌, Bool, true, false, ◌&&◌, ◌||◌, Option, none, some, List,
  [], ◌∷◌, ◌++◌, ltb, ◌==◌, if◌then◌else◌, length, take, get_or, window, overwrite, add_size,
  sub_size, add_u32,
}

-- `r->vall_tail->buf`
unfoldable pub tail_buf : List Buf → Option Buf
tail_buf [] = none
tail_buf (b ∷ []) = some b
tail_buf (b ∷ b' ∷ bs) = tail_buf (b' ∷ bs)

unfoldable pub set_tail_buf : List Buf → Buf → List Buf
set_tail_buf [] v = []
set_tail_buf (b ∷ []) v = v ∷ []
set_tail_buf (b ∷ b' ∷ bs) v = b ∷ set_tail_buf (b' ∷ bs) v

-- `redis_reply_as_string`: the text of each link in turn.
unfoldable pub as_string : List Buf → List ℕ
as_string [] = []
as_string (b ∷ bs) = text b ++ as_string bs

abbrev pub simple_string_temp_buff_size : ℕ
simple_string_temp_buff_size = 4096

-- What the `while (remain_size > 0)` loop changes.
pub record Append : Type 0 where
  pub vall : List Buf
  pub store_len : ℕ
  pub len : ℕ

-- How many bytes `__build_simple_string_plain` consumes and appends, and whether it has reached the
-- end of the string, from the input `p1` and the result of the search for "\r\n".
unfoldable pub simple_string_extent : List ℕ → Option (List ℕ) → ℕ × ℕ × Bool
simple_string_extent p1 p2 = elim p2 [
  | none ↦
      let size = length p1 in
      let kept = if get_or p1 (size - 1) 0 == 13 then size - 1 else size in (kept, kept, false)
  | some rest ↦
      let consume_size = add_size (sub_size (length p1) (length rest)) 2 in
      (consume_size, sub_size consume_size 2, true)
]

-- `memcpy(b->pos, p1, append_size); b->last += append_size;`
unfoldable pub append_at_pos : Buf → List ℕ → ℕ → Buf
append_at_pos b p1 append_size = record b {
  memory = overwrite b.memory b.pos (take append_size p1);
  last = add_size b.last append_size;
}

-- The part of `__build_bulk_string_plain` behind the copy, at the tail buffer `b`.
unfoldable pub finish_bulk_string : ℕ → Context → Node → Buf → ℕ → Bool → Code × Context × Node
unfolding set_tail_buf
finish_bulk_string i c r b consume_size complete =
    let ends_well =
      get_or b.memory (sub_size b.last 2) 0 == 13 && get_or b.memory (sub_size b.last 1) 0 == 10 in
    let trimmed = record b { last = sub_size b.last 2 } in
    if complete
    then (if ends_well
        then (
          over,
          consume c consume_size,
          record r { vall = set_tail_buf r.vall trimmed; bytes = (builder c i).store_len },
        )
        else (invalid_bulk_string, c, record r { vall = set_tail_buf r.vall b }))
    else (premature, consume c consume_size, record r { vall = set_tail_buf r.vall b })

-- `__build_bulk_string_plain`
unfoldable pub build_bulk_string_plain : ℕ → Context → Node → Code × Context × Node
unfolding finish_bulk_string tail_buf
build_bulk_string_plain i c r =
    let available = get_committed_size c.bb in
    let p1 = get_contiguous_block c.bb in
    elim (tail_buf r.vall) [
      | none ↦ (stuck, c, r)
      | some b ↦
          let want_size = sub_size (add_u32 (builder c i).store_len 2) (buf_size b) in
          let consume_size = if ltb available want_size then available else want_size in
          let b' = record b {
            memory = overwrite b.memory b.last (take consume_size p1);
            last = add_size b.last consume_size;
          } in
          finish_bulk_string i c r b' consume_size (consume_size == want_size)
    ]

-- The `switch` of the two loops: the states 0 and 1, the state 2, and any other.
unfoldable pub two_states :
    (Context → Node → Code × Context × Node)
    → (Context → Node → Code × Context × Node)
    → ℕ
    → Context
    → Reply
    → Outcome
two_states first second i c (reply r arrval) =
    let s = (builder c i).state in
    let (rc, c', r') =
      if s == 0 || s == 1
      then first c r
      else if s == 2
      then second c r
      else (invalid_state, c, r) in
    (rc, c', reply r' arrval)

module _ (fresh : ℕ → List ℕ) where
  -- `alloc_simple_string_buf_chain_link` and `nx_create_temp_buf`: a new last link.
  unfoldable pub alloc_link : List Buf → ℕ → List Buf
  alloc_link vall size = vall ++ (create_temp_buf fresh size ∷ [])

  -- The loop, with fuel; `none` is a missing tail or no fuel left.
  unfoldable pub append_loop : ℕ → List ℕ → ℕ → Append → Option Append
  unfolding append_at_pos alloc_link tail_buf set_tail_buf
  append_loop zero p1 remain_size a = if remain_size == 0 then some a else none
  append_loop (suc fuel) p1 remain_size a = elim (tail_buf a.vall) [
    | none ↦ if remain_size == 0 then some a else none
    | some b ↦
        let append_size = if ltb (free_space b) remain_size then free_space b else remain_size in
        let grown = append_loop fuel p1 remain_size (record a {
          vall = alloc_link a.vall simple_string_temp_buff_size;
          len = add_u32 a.len 1;
        }) in
        let appended = append_loop fuel p1 (remain_size - append_size) (record a {
          vall = set_tail_buf a.vall (append_at_pos b p1 append_size);
          store_len = add_u32 a.store_len append_size;
        }) in
        if remain_size == 0 then some a else if append_size == 0 then grown else appended
  ]

  -- `__build_simple_string_init`; `i` is the builder `rrb`.
  unfoldable pub build_simple_string_init : ℕ → Context → Node → Code × Context × Node
  build_simple_string_init i c r = (
    again,
    set_builder c i (record (builder c i) { store_len = 0; len = 1; state = 2 }),
    record r { vall = alloc_link r.vall simple_string_temp_buff_size },
  )

  -- `__build_simple_string_plain`. Behind a lone '\r' at the end of the input one byte is left.
  unfoldable pub build_simple_string_plain : ℕ → Context → Node → Code × Context × Node
  build_simple_string_plain i c r =
      let buf_size = get_committed_size c.bb in
      let p1 = get_contiguous_block c.bb in
      let (consume_size, remain_size, reply_ok) = simple_string_extent p1 (find_str c.bb crlf) in
      if ltb buf_size 2
      then (premature, c, r)
      else elim (append_loop (2 * remain_size + 1) p1 remain_size (record {
        vall = r.vall;
        store_len = (builder c i).store_len;
        len = (builder c i).len;
      })) [
        | none ↦ (stuck, c, r)
        | some a ↦
            let c' =
              consume
                (set_builder c i (record (builder c i) { store_len = a.store_len; len = a.len }))
                consume_size in
            if reply_ok
            then (over, c', record r { vall = a.vall; bytes = a.store_len })
            else (premature, c', record r { vall = a.vall })
      ]

  -- `__build_bulk_string_store_len`
  unfoldable pub build_bulk_string_store_len : ℕ → Context → Node → Code × Context × Node
  build_bulk_string_store_len i c r =
      let (rc, c', len) = build_integer c in
      let store_len = len % 2 ^ 32 in
      elim rc [
        | over ↦
            if ltb len (2 ^ 63)
            then (
              again,
              set_builder c' i
                  (record (builder c' i) { store_len = store_len; len = 1; state = 2 }),
              record r { vall = alloc_link r.vall (add_u32 store_len 3) },
            )
            else (over, c', record r { is_null = true; bytes = 0 })
        | other ↦ (other, c', r)
      ]

  -- `r_build_simple_string`: the sub-builder stands one deeper than `rrb`. Two rounds are enough.
  unfoldable pub build_simple_string : ℕ → Context → Reply → Outcome
  build_simple_string i c r =
      let depth = (builder c i).depth + 1 in
      rrb_loop 2
        (two_states (build_simple_string_init depth) (build_simple_string_plain depth) depth)
        (alloc_reply_builder c depth) r

  -- `r_build_bulk_string`
  unfoldable pub build_bulk_string : ℕ → Context → Reply → Outcome
  build_bulk_string i c r =
      let depth = (builder c i).depth + 1 in
      rrb_loop 2
        (two_states (build_bulk_string_store_len depth) (build_bulk_string_plain depth) depth)
        (alloc_reply_builder c depth) r
