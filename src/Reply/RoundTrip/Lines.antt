-- ===== src/Reply/RoundTrip/Lines.antt =====
-- Simple strings and errors that are in the buffer whole.
use kj_cpp_redis.BipBuf.Content.{get_committed_size-length, length-block}
use kj_cpp_redis.BipBuf.Inv.{IsValid}
use kj_cpp_redis.BipBuf.{get_contiguous_block}
use kj_cpp_redis.NxBuf.{Buf, text, free_space, create_temp_buf}
use kj_cpp_redis.Reply.Builder.Loop.{
  with_top, builder-with_top, set_builder-with_top, consume-with_top,
}
use kj_cpp_redis.Reply.Builder.{builder, consume}
use kj_cpp_redis.Reply.Read.Integer.{find_str-line}
use kj_cpp_redis.Reply.RoundTrip.Scalar.{Built, blank, after_line, after_line_lem, stack-consume}
use kj_cpp_redis.Reply.RoundTrip.Rounds.{new_builder, run_two-again}
use kj_cpp_redis.Reply.Spec.{text_value, error_value, type_of, Represents}
use kj_cpp_redis.Reply.RoundTrip.Strings.{as_string_one}
use kj_cpp_redis.Reply.Text.{
  build_simple_string_init, build_simple_string_plain, build_simple_string, alloc_link, append_loop,
  Append, append_at_pos, simple_string_extent,
}
use kj_cpp_redis.Reply.Types.{over, again, Context, ReplyBuilder, Node, empty_node, reply, null}
use kj_cpp_redis.Strstr.Prefix.{Lacks}
use kj_cpp_redis.Prelude.{
  ℕ, ◌+◌, ◌-◌, ◌*◌, ◌≤◌, ◌<◌, ◌≡◌, ◌∙◌, ap, refl, List, [], ◌∷◌, ◌++◌, arith, length, some, suc,
  take, window_eq, window-overwrite, take-prefix, length-take, overwrite, sub_size, add_size,
  add_u32, length-append, count_eq,
}

module _ (fresh : ℕ → List ℕ) (fresh_length : (n : ℕ) → length (fresh n) ≡ n) where
  append_loop-nothing :
      (f : ℕ) (p1 : List ℕ) (b : Buf) (store_len len : ℕ)
      → let a : Append = record { vall = b ∷ []; store_len = store_len; len = len } in
        append_loop fresh (suc f) p1 0 a ≡ some a
  unfolding append_loop
  append_loop-nothing f p1 b store_len len = refl

  pub append_loop-once :
      (f : ℕ) (p1 : List ℕ) (m : ℕ) (b : Buf) (store_len len : ℕ)
      → 0 < m
      → m ≤ free_space b
      → append_loop fresh
          (suc (suc f))
          p1
          m
          (record { vall = b ∷ []; store_len = store_len; len = len })
        ≡ some (record {
          vall = append_at_pos b p1 m ∷ [];
          store_len = add_u32 store_len m;
          len = len;
        })
  unfolding append_loop
  append_loop-once f p1 m b store_len len pos h = ground arith

  -- A line that fits the new buffer is copied in one round of the loop.
  append_loop-line :
      (line rest : List ℕ)
      → 0 < length line
      → length line ≤ 4096
      → append_loop fresh
          (2 * length line + 1)
          (line ++ rest)
          (length line)
          (record { vall = create_temp_buf fresh 4096 ∷ []; store_len = 0; len = 1 })
        ≡ some (record {
          vall = append_at_pos (create_temp_buf fresh 4096) (line ++ rest) (length line) ∷ [];
          store_len = length line;
          len = 1;
        })
  unfolding create_temp_buf
  append_loop-line line rest pos h =
      let m : ℕ = length line in
      let b : Buf = create_temp_buf fresh 4096 in
      count_eq
        (λ f.
          append_loop fresh f (line ++ rest) m (record { vall = b ∷ []; store_len = 0; len = 1 }))
        (2 * m + 1) (suc (suc (2 * m - 1))) (omega arith)
      ∙ append_loop-once (2 * m - 1) (line ++ rest) m b 0 1 pos (omega (arith, fresh_length 4096))
      ∙ count_eq
          (λ k.
            some (record { vall = append_at_pos b (line ++ rest) m ∷ []; store_len = k; len = 1 }))
          (add_u32 0 m) m (omega arith)

  text-line :
      (line rest : List ℕ)
      → length line ≤ 4096
      → text (append_at_pos (create_temp_buf fresh 4096) (line ++ rest) (length line)) ≡ line
  unfolding append_at_pos create_temp_buf
  text-line line rest h =
      let front : List ℕ = take (length line) (line ++ rest) in
      window_eq (overwrite (fresh 4096) 0 front) 0 0 (sub_size (add_size 0 (length line)) 0)
        (length front) refl
        (omega (arith, length-take (length line) (line ++ rest), length-append line rest))
      ∙ window-overwrite (fresh 4096) 0 front (omega arith)
      ∙ take-prefix line rest

  -- The text buffer that a line ends up in.
  abbrev line_buf : List ℕ → List ℕ → Buf
  line_buf [] rest = create_temp_buf fresh 4096
  line_buf (x ∷ line) rest =
      append_at_pos (create_temp_buf fresh 4096) ((x ∷ line) ++ rest) (length (x ∷ line))

  append_loop-any :
      (line rest : List ℕ)
      → length line ≤ 4096
      → append_loop fresh
          (2 * length line + 1)
          (line ++ rest)
          (length line)
          (record { vall = create_temp_buf fresh 4096 ∷ []; store_len = 0; len = 1 })
        ≡ some (record { vall = line_buf line rest ∷ []; store_len = length line; len = 1 })
  append_loop-any [] rest h = append_loop-nothing 0 rest (create_temp_buf fresh 4096) 0 1
  append_loop-any (x ∷ line) rest h = append_loop-line (x ∷ line) rest (omega arith) h

  text-line_buf : (line rest : List ℕ) → length line ≤ 4096 → text (line_buf line rest) ≡ line
  text-line_buf [] rest h = unfold create_temp_buf in refl
  text-line_buf (x ∷ line) rest h = text-line (x ∷ line) rest h

  init-round :
      (c : Context) (k : ℕ) (top : length c.stack ≡ k) (b : ReplyBuilder) (r : Node)
      → r.vall ≡ []
      → build_simple_string_init fresh k (with_top c b) r ≡ (
        again,
        with_top c (record b { store_len = 0; len = 1; state = 2 }),
        record r { vall = create_temp_buf fresh 4096 ∷ [] },
      )
  unfolding build_simple_string_init alloc_link
  init-round c k top b r none_yet = ground (
    arith,
    builder-with_top c k top b,
    set_builder-with_top c k top b (record b { store_len = 0; len = 1; state = 2 }),
  )

  -- The second round copies the line and consumes its end with it.
  plain-round :
      (c : Context) (k : ℕ) (top : length c.stack ≡ k) (b : ReplyBuilder) (r : Node)
      (line rest : List ℕ)
      → IsValid c.bb
      → get_contiguous_block c.bb ≡ line ++ (13 ∷ 10 ∷ rest)
      → Lacks 13 line
      → length line ≤ 4096
      → b.store_len ≡ 0
      → b.len ≡ 1
      → r.vall ≡ create_temp_buf fresh 4096 ∷ []
      → build_simple_string_plain fresh k (with_top c b) r ≡ (
        over,
        with_top (after_line c line) (record b { store_len = length line }),
        record r { vall = line_buf line (13 ∷ 10 ∷ rest) ∷ []; bytes = length line },
      )
  unfolding build_simple_string_plain simple_string_extent
  plain-round c k top b r line rest v e h fits e0 e1 one =
      let m : ℕ = length line in
      let block : List ℕ = get_contiguous_block c.bb in
      let top' : length (consume c (m + 2)).stack ≡ k = ap length (stack-consume c (m + 2)) ∙ top in
      let sizes : length block ≡ m + (length rest + 2) =
        ap length e ∙ length-append line (13 ∷ 10 ∷ rest) ∙ omega arith in
      ground (
        arith,
        builder-with_top c k top b,
        get_committed_size-length v,
        length-block v,
        find_str-line c.bb line rest e h,
        append_loop-any line (13 ∷ 10 ∷ rest) fits,
        set_builder-with_top c k top b (record b { store_len = m }),
        consume-with_top c (record b { store_len = m }) (m + 2),
      )

  -- A line is built in two rounds: a new buffer, then the copy.
  module _ (i : ℕ) (c : Context) (s rest : List ℕ) (top : length c.stack ≡ i + 1)
      (depth : (builder c i).depth ≡ i) (deep : i < 255) (v : IsValid c.bb)
      (e : get_contiguous_block c.bb ≡ s ++ (13 ∷ 10 ∷ rest)) (h : Lacks 13 s)
      (fits : length s ≤ 4096) where
    line_built :
        (r : Node)
        → r.vall ≡ []
        → build_simple_string fresh i c (reply r null) ≡ (
          over,
          after_line c s,
          reply (record r { vall = line_buf s (13 ∷ 10 ∷ rest) ∷ []; bytes = length s }) null,
        )
    unfolding build_simple_string
    line_built r none_yet =
        let k : ℕ = i + 1 in
        let b0 : ReplyBuilder = new_builder k in
        let b1 : ReplyBuilder = record b0 { store_len = 0; len = 1; state = 2 } in
        let b2 : ReplyBuilder = record b1 { store_len = length s } in
        let r1 : Node = record r { vall = create_temp_buf fresh 4096 ∷ [] } in
        run_two-again (build_simple_string_init fresh) (build_simple_string_plain fresh) i c r null
          top depth deep c (after_line c s) b1 b2 r1 _ (init-round c k top b0 r none_yet) top refl
          (plain-round c k top b1 r1 s rest v e h fits refl refl refl)

    pub text-Built :
        Built c (text_value s) rest (build_simple_string fresh i c (blank (type_of (text_value s))))
    unfolding Represents
    text-Built = ground (
      arith,
      line_built (record empty_node { type = type_of (text_value s) }) refl,
      after_line_lem c s rest v e,
      stack-consume c (length s + 2),
      as_string_one (line_buf s (13 ∷ 10 ∷ rest)),
      text-line_buf s (13 ∷ 10 ∷ rest) fits,
    )

    pub error-Built :
        Built c
          (error_value s)
          rest
          (build_simple_string fresh i c (blank (type_of (error_value s))))
    unfolding Represents
    error-Built = ground (
      arith,
      line_built (record empty_node { type = type_of (error_value s) }) refl,
      after_line_lem c s rest v e,
      stack-consume c (length s + 2),
      as_string_one (line_buf s (13 ∷ 10 ∷ rest)),
      text-line_buf s (13 ∷ 10 ∷ rest) fits,
    )
