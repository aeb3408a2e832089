-- ===== src/Reply/RoundTrip/Strings.antt =====
-- Bulk strings that are in the buffer whole.
use kj_cpp_redis.BipBuf.Inv.{IsValid}
use kj_cpp_redis.BipBuf.{get_contiguous_block}
use kj_cpp_redis.NxBuf.{Buf, text, create_temp_buf}
use kj_cpp_redis.Reply.Builder.Loop.{
  with_top, builder-with_top, set_builder-with_top, consume-with_top,
}
use kj_cpp_redis.Reply.Builder.{zero_builder, builder, consume}
use kj_cpp_redis.Reply.Read.Decimal.{
  decimal, decimal-Lacks, to_integer-decimal, to_integer_negative,
}
use kj_cpp_redis.Reply.RoundTrip.Scalar.{
  Built, blank, after_line, after_line_lem, build_integer-line, stack-consume,
}
use kj_cpp_redis.Reply.RoundTrip.Rounds.{run_two-over, run_two-again}
use kj_cpp_redis.Reply.Spec.{bulk_value, null_bulk, body, type_of, Represents}
use kj_cpp_redis.Reply.Text.Bulk.{Gathered}
use kj_cpp_redis.Reply.Text.Frame.{plain-over}
use kj_cpp_redis.Reply.Text.{
  as_string, build_bulk_string_store_len, build_bulk_string_plain, build_bulk_string, alloc_link,
}
use kj_cpp_redis.Reply.Types.{over, again, Context, ReplyBuilder, Node, empty_node, reply, null}
use kj_cpp_redis.Prelude.{
  ℕ, ◌+◌, ◌-◌, ◌^◌, ◌<◌, ◌≡◌, ◌∙◌, ap, refl, true, List, [], ◌∷◌, ◌++◌, arith, length, append-nil,
}

pub as_string_one : (b : Buf) → as_string (b ∷ []) ≡ text b
unfolding as_string
as_string_one b = append-nil (text b)

module _ (fresh : ℕ → List ℕ) (fresh_length : (n : ℕ) → length (fresh n) ≡ n) where
  new_buf-Gathered : (n : ℕ) → Gathered n [] (create_temp_buf fresh (n + 3))
  unfolding create_temp_buf
  new_buf-Gathered n = record {
    at_start = refl;
    filled = refl;
    holds = refl;
    size = fresh_length (n + 3);
  }

  -- The first round of a bulk string reads its length.
  store_len-round :
      (c : Context) (k : ℕ) (top : length c.stack ≡ k) (b : ReplyBuilder) (r : Node) (n : ℕ)
      (rest : List ℕ)
      → IsValid c.bb
      → get_contiguous_block c.bb ≡ decimal n ++ (13 ∷ 10 ∷ rest)
      → n < 2 ^ 31
      → r.vall ≡ []
      → build_bulk_string_store_len fresh k (with_top c b) r ≡ (
        again,
        with_top (after_line c (decimal n)) (record b { store_len = n; len = 1; state = 2 }),
        record r { vall = create_temp_buf fresh (n + 3) ∷ [] },
      )
  unfolding build_bulk_string_store_len alloc_link
  store_len-round c k top b r n rest v e small none_yet =
      let m : ℕ = length (decimal n) + 2 in
      let top' : length (consume c m).stack ≡ k = ap length (stack-consume c m) ∙ top in
      ground (
        arith,
        build_integer-line (with_top c b) (decimal n) rest v e (decimal-Lacks n (omega arith)),
        to_integer-decimal n (omega arith),
        consume-with_top c b m,
        builder-with_top (consume c m) k top' b,
        set_builder-with_top (consume c m) k top' b
            (record b { store_len = n; len = 1; state = 2 }),
      )

  null-round :
      (c : Context) (k : ℕ) (b : ReplyBuilder) (r : Node) (rest : List ℕ)
      → IsValid c.bb
      → get_contiguous_block c.bb ≡ (b'-' ∷ decimal 1) ++ (13 ∷ 10 ∷ rest)
      → build_bulk_string_store_len fresh k (with_top c b) r ≡ (
        over,
        with_top (after_line c (b'-' ∷ decimal 1)) b,
        record r { is_null = true; bytes = 0 },
      )
  unfolding build_bulk_string_store_len
  null-round c k b r rest v e =
      let line : List ℕ = b'-' ∷ decimal 1 in
      ground (
        arith,
        build_integer-line (with_top c b) line rest v e
            (omega arith, decimal-Lacks 1 (omega arith)),
        to_integer_negative 1 (omega arith) (omega arith),
        consume-with_top c b (length line + 2),
      )

  -- A bulk string is built in two rounds: its length, then its bytes.
  pub bulk-Built :
      (i : ℕ) (c : Context) (s rest : List ℕ)
      → length c.stack ≡ i + 1
      → (builder c i).depth ≡ i
      → i < 255
      → length s < 2 ^ 31
      → IsValid c.bb
      → get_contiguous_block c.bb ≡ body (bulk_value s) rest
      → Built c (bulk_value s) rest (build_bulk_string fresh i c (blank (type_of (bulk_value s))))
  unfolding body build_bulk_string Represents
  bulk-Built i c s rest top depth deep small v e =
      let n : ℕ = length s in
      let k : ℕ = i + 1 in
      let b0 : ReplyBuilder = record zero_builder { depth = k } in
      let b1 : ReplyBuilder = record b0 { store_len = n; len = 1; state = 2 } in
      let r0 : Node = record empty_node { type = type_of (bulk_value s) } in
      let buf : Buf = create_temp_buf fresh (n + 3) in
      let c1 : Context = after_line c (decimal n) in
      let (v1, e1) = after_line_lem c (decimal n) (s ++ (13 ∷ 10 ∷ rest)) v e in
      let top1 : length c1.stack ≡ k = ap length (stack-consume c (length (decimal n) + 2)) ∙ top in
      let (done, second, holds) =
        plain-over s rest k (with_top c1 b1) (record r0 { vall = buf ∷ [] }) small v1 refl
          (ap (λ (t : ReplyBuilder). t.store_len) (builder-with_top c1 k top1 b1))
          (new_buf-Gathered n) (omega arith) refl e1 in
      let c2 : Context = consume c1 (n + 2 - 0) in
      let built : build_bulk_string fresh i c (reply r0 null)
          ≡ (over, c2, reply (record r0 { vall = done ∷ []; bytes = n }) null) =
        run_two-again (build_bulk_string_store_len fresh) build_bulk_string_plain i c r0 null top
          depth deep c1 c2 b1 b1 (record r0 { vall = buf ∷ [] }) _
          (store_len-round c k top b0 r0 n (s ++ (13 ∷ 10 ∷ rest)) v e small refl) top1 refl
          (second
            ∙ ap (λ t. (over, t, record r0 { vall = done ∷ []; bytes = n }))
                (consume-with_top c1 b1 (n + 2 - 0))) in
      ground (
        arith,
        built,
        after_line_lem c1 s rest v1 e1,
        stack-consume c1 (n + 2 - 0),
        stack-consume c (length (decimal n) + 2),
        as_string_one done,
        holds,
      )

  -- A null bulk string is built in one.
  pub null_bulk-Built :
      (i : ℕ) (c : Context) (rest : List ℕ)
      → length c.stack ≡ i + 1
      → (builder c i).depth ≡ i
      → i < 255
      → IsValid c.bb
      → get_contiguous_block c.bb ≡ body null_bulk rest
      → Built c null_bulk rest (build_bulk_string fresh i c (blank (type_of null_bulk)))
  unfolding body build_bulk_string Represents
  null_bulk-Built i c rest top depth deep v e =
      let line : List ℕ = b'-' ∷ decimal 1 in
      let k : ℕ = i + 1 in
      let b0 : ReplyBuilder = record zero_builder { depth = k } in
      let r0 : Node = record empty_node { type = type_of null_bulk } in
      let c1 : Context = after_line c line in
      let built : build_bulk_string fresh i c (reply r0 null)
          ≡ (over, c1, reply (record r0 { is_null = true; bytes = 0 }) null) =
        run_two-over (build_bulk_string_store_len fresh) build_bulk_string_plain i c r0 null top
          depth deep c1 b0 (record r0 { is_null = true; bytes = 0 })
          (null-round c k b0 r0 rest v e) in
      ground (arith, built, after_line_lem c line rest v e, stack-consume c (length line + 2))
