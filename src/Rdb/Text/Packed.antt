-- ===== src/Rdb/Text/Packed.antt =====
-- A compressed string at the front of the input, built.
use kj_cpp_redis.BipBuf.Content.{get_committed_size-length}
use kj_cpp_redis.BipBuf.{get_committed_size, get_contiguous_block}
use kj_cpp_redis.Rdb.Builder.Loop.{
  with_top, alloc-with_top, builder-with_top, pop-with_top, Holds, consume-Holds, ob_loop-again,
  ob_loop-over, with_store_len-read, update-consume, stack_ob-consume, Ready,
}
use kj_cpp_redis.Rdb.Builder.{zero_builder, builder, update, alloc_object_builder, consume, ob_loop}
use kj_cpp_redis.Rdb.StoreLen.{store_len_bytes}
use kj_cpp_redis.Rdb.Text.Rounds.{wanted, consume_size-all}
use kj_cpp_redis.Rdb.Text.{
  Outcome, lzf_compress_len, lzf_raw_len, lzf_lzf, lzf_step, build_lzf_string_value, consume_size,
}
use kj_cpp_redis.Rdb.Types.{over, again, premature, lzf_failed, ObjectBuilder, RdbParser, Calls}
use kj_cpp_redis.Prelude.{
  ℕ, ◌^◌, ◌<◌, ◌≡◌, ◌∙◌, ap, refl, none, some, List, [], ◌++◌, arith, length, take, take-prefix,
  length-append, if◌then◌else◌, ◌==◌,
}

-- What `__build_lzf_string_lzf` does when it wants `want` bytes and takes `n`.
abbrev lzf_outcome : Calls → RdbParser → ℕ → List ℕ → ℕ → ℕ → Outcome
lzf_outcome calls rp i val want n =
    let tmp_val = (builder rp i).tmp_val ++ take n (get_contiguous_block rp.bb) in
    let rp1 = update (consume rp n) i λ ob1. record ob1 { tmp_val = tmp_val } in
    if want == n
    then elim (calls.lzf_decompress tmp_val (builder rp i).len) [
      | none ↦ (lzf_failed, rp1, val)
      | some raw ↦ (over, rp1, raw)
    ]
    else (premature, rp1, val)

lzf_outcome-over :
    (calls : Calls) (rp : RdbParser) (i n : ℕ) (val c raw : List ℕ)
    → (builder rp i).tmp_val ++ take n (get_contiguous_block rp.bb) ≡ c
    → calls.lzf_decompress c (builder rp i).len ≡ some raw
    → lzf_outcome calls rp i val n n
      ≡ (over, update (consume rp n) i λ ob1. record ob1 { tmp_val = c }, raw)
lzf_outcome-over calls rp i n val c raw e d = rw (e, d) (ground arith)

lzf_lzf-over :
    (calls : Calls) (rp : RdbParser) (i : ℕ) (val c raw rest : List ℕ)
    → (builder rp i).tmp_val ≡ []
    → (builder rp i).c_len ≡ length c
    → (builder rp i).c_len < 2 ^ 32
    → calls.lzf_decompress c (builder rp i).len ≡ some raw
    → Holds rp (c ++ rest)
    → lzf_lzf calls rp i val
      ≡ (over, update (consume rp (length c)) i (λ ob1. record ob1 { tmp_val = c }), raw)
unfolding lzf_lzf
lzf_lzf-over calls rp i val c raw rest none_yet len h d holds =
    let want =
      wanted (builder rp i).c_len (length (builder rp i).tmp_val) (length c)
        (omega (arith, len, ap length none_yet)) h in
    ap (λ w. lzf_outcome calls rp i val w (consume_size (get_committed_size rp.bb) w)) want
    ∙ ap (λ n. lzf_outcome calls rp i val (length c) n)
        (ap (λ n. consume_size n (length c))
            (get_committed_size-length holds.valid ∙ ap length holds.left ∙ length-append c rest)
          ∙ consume_size-all (length c) (length rest))
    ∙ lzf_outcome-over calls rp i (length c) val c raw
        (ap (λ t. t ++ take (length c) (get_contiguous_block rp.bb)) none_yet
          ∙ ap (take (length c)) holds.left
          ∙ take-prefix c rest)
        d

module _ (calls : Calls) (rp : RdbParser) (k : ℕ) (top : length rp.stack_ob ≡ k)
    (val : List ℕ) where
  compress_len :
      (b : ObjectBuilder) (n : ℕ) (rest : List ℕ)
      → b.state ≡ 0
      → n < 2 ^ 32
      → Holds rp (store_len_bytes n ++ rest)
      → lzf_step calls k (with_top rp b) val ≡ (
        again,
        with_top
            (consume rp (length (store_len_bytes n)))
            (record b { state = 2; c_len = n; len = 0 }),
        val,
      )
  unfolding lzf_step lzf_compress_len
  compress_len b n rest idle h holds = rw (ap (λ x. x.state) (builder-with_top rp k top b) ∙ idle) (
      with_store_len-read (with_top rp b) n rest val _ h
        (record { valid = holds.valid; left = holds.left })
      ∙ ap (λ c. (again, c, val))
          (update-consume rp k (length (store_len_bytes n)) b
            (λ x. record x { state = 2; c_len = n; len = 0 }) top))

  raw_len :
      (b : ObjectBuilder) (n : ℕ) (rest : List ℕ)
      → b.state ≡ 2
      → n < 2 ^ 32
      → Holds rp (store_len_bytes n ++ rest)
      → lzf_step calls k (with_top rp b) val ≡ (
        again,
        with_top (consume rp (length (store_len_bytes n))) (record b { state = 3; len = n }),
        val,
      )
  unfolding lzf_step lzf_raw_len
  raw_len b n rest s h holds = rw (ap (λ x. x.state) (builder-with_top rp k top b) ∙ s) (
      with_store_len-read (with_top rp b) n rest val _ h
        (record { valid = holds.valid; left = holds.left })
      ∙ ap (λ c. (again, c, val))
          (update-consume rp k (length (store_len_bytes n)) b (λ x. record x { state = 3; len = n })
            top))

  lzf_bytes :
      (b : ObjectBuilder) (c raw rest : List ℕ)
      → b.state ≡ 3
      → b.tmp_val ≡ []
      → b.c_len ≡ length c
      → b.c_len < 2 ^ 32
      → calls.lzf_decompress c b.len ≡ some raw
      → Holds rp (c ++ rest)
      → lzf_step calls k (with_top rp b) val
        ≡ (over, with_top (consume rp (length c)) (record b { tmp_val = c }), raw)
  unfolding lzf_step
  lzf_bytes b c raw rest s none_yet len h d holds =
      let at = builder-with_top rp k top b in
      rw (ap (λ x. x.state) at ∙ s) (
        lzf_lzf-over calls (with_top rp b) k val c raw rest (ap (λ x. x.tmp_val) at ∙ none_yet)
          (ap (λ x. x.c_len) at ∙ len) (omega (arith, h, ap (λ x. x.c_len) at))
          (ap (λ x. calls.lzf_decompress c x.len) at ∙ d)
          (record { valid = holds.valid; left = holds.left })
        ∙ ap (λ p. (over, p, raw))
            (update-consume rp k (length c) b (λ x. record x { tmp_val = c }) top))

-- The parser when the lengths of a compressed string and its bytes are consumed.
abbrev pub after_packed : RdbParser → List ℕ → List ℕ → RdbParser
after_packed rp c raw =
    consume
      (consume (consume rp (length (store_len_bytes (length c))))
        (length (store_len_bytes (length raw))))
      (length c)

-- A compressed string is built by its own builder.
pub build_lzf_string_value-packed :
    (calls : Calls) (rp : RdbParser) (i : ℕ) (val c raw rest : List ℕ)
    → Ready rp i 1
    → length c < 2 ^ 32
    → length raw < 2 ^ 32
    → calls.lzf_decompress c (length raw) ≡ some raw
    → Holds rp (store_len_bytes (length c) ++ (store_len_bytes (length raw) ++ (c ++ rest)))
    → build_lzf_string_value calls rp i val ≡ (over, after_packed rp c raw, raw)
unfolding build_lzf_string_value
build_lzf_string_value-packed calls rp i val c raw rest ready small_c small_raw d holds =
    let k = length rp.stack_ob in
    let body = lzf_step calls k in
    let rp1 = consume rp (length (store_len_bytes (length c))) in
    let rp2 = consume rp1 (length (store_len_bytes (length raw))) in
    let holds1 : Holds rp1 (store_len_bytes (length raw) ++ (c ++ rest)) =
      consume-Holds rp (store_len_bytes (length c)) (store_len_bytes (length raw) ++ (c ++ rest))
        holds in
    let holds2 : Holds rp2 (c ++ rest) =
      consume-Holds rp1 (store_len_bytes (length raw)) (c ++ rest) holds1 in
    let top1 : length rp1.stack_ob ≡ k =
      ap length (stack_ob-consume rp (length (store_len_bytes (length c)))) in
    let top2 : length rp2.stack_ob ≡ k =
      ap length (stack_ob-consume rp1 (length (store_len_bytes (length raw)))) ∙ top1 in
    let b0 = record zero_builder { depth = k } in
    let b1 = record b0 { state = 2; c_len = length c; len = 0 } in
    let b2 = record b1 { state = 3; len = length raw } in
    let b3 = record b2 { tmp_val = c } in
    ap (λ n. ob_loop 3 (lzf_step calls n) (alloc_object_builder rp n) val) ready.next
    ∙ ap (λ p. ob_loop 3 body p val) (alloc-with_top rp k refl (omega (arith, ready.small)))
    ∙ ob_loop-again body 2 (with_top rp b0) (with_top rp1 b1) val val (
        compress_len calls rp k refl val b0 (length c) (store_len_bytes (length raw) ++ (c ++ rest))
          refl small_c holds)
    ∙ ob_loop-again body 1 (with_top rp1 b1) (with_top rp2 b2) val val
        (raw_len calls rp1 k top1 val b1 (length raw) (c ++ rest) refl small_raw holds1)
    ∙ ob_loop-over body 0 (with_top rp2 b2) (with_top (consume rp2 (length c)) b3) val raw
        (lzf_bytes calls rp2 k top2 val b2 c raw rest refl refl refl small_c d holds2)
    ∙ ap (λ p. (over, p, raw)) (pop-with_top (consume rp2 (length c)) b3)
