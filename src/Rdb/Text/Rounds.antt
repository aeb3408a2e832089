-- ===== src/Rdb/Text/Rounds.antt =====
-- The rounds of the builder of strings.
use kj_cpp_redis.BipBuf.Content.{get_committed_size-length}
use kj_cpp_redis.BipBuf.{get_committed_size, get_contiguous_block}
use kj_cpp_redis.Prelude.Int.{to_signed}
use kj_cpp_redis.Rdb.Builder.Loop.{
  with_top, builder-with_top, consume-with_top, Holds, with_store_len-read, with_store_len-encoded,
  update-consume,
}
use kj_cpp_redis.Rdb.Builder.{builder, consume}
use kj_cpp_redis.Rdb.Helper.{read_int}
use kj_cpp_redis.Rdb.StoreLen.{store_len_bytes}
use kj_cpp_redis.Rdb.Text.{
  Outcome, build_lzf_string_value, string_store_len, string_enc, string_plain, string_step,
  consume_size,
}
use kj_cpp_redis.Rdb.Types.{over, again, premature, ObjectBuilder, RdbParser, Calls}
use kj_cpp_redis.Prelude.{
  ℕ, ◌+◌, ◌-◌, ◌^◌, ◌<◌, ◌≤◌, ◌≡◌, ◌∙◌, ap, refl, true, some, List, [], ◌∷◌, ◌++◌, arith, length,
  take, take-prefix, sub_size, length-append, take-all, if◌then◌else◌, ◌==◌, leb,
}

-- Which part of a builder runs.
module _ (calls : Calls) (rp : RdbParser) (i : ℕ) (val : List ℕ) where
  pub string_step-idle :
      (builder rp i).state ≡ 0 → string_step calls i rp val ≡ string_store_len rp i val
  unfolding string_step
  string_step-idle e = rw e refl

  pub string_step-enc :
      (builder rp i).state ≡ 2 → string_step calls i rp val ≡ string_enc calls rp i val
  unfolding string_step
  string_step-enc e = rw e refl

  pub string_step-plain :
      (builder rp i).state ≡ 3 → string_step calls i rp val ≡ string_plain rp i val
  unfolding string_step
  string_step-plain e = rw e refl

-- The rounds of the builder of strings, with its builder `b` on top at index `k`.
module _ (calls : Calls) (rp : RdbParser) (k : ℕ) (top : length rp.stack_ob ≡ k)
    (val : List ℕ) where
  pub plain_len :
      (b : ObjectBuilder) (n : ℕ) (rest : List ℕ)
      → b.state ≡ 0
      → n < 2 ^ 32
      → Holds rp (store_len_bytes n ++ rest)
      → string_step calls k (with_top rp b) val ≡ (
        again,
        with_top
            (consume rp (length (store_len_bytes n)))
            (record b { state = 3; store_len = n; c_len = 0; len = 0 }),
        [],
      )
  unfolding string_store_len
  plain_len b n rest idle h holds =
      string_step-idle calls (with_top rp b) k val
        (ap (λ x. x.state) (builder-with_top rp k top b) ∙ idle)
      ∙ with_store_len-read (with_top rp b) n rest val _ h
          (record { valid = holds.valid; left = holds.left })
      ∙ ap (λ c. (again, c, []))
          (update-consume rp k (length (store_len_bytes n)) b
            (λ x. record x { state = 3; store_len = n; c_len = 0; len = 0 }) top)

-- What `__build_string_plain` does when it wants `want` bytes and takes `n`.
abbrev plain_outcome : RdbParser → List ℕ → ℕ → ℕ → Outcome
plain_outcome rp val want n =
    let val1 = val ++ take n (get_contiguous_block rp.bb) in
    if want == n then (over, consume rp n, val1) else (premature, consume rp n, val1)

plain_outcome-over :
    (rp : RdbParser) (val : List ℕ) (n : ℕ)
    → plain_outcome rp val n n ≡ (over, consume rp n, val ++ take n (get_contiguous_block rp.bb))
plain_outcome-over rp val n = ground arith

plain_outcome-premature :
    (rp : RdbParser) (val : List ℕ) (want n : ℕ)
    → n < want
    → plain_outcome rp val want n
      ≡ (premature, consume rp n, val ++ take n (get_contiguous_block rp.bb))
plain_outcome-premature rp val want n h = ground arith

pub wanted : (total had left : ℕ) → total ≡ had + left → total < 2 ^ 32 → sub_size total had ≡ left
wanted total had left e h = omega arith

pub consume_size-all : (left more : ℕ) → consume_size (left + more) left ≡ left
consume_size-all left more = ground arith

pub consume_size-part : (size want : ℕ) → size < want → consume_size size want ≡ size
consume_size-part size want h = ground arith

-- All the bytes that are wanted, and only some of them.
module _ (rp : RdbParser) (i : ℕ) (val s rest : List ℕ) where
  pub string_plain-over :
      (builder rp i).store_len ≡ length val + length s
      → (builder rp i).store_len < 2 ^ 32
      → Holds rp (s ++ rest)
      → string_plain rp i val ≡ (over, consume rp (length s), val ++ s)
  unfolding string_plain
  string_plain-over len h holds =
      ap (λ w. plain_outcome rp val w (consume_size (get_committed_size rp.bb) w))
        (wanted (builder rp i).store_len (length val) (length s) len h)
      ∙ ap (λ n. plain_outcome rp val (length s) n)
          (ap (λ n. consume_size n (length s))
              (get_committed_size-length holds.valid ∙ ap length holds.left ∙ length-append s rest)
            ∙ consume_size-all (length s) (length rest))
      ∙ plain_outcome-over rp val (length s)
      ∙ ap (λ t. (over, consume rp (length s), val ++ t))
          (ap (take (length s)) holds.left ∙ take-prefix s rest)

  pub string_plain-premature :
      length val + length s < (builder rp i).store_len
      → (builder rp i).store_len < 2 ^ 32
      → Holds rp s
      → string_plain rp i val ≡ (premature, consume rp (length s), val ++ s)
  unfolding string_plain
  string_plain-premature short h holds =
      let want = (builder rp i).store_len - length val in
      ap (λ w. plain_outcome rp val w (consume_size (get_committed_size rp.bb) w))
        (wanted (builder rp i).store_len (length val) want (omega arith) h)
      ∙ ap (λ n. plain_outcome rp val want n)
          (ap (λ n. consume_size n want)
              (get_committed_size-length holds.valid ∙ ap length holds.left)
            ∙ consume_size-part (length s) want (omega arith))
      ∙ plain_outcome-premature rp val want (length s) (omega arith)
      ∙ ap (λ t. (premature, consume rp (length s), val ++ t))
          (ap (take (length s)) holds.left ∙ take-all (length s) s (omega arith))

leb-true : (m n : ℕ) → m ≤ n → leb m n ≡ true
leb-true m n h = ground arith

-- A length with an encoding instead, and an integer behind it.
module _ (calls : Calls) (rp : RdbParser) (k : ℕ) (top : length rp.stack_ob ≡ k)
    (val : List ℕ) where
  pub enc_len :
      (b : ObjectBuilder) (n : ℕ) (rest : List ℕ)
      → b.state ≡ 0
      → n < 64
      → Holds rp ((192 + n) ∷ rest)
      → string_step calls k (with_top rp b) val ≡ (
        again,
        with_top (consume rp 1) (record b { state = 2; store_len = n; c_len = 0; len = 0 }),
        val,
      )
  unfolding string_store_len
  enc_len b n rest idle h holds =
      string_step-idle calls (with_top rp b) k val
        (ap (λ x. x.state) (builder-with_top rp k top b) ∙ idle)
      ∙ with_store_len-encoded (with_top rp b) n rest val _ h
          (record { valid = holds.valid; left = holds.left })
      ∙ ap (λ c. (again, c, val))
          (update-consume rp k 1 b (λ x. record x { state = 2; store_len = n; c_len = 0; len = 0 })
            top)

  pub enc_int :
      (b : ObjectBuilder) (n word : ℕ)
      → b.state ≡ 2
      → b.store_len ≤ 2
      → read_int rp.bb b.store_len ≡ some (n, word)
      → string_step calls k (with_top rp b) val
        ≡ (over, with_top (consume rp n) b, calls.print_int (to_signed 32 word))
  unfolding string_enc
  enc_int b n word s h e =
      string_step-enc calls (with_top rp b) k val
        (ap (λ x. x.state) (builder-with_top rp k top b) ∙ s)
      ∙ rw (builder-with_top rp k top b, e, leb-true b.store_len 2 h)
          (ap (λ c. (over, c, calls.print_int (to_signed 32 word))) (consume-with_top rp b n))

  pub enc_lzf_value :
      (b : ObjectBuilder)
      → b.state ≡ 2
      → b.store_len ≡ 3
      → string_step calls k (with_top rp b) val ≡ build_lzf_string_value calls (with_top rp b) k val
  unfolding string_enc
  enc_lzf_value b s e =
      string_step-enc calls (with_top rp b) k val
        (ap (λ x. x.state) (builder-with_top rp k top b) ∙ s)
      ∙ rw (ap (λ x. x.store_len) (builder-with_top rp k top b) ∙ e) refl
