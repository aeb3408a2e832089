-- ===== src/Rdb/Text/Pieces.antt =====
-- The loop of the builder of strings, round by round; and a string that comes in two pieces.
use kj_cpp_redis.BipBuf.{BipBuf}
use kj_cpp_redis.Rdb.Builder.Loop.{
  with_top, alloc-with_top, alloc_top, builder-with_top, pop-with_top, Holds, ob_loop-again,
  ob_loop-over, ob_loop-premature, stack_ob-consume, Ready, consume-with_top,
}
use kj_cpp_redis.Rdb.Builder.{zero_builder, builder, alloc_object_builder, consume, ob_loop}
use kj_cpp_redis.Rdb.StoreLen.{store_len_bytes}
use kj_cpp_redis.Rdb.Builder.After.{After, consume-After, After-trans}
use kj_cpp_redis.Rdb.Text.Rounds.{
  plain_len, string_step-plain, string_plain-over, string_plain-premature,
}
use kj_cpp_redis.Rdb.Text.{Outcome, string_step, build_string_value}
use kj_cpp_redis.Rdb.Types.{over, again, premature, ObjectBuilder, RdbParser, Calls}
use kj_cpp_redis.Prelude.{
  ℕ, ◌+◌, ◌^◌, ◌<◌, ◌≡◌, ◌∙◌, ap, refl, sym, List, [], ◌++◌, append-nil, arith, length,
}

-- The first round of a new builder, and the last, which ends it.
module _ (calls : Calls) (rp : RdbParser) (i : ℕ) (ready : Ready rp i 2) where
  pub first_round :
      (val : List ℕ) (rp1 : RdbParser) (b1 : ObjectBuilder) (val1 : List ℕ)
      → string_step calls
          (length rp.stack_ob)
          (with_top rp (record zero_builder { depth = length rp.stack_ob }))
          val
        ≡ (again, with_top rp1 b1, val1)
      → build_string_value calls rp i val
        ≡ ob_loop 1 (string_step calls (length rp.stack_ob)) (with_top rp1 b1) val1
  unfolding build_string_value
  first_round val rp1 b1 val1 step =
      let k = length rp.stack_ob in
      ap (λ n. ob_loop 2 (string_step calls n) (alloc_object_builder rp n) val) ready.next
      ∙ ap (λ p. ob_loop 2 (string_step calls k) p val)
          (alloc-with_top rp k refl (omega (arith, ready.small)))
      ∙ ob_loop-again (string_step calls k) 1 (with_top rp (record zero_builder { depth = k }))
          (with_top rp1 b1) val val1 step

pub last_round :
    (calls : Calls) (k : ℕ) (rp1 rp2 : RdbParser) (b1 b2 : ObjectBuilder) (val s : List ℕ)
    → string_step calls k (with_top rp1 b1) val ≡ (over, with_top rp2 b2, s)
    → ob_loop 1 (string_step calls k) (with_top rp1 b1) val ≡ (over, rp2, s)
last_round calls k rp1 rp2 b1 b2 val s step =
    ob_loop-over (string_step calls k) 0 (with_top rp1 b1) (with_top rp2 b2) val s step
    ∙ ap (λ p. (over, p, s)) (pop-with_top rp2 b2)

-- The bytes of a plain string, `val` of which have been taken before.
pub plain_round :
    (calls : Calls) (rp : RdbParser) (k : ℕ) (b : ObjectBuilder) (val s rest : List ℕ)
    → length rp.stack_ob ≡ k
    → b.state ≡ 3
    → b.store_len ≡ length val + length s
    → b.store_len < 2 ^ 32
    → Holds rp (s ++ rest)
    → string_step calls k (with_top rp b) val ≡ (over, with_top (consume rp (length s)) b, val ++ s)
plain_round calls rp k b val s rest top state len h holds =
    let at = builder-with_top rp k top b in
    string_step-plain calls (with_top rp b) k val (ap (λ x. x.state) at ∙ state)
    ∙ string_plain-over (with_top rp b) k val s rest (ap (λ x. x.store_len) at ∙ len)
        (omega (arith, h, ap (λ x. x.store_len) at))
        (record { valid = holds.valid; left = holds.left })
    ∙ ap (λ p. (over, p, val ++ s)) (consume-with_top rp b (length s))

-- The builder of a plain string that is on the stack already goes on with the bytes that are there.
module _ (calls : Calls) (rp : RdbParser) (i : ℕ) (b : ObjectBuilder) where
  resumed :
      (val : List ℕ)
      → (builder (with_top rp b) i).depth + 1 ≡ length rp.stack_ob
      → length rp.stack_ob < 256
      → build_string_value calls (with_top rp b) i val
        ≡ ob_loop 2 (string_step calls (length rp.stack_ob)) (with_top rp b) val
  unfolding build_string_value
  resumed val next small =
      ap (λ n. ob_loop 2 (string_step calls n) (alloc_object_builder (with_top rp b) n) val) next
      ∙ ap (λ p. ob_loop 2 (string_step calls (length rp.stack_ob)) p val)
          (alloc_top rp (length rp.stack_ob) refl b small)

-- A plain string of which `s1` has come, and more is to come.
pub build_string_value_first :
    (calls : Calls) (rp : RdbParser) (i n : ℕ) (val s1 : List ℕ)
    → Ready rp i 2
    → length s1 < n
    → n < 2 ^ 32
    → Holds rp (store_len_bytes n ++ s1)
    → let rp1 = consume (consume rp (length (store_len_bytes n))) (length s1) in
      let b = record zero_builder { depth = length rp.stack_ob; state = 3; store_len = n } in
      (build_string_value calls rp i val ≡ (premature, with_top rp1 b, s1)) × After rp [] rp1
build_string_value_first calls rp i n val s1 ready short h holds =
    let k = length rp.stack_ob in
    let len = store_len_bytes n in
    let rp1 = consume rp (length len) in
    let rp2 = consume rp1 (length s1) in
    let b = record zero_builder { depth = k; state = 3; store_len = n } in
    let one = consume-After rp len s1 holds in
    let at = builder-with_top rp1 k (ap length (stack_ob-consume rp (length len))) b in
    let all : Holds rp1 (s1 ++ []) = record {
      valid = one.holds.valid;
      left = one.holds.left ∙ sym (append-nil s1);
    } in
    (
      first_round calls rp i ready val rp1 b []
            (plain_len calls rp k refl val (record zero_builder { depth = k }) n s1 refl h holds)
          ∙ ob_loop-premature (string_step calls k) 0 (with_top rp1 b) (with_top rp2 b) [] s1 (
              string_step-plain calls (with_top rp1 b) k [] (ap (λ x. x.state) at)
              ∙ string_plain-premature (with_top rp1 b) k [] s1 []
                  (omega (arith, short, ap (λ x. x.store_len) at))
                  (omega (arith, h, ap (λ x. x.store_len) at))
                  (record { valid = one.holds.valid; left = one.holds.left })
              ∙ ap (λ p. (premature, p, s1)) (consume-with_top rp1 b (length s1))),
      After-trans one (consume-After rp1 s1 [] all),
    )

pub build_string_value_next :
    (calls : Calls) (rp : RdbParser) (i : ℕ) (b : ObjectBuilder) (val s rest : List ℕ)
    → (builder (with_top rp b) i).depth + 1 ≡ length rp.stack_ob
    → length rp.stack_ob < 256
    → b.state ≡ 3
    → b.store_len ≡ length val + length s
    → b.store_len < 2 ^ 32
    → Holds rp (s ++ rest)
    → (build_string_value calls (with_top rp b) i val ≡ (over, consume rp (length s), val ++ s))
      × After rp rest (consume rp (length s))
build_string_value_next calls rp i b val s rest next small state len h holds = (
  resumed calls rp i b val next small
      ∙ ob_loop-over (string_step calls (length rp.stack_ob)) 1 (with_top rp b)
          (with_top (consume rp (length s)) b) val (val ++ s)
          (plain_round calls rp (length rp.stack_ob) b val s rest refl state len h holds)
      ∙ ap (λ p. (over, p, val ++ s)) (pop-with_top (consume rp (length s)) b),
  consume-After rp s rest holds,
)

-- The second call, on the parser and the string that the first has left and a buffer with more bytes.
abbrev pub next_call : Calls → ℕ → BipBuf → Outcome → Outcome
next_call calls i more out = build_string_value calls (record out.1 { bb = more }) i out.2
