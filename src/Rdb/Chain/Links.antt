-- ===== src/Rdb/Chain/Links.antt =====
-- What the builders of sequences do with one string: the link, and the next state or the end.
use kj_cpp_redis.Rdb.Builder.Loop.{
  with_top, builder-with_top, set_builder-with_top, update-with_top, update-consume, Holds,
  with_store_len-read,
}
use kj_cpp_redis.Rdb.Builder.{builder, set_state, consume}
use kj_cpp_redis.Rdb.Chain.{Outcome, push_kv, push_link, chain_store_len}
use kj_cpp_redis.Rdb.StoreLen.{store_len_bytes}
use kj_cpp_redis.Rdb.Types.{over, again, Kv, RdbObject, ObjectBuilder, RdbParser}
use kj_cpp_redis.Prelude.{
  ℕ, ◌+◌, ◌^◌, ◌<◌, ◌≤◌, ◌≡◌, ◌∙◌, ap, true, false, List, [], ◌++◌, arith, length, ltb,
  if◌then◌else◌, add_u32,
}

abbrev pub linked : RdbParser → Kv → RdbParser
linked rp kv = record rp { o = push_kv rp.o kv }

-- The builder when a string or a pair is in the chain.
abbrev pub counted : ObjectBuilder → ObjectBuilder
counted b = record b { tmp_key = []; tmp_val = []; len = add_u32 b.len 1 }

abbrev link_outcome : RdbParser → ℕ → ℕ → Outcome
link_outcome rp1 i s =
    let ob = builder rp1 i in
    if ltb ob.len ob.store_len
    then (again, set_state rp1 i s, tt)
    else (over, record rp1 { o = record rp1.o { size = ob.len } }, tt)

pub ltb-true : (m n : ℕ) → m < n → ltb m n ≡ true
ltb-true m n h = ground arith

pub ltb-false : (m n : ℕ) → n ≤ m → ltb m n ≡ false
ltb-false m n h = ground arith

module _ (rp : RdbParser) (k : ℕ) (b : ObjectBuilder) (kv : Kv) (s : ℕ)
    (top : length rp.stack_ob ≡ k) where
  linked_top :
      push_link (with_top rp b) k kv s ≡ link_outcome (with_top (linked rp kv) (counted b)) k s
  unfolding push_link
  linked_top = ap (λ p. link_outcome p k s) (update-with_top (linked rp kv) k b counted top)

  pub push_link-again :
      b.len + 1 < b.store_len
      → b.store_len < 2 ^ 32
      → push_link (with_top rp b) k kv s
        ≡ (again, with_top (linked rp kv) (record (counted b) { state = s }), tt)
  push_link-again more h =
      linked_top
      ∙ rw
          (
            builder-with_top (linked rp kv) k top (counted b),
            ltb-true (add_u32 b.len 1) b.store_len (omega arith),
          )
          (ap (λ p. (again, p, tt))
            (set_builder-with_top (linked rp kv) k top (counted b)
              (record (counted b) { state = s })))

  pub push_link-over :
      b.len + 1 ≡ b.store_len
      → b.store_len < 2 ^ 32
      → push_link (with_top rp b) k kv s ≡ (
        over,
        with_top (record rp { o = record (push_kv rp.o kv) { size = b.store_len } }) (counted b),
        tt,
      )
  push_link-over last h =
      linked_top
      ∙ rw
          (
            builder-with_top (linked rp kv) k top (counted b),
            ltb-false (add_u32 b.len 1) b.store_len (omega arith),
          )
          (ap
            (λ n. (
              over,
              with_top (record rp { o = record (push_kv rp.o kv) { size = n } }) (counted b),
              tt,
            ))
            (omega arith))

-- The count of the links comes first.
pub chain_store_len-read :
    (rp : RdbParser) (k n : ℕ) (b : ObjectBuilder) (rest : List ℕ)
    → length rp.stack_ob ≡ k
    → n < 2 ^ 32
    → Holds rp (store_len_bytes n ++ rest)
    → chain_store_len (with_top rp b) k ≡ (
      again,
      with_top
          (consume rp (length (store_len_bytes n)))
          (record b { state = 2; store_len = n; len = 0 }),
      tt,
    )
unfolding chain_store_len
chain_store_len-read rp k n b rest top h holds =
    with_store_len-read (with_top rp b) n rest tt _ h
      (record { valid = holds.valid; left = holds.left })
    ∙ ap (λ p. (again, p, tt))
        (update-consume rp k (length (store_len_bytes n)) b
          (λ x. record x { state = 2; store_len = n; len = 0 }) top)

-- What a builder of a value leaves: the input behind it, the object that it fills, and the rest of the
-- parser as it was.
pub record BuiltObject (rp : RdbParser) (o' : RdbObject) (rest : List ℕ) (out : Outcome)
    : Type 0 where
  pub rp' : RdbParser
  pub result : out ≡ (over, rp', tt)
  pub holds : Holds rp' rest
  pub kept : rp' ≡ record rp { bb = rp'.bb; parsed = rp'.parsed; o = o' }
