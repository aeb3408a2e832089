-- ===== src/Rdb/Chain/Hashes.antt =====
-- A hash or a sorted set of pairs of strings at the front of the input, built.
use kj_cpp_redis.Rdb.Builder.Loop.{with_top, builder-with_top, update-with_top, Holds}
use kj_cpp_redis.Rdb.Builder.{builder, update, set_state}
use kj_cpp_redis.Rdb.Chain.Links.{ltb-true}
use kj_cpp_redis.Rdb.Chain.Lists.{moved, string_built, length-text_bytes}
use kj_cpp_redis.Rdb.Chain.{Outcome, push_kv, push_link, hash_loop_key, hash_loop_val, hash_step}
use kj_cpp_redis.Rdb.Text.RoundTrip.{BuiltText}
use kj_cpp_redis.Rdb.Text.Spec.{Text, text_bytes, text_of, FitText}
use kj_cpp_redis.Rdb.Text.{build_string_value}
use kj_cpp_redis.Rdb.Types.{Code, over, again, RdbObject, ObjectBuilder, RdbParser, Calls}
use kj_cpp_redis.Prelude.{
  ℕ, suc, ◌+◌, ◌<◌, ◌≤◌, ◌≡◌, ◌∙◌, ap, refl, List, [], ◌∷◌, ◌++◌, arith, length, length-append,
}

abbrev pub pairs_bytes : List (Text × Text) → List ℕ
pairs_bytes [] = []
pairs_bytes ((key, val) ∷ kvs) = text_bytes key ++ (text_bytes val ++ pairs_bytes kvs)

abbrev pub FitPairs : Calls → List (Text × Text) → Type 0
FitPairs calls [] = Unit {0}
FitPairs calls ((key, val) ∷ kvs) = FitText calls key × FitText calls val × FitPairs calls kvs

-- The links of pairs at the end of the chain of an object.
abbrev pub push_pairs : Calls → RdbObject → List (Text × Text) → RdbObject
push_pairs calls o [] = o
push_pairs calls o ((key, val) ∷ kvs) =
    push_pairs calls (push_kv o (record { key = text_of calls key; val = text_of calls val })) kvs

pub length-pairs_bytes :
    (kvs : List (Text × Text)) → length kvs + length kvs ≤ length (pairs_bytes kvs)
length-pairs_bytes [] = omega arith
length-pairs_bytes ((key, val) ∷ kvs) = omega (
  arith,
  length-append (text_bytes key) (text_bytes val ++ pairs_bytes kvs),
  length-append (text_bytes val) (pairs_bytes kvs),
  length-text_bytes key,
  length-text_bytes val,
  length-pairs_bytes kvs,
)

-- The builder with a key, which waits for the value.
abbrev pub keyed : ObjectBuilder → List ℕ → ObjectBuilder
keyed b key = record b { tmp_key = key; state = 3 }

-- What `__build_hash_or_zset_loop_key` and `__build_hash_or_zset_loop_val` do with the outcome of the
-- builder of strings.
abbrev key_outcome : ℕ → Code × RdbParser × List ℕ → Outcome
key_outcome i (rc, rp1, tmp_key) =
    let rp2 = update rp1 i λ ob1. record ob1 { tmp_key = tmp_key } in
    elim rc [ over ↦ (again, set_state rp2 i 3, tt) | other ↦ (other, rp2, tt) ]

abbrev val_outcome : ℕ → Code × RdbParser × List ℕ → Outcome
val_outcome i (rc, rp1, tmp_val) = elim rc [
  | over ↦ push_link rp1 i (record { key = (builder rp1 i).tmp_key; val = tmp_val }) 2
  | other ↦ (other, update rp1 i (λ ob1. record ob1 { tmp_val = tmp_val }), tt)
]

module _ (calls : Calls) (k : ℕ) (room : suc (k + 2) ≤ 256) where
  key_taken :
      (rp rp' : RdbParser) (i : ℕ) (key : List ℕ)
      → (builder rp i).state ≡ 2
      → (builder rp i).len < (builder rp i).store_len
      → build_string_value calls rp i (builder rp i).tmp_key ≡ (over, rp', key)
      → hash_step calls i rp tt ≡ key_outcome i (over, rp', key)
  unfolding hash_step hash_loop_key
  key_taken rp rp' i key state more e =
      rw (state, ltb-true (builder rp i).len (builder rp i).store_len more) (ap (key_outcome i) e)

  val_taken :
      (rp rp' : RdbParser) (i : ℕ) (val : List ℕ)
      → (builder rp i).state ≡ 3
      → (builder rp i).len < (builder rp i).store_len
      → build_string_value calls rp i (builder rp i).tmp_val ≡ (over, rp', val)
      → hash_step calls i rp tt ≡ val_outcome i (over, rp', val)
  unfolding hash_step hash_loop_val
  val_taken rp rp' i val state more e =
      rw (state, ltb-true (builder rp i).len (builder rp i).store_len more) (ap (val_outcome i) e)

  hash_step-key :
      (rp : RdbParser) (b : ObjectBuilder) (t : Text) (rest : List ℕ)
      → length rp.stack_ob ≡ k
      → b.state ≡ 2
      → b.len < b.store_len
      → (built : BuiltText calls
          (with_top rp b)
          t
          rest
          (build_string_value calls (with_top rp b) k b.tmp_key))
      → hash_step calls k (with_top rp b) tt
        ≡ (again, with_top (moved rp built.rp') (keyed b (text_of calls t)), tt)
  hash_step-key rp b t rest top state more built =
      let at = builder-with_top rp k top b in
      let key = text_of calls t in
      let rp1 = moved rp built.rp' in
      key_taken (with_top rp b) built.rp' k key (ap (λ x. x.state) at ∙ state)
        (omega (arith, more, ap (λ x. x.len) at, ap (λ x. x.store_len) at))
        (ap (λ x. build_string_value calls (with_top rp b) k x.tmp_key) at ∙ built.result)
      ∙ ap (λ p. key_outcome k (over, p, key)) built.after.kept
      ∙ ap (λ p. (again, set_state p k 3, tt))
          (update-with_top rp1 k b (λ ob. record ob { tmp_key = key }) top)
      ∙ ap (λ p. (again, p, tt))
          (update-with_top rp1 k (record b { tmp_key = key }) (λ ob. record ob { state = 3 }) top)

  hash_step-val :
      (rp : RdbParser) (b : ObjectBuilder) (t : Text) (rest : List ℕ)
      → length rp.stack_ob ≡ k
      → b.state ≡ 3
      → b.len < b.store_len
      → (built : BuiltText calls
          (with_top rp b)
          t
          rest
          (build_string_value calls (with_top rp b) k b.tmp_val))
      → hash_step calls k (with_top rp b) tt
        ≡ push_link
            (with_top (moved rp built.rp') b)
            k
            (record { key = b.tmp_key; val = text_of calls t })
            2
  hash_step-val rp b t rest top state more built =
      let at = builder-with_top rp k top b in
      let val = text_of calls t in
      let rp1 = moved rp built.rp' in
      val_taken (with_top rp b) built.rp' k val (ap (λ x. x.state) at ∙ state)
        (omega (arith, more, ap (λ x. x.len) at, ap (λ x. x.store_len) at))
        (ap (λ x. build_string_value calls (with_top rp b) k x.tmp_val) at ∙ built.result)
      ∙ ap (λ p. val_outcome k (over, p, val)) built.after.kept
      ∙ ap (λ x. push_link (with_top rp1 b) k (record { key = x.tmp_key; val = val }) 2)
          (builder-with_top rp1 k top b)

  -- A pair at the front of the input: two rounds, of which the second links it.
  pub record PairTaken (rp : RdbParser) (b : ObjectBuilder) (key val : Text) (left : List ℕ)
      : Type 0 where
    pub rp1 : RdbParser
    pub rp' : RdbParser
    pub first :
        hash_step calls k (with_top rp b) tt
        ≡ (again, with_top rp1 (keyed b (text_of calls key)), tt)
    pub second :
        hash_step calls k (with_top rp1 (keyed b (text_of calls key))) tt
        ≡ push_link
            (with_top (moved rp rp') (keyed b (text_of calls key)))
            k
            (record { key = text_of calls key; val = text_of calls val })
            2
    pub holds : Holds (moved rp rp') left

  pub pair_taken :
      (rp : RdbParser) (b : ObjectBuilder) (key val : Text) (left : List ℕ)
      → length rp.stack_ob ≡ k
      → b.depth ≡ k
      → b.state ≡ 2
      → b.len < b.store_len
      → FitText calls key
      → FitText calls val
      → Holds rp (text_bytes key ++ (text_bytes val ++ left))
      → PairTaken rp b key val left
  pair_taken rp b key val left top depth state more fit_key fit_val holds =
      let built1 =
        string_built calls k room rp b b.tmp_key key (text_bytes val ++ left) top depth fit_key
          holds in
      let rp1 = moved rp built1.rp' in
      let b1 = keyed b (text_of calls key) in
      let built2 =
        string_built calls k room rp1 b1 b1.tmp_val val left top depth fit_val
          (record { valid = built1.after.holds.valid; left = built1.after.holds.left }) in
      record {
        rp1 = rp1;
        rp' = built2.rp';
        first = hash_step-key rp b key (text_bytes val ++ left) top state more built1;
        second = hash_step-val rp1 b1 val left top refl more built2;
        holds = record { valid = built2.after.holds.valid; left = built2.after.holds.left };
      }
