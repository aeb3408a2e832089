-- ===== src/Rdb/Object/Built.antt =====
-- A value, and a key with its value, at the front of the input, built.
use kj_cpp_redis.Rdb.Block.Built.{build_block-BuiltObject}
use kj_cpp_redis.Rdb.Block.{
  build_block, build_intset_value, build_zipmap_value, build_zl_list_value, build_zl_hash_value,
}
use kj_cpp_redis.Rdb.Builder.Loop.{
  with_top, alloc-with_top, builder-with_top, update-with_top, pop-with_top, Holds, ob_loop-again,
  ob_loop-over, Ready, with_top-Ready,
}
use kj_cpp_redis.Rdb.Builder.{zero_builder, builder, set_state, alloc_object_builder, ob_loop}
use kj_cpp_redis.Rdb.Chain.Links.{BuiltObject}
use kj_cpp_redis.Rdb.Chain.Hashes.{pairs_bytes}
use kj_cpp_redis.Rdb.Chain.Lists.{
  moved, string_built, texts_bytes, build_list_or_set_value-BuiltObject,
}
use kj_cpp_redis.Rdb.Chain.Pairs.{build_hash_or_zset_value-BuiltObject}
use kj_cpp_redis.Rdb.Chain.{Outcome, build_list_or_set_value, build_hash_or_zset_value}
use kj_cpp_redis.Rdb.Object.Spec.{
  BlockType, hash_zipmap, list_ziplist, set_intset, zset_ziplist, hash_ziplist, block_type, load_of,
  ListType, list, set, HashType, zset, hash, list_type, hash_type, Value, string, texts, pairs,
  block, value_type, value_bytes, FitValue, with_value,
}
use kj_cpp_redis.Rdb.Object.{
  build_string_of_o, build_object_detail_kv_val, object_detail_kv_key, kv_step,
  build_object_detail_kv,
}
use kj_cpp_redis.Rdb.StoreLen.{store_len_bytes}
use kj_cpp_redis.Rdb.Text.Spec.{Text, text_bytes, text_of, FitText}
use kj_cpp_redis.Rdb.Text.{build_string_value}
use kj_cpp_redis.Rdb.Types.{Code, over, again, RdbObject, ObjectBuilder, RdbParser, Calls}
use kj_cpp_redis.Prelude.{
  ℕ, suc, ◌+◌, ◌≤◌, ◌≡◌, ◌∙◌, ap, refl, List, [], ◌∷◌, ◌++◌, append_assoc, arith, length,
}

-- Which builder runs for a type.
module _ (calls : Calls) (rp : RdbParser) (i : ℕ) where
  kv_val-string :
      rp.o.type ≡ 0
      → build_object_detail_kv_val calls rp i ≡ (
          let (rc, rp1) = build_string_of_o calls rp i rp.o.val (λ o v. record o { val = v }) in
          (rc, rp1, tt))
  unfolding build_object_detail_kv_val
  kv_val-string e = rw e refl

  kv_val-list :
      (lt : ListType)
      → rp.o.type ≡ list_type lt
      → build_object_detail_kv_val calls rp i ≡ build_list_or_set_value calls rp i
  unfolding build_object_detail_kv_val
  kv_val-list list e = rw e refl
  kv_val-list set e = rw e refl

  kv_val-hash :
      (ht : HashType)
      → rp.o.type ≡ hash_type ht
      → build_object_detail_kv_val calls rp i ≡ build_hash_or_zset_value calls rp i
  unfolding build_object_detail_kv_val
  kv_val-hash zset e = rw e refl
  kv_val-hash hash e = rw e refl

  kv_val-block :
      (bt : BlockType)
      → rp.o.type ≡ block_type bt
      → build_object_detail_kv_val calls rp i ≡ build_block (load_of calls bt) calls rp i
  unfolding build_object_detail_kv_val build_intset_value build_zipmap_value build_zl_list_value
      build_zl_hash_value
  kv_val-block hash_zipmap e = rw e refl
  kv_val-block list_ziplist e = rw e refl
  kv_val-block set_intset e = rw e refl
  kv_val-block zset_ziplist e = rw e refl
  kv_val-block hash_ziplist e = rw e refl

-- What is done with the outcome of the builder of strings.
abbrev pub o_outcome :
    (RdbObject → List ℕ → RdbObject) → Code × RdbParser × List ℕ → Code × RdbParser
o_outcome put (rc, rp1, val1) = (rc, record rp1 { o = put rp1.o val1 })

pub string_of_o_over :
    (calls : Calls) (rp rp' : RdbParser) (i : ℕ) (val s : List ℕ)
    (put : RdbObject → List ℕ → RdbObject)
    → build_string_value calls rp i val ≡ (over, rp', s)
    → build_string_of_o calls rp i val put ≡ o_outcome put (over, rp', s)
unfolding build_string_of_o
string_of_o_over calls rp rp' i val s put e = ap (o_outcome put) e

-- A value at the front of the input, by the builder of its type.
pub value-BuiltObject :
    (calls : Calls) (rp : RdbParser) (k : ℕ) (b : ObjectBuilder) (v : Value) (rest : List ℕ)
    → suc (k + 3) ≤ 256
    → length rp.stack_ob ≡ k
    → b.depth ≡ k
    → b.tmp_val ≡ []
    → rp.o.type ≡ value_type v
    → FitValue calls v
    → Holds rp (value_bytes v ++ rest)
    → BuiltObject
        (with_top rp b)
        (with_value calls rp.o v)
        rest
        (build_object_detail_kv_val calls (with_top rp b) k)
value-BuiltObject calls rp k b (string t) rest room top depth clear type fit holds =
    let val = text_of calls t in
    let put = λ (o : RdbObject) (v : List ℕ). record o { val = v } in
    let built = string_built calls k (omega arith) rp b rp.o.val t rest top depth fit holds in
    let rp1 = moved rp built.rp' in
    record {
      rp' = with_top (record rp1 { o = record rp1.o { val = val } }) b;
      result =
          kv_val-string calls (with_top rp b) k type
          ∙ ap (λ (out : Code × RdbParser). (out.0, out.1, tt))
              (string_of_o_over calls (with_top rp b) built.rp' k rp.o.val val put built.result
                ∙ ap (λ p. o_outcome put (over, p, val)) built.after.kept);
      holds = record { valid = built.after.holds.valid; left = built.after.holds.left };
      kept = refl;
    }
value-BuiltObject calls rp k b (texts lt t ts) rest room top depth clear type fit holds =
    let bytes = texts_bytes (t ∷ ts) in
    let built =
      build_list_or_set_value-BuiltObject calls (with_top rp b) k t ts rest
        (with_top-Ready rp k 3 b top depth room) (fit.0) (fit.1)
        (record {
          valid = holds.valid;
          left = holds.left ∙ append_assoc (store_len_bytes (length (t ∷ ts))) bytes rest;
        }) in
    record {
      rp' = built.rp';
      result = kv_val-list calls (with_top rp b) k lt type ∙ built.result;
      holds = built.holds;
      kept = built.kept;
    }
value-BuiltObject calls rp k b (pairs ht kv kvs) rest room top depth clear type fit holds =
    let bytes = pairs_bytes (kv ∷ kvs) in
    let built =
      build_hash_or_zset_value-BuiltObject calls (with_top rp b) k kv kvs rest
        (with_top-Ready rp k 3 b top depth room) (fit.0) (fit.1)
        (record {
          valid = holds.valid;
          left = holds.left ∙ append_assoc (store_len_bytes (length (kv ∷ kvs))) bytes rest;
        }) in
    record {
      rp' = built.rp';
      result = kv_val-hash calls (with_top rp b) k ht type ∙ built.result;
      holds = built.holds;
      kept = built.kept;
    }
value-BuiltObject calls rp k b (block bt t kvs size) rest room top depth clear type fit holds =
    let built =
      build_block-BuiltObject (load_of calls bt) calls rp k b t kvs size rest (omega arith) top
        depth clear (fit.0) (fit.1) holds in
    record {
      rp' = built.rp';
      result = kv_val-block calls (with_top rp b) k bt type ∙ built.result;
      holds = built.holds;
      kept = built.kept;
    }

-- The rounds of the key and of the value.
module _ (calls : Calls) (rp : RdbParser) (i : ℕ) where
  abbrev key_outcome : Code × RdbParser → Outcome
  key_outcome (rc, rp1) = elim rc [
    | over ↦ (again, set_state rp1 i 2, tt)
    | other ↦ (other, rp1, tt)
  ]

  kv_step-key :
      (rp' : RdbParser) (key : List ℕ)
      → (builder rp i).state ≡ 0
      → build_string_value calls rp i rp.o.key ≡ (over, rp', key)
      → kv_step calls i rp tt
        ≡ (again, set_state (record rp' { o = record rp'.o { key = key } }) i 2, tt)
  unfolding kv_step object_detail_kv_key
  kv_step-key rp' key state e = rw state (
      ap (λ (out : Code × RdbParser). key_outcome out)
        (string_of_o_over calls rp rp' i rp.o.key key (λ o v. record o { key = v }) e))

  kv_step-val :
      (builder rp i).state ≡ 2 → kv_step calls i rp tt ≡ build_object_detail_kv_val calls rp i
  unfolding kv_step
  kv_step-val state = rw state refl

-- A key with its value, at the front of a valid input: the builder of objects fills the key and the
-- value of the type that the object has, leaves the bytes behind them, and changes nothing else of the
-- parser.
pub build_object_detail_kv-BuiltObject :
    (calls : Calls) (rp : RdbParser) (i : ℕ) (key : Text) (v : Value) (rest : List ℕ)
    → Ready rp i 4
    → rp.o.type ≡ value_type v
    → FitText calls key
    → FitValue calls v
    → Holds rp (text_bytes key ++ (value_bytes v ++ rest))
    → BuiltObject rp
        (with_value calls (record rp.o { key = text_of calls key }) v)
        rest
        (build_object_detail_kv calls rp i)
unfolding build_object_detail_kv
build_object_detail_kv-BuiltObject calls rp i key v rest ready type fit_key fit_val holds =
    let k = length rp.stack_ob in
    let small = ready.small in
    let b = record zero_builder { depth = k } in
    let b1 = record b { state = 2 } in
    let at = builder-with_top rp k refl b in
    let one =
      string_built calls k (omega arith) rp b rp.o.key key (value_bytes v ++ rest) refl refl fit_key
        holds in
    let rp0 = moved rp one.rp' in
    let rp1 = record rp0 { o = record rp0.o { key = text_of calls key } } in
    let two =
      value-BuiltObject calls rp1 k b1 v rest (omega arith) refl refl refl type fit_val
        (record { valid = one.after.holds.valid; left = one.after.holds.left }) in
    let rp2 = record rp1 {
      bb = two.rp'.bb;
      parsed = two.rp'.parsed;
      o = with_value calls rp1.o v;
    } in
    record {
      rp' = rp2;
      result =
          ap (λ d. ob_loop 2 (kv_step calls d) (alloc_object_builder rp d) tt) ready.next
          ∙ ap (λ p. ob_loop 2 (kv_step calls k) p tt)
              (alloc-with_top rp k refl (omega (arith, small)))
          ∙ ob_loop-again (kv_step calls k) 1 (with_top rp b) (with_top rp1 b1) tt tt (
              kv_step-key calls (with_top rp b) k one.rp' (text_of calls key) (ap (λ x. x.state) at)
                one.result
              ∙ ap
                  (λ p. (
                    again,
                    set_state (record p { o = record p.o { key = text_of calls key } }) k 2,
                    tt,
                  ))
                  one.after.kept
              ∙ ap (λ p. (again, p, tt))
                  (update-with_top rp1 k b (λ x. record x { state = 2 }) refl))
          ∙ ob_loop-over (kv_step calls k) 0 (with_top rp1 b1) (with_top rp2 b1) tt tt (
              kv_step-val calls (with_top rp1 b1) k
                (ap (λ x. x.state) (builder-with_top rp1 k refl b1))
              ∙ two.result
              ∙ ap (λ p. (over, p, tt)) two.kept)
          ∙ ap (λ p. (over, p, tt)) (pop-with_top rp2 b1);
      holds = record { valid = two.holds.valid; left = two.holds.left };
      kept = refl;
    }
