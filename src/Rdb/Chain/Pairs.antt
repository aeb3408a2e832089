-- ===== src/Rdb/Chain/Pairs.antt =====
-- A hash or a sorted set of pairs of strings at the front of the input, built.
use kj_cpp_redis.BipBuf.Content.{get_committed_size-length}
use kj_cpp_redis.BipBuf.{get_committed_size}
use kj_cpp_redis.Rdb.Builder.After.{consume-After}
use kj_cpp_redis.Rdb.Builder.Loop.{
  with_top, alloc-with_top, builder-with_top, pop-with_top, Holds, ob_loop-again, ob_loop-over,
  stack_ob-consume, Ready,
}
use kj_cpp_redis.Rdb.Builder.{zero_builder, builder, alloc_object_builder, consume, ob_loop}
use kj_cpp_redis.Rdb.Chain.Links.{
  linked, counted, push_link-again, push_link-over, chain_store_len-read, BuiltObject,
}
use kj_cpp_redis.Rdb.Chain.Lists.{moved}
use kj_cpp_redis.Rdb.Chain.Hashes.{
  pairs_bytes, FitPairs, push_pairs, length-pairs_bytes, keyed, pair_taken,
}
use kj_cpp_redis.Rdb.Chain.{
  push_kv, chain_store_len, hash_step, chain_fuel, build_hash_or_zset_value,
}
use kj_cpp_redis.Rdb.Helper.{calc_crc}
use kj_cpp_redis.Rdb.StoreLen.{store_len_bytes}
use kj_cpp_redis.Rdb.Text.Spec.{Text, text_bytes, text_of}
use kj_cpp_redis.Rdb.Types.{over, again, Kv, ObjectBuilder, RdbParser, Calls}
use kj_cpp_redis.Prelude.{
  ℕ, zero, suc, ◌+◌, ◌^◌, ◌<◌, ◌≤◌, ◌≡◌, ◌∙◌, ap, refl, List, [], ◌∷◌, ◌++◌, append_assoc,
  append-nil, arith, length, length-append,
}

module _ (calls : Calls) (k : ℕ) (room : suc (k + 2) ≤ 256) where
  hash_step-idle :
      (rp : RdbParser) (i : ℕ)
      → (builder rp i).state ≡ 0
      → hash_step calls i rp tt ≡ chain_store_len rp i
  unfolding hash_step
  hash_step-idle rp i e = rw e refl

  pub hash_step-len :
      (rp : RdbParser) (b : ObjectBuilder) (n : ℕ) (rest : List ℕ)
      → length rp.stack_ob ≡ k
      → b.state ≡ 0
      → n < 2 ^ 32
      → Holds rp (store_len_bytes n ++ rest)
      → hash_step calls k (with_top rp b) tt ≡ (
        again,
        with_top
            (consume rp (length (store_len_bytes n)))
            (record b { state = 2; store_len = n; len = 0 }),
        tt,
      )
  hash_step-len rp b n rest top idle h holds =
      hash_step-idle (with_top rp b) k (ap (λ x. x.state) (builder-with_top rp k top b) ∙ idle)
      ∙ chain_store_len-read rp k n b rest top h holds

  hash_rounds :
      (fuel : ℕ) (rp : RdbParser) (b : ObjectBuilder) (key val : Text) (kvs : List (Text × Text))
      (rest : List ℕ)
      → length kvs + length kvs + 2 ≤ fuel
      → length rp.stack_ob ≡ k
      → b.depth ≡ k
      → b.state ≡ 2
      → b.len + suc (length kvs) ≡ b.store_len
      → b.store_len < 2 ^ 32
      → FitPairs calls ((key, val) ∷ kvs)
      → Holds rp (pairs_bytes ((key, val) ∷ kvs) ++ rest)
      → BuiltObject rp
          (record (push_pairs calls rp.o ((key, val) ∷ kvs)) { size = b.store_len })
          rest
          (ob_loop fuel (hash_step calls k) (with_top rp b) tt)
  hash_rounds zero rp b key val kvs rest lt top depth state len h fit holds = absurd (omega arith)
  hash_rounds (suc zero) rp b key val kvs rest lt top depth state len h fit holds =
      absurd (omega arith)
  hash_rounds (suc (suc fuel)) rp b key val [] rest lt top depth state len h fit holds =
      let kv : Kv = record { key = text_of calls key; val = text_of calls val } in
      let b1 = keyed b (text_of calls key) in
      let taken =
        pair_taken calls k room rp b key val rest top depth state (omega arith) (fit.0) (fit.1)
          (record {
            valid = holds.valid;
            left =
                holds.left
                ∙ append_assoc (text_bytes key) (text_bytes val ++ []) rest
                ∙ ap (λ u. text_bytes key ++ (u ++ rest)) (append-nil (text_bytes val));
          }) in
      let rp1 = moved rp taken.rp' in
      let rp2 = record rp1 { o = record (push_kv rp1.o kv) { size = b.store_len } } in
      record {
        rp' = rp2;
        result =
            ob_loop-again (hash_step calls k) (suc fuel) (with_top rp b) (with_top taken.rp1 b1) tt
              tt taken.first
            ∙ ob_loop-over (hash_step calls k) fuel (with_top taken.rp1 b1)
                (with_top rp2 (counted b1)) tt tt
                (taken.second ∙ push_link-over rp1 k b1 kv 2 top (omega arith) h)
            ∙ ap (λ p. (over, p, tt)) (pop-with_top rp2 (counted b1));
        holds = record { valid = taken.holds.valid; left = taken.holds.left };
        kept = refl;
      }
  hash_rounds (suc (suc fuel)) rp b key val (kv' ∷ kvs) rest lt top depth state len h fit holds =
      let kv : Kv = record { key = text_of calls key; val = text_of calls val } in
      let b1 = keyed b (text_of calls key) in
      let b2 = record (counted b1) { state = 2 } in
      let left = pairs_bytes (kv' ∷ kvs) ++ rest in
      let taken =
        pair_taken calls k room rp b key val left top depth state (omega arith) (fit.0) (fit.1)
          (record {
            valid = holds.valid;
            left =
                holds.left
                ∙ append_assoc (text_bytes key) (text_bytes val ++ pairs_bytes (kv' ∷ kvs)) rest
                ∙ ap (λ u. text_bytes key ++ u)
                    (append_assoc (text_bytes val) (pairs_bytes (kv' ∷ kvs)) rest);
          }) in
      let rp1 = moved rp taken.rp' in
      let next =
        hash_rounds fuel (linked rp1 kv) b2 (kv'.0) (kv'.1) kvs rest (omega arith) top depth refl
          (omega arith) h (fit.2) (record { valid = taken.holds.valid; left = taken.holds.left }) in
      record {
        rp' = next.rp';
        result =
            ob_loop-again (hash_step calls k) (suc fuel) (with_top rp b) (with_top taken.rp1 b1) tt
              tt taken.first
            ∙ ob_loop-again (hash_step calls k) fuel (with_top taken.rp1 b1)
                (with_top (linked rp1 kv) b2) tt tt
                (taken.second ∙ push_link-again rp1 k b1 kv 2 top (omega arith) h)
            ∙ next.result;
        holds = next.holds;
        kept = next.kept;
      }

pub build_hash_or_zset_value-BuiltObject :
    (calls : Calls) (rp : RdbParser) (i : ℕ) (kv : Text × Text) (kvs : List (Text × Text))
    (rest : List ℕ)
    → Ready rp i 3
    → length (kv ∷ kvs) < 2 ^ 32
    → FitPairs calls (kv ∷ kvs)
    → Holds rp (store_len_bytes (length (kv ∷ kvs)) ++ (pairs_bytes (kv ∷ kvs) ++ rest))
    → BuiltObject rp
        (record (push_pairs calls rp.o (kv ∷ kvs)) { size = length (kv ∷ kvs) })
        rest
        (build_hash_or_zset_value calls rp i)
unfolding build_hash_or_zset_value consume calc_crc
build_hash_or_zset_value-BuiltObject calls rp i kv kvs rest ready h fit holds =
    let k = length rp.stack_ob in
    let n = length (kv ∷ kvs) in
    let bytes = pairs_bytes (kv ∷ kvs) in
    let body = hash_step calls k in
    let b = record zero_builder { depth = k } in
    let b1 = record b { state = 2; store_len = n } in
    let rp1 = consume rp (length (store_len_bytes n)) in
    let one = consume-After rp (store_len_bytes n) (bytes ++ rest) holds in
    let room : suc (k + 2) ≤ 256 = omega (arith, ready.small) in
    let fuel : length kvs + length kvs + 2 ≤ suc (get_committed_size rp.bb) = omega (
      arith,
      get_committed_size-length holds.valid,
      ap length holds.left,
      length-append (store_len_bytes n) (bytes ++ rest),
      length-append bytes rest,
      length-pairs_bytes (kv ∷ kvs),
    ) in
    let rounds =
      hash_rounds calls k room (suc (get_committed_size rp.bb)) rp1 b1 (kv.0) (kv.1) kvs rest fuel
        (ap length (stack_ob-consume rp (length (store_len_bytes n)))) refl refl (omega arith) h fit
        one.holds in
    record {
      rp' = rounds.rp';
      result =
          ap (λ d. ob_loop (chain_fuel rp) (hash_step calls d) (alloc_object_builder rp d) tt)
            ready.next
          ∙ ap (λ p. ob_loop (chain_fuel rp) body p tt)
              (alloc-with_top rp k refl (omega (arith, ready.small)))
          ∙ ob_loop-again body (suc (get_committed_size rp.bb)) (with_top rp b) (with_top rp1 b1) tt
              tt (hash_step-len calls k room rp b n (bytes ++ rest) refl refl h holds)
          ∙ rounds.result;
      holds = rounds.holds;
      kept = rounds.kept;
    }
