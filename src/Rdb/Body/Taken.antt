-- ===== src/Rdb/Body/Taken.antt =====
-- A record of the body of a dump at the front of the input, built and handed to the callback.
use kj_cpp_redis.BipBuf.Content.{get_committed_size-length}
use kj_cpp_redis.Rdb.Body.Spec.{
  Record, entry, selectdb, expiretime, expiretime_ms, detail_bytes, FitRecord, typed, seen_of,
  be_word,
}
use kj_cpp_redis.Rdb.Body.Rounds.{
  detail-entry, detail-selectdb, detail-expiretime, detail-expiretime_ms, body_step-detail,
  walked_on, next_object-top,
}
use kj_cpp_redis.Rdb.Body.{
  read_db_selector, read_expire_time, next_object, when_over, build_object_detail, body_step,
}
use kj_cpp_redis.Rdb.Builder.After.{consume-After}
use kj_cpp_redis.Rdb.Builder.Loop.{with_top, builder-with_top, Holds, with_top-Ready}
use kj_cpp_redis.Rdb.Builder.{consume}
use kj_cpp_redis.Rdb.Endian.{memrev32, memrev64, le_bytes}
use kj_cpp_redis.Rdb.Helper.{StoreLen, calc_crc}
use kj_cpp_redis.Rdb.Object.Built.{build_object_detail_kv-BuiltObject}
use kj_cpp_redis.Rdb.Object.Spec.{value_bytes}
use kj_cpp_redis.Rdb.StoreLen.{store_len_bytes, read_store_len-bytes}
use kj_cpp_redis.Rdb.Text.Spec.{text_bytes}
use kj_cpp_redis.Rdb.Types.{over, again, empty_object, ObjectBuilder, RdbParser, Calls}
use kj_cpp_redis.Prelude.{
  ℕ, suc, ◌+◌, ◌/◌, ◌%◌, ◌^◌, ◌<◌, ◌≤◌, ◌≡◌, ◌∙◌, ap, refl, true, false, Option, none, some, List,
  [], ◌∷◌, ◌++◌, append_assoc, arith, length,
}

read_db_selector-bytes :
    (rp : RdbParser) (n : ℕ) (rest : List ℕ)
    → n < 2 ^ 32
    → Holds rp (store_len_bytes n ++ rest)
    → read_db_selector rp.bb ≡ some (length (store_len_bytes n), n)
unfolding read_db_selector
read_db_selector-bytes rp n rest h holds =
    ap (λ (r : Option StoreLen). elim r [ none ↦ none | some l ↦ some (l.bytes, l.out) ])
      (read_store_len-bytes n rest holds.valid h holds.left)

read_expire_time-bytes :
    (rp : RdbParser) (n : ℕ) (rest : List ℕ)
    → Holds rp (le_bytes 4 n ++ rest)
    → read_expire_time rp.bb false ≡ some (4, be_word 0 (le_bytes 4 n))
unfolding read_expire_time memrev32
read_expire_time-bytes rp n rest holds =
    ground (arith, get_committed_size-length holds.valid, ap length holds.left, holds.left)

read_expire_time-bytes_ms :
    (rp : RdbParser) (n : ℕ) (rest : List ℕ)
    → Holds rp (le_bytes 8 n ++ rest)
    → read_expire_time rp.bb true ≡ some (8, be_word 0 (le_bytes 8 n) / 1000 % 2 ^ 32)
unfolding read_expire_time memrev64
read_expire_time-bytes_ms rp n rest holds =
    ground (arith, get_committed_size-length holds.valid, ap length holds.left, holds.left)

when_over-over :
    (calls : Calls) (i : ℕ) (rp : RdbParser)
    → when_over calls i (over, rp, tt) ≡ next_object calls rp i
unfolding when_over
when_over-over calls i rp = refl

-- The object has its type, and the details are at the front of the input.
pub record Taken (calls : Calls) (rp : RdbParser) (k : ℕ) (b : ObjectBuilder) (r : Record)
    (rest : List ℕ) : Type 0 where
  pub rp' : RdbParser
  pub result :
      body_step calls k (with_top (record rp { o = typed r }) b) tt
      ≡ (again, with_top rp' (record b { state = 1 }), tt)
  pub holds : Holds rp' rest
  pub kept : rp' ≡ record rp {
    bb = rp'.bb;
    parsed = rp'.parsed;
    o = empty_object;
    walked = rp.walked ++ (seen_of calls r ∷ []);
  }

-- A detail that is a number: the object `o` with it, and `n` bytes consumed.
number-Taken :
    (calls : Calls) (rp : RdbParser) (k : ℕ) (b : ObjectBuilder) (r : Record) (bytes rest : List ℕ)
    → length rp.stack_ob ≡ k
    → b.state ≡ 2
    → calls.o_cb rp.walked (seen_of calls r) ≡ 0
    → Holds rp (bytes ++ rest)
    → build_object_detail calls (with_top (record rp { o = typed r }) b) k
      ≡ next_object calls
          (consume (with_top (record rp { o = seen_of calls r }) b) (length bytes))
          k
    → Taken calls rp k b r rest
unfolding consume calc_crc
number-Taken calls rp k b r bytes rest top state accepts holds detail =
    let rp1 = record rp { o = typed r } in
    let rp2 = consume (record rp { o = seen_of calls r }) (length bytes) in
    let after = consume-After rp bytes rest holds in
    record {
      rp' = walked_on rp2;
      result =
          body_step-detail calls (with_top rp1 b) k
            (ap (λ x. x.state) (builder-with_top rp1 k top b) ∙ state)
          ∙ detail
          ∙ next_object-top calls rp2 k b top accepts;
      holds = record { valid = after.holds.valid; left = after.holds.left };
      kept = refl;
    }

pub record-Taken :
    (calls : Calls) (rp : RdbParser) (k : ℕ) (b : ObjectBuilder) (r : Record) (rest : List ℕ)
    → suc (k + 4) ≤ 256
    → length rp.stack_ob ≡ k
    → b.depth ≡ k
    → b.state ≡ 2
    → FitRecord calls r
    → calls.o_cb rp.walked (seen_of calls r) ≡ 0
    → Holds rp (detail_bytes r ++ rest)
    → Taken calls rp k b r rest
record-Taken calls rp k b (entry key v) rest room top depth state fit accepts holds =
    let rp1 = record rp { o = typed (entry key v) } in
    let built =
      build_object_detail_kv-BuiltObject calls (with_top rp1 b) k key v rest
        (with_top-Ready rp1 k 4 b top depth room) refl (fit.0) (fit.1)
        (record {
          valid = holds.valid;
          left = holds.left ∙ append_assoc (text_bytes key) (value_bytes v) rest;
        }) in
    let rp2 = record rp {
      bb = built.rp'.bb;
      parsed = built.rp'.parsed;
      o = seen_of calls (entry key v);
    } in
    record {
      rp' = walked_on rp2;
      result =
          body_step-detail calls (with_top rp1 b) k
            (ap (λ x. x.state) (builder-with_top rp1 k top b) ∙ state)
          ∙ detail-entry calls (with_top rp1 b) k v refl
          ∙ ap (when_over calls k) built.result
          ∙ when_over-over calls k built.rp'
          ∙ ap (λ p. next_object calls p k) built.kept
          ∙ next_object-top calls rp2 k b top accepts;
      holds = record { valid = built.holds.valid; left = built.holds.left };
      kept = refl;
    }
record-Taken calls rp k b (selectdb n) rest room top depth state fit accepts holds =
    let rp1 = record rp { o = typed (selectdb n) } in
    number-Taken calls rp k b (selectdb n) (store_len_bytes n) rest top state accepts holds (
      detail-selectdb calls (with_top rp1 b) k n (length (store_len_bytes n)) refl
        (read_db_selector-bytes rp n rest fit holds))
record-Taken calls rp k b (expiretime n) rest room top depth state fit accepts holds =
    let rp1 = record rp { o = typed (expiretime n) } in
    number-Taken calls rp k b (expiretime n) (le_bytes 4 n) rest top state accepts holds (
      detail-expiretime calls (with_top rp1 b) k (be_word 0 (le_bytes 4 n)) 4 refl
        (read_expire_time-bytes rp n rest holds))
record-Taken calls rp k b (expiretime_ms n) rest room top depth state fit accepts holds =
    let rp1 = record rp { o = typed (expiretime_ms n) } in
    number-Taken calls rp k b (expiretime_ms n) (le_bytes 8 n) rest top state accepts holds (
      detail-expiretime_ms calls (with_top rp1 b) k (be_word 0 (le_bytes 8 n) / 1000 % 2 ^ 32) 8
        refl (read_expire_time-bytes_ms rp n rest holds))
