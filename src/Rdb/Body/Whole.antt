-- ===== src/Rdb/Body/Whole.antt =====
-- The body of a dump, built.
use kj_cpp_redis.BipBuf.Content.{get_committed_size-length}
use kj_cpp_redis.BipBuf.{get_committed_size}
use kj_cpp_redis.Rdb.Body.Rounds.{
  build_object_type-read, body_step-detail, body_step-type, detail-eof,
}
use kj_cpp_redis.Rdb.Body.Spec.{
  Record, entry, selectdb, expiretime, expiretime_ms, record_type, detail_bytes, typed, seen_of,
  records_bytes, FitRecords, Accepts, seen_objects,
}
use kj_cpp_redis.Rdb.Body.Taken.{record-Taken}
use kj_cpp_redis.Rdb.Body.{body_step, build_body}
use kj_cpp_redis.Rdb.Builder.After.{consume-After}
use kj_cpp_redis.Rdb.Builder.Loop.{
  with_top, alloc-with_top, builder-with_top, pop-with_top, Holds, ob_loop-again, ob_loop-over,
}
use kj_cpp_redis.Rdb.Builder.{zero_builder, consume, ob_loop}
use kj_cpp_redis.Rdb.Chain.Lists.{length-text_bytes}
use kj_cpp_redis.Rdb.Chain.{Outcome}
use kj_cpp_redis.Rdb.Helper.{calc_crc}
use kj_cpp_redis.Rdb.Object.Spec.{value_bytes}
use kj_cpp_redis.Rdb.Text.Spec.{text_bytes}
use kj_cpp_redis.Rdb.Types.{over, again, RdbObject, empty_object, ObjectBuilder, RdbParser, Calls}
use kj_cpp_redis.Prelude.{
  ℕ, zero, suc, ◌+◌, ◌<◌, ◌≤◌, ◌≡◌, ◌∙◌, ap, refl, sym, true, List, [], ◌∷◌, ◌++◌, append_assoc,
  append-nil, arith, length, length-append, leb,
}

-- The object that the end of the dump leaves.
abbrev pub last_object : RdbObject
last_object = record empty_object { type = 255 }

-- The body is over: what follows it is left, the callback got the objects in order, and the rest of
-- the parser is as it was.
pub record BuiltBody (calls : Calls) (rp : RdbParser) (rs : List Record) (rest : List ℕ)
    (out : Outcome) : Type 0 where
  pub rp' : RdbParser
  pub result : out ≡ (over, rp', tt)
  pub holds : Holds rp' rest
  pub kept : rp' ≡ record rp {
    bb = rp'.bb;
    parsed = rp'.parsed;
    o = last_object;
    walked = rp.walked ++ seen_objects calls rs;
  }

type_round :
    (calls : Calls) (rp : RdbParser) (k : ℕ) (b : ObjectBuilder) (t : ℕ) (rest : List ℕ)
    → length rp.stack_ob ≡ k
    → leb b.state 1 ≡ true
    → Holds rp (t ∷ rest)
    → body_step calls k (with_top (record rp { o = empty_object }) b) tt ≡ (
      again,
      with_top
          (record (consume rp 1) { o = record empty_object { type = t } })
          (record b { state = 2 }),
      tt,
    )
unfolding consume calc_crc
type_round calls rp k b t rest top state holds =
    let rp1 = record rp { o = empty_object } in
    body_step-type calls (with_top rp1 b) k
      (ap (λ (x : ObjectBuilder). leb x.state 1) (builder-with_top rp1 k top b) ∙ state)
    ∙ build_object_type-read rp1 k t b rest top (record { valid = holds.valid; left = holds.left })

module _ (calls : Calls) (k : ℕ) (room : suc (k + 4) ≤ 256) where
  body_rounds :
      (fuel : ℕ) (rp : RdbParser) (b : ObjectBuilder) (rs : List Record) (rest : List ℕ)
      → length rs + length rs + 2 ≤ fuel
      → length rp.stack_ob ≡ k
      → b.depth ≡ k
      → leb b.state 1 ≡ true
      → FitRecords calls rs
      → Accepts calls rp.walked rs
      → Holds rp (records_bytes rs ++ rest)
      → BuiltBody calls rp rs rest
          (ob_loop fuel (body_step calls k) (with_top (record rp { o = empty_object }) b) tt)
  unfolding consume calc_crc
  body_rounds zero rp b rs rest lt top depth state fit accepts holds = absurd (omega arith)
  body_rounds (suc zero) rp b rs rest lt top depth state fit accepts holds = absurd (omega arith)
  body_rounds (suc (suc fuel)) rp b [] rest lt top depth state fit accepts holds =
      let b1 = record b { state = 2 } in
      let after = consume-After rp (255 ∷ []) rest holds in
      let rp0 = record rp { o = empty_object } in
      let rp1 = record (consume rp 1) { o = last_object } in
      record {
        rp' = rp1;
        result =
            ob_loop-again (body_step calls k) (suc fuel) (with_top rp0 b) (with_top rp1 b1) tt tt
              (type_round calls rp k b 255 rest top state holds)
            ∙ ob_loop-over (body_step calls k) fuel (with_top rp1 b1) (with_top rp1 b1) tt tt (
                body_step-detail calls (with_top rp1 b1) k
                  (ap (λ x. x.state) (builder-with_top rp1 k top b1))
                ∙ detail-eof calls (with_top rp1 b1) k refl)
            ∙ ap (λ p. (over, p, tt)) (pop-with_top rp1 b1);
        holds = record { valid = after.holds.valid; left = after.holds.left };
        kept = ap (λ w. record rp1 { walked = w }) (sym (append-nil rp.walked));
      }
  body_rounds (suc (suc fuel)) rp b (r ∷ rs) rest lt top depth state fit accepts holds =
      let b1 = record b { state = 2 } in
      let t = record_type r in
      let left = records_bytes rs ++ rest in
      let holds0 : Holds rp (t ∷ (detail_bytes r ++ left)) = record {
        valid = holds.valid;
        left = holds.left ∙ ap (◌∷◌ t) (append_assoc (detail_bytes r) (records_bytes rs) rest);
      } in
      let after = consume-After rp (t ∷ []) (detail_bytes r ++ left) holds0 in
      let rp0 = record rp { o = empty_object } in
      let rp1 = consume rp 1 in
      let taken =
        record-Taken calls rp1 k b1 r left room top depth refl (fit.0) (accepts.0) after.holds in
      let rp2 = record rp {
        bb = taken.rp'.bb;
        parsed = taken.rp'.parsed;
        walked = rp.walked ++ (seen_of calls r ∷ []);
      } in
      let b2 = record b { state = 1 } in
      let next =
        body_rounds fuel rp2 b2 rs rest (omega arith) top depth refl (fit.1) (accepts.1)
          (record { valid = taken.holds.valid; left = taken.holds.left }) in
      record {
        rp' = next.rp';
        result =
            ob_loop-again (body_step calls k) (suc fuel) (with_top rp0 b)
              (with_top (record rp1 { o = typed r }) b1) tt tt
              (type_round calls rp k b t (detail_bytes r ++ left) top state holds0)
            ∙ ob_loop-again (body_step calls k) fuel (with_top (record rp1 { o = typed r }) b1)
                (with_top (record rp2 { o = empty_object }) b2) tt tt
                (taken.result ∙ ap (λ p. (again, with_top p b2, tt)) taken.kept)
            ∙ next.result;
        holds = next.holds;
        kept =
            next.kept
            ∙ ap
                (λ w. record next.rp' {
                  version = rp.version;
                  state = rp.state;
                  stack_ob = rp.stack_ob;
                  o = last_object;
                  walked = w;
                })
                (append_assoc rp.walked (seen_of calls r ∷ []) (seen_objects calls rs));
      }

length-detail_bytes : (r : Record) → 0 < length (detail_bytes r)
length-detail_bytes (entry key v) =
    omega (arith, length-text_bytes key, length-append (text_bytes key) (value_bytes v))
length-detail_bytes (selectdb n) = ground arith
length-detail_bytes (expiretime n) = omega arith
length-detail_bytes (expiretime_ms n) = omega arith

length-records_bytes : (rs : List Record) → length rs + length rs < length (records_bytes rs)
length-records_bytes [] = omega arith
length-records_bytes (r ∷ rs) = omega (
  arith,
  length-append (detail_bytes r) (records_bytes rs),
  length-detail_bytes r,
  length-records_bytes rs,
)

-- With the records of a body and its end at the front of a valid input, no builder on the stack, an
-- empty object and a callback that goes on, build_body comes to the end within its fuel, the
-- callback has seen the objects that the records stand for, in order, except that the code reads the
-- bytes of an expire time in reverse order, and its object has that number as the time, the bytes
-- behind the end are left, and the rest of the parser is as it was but for its object. The strings
-- fit: their lengths are below 2^32 - 1, their 8-bit words are not negative, and lzf_decompress
-- undoes their compression.
pub build_body-BuiltBody :
    (calls : Calls) (rp : RdbParser) (rs : List Record) (rest : List ℕ)
    → rp.stack_ob ≡ []
    → rp.o ≡ empty_object
    → FitRecords calls rs
    → Accepts calls rp.walked rs
    → Holds rp (records_bytes rs ++ rest)
    → BuiltBody calls rp rs rest (build_body calls rp)
unfolding build_body
build_body-BuiltBody calls rp rs rest none_yet fresh fit accepts holds =
    let fuel = suc (suc (get_committed_size rp.bb)) in
    let b = record zero_builder { depth = 0 } in
    let enough : length rs + length rs + 2 ≤ fuel = omega (
      arith,
      get_committed_size-length holds.valid,
      ap length holds.left,
      length-append (records_bytes rs) rest,
      length-records_bytes rs,
    ) in
    let rounds =
      body_rounds calls 0 (omega arith) fuel rp b rs rest enough (ap length none_yet) refl refl fit
        accepts holds in
    record {
      rp' = rounds.rp';
      result =
          ap (λ p. ob_loop fuel (body_step calls 0) p tt)
            (alloc-with_top rp 0 (ap length none_yet) (omega arith))
          ∙ ap
              (λ (x : RdbObject).
                ob_loop fuel (body_step calls 0) (with_top (record rp { o = x }) b) tt)
              fresh
          ∙ rounds.result;
      holds = rounds.holds;
      kept = rounds.kept;
    }
