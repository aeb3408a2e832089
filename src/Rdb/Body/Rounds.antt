-- ===== src/Rdb/Body/Rounds.antt =====
-- The rounds of `build_body`: a type, and what follows it.
use kj_cpp_redis.BipBuf.Content.{get_committed_size-length}
use kj_cpp_redis.Rdb.Body.{
  read_db_selector, read_expire_time, next_object, when_over, object_detail_of_type,
  build_object_detail, body_step,
}
use kj_cpp_redis.Rdb.Builder.Loop.{with_top, update-with_top, update-consume, Holds}
use kj_cpp_redis.Rdb.Builder.{builder, set_state, consume}
use kj_cpp_redis.Rdb.Chain.{Outcome}
use kj_cpp_redis.Rdb.Helper.{read_type}
use kj_cpp_redis.Rdb.Object.Spec.{
  hash_zipmap, list_ziplist, set_intset, zset_ziplist, hash_ziplist, list, set, zset, hash, Value,
  string, texts, pairs, block, value_type,
}
use kj_cpp_redis.Rdb.Object.{build_object_detail_kv, walk_object, build_object_type}
use kj_cpp_redis.Rdb.Types.{over, again, premature, empty_object, ObjectBuilder, RdbParser, Calls}
use kj_cpp_redis.Prelude.{
  ℕ, ◌≡◌, ◌∙◌, ap, refl, true, false, Option, none, some, List, [], ◌∷◌, ◌++◌, arith, length, leb,
}

-- The type of an object.
read_type-byte :
    (rp : RdbParser) (t : ℕ) (rest : List ℕ) → Holds rp (t ∷ rest) → read_type rp.bb ≡ some (1, t)
unfolding read_type
read_type-byte rp t rest holds =
    ground (arith, get_committed_size-length holds.valid, ap length holds.left)

abbrev pub with_type : RdbParser → ℕ → RdbParser
with_type rp t = record rp { o = record rp.o { type = t } }

pub build_object_type-read :
    (rp : RdbParser) (k t : ℕ) (b : ObjectBuilder) (rest : List ℕ)
    → length rp.stack_ob ≡ k
    → Holds rp (t ∷ rest)
    → build_object_type (with_top rp b) k
      ≡ (again, with_top (consume (with_type rp t) 1) (record b { state = 2 }), tt)
unfolding build_object_type
build_object_type-read rp k t b rest top holds =
    rw (build_object_type, read_type-byte rp t rest holds)
      (ap (λ p. (again, p, tt))
        (update-consume (with_type rp t) k 1 b (λ x. record x { state = 2 }) top))

-- What the callback has gone on after.
abbrev pub walked_on : RdbParser → RdbParser
walked_on rp = record rp { o = empty_object; walked = rp.walked ++ (rp.o ∷ []) }

next_object-again :
    (calls : Calls) (rp : RdbParser) (i : ℕ)
    → calls.o_cb rp.walked rp.o ≡ 0
    → next_object calls rp i ≡ (again, set_state (walked_on rp) i 1, tt)
unfolding next_object walk_object
next_object-again calls rp i e = rw e refl

pub next_object-top :
    (calls : Calls) (rp : RdbParser) (k : ℕ) (b : ObjectBuilder)
    → length rp.stack_ob ≡ k
    → calls.o_cb rp.walked rp.o ≡ 0
    → next_object calls (with_top rp b) k
      ≡ (again, with_top (walked_on rp) (record b { state = 1 }), tt)
next_object-top calls rp k b top e =
    next_object-again calls (with_top rp b) k e
    ∙ ap (λ p. (again, p, tt))
        (update-with_top (walked_on rp) k b (λ x. record x { state = 1 }) top)

module _ (calls : Calls) (rp : RdbParser) (i : ℕ) where
  pub detail-entry :
      (v : Value)
      → rp.o.type ≡ value_type v
      → build_object_detail calls rp i ≡ when_over calls i (build_object_detail_kv calls rp i)
  unfolding build_object_detail object_detail_of_type
  detail-entry (string t) e = ap (object_detail_of_type calls rp i) e
  detail-entry (texts list t ts) e = ap (object_detail_of_type calls rp i) e
  detail-entry (texts set t ts) e = ap (object_detail_of_type calls rp i) e
  detail-entry (pairs zset kv kvs) e = ap (object_detail_of_type calls rp i) e
  detail-entry (pairs hash kv kvs) e = ap (object_detail_of_type calls rp i) e
  detail-entry (block hash_zipmap t kvs size) e = ap (object_detail_of_type calls rp i) e
  detail-entry (block list_ziplist t kvs size) e = ap (object_detail_of_type calls rp i) e
  detail-entry (block set_intset t kvs size) e = ap (object_detail_of_type calls rp i) e
  detail-entry (block zset_ziplist t kvs size) e = ap (object_detail_of_type calls rp i) e
  detail-entry (block hash_ziplist t kvs size) e = ap (object_detail_of_type calls rp i) e

  abbrev selected : Option (ℕ × ℕ) → Outcome
  selected read = elim read [
    | none ↦ (premature, rp, tt)
    | some (n, selector) ↦
        next_object calls (consume (record rp { o = record rp.o { db_selector = selector } }) n) i
  ]

  abbrev expiring : Option (ℕ × ℕ) → Outcome
  expiring read = elim read [
    | none ↦ (premature, rp, tt)
    | some (n, expire) ↦
        next_object calls (consume (record rp { o = record rp.o { expire = expire } }) n) i
  ]

  pub detail-selectdb :
      (n bytes : ℕ)
      → rp.o.type ≡ 254
      → read_db_selector rp.bb ≡ some (bytes, n)
      → build_object_detail calls rp i
        ≡ next_object calls (consume (record rp { o = record rp.o { db_selector = n } }) bytes) i
  unfolding build_object_detail object_detail_of_type
  detail-selectdb n bytes e read = ap (object_detail_of_type calls rp i) e ∙ ap selected read

  pub detail-expiretime :
      (expire bytes : ℕ)
      → rp.o.type ≡ 253
      → read_expire_time rp.bb false ≡ some (bytes, expire)
      → build_object_detail calls rp i
        ≡ next_object calls (consume (record rp { o = record rp.o { expire = expire } }) bytes) i
  unfolding build_object_detail object_detail_of_type
  detail-expiretime expire bytes e read = ap (object_detail_of_type calls rp i) e ∙ ap expiring read

  pub detail-expiretime_ms :
      (expire bytes : ℕ)
      → rp.o.type ≡ 252
      → read_expire_time rp.bb true ≡ some (bytes, expire)
      → build_object_detail calls rp i
        ≡ next_object calls (consume (record rp { o = record rp.o { expire = expire } }) bytes) i
  unfolding build_object_detail object_detail_of_type
  detail-expiretime_ms expire bytes e read =
      ap (object_detail_of_type calls rp i) e ∙ ap expiring read

  pub detail-eof : rp.o.type ≡ 255 → build_object_detail calls rp i ≡ (over, rp, tt)
  unfolding build_object_detail object_detail_of_type
  detail-eof e = ap (object_detail_of_type calls rp i) e

  pub body_step-detail :
      (builder rp i).state ≡ 2 → body_step calls i rp tt ≡ build_object_detail calls rp i
  unfolding body_step
  body_step-detail e = rw e refl

  pub body_step-type :
      leb (builder rp i).state 1 ≡ true → body_step calls i rp tt ≡ build_object_type rp i
  unfolding body_step
  body_step-type e = rw e refl
