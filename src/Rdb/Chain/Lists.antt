-- ===== src/Rdb/Chain/Lists.antt =====
-- A list or a set of strings at the front of the input, built.
use kj_cpp_redis.BipBuf.Content.{get_committed_size-length}
use kj_cpp_redis.BipBuf.{get_committed_size}
use kj_cpp_redis.Rdb.Builder.After.{consume-After}
use kj_cpp_redis.Rdb.Builder.Loop.{
  with_top, alloc-with_top, builder-with_top, pop-with_top, Holds, ob_loop-again, ob_loop-over,
  stack_ob-consume, Ready, with_top-Ready,
}
use kj_cpp_redis.Rdb.Builder.{zero_builder, builder, update, alloc_object_builder, consume, ob_loop}
use kj_cpp_redis.Rdb.Chain.Links.{
  linked, counted, ltb-true, push_link-again, push_link-over, chain_store_len-read, BuiltObject,
}
use kj_cpp_redis.Rdb.Chain.{
  Outcome, push_kv, push_link, chain_store_len, list_loop_val, list_step, chain_fuel,
  build_list_or_set_value,
}
use kj_cpp_redis.Rdb.Helper.{calc_crc}
use kj_cpp_redis.Rdb.StoreLen.{store_len_bytes}
use kj_cpp_redis.Rdb.Text.RoundTrip.{BuiltText, build_string_value-BuiltText}
use kj_cpp_redis.Rdb.Text.Spec.{
  Text, plain, int8, int16, int32, packed, text_bytes, text_of, FitText,
}
use kj_cpp_redis.Rdb.Text.{build_string_value}
use kj_cpp_redis.Rdb.Types.{Code, over, again, Kv, RdbObject, ObjectBuilder, RdbParser, Calls}
use kj_cpp_redis.Prelude.{
  ℕ, zero, suc, ◌+◌, ◌^◌, ◌<◌, ◌≤◌, ◌≡◌, ◌∙◌, ap, refl, List, [], ◌∷◌, ◌++◌, append_assoc,
  append-nil, arith, length, length-append,
}

abbrev pub texts_bytes : List Text → List ℕ
texts_bytes [] = []
texts_bytes (t ∷ ts) = text_bytes t ++ texts_bytes ts

pub length-text_bytes : (t : Text) → 0 < length (text_bytes t)
length-text_bytes (plain s) = ground (arith, length-append (store_len_bytes (length s)) s)
length-text_bytes (int8 n) = omega arith
length-text_bytes (int16 n) = omega arith
length-text_bytes (int32 n) = omega arith
length-text_bytes (packed c raw) = omega arith

pub length-texts_bytes : (ts : List Text) → length ts ≤ length (texts_bytes ts)
length-texts_bytes [] = omega arith
length-texts_bytes (t ∷ ts) = omega (
  arith,
  length-append (text_bytes t) (texts_bytes ts),
  length-text_bytes t,
  length-texts_bytes ts,
)

abbrev pub FitTexts : Calls → List Text → Type 0
FitTexts calls [] = Unit {0}
FitTexts calls (t ∷ ts) = FitText calls t × FitTexts calls ts

-- The links of strings at the end of the chain of an object.
abbrev pub push_texts : Calls → RdbObject → List Text → RdbObject
push_texts calls o [] = o
push_texts calls o (t ∷ ts) =
    push_texts calls (push_kv o (record { key = []; val = text_of calls t })) ts

-- What `__build_list_or_set_loop_val` does with the outcome of the builder of strings.
abbrev val_outcome : ℕ → Code × RdbParser × List ℕ → Outcome
val_outcome i (rc, rp1, tmp_val) = elim rc [
  | over ↦ push_link rp1 i (record { key = []; val = tmp_val }) 2
  | other ↦ (other, update rp1 i (λ ob1. record ob1 { tmp_val = tmp_val }), tt)
]

-- `rp` with the input and the count of `rp'`.
abbrev pub moved : RdbParser → RdbParser → RdbParser
moved rp rp' = record rp { bb = rp'.bb; parsed = rp'.parsed }

module _ (calls : Calls) (k : ℕ) (room : suc (k + 2) ≤ 256) where
  -- A string of the list, by the builder of strings.
  pub string_built :
      (rp : RdbParser) (b : ObjectBuilder) (val : List ℕ) (t : Text) (rest : List ℕ)
      → length rp.stack_ob ≡ k
      → b.depth ≡ k
      → FitText calls t
      → Holds rp (text_bytes t ++ rest)
      → BuiltText calls (with_top rp b) t rest (build_string_value calls (with_top rp b) k val)
  string_built rp b val t rest top depth fit holds =
      build_string_value-BuiltText calls (with_top rp b) k val t rest
        (with_top-Ready rp k 2 b top depth room) fit
        (record { valid = holds.valid; left = holds.left })

  val_pushed :
      (rp rp' : RdbParser) (i : ℕ) (val : List ℕ)
      → (builder rp i).state ≡ 2
      → (builder rp i).len < (builder rp i).store_len
      → build_string_value calls rp i (builder rp i).tmp_val ≡ (over, rp', val)
      → list_step calls i rp tt ≡ push_link rp' i (record { key = []; val = val }) 2
  unfolding list_step list_loop_val
  val_pushed rp rp' i val state more e =
      rw (state, ltb-true (builder rp i).len (builder rp i).store_len more) (ap (val_outcome i) e)

  -- A round of the list: the string is linked.
  list_step-val :
      (rp : RdbParser) (b : ObjectBuilder) (t : Text) (rest : List ℕ)
      → length rp.stack_ob ≡ k
      → b.depth ≡ k
      → b.state ≡ 2
      → b.len < b.store_len
      → (built : BuiltText calls
          (with_top rp b)
          t
          rest
          (build_string_value calls (with_top rp b) k b.tmp_val))
      → list_step calls k (with_top rp b) tt
        ≡ push_link
            (with_top (moved rp built.rp') b)
            k
            (record { key = []; val = text_of calls t })
            2
  list_step-val rp b t rest top depth state more built =
      let at = builder-with_top rp k top b in
      val_pushed (with_top rp b) built.rp' k (text_of calls t) (ap (λ x. x.state) at ∙ state)
        (omega (arith, more, ap (λ x. x.len) at, ap (λ x. x.store_len) at))
        (ap (λ x. build_string_value calls (with_top rp b) k x.tmp_val) at ∙ built.result)
      ∙ ap (λ p. push_link p k (record { key = []; val = text_of calls t }) 2) built.after.kept

  list_step-idle :
      (rp : RdbParser) (i : ℕ)
      → (builder rp i).state ≡ 0
      → list_step calls i rp tt ≡ chain_store_len rp i
  unfolding list_step
  list_step-idle rp i e = rw e refl

  pub list_step-len :
      (rp : RdbParser) (b : ObjectBuilder) (n : ℕ) (rest : List ℕ)
      → length rp.stack_ob ≡ k
      → b.state ≡ 0
      → n < 2 ^ 32
      → Holds rp (store_len_bytes n ++ rest)
      → list_step calls k (with_top rp b) tt ≡ (
        again,
        with_top
            (consume rp (length (store_len_bytes n)))
            (record b { state = 2; store_len = n; len = 0 }),
        tt,
      )
  list_step-len rp b n rest top idle h holds =
      list_step-idle (with_top rp b) k (ap (λ x. x.state) (builder-with_top rp k top b) ∙ idle)
      ∙ chain_store_len-read rp k n b rest top h holds

  list_rounds :
      (fuel : ℕ) (rp : RdbParser) (b : ObjectBuilder) (t : Text) (ts : List Text) (rest : List ℕ)
      → length ts < fuel
      → length rp.stack_ob ≡ k
      → b.depth ≡ k
      → b.state ≡ 2
      → b.len + suc (length ts) ≡ b.store_len
      → b.store_len < 2 ^ 32
      → FitTexts calls (t ∷ ts)
      → Holds rp (texts_bytes (t ∷ ts) ++ rest)
      → BuiltObject rp
          (record (push_texts calls rp.o (t ∷ ts)) { size = b.store_len })
          rest
          (ob_loop fuel (list_step calls k) (with_top rp b) tt)
  list_rounds zero rp b t ts rest lt top depth state len h fit holds = absurd (omega arith)
  list_rounds (suc fuel) rp b t [] rest lt top depth state len h fit holds =
      let kv : Kv = record { key = []; val = text_of calls t } in
      let built = string_built rp b b.tmp_val t rest top depth (fit.0) (record {
        valid = holds.valid;
        left = holds.left ∙ ap (λ u. u ++ rest) (append-nil (text_bytes t));
      }) in
      let rp1 = moved rp built.rp' in
      let rp2 = record rp1 { o = record (push_kv rp1.o kv) { size = b.store_len } } in
      record {
        rp' = rp2;
        result =
            ob_loop-over (list_step calls k) fuel (with_top rp b) (with_top rp2 (counted b)) tt tt (
              list_step-val rp b t rest top depth state (omega arith) built
              ∙ push_link-over rp1 k b kv 2 top (omega arith) h)
            ∙ ap (λ p. (over, p, tt)) (pop-with_top rp2 (counted b));
        holds = record { valid = built.after.holds.valid; left = built.after.holds.left };
        kept = refl;
      }
  list_rounds (suc fuel) rp b t (t' ∷ ts) rest lt top depth state len h fit holds =
      let kv : Kv = record { key = []; val = text_of calls t } in
      let left = texts_bytes (t' ∷ ts) ++ rest in
      let built = string_built rp b b.tmp_val t left top depth (fit.0) (record {
        valid = holds.valid;
        left = holds.left ∙ append_assoc (text_bytes t) (texts_bytes (t' ∷ ts)) rest;
      }) in
      let rp1 = moved rp built.rp' in
      let b1 = record (counted b) { state = 2 } in
      let next =
        list_rounds fuel (linked rp1 kv) b1 t' ts rest (omega arith) top depth refl (omega arith) h
          (fit.1) (record { valid = built.after.holds.valid; left = built.after.holds.left }) in
      record {
        rp' = next.rp';
        result =
            ob_loop-again (list_step calls k) fuel (with_top rp b) (with_top (linked rp1 kv) b1) tt
              tt
              (list_step-val rp b t left top depth state (omega arith) built
                ∙ push_link-again rp1 k b kv 2 top (omega arith) h)
            ∙ next.result;
        holds = next.holds;
        kept = next.kept;
      }

pub build_list_or_set_value-BuiltObject :
    (calls : Calls) (rp : RdbParser) (i : ℕ) (t : Text) (ts : List Text) (rest : List ℕ)
    → Ready rp i 3
    → length (t ∷ ts) < 2 ^ 32
    → FitTexts calls (t ∷ ts)
    → Holds rp (store_len_bytes (length (t ∷ ts)) ++ (texts_bytes (t ∷ ts) ++ rest))
    → BuiltObject rp
        (record (push_texts calls rp.o (t ∷ ts)) { size = length (t ∷ ts) })
        rest
        (build_list_or_set_value calls rp i)
unfolding build_list_or_set_value consume calc_crc
build_list_or_set_value-BuiltObject calls rp i t ts rest ready h fit holds =
    let k = length rp.stack_ob in
    let n = length (t ∷ ts) in
    let body = list_step calls k in
    let b = record zero_builder { depth = k } in
    let b1 = record b { state = 2; store_len = n } in
    let rp1 = consume rp (length (store_len_bytes n)) in
    let one = consume-After rp (store_len_bytes n) (texts_bytes (t ∷ ts) ++ rest) holds in
    let rounds =
      list_rounds calls k (omega (arith, ready.small)) (suc (get_committed_size rp.bb)) rp1 b1 t ts
        rest
        (omega (
          arith,
          get_committed_size-length holds.valid,
          ap length holds.left,
          length-append (store_len_bytes n) (texts_bytes (t ∷ ts) ++ rest),
          length-append (texts_bytes (t ∷ ts)) rest,
          length-texts_bytes (t ∷ ts),
        ))
        (ap length (stack_ob-consume rp (length (store_len_bytes n)))) refl refl (omega arith) h fit
        one.holds in
    record {
      rp' = rounds.rp';
      result =
          ap (λ d. ob_loop (chain_fuel rp) (list_step calls d) (alloc_object_builder rp d) tt)
            ready.next
          ∙ ap (λ p. ob_loop (chain_fuel rp) body p tt)
              (alloc-with_top rp k refl (omega (arith, ready.small)))
          ∙ ob_loop-again body (suc (get_committed_size rp.bb)) (with_top rp b) (with_top rp1 b1) tt
              tt
              (list_step-len calls k (omega (arith, ready.small)) rp b n
                (texts_bytes (t ∷ ts) ++ rest) refl refl h holds)
          ∙ rounds.result;
      holds = rounds.holds;
      kept = rounds.kept;
    }
