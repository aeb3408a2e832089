-- ===== src/Rdb/Block/Built.antt =====
-- A value that is one block of memory in a string, at the front of the input, built.
use kj_cpp_redis.Rdb.Block.{alloc_links, build_block}
use kj_cpp_redis.Rdb.Builder.Loop.{with_top, builder-with_top, update-with_top, Holds}
use kj_cpp_redis.Rdb.Builder.{builder, update}
use kj_cpp_redis.Rdb.Chain.Links.{BuiltObject}
use kj_cpp_redis.Rdb.Chain.Lists.{moved, string_built}
use kj_cpp_redis.Rdb.Chain.{Outcome, alloc_kv_chain_link}
use kj_cpp_redis.Rdb.Text.Spec.{Text, text_bytes, text_of, FitText}
use kj_cpp_redis.Rdb.Text.{build_string_value}
use kj_cpp_redis.Rdb.Types.{Code, over, stuck, Kv, RdbObject, ObjectBuilder, RdbParser, Calls}
use kj_cpp_redis.Prelude.{
  ℕ, suc, ◌+◌, ◌≤◌, ◌≡◌, ◌∙◌, ap, sym, Option, none, some, List, [], ◌∷◌, ◌++◌, append-nil,
  append_assoc, length,
}

pub alloc_links_lem : (vall kvs : List Kv) → alloc_links vall kvs ≡ vall ++ kvs
unfolding alloc_links alloc_kv_chain_link
alloc_links_lem vall [] = sym (append-nil vall)
alloc_links_lem vall (kv ∷ kvs) =
    alloc_links_lem (vall ++ (kv ∷ [])) kvs ∙ append_assoc vall (kv ∷ []) kvs

-- What `build_block` does with the outcome of the builder of strings, and with that of the loader.
abbrev load_outcome : ℕ → RdbParser → Option (List Kv × ℕ) → Outcome
load_outcome i rp2 loaded = elim loaded [
  | none ↦ (stuck, rp2, tt)
  | some (kvs, size) ↦
      let o = record rp2.o { vall = alloc_links rp2.o.vall kvs; size = size } in
      (over, update (record rp2 { o = o }) i (λ ob. record ob { tmp_val = [] }), tt)
]

abbrev block_outcome : (List ℕ → Option (List Kv × ℕ)) → ℕ → Code × RdbParser × List ℕ → Outcome
block_outcome load i (rc, rp1, tmp_val) =
    let rp2 = update rp1 i λ ob. record ob { tmp_val = tmp_val } in
    elim rc [ over ↦ load_outcome i rp2 (load tmp_val) | other ↦ (other, rp2, tt) ]

block_over :
    (load : List ℕ → Option (List Kv × ℕ)) (calls : Calls) (rp rp' : RdbParser) (i : ℕ)
    (val : List ℕ)
    → build_string_value calls rp i (builder rp i).tmp_val ≡ (over, rp', val)
    → build_block load calls rp i ≡ block_outcome load i (over, rp', val)
unfolding build_block
block_over load calls rp rp' i val e = ap (block_outcome load i) e

-- The links of a block behind those of an object, and their size.
abbrev pub with_links : RdbObject → List Kv → ℕ → RdbObject
with_links o kvs size = record o { vall = o.vall ++ kvs; size = size }

pub build_block-BuiltObject :
    (load : List ℕ → Option (List Kv × ℕ)) (calls : Calls) (rp : RdbParser) (k : ℕ)
    (b : ObjectBuilder) (t : Text) (kvs : List Kv) (size : ℕ) (rest : List ℕ)
    → suc (k + 2) ≤ 256
    → length rp.stack_ob ≡ k
    → b.depth ≡ k
    → b.tmp_val ≡ []
    → FitText calls t
    → load (text_of calls t) ≡ some (kvs, size)
    → Holds rp (text_bytes t ++ rest)
    → BuiltObject
        (with_top rp b)
        (with_links rp.o kvs size)
        rest
        (build_block load calls (with_top rp b) k)
build_block-BuiltObject load calls rp k b t kvs size rest room top depth clear fit loads holds =
    let val = text_of calls t in
    let at = builder-with_top rp k top b in
    let built = string_built calls k room rp b b.tmp_val t rest top depth fit holds in
    let rp1 = moved rp built.rp' in
    let rp2 = record rp1 { o = record rp1.o { vall = alloc_links rp1.o.vall kvs; size = size } } in
    let b1 = record b { tmp_val = val } in
    record {
      rp' = with_top rp2 (record b { tmp_val = [] });
      result =
          block_over load calls (with_top rp b) built.rp' k val
            (ap (λ x. build_string_value calls (with_top rp b) k x.tmp_val) at ∙ built.result)
          ∙ ap (λ p. block_outcome load k (over, p, val)) built.after.kept
          ∙ ap (λ p. load_outcome k p (load val))
              (update-with_top rp1 k b (λ x. record x { tmp_val = val }) top)
          ∙ ap (load_outcome k (with_top rp1 b1)) loads
          ∙ ap (λ p. (over, p, tt)) (update-with_top rp2 k b1 (λ x. record x { tmp_val = [] }) top);
      holds = record { valid = built.after.holds.valid; left = built.after.holds.left };
      kept =
          ap (λ v. with_top rp2 (record b { tmp_val = v })) (sym clear)
          ∙ ap (λ v. with_top (record rp1 { o = record rp1.o { vall = v; size = size } }) b)
              (alloc_links_lem rp1.o.vall kvs);
    }
