-- ===== src/Rdb/Builder/Loop.antt =====
-- The stack of builders with one on top, what consuming leaves, and the rounds of the builders' loop.
use kj_cpp_redis.BipBuf.Content.{decommit-block, get_committed_size-length}
use kj_cpp_redis.BipBuf.Inv.{IsValid, decommit-IsValid}
use kj_cpp_redis.BipBuf.{get_contiguous_block}
use kj_cpp_redis.Rdb.Builder.{
  zero_builder, builder, set_builder, update, push_object_builder, alloc_object_builder,
  pop_object_builder, consume, ob_loop, with_store_len,
}
use kj_cpp_redis.Rdb.Helper.{calc_crc, StoreLen, read_store_len}
use kj_cpp_redis.Rdb.StoreLen.{store_len_bytes, read_store_len-bytes}
use kj_cpp_redis.Rdb.Types.{Code, over, again, premature, ObjectBuilder, RdbParser}
use kj_cpp_redis.Prelude.{
  ℕ, suc, ◌+◌, ◌-◌, ◌%◌, ◌^◌, ◌<◌, ◌≤◌, true, false, ◌≡◌, ◌∙◌, ap, refl, none, some, List, [], ◌∷◌,
  ◌++◌, arith, length, get_elem?, take, drop, length-append, take-prefix, drop-prefix, count_eq,
  get_elem?_end, get_elem?_last, get_or_end, set_end,
}

-- The parser with `b` pushed on its stack.
abbrev pub with_top : RdbParser → ObjectBuilder → RdbParser
with_top rp b = record rp { stack_ob = rp.stack_ob ++ (b ∷ []) }

module _ (rp : RdbParser) (k : ℕ) (top : length rp.stack_ob ≡ k) where
  -- A new sub-builder is cleared, but for its depth.
  pub alloc-with_top :
      k < 256 → alloc_object_builder rp k ≡ with_top rp (record zero_builder { depth = k })
  unfolding alloc_object_builder push_object_builder
  alloc-with_top h = rw (← top) (
      count_eq
        (λ j. elim (get_elem? rp.stack_ob j) [
          | none ↦ with_top rp (record zero_builder { depth = j })
          | some _ ↦ rp
        ])
        (length rp.stack_ob % 256) (length rp.stack_ob) (omega arith)
      ∙ ground (arith, get_elem?_end rp.stack_ob))

  -- A builder that is there is found.
  pub alloc_top :
      (b : ObjectBuilder) → k < 256 → alloc_object_builder (with_top rp b) k ≡ with_top rp b
  unfolding alloc_object_builder
  alloc_top b h =
      let e : get_elem? (rp.stack_ob ++ (b ∷ [])) (k % 256) ≡ some b =
        count_eq (get_elem? (rp.stack_ob ++ (b ∷ []))) (k % 256) (length rp.stack_ob)
          (omega (arith, top))
        ∙ get_elem?_last rp.stack_ob b in
      rw (alloc_object_builder, e) refl

  pub builder-with_top : (b : ObjectBuilder) → builder (with_top rp b) k ≡ b
  builder-with_top b = rw (← top) (get_or_end rp.stack_ob b zero_builder)

  pub set_builder-with_top :
      (b b' : ObjectBuilder) → set_builder (with_top rp b) k b' ≡ with_top rp b'
  set_builder-with_top b b' =
      rw (← top)
        (ap (λ (t : List ObjectBuilder). record rp { stack_ob = t }) (set_end rp.stack_ob b b'))

pub pop-with_top : (rp : RdbParser) (b : ObjectBuilder) → pop_object_builder (with_top rp b) ≡ rp
unfolding pop_object_builder
pop-with_top rp b =
    ap (λ (t : List ObjectBuilder). record rp { stack_ob = t })
      (count_eq (λ k. take k (rp.stack_ob ++ (b ∷ []))) (length (rp.stack_ob ++ (b ∷ [])) - 1)
          (length rp.stack_ob) (omega (arith, length-append rp.stack_ob (b ∷ [])))
        ∙ take-prefix rp.stack_ob (b ∷ []))

pub consume-with_top :
    (rp : RdbParser) (b : ObjectBuilder) (n : ℕ)
    → consume (with_top rp b) n ≡ with_top (consume rp n) b
unfolding consume calc_crc
consume-with_top rp b n = refl

pub stack_ob-consume : (rp : RdbParser) (n : ℕ) → (consume rp n).stack_ob ≡ rp.stack_ob
unfolding consume calc_crc
stack_ob-consume rp n = refl

pub update-with_top :
    (rp : RdbParser) (k : ℕ) (b : ObjectBuilder) (f : ObjectBuilder → ObjectBuilder)
    → length rp.stack_ob ≡ k
    → update (with_top rp b) k f ≡ with_top rp (f b)
update-with_top rp k b f top =
    ap (λ ob. set_builder (with_top rp b) k (f ob)) (builder-with_top rp k top b)
    ∙ set_builder-with_top rp k top b (f b)

pub update-consume :
    (rp : RdbParser) (k n : ℕ) (b : ObjectBuilder) (f : ObjectBuilder → ObjectBuilder)
    → length rp.stack_ob ≡ k
    → update (consume (with_top rp b) n) k f ≡ with_top (consume rp n) (f b)
update-consume rp k n b f top =
    ap (λ c. update c k f) (consume-with_top rp b n)
    ∙ update-with_top (consume rp n) k b f (ap length (stack_ob-consume rp n) ∙ top)

-- The builder of index `i` is the last, so the next that is allocated is new, and there is room for
-- some more, whose depths are bytes.
pub record Ready (rp : RdbParser) (i room : ℕ) : Type 0 where
  pub next : (builder rp i).depth + 1 ≡ length rp.stack_ob
  pub small : length rp.stack_ob + room ≤ 256

pub with_top-Ready :
    (rp : RdbParser) (k room : ℕ) (b : ObjectBuilder)
    → length rp.stack_ob ≡ k
    → b.depth ≡ k
    → suc (k + room) ≤ 256
    → Ready (with_top rp b) k room
with_top-Ready rp k room b top depth small = record {
  next =
      omega (
        arith,
        ap (λ x. x.depth) (builder-with_top rp k top b),
        length-append rp.stack_ob (b ∷ []),
      );
  small = omega (arith, length-append rp.stack_ob (b ∷ []));
}

-- The input that the parser has is valid and holds the bytes.
pub record Holds (rp : RdbParser) (bytes : List ℕ) : Type 0 where
  pub valid : IsValid rp.bb
  pub left : get_contiguous_block rp.bb ≡ bytes

-- Consuming bytes takes them from the front of the input.
pub consume-Holds :
    (rp : RdbParser) (front rest : List ℕ)
    → Holds rp (front ++ rest)
    → Holds (consume rp (length front)) rest
unfolding consume calc_crc
consume-Holds rp front rest h = record {
  valid = decommit-IsValid (length front) h.valid;
  left =
      (decommit-block (length front) h.valid).0
      ∙ ap (drop (length front)) h.left
      ∙ drop-prefix front rest;
}

module _ {ℓ} {A : Type ℓ} (body : RdbParser → A → Code × RdbParser × A) (fuel : ℕ)
    (rp rp' : RdbParser) (r r' : A) where
  pub ob_loop-again :
      body rp r ≡ (again, rp', r') → ob_loop (suc fuel) body rp r ≡ ob_loop fuel body rp' r'
  unfolding ob_loop
  ob_loop-again e = ground arith

  pub ob_loop-over :
      body rp r ≡ (over, rp', r')
      → ob_loop (suc fuel) body rp r ≡ (over, pop_object_builder rp', r')
  unfolding ob_loop
  ob_loop-over e = ground arith

  pub ob_loop-premature :
      body rp r ≡ (premature, rp', r') → ob_loop (suc fuel) body rp r ≡ (premature, rp', r')
  unfolding ob_loop
  ob_loop-premature e = ground arith

-- A length at the front of the input is read.
pub with_store_len-read {ℓ} :
    {A : Type ℓ} (rp : RdbParser) (n : ℕ) (rest : List ℕ) (val : A)
    (next : StoreLen → Code × RdbParser × A)
    → n < 2 ^ 32
    → Holds rp (store_len_bytes n ++ rest)
    → with_store_len rp val next
      ≡ next (record { bytes = length (store_len_bytes n); is_encoded = false; out = n })
unfolding with_store_len
with_store_len-read rp n rest val next h holds =
    ground (arith, read_store_len-bytes n rest holds.valid h holds.left)

pub with_store_len-encoded {ℓ} :
    {A : Type ℓ} (rp : RdbParser) (n : ℕ) (rest : List ℕ) (val : A)
    (next : StoreLen → Code × RdbParser × A)
    → n < 64
    → Holds rp ((192 + n) ∷ rest)
    → with_store_len rp val next ≡ next (record { bytes = 1; is_encoded = true; out = n })
unfolding with_store_len read_store_len
with_store_len-encoded rp n rest val next h holds =
    ground (arith, get_committed_size-length holds.valid, ap length holds.left)
