-- ===== src/Rdb/Chain/Empty.antt =====
-- A list, a set, a hash or a sorted set with no element, which a dump may hold.
use kj_cpp_redis.Rdb.Builder.Loop.{
  with_top, builder-with_top, update-with_top, Holds, ob_loop-again, stack_ob-consume,
}
use kj_cpp_redis.Rdb.Builder.{zero_builder, builder, set_state, consume, ob_loop}
use kj_cpp_redis.Rdb.Chain.Links.{ltb-false}
use kj_cpp_redis.Rdb.Chain.Lists.{list_step-len}
use kj_cpp_redis.Rdb.Chain.Pairs.{hash_step-len}
use kj_cpp_redis.Rdb.Chain.{
  Outcome, list_loop_val, list_step, hash_loop_key, hash_loop_val, hash_step,
}
use kj_cpp_redis.Rdb.Types.{again, stuck, ObjectBuilder, RdbParser, Calls}
use kj_cpp_redis.Prelude.{ℕ, zero, suc, ◌+◌, ◌≤◌, ◌≡◌, ◌∙◌, ap, refl, List, ◌∷◌, arith, length}

no_fuel :
    (body : RdbParser → Unit {0} → Outcome) (rp : RdbParser)
    → ob_loop 0 body rp tt ≡ (stuck, rp, tt)
unfolding ob_loop
no_fuel body rp = refl

-- A step that changes nothing runs the fuel out.
ob_loop_stuck :
    (body : RdbParser → Unit {0} → Outcome) (fuel : ℕ) (rp : RdbParser)
    → body rp tt ≡ (again, rp, tt)
    → ob_loop fuel body rp tt ≡ (stuck, rp, tt)
ob_loop_stuck body zero rp e = no_fuel body rp
ob_loop_stuck body (suc fuel) rp e =
    ob_loop-again body fuel rp rp tt tt e ∙ ob_loop_stuck body fuel rp e

module _ (calls : Calls) where
  list_waits :
      (rp : RdbParser) (i : ℕ)
      → (builder rp i).state ≡ 2
      → (builder rp i).store_len ≤ (builder rp i).len
      → list_step calls i rp tt ≡ (again, set_state rp i 2, tt)
  unfolding list_step list_loop_val
  list_waits rp i state done =
      rw (state, ltb-false (builder rp i).len (builder rp i).store_len done) refl

  key_waits :
      (rp : RdbParser) (i : ℕ)
      → (builder rp i).state ≡ 2
      → (builder rp i).store_len ≤ (builder rp i).len
      → hash_step calls i rp tt ≡ (again, set_state rp i 3, tt)
  unfolding hash_step hash_loop_key
  key_waits rp i state done =
      rw (state, ltb-false (builder rp i).len (builder rp i).store_len done) refl

  val_waits :
      (rp : RdbParser) (i : ℕ)
      → (builder rp i).state ≡ 3
      → (builder rp i).store_len ≤ (builder rp i).len
      → hash_step calls i rp tt ≡ (again, set_state rp i 3, tt)
  unfolding hash_step hash_loop_val
  val_waits rp i state done =
      rw (state, ltb-false (builder rp i).len (builder rp i).store_len done) refl

  -- The step on the builder on top.
  at_top :
      (step : ℕ → RdbParser → Unit {0} → Outcome) (s s' : ℕ) (rp : RdbParser) (k : ℕ)
      (b : ObjectBuilder)
      → ((rp : RdbParser) (i : ℕ)
          → (builder rp i).state ≡ s
          → (builder rp i).store_len ≤ (builder rp i).len
          → step i rp tt ≡ (again, set_state rp i s', tt))
      → length rp.stack_ob ≡ k
      → b.state ≡ s
      → b.store_len ≤ b.len
      → step k (with_top rp b) tt ≡ (again, with_top rp (record b { state = s' }), tt)
  at_top step s s' rp k b waits top state done =
      let at = builder-with_top rp k top b in
      waits (with_top rp b) k (ap (λ x. x.state) at ∙ state)
        (omega (arith, done, ap (λ x. x.store_len) at, ap (λ x. x.len) at))
      ∙ ap (λ p. (again, p, tt)) (update-with_top rp k b (λ x. record x { state = s' }) top)

  list_endless :
      (fuel : ℕ) (rp : RdbParser) (k : ℕ) (rest : List ℕ)
      → suc (k + 2) ≤ 256
      → length rp.stack_ob ≡ k
      → Holds rp (0 ∷ rest)
      → (ob_loop fuel (list_step calls k) (with_top rp (record zero_builder { depth = k })) tt).0
        ≡ stuck
  list_endless zero rp k rest room top holds = unfold ob_loop in refl
  list_endless (suc fuel) rp k rest room top holds =
      let b = record zero_builder { depth = k } in
      let b1 = record b { state = 2 } in
      let rp1 = consume rp 1 in
      let top1 : length rp1.stack_ob ≡ k = ap length (stack_ob-consume rp 1) ∙ top in
      ap (λ out. out.0)
        (ob_loop-again (list_step calls k) fuel (with_top rp b) (with_top rp1 b1) tt tt
            (list_step-len calls k room rp b 0 rest top refl (omega arith) holds)
          ∙ ob_loop_stuck (list_step calls k) fuel (with_top rp1 b1)
              (at_top (list_step calls) 2 2 rp1 k b1 list_waits top1 refl (omega arith)))

  hash_endless :
      (fuel : ℕ) (rp : RdbParser) (k : ℕ) (rest : List ℕ)
      → suc (k + 2) ≤ 256
      → length rp.stack_ob ≡ k
      → Holds rp (0 ∷ rest)
      → (ob_loop fuel (hash_step calls k) (with_top rp (record zero_builder { depth = k })) tt).0
        ≡ stuck
  hash_endless zero rp k rest room top holds = unfold ob_loop in refl
  hash_endless (suc zero) rp k rest room top holds =
      let b = record zero_builder { depth = k } in
      let rp1 = with_top (consume rp 1) (record b { state = 2 }) in
      ap (λ out. out.0)
        (ob_loop-again (hash_step calls k) 0 (with_top rp b) rp1 tt tt
            (hash_step-len calls k room rp b 0 rest top refl (omega arith) holds)
          ∙ no_fuel (hash_step calls k) rp1)
  hash_endless (suc (suc fuel)) rp k rest room top holds =
      let b = record zero_builder { depth = k } in
      let b1 = record b { state = 2 } in
      let b2 = record b { state = 3 } in
      let rp1 = consume rp 1 in
      let top1 : length rp1.stack_ob ≡ k = ap length (stack_ob-consume rp 1) ∙ top in
      ap (λ out. out.0)
        (ob_loop-again (hash_step calls k) (suc fuel) (with_top rp b) (with_top rp1 b1) tt tt
            (hash_step-len calls k room rp b 0 rest top refl (omega arith) holds)
          ∙ ob_loop-again (hash_step calls k) fuel (with_top rp1 b1) (with_top rp1 b2) tt tt
              (at_top (hash_step calls) 2 3 rp1 k b1 key_waits top1 refl (omega arith))
          ∙ ob_loop_stuck (hash_step calls k) fuel (with_top rp1 b2)
              (at_top (hash_step calls) 3 3 rp1 k b2 val_waits top1 refl (omega arith)))

-- With a list of no strings, or a hash of no pairs, at the front of a valid input, and room on the
-- stack, the loops that build_list_or_set_value and build_hash_or_zset_value start with a new
-- builder do not end, whatever the fuel.
pub ob_loop_empty :
    (calls : Calls) (fuel : ℕ) (rp : RdbParser) (rest : List ℕ)
    → suc (length rp.stack_ob + 2) ≤ 256
    → Holds rp (0 ∷ rest)
    → let k = length rp.stack_ob in
      let start = with_top rp (record zero_builder { depth = k }) in
      ((ob_loop fuel (list_step calls k) start tt).0 ≡ stuck)
      × ((ob_loop fuel (hash_step calls k) start tt).0 ≡ stuck)
ob_loop_empty calls fuel rp rest room holds = (
  list_endless calls fuel rp (length rp.stack_ob) rest room refl holds,
  hash_endless calls fuel rp (length rp.stack_ob) rest room refl holds,
)
