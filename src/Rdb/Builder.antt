-- ===== src/Rdb/Builder.antt =====
-- src/base/rdb_parser/rdb_object_builder.c and rdb_object_builder.h: the stack of builders and the loop
-- that runs one. The stack is the list of its live elements; a pointer to one is its index.
pub mod Loop
pub mod After
use kj_cpp_redis.Rdb.Helper.{calc_crc, StoreLen, read_store_len}
use kj_cpp_redis.Rdb.Types.{
  Code, over, again, premature, stuck, Kv, RdbObject, ObjectBuilder, RdbParser,
}
use kj_cpp_redis.Prelude.{
  ℕ, zero, suc, ◌+◌, ◌-◌, ◌%◌, ◌^◌, Option, none, some, List, [], ◌∷◌, ◌++◌, get_elem?, get_or, set,
  length, take,
}

-- A builder that `nx_memzero` has cleared.
abbrev pub zero_builder : ObjectBuilder
zero_builder = record {
  depth = 0;
  state = 0;
  store_len = 0;
  c_len = 0;
  len = 0;
  tmp_key = [];
  tmp_val = [];
}

-- `stack_push_object_builder`, with the depth that `stack_alloc_object_builder` sets next.
unfoldable pub push_object_builder : RdbParser → ℕ → RdbParser
push_object_builder rp depth = record rp {
  stack_ob = rp.stack_ob ++ (record zero_builder { depth = depth } ∷ []);
}

-- `stack_pop_object_builder`
unfoldable pub pop_object_builder : RdbParser → RdbParser
pop_object_builder rp = record rp { stack_ob = take (length rp.stack_ob - 1) rp.stack_ob }

-- `stack_alloc_object_builder`; the depth is a byte.
unfoldable pub alloc_object_builder : RdbParser → ℕ → RdbParser
unfolding push_object_builder
alloc_object_builder rp depth = elim (get_elem? rp.stack_ob (depth % 256)) [
  | none ↦ push_object_builder rp (depth % 256)
  | some _ ↦ rp
]

-- `stack_object_builder_at`
abbrev pub builder : RdbParser → ℕ → ObjectBuilder
builder rp i = get_or rp.stack_ob i zero_builder

abbrev pub set_builder : RdbParser → ℕ → ObjectBuilder → RdbParser
set_builder rp i ob = record rp { stack_ob = set rp.stack_ob i ob }

-- Assignments to fields of the builder of index `i`.
abbrev pub update : RdbParser → ℕ → (ObjectBuilder → ObjectBuilder) → RdbParser
update rp i f = set_builder rp i (f (builder rp i))

abbrev pub set_state : RdbParser → ℕ → ℕ → RdbParser
set_state rp i s = update rp i λ ob. record ob { state = s }

-- `rdb_object_calc_crc(rp, bb, n)`
unfoldable pub consume : RdbParser → ℕ → RdbParser
unfolding calc_crc
consume rp n =
    let (bb, parsed) = calc_crc rp.bb rp.parsed n in record rp { bb = bb; parsed = parsed }

-- What the builders read first: a length. OB_ERROR_PREMATURE comes with the parser as it was.
unfoldable pub with_store_len {ℓ} :
    {A : Type ℓ} → RdbParser → A → (StoreLen → Code × RdbParser × A) → Code × RdbParser × A
with_store_len rp val next = elim (read_store_len rp.bb) [
  | none ↦ (premature, rp, val)
  | some l ↦ next l
]

-- `do … while (rc == OB_AGAIN)`, and the pop of OB_LOOP_END. `A` is what the builder fills besides the
-- parser's state. The first argument is fuel.
unfoldable pub ob_loop {ℓ} :
    {A : Type ℓ} → ℕ → (RdbParser → A → Code × RdbParser × A) → RdbParser → A → Code × RdbParser × A
ob_loop zero body rp val = (stuck, rp, val)
ob_loop (suc fuel) body rp val =
    let (rc, rp', val') = body rp val in
    elim rc [
      | again ↦ ob_loop fuel body rp' val'
      | over ↦ (over, pop_object_builder rp', val')
      | other ↦ (other, rp', val')
    ]
