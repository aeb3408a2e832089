-- ===== src/NxBuf/Pool.antt =====
-- src/base/nx_buf.c: pools. A pool is the list of its blocks, in the order of `d.next`, of which the
-- first holds the `nx_pool_t` itself; `current` is the index of a block. The addresses that `malloc`
-- returns are arguments. A word is 8 bytes. Chains and cleanup handlers are left out.
pub mod Fresh
pub mod Alloc
use kj_cpp_redis.Prelude.{
  ℕ, zero, suc, ◌+◌, ◌-◌, ◌*◌, ◌/◌, ◌%◌, ◌^◌, Bool, true, false, Option, none, some, List, [], ◌∷◌,
  ltb, leb, ◌&&◌, ◌==◌, if◌then◌else◌, sub_size, add_u32,
}

-- `nx_pool_data_t`, with the address of the block it stands in.
pub record Block : Type 0 where
  pub start : ℕ
  pub last : ℕ
  pub end : ℕ
  pub failed : ℕ

-- `nx_pool_t`. Of each `nx_pool_large_t` the field `alloc` is kept; NULL is `none`.
pub record Pool : Type 0 where
  pub blocks : List Block
  pub max : ℕ
  pub current : ℕ
  pub large : List (Option ℕ)

-- `sizeof(nx_pool_data_t)`, `sizeof(nx_pool_t)` and `sizeof(nx_pool_large_t)`
abbrev pub sizeof_pool_data : ℕ
sizeof_pool_data = 32

abbrev pub sizeof_pool : ℕ
sizeof_pool = 72

abbrev pub sizeof_pool_large : ℕ
sizeof_pool_large = 16

abbrev pub nx_max_alloc_from_pool : ℕ
nx_max_alloc_from_pool = 4095

-- `nx_align_ptr(m, NX_ALIGNMENT)`
abbrev pub align_ptr : ℕ → ℕ
align_ptr m = (m + 7) / 8 * 8

-- `nx_create_pool`; `p` is the block from `malloc(size)`.
unfoldable pub create_pool : ℕ → ℕ → Pool
create_pool size p = record {
  blocks = record { start = p; last = p + sizeof_pool; end = p + size; failed = 0 } ∷ [];
  max =
      if ltb (sub_size size sizeof_pool) nx_max_alloc_from_pool
      then sub_size size sizeof_pool
      else nx_max_alloc_from_pool;
  current = 0;
  large = [];
}

-- `nx_reset_pool`, at the blocks behind the first.
abbrev pub reset_blocks : List Block → List Block
reset_blocks [] = []
reset_blocks (b ∷ bs) = record b { last = b.start + sizeof_pool_data; failed = 0 } ∷ reset_blocks bs

unfoldable pub reset_pool : Pool → Pool
reset_pool pool = record pool {
  blocks = elim pool.blocks [
    | [] ↦ []
    | b ∷ bs ↦ record b { last = b.start + sizeof_pool; failed = 0 } ∷ reset_blocks bs
  ];
  current = 0;
  large = [];
}

-- The `do … while (p)` loop of `nx_palloc_small`, from the block `p` on.
unfoldable pub small_in : List Block → ℕ → Bool → Option (ℕ × List Block)
small_in [] size aligned = none
small_in (p ∷ next) size aligned =
    let m = if aligned then align_ptr p.last else p.last in
    let later = small_in next size aligned in
    if leb size (sub_size p.end m)
    then some (m, record p { last = m + size } ∷ next)
    else elim later [ none ↦ none | some (m', next') ↦ some (m', p ∷ next') ]

-- The same from `pool->current` on: the blocks before it are passed over.
unfoldable pub small_from : ℕ → List Block → ℕ → Bool → Option (ℕ × List Block)
small_from zero bs size aligned = small_in bs size aligned
small_from (suc n) [] size aligned = none
small_from (suc n) (b ∷ bs) size aligned = elim (small_from n bs size aligned) [
  | none ↦ none
  | some (m, bs') ↦ some (m, b ∷ bs')
]

-- The `for` loop of `nx_palloc_block`, at the block of index `i`, and `p->d.next = _new` behind it.
-- It counts failures from `current` on, and moves `current` past blocks that failed often.
unfoldable pub link_block : ℕ → ℕ → List Block → Block → ℕ × List Block
link_block i current [] new = (current, new ∷ [])
link_block i current (b ∷ []) new = (current, b ∷ new ∷ [])
link_block i current (b ∷ b' ∷ bs) new =
    let counts = leb current i in
    let moved = if counts && ltb 4 b.failed then i + 1 else current in
    let (current', bs') = link_block (i + 1) moved (b' ∷ bs) new in
    (current', record b { failed = if counts then add_u32 b.failed 1 else b.failed } ∷ bs')

-- `psize`
abbrev pub block_size : List Block → ℕ
block_size [] = 0
block_size (b ∷ bs) = sub_size b.end b.start

-- The block that `nx_palloc_block` makes at `m`, with `size` bytes taken.
abbrev pub new_block : ℕ → ℕ → ℕ → Block
new_block m psize size = record {
  start = m;
  last = align_ptr (m + sizeof_pool_data) + size;
  end = m + psize;
  failed = 0;
}

-- `nx_palloc_block`; `m` is the block from `malloc(psize)`.
unfoldable pub palloc_block : ℕ → Pool → ℕ → ℕ × Pool
palloc_block m pool size =
    let (current, blocks) =
      link_block 0 pool.current pool.blocks (new_block m (block_size pool.blocks) size) in
    (align_ptr (m + sizeof_pool_data), record pool { blocks = blocks; current = current })

-- `nx_palloc_small`
unfoldable pub palloc_small : ℕ → Pool → ℕ → Bool → ℕ × Pool
palloc_small m pool size aligned = elim (small_from pool.current pool.blocks size aligned) [
  | some (p, blocks) ↦ (p, record pool { blocks = blocks })
  | none ↦ palloc_block m pool size
]

-- The `for` loop of `nx_palloc_large`: one of the first five links that is free takes `p`.
unfoldable pub reuse_large : ℕ → List (Option ℕ) → ℕ → Option (List (Option ℕ))
reuse_large n [] p = none
reuse_large n (none ∷ next) p = some (some p ∷ next)
reuse_large n (some q ∷ next) p =
    let later = reuse_large (n + 1) next p in
    if ltb 3 n then none else elim later [ none ↦ none | some next' ↦ some (some q ∷ next') ]

-- `nx_palloc_large`; `p` is the block from `malloc(size)`, `m` that of a new block for the link.
unfoldable pub palloc_large : ℕ → ℕ → Pool → ℕ × Pool
palloc_large p m pool = elim (reuse_large 0 pool.large p) [
  | some large ↦ (p, record pool { large = large })
  | none ↦
      let pool' = (palloc_small m pool sizeof_pool_large true).1 in
      (p, record pool' { large = some p ∷ pool'.large })
]

-- `nx_palloc`, and `nx_pnalloc` with `aligned` false.
unfoldable pub palloc : ℕ → ℕ → Pool → ℕ → Bool → ℕ × Pool
palloc p m pool size aligned =
    if leb size pool.max then palloc_small m pool size aligned else palloc_large p m pool

-- `nx_pfree`: whether it returns NX_OK, and the links.
unfoldable pub free_large : List (Option ℕ) → ℕ → Bool × List (Option ℕ)
free_large [] p = (false, [])
free_large (none ∷ next) p = let (ok, next') = free_large next p in (ok, none ∷ next')
free_large (some q ∷ next) p =
    let (ok, next') = free_large next p in
    if p == q then (true, none ∷ next) else (ok, some q ∷ next')
