-- ===== src/NxArray.antt =====
-- src/base/nx_array.c and nx_array.h: arrays over a pool. An element is the address of its bytes, and
-- the memory is a function of addresses. NULL is `none`.
pub mod Many
use native.Mathlib.Nat.{mul-suc, mul-le-mul_left}
use kj_cpp_redis.NxBuf.Pool.{Pool, palloc}
use kj_cpp_redis.Prelude.{
  ℕ, ◌+◌, ◌-◌, ◌*◌, ◌%◌, ◌^◌, ◌<◌, ◌≡◌, Bool, true, false, ◌&&◌, Option, none, some, [], ◌∷◌, ltb,
  leb, ◌==◌, if◌then◌else◌, add_u32, arith,
}

-- `nx_array_t` (40 bytes), without the pool. `nelts` is an `int`: C gives `nelts++` a meaning below
-- 2^31 - 1 only, and counts are numbers here, as they are there.
pub record NxArray : Type 0 where
  pub elts : ℕ
  pub nelts : ℕ
  pub size : ℕ
  pub nalloc : ℕ

abbrev pub Memory : Type 0
Memory = ℕ → ℕ

-- `nx_memcpy`
abbrev pub memcpy : Memory → ℕ → ℕ → ℕ → Memory
memcpy mem dst src n = λ x. if leb dst x && ltb x (dst + n) then mem (src + (x - dst)) else mem x

-- `nx_array_create`; the last two arguments of `palloc` are addresses from `malloc`.
unfoldable pub create : ℕ → ℕ → ℕ → ℕ → Pool → ℕ → ℕ → NxArray × Pool
create p m p' m' pool n size =
    let pool1 = (palloc p m pool 40 true).1 in
    let (elts, pool2) = palloc p' m' pool1 (n * size) true in
    (record { elts = elts; nelts = 0; size = size; nalloc = n }, pool2)

-- Whether the array ends where the free bytes of the first block begin, with room for an element.
abbrev pub can_extend : Pool → NxArray → Bool
can_extend pool a = elim pool.blocks [
  | [] ↦ false
  | b ∷ _ ↦ a.elts + a.size * a.nalloc == b.last && leb (b.last + a.size) b.end
]

-- `p->d.last += size`
abbrev pub extend_first : Pool → ℕ → Pool
extend_first pool size = record pool {
  blocks = elim pool.blocks [ [] ↦ [] | b ∷ bs ↦ record b { last = b.last + size } ∷ bs ];
}

-- The first part of `nx_array_push`: room for an element.
unfoldable pub make_room : ℕ → ℕ → Pool → NxArray → Memory → NxArray × Pool × Memory
make_room p m pool a mem =
    let bytes = a.size * a.nalloc in
    let (new, pool') = palloc p m pool (2 * bytes) true in
    if a.nelts == a.nalloc
    then (if can_extend pool a
        then (record a { nalloc = add_u32 a.nalloc 1 }, extend_first pool a.size, mem)
        else (
          record a { elts = new; nalloc = a.nalloc * 2 % 2 ^ 32 },
          pool',
          memcpy mem new a.elts bytes,
        ))
    else (a, pool, mem)

-- `nx_array_push`: the address of the new element first.
unfoldable pub push : ℕ → ℕ → Pool → NxArray → Memory → ℕ × NxArray × Pool × Memory
push p m pool a mem =
    let (a', pool', mem') = make_room p m pool a mem in
    (a'.elts + a'.size * a'.nelts, record a' { nelts = a'.nelts + 1 }, pool', mem')

-- `nx_array_pop`
unfoldable pub pop : NxArray → Option ℕ × NxArray
pop a =
    if ltb 0 a.nelts
    then (some (a.elts + a.size * a.nelts), record a { nelts = a.nelts - 1 })
    else (none, a)

-- `nx_array_pop_all`
unfoldable pub pop_all : NxArray → ℕ × NxArray
pop_all a = (a.elts, record a { nelts = 0 })

-- `nx_array_top`
unfoldable pub top : NxArray → Option ℕ
top a = if ltb 0 a.nelts then some (a.elts + a.size * (a.nelts - 1)) else none

-- `nx_array_at`
unfoldable pub at : NxArray → ℕ → Option ℕ
at a index = if ltb index a.nelts then some (a.elts + a.size * index) else none

module _ (p m : ℕ) (pool : Pool) (a : NxArray) (mem : Memory) where
  make_room-same :
      ((make_room p m pool a mem).0.nelts ≡ a.nelts) × ((make_room p m pool a mem).0.size ≡ a.size)
  unfolding make_room
  make_room-same = ground arith

  -- The element that nx_array_push returns is the top of the array and its last; popping it restores
  -- the count, and returns the address behind the element.
  pub push-top :
      let (elt, a', pool', mem') = push p m pool a mem in
      (top a' ≡ some elt)
      × (at a' a.nelts ≡ some elt)
      × ((pop a').0 ≡ some (elt + a.size))
      × ((pop a').1.nelts ≡ a.nelts)
  unfolding push top at pop
  push-top = ground (arith, make_room-same, mul-suc a.size a.nelts)

  -- nx_array_push keeps the bytes of the elements that were there, whether the array has room, is
  -- extended in its pool or is moved.
  pub push-kept :
      (i k : ℕ)
      → i < a.nelts
      → k < a.size
      → let (elt, a', pool', mem') = push p m pool a mem in
        mem' (a'.elts + a'.size * i + k) ≡ mem (a.elts + a.size * i + k)
  unfolding push make_room
  push-kept i k h l =
      ground (arith, mul-le-mul_left {m = i + 1} {n = a.nelts} a.size, mul-suc a.size i)
