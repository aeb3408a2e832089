-- ===== src/NxArray/Many.antt =====
-- src/base/nx_array.c, nx_array_push_n: room for several elements at once.
use native.Mathlib.Nat.{mul-suc, mul-le-mul_left}
use kj_cpp_redis.NxArray.{NxArray, Memory, memcpy, extend_first}
use kj_cpp_redis.NxBuf.Pool.{Pool, palloc}
use kj_cpp_redis.Prelude.{
  ℕ, ◌-◌, ◌+◌, ◌*◌, ◌%◌, ◌^◌, ◌≤◌, ◌<◌, ◌≡◌, Bool, true, false, ◌&&◌, [], ◌∷◌, ltb, leb, ◌==◌,
  if◌then◌else◌, add_u32, arith,
}

-- Whether the array ends where the free bytes of the first block begin, with `size` bytes left there.
abbrev pub can_extend_by : Pool → NxArray → ℕ → Bool
can_extend_by pool a size = elim pool.blocks [
  | [] ↦ false
  | b ∷ _ ↦ a.elts + a.size * a.nalloc == b.last && leb (b.last + size) b.end
]

-- `2 * ((n >= a->nalloc) ? n : a->nalloc)`
abbrev pub doubled : NxArray → ℕ → ℕ
doubled a n = 2 * (if leb a.nalloc n then n else a.nalloc) % 2 ^ 32

-- The first part of `nx_array_push_n`: room for the elements. The count that is copied is taken to be
-- that of an `int` that is not negative.
unfoldable pub make_room_n : ℕ → ℕ → Pool → NxArray → Memory → ℕ → NxArray × Pool × Memory
make_room_n p m pool a mem n =
    let (new, pool') = palloc p m pool (doubled a n * a.size) true in
    if ltb a.nalloc (add_u32 a.nelts n)
    then (if can_extend_by pool a (n * a.size)
        then (record a { nalloc = add_u32 a.nalloc n }, extend_first pool (n * a.size), mem)
        else (
          record a { elts = new; nalloc = doubled a n },
          pool',
          memcpy mem new a.elts (a.nelts * a.size),
        ))
    else (a, pool, mem)

-- An `int` with the given word, as a `size_t`: from 2^31 on it is negative.
abbrev pub size_of_int : ℕ → ℕ
size_of_int w = if ltb w (2 ^ 31) then w else w + 2 ^ 64 - 2 ^ 32

-- `nx_array_push_n`: the address of the first new element first. `nelts` is the word of an `int`.
unfoldable pub push_n : ℕ → ℕ → Pool → NxArray → Memory → ℕ → ℕ × NxArray × Pool × Memory
push_n p m pool a mem n =
    let (a', pool', mem') = make_room_n p m pool a mem n in
    (
      (a'.elts + a'.size * size_of_int a'.nelts) % 2 ^ 64,
      record a' { nelts = add_u32 a'.nelts n },
      pool',
      mem',
    )

module _ (p m : ℕ) (pool : Pool) (a : NxArray) (mem : Memory) (n : ℕ) where
  -- nx_array_push_n to an array of at most its room, which is below 2^31, so that the count of both
  -- is below 2^31 too and no int is negative, makes the count that of both, within the room, returns
  -- the address behind the elements, and keeps the bytes of the elements that were there, whether
  -- the array has room, is extended in its pool or is moved.
  pub push_n-fits :
      a.nelts ≤ a.nalloc
      → a.nalloc < 2 ^ 31
      → a.nelts + n < 2 ^ 31
      → let (elt, a', pool', mem') = push_n p m pool a mem n in
        (a'.nelts ≡ a.nelts + n)
        × (a'.nelts ≤ a'.nalloc)
        × (elt ≡ (a'.elts + a.size * a.nelts) % 2 ^ 64)
        × (size_of_int a'.nelts ≡ a.nelts + n)
        × ((i k : ℕ)
            → i < a.nelts
            → k < a.size
            → mem' (a'.elts + a'.size * i + k) ≡ mem (a.elts + a.size * i + k))
  unfolding push_n make_room_n
  push_n-fits h s t = (
    ground arith,
    ground arith,
    ground arith,
    ground arith,
    λ i k l j. ground (arith, mul-le-mul_left {m = i + 1} {n = a.nelts} a.size, mul-suc a.size i),
  )
