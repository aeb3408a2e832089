-- ===== src/Tests/Pools.antt =====
-- A pool with little room, and an array over it.
use kj_cpp_redis.NxArray.{NxArray, Memory, push, pop, top, at, push-top, push-kept}
use kj_cpp_redis.NxBuf.Pool.Alloc.{IsValid, IsNew, Handed, palloc_small-Handed}
use kj_cpp_redis.NxArray.Many.{push_n, make_room_n, size_of_int, push_n-fits}
use kj_cpp_redis.NxBuf.Pool.{Pool, palloc_small, palloc_block, small_from, small_in, link_block}
use kj_cpp_redis.Prelude.{
  ℕ, ◌≤◌, ◌<◌, ◌+◌, ◌*◌, ◌%◌, ◌^◌, some, ◌≡◌, [], ◌∷◌, true, refl, inl, inr, arith,
}

-- A pool of 1024 bytes at address 4096, all but 24 of them used.
abbrev some_pool : Pool
some_pool = record {
  blocks = record { start = 4096; last = 5096; end = 5120; failed = 0 } ∷ [];
  max = 952;
  current = 0;
  large = [];
}

some_pool-IsValid : IsValid some_pool
some_pool-IsValid = record {
  valid = (omega arith, omega arith, omega arith, refl, λ x c d. d, tt);
  roomy = omega arith;
  whole = refl;
}

address-IsNew : IsNew some_pool 8192
address-IsNew = record {
  aligned = refl;
  bounded = omega arith;
  apart = λ x p q c. elim c [ inl h ↦ omega arith | inr d ↦ d ];
}

palloc_small-Handed_example : Handed some_pool 100 (palloc_small 8192 some_pool 100 true)
palloc_small-Handed_example =
    palloc_small-Handed some_pool 8192 100 some_pool-IsValid address-IsNew (omega arith) true

-- The bytes come from the new block, behind its header.
palloc_small_new : (palloc_small 8192 some_pool 100 true).0 ≡ 8224
unfolding palloc_small small_from small_in palloc_block link_block
palloc_small_new = refl

-- A full array of two elements of four bytes, which is not the last in its pool.
abbrev some_array : NxArray
some_array = record { elts = 4168; nelts = 2; size = 4; nalloc = 2 }

abbrev some_memory : Memory
some_memory = λ x. x % 256

push-top_example :
    let (elt, a', pool', mem') = push 16384 8192 some_pool some_array some_memory in
    (top a' ≡ some elt)
    × (at a' 2 ≡ some elt)
    × ((pop a').0 ≡ some (elt + 4))
    × ((pop a').1.nelts ≡ 2)
push-top_example = push-top 16384 8192 some_pool some_array some_memory

push-kept_example :
    let (elt, a', pool', mem') = push 16384 8192 some_pool some_array some_memory in
    mem' (a'.elts + a'.size * 1 + 3) ≡ some_memory (4168 + 4 * 1 + 3)
push-kept_example =
    push-kept 16384 8192 some_pool some_array some_memory 1 3 (omega arith) (omega arith)

-- Three elements more move the array to a block of its own, behind its header.
push_n-fits_example :
    let (elt, a', pool', mem') = push_n 16384 8192 some_pool some_array some_memory 3 in
    (a'.nelts ≡ 5)
    × (a'.nelts ≤ a'.nalloc)
    × (elt ≡ (a'.elts + 4 * 2) % 2 ^ 64)
    × (size_of_int a'.nelts ≡ 5)
    × ((i k : ℕ)
        → i < 2
        → k < 4
        → mem' (a'.elts + a'.size * i + k) ≡ some_memory (4168 + 4 * i + k))
push_n-fits_example =
    push_n-fits 16384 8192 some_pool some_array some_memory 3 (omega arith) (omega arith)
      (omega arith)

room_doubled : (push_n 16384 8192 some_pool some_array some_memory 3).1.nalloc ≡ 6
unfolding push_n make_room_n
room_doubled = refl
