-- ===== src/Tests/Buffers.antt =====
-- Small buffers.
use kj_cpp_redis.BipBuf.Content.{commit-fill}
use kj_cpp_redis.BipBuf.Feed.{feed, Fed, feed-Fed}
use kj_cpp_redis.BipBuf.Grow.{force_reserve_lem}
use kj_cpp_redis.BipBuf.Inv.{IsValid, reserve-IsValid, commit-IsValid}
use kj_cpp_redis.BipBuf.Queue.{
  Operation, put_in, take_out, clear, queue_run, buffer_run, Holds, buffer_run_refines,
}
use kj_cpp_redis.BipBuf.{
  BipBuf, create, get_committed_size, get_reservation_size, get_contiguous_block, reserve,
  force_reserve, commit, fill,
}
use kj_cpp_redis.PowerOfTwo.{next_power_of_two, next_power_of_two_lem}
use kj_cpp_redis.Tests.Inputs.{codes, zeros}
use kj_cpp_redis.Prelude.{◌+◌, ◌*◌, ◌^◌, ◌<◌, ◌≡◌, ◌++◌, List, [], ◌∷◌, some, refl, length, arith}

-- Bytes "bc" are committed in a buffer of capacity 4.
abbrev some_buffer : BipBuf
some_buffer = record {
  buffer = codes "abcdefgh";
  available_capacity = 4;
  committed_sum = 3;
  a_start = 1;
  a_end = 3;
  r_start = 0;
  r_end = 0;
}

some_buffer-IsValid : IsValid some_buffer
some_buffer-IsValid = ground arith

-- The same with two bytes reserved.
abbrev reserved_buffer : BipBuf
reserved_buffer = record some_buffer { r_start = 3; r_end = 5 }

reserved_buffer-IsValid : IsValid reserved_buffer
reserved_buffer-IsValid = ground arith

-- The same with all bytes committed.
abbrev full_buffer : BipBuf
full_buffer = record some_buffer { a_end = 5 }

reserve-IsValid_example : IsValid (reserve some_buffer).0
reserve-IsValid_example = reserve-IsValid some_buffer-IsValid

commit-IsValid_example : IsValid (commit reserved_buffer 9)
commit-IsValid_example = commit-IsValid 9 reserved_buffer-IsValid

reserved_buffer-size : get_reservation_size reserved_buffer ≡ 2
unfolding get_reservation_size
reserved_buffer-size = refl

commit-fill_example :
    get_contiguous_block (commit (fill reserved_buffer 3 (codes "xy")) 2)
    ≡ get_contiguous_block reserved_buffer ++ codes "xy"
commit-fill_example =
    commit-fill (codes "xy") reserved_buffer-IsValid (omega (arith, reserved_buffer-size))
      (omega (arith, reserved_buffer-size))

some_buffer-closed : get_reservation_size some_buffer ≡ 0
unfolding get_reservation_size
some_buffer-closed = refl

feed-Fed_example : Fed some_buffer (codes "xyz") (feed some_buffer (codes "xyz"))
feed-Fed_example = feed-Fed (codes "xyz") some_buffer-IsValid some_buffer-closed

some_buffer-room : get_committed_size some_buffer < 4
unfolding get_committed_size
some_buffer-room = omega arith

-- 7 bytes more than the 4 need a buffer of capacity 16.
new_block : length (zeros 32) ≡ 2 * next_power_of_two (4 + 7)
unfolding next_power_of_two
new_block = refl

force_reserve_lem_example :
    let (bb', p) = force_reserve some_buffer 7 (zeros 32) in
    IsValid bb'
    × (p ≡ some bb'.r_start)
    × (bb'.r_start ≡ bb'.a_end)
    × (get_reservation_size bb' ≡ 7)
    × (get_contiguous_block bb' ≡ get_contiguous_block some_buffer)
force_reserve_lem_example =
    force_reserve_lem 7 (zeros 32) some_buffer-IsValid refl (omega arith) (omega arith) new_block
      some_buffer-room

abbrev some_operations : List Operation
some_operations =
    put_in (codes "abc")
    ∷ take_out 2
    ∷ put_in (codes "defg")
    ∷ take_out 9
    ∷ put_in (codes "h")
    ∷ clear
    ∷ put_in (codes "ij")
    ∷ []

buffer_run_refines_example :
    Holds 4 (buffer_run some_operations (create 4 (zeros 8))).0 (queue_run 4 some_operations []).0
    × ((buffer_run some_operations (create 4 (zeros 8))).1 ≡ (queue_run 4 some_operations []).1)
buffer_run_refines_example = buffer_run_refines 4 (zeros 8) some_operations (omega arith) refl

-- There is no room for the byte of "g", and "h" is thrown away.
queue_gives : (queue_run 4 some_operations []).1 ≡ codes "abcdef"
queue_gives = refl

next_power_of_two_lem_example : next_power_of_two 5 ≡ 2 ^ 3
next_power_of_two_lem_example = next_power_of_two_lem 3 5 (omega arith) (omega arith) (omega arith)
