-- ===== src/BipBuf.antt =====
-- src/base/bip_buf.c and bip_buf.h: the buffer of the parsers and connections. The bytes between
-- `a_start` and `a_end` are committed; a reservation is the range from `r_start` to `r_end`.
-- Pointers into `_buffer` are offsets, and NULL is `none`. `malloc` is taken to succeed: the block
-- that it returns is an argument.
pub mod Inv
pub mod Content
pub mod Feed
pub mod Grow
pub mod Full
pub mod Queue
use kj_cpp_redis.PowerOfTwo.{next_power_of_two}
use kj_cpp_redis.Strstr.{fast_strstr}
use kj_cpp_redis.Prelude.{
  ℕ, ◌+◌, ◌-◌, ◌*◌, ◌%◌, ◌^◌, Bool, true, false, ◌||◌, Option, none, some, List, ltb, ◌==◌,
  if◌then◌else◌, window, overwrite, length, add_size, sub_size, add_u32,
}

-- `struct bip_buf_s`
pub record BipBuf : Type 0 where
  pub buffer : List ℕ
  pub available_capacity : ℕ
  pub committed_sum : ℕ
  pub a_start : ℕ
  pub a_end : ℕ
  pub r_start : ℕ
  pub r_end : ℕ

unfoldable pub reset : BipBuf → BipBuf
reset bb = record bb { a_start = 0; a_end = 0; r_start = 0; r_end = 0 }

-- `block` is the result of `malloc(capacity * 2)`.
unfoldable pub create : ℕ → List ℕ → BipBuf
unfolding reset
create capacity block = reset (record {
  buffer = block;
  available_capacity = capacity;
  committed_sum = 0;
  a_start = 0;
  a_end = 0;
  r_start = 0;
  r_end = 0;
})

unfoldable pub get_capacity : BipBuf → ℕ
get_capacity bb = bb.available_capacity

unfoldable pub get_committed_size : BipBuf → ℕ
get_committed_size bb = sub_size bb.a_end bb.a_start

unfoldable pub is_empty : BipBuf → Bool
is_empty bb = 0 == get_committed_size bb

unfoldable pub is_full : BipBuf → Bool
is_full bb = get_capacity bb == get_committed_size bb

-- `reset` is the argument; the sum is returned before it is cleared.
unfoldable pub get_committed_sum : BipBuf → Bool → ℕ × BipBuf
get_committed_sum bb reset_sum =
    (bb.committed_sum, record bb { committed_sum = if reset_sum then 0 else bb.committed_sum })

unfoldable pub get_reservation_size : BipBuf → ℕ
get_reservation_size bb = sub_size bb.r_end bb.r_start

-- The committed bytes: what a reader may take from `bip_buf_get_contiguous_block`.
unfoldable pub get_contiguous_block : BipBuf → List ℕ
unfolding get_committed_size
get_contiguous_block bb = window bb.buffer bb.a_start (get_committed_size bb)

unfoldable pub find_str : BipBuf → List ℕ → Option (List ℕ)
find_str bb str = fast_strstr (get_contiguous_block bb) str

-- "check Region A": make room for `size` bytes behind `a_end`, by moving the committed bytes to the
-- front of the buffer if they are in the way.
unfoldable pub make_room : BipBuf → ℕ → BipBuf
unfolding get_committed_size
make_room bb size =
    let region_a_size = get_committed_size bb in
    if 0 == region_a_size
    then record bb { a_start = 0; a_end = 0 }
    else if ltb (sub_size (add_size bb.available_capacity bb.available_capacity) bb.a_end) size
    then record bb {
      buffer = overwrite bb.buffer 0 (window bb.buffer bb.a_start region_a_size);
      a_start = 0;
      a_end = region_a_size;
    }
    else bb

-- Open the reservation of `size` bytes behind `a_end`.
unfoldable pub open_reservation : BipBuf → ℕ → BipBuf
open_reservation bb size = record bb { r_start = bb.a_end; r_end = add_size bb.a_end size }

-- Returns the offset of the reserved block and `*size`.
unfoldable pub reserve : BipBuf → BipBuf × Option ℕ × ℕ
unfolding get_committed_size get_reservation_size
reserve bb =
    let freespace = sub_size bb.available_capacity (get_committed_size bb) in
    let bb' = open_reservation (make_room bb freespace) freespace in
    if ltb 0 (get_reservation_size bb)
    then (bb, none, 0)
    else if 0 == freespace
    then (bb, none, 0)
    else (bb', some bb'.r_start, freespace)

-- The new buffer of `bip_buf_force_reserve`; `block` is the result of its `malloc`. On a new block
-- with no committed bytes nothing is copied.
unfoldable pub grow : BipBuf → ℕ → List ℕ → BipBuf
unfolding get_committed_size
grow bb size block =
    let buf_size = get_committed_size bb in
    let capacity = next_power_of_two (add_size bb.available_capacity size % 2 ^ 32) in
    if 0 == buf_size
    then record bb { available_capacity = capacity; buffer = block; a_start = 0; a_end = 0 }
    else record bb {
      available_capacity = capacity;
      buffer = overwrite block 0 (window bb.buffer bb.a_start buf_size);
      a_start = 0;
      a_end = buf_size;
    }

unfoldable pub force_reserve : BipBuf → ℕ → List ℕ → BipBuf × Option ℕ
unfolding get_committed_size get_reservation_size
force_reserve bb size block =
    let freespace = sub_size bb.available_capacity (get_committed_size bb) in
    let bb' =
      open_reservation (if ltb freespace size then grow bb size block else make_room bb size)
        size in
    if ltb 0 (get_reservation_size bb) || 0 == size
    then (bb, none)
    else if 0 == freespace
    then (bb, none)
    else (bb', some bb'.r_start)

unfoldable pub commit : BipBuf → ℕ → BipBuf
unfolding get_reservation_size
commit bb size =
    let reservation_size = get_reservation_size bb in
    let clipped = if ltb reservation_size size then reservation_size else size in
    if ltb 0 reservation_size
    then record bb {
      a_end = add_size bb.r_start clipped;
      r_start = 0;
      r_end = 0;
      committed_sum = add_u32 bb.committed_sum clipped;
    }
    else record bb { r_start = 0; r_end = 0; committed_sum = add_u32 bb.committed_sum size }

-- Returns the number of bytes taken from the front.
unfoldable pub decommit : BipBuf → ℕ → BipBuf × ℕ
unfolding get_committed_size
decommit bb size =
    let committed_size = get_committed_size bb in
    let bytes = if ltb size committed_size then size else committed_size in
    (record bb { a_start = add_size bb.a_start bytes }, bytes)

-- A client's `memcpy` of `bytes` to the reserved block.
unfoldable pub fill : BipBuf → ℕ → List ℕ → BipBuf
fill bb offset bytes = record bb { buffer = overwrite bb.buffer offset bytes }
