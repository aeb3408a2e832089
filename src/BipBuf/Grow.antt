-- ===== src/BipBuf/Grow.antt =====
-- `bip_buf_force_reserve`: a reservation of a given size, in a larger buffer if need be.
use kj_cpp_redis.BipBuf.Content.{make_room-block, open_reservation-block}
use kj_cpp_redis.BipBuf.Inv.{IsValid, make_room-HasRoom, open_reservation-IsValid}
use kj_cpp_redis.BipBuf.{
  BipBuf, get_committed_size, get_reservation_size, get_contiguous_block, make_room,
  open_reservation, grow, force_reserve,
}
use kj_cpp_redis.PowerOfTwo.{next_power_of_two, next_power_of_two_bounds}
use kj_cpp_redis.Prelude.{
  ℕ, ◌+◌, ◌-◌, ◌*◌, ◌^◌, ◌%◌, ◌≤◌, ◌<◌, ◌≡◌, refl, none, some, List, arith, length, ltb,
  if◌then◌else◌, sub_size, add_size, window, length-overwrite, length-window, window-overwrite,
}

-- The capacity after growing, with no wrap.
capacity-grow :
    (bb : BipBuf) (size : ℕ)
    → bb.available_capacity + size ≤ 2 ^ 31
    → add_size bb.available_capacity size % 2 ^ 32 ≡ bb.available_capacity + size
capacity-grow bb size h = omega arith

open_reservation_fields :
    (bb : BipBuf) (size : ℕ)
    → let bb' = open_reservation bb size in
      (bb'.r_start ≡ bb.a_end) × (bb'.a_end ≡ bb.a_end) × (bb'.r_end ≡ add_size bb.a_end size)
unfolding open_reservation
open_reservation_fields bb size = (refl, refl, refl)

-- Growing keeps the committed bytes, and gives room for `size` more behind them.
pub record Grown (bb : BipBuf) (size : ℕ) (bb' : BipBuf) : Type 0 where
  pub valid : IsValid bb'
  pub room : bb'.a_end + size ≤ 2 * bb'.available_capacity
  pub within : bb'.a_end + size ≤ bb'.a_start + bb'.available_capacity
  pub kept : get_contiguous_block bb' ≡ get_contiguous_block bb

module _ {bb : BipBuf} (size : ℕ) (block : List ℕ) (v : IsValid bb) (shut : bb.r_start ≡ bb.r_end)
    (pos : 0 < size) (small : bb.available_capacity + size ≤ 2 ^ 31)
    (allocated : length block ≡ 2 * next_power_of_two (bb.available_capacity + size)) where
  grow-Grown : Grown bb size (grow bb size block)
  unfolding grow get_contiguous_block
  grow-Grown = rw (capacity-grow bb size small) (
      ground (
        arith,
        next_power_of_two_bounds (bb.available_capacity + size) (omega arith) small,
        length-overwrite block 0 (window bb.buffer bb.a_start (bb.a_end - bb.a_start)),
        length-window bb.buffer bb.a_start (bb.a_end - bb.a_start),
        window-overwrite block 0 (window bb.buffer bb.a_start (bb.a_end - bb.a_start)),
      ))

  prepared-Grown :
      bb.a_end - bb.a_start < bb.available_capacity
      → Grown bb size (
          if ltb (sub_size bb.available_capacity (sub_size bb.a_end bb.a_start)) size
          then grow bb size block
          else make_room bb size)
  prepared-Grown some_free =
      ground (arith, grow-Grown, make_room-HasRoom size v, make_room-block size v)

  -- On a valid buffer with room for a byte and no reservation open, a forced reservation of a
  -- positive size, the sum with the capacity at most 2^31, succeeds behind the committed bytes,
  -- which are kept, and the buffer stays valid.
  pub force_reserve_lem :
      get_committed_size bb < bb.available_capacity
      → let (bb', p) = force_reserve bb size block in
        IsValid bb'
        × (p ≡ some bb'.r_start)
        × (bb'.r_start ≡ bb'.a_end)
        × (get_reservation_size bb' ≡ size)
        × (get_contiguous_block bb' ≡ get_contiguous_block bb)
  unfolding force_reserve get_reservation_size get_committed_size
  force_reserve_lem some_free =
      let bb' : BipBuf =
        if ltb (sub_size bb.available_capacity (sub_size bb.a_end bb.a_start)) size
        then grow bb size block
        else make_room bb size in
      ground (
        arith,
        prepared-Grown,
        open_reservation-IsValid {bb = bb'} size,
        open_reservation-block bb' size,
        open_reservation_fields bb' size,
      )

-- A valid buffer that is full is not grown: a forced reservation of any size returns NULL and
-- changes nothing.
pub force_reserve-full :
    {bb : BipBuf} (size : ℕ) (block : List ℕ)
    → IsValid bb
    → get_committed_size bb ≡ bb.available_capacity
    → force_reserve bb size block ≡ (bb, none)
unfolding force_reserve get_committed_size
force_reserve-full size block v full = ground arith
