-- ===== src/BipBuf/Inv.antt =====
-- The representation invariant of `struct bip_buf_s`, kept by every operation.
use kj_cpp_redis.BipBuf.{
  BipBuf, reset, create, get_committed_size, get_reservation_size, make_room, open_reservation,
  reserve, commit, decommit, fill,
}
use kj_cpp_redis.Prelude.{
  ℕ, ◌+◌, ◌-◌, ◌*◌, ◌^◌, ◌≤◌, ◌<◌, ◌≡◌, ◌⊎◌, List, arith, length, sub_size, window,
  length-overwrite, length-window,
}

-- Both regions lie in the buffer, whose size is twice the capacity, the capacity bounds what is
-- committed and reserved together, and a reservation stands right behind the committed bytes.
pub record IsValid (bb : BipBuf) : Type 0 where
  pub size : length bb.buffer ≡ 2 * bb.available_capacity
  pub small : bb.available_capacity < 2 ^ 62
  pub ordered : bb.a_start ≤ bb.a_end
  pub fits : bb.a_end ≤ bb.a_start + bb.available_capacity
  pub inside : bb.a_end ≤ 2 * bb.available_capacity
  pub reserved :
      ((bb.r_start ≡ 0) × (bb.r_end ≡ 0))
      ⊎ ((bb.r_start ≡ bb.a_end)
          × (bb.r_start < bb.r_end)
          × (bb.r_end ≤ 2 * bb.available_capacity)
          × (bb.r_end ≤ bb.a_start + bb.available_capacity))

-- `bip_buf_create` and `bip_buf_reset` give a valid, empty buffer.
pub create-IsValid :
    (capacity : ℕ) (block : List ℕ)
    → capacity < 2 ^ 62
    → length block ≡ 2 * capacity
    → IsValid (create capacity block) × (get_committed_size (create capacity block) ≡ 0)
unfolding create get_committed_size
create-IsValid capacity block h e = ground arith

pub reset-IsValid : {bb : BipBuf} → IsValid bb → IsValid (reset bb)
unfolding reset
reset-IsValid v = ground arith

-- In a valid buffer neither size wraps.
pub sizes_no_wrap :
    {bb : BipBuf}
    → IsValid bb
    → (get_committed_size bb + bb.a_start ≡ bb.a_end)
      × (get_reservation_size bb + bb.r_start ≡ bb.r_end)
unfolding get_committed_size get_reservation_size
sizes_no_wrap v = ground arith

-- `bip_buf_decommit` takes as many bytes as there are, at most `size`.
pub decommit-IsValid : {bb : BipBuf} (size : ℕ) → IsValid bb → IsValid (decommit bb size).0
unfolding decommit
decommit-IsValid size v = ground arith

-- Moving the committed bytes out of the way keeps the invariant, leaves room for `size` bytes behind
-- them.
pub record HasRoom (bb : BipBuf) (size : ℕ) (bb' : BipBuf) : Type 0 where
  pub valid : IsValid bb'
  pub room : bb'.a_end + size ≤ 2 * bb'.available_capacity
  pub within : bb'.a_end + size ≤ bb'.a_start + bb'.available_capacity
  pub committed : bb'.a_end + bb.a_start ≡ bb'.a_start + bb.a_end
  pub capacity : bb'.available_capacity ≡ bb.available_capacity
  pub closed : (bb'.r_start ≡ 0) × (bb'.r_end ≡ 0)

pub make_room-HasRoom :
    {bb : BipBuf} (size : ℕ)
    → IsValid bb
    → bb.r_start ≡ bb.r_end
    → bb.a_end + size ≤ bb.a_start + bb.available_capacity
    → HasRoom bb size (make_room bb size)
unfolding make_room
make_room-HasRoom {bb} size v closed h = ground (
  arith,
  length-overwrite bb.buffer 0 (window bb.buffer bb.a_start (bb.a_end - bb.a_start)),
  length-window bb.buffer bb.a_start (bb.a_end - bb.a_start),
)

pub open_reservation-IsValid :
    {bb : BipBuf} (size : ℕ)
    → IsValid bb
    → 0 < size
    → bb.a_end + size ≤ 2 * bb.available_capacity
    → bb.a_end + size ≤ bb.a_start + bb.available_capacity
    → IsValid (open_reservation bb size)
unfolding open_reservation
open_reservation-IsValid size v pos h k = ground arith

-- bip_buf_reserve keeps a valid buffer valid.
pub reserve-IsValid : {bb : BipBuf} → IsValid bb → IsValid (reserve bb).0
unfolding reserve
reserve-IsValid {bb} v =
    let free : ℕ = sub_size bb.available_capacity (sub_size bb.a_end bb.a_start) in
    ground (arith, make_room-HasRoom free v, open_reservation-IsValid {bb = make_room bb free} free)

-- bip_buf_commit of any size keeps a valid buffer valid.
pub commit-IsValid : {bb : BipBuf} (size : ℕ) → IsValid bb → IsValid (commit bb size)
unfolding commit
commit-IsValid size v = ground arith

pub fill-IsValid :
    {bb : BipBuf} (offset : ℕ) (bytes : List ℕ)
    → IsValid bb
    → offset + length bytes ≤ length bb.buffer
    → IsValid (fill bb offset bytes)
unfolding fill
fill-IsValid {bb} offset bytes v h = ground (arith, length-overwrite bb.buffer offset bytes h)
