-- ===== src/BipBuf/Content.antt =====
-- The committed bytes as a queue: readers take from its front, and what a client writes to a
-- reservation and commits joins its back.
use kj_cpp_redis.BipBuf.Inv.{IsValid, decommit-IsValid, fill-IsValid, commit-IsValid}
use kj_cpp_redis.BipBuf.{
  BipBuf, get_committed_size, get_reservation_size, get_contiguous_block, make_room,
  open_reservation, reserve, commit, decommit, fill,
}
use kj_cpp_redis.Prelude.{
  ℕ, ◌+◌, ◌-◌, ◌≤◌, ◌<◌, ◌≡◌, ◌∙◌, ap, ap₂, refl, sym, List, arith, length, drop, min, ◌++◌,
  sub_size, window, overwrite, count_eq, window_eq, drop-min, length-window, window-overwrite,
  window-overwrite_before, window-add, drop-window,
}

-- The committed bytes of a valid buffer, with the size written out.
pub block-window :
    {bb : BipBuf}
    → IsValid bb
    → get_contiguous_block bb ≡ window bb.buffer bb.a_start (bb.a_end - bb.a_start)
unfolding get_contiguous_block
block-window {bb} v =
    count_eq (window bb.buffer bb.a_start) (sub_size bb.a_end bb.a_start) (bb.a_end - bb.a_start)
      (omega arith)

block_of_parts :
    {bb : BipBuf} (m : List ℕ) (s e : ℕ)
    → IsValid bb
    → bb.buffer ≡ m
    → bb.a_start ≡ s
    → bb.a_end ≡ e
    → get_contiguous_block bb ≡ window m s (e - s)
block_of_parts m s e v p q r = block-window v ∙ rw (p, q, r)

pub length-block :
    {bb : BipBuf} → IsValid bb → length (get_contiguous_block bb) ≡ bb.a_end - bb.a_start
length-block {bb} v =
    ap length (block-window v)
    ∙ length-window bb.buffer bb.a_start (bb.a_end - bb.a_start) (omega arith)

-- `bip_buf_get_committed_size` is the number of bytes that may be read.
pub get_committed_size-length :
    {bb : BipBuf} → IsValid bb → get_committed_size bb ≡ length (get_contiguous_block bb)
unfolding get_committed_size
get_committed_size-length {bb} v = omega (arith, length-block v)

-- On a valid buffer bip_buf_decommit drops bytes from the front of the committed ones and returns
-- how many it dropped.
pub decommit-block :
    {bb : BipBuf} (size : ℕ)
    → IsValid bb
    → (get_contiguous_block (decommit bb size).0 ≡ drop size (get_contiguous_block bb))
      × ((decommit bb size).1 ≡ min size (length (get_contiguous_block bb)))
unfolding decommit get_committed_size
decommit-block {bb} size v = (
  block-window (decommit-IsValid size v)
      ∙ window_eq bb.buffer _ (bb.a_start + min size n) _ (n - min size n) (ground arith)
          (ground arith)
      ∙ sym (drop-window bb.buffer bb.a_start n (min size n))
      ∙ ap (drop (min size n)) (sym (block-window v))
      ∙ count_eq (λ k. drop (min size k) block) n (length block) (sym (length-block v))
      ∙ drop-min size block,
  ground (arith, length-block v),
)
  where
    n : ℕ
    n = bb.a_end - bb.a_start

    block : List ℕ
    block = get_contiguous_block bb

pub make_room-block :
    {bb : BipBuf} (size : ℕ)
    → IsValid bb
    → bb.r_start ≡ bb.r_end
    → bb.a_end + size ≤ bb.a_start + bb.available_capacity
    → get_contiguous_block (make_room bb size) ≡ get_contiguous_block bb
unfolding make_room get_contiguous_block
make_room-block {bb} size v closed h = ground (
  arith,
  window-overwrite bb.buffer 0 (window bb.buffer bb.a_start (bb.a_end - bb.a_start)),
  length-window bb.buffer bb.a_start (bb.a_end - bb.a_start),
)

pub open_reservation-block :
    (bb : BipBuf) (size : ℕ)
    → get_contiguous_block (open_reservation bb size) ≡ get_contiguous_block bb
unfolding open_reservation get_contiguous_block
open_reservation-block bb size = refl

-- A reservation does not change what is committed.
pub reserve-block :
    {bb : BipBuf} → IsValid bb → get_contiguous_block (reserve bb).0 ≡ get_contiguous_block bb
unfolding reserve
reserve-block {bb} v =
    let free : ℕ = sub_size bb.available_capacity (sub_size bb.a_end bb.a_start) in
    ground (arith, make_room-block free v, open_reservation-block (make_room bb free) free)

-- Bytes written behind the committed ones do not change them.
pub fill-block :
    {bb : BipBuf} (offset : ℕ) (bytes : List ℕ)
    → IsValid bb
    → bb.a_end ≤ offset
    → offset ≤ length bb.buffer
    → get_contiguous_block (fill bb offset bytes) ≡ get_contiguous_block bb
unfolding fill get_contiguous_block
fill-block {bb} offset bytes v h k =
    window-overwrite_before bb.buffer bb.a_start (sub_size bb.a_end bb.a_start) offset bytes
      (omega arith) k

-- On a valid buffer with a reservation, committing what was written to the reserved block, if it
-- fits, appends it to the committed bytes.
pub commit-fill :
    {bb : BipBuf} (bytes : List ℕ)
    → IsValid bb
    → 0 < get_reservation_size bb
    → length bytes ≤ get_reservation_size bb
    → get_contiguous_block (commit (fill bb bb.r_start bytes) (length bytes))
      ≡ get_contiguous_block bb ++ bytes
unfolding commit fill get_reservation_size
commit-fill {bb} bytes v pos h =
    block_of_parts new bb.a_start (bb.r_start + length bytes) (commit-IsValid (length bytes) filled)
      (ground arith) (ground arith) (ground arith)
    ∙ window_eq new bb.a_start bb.a_start _ (n + length bytes) refl (omega arith)
    ∙ window-add new bb.a_start n (length bytes)
    ∙ ap₂ ◌++◌
        (window-overwrite_before bb.buffer bb.a_start n bb.r_start bytes (omega arith) (omega arith)
          ∙ sym (block-window v))
        (window_eq new (bb.a_start + n) bb.r_start (length bytes) (length bytes) (omega arith) refl
          ∙ window-overwrite bb.buffer bb.r_start bytes (omega arith))
  where
    n : ℕ
    n = bb.a_end - bb.a_start

    new : List ℕ
    new = overwrite bb.buffer bb.r_start bytes

    filled : IsValid (fill bb bb.r_start bytes)
    filled = fill-IsValid bb.r_start bytes v (omega arith)
