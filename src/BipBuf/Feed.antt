-- ===== src/BipBuf/Feed.antt =====
-- src/base/rdb_parser/rdb_parser.c: how `rdb_parse_dumped_data` puts input into the buffer.
use kj_cpp_redis.BipBuf.Content.{
  reserve-block, commit-fill, length-block, get_committed_size-length,
}
use native.Mathlib.Decide.{dec_lt}
use kj_cpp_redis.BipBuf.Inv.{
  IsValid, make_room-HasRoom, reserve-IsValid, fill-IsValid, commit-IsValid,
}
use kj_cpp_redis.BipBuf.{
  BipBuf, open_reservation, get_committed_size, get_reservation_size, get_contiguous_block, reserve,
  commit, fill,
}
use kj_cpp_redis.Prelude.{
  ℕ, ◌-◌, ◌≤◌, ◌<◌, ◌≡◌, refl, append-nil, Option, none, some, List, arith, length, take, min, ◌++◌,
  ltb, if◌then◌else◌, sub_size, length-take,
}

-- One round of the loop: `consume = __min(reserved, remain)` bytes of `s1` are copied and committed.
unfoldable pub feed : BipBuf → List ℕ → BipBuf × ℕ
feed bb s1 =
    let (bb', p1, reserved) = reserve bb in
    let consume = if ltb reserved (length s1) then reserved else length s1 in
    (
      elim p1 [
        | none ↦ commit bb' consume
        | some offset ↦ commit (fill bb' offset (take consume s1)) consume
      ],
      consume,
    )

-- With no reservation open, `bip_buf_reserve` reserves all that is free behind the committed bytes.
pub record Reserved (bb : BipBuf) (out : BipBuf × Option ℕ × ℕ) : Type 0 where
  pub offset : out.1 ≡ some out.0.r_start
  pub count : out.2 ≡ bb.available_capacity - get_committed_size bb
  pub all : get_reservation_size out.0 ≡ out.2
  pub capacity : out.0.available_capacity ≡ bb.available_capacity

pub reserve-Reserved :
    {bb : BipBuf}
    → IsValid bb
    → get_reservation_size bb ≡ 0
    → get_committed_size bb < bb.available_capacity
    → Reserved bb (reserve bb)
unfolding reserve get_reservation_size get_committed_size open_reservation
reserve-Reserved {bb} v shut room =
    let free : ℕ = sub_size bb.available_capacity (sub_size bb.a_end bb.a_start) in
    ground (arith, make_room-HasRoom free v)

-- A full buffer refuses the reservation, and stays as it is.
pub reserve-full :
    {bb : BipBuf}
    → IsValid bb
    → get_committed_size bb ≡ bb.available_capacity
    → reserve bb ≡ (bb, none, 0)
unfolding reserve get_committed_size
reserve-full v full = ground arith

commit_closes :
    (bb : BipBuf) (size : ℕ)
    → (get_reservation_size (commit bb size) ≡ 0)
      × ((commit bb size).available_capacity ≡ bb.available_capacity)
unfolding commit get_reservation_size
commit_closes bb size = ground arith

commit-shut :
    (bb : BipBuf)
    → get_reservation_size bb ≡ 0
    → get_contiguous_block (commit bb 0) ≡ get_contiguous_block bb
unfolding commit get_contiguous_block
commit-shut bb h = ground arith

-- What a feed does to the queue of committed bytes.
pub record Fed (bb : BipBuf) (s1 : List ℕ) (out : BipBuf × ℕ) : Type 0 where
  pub valid : IsValid out.0
  pub closed : get_reservation_size out.0 ≡ 0
  pub capacity : out.0.available_capacity ≡ bb.available_capacity
  pub count : out.1 ≡ min (bb.available_capacity - length (get_contiguous_block bb)) (length s1)
  pub appended : get_contiguous_block out.0 ≡ get_contiguous_block bb ++ take out.1 s1

fill_reserved :
    {bb : BipBuf} (bytes : List ℕ) (n : ℕ)
    → IsValid bb
    → 0 < get_reservation_size bb
    → length bytes ≤ get_reservation_size bb
    → length bytes ≡ n
    → let bb' = commit (fill bb bb.r_start bytes) n in
      IsValid bb' × (get_contiguous_block bb' ≡ get_contiguous_block bb ++ bytes)
unfolding get_reservation_size
fill_reserved {bb} bytes n v pos h e = rw (← e) (
  commit-IsValid (length bytes) (fill-IsValid bb.r_start bytes v (omega arith)),
  commit-fill bytes v pos h,
)

fill-capacity :
    (bb : BipBuf) (offset : ℕ) (bytes : List ℕ)
    → (fill bb offset bytes).available_capacity ≡ bb.available_capacity
unfolding fill
fill-capacity bb offset bytes = refl

module _ {bb : BipBuf} (s1 : List ℕ) (v : IsValid bb) (shut : get_reservation_size bb ≡ 0) where
  abbrev consumed : ℕ
  consumed = if ltb (reserve bb).2 (length s1) then (reserve bb).2 else length s1

  feed-room : get_committed_size bb < bb.available_capacity → Fed bb s1 (feed bb s1)
  unfolding feed
  feed-room room =
      let r = reserve-Reserved v shut room in
      let bb' : BipBuf = (reserve bb).0 in
      let n : ℕ = consumed in
      let bytes : List ℕ = take n s1 in
      ground (
        arith,
        r,
        length-block v,
        get_committed_size-length v,
        length-take n s1,
        reserve-IsValid v,
        reserve-block v,
        fill_reserved {bb = bb'} bytes n,
        fill-capacity bb' bb'.r_start bytes,
        commit_closes (fill bb' bb'.r_start bytes) n,
      )

  feed-full : get_committed_size bb ≡ bb.available_capacity → Fed bb s1 (feed bb s1)
  unfolding feed
  feed-full full = ground (
    arith,
    reserve-full v full,
    get_committed_size-length v,
    commit_closes bb 0,
    commit-shut bb shut,
    commit-IsValid 0 v,
    append-nil (get_contiguous_block bb),
  )

-- On a valid buffer with no reservation open, a round of the feeding loop appends as many bytes of
-- the input as there is room for, in order, and leaves the buffer valid with no reservation open.
pub feed-Fed :
    {bb : BipBuf} (s1 : List ℕ) → IsValid bb → get_reservation_size bb ≡ 0 → Fed bb s1 (feed bb s1)
feed-Fed {bb} s1 v shut = elim (dec_lt (get_committed_size bb) bb.available_capacity) [
  | yes room ↦ feed-room s1 v shut room
  | no full ↦ feed-full s1 v shut (omega (arith, get_committed_size-length v, length-block v))
]
