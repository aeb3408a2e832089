-- ===== src/Rdb/Parse.antt =====
-- src/base/rdb_parser/rdb_parser.c: the parser of dumps.
pub mod Dump
pub mod Dumped
pub mod Fed
pub mod File
use kj_cpp_redis.BipBuf.Feed.{feed}
use kj_cpp_redis.BipBuf.{BipBuf, create, reset}
use kj_cpp_redis.Rdb.Body.{build_header, build_body, build_footer}
use kj_cpp_redis.Rdb.Object.{build_dumped_data}
use kj_cpp_redis.Rdb.Types.{
  Code, over, again, premature, stuck, RdbObject, empty_object, RdbParser, Calls,
}
use kj_cpp_redis.Prelude.{
  ℕ, zero, suc, ◌-◌, ◌^◌, Bool, true, false, not, ◌&&◌, Option, none, some, List, [], ◌∷◌, ◌==◌,
  leb, if◌then◌else◌, length, take, drop, sub_size,
}

-- `__default_walk_rdb_object`: -1, as a 32-bit word.
abbrev pub default_walk_rdb_object : List RdbObject → RdbObject → ℕ
default_walk_rdb_object walked o = 2 ^ 32 - 1

-- `rdb_parse_bind_walk_cb`. A new callback has seen nothing.
unfoldable pub bind_walk_cb :
    Calls → RdbParser → (List RdbObject → RdbObject → ℕ) → Calls × RdbParser
bind_walk_cb calls rp cb = (record calls { o_cb = cb }, record rp { walked = [] })

-- `create_rdb_parser`; `cb` and `payload` are not used. `mem` is the memory of the input buffer.
unfoldable pub create_rdb_parser :
    Calls → (List RdbObject → RdbObject → ℕ) → List ℕ → Calls × RdbParser
create_rdb_parser calls cb mem = (
  record calls { o_cb = default_walk_rdb_object },
  record {
    version = 5;
    parsed = 0;
    state = 0;
    stack_ob = [];
    bb = create 4096 mem;
    o = empty_object;
    walked = [];
  },
)

-- `reset_rdb_parser`: the version stays, as does the callback.
unfoldable pub reset_rdb_parser : RdbParser → RdbParser
reset_rdb_parser rp = record rp {
  parsed = 0;
  state = 0;
  stack_ob = [];
  bb = reset rp.bb;
  o = empty_object;
}

-- A part that is over: the state of the next.
unfoldable pub next_part : Code × RdbParser → ℕ → Code × RdbParser
next_part (rc, rp) s = elim rc [ over ↦ (over, record rp { state = s }) | other ↦ (other, rp) ]

-- The `switch` of `rdb_parse_object_once`, by the state: PARSE_RDB_IDLE and PARSE_RDB_HEADER,
-- PARSE_RDB_BODY, PARSE_RDB_FOOTER.
unfoldable pub parse_part : Calls → Code → RdbParser → ℕ → Code × RdbParser
parse_part calls rc rp s =
    if leb s 1
    then next_part (build_header rp) 2
    else if s == 2
    then (let (rc1, rp1, u) = build_body calls rp in next_part (rc1, rp1) 3)
    else if s == 3
    then next_part (build_footer rp) 4
    else (rc, rp)

-- `rc == OB_AGAIN || rc == OB_OVER`
abbrev pub goes_on : Code → Bool
goes_on again = true
goes_on over = true
goes_on _ = false

unfoldable pub object_once_loop : ℕ → Calls → Code → RdbParser → Code × RdbParser
object_once_loop zero calls rc rp = (stuck, rp)
object_once_loop (suc fuel) calls rc rp =
    let (rc1, rp1) = parse_part calls rc rp rp.state in
    let rest = object_once_loop fuel calls rc1 rp1 in
    if not (rp.state == 4) && goes_on rc then rest else (rc, rp)

-- `rdb_parse_object_once`: a round for each part, and the test that ends the loop.
unfoldable pub parse_object_once : Calls → RdbParser → Code × RdbParser
parse_object_once calls rp = object_once_loop 4 calls again rp

-- `rdb_parse_dumped_data_once`. The first argument is fuel.
abbrev pub is_premature : Code → Bool
is_premature premature = true
is_premature _ = false

unfoldable pub dumped_data_loop : ℕ → Calls → Code → RdbParser → Code × RdbParser
dumped_data_loop zero calls rc rp = (stuck, rp)
dumped_data_loop (suc fuel) calls rc rp =
    let (rc1, rp1, u) = build_dumped_data calls rp in
    let rest = dumped_data_loop fuel calls rc1 rp1 in
    if not (is_premature rc) && not (rp.state == 4) then rest else (rc, rp)

unfoldable pub parse_dumped_data_once : ℕ → Calls → RdbParser → Code × RdbParser
parse_dumped_data_once fuel calls rp = dumped_data_loop fuel calls again rp

-- The loop of `rdb_parse_dumped_data` on the bytes that remain, in rounds of a feed and a parse. `none`
-- is a code that is not set.
unfoldable pub feed_loop :
    ℕ → ℕ → Calls → Option Code → RdbParser → List ℕ → Option Code × RdbParser
feed_loop zero fuel calls rc rp [] = (rc, rp)
feed_loop zero fuel calls rc rp (b ∷ s1) = (some stuck, rp)
feed_loop (suc rounds) fuel calls rc rp [] = (rc, rp)
feed_loop (suc rounds) fuel calls rc rp (b ∷ s1) =
    let (bb, consume) = feed rp.bb (b ∷ s1) in
    let (rc1, rp1) = parse_dumped_data_once fuel calls (record rp { bb = bb }) in
    feed_loop rounds fuel calls (some rc1) rp1 (drop consume (b ∷ s1))

-- `rdb_parse_dumped_data`, for the `len` bytes `s`: all but the last ten are fed.
unfoldable pub parse_dumped_data :
    ℕ → ℕ → Calls → (List RdbObject → RdbObject → ℕ) → RdbParser → List ℕ → Option Code × RdbParser
parse_dumped_data rounds fuel calls cb rp s =
    let (calls1, rp1) = bind_walk_cb calls (reset_rdb_parser rp) cb in
    feed_loop rounds fuel calls1 none (record rp1 { bb = reset rp1.bb })
      (take (sub_size (length s) 10) s)
