-- ===== src/Rdb/Parse/Fed.antt =====
-- `rdb_parse_dumped_data` on the result of the command DUMP.
use kj_cpp_redis.BipBuf.Feed.{feed, Fed, feed-Fed}
use kj_cpp_redis.BipBuf.Inv.{IsValid, reset-IsValid}
use kj_cpp_redis.BipBuf.Queue.{reset-empty}
use kj_cpp_redis.BipBuf.{BipBuf, reset, get_contiguous_block}
use kj_cpp_redis.Rdb.Object.Spec.{Value, value_type, value_bytes}
use kj_cpp_redis.Rdb.Parse.Dumped.{
  dumped_bytes, FitValues, AcceptsValues, dumped_objects, ParsedValues,
  parse_dumped_data_once-ParsedValues,
}
use kj_cpp_redis.Rdb.Parse.{
  reset_rdb_parser, bind_walk_cb, parse_dumped_data_once, feed_loop, parse_dumped_data,
}
use kj_cpp_redis.Rdb.Types.{Code, premature, RdbObject, empty_object, RdbParser, Calls}
use kj_cpp_redis.Prelude.{
  ℕ, zero, suc, ◌+◌, ◌^◌, ◌<◌, ◌≤◌, ◌≡◌, ◌∙◌, ap, refl, Option, none, some, List, [], ◌∷◌, ◌++◌,
  arith, length, length-append, take, take-all, drop-all, take-prefix, count_eq, sub_size,
}

-- The payload is all but the last ten bytes.
payload :
    (s footer : List ℕ)
    → length footer ≡ 10
    → length s < 2 ^ 62
    → take (sub_size (length (s ++ footer)) 10) (s ++ footer) ≡ s
payload s footer ten h =
    count_eq (λ n. take n (s ++ footer)) (sub_size (length (s ++ footer)) 10) (length s)
      (omega (arith, length-append s footer, ten))
    ∙ take-prefix s footer

feed_loop_done :
    (rounds fuel : ℕ) (calls : Calls) (rc : Option Code) (rp : RdbParser)
    → feed_loop rounds fuel calls rc rp [] ≡ (rc, rp)
unfolding feed_loop
feed_loop_done zero fuel calls rc rp = refl
feed_loop_done (suc rounds) fuel calls rc rp = refl

-- One round that takes all the bytes.
feed_loop_once :
    (rounds fuel : ℕ) (calls : Calls) (rc : Option Code) (rp : RdbParser) (b : ℕ) (s1 : List ℕ)
    → length (b ∷ s1) ≤ (feed rp.bb (b ∷ s1)).1
    → feed_loop (suc rounds) fuel calls rc rp (b ∷ s1) ≡ (
        let out = parse_dumped_data_once fuel calls (record rp { bb = (feed rp.bb (b ∷ s1)).0 }) in
        (some out.0, out.1))
unfolding feed_loop
feed_loop_once rounds fuel calls rc rp b s1 all =
    let out = parse_dumped_data_once fuel calls (record rp { bb = (feed rp.bb (b ∷ s1)).0 }) in
    ap (feed_loop rounds fuel calls (some out.0) out.1)
      (drop-all (feed rp.bb (b ∷ s1)).1 (b ∷ s1) all)
    ∙ feed_loop_done rounds fuel calls (some out.0) out.1

-- The round that takes the payload, on a buffer that was reset.
module _ (bb : BipBuf) (v : IsValid bb) (s : List ℕ) (fits : length s ≤ bb.available_capacity) where
  fed : Fed (reset bb) s (feed (reset bb) s)
  fed = feed-Fed s (reset-IsValid v) ((reset-empty bb).0)

  fed_count : (feed (reset bb) s).1 ≡ length s
  fed_count = omega (arith, fed.count, ap length ((reset-empty bb).2), (reset-empty bb).1)

  fed_block : get_contiguous_block (feed (reset bb) s).0 ≡ s
  fed_block =
      fed.appended
      ∙ ap (λ t. t ++ take (feed (reset bb) s).1 s) ((reset-empty bb).2)
      ∙ take-all (feed (reset bb) s).1 s (omega (arith, fed_count))

-- The result of the command DUMP for a value at least (values that fit, each behind its type), with
-- ten bytes of footer and no more payload than the valid input buffer takes: with fuel for two
-- rounds more than there are values, rdb_parse_dumped_data starts the parser anew, calls the
-- callback, if that goes on, with the objects that the values stand for, in order, and returns
-- OB_ERROR_PREMATURE; the version of the parser stays. The strings fit: their lengths are below 2^32
-- - 1, their 8-bit words are not negative, and lzf_decompress undoes their compression.
pub parse_dumped_data-ParsedValues :
    (rounds fuel : ℕ) (calls : Calls) (cb : List RdbObject → RdbObject → ℕ) (rp : RdbParser)
    (v : Value) (vs : List Value) (footer : List ℕ)
    → IsValid rp.bb
    → length (dumped_bytes (v ∷ vs)) ≤ rp.bb.available_capacity
    → length footer ≡ 10
    → length (v ∷ vs) + 2 ≤ fuel
    → FitValues (record calls { o_cb = cb }) (v ∷ vs)
    → AcceptsValues (record calls { o_cb = cb }) [] (v ∷ vs)
    → let out = parse_dumped_data (suc rounds) fuel calls cb rp (dumped_bytes (v ∷ vs) ++ footer) in
      (out.0 ≡ some premature)
      × (out.1.walked ≡ dumped_objects (record calls { o_cb = cb }) (v ∷ vs))
      × (out.1.version ≡ rp.version)
unfolding parse_dumped_data reset_rdb_parser bind_walk_cb
parse_dumped_data-ParsedValues rounds fuel calls cb rp v vs footer valid fits ten enough fit
      accepts =
    let calls1 = record calls { o_cb = cb } in
    let s = dumped_bytes (v ∷ vs) in
    let bb = reset rp.bb in
    let room : length s ≤ bb.available_capacity = omega (arith, (reset-empty rp.bb).1) in
    let valid0 : IsValid bb = reset-IsValid valid in
    let rp0 = record rp {
      parsed = 0;
      state = 0;
      stack_ob = [];
      bb = reset bb;
      o = empty_object;
      walked = [];
    } in
    let rp1 = record rp0 { bb = (feed (reset bb) s).0 } in
    let out = parse_dumped_data_once fuel calls1 rp1 in
    let all = fed_count bb valid0 s room in
    let parsed : ParsedValues calls1 rp1 (v ∷ vs) out =
      parse_dumped_data_once-ParsedValues fuel calls1 rp1 (v ∷ vs) enough refl refl refl fit accepts
        (record { valid = (fed bb valid0 s room).valid; left = fed_block bb valid0 s room }) in
    let run : parse_dumped_data (suc rounds) fuel calls cb rp (s ++ footer) ≡ (some out.0, out.1) =
      ap (feed_loop (suc rounds) fuel calls1 none rp0)
        (payload s footer ten (omega (arith, fits, valid.small)))
      ∙ feed_loop_once rounds fuel calls1 none rp0 (value_type v) (value_bytes v ++ dumped_bytes vs)
          (omega (arith, all)) in
    (
      ap (λ (r : Option Code × RdbParser). r.0) run ∙ ap some parsed.code,
      ap (λ (r : Option Code × RdbParser). r.1.walked) run ∙ parsed.walked,
      ap (λ (r : Option Code × RdbParser). r.1.version) run ∙ parsed.version_kept,
    )
