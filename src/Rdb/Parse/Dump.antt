-- ===== src/Rdb/Parse/Dump.antt =====
-- A whole dump, parsed in one call.
use kj_cpp_redis.BipBuf.Content.{get_committed_size-length}
use kj_cpp_redis.BipBuf.{get_committed_size, get_contiguous_block}
use kj_cpp_redis.Rdb.Body.Spec.{Record, records_bytes, FitRecords, Accepts, seen_objects}
use kj_cpp_redis.Rdb.Body.Whole.{build_body-BuiltBody}
use kj_cpp_redis.Rdb.Body.{magic_str, equal, atoi, build_header, build_body, build_footer}
use kj_cpp_redis.Rdb.Builder.After.{consume-After}
use kj_cpp_redis.Rdb.Builder.Loop.{Holds}
use kj_cpp_redis.Rdb.Builder.{consume}
use kj_cpp_redis.Rdb.Helper.{calc_crc}
use kj_cpp_redis.Rdb.Parse.{next_part, parse_part, goes_on, object_once_loop, parse_object_once}
use kj_cpp_redis.Rdb.Types.{Code, over, again, invalid_magic_string, empty_object, RdbParser, Calls}
use kj_cpp_redis.Prelude.{
  ℕ, suc, ◌≤◌, ◌≡◌, ◌∙◌, ap, refl, sym, subst, true, not, ◌&&◌, List, [], ◌∷◌, ◌++◌, arith, length,
  ◌==◌, if◌then◌else◌, take, window,
}

-- "REDIS", four bytes of a version, the records and their end.
abbrev pub version_bytes : ℕ → ℕ → ℕ → ℕ → List ℕ
version_bytes a b c d = a ∷ b ∷ c ∷ d ∷ []

abbrev pub header_bytes : ℕ → ℕ → ℕ → ℕ → List ℕ
header_bytes a b c d = magic_str ++ version_bytes a b c d

abbrev header_outcome : RdbParser → List ℕ → Code × RdbParser
header_outcome rp ptr =
    if equal (take 5 ptr) magic_str
    then (over, consume (record rp { version = atoi (window ptr 5 4) }) 9)
    else (invalid_magic_string, rp)

header_room :
    (rp : RdbParser)
    → 9 ≤ get_committed_size rp.bb
    → build_header rp ≡ header_outcome rp (get_contiguous_block rp.bb)
unfolding build_header
header_room rp h = ground arith

pub build_header-bytes :
    (rp : RdbParser) (a b c d : ℕ) (rest : List ℕ)
    → Holds rp (header_bytes a b c d ++ rest)
    → build_header rp ≡ (over, consume (record rp { version = atoi (version_bytes a b c d) }) 9)
build_header-bytes rp a b c d rest holds =
    header_room rp (omega (arith, get_committed_size-length holds.valid, ap length holds.left))
    ∙ ap (header_outcome rp) holds.left

module _ (fuel : ℕ) (calls : Calls) (rc rc1 : Code) (rp rp1 : RdbParser) where
  abbrev loop_outcome : ℕ → Code × RdbParser → Code × RdbParser
  loop_outcome t out =
      if not (t == 4) && goes_on rc then object_once_loop fuel calls out.0 out.1 else (rc, rp)

  loop_goes :
      (s : ℕ)
      → rp.state ≡ s
      → (not (s == 4) && goes_on rc) ≡ true
      → parse_part calls rc rp s ≡ (rc1, rp1)
      → object_once_loop (suc fuel) calls rc rp ≡ object_once_loop fuel calls rc1 rp1
  unfolding object_once_loop
  loop_goes s state going part =
      ap (λ t. loop_outcome t (parse_part calls rc rp t)) state
      ∙ ap (loop_outcome s) part
      ∙ rw going refl

  loop_ends : rp.state ≡ 4 → object_once_loop (suc fuel) calls rc rp ≡ (rc, rp)
  unfolding object_once_loop
  loop_ends state = ap (λ t. loop_outcome t (parse_part calls rc rp rp.state)) state

-- The parts, each with the state of the next.
module _ (calls : Calls) (rc : Code) (rp : RdbParser) where
  part_header :
      (rp1 : RdbParser)
      → build_header rp ≡ (over, rp1)
      → parse_part calls rc rp 0 ≡ (over, record rp1 { state = 2 })
  unfolding parse_part next_part
  part_header rp1 e = ap (λ out. next_part out 2) e

  part_body :
      (rp1 : RdbParser)
      → build_body calls rp ≡ (over, rp1, tt)
      → parse_part calls rc rp 2 ≡ (over, record rp1 { state = 3 })
  unfolding parse_part next_part
  part_body rp1 e = ap (λ (out : Code × RdbParser × Unit {0}). next_part (out.0, out.1) 3) e

  part_footer : parse_part calls rc rp 3 ≡ (over, record rp { state = 4 })
  unfolding parse_part next_part build_footer
  part_footer = refl

-- What the parser has when a dump is over.
pub record Parsed (calls : Calls) (rp : RdbParser) (version : ℕ) (rs : List Record) (rest : List ℕ)
    (out : Code × RdbParser) : Type 0 where
  pub code : out.0 ≡ over
  pub state : out.1.state ≡ 4
  pub version_read : out.1.version ≡ version
  pub walked : out.1.walked ≡ rp.walked ++ seen_objects calls rs
  pub stack_empty : out.1.stack_ob ≡ []
  pub left : Holds out.1 rest

-- A dump at the front of a valid input is "REDIS", four bytes of a version, and records that fit:
-- strings in any encoding, lists, sets, hashes and sorted sets with an element at least, blocks that
-- their loaders load, databases and expire times. With a parser that is idle, has no builder on its
-- stack and an empty object, and a callback that goes on, rdb_parse_object_once returns OB_OVER
-- within its fuel, and has called the callback with the objects that the records stand for, in
-- order, except that the code reads the bytes of an expire time in reverse order, and its object has
-- that number as the time; the version is read, no builder is left, and the bytes behind the dump
-- are left. The strings fit: their lengths are below 2^32 - 1, their 8-bit words are not negative,
-- and lzf_decompress undoes their compression.
pub parse_object_once-Parsed :
    (calls : Calls) (rp : RdbParser) (a b c d : ℕ) (rs : List Record) (rest : List ℕ)
    → rp.state ≡ 0
    → rp.stack_ob ≡ []
    → rp.o ≡ empty_object
    → FitRecords calls rs
    → Accepts calls rp.walked rs
    → Holds rp (header_bytes a b c d ++ (records_bytes rs ++ rest))
    → Parsed calls rp (atoi (version_bytes a b c d)) rs rest (parse_object_once calls rp)
unfolding parse_object_once consume calc_crc
parse_object_once-Parsed calls rp a b c d rs rest idle none_yet fresh fit accepts holds =
    let bytes = records_bytes rs ++ rest in
    let head = header_bytes a b c d in
    let after = consume-After rp head bytes holds in
    let rp1 = consume (record rp { version = atoi (version_bytes a b c d) }) 9 in
    let rp2 = record rp1 { state = 2 } in
    let body =
      build_body-BuiltBody calls rp2 rs rest none_yet fresh fit accepts
        (record { valid = after.holds.valid; left = after.holds.left }) in
    let rp3 = record body.rp' { state = 3 } in
    let rp4 = record rp3 { state = 4 } in
    let run : parse_object_once calls rp ≡ (over, rp4) =
      loop_goes 3 calls again over rp rp2 0 idle refl
        (part_header calls again rp rp1 (build_header-bytes rp a b c d bytes holds))
      ∙ loop_goes 2 calls over over rp2 rp3 2 refl refl
          (part_body calls over rp2 body.rp' body.result)
      ∙ loop_goes 1 calls over over rp3 rp4 3 refl refl (part_footer calls over rp3)
      ∙ loop_ends 0 calls over over rp4 rp4 refl in
    record {
      code = ap (λ (out : Code × RdbParser). out.0) run;
      state = ap (λ (out : Code × RdbParser). out.1.state) run;
      version_read =
          ap (λ (out : Code × RdbParser). out.1.version) run
          ∙ ap (λ (p : RdbParser). p.version) body.kept;
      walked =
          ap (λ (out : Code × RdbParser). out.1.walked) run
          ∙ ap (λ (p : RdbParser). p.walked) body.kept;
      stack_empty =
          ap (λ (out : Code × RdbParser). out.1.stack_ob) run
          ∙ ap (λ (p : RdbParser). p.stack_ob) body.kept
          ∙ none_yet;
      left =
          subst (λ (out : Code × RdbParser). Holds out.1 rest) (sym run)
            (record { valid = body.holds.valid; left = body.holds.left });
    }
