-- ===== src/Rdb/Parse/File.antt =====
-- src/base/rdb_parser/rdb_parser.c: `rdb_parse_file`. The file is the bytes from its position on.
use kj_cpp_redis.BipBuf.Content.{get_committed_size-length}
use kj_cpp_redis.BipBuf.Feed.{feed, feed-Fed, reserve-Reserved}
use kj_cpp_redis.BipBuf.Inv.{IsValid}
use kj_cpp_redis.BipBuf.{
  BipBuf, reserve, get_reservation_size, get_committed_size, get_contiguous_block, commit, fill,
}
use kj_cpp_redis.Rdb.Body.Spec.{Record, records_bytes, FitRecords, Accepts}
use kj_cpp_redis.Rdb.Body.{atoi}
use kj_cpp_redis.Rdb.Parse.Dump.{header_bytes, version_bytes, Parsed, parse_object_once-Parsed}
use kj_cpp_redis.Rdb.Parse.{parse_object_once}
use kj_cpp_redis.Rdb.Types.{Code, again, premature, stuck, empty_object, RdbParser, Calls}
use kj_cpp_redis.Prelude.{
  ℕ, zero, suc, ◌<◌, ◌≤◌, ◌≡◌, ◌∙◌, ap, refl, sym, subst, Bool, true, false, Option, none, some,
  List, [], ◌++◌, arith, length, take, drop, take-all, ltb, ◌==◌, if◌then◌else◌,
}

-- `fread(ptr, 1, reserved, fp)`: how many bytes of the file are read.
abbrev pub fread_count : ℕ → List ℕ → ℕ
fread_count reserved file = if ltb reserved (length file) then reserved else length file

-- The loop of `rdb_parse_file`. The first argument is fuel.
unfoldable pub file_loop : ℕ → Calls → Code → RdbParser → List ℕ → Code × RdbParser
file_loop zero calls rc rp file = (stuck, rp)
file_loop (suc fuel) calls rc rp file =
    let (bb, ptr_r, size) = reserve rp.bb in
    let reserved = get_reservation_size bb in
    let bytes = fread_count reserved file in
    let next = λ (offset : ℕ).
      parse_object_once calls
        (record rp { bb = commit (fill bb offset (take bytes file)) bytes }) in
    let rest = λ (out : Code × RdbParser). file_loop fuel calls out.0 out.1 (drop bytes file) in
    if rp.state == 4 then (rc, rp) else elim ptr_r [
      | none ↦ (premature, record rp { bb = bb })
      | some offset ↦
          if bytes == 0
          then (premature, record rp { bb = bb })
          else if ltb bytes reserved
          then next offset
          else rest (next offset)
    ]

-- `rdb_parse_file`. A round takes a byte at least, or is the last.
unfoldable pub parse_file : Calls → RdbParser → List ℕ → Code × RdbParser
parse_file calls rp file = file_loop (suc (suc (length file))) calls again rp file

-- What a round does with the outcome of the parse.
abbrev pub after_parse : ℕ → Calls → Bool → List ℕ → Code × RdbParser → Code × RdbParser
after_parse fuel calls short left out = if short then out else file_loop fuel calls out.0 out.1 left

-- A round, by the state, the reserved block and its size.
abbrev round_by : ℕ → Calls → Code → RdbParser → List ℕ → ℕ → Option ℕ → ℕ → Code × RdbParser
round_by fuel calls rc rp file s ptr_r reserved =
    let bb = (reserve rp.bb).0 in
    let bytes = fread_count reserved file in
    let next = λ (offset : ℕ).
      parse_object_once calls
        (record rp { bb = commit (fill bb offset (take bytes file)) bytes }) in
    let rest = λ (out : Code × RdbParser). file_loop fuel calls out.0 out.1 (drop bytes file) in
    if s == 4 then (rc, rp) else elim ptr_r [
      | none ↦ (premature, record rp { bb = bb })
      | some offset ↦
          if bytes == 0
          then (premature, record rp { bb = bb })
          else if ltb bytes reserved
          then next offset
          else rest (next offset)
    ]

eq_false : (n : ℕ) → 0 < n → (n == 0) ≡ false
eq_false n h = ground arith

fread_some :
    (reserved : ℕ) (file : List ℕ) → 0 < reserved → 0 < length file → 0 < fread_count reserved file
fread_some reserved file h any = ground arith

module _ (bb : BipBuf) (file : List ℕ) where
  abbrev fed_bytes : ℕ
  fed_bytes = fread_count (reserve bb).2 file

  abbrev fed_buffer : BipBuf
  fed_buffer = commit (fill (reserve bb).0 (reserve bb).0.r_start (take fed_bytes file)) fed_bytes

  feed-some : (reserve bb).1 ≡ some (reserve bb).0.r_start → feed bb file ≡ (fed_buffer, fed_bytes)
  unfolding feed
  feed-some e =
      ap
        (λ (p : Option ℕ). (
          elim p [
            | none ↦ commit (reserve bb).0 fed_bytes
            | some offset ↦ commit (fill (reserve bb).0 offset (take fed_bytes file)) fed_bytes
          ],
          fed_bytes,
        ))
        e

round :
    (fuel : ℕ) (calls : Calls) (rc : Code) (rp : RdbParser) (file : List ℕ)
    → rp.state ≡ 0
    → IsValid rp.bb
    → get_reservation_size rp.bb ≡ 0
    → get_committed_size rp.bb < rp.bb.available_capacity
    → 0 < length file
    → file_loop (suc fuel) calls rc rp file
      ≡ after_parse fuel calls
          (ltb (feed rp.bb file).1 (reserve rp.bb).2)
          (drop (feed rp.bb file).1 file)
          (parse_object_once calls (record rp { bb = (feed rp.bb file).0 }))
unfolding file_loop
round fuel calls rc rp file idle valid shut room any =
    let r = reserve-Reserved valid shut room in
    let bb1 = (reserve rp.bb).0 in
    let size = (reserve rp.bb).2 in
    let some_room : 0 < size = omega (arith, r.count, room) in
    ap (λ s. round_by fuel calls rc rp file s (reserve rp.bb).1 (get_reservation_size bb1)) idle
    ∙ ap (λ p. round_by fuel calls rc rp file 0 p (get_reservation_size bb1)) r.offset
    ∙ ap (λ n. round_by fuel calls rc rp file 0 (some bb1.r_start) n) r.all
    ∙ rw (eq_false (fread_count size file) (fread_some size file some_room any)) refl
    ∙ ap
        (λ (f : BipBuf × ℕ).
          after_parse fuel calls (ltb f.1 size) (drop f.1 file)
            (parse_object_once calls (record rp { bb = f.0 })))
        (sym (feed-some rp.bb file r.offset))

-- A parser that is over reads no more.
file_loop_over :
    (fuel : ℕ) (calls : Calls) (rc : Code) (rp : RdbParser) (file : List ℕ)
    → rp.state ≡ 4
    → file_loop (suc fuel) calls rc rp file ≡ (rc, rp)
unfolding file_loop
file_loop_over fuel calls rc rp file e =
    ap
      (λ s.
        round_by fuel calls rc rp file s (reserve rp.bb).1 (get_reservation_size (reserve rp.bb).0))
      e

after_parse_over :
    (fuel : ℕ) (calls : Calls) (short : Bool) (left : List ℕ) (out : Code × RdbParser)
    → out.1.state ≡ 4
    → after_parse (suc fuel) calls short left out ≡ out
after_parse_over fuel calls true left out e = refl
after_parse_over fuel calls false left out e = file_loop_over fuel calls out.0 out.1 left e

-- A file that is a dump as for rdb_parse_object_once is no longer than the capacity of the valid and
-- empty input buffer of a parser that is idle, with no builder, an empty object and no reservation
-- open: rdb_parse_file returns OB_OVER within its fuel, and the callback, if it goes on, has been
-- called with the objects that the records stand for, in order, except that the code reads the bytes
-- of an expire time in reverse order, and its object has that number as the time. The strings fit:
-- their lengths are below 2^32 - 1, their 8-bit words are not negative, and lzf_decompress undoes
-- their compression.
pub parse_file-Parsed :
    (calls : Calls) (rp : RdbParser) (a b c d : ℕ) (rs : List Record) (rest : List ℕ)
    → rp.state ≡ 0
    → rp.stack_ob ≡ []
    → rp.o ≡ empty_object
    → IsValid rp.bb
    → get_reservation_size rp.bb ≡ 0
    → get_contiguous_block rp.bb ≡ []
    → length (header_bytes a b c d ++ (records_bytes rs ++ rest)) ≤ rp.bb.available_capacity
    → FitRecords calls rs
    → Accepts calls rp.walked rs
    → Parsed calls rp
        (atoi (version_bytes a b c d))
        rs
        rest
        (parse_file calls rp (header_bytes a b c d ++ (records_bytes rs ++ rest)))
unfolding parse_file
parse_file-Parsed calls rp a b c d rs rest idle none_yet fresh valid shut empty fits fit accepts =
    let file = header_bytes a b c d ++ (records_bytes rs ++ rest) in
    let fed = feed-Fed file valid shut in
    let all : (feed rp.bb file).1 ≡ length file = omega (arith, fed.count, ap length empty, fits) in
    let rp1 = record rp { bb = (feed rp.bb file).0 } in
    let block : get_contiguous_block rp1.bb ≡ file =
      fed.appended
      ∙ ap (λ t. t ++ take (feed rp.bb file).1 file) empty
      ∙ take-all (feed rp.bb file).1 file (omega (arith, all)) in
    let parsed =
      parse_object_once-Parsed calls rp1 a b c d rs rest idle none_yet fresh fit accepts
        (record { valid = fed.valid; left = block }) in
    let out = parse_object_once calls rp1 in
    let run : file_loop (suc (suc (length file))) calls again rp file ≡ out =
      round (suc (length file)) calls again rp file idle valid shut
        (omega (arith, get_committed_size-length valid, ap length empty, fits)) (omega arith)
      ∙ after_parse_over (length file) calls (ltb (feed rp.bb file).1 (reserve rp.bb).2)
          (drop (feed rp.bb file).1 file) out parsed.state in
    subst (λ (o : Code × RdbParser). Parsed calls rp (atoi (version_bytes a b c d)) rs rest o)
      (sym run)
      (record {
        code = parsed.code;
        state = parsed.state;
        version_read = parsed.version_read;
        walked = parsed.walked;
        stack_empty = parsed.stack_empty;
        left = parsed.left;
      })
