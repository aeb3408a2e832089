-- ===== src/Rdb/Parse/Dumped.antt =====
-- Values as the command DUMP returns them, without their footer, parsed.
use kj_cpp_redis.BipBuf.Content.{get_committed_size-length}
use kj_cpp_redis.Rdb.Body.Rounds.{build_object_type-read, with_type, walked_on}
use kj_cpp_redis.Rdb.Builder.After.{consume-After}
use kj_cpp_redis.Rdb.Builder.Loop.{
  with_top, alloc-with_top, pop-with_top, Holds, ob_loop-again, ob_loop-over, ob_loop-premature,
}
use kj_cpp_redis.Rdb.Builder.{zero_builder, builder, consume, ob_loop}
use kj_cpp_redis.Rdb.Chain.{Outcome}
use kj_cpp_redis.Rdb.Helper.{calc_crc, read_type}
use kj_cpp_redis.Rdb.Object.Built.{value-BuiltObject}
use kj_cpp_redis.Rdb.Object.Spec.{Value, value_type, value_bytes, FitValue, with_value}
use kj_cpp_redis.Rdb.Object.{
  build_object_detail_kv_val, walk_object, build_object_type, dumped_data_step, build_dumped_data,
}
use kj_cpp_redis.Rdb.Parse.{is_premature, dumped_data_loop, parse_dumped_data_once}
use kj_cpp_redis.Rdb.Types.{
  Code, over, again, abort, premature, RdbObject, empty_object, ObjectBuilder, RdbParser, Calls,
}
use kj_cpp_redis.Prelude.{
  ℕ, zero, suc, ◌+◌, ◌≤◌, ◌≡◌, ◌∙◌, ap, refl, sym, subst, Bool, true, false, not, ◌&&◌, none, List,
  [], ◌∷◌, ◌++◌, append_assoc, append-nil, arith, length, leb, ◌==◌, if◌then◌else◌,
}

abbrev pub dumped_object : Calls → Value → RdbObject
dumped_object calls v = with_value calls (record empty_object { type = value_type v }) v

abbrev pub dumped_bytes : List Value → List ℕ
dumped_bytes [] = []
dumped_bytes (v ∷ vs) = value_type v ∷ (value_bytes v ++ dumped_bytes vs)

abbrev pub FitValues : Calls → List Value → Type 0
FitValues calls [] = Unit {0}
FitValues calls (v ∷ vs) = FitValue calls v × FitValues calls vs

abbrev pub dumped_objects : Calls → List Value → List RdbObject
dumped_objects calls [] = []
dumped_objects calls (v ∷ vs) = dumped_object calls v ∷ dumped_objects calls vs

abbrev pub AcceptsValues : Calls → List RdbObject → List Value → Type 0
AcceptsValues calls walked [] = Unit {0}
AcceptsValues calls walked (v ∷ vs) =
    (calls.o_cb walked (dumped_object calls v) ≡ 0)
    × AcceptsValues calls (walked ++ (dumped_object calls v ∷ [])) vs

-- What is done with the outcome of the builder of a value.
abbrev walk_outcome : Bool × RdbParser → Outcome
walk_outcome (goes_on, rp2) = if goes_on then (over, rp2, tt) else (abort, rp2, tt)

abbrev dumped_outcome : Calls → Outcome → Outcome
dumped_outcome calls out = elim out.0 [
  | over ↦ walk_outcome (walk_object calls out.1)
  | other ↦ (other, out.1, tt)
]

module _ (calls : Calls) (rp : RdbParser) where
  walk_object-on : calls.o_cb rp.walked rp.o ≡ 0 → walk_object calls rp ≡ (true, walked_on rp)
  unfolding walk_object
  walk_object-on e = rw e refl

  dumped_type :
      (i : ℕ)
      → leb (builder rp i).state 1 ≡ true
      → dumped_data_step calls i rp tt ≡ build_object_type rp i
  unfolding dumped_data_step
  dumped_type i e = rw e refl

  dumped_value :
      (i : ℕ)
      → (builder rp i).state ≡ 2
      → dumped_data_step calls i rp tt
        ≡ dumped_outcome calls (build_object_detail_kv_val calls rp i)
  unfolding dumped_data_step
  dumped_value i e = rw e refl

-- A value is over: the callback has its object, and the rest of the parser is as it was.
record BuiltValue (calls : Calls) (rp : RdbParser) (v : Value) (rest : List ℕ) : Type 0 where
  rp' : RdbParser
  result : build_dumped_data calls rp ≡ (over, rp', tt)
  holds : Holds rp' rest
  kept : rp' ≡ record rp {
    bb = rp'.bb;
    parsed = rp'.parsed;
    o = empty_object;
    walked = rp.walked ++ (dumped_object calls v ∷ []);
  }

-- The parser before a value: no builder, and an empty object.
abbrev fresh : RdbParser → RdbParser
fresh rp = record rp { stack_ob = []; o = empty_object }

build_dumped_data-BuiltValue :
    (calls : Calls) (rp : RdbParser) (v : Value) (rest : List ℕ)
    → FitValue calls v
    → calls.o_cb rp.walked (dumped_object calls v) ≡ 0
    → Holds rp (value_type v ∷ (value_bytes v ++ rest))
    → BuiltValue calls (fresh rp) v rest
unfolding build_dumped_data consume calc_crc
build_dumped_data-BuiltValue calls rp v rest fit accepts holds =
    let t = value_type v in
    let b = record zero_builder { depth = 0 } in
    let b1 = record b { state = 2 } in
    let rp0 = fresh rp in
    let rp1 = consume (with_type rp0 t) 1 in
    let after = consume-After rp (t ∷ []) (value_bytes v ++ rest) holds in
    let built =
      value-BuiltObject calls rp1 0 b1 v rest (omega arith) refl refl refl refl fit
        (record { valid = after.holds.valid; left = after.holds.left }) in
    let rp2 = record rp1 {
      bb = built.rp'.bb;
      parsed = built.rp'.parsed;
      o = dumped_object calls v;
    } in
    let body = dumped_data_step calls 0 in
    record {
      rp' = walked_on rp2;
      result =
          ap (λ p. ob_loop 2 body p tt) (alloc-with_top rp0 0 refl (omega arith))
          ∙ ob_loop-again body 1 (with_top rp0 b) (with_top rp1 b1) tt tt (
              dumped_type calls (with_top rp0 b) 0 refl
              ∙ build_object_type-read rp0 0 t b (value_bytes v ++ rest) refl
                  (record { valid = holds.valid; left = holds.left }))
          ∙ ob_loop-over body 0 (with_top rp1 b1) (with_top (walked_on rp2) b1) tt tt (
              dumped_value calls (with_top rp1 b1) 0 refl
              ∙ ap (dumped_outcome calls) built.result
              ∙ ap (λ p. walk_outcome (walk_object calls p)) built.kept
              ∙ ap walk_outcome (walk_object-on calls (with_top rp2 b1) accepts))
          ∙ ap (λ p. (over, p, tt)) (pop-with_top (walked_on rp2) b1);
      holds = record { valid = built.holds.valid; left = built.holds.left };
      kept = refl;
    }

-- No byte is left: the builder that waits for a type stays on the stack.
read_type-empty : (rp : RdbParser) → Holds rp [] → read_type rp.bb ≡ none
unfolding read_type
read_type-empty rp holds =
    ground (arith, get_committed_size-length holds.valid, ap length holds.left)

build_object_type-empty :
    (rp : RdbParser) (i : ℕ) → Holds rp [] → build_object_type rp i ≡ (premature, rp, tt)
unfolding build_object_type
build_object_type-empty rp i holds = rw (build_object_type, read_type-empty rp holds) refl

build_dumped_data-empty :
    (calls : Calls) (rp : RdbParser)
    → Holds rp []
    → build_dumped_data calls (fresh rp) ≡ (premature, with_top (fresh rp) zero_builder, tt)
unfolding build_dumped_data
build_dumped_data-empty calls rp holds =
    let body = dumped_data_step calls 0 in
    ap (λ p. ob_loop 2 body p tt) (alloc-with_top (fresh rp) 0 refl (omega arith))
    ∙ ob_loop-premature body 1 (with_top (fresh rp) zero_builder) (with_top (fresh rp) zero_builder)
        tt tt
        (dumped_type calls (with_top (fresh rp) zero_builder) 0 refl
          ∙ build_object_type-empty (with_top (fresh rp) zero_builder) 0
              (record { valid = holds.valid; left = holds.left }))

module _ (fuel : ℕ) (calls : Calls) (rc : Code) (rp : RdbParser) where
  abbrev loop_outcome : ℕ → Outcome → Code × RdbParser
  loop_outcome s out =
      if not (is_premature rc) && not (s == 4)
      then dumped_data_loop fuel calls out.0 out.1
      else (rc, rp)

  loop_goes :
      (rc1 : Code) (rp1 : RdbParser)
      → is_premature rc ≡ false
      → rp.state ≡ 0
      → build_dumped_data calls rp ≡ (rc1, rp1, tt)
      → dumped_data_loop (suc fuel) calls rc rp ≡ dumped_data_loop fuel calls rc1 rp1
  unfolding dumped_data_loop
  loop_goes rc1 rp1 going state run =
      ap (λ s. loop_outcome s (build_dumped_data calls rp)) state
      ∙ ap (loop_outcome 0) run
      ∙ rw going refl

loop_ends :
    (fuel : ℕ) (calls : Calls) (rp : RdbParser)
    → dumped_data_loop (suc fuel) calls premature rp ≡ (premature, rp)
unfolding dumped_data_loop
loop_ends fuel calls rp = refl

-- The values of a dump are over, and the parser waits for the type of another.
pub record ParsedValues (calls : Calls) (rp : RdbParser) (vs : List Value) (out : Code × RdbParser)
    : Type 0 where
  pub code : out.0 ≡ premature
  pub walked : out.1.walked ≡ rp.walked ++ dumped_objects calls vs
  pub version_kept : out.1.version ≡ rp.version
  pub waits : out.1.stack_ob ≡ zero_builder ∷ []
  pub left : Holds out.1 []

dumped_data_loop-ParsedValues :
    (fuel : ℕ) (calls : Calls) (rc : Code) (rp : RdbParser) (vs : List Value)
    → length vs + 2 ≤ fuel
    → is_premature rc ≡ false
    → rp.state ≡ 0
    → FitValues calls vs
    → AcceptsValues calls rp.walked vs
    → Holds rp (dumped_bytes vs)
    → ParsedValues calls rp vs (dumped_data_loop fuel calls rc (fresh rp))
dumped_data_loop-ParsedValues zero calls rc rp vs lt going idle fit accepts holds =
    absurd (omega arith)
dumped_data_loop-ParsedValues (suc zero) calls rc rp vs lt going idle fit accepts holds =
    absurd (omega arith)
dumped_data_loop-ParsedValues (suc (suc fuel)) calls rc rp [] lt going idle fit accepts holds =
    let last = with_top (fresh rp) zero_builder in
    let run =
      loop_goes (suc fuel) calls rc (fresh rp) premature last going idle
        (build_dumped_data-empty calls rp holds)
      ∙ loop_ends fuel calls last in
    record {
      code = ap (λ (out : Code × RdbParser). out.0) run;
      walked = ap (λ (out : Code × RdbParser). out.1.walked) run ∙ sym (append-nil rp.walked);
      version_kept = ap (λ (out : Code × RdbParser). out.1.version) run;
      waits = ap (λ (out : Code × RdbParser). out.1.stack_ob) run;
      left =
          subst (λ (out : Code × RdbParser). Holds out.1 []) (sym run)
            (record { valid = holds.valid; left = holds.left });
    }
dumped_data_loop-ParsedValues (suc (suc fuel)) calls rc rp (v ∷ vs) lt going idle fit accepts
      holds =
    let built =
      build_dumped_data-BuiltValue calls rp v (dumped_bytes vs) (fit.0) (accepts.0) holds in
    let rp1 = record rp {
      bb = built.rp'.bb;
      parsed = built.rp'.parsed;
      walked = rp.walked ++ (dumped_object calls v ∷ []);
    } in
    let next =
      dumped_data_loop-ParsedValues (suc fuel) calls over rp1 vs (omega arith) refl idle (fit.1)
        (accepts.1) (record { valid = built.holds.valid; left = built.holds.left }) in
    let run =
      loop_goes (suc fuel) calls rc (fresh rp) over built.rp' going idle built.result
      ∙ ap (dumped_data_loop (suc fuel) calls over) built.kept in
    record {
      code = ap (λ (out : Code × RdbParser). out.0) run ∙ next.code;
      walked =
          ap (λ (out : Code × RdbParser). out.1.walked) run
          ∙ next.walked
          ∙ append_assoc rp.walked (dumped_object calls v ∷ []) (dumped_objects calls vs);
      version_kept = ap (λ (out : Code × RdbParser). out.1.version) run ∙ next.version_kept;
      waits = ap (λ (out : Code × RdbParser). out.1.stack_ob) run ∙ next.waits;
      left = subst (λ (out : Code × RdbParser). Holds out.1 []) (sym run) next.left;
    }

-- Values that fit and fill a valid input, each behind its type, with a parser that is idle, has no builder
-- and an empty object, and a callback that goes on: with fuel for two rounds more than there are values,
-- rdb_parse_dumped_data_once calls the callback with the objects of the values in order, takes the whole
-- input, keeps the version, and returns OB_ERROR_PREMATURE, since it waits for another type.
pub parse_dumped_data_once-ParsedValues :
    (fuel : ℕ) (calls : Calls) (rp : RdbParser) (vs : List Value)
    → length vs + 2 ≤ fuel
    → rp.state ≡ 0
    → rp.stack_ob ≡ []
    → rp.o ≡ empty_object
    → FitValues calls vs
    → AcceptsValues calls rp.walked vs
    → Holds rp (dumped_bytes vs)
    → ParsedValues calls rp vs (parse_dumped_data_once fuel calls rp)
unfolding parse_dumped_data_once
parse_dumped_data_once-ParsedValues fuel calls rp vs enough idle none_yet empty fit accepts holds =
    subst (λ (p : RdbParser). ParsedValues calls rp vs (dumped_data_loop fuel calls again p))
      (sym (
        ap (λ (st : List ObjectBuilder). record rp { stack_ob = st }) none_yet
        ∙ ap (λ (x : RdbObject). record rp { stack_ob = []; o = x }) empty))
      (dumped_data_loop-ParsedValues fuel calls again rp vs enough refl idle fit accepts holds)
