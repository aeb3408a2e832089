-- ===== src/Rdb/Object/Aux.antt =====
-- src/base/rdb_parser/build_opcode_aux.c: what the builder of an auxiliary field makes of one.
use kj_cpp_redis.Rdb.Builder.{set_state, pop_object_builder}
use kj_cpp_redis.Rdb.Chain.{Outcome}
use kj_cpp_redis.Rdb.Object.{build_string_of_o}
use kj_cpp_redis.Rdb.Text.Spec.{Text}
use kj_cpp_redis.Rdb.Types.{Code, over, again, invalid_nb_state, RdbParser, Calls}
use kj_cpp_redis.Prelude.{ℕ, leb, ◌==◌, if◌then◌else◌}

-- What is done when the string is over, by the state of the sub-builder.
abbrev aux_outcome : Calls → RdbParser → RdbParser → ℕ → ℕ → ℕ → Outcome
aux_outcome calls rp rp0 i depth state =
    if leb state 1
    then (let (rc, rp1) =
          build_string_of_o calls rp0 depth rp.o.aux_key (λ o v. record o { aux_key = v }) in
        elim rc [ over ↦ (again, set_state rp1 i 2, tt) | other ↦ (other, rp1, tt) ])
    else if state == 2
    then (let (rc, rp1) =
          build_string_of_o calls rp0 depth rp.o.aux_val (λ o v. record o { aux_val = v }) in
        elim rc [ over ↦ (over, pop_object_builder rp1, tt) | other ↦ (other, rp1, tt) ])
    else (invalid_nb_state, rp0, tt)

abbrev aux_key_outcome : ℕ → Code × RdbParser → Outcome
aux_key_outcome i (rc, rp1) = elim rc [
  | over ↦ (again, set_state rp1 i 2, tt)
  | other ↦ (other, rp1, tt)
]
