-- ===== src/Rdb/Builder/After.antt =====
-- What consuming leaves of the parser.
use kj_cpp_redis.Rdb.Builder.Loop.{Holds, consume-Holds}
use kj_cpp_redis.Rdb.Builder.{consume}
use kj_cpp_redis.Rdb.Helper.{calc_crc}
use kj_cpp_redis.Rdb.Types.{RdbParser}
use kj_cpp_redis.Prelude.{ℕ, ◌≡◌, ◌∙◌, ap, refl, List, ◌++◌, length}

-- What is built leaves `rest` in the input, and the parser otherwise as it was.
pub record After (rp : RdbParser) (rest : List ℕ) (rp' : RdbParser) : Type 0 where
  pub holds : Holds rp' rest
  pub kept : rp' ≡ record rp { bb = rp'.bb; parsed = rp'.parsed }

pub consume-After :
    (rp : RdbParser) (front rest : List ℕ)
    → Holds rp (front ++ rest)
    → After rp rest (consume rp (length front))
unfolding consume calc_crc
consume-After rp front rest h = record { holds = consume-Holds rp front rest h; kept = refl }

pub After-trans :
    {rp1 rp2 rp3 : RdbParser} {rest1 rest2 : List ℕ}
    → After rp1 rest1 rp2
    → After rp2 rest2 rp3
    → After rp1 rest2 rp3
After-trans {rp1} {rp2} {rp3} a b = record {
  holds = b.holds;
  kept = b.kept ∙ ap (λ (p : RdbParser). record p { bb = rp3.bb; parsed = rp3.parsed }) a.kept;
}
