-- ===== src/Strstr/Prefix.antt =====
-- A needle that stands where its first byte first occurs.
use kj_cpp_redis.Prelude.{
  ℕ, ◌≡◌, ◌≢◌, refl, Bool, true, ◌&&◌, some, List, [], ◌∷◌, ◌++◌, arith, ◌==◌, add_u32, sub_u32,
}
use kj_cpp_redis.Strstr.{memchr, char_to_uint, scan, after_scan, fast_strstr}

-- No byte of the list is `c`.
abbrev pub Lacks : ℕ → List ℕ → Type 0
Lacks c [] = Unit {0}
Lacks c (x ∷ xs) = (x ≢ c) × Lacks c xs

pub memchr-append :
    (c : ℕ) (pre rest : List ℕ) → Lacks c pre → memchr (pre ++ (c ∷ rest)) c ≡ some (c ∷ rest)
unfolding memchr
memchr-append c [] rest h = ground arith
memchr-append c (x ∷ pre) rest h = ground (arith, memchr-append c pre rest h.1)

scan-identical :
    (ns rest : List ℕ) (sums : ℕ) (b : Bool)
    → ((scan (ns ++ rest) ns sums b).i_needle ≡ []) × ((scan (ns ++ rest) ns sums b).identical ≡ b)
unfolding scan
scan-identical [] [] sums b = (refl, refl)
scan-identical [] (r ∷ rest) sums b = (refl, refl)
scan-identical (n ∷ ns) rest sums b = ground (
  arith,
  scan-identical ns rest (sub_u32 (add_u32 sums (char_to_uint n)) (char_to_uint n)) (b && n == n),
)

-- The search finds a needle that stands at the first occurrence of its first byte.
pub fast_strstr_at_first :
    (n : ℕ) (ns pre rest : List ℕ)
    → Lacks n pre
    → fast_strstr (pre ++ (n ∷ (ns ++ rest))) (n ∷ ns) ≡ some (n ∷ (ns ++ rest))
unfolding fast_strstr after_scan
fast_strstr_at_first n ns pre rest h =
    ground (arith, memchr-append n pre (ns ++ rest) h, scan-identical ns rest (char_to_uint n) true)
