-- ===== src/Strstr.antt =====
-- src/base/bip_buf.c: `fast_strstr`, the search behind `bip_buf_find_str`.
-- A pointer into the haystack is the list of the bytes from it on; NULL is `none`.
pub mod Crlf
pub mod Prefix
use kj_cpp_redis.Prelude.{
  ℕ, zero, suc, ◌+◌, ◌-◌, ◌^◌, Bool, true, false, ◌&&◌, Option, none, some, List, [], ◌∷◌, ltb,
  ◌==◌, if◌then◌else◌, length, add_u32, sub_u32,
}

-- `memchr`
unfoldable pub memchr : List ℕ → ℕ → Option (List ℕ)
memchr [] c = none
memchr (x ∷ xs) c = if x == c then some (x ∷ xs) else memchr xs c

-- `0 == memcmp(a, b, n)` for blocks of at least `n` bytes
unfoldable pub memcmp_eq : List ℕ → List ℕ → ℕ → Bool
memcmp_eq a b zero = true
memcmp_eq (x ∷ a) (y ∷ b) (suc n) = x == y && memcmp_eq a b n
memcmp_eq _ _ (suc n) = false

-- a `char` (signed) as `unsigned int`
unfoldable pub char_to_uint : ℕ → ℕ
char_to_uint c = if ltb c 128 then c else 2 ^ 32 - 256 + c

-- The variables of the `while` loop when it ends.
pub record Scan : Type 0 where
  pub i_haystack : List ℕ
  pub i_needle : List ℕ
  pub sums_diff : ℕ
  pub identical : Bool

unfoldable pub scan : List ℕ → List ℕ → ℕ → Bool → Scan
scan (h ∷ hs) (n ∷ ns) sums_diff identical =
    scan hs ns (sub_u32 (add_u32 sums_diff (char_to_uint h)) (char_to_uint n)) (identical && h == n)
scan hs ns sums_diff identical = record {
  i_haystack = hs;
  i_needle = ns;
  sums_diff = sums_diff;
  identical = identical;
}

-- `c == *p`, at a pointer to at least one byte
abbrev first_is : List ℕ → ℕ → Bool
first_is [] c = false
first_is (x ∷ xs) c = c == x

-- The `for` loop: `i_haystack` runs `needle_len` bytes ahead of `sub_start`.
unfoldable pub slide : List ℕ → ℕ → List ℕ → List ℕ → ℕ → Option (List ℕ)
slide needle needle_first [] sub_start sums_diff = none
slide needle needle_first (h ∷ hs) [] sums_diff = none
slide needle needle_first (h ∷ hs) (s ∷ sub_start) sums_diff =
    let sums_diff' = add_u32 (sub_u32 sums_diff (char_to_uint s)) (char_to_uint h) in
    let rest = slide needle needle_first hs sub_start sums_diff' in
    if (sums_diff' == 0 && first_is sub_start needle_first)
      && memcmp_eq sub_start needle (length needle - 1)
    then some sub_start
    else rest

-- From the end of the `while` loop on; `f ∷ fs` is `first_match`.
unfoldable pub after_scan : ℕ → List ℕ → ℕ → List ℕ → Scan → Option (List ℕ)
after_scan needle_first ns f fs s = elim s.i_needle [
  | _ ∷ _ ↦ none
  | [] ↦
      if s.identical
      then some (f ∷ fs)
      else slide (needle_first ∷ ns) needle_first s.i_haystack (f ∷ fs) s.sums_diff
]

unfoldable pub fast_strstr : List ℕ → List ℕ → Option (List ℕ)
unfolding memchr memcmp_eq char_to_uint scan slide after_scan
fast_strstr haystack [] = some haystack
fast_strstr haystack (needle_first ∷ ns) = elim (memchr haystack needle_first) [
  | none ↦ none
  | some [] ↦ none
  | some (f ∷ fs) ↦ after_scan needle_first ns f fs (scan fs ns (char_to_uint f) true)
]
