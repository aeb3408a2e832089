-- ===== src/Strstr/Crlf.antt =====
-- The search for "\r\n", the one search that the reply parser makes.
use kj_cpp_redis.Prelude.{
  ℕ, ◌+◌, ◌-◌, ◌%◌, ◌^◌, ◌<◌, ◌≡◌, ◌≢◌, ◌∙◌, ◌++◌, inl, inr, refl, Bool-cases, ==_iff, false, ◌&&◌,
  Option, none, some, List, [], ◌∷◌, arith, ◌==◌, if◌then◌else◌, add_u32, sub_u32, IsByte,
}
use kj_cpp_redis.Strstr.Prefix.{Lacks}
use kj_cpp_redis.Strstr.{memcmp_eq, char_to_uint, slide, fast_strstr}

abbrev pub crlf : List ℕ
crlf = 13 ∷ 10 ∷ []

abbrev pub AllBytes : List ℕ → Type 0
AllBytes [] = Unit {0}
AllBytes (x ∷ xs) = IsByte x × AllBytes xs

-- The first "\r\xfd", from the second byte pair on.
abbrev pub cr_fd : List ℕ → Option (List ℕ)
cr_fd [] = none
cr_fd (a ∷ []) = none
cr_fd (a ∷ b ∷ rest) =
    let later = cr_fd (b ∷ rest) in if a == 13 && b == 0xfd then some (a ∷ b ∷ rest) else later

-- What the search for "\r\n" finds: the first '\r' if '\n' follows it, else the first "\r\xfd" behind.
abbrev pub crlf_found : List ℕ → Option (List ℕ)
crlf_found [] = none
crlf_found (x ∷ []) = none
crlf_found (x ∷ y ∷ rest) =
    let later = crlf_found (y ∷ rest) in
    if x == 13 then (if y == 10 then some (x ∷ y ∷ rest) else cr_fd (y ∷ rest)) else later

abbrev pair_sum : ℕ → ℕ → ℕ
pair_sum a b = (char_to_uint a + char_to_uint b + 2 ^ 32 - 10) % 2 ^ 32

char_to_uint-lt : (a : ℕ) → IsByte a → char_to_uint a < 2 ^ 32
unfolding char_to_uint
char_to_uint-lt a h = ground arith

pair_sum_step :
    (a b x : ℕ)
    → IsByte a
    → IsByte b
    → IsByte x
    → add_u32 (sub_u32 (pair_sum a b) (char_to_uint a)) (char_to_uint x) ≡ pair_sum b x
pair_sum_step a b x ha hb hx =
    omega (arith, char_to_uint-lt a ha, char_to_uint-lt b hb, char_to_uint-lt x hx)

pair_sum_cr : (x : ℕ) → IsByte x → (pair_sum 13 x == 0) ≡ (x == 0xfd)
unfolding char_to_uint
pair_sum_cr x hx = ground arith

slide-cr_fd :
    (hs : List ℕ) (a b : ℕ)
    → IsByte a
    → IsByte b
    → AllBytes hs
    → slide crlf 13 hs (a ∷ b ∷ hs) (pair_sum a b) ≡ cr_fd (b ∷ hs)
unfolding slide memcmp_eq
slide-cr_fd [] a b ha hb h = refl
slide-cr_fd (x ∷ hs) a b ha hb h =
    rw (pair_sum_step a b x ha hb h.0, slide-cr_fd hs b x hb h.0 h.1)
      (ground (arith, pair_sum_cr x h.0))

search-cr :
    (y : ℕ) (rest : List ℕ)
    → IsByte y
    → AllBytes rest
    → fast_strstr (13 ∷ y ∷ rest) crlf ≡ crlf_found (13 ∷ y ∷ rest)
unfolding fast_strstr
search-cr y rest hy h = ground (arith, slide-cr_fd rest 13 y (omega arith) hy h)

search_skips :
    (x : ℕ) (xs : List ℕ) → (x == 13) ≡ false → fast_strstr (x ∷ xs) crlf ≡ fast_strstr xs crlf
unfolding fast_strstr
search_skips x xs h = ground arith

cr_fd-none : (xs : List ℕ) → Lacks 0xfd xs → cr_fd xs ≡ none
cr_fd-none [] h = refl
cr_fd-none (a ∷ []) h = refl
cr_fd-none (a ∷ b ∷ rest) h = ground (arith, cr_fd-none (b ∷ rest) h.1)

crlf_found_missed :
    (pre rest : List ℕ) (c : ℕ)
    → Lacks 13 pre
    → c ≢ 10
    → Lacks 0xfd (c ∷ rest)
    → crlf_found (pre ++ (13 ∷ c ∷ rest)) ≡ none
crlf_found_missed [] rest c h hc hf = ground (arith, cr_fd-none (c ∷ rest) hf)
crlf_found_missed (x ∷ []) rest c h hc hf = ground (arith, cr_fd-none (c ∷ rest) hf)
crlf_found_missed (x ∷ y ∷ pre) rest c h hc hf =
    ground (arith, crlf_found_missed (y ∷ pre) rest c h.1 hc hf)

-- On any bytes the search for CR LF returns the first CR if LF follows it, and otherwise the first
-- CR 0xfd behind it.
pub fast_strstr-crlf : (hay : List ℕ) → AllBytes hay → fast_strstr hay crlf ≡ crlf_found hay
fast_strstr-crlf [] h = unfold fast_strstr in refl
fast_strstr-crlf (x ∷ []) h = unfold fast_strstr in ground arith
fast_strstr-crlf (x ∷ y ∷ rest) h = elim (Bool-cases (x == 13)) [
  | inl cr ↦ rw ((==_iff x 13).0 cr) (search-cr y rest h.1.0 h.1.1)
  | inr other ↦ search_skips x (y ∷ rest) other ∙ fast_strstr-crlf (y ∷ rest) h.1 ∙ rw other
]

-- On bytes whose first CR is followed by a byte other than LF, with no byte 0xfd behind that CR, the
-- search for CR LF returns NULL whatever comes later.
pub fast_strstr-crlf_missed :
    (pre rest : List ℕ) (c : ℕ)
    → AllBytes (pre ++ (13 ∷ c ∷ rest))
    → Lacks 13 pre
    → c ≢ 10
    → Lacks 0xfd (c ∷ rest)
    → fast_strstr (pre ++ (13 ∷ c ∷ rest)) crlf ≡ none
fast_strstr-crlf_missed pre rest c bytes h hc hf =
    fast_strstr-crlf _ bytes ∙ crlf_found_missed pre rest c h hc hf
