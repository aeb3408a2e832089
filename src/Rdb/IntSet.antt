-- ===== src/Rdb/IntSet.antt =====
-- src/base/rdb_parser/intset.c: sets of integers of one width. `contents` is memory.
use native.Mathlib.Nat.{mul-suc}
use kj_cpp_redis.Prelude.Int.{ℤ, to_signed}
use kj_cpp_redis.Rdb.Endian.{le_word, le_bytes, length-le_bytes, le_word-le_bytes}
use kj_cpp_redis.Prelude.{
  ℕ, zero, suc, ◌+◌, ◌*◌, ◌^◌, ◌<◌, ◌≤◌, ◌≡◌, ◌⊎◌, ◌∙◌, ap, refl, sym, Option, none, some, List, [],
  ◌∷◌, ◌++◌, leb, ◌==◌, if◌then◌else◌, take, drop, window, length, take-prefix, drop-prefix,
  drop-drop, window_eq, count_eq, arith,
}

-- `intset_t`
pub record IntSet : Type 0 where
  pub encoding : ℕ
  pub length : ℕ
  pub contents : List ℕ

-- The `memcpy` of an element of `w` bytes, and its value.
abbrev pub element : ℕ → List ℕ → ℕ → ℤ
element w contents pos = to_signed (8 * w) (le_word (window contents (w * pos) w))

-- `intset_get`; `none` is a return of 0.
unfoldable pub intset_get : IntSet → ℕ → Option ℤ
intset_get is pos =
    if leb is.length pos
    then none
    else if is.encoding == 8
    then some (element 8 is.contents pos)
    else if is.encoding == 4
    then some (element 4 is.contents pos)
    else some (element 2 is.contents pos)

-- The memory of words of `w` bytes.
abbrev pub words_bytes : ℕ → List ℕ → List ℕ
words_bytes w [] = []
words_bytes w (n ∷ ns) = le_bytes w n ++ words_bytes w ns

abbrev pub Fit : ℕ → List ℕ → Type 0
Fit w [] = Unit {0}
Fit w (n ∷ ns) = (n < 256 ^ w) × Fit w ns

abbrev pub signed_at : ℕ → List ℕ → ℕ → Option ℤ
signed_at w [] pos = none
signed_at w (n ∷ ns) zero = some (to_signed (8 * w) n)
signed_at w (n ∷ ns) (suc pos) = signed_at w ns pos

window_words :
    (w : ℕ) (ns : List ℕ) (pos : ℕ)
    → Fit w ns
    → pos < length ns
    → signed_at w ns pos ≡ some (element w (words_bytes w ns) pos)
window_words w [] pos h lt = absurd (omega arith)
window_words w (n ∷ ns) zero h lt =
    ap (λ k. some (to_signed (8 * w) k))
      (sym (le_word-le_bytes w n h.0)
        ∙ ap le_word (sym (take-prefix (le_bytes w n) rest) ∙ sym first))
  where
    rest : List ℕ
    rest = words_bytes w ns

    first :
        window (le_bytes w n ++ rest) (w * 0) w
        ≡ take (length (le_bytes w n)) (le_bytes w n ++ rest)
    first =
        window_eq (le_bytes w n ++ rest) (w * 0) 0 w (length (le_bytes w n)) (omega arith)
          (sym (length-le_bytes w n))
window_words w (n ∷ ns) (suc pos) h lt =
    window_words w ns pos h.1 (omega arith)
    ∙ ap (λ t. some (to_signed (8 * w) (le_word (take w t))))
        (ap (drop (w * pos)) (sym (drop-prefix (le_bytes w n) rest))
          ∙ drop-drop (w * pos) (length (le_bytes w n)) (le_bytes w n ++ rest)
          ∙ count_eq (λ k. drop k (le_bytes w n ++ rest)) (length (le_bytes w n) + w * pos)
              (w * suc pos) (omega (arith, length-le_bytes w n, mul-suc w pos)))
  where
    rest : List ℕ
    rest = words_bytes w ns

signed_at_end : (w : ℕ) (ns : List ℕ) (pos : ℕ) → length ns ≤ pos → signed_at w ns pos ≡ none
signed_at_end w [] pos h = refl
signed_at_end w (n ∷ ns) zero h = absurd (omega arith)
signed_at_end w (n ∷ ns) (suc pos) h = signed_at_end w ns pos (omega arith)

-- In a set of words of 2, 4 or 8 bytes intset_get returns the word at the index with its sign, and 0
-- behind the last.
pub intset_get_lem :
    (w : ℕ) (ns : List ℕ) (pos : ℕ)
    → (w ≡ 2) ⊎ (w ≡ 4) ⊎ (w ≡ 8)
    → Fit w ns
    → intset_get (record { encoding = w; length = length ns; contents = words_bytes w ns }) pos
      ≡ signed_at w ns pos
unfolding intset_get
intset_get_lem w ns pos widths h = ground (arith, window_words w ns pos h, signed_at_end w ns pos)
