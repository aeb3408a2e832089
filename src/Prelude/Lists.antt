-- ===== src/Prelude/Lists.antt =====
-- Memory blocks and byte strings as lists, indexed by native numbers. A read past the end gives the
-- default, and a write past the end changes nothing.
use Prim.Native.Nat.{ℕ, zero, suc, ◌+◌, ◌-◌, ◌≤◌, ◌<◌, min}
use mathlib.Core.Path.{◌≡◌, refl, sym, ap, ◌∙◌}
use mathlib.Core.List.{List, [], ◌∷◌, ◌++◌}
use mathlib.Core.Option.{Option, none, some}
use native.Mathlib.Omega.{arith}

-- To count on under a function of a number that only arithmetic identifies.
pub count_eq {κ} : {B : Type κ} (f : ℕ → B) (i j : ℕ) → i ≡ j → f i ≡ f j
count_eq f i j e = ap f e

module _ {ℓ} {A : Type ℓ} where
  abbrev pub length : List A → ℕ
  length [] = 0
  length (x ∷ xs) = suc (length xs)

  abbrev pub get_elem? : List A → ℕ → Option A
  get_elem? [] i = none
  get_elem? (x ∷ xs) zero = some x
  get_elem? (x ∷ xs) (suc i) = get_elem? xs i

  abbrev pub get_or : List A → ℕ → A → A
  get_or [] i d = d
  get_or (x ∷ xs) zero d = x
  get_or (x ∷ xs) (suc i) d = get_or xs i d

  abbrev pub set : List A → ℕ → A → List A
  set [] i v = []
  set (x ∷ xs) zero v = v ∷ xs
  set (x ∷ xs) (suc i) v = x ∷ set xs i v

  abbrev pub take : ℕ → List A → List A
  take zero xs = []
  take (suc n) [] = []
  take (suc n) (x ∷ xs) = x ∷ take n xs

  abbrev pub drop : ℕ → List A → List A
  drop zero xs = xs
  drop (suc n) [] = []
  drop (suc n) (x ∷ xs) = drop n xs

  -- The bytes that `memcpy(dst, src, n)` reads: `n` of them from offset `i`.
  abbrev pub window : List A → ℕ → ℕ → List A
  window m i n = take n (drop i m)

  -- The block after `memcpy` has written `bs` at offset `i`.
  abbrev pub overwrite : List A → ℕ → List A → List A
  overwrite m i bs = take i m ++ (bs ++ drop (i + length bs) m)

  pub length-append : (xs ys : List A) → length (xs ++ ys) ≡ length xs + length ys
  length-append [] ys = omega arith
  length-append (x ∷ xs) ys = omega (arith, length-append xs ys)

  pub length-take : (n : ℕ) (xs : List A) → length (take n xs) ≡ min n (length xs)
  length-take zero xs = omega arith
  length-take (suc n) [] = omega arith
  length-take (suc n) (x ∷ xs) = omega (arith, length-take n xs)

  pub length-drop : (n : ℕ) (xs : List A) → length (drop n xs) ≡ length xs - n
  length-drop zero xs = omega arith
  length-drop (suc n) [] = omega arith
  length-drop (suc n) (x ∷ xs) = omega (arith, length-drop n xs)

  pub take-all : (n : ℕ) (xs : List A) → length xs ≤ n → take n xs ≡ xs
  take-all zero [] h = refl
  take-all (suc n) [] h = refl
  take-all zero (x ∷ xs) h = absurd (omega arith)
  take-all (suc n) (x ∷ xs) h = ap (◌∷◌ x) (take-all n xs (omega arith))

  pub drop-all : (n : ℕ) (xs : List A) → length xs ≤ n → drop n xs ≡ []
  drop-all zero [] h = refl
  drop-all (suc n) [] h = refl
  drop-all zero (x ∷ xs) h = absurd (omega arith)
  drop-all (suc n) (x ∷ xs) h = drop-all n xs (omega arith)

  pub take-drop : (n : ℕ) (xs : List A) → take n xs ++ drop n xs ≡ xs
  take-drop zero xs = refl
  take-drop (suc n) [] = refl
  take-drop (suc n) (x ∷ xs) = ap (◌∷◌ x) (take-drop n xs)

  pub take-append :
      (n : ℕ) (xs ys : List A) → take n (xs ++ ys) ≡ take n xs ++ take (n - length xs) ys
  take-append zero [] ys = refl
  take-append (suc n) [] ys = count_eq (λ k. take k ys) (suc n) (suc n - 0) (omega arith)
  take-append zero (x ∷ xs) ys = count_eq (λ k. take k ys) 0 (0 - length (x ∷ xs)) (omega arith)
  take-append (suc n) (x ∷ xs) ys =
      ap (◌∷◌ x) (take-append n xs ys)
      ∙ count_eq (λ k. x ∷ (take n xs ++ take k ys)) (n - length xs) (suc n - length (x ∷ xs))
          (omega arith)

  pub drop-append :
      (n : ℕ) (xs ys : List A) → drop n (xs ++ ys) ≡ drop n xs ++ drop (n - length xs) ys
  drop-append zero [] ys = refl
  drop-append (suc n) [] ys = count_eq (λ k. drop k ys) (suc n) (suc n - 0) (omega arith)
  drop-append zero (x ∷ xs) ys =
      count_eq (λ k. x ∷ (xs ++ drop k ys)) 0 (0 - length (x ∷ xs)) (omega arith)
  drop-append (suc n) (x ∷ xs) ys =
      drop-append n xs ys
      ∙ count_eq (λ k. drop n xs ++ drop k ys) (n - length xs) (suc n - length (x ∷ xs))
          (omega arith)

  pub take-nil : (n : ℕ) → take n [] ≡ []
  take-nil zero = refl
  take-nil (suc n) = refl

  pub drop-nil : (n : ℕ) → drop n [] ≡ []
  drop-nil zero = refl
  drop-nil (suc n) = refl

  pub drop-drop : (n k : ℕ) (xs : List A) → drop n (drop k xs) ≡ drop (k + n) xs
  drop-drop n zero xs = count_eq (λ j. drop j xs) n (0 + n) (omega arith)
  drop-drop n (suc k) [] = drop-nil n ∙ sym (drop-nil (suc k + n))
  drop-drop n (suc k) (x ∷ xs) =
      drop-drop n k xs ∙ count_eq (λ j. drop j (x ∷ xs)) (suc (k + n)) (suc k + n) (omega arith)

  pub take-take : (n k : ℕ) (xs : List A) → take n (take k xs) ≡ take (min n k) xs
  take-take zero k xs = count_eq (λ j. take j xs) 0 (min 0 k) (omega arith)
  take-take (suc n) zero xs = count_eq (λ j. take j xs) 0 (min (suc n) 0) (omega arith)
  take-take (suc n) (suc k) [] = sym (take-nil (min (suc n) (suc k)))
  take-take (suc n) (suc k) (x ∷ xs) =
      ap (◌∷◌ x) (take-take n k xs)
      ∙ count_eq (λ j. take j (x ∷ xs)) (suc (min n k)) (min (suc n) (suc k)) (omega arith)

  -- Dropping part of a window leaves the rest of it.
  pub drop-take : (n k : ℕ) (xs : List A) → drop n (take k xs) ≡ take (k - n) (drop n xs)
  drop-take zero k xs = count_eq (λ j. take j xs) k (k - 0) (omega arith)
  drop-take (suc n) zero xs = count_eq (λ j. take j (drop (suc n) xs)) 0 (0 - suc n) (omega arith)
  drop-take (suc n) (suc k) [] = sym (take-nil (suc k - suc n))
  drop-take (suc n) (suc k) (x ∷ xs) =
      drop-take n k xs ∙ count_eq (λ j. take j (drop n xs)) (k - n) (suc k - suc n) (omega arith)

  -- Counts beyond the end of a list.
  pub drop-min : (n : ℕ) (xs : List A) → drop (min n (length xs)) xs ≡ drop n xs
  drop-min zero xs = count_eq (λ j. drop j xs) (min 0 (length xs)) 0 (omega arith)
  drop-min (suc n) [] = count_eq (λ j. drop j []) (min (suc n) 0) 0 (omega arith)
  drop-min (suc n) (x ∷ xs) =
      count_eq (λ j. drop j (x ∷ xs)) (min (suc n) (length (x ∷ xs))) (suc (min n (length xs)))
        (omega arith)
      ∙ drop-min n xs

  pub take-min : (n : ℕ) (xs : List A) → take (min n (length xs)) xs ≡ take n xs
  take-min zero xs = count_eq (λ j. take j xs) (min 0 (length xs)) 0 (omega arith)
  take-min (suc n) [] = count_eq (λ j. take j []) (min (suc n) 0) 0 (omega arith)
  take-min (suc n) (x ∷ xs) =
      count_eq (λ j. take j (x ∷ xs)) (min (suc n) (length (x ∷ xs))) (suc (min n (length xs)))
        (omega arith)
      ∙ ap (◌∷◌ x) (take-min n xs)

  pub take-prefix : (xs ys : List A) → take (length xs) (xs ++ ys) ≡ xs
  take-prefix [] ys = refl
  take-prefix (x ∷ xs) ys = ap (◌∷◌ x) (take-prefix xs ys)

  pub drop-prefix : (xs ys : List A) → drop (length xs) (xs ++ ys) ≡ ys
  drop-prefix [] ys = refl
  drop-prefix (x ∷ xs) ys = drop-prefix xs ys

  pub get_or-take : (n i : ℕ) (xs : List A) (d : A) → i < n → get_or (take n xs) i d ≡ get_or xs i d
  get_or-take zero i xs d h = absurd (omega arith)
  get_or-take (suc n) i [] d h = refl
  get_or-take (suc n) zero (x ∷ xs) d h = refl
  get_or-take (suc n) (suc i) (x ∷ xs) d h = get_or-take n i xs d (omega arith)

  pub get_or-suffix :
      (xs ys : List A) (i : ℕ) (d : A) → get_or (xs ++ ys) (length xs + i) d ≡ get_or ys i d
  get_or-suffix [] ys i d = count_eq (λ k. get_or ys k d) (0 + i) i (omega arith)
  get_or-suffix (x ∷ xs) ys i d =
      count_eq (λ k. get_or (x ∷ (xs ++ ys)) k d) (suc (length xs) + i) (suc (length xs + i))
        (omega arith)
      ∙ get_or-suffix xs ys i d

-- Lists with one element at the end.
module _ {ℓ} {A : Type ℓ} where
  pub get_elem?_end : (xs : List A) → get_elem? xs (length xs) ≡ none
  get_elem?_end [] = refl
  get_elem?_end (x ∷ xs) = get_elem?_end xs

  pub get_elem?_last : (xs : List A) (x : A) → get_elem? (xs ++ (x ∷ [])) (length xs) ≡ some x
  get_elem?_last [] x = refl
  get_elem?_last (y ∷ xs) x = get_elem?_last xs x

  pub get_or_end : (xs : List A) (x d : A) → get_or (xs ++ (x ∷ [])) (length xs) d ≡ x
  get_or_end [] x d = refl
  get_or_end (y ∷ xs) x d = get_or_end xs x d

  pub set_end : (xs : List A) (x v : A) → set (xs ++ (x ∷ [])) (length xs) v ≡ xs ++ (v ∷ [])
  set_end [] x v = refl
  set_end (y ∷ xs) x v = ap (◌∷◌ y) (set_end xs x v)
