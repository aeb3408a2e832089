-- ===== src/Prelude/Windows.antt =====
-- What reads of a block see after a `memcpy` into it.
use Prim.Native.Nat.{ℕ, zero, suc, ◌+◌, ◌-◌, ◌≤◌}
use mathlib.Core.Path.{◌≡◌, refl, sym, ap, ◌∙◌}
use mathlib.Core.List.{List, [], ◌∷◌, ◌++◌}
use native.Mathlib.Omega.{arith}
use kj_cpp_redis.Prelude.Lists.{
  length, take, drop, window, overwrite, count_eq, length-append, length-take, length-drop,
  drop-drop, drop-take, take-nil,
}

module _ {ℓ} {A : Type ℓ} where
  pub length-overwrite :
      (m : List A) (i : ℕ) (bs : List A)
      → i + length bs ≤ length m
      → length (overwrite m i bs) ≡ length m
  length-overwrite m i bs h = omega (
    arith,
    length-append (take i m) (bs ++ drop (i + length bs) m),
    length-append bs (drop (i + length bs) m),
    length-take i m,
    length-drop (i + length bs) m,
  )

  pub length-window : (m : List A) (i n : ℕ) → i + n ≤ length m → length (window m i n) ≡ n
  length-window m i n h = omega (arith, length-take n (drop i m), length-drop i m)

  take_front : (n : ℕ) (bs rest : List A) → length bs ≡ n → take n (bs ++ rest) ≡ bs
  take_front zero [] rest h = refl
  take_front (suc n) [] rest h = absurd (omega arith)
  take_front zero (b ∷ bs) rest h = absurd (omega arith)
  take_front (suc n) (b ∷ bs) rest h = ap (◌∷◌ b) (take_front n bs rest (omega arith))

  drop_front : (i : ℕ) (m rest : List A) → i ≤ length m → drop i (take i m ++ rest) ≡ rest
  drop_front zero m rest h = refl
  drop_front (suc i) [] rest h = absurd (omega arith)
  drop_front (suc i) (x ∷ m) rest h = drop_front i m rest (omega arith)

  -- What was written is read back.
  pub window-overwrite :
      (m : List A) (i : ℕ) (bs : List A)
      → i ≤ length m
      → window (overwrite m i bs) i (length bs) ≡ bs
  window-overwrite m i bs h =
      ap (take (length bs)) (drop_front i m (bs ++ drop (i + length bs) m) h)
      ∙ take_front (length bs) bs (drop (i + length bs) m) refl

  take_kept :
      (n i : ℕ) (m rest : List A) → n ≤ i → i ≤ length m → take n (take i m ++ rest) ≡ take n m
  take_kept zero i m rest h k = refl
  take_kept (suc n) zero m rest h k = absurd (omega arith)
  take_kept (suc n) (suc i) [] rest h k = absurd (omega arith)
  take_kept (suc n) (suc i) (x ∷ m) rest h k =
      ap (◌∷◌ x) (take_kept n i m rest (omega arith) (omega arith))

  window_kept :
      (a n i : ℕ) (m rest : List A)
      → a + n ≤ i
      → i ≤ length m
      → window (take i m ++ rest) a n ≡ window m a n
  window_kept zero n i m rest h k = take_kept n i m rest (omega arith) k
  window_kept (suc a) n zero m rest h k = absurd (omega arith)
  window_kept (suc a) n (suc i) [] rest h k = absurd (omega arith)
  window_kept (suc a) n (suc i) (x ∷ m) rest h k =
      window_kept a n i m rest (omega arith) (omega arith)

  -- What lies before the written bytes is unchanged.
  pub window-overwrite_before :
      (m : List A) (a n i : ℕ) (bs : List A)
      → a + n ≤ i
      → i ≤ length m
      → window (overwrite m i bs) a n ≡ window m a n
  window-overwrite_before m a n i bs h k = window_kept a n i m (bs ++ drop (i + length bs) m) h k

  take-add : (n k : ℕ) (xs : List A) → take (n + k) xs ≡ take n xs ++ take k (drop n xs)
  take-add zero k xs = count_eq (λ j. take j xs) (0 + k) k (omega arith)
  take-add (suc n) k [] = take-nil (suc n + k) ∙ sym (take-nil k)
  take-add (suc n) k (x ∷ xs) =
      count_eq (λ j. take j (x ∷ xs)) (suc n + k) (suc (n + k)) (omega arith)
      ∙ ap (◌∷◌ x) (take-add n k xs)

  -- A window falls into two.
  pub window-add :
      (m : List A) (a n k : ℕ) → window m a (n + k) ≡ window m a n ++ window m (a + n) k
  window-add m a n k =
      take-add n k (drop a m) ∙ ap (λ t. window m a n ++ take k t) (drop-drop n a m)

  -- Dropping the first bytes of a window.
  pub drop-window : (m : List A) (a n k : ℕ) → drop k (window m a n) ≡ window m (a + k) (n - k)
  drop-window m a n k = drop-take k n (drop a m) ∙ ap (take (n - k)) (drop-drop k a m)

  -- Windows at numbers that arithmetic identifies.
  pub window_eq : (m : List A) (a b n k : ℕ) → a ≡ b → n ≡ k → window m a n ≡ window m b k
  window_eq m a b n k p q = ap (λ i. window m i n) p ∙ ap (window m b) q
