-- ===== src/NxBuf/Pool/Fresh.antt =====
-- What the pool hands out is fresh memory.
use kj_cpp_redis.NxBuf.Pool.{Block, block_size, align_ptr, small_in, small_from}
use kj_cpp_redis.Prelude.{
  refl, ℕ, zero, suc, ◌+◌, ◌%◌, ◌^◌, ◌≤◌, ◌<◌, ◌≡◌, ◌⊎◌, inl, inr, Bool, true, false, Option, none,
  some, List, [], ◌∷◌, leb, if◌then◌else◌, sub_size, Bool-cases, arith,
}

-- The bytes that a block has handed out or holds itself, and all its bytes.
abbrev pub UsedIn : Block → ℕ → Type 0
UsedIn b x = (b.start ≤ x) × (x < b.last)

abbrev pub CoveredBy : Block → ℕ → Type 0
CoveredBy b x = (b.start ≤ x) × (x < b.end)

abbrev pub Used : List Block → ℕ → Type 0
Used [] x = ⊥
Used (b ∷ bs) x = UsedIn b x ⊎ Used bs x

abbrev pub Covers : List Block → ℕ → Type 0
Covers [] x = ⊥
Covers (b ∷ bs) x = CoveredBy b x ⊎ Covers bs x

-- Blocks are well formed and do not overlap; their ends are aligned.
abbrev pub Valid : List Block → Type 0
Valid [] = Unit {0}
Valid (b ∷ bs) =
    (b.start ≤ b.last)
    × (b.last ≤ b.end)
    × (b.end < 2 ^ 63)
    × (b.end % 8 ≡ 0)
    × ((x : ℕ) → CoveredBy b x → ¬ Covers bs x)
    × Valid bs

pub Used-Covers : (bs : List Block) → Valid bs → (x : ℕ) → Used bs x → Covers bs x
Used-Covers [] v x u = u
Used-Covers (b ∷ bs) v x (inl u) = inl (omega arith)
Used-Covers (b ∷ bs) v x (inr u) = inr (Used-Covers bs v.5 x u)

-- The bytes from `m` on were free and are now used; all that was used is.
pub record Fresh (bs : List Block) (m size : ℕ) (bs' : List Block) : Type 0 where
  pub valid : Valid bs'
  pub covers : (x : ℕ) → Covers bs' x → Covers bs x
  pub shape : block_size bs' ≡ block_size bs
  pub kept : (x : ℕ) → Used bs x → Used bs' x
  pub taken : (x : ℕ) → m ≤ x → x < m + size → Used bs' x
  pub free : (x : ℕ) → m ≤ x → x < m + size → ¬ Used bs x

module _ (size : ℕ) where
  take_here :
      (b : Block) (bs : List Block) (m : ℕ)
      → Valid (b ∷ bs)
      → b.last ≤ m
      → m + size ≤ b.end
      → Fresh (b ∷ bs) m size (record b { last = m + size } ∷ bs)
  take_here b bs m v h k = record {
    valid = (omega arith, k, v.2, v.3, v.4, v.5);
    covers = λ x c. c;
    shape = refl;
    kept = λ x u. elim u [ inl h' ↦ inl (omega arith) | inr u' ↦ inr u' ];
    taken = λ x p q. inl (omega arith);
    free = λ x p q u. elim u [
      | inl h' ↦ omega arith
      | inr u' ↦ v.4 x (omega arith) (Used-Covers bs v.5 x u')
    ];
  }

  take_later :
      (b : Block) (bs bs' : List Block) (m : ℕ)
      → Valid (b ∷ bs)
      → Fresh bs m size bs'
      → ((x : ℕ) → m ≤ x → x < m + size → Covers bs x)
      → Fresh (b ∷ bs) m size (b ∷ bs')
  take_later b bs bs' m v f inside = record {
    valid = (v.0, v.1, v.2, v.3, λ x c d. v.4 x c (f.covers x d), f.valid);
    covers = λ x c. elim c [ inl h' ↦ inl h' | inr c' ↦ inr (f.covers x c') ];
    shape = refl;
    kept = λ x u. elim u [ inl h' ↦ inl h' | inr u' ↦ inr (f.kept x u') ];
    taken = λ x p q. inr (f.taken x p q);
    free = λ x p q u. elim u [
      | inl h' ↦ v.4 x (omega arith) (inside x p q)
      | inr u' ↦ f.free x p q u'
    ];
  }

  covered :
      (bs bs' : List Block) (m : ℕ)
      → Fresh bs m size bs'
      → (x : ℕ) → m ≤ x
      → x < m + size
      → Covers bs x
  covered bs bs' m f x p q = f.covers x (Used-Covers bs' f.valid x (f.taken x p q))

  -- What a search for free bytes found, if anything.
  abbrev pub Found : List Block → Option (ℕ × List Block) → Type 0
  Found bs none = Unit {0}
  Found bs (some (m, bs')) = Fresh bs m size bs'

  -- The address that the loop tries in a block.
  abbrev tried : Bool → Block → ℕ
  tried aligned b = if aligned then align_ptr b.last else b.last

  tried-fits :
      (aligned : Bool) (b : Block) (bs : List Block)
      → Valid (b ∷ bs)
      → leb size (sub_size b.end (tried aligned b)) ≡ true
      → (b.last ≤ tried aligned b) × (tried aligned b + size ≤ b.end)
  tried-fits true b bs v h = ground arith
  tried-fits false b bs v h = ground arith

  put_later :
      (b : Block) (bs : List Block) (found : Option (ℕ × List Block))
      → Valid (b ∷ bs)
      → Found bs found
      → Found (b ∷ bs) (elim found [ none ↦ none | some (m', next') ↦ some (m', b ∷ next') ])
  put_later b bs none v f = tt
  put_later b bs (some (m, bs')) v f = take_later b bs bs' m v f (covered bs bs' m f)

  -- In valid blocks the loop of `nx_palloc_small` finds fresh bytes, if it finds any.
  small_in-Found :
      (aligned : Bool) (bs : List Block) → Valid bs → Found bs (small_in bs size aligned)
  unfolding small_in
  small_in-Found aligned [] v = tt
  small_in-Found aligned (b ∷ bs) v =
      elim (Bool-cases (leb size (sub_size b.end (tried aligned b)))) [
        | inl fits ↦
            let (h, k) = tried-fits aligned b bs v fits in
            rw fits (take_here b bs (tried aligned b) v h k)
        | inr full ↦
            rw full (put_later b bs (small_in bs size aligned) v (small_in-Found aligned bs v.5))
      ]

  pub small_from-Found :
      (aligned : Bool) (n : ℕ) (bs : List Block)
      → Valid bs
      → Found bs (small_from n bs size aligned)
  unfolding small_from
  small_from-Found aligned zero bs v = small_in-Found aligned bs v
  small_from-Found aligned (suc n) [] v = tt
  small_from-Found aligned (suc n) (b ∷ bs) v =
      put_later b bs (small_from n bs size aligned) v (small_from-Found aligned n bs v.5)
