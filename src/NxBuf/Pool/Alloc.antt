-- ===== src/NxBuf/Pool/Alloc.antt =====
-- `nx_palloc_small` on a pool, with a new block when no other has room.
use kj_cpp_redis.NxBuf.Pool.Fresh.{
  UsedIn, CoveredBy, Used, Covers, Valid, Used-Covers, Found, small_from-Found,
}
use kj_cpp_redis.NxBuf.Pool.{
  Block, Pool, sizeof_pool, small_from, link_block, block_size, new_block, palloc_block,
  palloc_small,
}
use kj_cpp_redis.Prelude.{
  refl, ℕ, ◌+◌, ◌%◌, ◌^◌, ◌≤◌, ◌<◌, ◌≡◌, ◌⊎◌, inl, inr, Bool, Option, none, some, List, [], ◌∷◌,
  arith,
}

module _ (new : Block) where
  -- Linking a new block covers its bytes besides those of the pool.
  link-Covers :
      (bs : List Block) (i current : ℕ) (x : ℕ)
      → Covers (link_block i current bs new).1 x
      → CoveredBy new x ⊎ Covers bs x
  unfolding link_block
  link-Covers [] i current x (inl c) = inl c
  link-Covers (b ∷ []) i current x (inl c) = inr (inl c)
  link-Covers (b ∷ []) i current x (inr (inl c)) = inl c
  link-Covers [] i current x (inr c) = elim c [ ]
  link-Covers (b ∷ []) i current x (inr (inr c)) = elim c [ ]
  link-Covers (b ∷ b' ∷ bs) i current x (inl c) = inr (inl c)
  link-Covers (b ∷ b' ∷ bs) i current x (inr c) = elim (link-Covers (b' ∷ bs) (i + 1) _ x c) [
    | inl n ↦ inl n
    | inr o ↦ inr (inr o)
  ]

  link-kept :
      (bs : List Block) (i current : ℕ) (x : ℕ) → Used bs x → Used (link_block i current bs new).1 x
  unfolding link_block
  link-kept [] i current x u = elim u [ ]
  link-kept (b ∷ []) i current x (inl u) = inl u
  link-kept (b ∷ []) i current x (inr u) = elim u [ ]
  link-kept (b ∷ b' ∷ bs) i current x (inl u) = inl u
  link-kept (b ∷ b' ∷ bs) i current x (inr u) = inr (link-kept (b' ∷ bs) (i + 1) _ x u)

  link-taken :
      (bs : List Block) (i current : ℕ) (x : ℕ)
      → UsedIn new x
      → Used (link_block i current bs new).1 x
  unfolding link_block
  link-taken [] i current x u = inl u
  link-taken (b ∷ []) i current x u = inr (inl u)
  link-taken (b ∷ b' ∷ bs) i current x u = inr (link-taken (b' ∷ bs) (i + 1) _ x u)

  link-shape :
      (bs : List Block) (i current : ℕ)
      → 0 < block_size bs
      → block_size (link_block i current bs new).1 ≡ block_size bs
  unfolding link_block
  link-shape [] i current h = absurd (omega arith)
  link-shape (b ∷ []) i current h = refl
  link-shape (b ∷ b' ∷ bs) i current h = refl

  link-Valid :
      (bs : List Block) (i current : ℕ)
      → Valid bs
      → Valid (new ∷ [])
      → ((x : ℕ) → CoveredBy new x → ¬ Covers bs x)
      → Valid (link_block i current bs new).1
  unfolding link_block
  link-Valid [] i current v w apart = w
  link-Valid (b ∷ []) i current v w apart =
      (v.0, v.1, v.2, v.3, λ x c d. elim d [ inl n ↦ apart x n (inl c) | inr o ↦ o ], w)
  link-Valid (b ∷ b' ∷ bs) i current v w apart = (
    v.0,
    v.1,
    v.2,
    v.3,
    λ x c d. elim (link-Covers (b' ∷ bs) (i + 1) _ x d) [
      | inl n ↦ apart x n (inl c)
      | inr o ↦ v.4 x c o
    ],
    link-Valid (b' ∷ bs) (i + 1) _ v.5 w (λ x n o. apart x n (inr o)),
  )

-- A pool whose blocks are valid, of a size that leaves room for the largest small request.
pub record IsValid (pool : Pool) : Type 0 where
  pub valid : Valid pool.blocks
  pub roomy : pool.max + sizeof_pool ≤ block_size pool.blocks
  pub whole : block_size pool.blocks % 8 ≡ 0

-- The bytes handed out were free before and are used now, and used bytes stay used.
pub record Handed (before : Pool) (size : ℕ) (out : ℕ × Pool) : Type 0 where
  pub valid : IsValid (out.1)
  pub kept : (x : ℕ) → Used before.blocks x → Used out.1.blocks x
  pub taken : (x : ℕ) → out.0 ≤ x → x < out.0 + size → Used out.1.blocks x
  pub free : (x : ℕ) → out.0 ≤ x → x < out.0 + size → ¬ Used before.blocks x

-- `malloc` returned `m`, aligned and apart from the blocks of the pool.
pub record IsNew (pool : Pool) (m : ℕ) : Type 0 where
  pub aligned : m % 8 ≡ 0
  pub bounded : m + block_size pool.blocks < 2 ^ 63
  pub apart : (x : ℕ) → m ≤ x → x < m + block_size pool.blocks → ¬ Covers pool.blocks x

module _ (pool : Pool) (m size : ℕ) (v : IsValid pool) (n : IsNew pool m)
    (small : size ≤ pool.max) where
  palloc_block-Handed : Handed pool size (palloc_block m pool size)
  unfolding palloc_block
  palloc_block-Handed =
      let new : Block = new_block m (block_size pool.blocks) size in
      record {
        valid = record {
          valid =
              link-Valid new pool.blocks 0 pool.current v.valid
                (
                  omega (arith, v, n),
                  omega (arith, v, n),
                  omega (arith, v, n),
                  omega (arith, v, n),
                  λ x c d. d,
                  tt,
                )
                (λ x c. n.apart x (c.0) (c.1));
          roomy = omega (arith, v, link-shape new pool.blocks 0 pool.current);
          whole = omega (arith, v, link-shape new pool.blocks 0 pool.current);
        };
        kept = link-kept new pool.blocks 0 pool.current;
        taken = λ x p q.
            link-taken new pool.blocks 0 pool.current x (omega (arith, v, n), omega (arith, v, n));
        free = λ x p q u.
            n.apart x (omega (arith, v, n)) (omega (arith, v, n))
              (Used-Covers pool.blocks v.valid x u);
      }

  either_way :
      (found : Option (ℕ × List Block))
      → Found size pool.blocks found
      → Handed pool size (elim found [
        | some (p, blocks) ↦ (p, record pool { blocks = blocks })
        | none ↦ palloc_block m pool size
      ])
  either_way none f = palloc_block-Handed
  either_way (some (p, blocks)) f = record {
    valid = record {
      valid = f.valid;
      roomy = omega (arith, v, f.shape);
      whole = omega (arith, v, f.shape);
    };
    kept = f.kept;
    taken = f.taken;
    free = f.free;
  }

  -- On a valid pool, at a size of at most its max and with a new aligned block from malloc at hand,
  -- nx_palloc_small hands out bytes that nothing used before; they are used then, used bytes stay
  -- used, and the pool stays valid.
  pub palloc_small-Handed : (aligned : Bool) → Handed pool size (palloc_small m pool size aligned)
  unfolding palloc_small
  palloc_small-Handed aligned =
      either_way (small_from pool.current pool.blocks size aligned)
        (small_from-Found size aligned pool.current pool.blocks v.valid)
