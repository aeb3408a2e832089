-- ===== src/NxBuf/Chains.antt =====
-- src/base/nx_buf.c, nx_chain_update_chains: the busy chain as a queue of bytes, and the buffers that
-- it has sent as buffers for use again.
use mathlib.Core.Path.{refl, sym, ap, ◌∙◌}
use kj_cpp_redis.NxBuf.{Buf, buf_size, text}
use kj_cpp_redis.NxBuf.Chain.{
  chain_text, rewound, link_bufs, create_chain_of_bufs, get_free_buf, free_front, update_chains,
}
use kj_cpp_redis.Prelude.{
  ℕ, zero, suc, ◌*◌, ◌%◌, ◌^◌, drop, ◌+◌, ◌<◌, ◌≡◌, List, [], ◌∷◌, ◌++◌, append_assoc, length,
  window, length-append, ◌==◌, Bool-cases, ==_iff, inl, inr, arith,
}

-- Every buffer of a chain holds nothing and its pos is at its start.
pub data AreFree : List Buf → Type 0 where
  none_free : AreFree []
  one_free : {b : Buf} {bs : List Buf} → b.pos ≡ 0 → b.last ≡ 0 → AreFree bs → AreFree (b ∷ bs)

-- A chain is empty or its first buffer holds bytes.
pub data HasBytes : List Buf → Type 0 where
  all_sent : HasBytes []
  some_left : {b : Buf} {bs : List Buf} → 0 < buf_size b → HasBytes (b ∷ bs)

chain_text-append : (us vs : List Buf) → chain_text (us ++ vs) ≡ chain_text us ++ chain_text vs
chain_text-append [] vs = refl
chain_text-append (u ∷ us) vs =
    ap (λ t. text u ++ t) (chain_text-append us vs)
    ∙ sym (append_assoc (text u) (chain_text us) (chain_text vs))

-- What `free_front` makes of two chains.
pub record Freed (free busy : List Buf) (result : List Buf × List Buf) : Type 0 where
  pub bytes : chain_text result.1 ≡ chain_text busy
  pub front : HasBytes result.1
  pub freed : AreFree result.0
  pub count : length result.0 + length result.1 ≡ length free + length busy

-- A buffer without bytes goes to the free chain.
Freed-free :
    {b : Buf} {free busy : List Buf} {result : List Buf × List Buf}
    → buf_size b ≡ 0
    → Freed (rewound b ∷ free) busy result
    → Freed free (b ∷ busy) result
Freed-free {b} {free} {busy} z f = record {
  bytes = f.bytes ∙ ap (λ n. window b.memory b.pos n ++ chain_text busy) (sym z);
  front = f.front;
  freed = f.freed;
  count = omega (arith, f.count);
}

free_front-Freed : (free busy : List Buf) → AreFree free → Freed free busy (free_front free busy)
unfolding free_front
free_front-Freed free [] h = record { bytes = refl; front = all_sent; freed = h; count = refl }
free_front-Freed free (b ∷ busy) h = elim (Bool-cases (buf_size b == 0)) [
  | inl z ↦ rw z (
      Freed-free ((==_iff (buf_size b) 0).0 z)
        (free_front-Freed (rewound b ∷ free) busy (one_free refl refl h)))
  | inr full ↦
      rw full (record { bytes = refl; front = some_left (ground arith); freed = h; count = refl })
]

-- The buffers that a block is cut into are free.
link_bufs-AreFree : (num size : ℕ) (p : List ℕ) → AreFree (link_bufs num size p)
unfolding link_bufs
link_bufs-AreFree zero size p = none_free
link_bufs-AreFree (suc num) size p = one_free refl refl (link_bufs-AreFree num size (drop size p))

pub create_chain_of_bufs-AreFree :
    (fresh : ℕ → List ℕ) (num size : ℕ) → AreFree (create_chain_of_bufs fresh num size)
unfolding create_chain_of_bufs
create_chain_of_bufs-AreFree fresh num size =
    link_bufs-AreFree num size (fresh (num * size % 2 ^ 64))

-- What is taken from a free chain holds nothing, and a free chain is left.
pub get_free_buf-AreFree :
    (free : List Buf)
    → AreFree free
    → let (b, free') = get_free_buf free in (b.pos ≡ 0) × (b.last ≡ 0) × AreFree free'
unfolding get_free_buf
get_free_buf-AreFree [] h = (refl, refl, none_free)
get_free_buf-AreFree (b ∷ free) (one_free p l h) = (p, l, h)

-- With a free chain of buffers that are empty at their start, nx_chain_update_chains puts the bytes
-- of the out chain behind those of the busy one and loses none, leaves a busy chain that is empty or
-- starts with a buffer that holds bytes and a free chain of buffers that are empty at their start,
-- loses no buffer, and empties the out chain.
pub update_chains-queue :
    (free busy out : List Buf)
    → AreFree free
    → let (free', busy', out') = update_chains free busy out in
      (chain_text busy' ≡ chain_text busy ++ chain_text out)
      × HasBytes busy'
      × AreFree free'
      × (length free' + length busy' ≡ length free + (length busy + length out))
      × (out' ≡ [])
unfolding update_chains
update_chains-queue free busy out h =
    let f = free_front-Freed free (busy ++ out) h in
    (
      f.bytes ∙ chain_text-append busy out,
      f.front,
      f.freed,
      omega (arith, f.count, length-append busy out),
      refl,
    )
