-- ===== src/NxBuf/Sent.antt =====
-- src/base/nx_buf.c, nx_chain_update_sent: a chain as the bytes that are left to send.
use mathlib.Core.Path.{refl, sym, ap, ◌∙◌}
use kj_cpp_redis.NxBuf.{Buf, buf_size, text}
use kj_cpp_redis.NxBuf.Chain.{chain_text, update_sent}
use kj_cpp_redis.Prelude.{
  ℕ, ◌+◌, ◌-◌, ◌^◌, ◌≤◌, ◌<◌, ◌≡◌, List, [], ◌∷◌, ◌++◌, length, take, drop, length-window,
  drop-window, window_eq, drop-append, drop-all, count_eq, arith,
}

pub record IsValid (b : Buf) : Type 0 where
  pub pos_last : b.pos ≤ b.last
  pub last_end : b.last ≤ length b.memory
  pub last_word : b.last < 2 ^ 64

-- Every buffer of a chain is valid.
pub data AreValid : List Buf → Type 0 where
  nothing : AreValid []
  link : {b : Buf} {bs : List Buf} → IsValid b → AreValid bs → AreValid (b ∷ bs)

module _ {b : Buf} (v : IsValid b) where
  pub buf_size-pos : buf_size b + b.pos ≡ b.last
  buf_size-pos = omega (arith, v.pos_last, v.last_word)

  pub length-text : length (text b) ≡ buf_size b
  length-text = length-window b.memory b.pos (buf_size b) (omega (arith, v.last_end, buf_size-pos))

  -- A buffer whose pos has moved within its bytes holds the others.
  text-moved : (n : ℕ) → n ≤ buf_size b → text (record b { pos = b.pos + n }) ≡ drop n (text b)
  text-moved n h =
      window_eq b.memory (b.pos + n) (b.pos + n) (buf_size (record b { pos = b.pos + n }))
        (buf_size b - n) refl (omega (arith, buf_size-pos, v.pos_last, v.last_word))
      ∙ sym (drop-window b.memory b.pos (buf_size b) n)

  text-passed : text (record b { pos = b.last }) ≡ []
  text-passed =
      count_eq (λ n. take n (drop b.last b.memory)) (buf_size (record b { pos = b.last })) 0
        (omega (arith, v.last_word))

-- What is left of a chain after bytes of its first buffer.
drop-chain :
    {b : Buf} (v : IsValid b) (bs : List Buf) (n : ℕ)
    → drop n (chain_text (b ∷ bs)) ≡ drop n (text b) ++ drop (n - buf_size b) (chain_text bs)
drop-chain {b} v bs n =
    drop-append n (text b) (chain_text bs)
    ∙ ap (λ k. drop n (text b) ++ drop (n - k) (chain_text bs)) (length-text v)

-- On a chain of valid buffers nx_chain_update_sent leaves the bytes behind the first sent ones, as
-- many as there are: the chain that it returns holds them, the buffers that it passes hold nothing,
-- and no buffer is lost.
pub update_sent-drop :
    (bs : List Buf) (n : ℕ)
    → AreValid bs
    → let (passed, rest) = update_sent bs n in
      (chain_text rest ≡ drop n (chain_text bs))
      × (chain_text passed ≡ [])
      × (length passed + length rest ≡ length bs)
unfolding update_sent
update_sent-drop [] n nothing = (sym (drop-all n [] (omega arith)), refl, omega arith)
update_sent-drop (b ∷ bs) n (link v vs) = ground (
  arith,
  update_sent-drop bs (n - buf_size b) vs,
  drop-chain v bs n,
  text-passed v,
  text-moved v n,
  drop-all n (text b),
  length-text v,
)
