-- ===== src/NxBuf.antt =====
-- src/base/nx_buf.h and nx_buf.c: `nx_buf_t` over memory of its own. `start` is offset 0 and `end` is
-- the length of the memory. The bytes of a block that the pool hands out are not determined: `fresh n`
-- stands for those of a block of `n` bytes.
pub mod Chain
pub mod Sent
pub mod Chains
pub mod Pool
use kj_cpp_redis.Prelude.{ℕ, List, length, window, sub_size}

pub record Buf : Type 0 where
  pub memory : List ℕ
  pub pos : ℕ
  pub last : ℕ

-- `nx_buf_size`
abbrev pub buf_size : Buf → ℕ
buf_size b = sub_size b.last b.pos

-- `b->end - b->last`
abbrev pub free_space : Buf → ℕ
free_space b = sub_size (length b.memory) b.last

-- The bytes between `pos` and `last`.
abbrev pub text : Buf → List ℕ
text b = window b.memory b.pos (buf_size b)

-- `nx_create_temp_buf`
unfoldable pub create_temp_buf : (ℕ → List ℕ) → ℕ → Buf
create_temp_buf fresh size = record { memory = fresh size; pos = 0; last = 0 }
