-- ===== src/Reply/Text/Bulk.antt =====
-- `__build_bulk_string_plain`: a bulk string gathered from one or more pieces of input.
use kj_cpp_redis.BipBuf.Content.{get_committed_size-length, length-block}
use kj_cpp_redis.BipBuf.Inv.{IsValid}
use kj_cpp_redis.BipBuf.{get_contiguous_block}
use kj_cpp_redis.NxBuf.{Buf}
use kj_cpp_redis.Reply.Types.{premature, Context, Node}
use kj_cpp_redis.Reply.Builder.{consume, builder}
use kj_cpp_redis.Reply.Text.{build_bulk_string_plain, finish_bulk_string}
use kj_cpp_redis.Prelude.{
  ℕ, ◌+◌, ◌-◌, ◌^◌, ◌≤◌, ◌<◌, ◌≡◌, ◌∙◌, ap₂, refl, true, List, [], ◌∷◌, ◌++◌, arith, length, take,
  window, overwrite, add_size, length-append, take-all, window-add, window-overwrite,
  window-overwrite_before, length-overwrite, length-take, window_eq,
}

-- The buffer of a bulk string of `n` bytes into which `got` has been copied.
pub record Gathered (n : ℕ) (got : List ℕ) (b : Buf) : Type 0 where
  pub at_start : b.pos ≡ 0
  pub filled : b.last ≡ length got
  pub holds : window b.memory 0 (length got) ≡ got
  pub size : length b.memory ≡ n + 3

-- The buffer after `memcpy(b->last, p1, …)` of `bytes`.
abbrev pub appended : Buf → List ℕ → Buf
appended b bytes = record b {
  memory = overwrite b.memory b.last bytes;
  last = add_size b.last (length bytes);
}

pub appended-Gathered :
    {n : ℕ} {got : List ℕ} {b : Buf} (bytes : List ℕ)
    → n < 2 ^ 31
    → Gathered n got b
    → length got + length bytes ≤ n + 3
    → Gathered n (got ++ bytes) (appended b bytes)
appended-Gathered {n} {got} {b} bytes small g h =
    let both = length-append got bytes in
    record {
      at_start = g.at_start;
      filled = omega (arith, both, g);
      holds =
          window_eq (overwrite b.memory b.last bytes) 0 0 (length (got ++ bytes))
            (length got + length bytes) refl both
          ∙ window-add (overwrite b.memory b.last bytes) 0 (length got) (length bytes)
          ∙ ap₂ ◌++◌
              (window-overwrite_before b.memory 0 (length got) b.last bytes (omega (arith, g))
                  (omega (arith, g))
                ∙ g.holds)
              (window_eq (overwrite b.memory b.last bytes) (0 + length got) b.last (length bytes)
                  (length bytes) (omega (arith, g)) refl
                ∙ window-overwrite b.memory b.last bytes (omega (arith, g)));
      size = length-overwrite b.memory b.last bytes (omega (arith, g)) ∙ g.size;
    }

module _ {n : ℕ} {got : List ℕ} {b : Buf} (i : ℕ) (c : Context) (r : Node) (small : n < 2 ^ 31)
    (v : IsValid c.bb) (one : r.vall ≡ b ∷ []) (expected : (builder c i).store_len ≡ n)
    (g : Gathered n got b) (room : length got < n + 2) where
  abbrev input : List ℕ
  input = get_contiguous_block c.bb

  -- Input that does not reach the end of a bulk string is all consumed and joins what was gathered,
  -- for a length below 2^31 and a valid buffer.
  pub plain-premature :
      length got + length input < n + 2
      → build_bulk_string_plain i c r
        ≡ (premature, consume c (length input), record r { vall = appended b input ∷ [] })
  unfolding build_bulk_string_plain
  plain-premature h =
      ground (arith, get_committed_size-length v, length-block v, take-all (length input) input, g)

  -- Otherwise the rest of the string and its end are consumed.
  pub plain_complete :
      n + 2 ≤ length got + length input
      → build_bulk_string_plain i c r
        ≡ finish_bulk_string i c r
            (appended b (take (n + 2 - length got) input))
            (n + 2 - length got)
            true
  unfolding build_bulk_string_plain
  plain_complete h = ground (
    arith,
    get_committed_size-length v,
    length-block v,
    length-take (n + 2 - length got) input,
    g,
  )
