-- ===== src/Reply/RoundTrip/Overwrite.antt =====
-- `__build_simple_string_plain` on a line of which a piece has been copied before.
use kj_cpp_redis.BipBuf.Content.{get_committed_size-length, length-block}
use kj_cpp_redis.BipBuf.Inv.{IsValid}
use kj_cpp_redis.BipBuf.{get_contiguous_block}
use kj_cpp_redis.NxBuf.{Buf, text, free_space}
use kj_cpp_redis.Reply.Builder.{builder, set_builder, consume}
use kj_cpp_redis.Reply.Read.Integer.{find_str-line}
use kj_cpp_redis.Reply.RoundTrip.Lines.{append_loop-once}
use kj_cpp_redis.Reply.Text.{
  simple_string_extent, append_at_pos, append_loop, build_simple_string_plain,
}
use kj_cpp_redis.Reply.Types.{over, Context, Node}
use kj_cpp_redis.Strstr.Prefix.{Lacks}
use kj_cpp_redis.Prelude.{
  ℕ, suc, ◌+◌, ◌-◌, ◌*◌, ◌^◌, ◌≤◌, ◌<◌, ◌≡◌, ◌∙◌, ap, refl, sym, some, List, [], ◌∷◌, ◌++◌, arith,
  length, length-append, length-take, take, take-take, take-prefix, overwrite, window-overwrite,
  window_eq, length-overwrite, length-window, count_eq, add_u32, add_size, sub_size, min,
}

module _ (fresh : ℕ → List ℕ) (fresh_length : (n : ℕ) → length (fresh n) ≡ n) where
  -- The text of the buffer starts with the bytes that were copied last.
  text-overwritten :
      (b : Buf) (piece rest : List ℕ) (n : ℕ)
      → b.pos ≡ 0
      → b.last ≡ n
      → n + length piece ≤ length b.memory
      → length b.memory < 2 ^ 62
      → take (length piece) (text (append_at_pos b (piece ++ rest) (length piece))) ≡ piece
  unfolding append_at_pos
  text-overwritten b piece rest n start last fits small =
      let m : ℕ = length piece in
      let front : List ℕ = take m (piece ++ rest) in
      let new : List ℕ = overwrite b.memory b.pos front in
      ap (take m)
        (window_eq new b.pos 0 (sub_size (add_size b.last m) b.pos) (n + m) start (omega arith))
      ∙ take-take m (n + m) new
      ∙ count_eq (λ k. take k new) (min m (n + m)) (length front)
          (omega (arith, length-take m (piece ++ rest), length-append piece rest))
      ∙ window_eq new 0 b.pos (length front) (length front) (sym start) refl
      ∙ window-overwrite b.memory b.pos front
          (omega (arith, length-take m (piece ++ rest), length-append piece rest))
      ∙ take-prefix piece rest

  text-length :
      (b : Buf) (piece rest : List ℕ) (n : ℕ)
      → b.pos ≡ 0
      → b.last ≡ n
      → n + length piece ≤ length b.memory
      → length b.memory < 2 ^ 62
      → length (text (append_at_pos b (piece ++ rest) (length piece))) ≡ n + length piece
  unfolding append_at_pos
  text-length b piece rest n start last fits small =
      let m : ℕ = length piece in
      let front : List ℕ = take m (piece ++ rest) in
      let new : List ℕ = overwrite b.memory b.pos front in
      let size : length front ≡ m =
        omega (arith, length-take m (piece ++ rest), length-append piece rest) in
      let whole : length new ≡ length b.memory =
        length-overwrite b.memory b.pos front (omega arith) in
      ap length
        (window_eq new b.pos 0 (sub_size (add_size b.last m) b.pos) (n + m) start (omega arith))
      ∙ length-window new 0 (n + m) (omega arith)

  append_loop-piece :
      (b : Buf) (piece rest : List ℕ) (store_len len : ℕ)
      → 0 < length piece
      → length piece ≤ free_space b
      → append_loop fresh
          (2 * length piece + 1)
          (piece ++ rest)
          (length piece)
          (record { vall = b ∷ []; store_len = store_len; len = len })
        ≡ some (record {
          vall = append_at_pos b (piece ++ rest) (length piece) ∷ [];
          store_len = add_u32 store_len (length piece);
          len = len;
        })
  append_loop-piece b piece rest store_len len pos h =
      count_eq
        (λ f.
          append_loop fresh f (piece ++ rest) (length piece)
            (record { vall = b ∷ []; store_len = store_len; len = len }))
        (2 * length piece + 1) (suc (suc (2 * length piece - 1))) (omega arith)
      ∙ append_loop-once fresh fresh_length (2 * length piece - 1) (piece ++ rest) (length piece) b
          store_len len pos h

  plain-piece :
      (i : ℕ) (c : Context) (r : Node) (b : Buf) (piece rest : List ℕ)
      → IsValid c.bb
      → get_contiguous_block c.bb ≡ piece ++ (13 ∷ 10 ∷ rest)
      → Lacks 13 piece
      → 0 < length piece
      → r.vall ≡ b ∷ []
      → length piece ≤ free_space b
      → let m : ℕ = length piece in
        let k : ℕ = add_u32 (builder c i).store_len m in
        build_simple_string_plain fresh i c r ≡ (
          over,
          consume (set_builder c i (record (builder c i) { store_len = k })) (m + 2),
          record r { vall = append_at_pos b (piece ++ (13 ∷ 10 ∷ rest)) m ∷ []; bytes = k },
        )
  unfolding build_simple_string_plain simple_string_extent
  plain-piece i c r b piece rest v e h pos one fits =
      let m : ℕ = length piece in
      let sizes : length (get_contiguous_block c.bb) ≡ m + (length rest + 2) =
        ap length e ∙ length-append piece (13 ∷ 10 ∷ rest) ∙ omega arith in
      ground (
        arith,
        get_committed_size-length v,
        length-block v,
        find_str-line c.bb piece rest e h,
        append_loop-piece b piece (13 ∷ 10 ∷ rest) (builder c i).store_len (builder c i).len pos
            fits,
      )

  -- When n bytes of a line are in the buffer of the reply, with room for the others, and the input
  -- of a valid buffer holds the rest of the line with its end, the call returns RRB_OVER with a text
  -- of the right length that starts with the rest of the line, not with the n bytes.
  pub plain-overwrites :
      (i : ℕ) (c : Context) (r : Node) (b : Buf) (n : ℕ) (piece rest : List ℕ)
      → IsValid c.bb
      → get_contiguous_block c.bb ≡ piece ++ (13 ∷ 10 ∷ rest)
      → Lacks 13 piece
      → 0 < length piece
      → r.vall ≡ b ∷ []
      → b.pos ≡ 0
      → b.last ≡ n
      → n + length piece ≤ length b.memory
      → length b.memory < 2 ^ 62
      → (c' : Context) × (b' : Buf) × (k : ℕ) × (build_simple_string_plain fresh i c r
          ≡ (over, c', record r { vall = b' ∷ []; bytes = k }))
        × (length (text b') ≡ n + length piece)
        × (take (length piece) (text b') ≡ piece)
  plain-overwrites i c r b n piece rest v e h pos one start last fits small = (
    _,
    _,
    _,
    plain-piece i c r b piece rest v e h pos one (omega arith),
    text-length b piece (13 ∷ 10 ∷ rest) n start last fits small,
    text-overwritten b piece (13 ∷ 10 ∷ rest) n start last fits small,
  )
